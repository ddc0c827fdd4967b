-- ===== src/Logx.antt =====
-- logx/openObserver.go: the buffer of log entries and its batches. `Handle` and `Flush` run in any number of
-- goroutines; a step is what one of them does under the lock, or the end of a request that sends a batch.
pub mod Entry
mod Tests
use g_micor.Base.{
  ℕ, zero, suc, ◌+◌, ◌≡◌, refl, ap, sym, ◌∙◌, Bool, true, false, Option, none, some, List, [], ◌∷◌,
  map, ◌++◌, arith, get_elem?, if◌then◌else◌, some_inj, List-cases, inl, inr, remove_at, matches,
  matches_all, matches-append, matches_all-snoc, matches_all-remove_at,
}

-- `in_flight` are the batches of the running calls of `sendBatch`; `sent` and `failed` those of ended ones.
-- A batch of `sent_empty` could not be made a JSON text, and a request with an empty body was sent for it.
pub record OpenObserveHandler {ℓ} (E : Type ℓ) : Type ℓ where
  pub buffer : List E
  pub in_flight : List (List E)
  pub sent : List (List E)
  pub sent_empty : List (List E)
  pub failed : List (List E)

module _ {ℓ} {E : Type ℓ} where
  -- The part of `Handle` under the lock.
  unfoldable pub handle : E → OpenObserveHandler E → OpenObserveHandler E
  handle entry h = record h { buffer = h.buffer ++ entry ∷ [] }

  -- The part of `Flush` under the lock: an empty buffer is left, another one becomes a batch.
  unfoldable pub flush : OpenObserveHandler E → OpenObserveHandler E
  flush h = elim h.buffer [
    | [] ↦ h
    | entry ∷ entries ↦ record h { buffer = []; in_flight = h.in_flight ++ (entry ∷ entries) ∷ [] }
  ]

  -- `sendBatch`: the values of the entries that are errors become their texts (`prepare`, on one entry), and
  -- the batch goes out, without a body if it cannot be made a JSON text. One that could not be sent
  -- is not tried again.
  unfoldable pub send_batch :
      (E → E) → (List E → Bool) → ℕ → List E → Bool → OpenObserveHandler E → OpenObserveHandler E
  send_batch prepare marshals i batch went_well h =
      let prepared = map prepare batch in
      let rest = record h { in_flight = remove_at i h.in_flight } in
      if went_well
      then if marshals prepared
        then record rest { sent = h.sent ++ prepared ∷ [] }
        else record rest { sent_empty = h.sent_empty ++ prepared ∷ [] }
      else record rest { failed = h.failed ++ prepared ∷ [] }

  -- The states that are reached, with the entries that were handled until then.
  pub data Reach (prepare : E → E) (marshals : List E → Bool)
      : List E → OpenObserveHandler E → Type ℓ where
    start :
        Reach prepare marshals []
          (record { buffer = []; in_flight = []; sent = []; sent_empty = []; failed = [] })
    handles :
        {entries : List E} {h : OpenObserveHandler E} (entry : E)
        → Reach prepare marshals entries h
        → Reach prepare marshals (entries ++ entry ∷ []) (handle entry h)
    flushes :
        {entries : List E} {h : OpenObserveHandler E}
        → Reach prepare marshals entries h
        → Reach prepare marshals entries (flush h)
    sends :
        {entries : List E} {h : OpenObserveHandler E} (i : ℕ) (batch : List E) (went_well : Bool)
        → Reach prepare marshals entries h
        → get_elem? h.in_flight i ≡ some batch
        → Reach prepare marshals entries (send_batch prepare marshals i batch went_well h)

  abbrev pub kept : (E → Bool) → OpenObserveHandler E → ℕ
  kept test h =
      matches test h.buffer
      + matches_all test h.in_flight
      + matches_all test h.sent
      + matches_all test h.sent_empty
      + matches_all test h.failed

  kept-flush : (test : E → Bool) (h : OpenObserveHandler E) → kept test (flush h) ≡ kept test h
  unfolding flush
  kept-flush test h = elim (List-cases h.buffer) [
    | inl empty ↦ rw empty
    | inr (entry, entries, e) ↦
        rw e (omega (arith, matches_all-snoc test h.in_flight (entry ∷ entries)))
  ]

  matches-prepared :
      (test : E → Bool) (prepare : E → E)
      → ((e : E) → test (prepare e) ≡ test e)
      → (batch : List E) → matches test (map prepare batch) ≡ matches test batch
  matches-prepared test prepare same [] = refl
  matches-prepared test prepare same (e ∷ batch) =
      ground (arith, same e, matches-prepared test prepare same batch)

  kept-send_batch :
      (test : E → Bool) (prepare : E → E) (marshals : List E → Bool) (i : ℕ) (batch : List E)
      (went_well : Bool) (h : OpenObserveHandler E)
      → ((e : E) → test (prepare e) ≡ test e)
      → get_elem? h.in_flight i ≡ some batch
      → kept test (send_batch prepare marshals i batch went_well h) ≡ kept test h
  unfolding send_batch
  kept-send_batch test prepare marshals i batch went_well h same e = ground (
    arith,
    matches_all-remove_at test i h.in_flight batch e,
    matches_all-snoc test h.sent (map prepare batch),
    matches_all-snoc test h.sent_empty (map prepare batch),
    matches_all-snoc test h.failed (map prepare batch),
    matches-prepared test prepare same batch,
  )

  -- No entry is sent twice, or leaves the handler without a batch. In every state, in whatever order calls of
  -- `Handle` and `Flush` go on and requests end, and for every test of entries that does not see errors become
  -- texts: the buffer and the batches that are being sent, were sent, were sent without a body or could
  -- not be sent hold together as many entries that pass it as were handled.
  pub Reach-kept :
      {prepare : E → E} {marshals : List E → Bool} (test : E → Bool) {entries : List E}
      {h : OpenObserveHandler E}
      → ((e : E) → test (prepare e) ≡ test e)
      → Reach prepare marshals entries h
      → kept test h ≡ matches test entries
  unfolding handle
  Reach-kept test same start = refl
  Reach-kept test same (handles {entries} {h} entry r) = omega (
    arith,
    Reach-kept test same r,
    matches-append test h.buffer (entry ∷ []),
    matches-append test entries (entry ∷ []),
  )
  Reach-kept test same (flushes {entries} {h} r) = kept-flush test h ∙ Reach-kept test same r
  Reach-kept {prepare} {marshals} test same (sends {entries} {h} i batch went_well r e) =
      kept-send_batch test prepare marshals i batch went_well h same e ∙ Reach-kept test same r
