-- ===== src/Syncx/SingleFlight/Promises.antt =====
-- syncx/singleflight.go: what callers of `Do` can rely on.
use g_micor.Base.{
  ℕ, ◌≡◌, ◌⊎◌, List, refl, ap, sym, ◌∙◌, inl, inr, String, Option, none, some, some_inj,
}
use g_micor.Syncx.SingleFlight.{
  Phase, starting, waiting, running, leaving, ending, returned, panicked, SingleFlight, Step,
  creates, fn_ends, clears, ends, wakes, Reach,
}
use g_micor.Syncx.SingleFlight.Sound.{owner, holds, owner-holds, At}
use g_micor.Syncx.SingleFlight.Steps.{Reach-IsSound}

module _ {ℓ} {A : Type ℓ} {zero_value : A} {g : SingleFlight A} where
  -- The goroutine that is in `makeCall` for a call can go on.
  holder_steps :
      (i : ℕ) (p : Phase A) (c : ℕ)
      → At g i p
      → holds p ≡ some c
      → (g' : SingleFlight A) × Step zero_value g g'
  holder_steps i (starting key) o at own = absurd cc
  holder_steps i (waiting key c) o at own = absurd cc
  holder_steps i (running key c) o at own = (_, fn_ends i key c zero_value none at)
  holder_steps i (leaving key c panics) o at own = (_, clears i key c panics at)
  holder_steps i (ending c panics) o at own = (_, ends i c panics at)
  holder_steps i (returned c val err) o at own = absurd cc
  holder_steps i panicked o at own = absurd cc

module _ {ℓ} {A : Type ℓ} {zero_value : A} {keys : List String} {g : SingleFlight A} where
  -- At no time do two goroutines run a function for the same key.
  pub one_runs :
      Reach zero_value keys g
      → {i j : ℕ} {p q : Phase A} {key : String} {c d : ℕ} → At g i p
      → owner p ≡ some (key, c)
      → At g j q
      → owner q ≡ some (key, d)
      → i ≡ j
  one_runs r {i} {j} {p} {q} {key} {c} {d} at own at' own' =
      let v = Reach-IsSound r in
      let same = some_inj (sym (v.held i p key c at own) ∙ v.held j q key d at' own') in
      v.unique i j p q c at (owner-holds p own) at'
        (owner-holds q own' ∙ ap (λ n. some n) (sym same))

  -- Goroutines that return from the same call return the same.
  pub results_agree :
      Reach zero_value keys g
      → (i j : ℕ) {c : ℕ} {val val' : A} {err err' : Option String} → At g i (returned c val err)
      → At g j (returned c val' err')
      → (val ≡ val') × (err ≡ err')
  results_agree r i j {c} {val} {val'} {err} {err'} at at' =
      let v = Reach-IsSound r in
      let (call, there, over, same_val, same_err) = v.results i c val err at in
      let (call', there', over', same_val', same_err') = v.results j c val' err' at' in
      let both = some_inj (sym there ∙ there') in
      (
        sym same_val ∙ ap (λ x. x.val) both ∙ same_val',
        sym same_err ∙ ap (λ x. x.err) both ∙ same_err',
      )

  -- Nobody is stuck: as long as a goroutine has not left `Do`, some goroutine can go on, if functions
  -- come to an end.
  pub no_deadlock :
      Reach zero_value keys g
      → (i : ℕ) (p : Phase A) → At g i p
      → ((g' : SingleFlight A) × Step zero_value g g')
        ⊎ ((p ≡ panicked)
            ⊎ ((c : ℕ) × (val : A) × (err : Option String) × (p ≡ returned c val err)))
  no_deadlock r i (starting key) at = inl (_, creates i key at)
  no_deadlock r i (waiting key c) at =
      let v = Reach-IsSound r in
      inl (elim (v.waits i key c at) [
        | inl (j, p, at', own) ↦ holder_steps j p c at' own
        | inr (call, there, over) ↦ (_, wakes i key c call at there over)
      ])
  no_deadlock r i (running key c) at = inl (holder_steps i (running key c) c at refl)
  no_deadlock r i (leaving key c panics) at = inl (holder_steps i (leaving key c panics) c at refl)
  no_deadlock r i (ending c panics) at = inl (holder_steps i (ending c panics) c at refl)
  no_deadlock r i (returned c val err) at = inr (inr (c, val, err, refl))
  no_deadlock r i panicked at = inr (inl refl)
