-- ===== src/Syncx/SingleFlight/Steps.antt =====
-- syncx/singleflight.go: all states that goroutines in `Do` reach.
use g_micor.Base.{
  ℕ, zero, suc, ◌≡◌, refl, ap, sym, ◌∙◌, true, String, some, some_inj, List, [], ◌∷◌, get_elem?,
  lookup, map, none-ne-some,
}
use g_micor.Syncx.SingleFlight.{
  Phase, starting, running, leaving, SingleFlight, Step, creates, fn_ends, fn_panics, clears, ends,
  wakes, Reach, start, step,
}
use g_micor.Syncx.SingleFlight.Sound.{owner, holds, IsSound, move}
use g_micor.Syncx.SingleFlight.Create.{create-IsSound}
use g_micor.Syncx.SingleFlight.End.{fn_returns-IsSound, wake-IsSound, clear-IsSound}
use g_micor.Syncx.SingleFlight.Over.{end-IsSound}

module _ {ℓ} {A : Type ℓ} where
  Step-IsSound :
      {zero_value : A} {g g' : SingleFlight A} → Step zero_value g g' → IsSound g → IsSound g'
  Step-IsSound {zero_value} {g} (creates i key here) v = create-IsSound zero_value i key g v here
  Step-IsSound {zero_value} {g} (fn_ends i key c val err here) v =
      fn_returns-IsSound i key c val err g v here
  Step-IsSound {zero_value} {g} (fn_panics i key c here) v =
      move g i (running key c) (leaving key c true) v here refl refl (λ k d e. absurd cc)
        (λ d val err e. absurd cc)
  Step-IsSound {zero_value} {g} (clears i key c panics here) v =
      clear-IsSound i key c panics g v here
  Step-IsSound {zero_value} {g} (ends i c panics here) v = end-IsSound i c panics g v here
  Step-IsSound {zero_value} {g} (wakes i key c call here there ended) v =
      wake-IsSound i key c call g v here there ended

  all_starting :
      (keys : List String) (i : ℕ) (p : Phase A)
      → get_elem? (map (λ key. starting key) keys) i ≡ some p
      → (key : String) × (p ≡ starting key)
  all_starting [] i p h = absurd cc
  all_starting (key ∷ keys) zero p h = (key, sym (some_inj h))
  all_starting (key ∷ keys) (suc i) p h = all_starting keys i p h

  start_state-IsSound :
      (keys : List String)
      → IsSound {A = A}
          (record { calls = []; all_calls = []; goroutines = map (λ key. starting key) keys })
  unfolding lookup
  start_state-IsSound keys = record {
    held = λ i p key c at own.
        let (key', e) = all_starting keys i p at in absurd (none-ne-some (ap owner (sym e) ∙ own));
    owned = λ key c h. absurd cc;
    unique = λ i j p q c at own at' own'.
        let (key, e) = all_starting keys i p at in absurd (none-ne-some (ap holds (sym e) ∙ own));
    is_open = λ i p c at own.
        let (key, e) = all_starting keys i p at in absurd (none-ne-some (ap holds (sym e) ∙ own));
    waits = λ i key c at. let (key', e) = all_starting keys i _ at in absurd cc;
    results = λ i c val err at. let (key', e) = all_starting keys i _ at in absurd cc;
  }

  -- In every state that goroutines in `Do` reach, in whatever order they go on and even if functions
  -- panic: the map holds just the calls that a goroutine is in `makeCall` for and has not taken off it yet; each
  -- call is run by one goroutine, and is not over until that has ended it; a waiting goroutine's call is
  -- over or a goroutine is in `makeCall` for it; and who has returned has the results of a call that is over.
  pub Reach-IsSound :
      {zero_value : A} {keys : List String} {g : SingleFlight A}
      → Reach zero_value keys g
      → IsSound g
  Reach-IsSound {keys = keys} start = start_state-IsSound keys
  Reach-IsSound (step r st) = Step-IsSound st (Reach-IsSound r)
