-- ===== src/Syncx/SingleFlight/Tests.antt =====
-- syncx/singleflight.go: two goroutines with the same key, whose function panics.
use g_micor.Base.{
  ℕ, ◌≡◌, ◌⊎◌, refl, String, Option, none, List, [], ◌∷◌, true, false, lookup, insert, delete,
}
use g_micor.Syncx.SingleFlight.{
  Phase, waiting, running, returned, panicked, SingleFlight, create_call, clear_call, end_call,
  wake, fn_returns, Step, creates, fn_ends, fn_panics, clears, ends, wakes, Reach, start, step,
}
use g_micor.Syncx.SingleFlight.Sound.{IsSound}
use g_micor.Syncx.SingleFlight.Steps.{Reach-IsSound}
use g_micor.Syncx.SingleFlight.Promises.{one_runs, results_agree, no_deadlock}

abbrev two : List String
two = "k" ∷ "k" ∷ []

abbrev one_call : List (Phase ℕ) → SingleFlight ℕ
one_call phases = record {
  calls = ("k", 0) ∷ [];
  all_calls = record { val = 0; err = none; done = false } ∷ [];
  goroutines = phases;
}

abbrev after : ℕ → List (Phase ℕ) → SingleFlight ℕ
after val phases = record {
  calls = [];
  all_calls = record { val = val; err = none; done = true } ∷ [];
  goroutines = phases;
}

both_in : Reach 0 two (one_call (running "k" 0 ∷ waiting "k" 0 ∷ []))
unfolding create_call lookup insert
both_in = step (step start (creates 0 "k" refl)) (creates 1 "k" refl)

panic_clears : Reach 0 two (after 0 (panicked ∷ waiting "k" 0 ∷ []))
unfolding clear_call end_call lookup delete
panic_clears =
    step (step (step both_in (fn_panics 0 "k" 0 refl)) (clears 0 "k" 0 true refl))
      (ends 0 0 true refl)

-- The other goroutine has the zero value and no error.
panic_hidden : Reach 0 two (after 0 (panicked ∷ returned 0 0 none ∷ []))
unfolding wake
panic_hidden =
    step panic_clears (wakes 1 "k" 0 (record { val = 0; err = none; done = true }) refl refl refl)

both_out : Reach 0 two (after 7 (returned 0 7 none ∷ returned 0 7 none ∷ []))
unfolding fn_returns clear_call end_call wake lookup delete
both_out =
    step
      (step (step (step both_in (fn_ends 0 "k" 0 7 none refl)) (clears 0 "k" 0 false refl))
        (ends 0 0 false refl))
      (wakes 1 "k" 0 (record { val = 7; err = none; done = true }) refl refl refl)

Reach-IsSound_example : IsSound (after 7 (returned 0 7 none ∷ returned 0 7 none ∷ []))
Reach-IsSound_example = Reach-IsSound both_out

one_runs_example : ◌≡◌ {A = ℕ} 0 0
one_runs_example = one_runs both_in {i = 0} {j = 0} {key = "k"} refl refl refl refl

results_agree_example : (◌≡◌ {A = ℕ} 7 7) × (◌≡◌ {A = Option String} none none)
results_agree_example = results_agree both_out 0 1 refl refl

no_deadlock_example :
    let g = one_call (running "k" 0 ∷ waiting "k" 0 ∷ []) in
    ((g' : SingleFlight ℕ) × Step 0 g g')
    ⊎ ((◌≡◌ {A = Phase ℕ} (waiting "k" 0) panicked)
        ⊎ ((c : ℕ) × (val : ℕ) × (err : Option String) × (◌≡◌ {A = Phase ℕ}
              (waiting "k" 0)
              (returned c val err))))
no_deadlock_example = no_deadlock both_in 1 (waiting "k" 0) refl
