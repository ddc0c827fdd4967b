-- ===== src/Syncx/WorkerPool/Tasks.antt =====
-- syncx/go.go: where the tasks of a pool are, and what `Wait` waits for.
use g_micor.Base.{
  ℕ, zero, suc, ◌+◌, ◌≤◌, ◌≡◌, ◌↔◌, refl, Bool, true, some, List, [], ◌∷◌, ◌++◌, map, get_elem?,
  replicate, matches, matches_all, matches-append, matches-remove_at, matches_all-modify,
  Bool-cases, inl, inr, arith,
}
use g_micor.Syncx.WorkerPool.{
  Worker, idle, busy, dead, stopped, WorkerPool, submit, take_task, task_returns, task_panics,
  close, stop, Reach, start, submits, takes, returns, panics, closes, stops,
}

module _ {ℓ} {T : Type ℓ} where
  -- The task that a worker executes.
  abbrev pub task_of : Worker T → List T
  task_of (busy task) = task ∷ []
  task_of _ = []

  -- How many tasks that pass a test are sent or executed.
  abbrev pub under_way : (T → Bool) → WorkerPool T → ℕ
  under_way test p = matches test p.sending + matches_all test (map task_of p.workers)

  record Adds (tasks : List T) (p : WorkerPool T) : Type ℓ where
    all_there :
        (test : T → Bool)
        → matches test tasks ≡ under_way test p + matches test p.finished + matches test p.lost
    counted : p.wg ≡ under_way (λ _. true) p + matches (λ _. true) p.lost

  none_busy :
      (test : T → Bool) (size : ℕ) → matches_all test (map task_of (replicate size idle)) ≡ 0
  none_busy test zero = refl
  none_busy test (suc size) = omega (arith, none_busy test size)

  submit-Adds :
      (tasks : List T) (p : WorkerPool T) (task : T)
      → Adds tasks p
      → Adds (tasks ++ task ∷ []) (submit task p)
  unfolding submit
  submit-Adds tasks p task a = elim (Bool-cases p.closed) [
    | inl e ↦
        rw (e, submit)
          (record {
            all_there = λ test. omega (
              arith,
              a.all_there test,
              matches-append test tasks (task ∷ []),
              matches-append test p.lost (task ∷ []),
            );
            counted = omega (arith, a.counted, matches-append (λ _. true) p.lost (task ∷ []));
          })
    | inr e ↦
        rw (e, submit)
          (record {
            all_there = λ test. omega (
              arith,
              a.all_there test,
              matches-append test tasks (task ∷ []),
              matches-append test p.sending (task ∷ []),
            );
            counted = omega (arith, a.counted, matches-append (λ _. true) p.sending (task ∷ []));
          })
  ]

  take_task-Adds :
      (tasks : List T) (p : WorkerPool T) (i k : ℕ) (task : T)
      → get_elem? p.workers i ≡ some idle
      → get_elem? p.sending k ≡ some task
      → Adds tasks p
      → Adds tasks (take_task i k task p)
  unfolding take_task
  take_task-Adds tasks p i k task free there a = record {
    all_there = λ test. omega (arith, a.all_there test, moved test);
    counted = omega (arith, a.counted, moved (λ _. true));
  }
    where
      moved : (test : T → Bool) → under_way test (take_task i k task p) ≡ under_way test p
      moved test = omega (
        arith,
        matches-remove_at test k p.sending task there,
        matches_all-modify test task_of i p.workers idle (busy task) free,
      )

  module _ (tasks : List T) (p : WorkerPool T) (i : ℕ) (task : T)
      (there : get_elem? p.workers i ≡ some (busy task)) (a : Adds tasks p) where
    task_returns-Adds : Adds tasks (task_returns i task p)
    unfolding task_returns
    task_returns-Adds = record {
      all_there = λ test. omega (
        arith,
        a.all_there test,
        matches_all-modify test task_of i p.workers (busy task) idle there,
        matches-append test p.finished (task ∷ []),
      );
      counted = omega (
        arith,
        a.counted,
        matches_all-modify (λ _. true) task_of i p.workers (busy task) idle there,
      );
    }

    task_panics-Adds : Adds tasks (task_panics i task p)
    unfolding task_panics
    task_panics-Adds = record {
      all_there = λ test. omega (
        arith,
        a.all_there test,
        matches_all-modify test task_of i p.workers (busy task) dead there,
        matches-append test p.lost (task ∷ []),
      );
      counted = omega (
        arith,
        a.counted,
        matches_all-modify (λ _. true) task_of i p.workers (busy task) dead there,
        matches-append (λ _. true) p.lost (task ∷ []),
      );
    }

  close-Adds : (tasks : List T) (p : WorkerPool T) → Adds tasks p → Adds tasks (close p)
  unfolding close
  close-Adds tasks p a = record {
    all_there = λ test. omega (arith, a.all_there test, matches-append test p.lost p.sending);
    counted = omega (arith, a.counted, matches-append (λ _. true) p.lost p.sending);
  }

  stop-Adds :
      (tasks : List T) (p : WorkerPool T) (i : ℕ)
      → get_elem? p.workers i ≡ some idle
      → Adds tasks p
      → Adds tasks (stop i p)
  unfolding stop
  stop-Adds tasks p i free a = record {
    all_there = λ test.
        omega
          (arith, a.all_there test, matches_all-modify test task_of i p.workers idle stopped free);
    counted =
        omega
          (arith, a.counted, matches_all-modify (λ _. true) task_of i p.workers idle stopped free);
  }

  Reach-Adds : {size : ℕ} {tasks : List T} {p : WorkerPool T} → Reach size tasks p → Adds tasks p
  Reach-Adds {size} start = record {
    all_there = λ test. omega (arith, none_busy test size);
    counted = omega (arith, none_busy (λ _. true) size);
  }
  Reach-Adds (submits {tasks} {p} task r) = submit-Adds tasks p task (Reach-Adds r)
  Reach-Adds (takes {tasks} {p} i k task r free there) =
      take_task-Adds tasks p i k task free there (Reach-Adds r)
  Reach-Adds (returns {tasks} {p} i task r there) =
      task_returns-Adds tasks p i task there (Reach-Adds r)
  Reach-Adds (panics {tasks} {p} i task r there) =
      task_panics-Adds tasks p i task there (Reach-Adds r)
  Reach-Adds (closes {tasks} {p} r open_still) = close-Adds tasks p (Reach-Adds r)
  Reach-Adds (stops {tasks} {p} i r free shut) = stop-Adds tasks p i free (Reach-Adds r)

  matches-le : (test : T → Bool) (xs : List T) → matches test xs ≤ matches (λ _. true) xs
  matches-le test [] = omega arith
  matches-le test (x ∷ xs) = ground (arith, matches-le test xs)

  matches_all-le :
      (test : T → Bool) (xss : List (List T)) → matches_all test xss ≤ matches_all (λ _. true) xss
  matches_all-le test [] = omega arith
  matches_all-le test (xs ∷ xss) = omega (arith, matches-le test xs, matches_all-le test xss)

  -- `Wait` returns exactly when every task that was submitted has returned, in whatever order goroutines
  -- submit and workers go on, and whether tasks panic or the pool is closed: in particular it never
  -- returns if a task has panicked.
  pub wait_iff :
      {size : ℕ} {tasks : List T} {p : WorkerPool T}
      → Reach size tasks p
      → (p.wg ≡ 0) ↔ ((test : T → Bool) → matches test p.finished ≡ matches test tasks)
  wait_iff {tasks = tasks} {p} r =
      let a = Reach-Adds r in
      (
        (λ none_left test. omega (
          arith,
          a.all_there test,
          a.counted,
          matches-le test p.sending,
          matches-le test p.lost,
          matches_all-le test (map task_of p.workers),
        )),
        λ all_returned. omega (arith, a.counted, a.all_there (λ _. true), all_returned (λ _. true)),
      )
