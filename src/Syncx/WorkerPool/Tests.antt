-- ===== src/Syncx/WorkerPool/Tests.antt =====
-- syncx/go.go: a pool of two workers, one of which dies of a panic.
use g_micor.Base.{ℕ, ◌≡◌, ◌↔◌, refl, Bool, false, [], ◌∷◌, matches}
use g_micor.Syncx.WorkerPool.{
  WorkerPool, idle, dead, submit, take_task, task_returns, task_panics, Reach, start, submits,
  takes, returns, panics,
}
use g_micor.Syncx.WorkerPool.Tasks.{wait_iff}

abbrev one_lost : WorkerPool ℕ
one_lost = record {
  sending = [];
  workers = dead ∷ idle ∷ [];
  wg = 1;
  closed = false;
  finished = 8 ∷ [];
  lost = 7 ∷ [];
}

one_lost_reached : Reach 2 (7 ∷ 8 ∷ []) one_lost
unfolding submit take_task task_returns task_panics
one_lost_reached =
    let both = takes 1 0 8 (takes 0 0 7 (submits 8 (submits 7 start)) refl refl) refl refl in
    returns 1 8 (panics 0 7 both refl) refl

wait_iff_example :
    (◌≡◌ {A = ℕ} 1 0) ↔ ((test : ℕ → Bool) → matches test (8 ∷ []) ≡ matches test (7 ∷ 8 ∷ []))
wait_iff_example = wait_iff one_lost_reached
