-- ===== src/Syncx/WorkerPool.antt =====
-- syncx/go.go: a pool of workers. A step is what one goroutine does: one that submits a task, or a worker. The
-- channel has no buffer, so that a task which is submitted waits with its goroutine until a worker
-- takes it.
pub mod Tasks
mod Tests
use g_micor.Base.{
  ℕ, zero, suc, ◌-◌, ◌≡◌, refl, Bool, true, false, some, List, [], ◌∷◌, ◌++◌, modify, get_elem?,
  remove_at, replicate,
}

-- A worker waits for a task or executes one. A panic in a task ends it, since it is recovered by `GOSafe`, and
-- so does the closing of the channel.
pub data Worker {ℓ} (T : Type ℓ) : Type ℓ where
  idle : Worker T
  busy : (task : T) → Worker T
  dead : Worker T
  stopped : Worker T

-- `wg` is the WaitGroup's counter, `sending` are the tasks in `p.tasks <- task`. `finished` are the tasks that
-- returned, and `lost` those that panicked, or whose goroutine did because the channel is closed: both
-- only tell what happened.
pub record WorkerPool {ℓ} (T : Type ℓ) : Type ℓ where
  pub sending : List T
  pub workers : List (Worker T)
  pub wg : ℕ
  pub closed : Bool
  pub finished : List T
  pub lost : List T

module _ {ℓ} {T : Type ℓ} where
  -- `NewWorkerPool`
  abbrev pub new_worker_pool : ℕ → WorkerPool T
  new_worker_pool size = record {
    sending = [];
    workers = replicate size idle;
    wg = 0;
    closed = false;
    finished = [];
    lost = [];
  }

  -- `Submit`. To send to a closed channel is a panic.
  unfoldable pub submit : T → WorkerPool T → WorkerPool T
  submit task p = elim p.closed [
    | false ↦ record p { wg = suc p.wg; sending = p.sending ++ task ∷ [] }
    | true ↦ record p { wg = suc p.wg; lost = p.lost ++ task ∷ [] }
  ]

  -- A worker receives the task of one of the goroutines that are sending.
  unfoldable pub take_task : ℕ → ℕ → T → WorkerPool T → WorkerPool T
  take_task i k task p = record p {
    sending = remove_at k p.sending;
    workers = modify i (λ _. busy task) p.workers;
  }

  -- `task()` returns, and `p.wg.Done()`.
  unfoldable pub task_returns : ℕ → T → WorkerPool T → WorkerPool T
  task_returns i task p = record p {
    workers = modify i (λ _. idle) p.workers;
    wg = p.wg - 1;
    finished = p.finished ++ task ∷ [];
  }

  -- `task()` panics: the worker ends, and nobody calls `p.wg.Done()`.
  unfoldable pub task_panics : ℕ → T → WorkerPool T → WorkerPool T
  task_panics i task p = record p {
    workers = modify i (λ _. dead) p.workers;
    lost = p.lost ++ task ∷ [];
  }

  -- `Close`: the goroutines that are sending panic.
  unfoldable pub close : WorkerPool T → WorkerPool T
  close p = record p { closed = true; sending = []; lost = p.lost ++ p.sending }

  -- A worker's loop ends.
  unfoldable pub stop : ℕ → WorkerPool T → WorkerPool T
  stop i p = record p { workers = modify i (λ _. stopped) p.workers }

  -- The states that are reached, with the tasks that were submitted until then.
  pub data Reach (size : ℕ) : List T → WorkerPool T → Type ℓ where
    start : Reach size [] (new_worker_pool size)
    submits :
        {tasks : List T} {p : WorkerPool T} (task : T)
        → Reach size tasks p
        → Reach size (tasks ++ task ∷ []) (submit task p)
    takes :
        {tasks : List T} {p : WorkerPool T} (i k : ℕ) (task : T)
        → Reach size tasks p
        → get_elem? p.workers i ≡ some idle
        → get_elem? p.sending k ≡ some task
        → Reach size tasks (take_task i k task p)
    returns :
        {tasks : List T} {p : WorkerPool T} (i : ℕ) (task : T)
        → Reach size tasks p
        → get_elem? p.workers i ≡ some (busy task)
        → Reach size tasks (task_returns i task p)
    panics :
        {tasks : List T} {p : WorkerPool T} (i : ℕ) (task : T)
        → Reach size tasks p
        → get_elem? p.workers i ≡ some (busy task)
        → Reach size tasks (task_panics i task p)
    closes :
        {tasks : List T} {p : WorkerPool T}
        → Reach size tasks p
        → p.closed ≡ false
        → Reach size tasks (close p)
    stops :
        {tasks : List T} {p : WorkerPool T} (i : ℕ)
        → Reach size tasks p
        → get_elem? p.workers i ≡ some idle
        → p.closed ≡ true
        → Reach size tasks (stop i p)
