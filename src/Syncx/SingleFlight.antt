-- ===== src/Syncx/SingleFlight.antt =====
-- syncx/singleflight.go: calls of `Do` by several goroutines. A step is what one goroutine does under
-- the lock, or the return of its function, and the goroutines' steps come in any order. A pointer to a
-- call is its number in the list of all calls.
pub mod Sound
pub mod Create
pub mod End
pub mod Over
pub mod Steps
pub mod Promises
mod Tests
use g_micor.Base.{
  ℕ, suc, ◌+◌, ◌≡◌, Bool, true, false, String, Option, none, some, List, [], ◌∷◌, ◌++◌, length,
  modify, get_elem?, Dict, lookup, insert, map, delete, if◌then◌else◌,
}

-- A call; `done` is its WaitGroup, which counts from 1 to 0.
pub record Call {ℓ} (A : Type ℓ) : Type ℓ where
  pub val : A
  pub err : Option String
  pub done : Bool

-- What a goroutine in `Do` is at: before `createCall`; in `c.wg.Wait()`; in `fn()`; in the deferred function
-- before the lock, because `fn` returned or because it panicked; there between the unlocking and
-- `c.wg.Done()`; behind `Do`, with its results and the call that they are of; or ended by the panic.
pub data Phase {ℓ} (A : Type ℓ) : Type ℓ where
  starting : String → Phase A
  waiting : String → ℕ → Phase A
  running : String → ℕ → Phase A
  leaving : String → ℕ → Bool → Phase A
  ending : ℕ → Bool → Phase A
  returned : ℕ → A → Option String → Phase A
  panicked : Phase A

pub record SingleFlight {ℓ} (A : Type ℓ) : Type ℓ where
  pub calls : Dict ℕ
  pub all_calls : List (Call A)
  pub goroutines : List (Phase A)

module _ {ℓ} {A : Type ℓ} where
  -- A goroutine that goes on.
  abbrev pub set_phase : ℕ → Phase A → SingleFlight A → SingleFlight A
  set_phase i phase g = record g { goroutines = modify i (λ _. phase) g.goroutines }

  module _ (zero_value : A) where
    abbrev pub new_call : Call A
    new_call = record { val = zero_value; err = none; done = false }

    -- A new call.
    abbrev pub start_call : ℕ → String → SingleFlight A → SingleFlight A
    start_call i key g =
        let c = length g.all_calls in
        record {
          calls = insert key c g.calls;
          all_calls = g.all_calls ++ new_call ∷ [];
          goroutines = modify i (λ _. running key c) g.goroutines;
        }

    -- `createCall` up to the unlocking.
    unfoldable pub create_call : ℕ → String → SingleFlight A → SingleFlight A
    create_call i key g = elim (lookup key g.calls) [
      | some c ↦ set_phase i (waiting key c) g
      | none ↦ start_call i key g
    ]

  -- `c.val, c.err = fn()`
  unfoldable pub fn_returns : ℕ → String → ℕ → A → Option String → SingleFlight A → SingleFlight A
  fn_returns i key c val err g = record {
    calls = g.calls;
    all_calls = modify c (λ call. record call { val = val; err = err }) g.all_calls;
    goroutines = modify i (λ _. leaving key c false) g.goroutines;
  }

  -- The results that `Do` reads off its call.
  abbrev pub read_call : ℕ → SingleFlight A → Phase A
  read_call c g = elim (get_elem? g.all_calls c) [
    | none ↦ panicked
    | some call ↦ returned c call.val call.err
  ]

  -- The deferred function of `makeCall` under the lock.
  unfoldable pub clear_call : ℕ → String → ℕ → Bool → SingleFlight A → SingleFlight A
  clear_call i key c panics g = record {
    calls = delete key g.calls;
    all_calls = g.all_calls;
    goroutines = modify i (λ _. ending c panics) g.goroutines;
  }

  -- `c.wg.Done()`, and what is behind it: `Do` reads its call, or the panic goes on.
  unfoldable pub end_call : ℕ → ℕ → Bool → SingleFlight A → SingleFlight A
  end_call i c panics g = record {
    calls = g.calls;
    all_calls = modify c (λ call. record call { done = true }) g.all_calls;
    goroutines = modify i (λ _. if panics then panicked else read_call c g) g.goroutines;
  }

  -- `c.wg.Wait()` returns, and `Do` reads the call.
  unfoldable pub wake : ℕ → ℕ → SingleFlight A → SingleFlight A
  wake i c g = set_phase i (read_call c g) g

  pub data Step (zero_value : A) (g : SingleFlight A) : SingleFlight A → Type ℓ where
    creates :
        (i : ℕ) (key : String)
        → get_elem? g.goroutines i ≡ some (starting key)
        → Step zero_value g (create_call zero_value i key g)
    fn_ends :
        (i : ℕ) (key : String) (c : ℕ) (val : A) (err : Option String)
        → get_elem? g.goroutines i ≡ some (running key c)
        → Step zero_value g (fn_returns i key c val err g)
    fn_panics :
        (i : ℕ) (key : String) (c : ℕ)
        → get_elem? g.goroutines i ≡ some (running key c)
        → Step zero_value g (set_phase i (leaving key c true) g)
    clears :
        (i : ℕ) (key : String) (c : ℕ) (panics : Bool)
        → get_elem? g.goroutines i ≡ some (leaving key c panics)
        → Step zero_value g (clear_call i key c panics g)
    ends :
        (i c : ℕ) (panics : Bool)
        → get_elem? g.goroutines i ≡ some (ending c panics)
        → Step zero_value g (end_call i c panics g)
    wakes :
        (i : ℕ) (key : String) (c : ℕ) (call : Call A)
        → get_elem? g.goroutines i ≡ some (waiting key c)
        → get_elem? g.all_calls c ≡ some call
        → call.done ≡ true
        → Step zero_value g (wake i c g)

  -- The states that calls of `Do` lead to, from goroutines that are about to call it.
  pub data Reach (zero_value : A) (keys : List String) : SingleFlight A → Type ℓ where
    start :
        Reach zero_value keys
          (record { calls = []; all_calls = []; goroutines = map (λ key. starting key) keys })
    step :
        {g g' : SingleFlight A}
        → Reach zero_value keys g
        → Step zero_value g g'
        → Reach zero_value keys g'
