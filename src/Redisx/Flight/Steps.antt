-- ===== src/Redisx/Flight/Steps.antt =====
-- redisx/singleFlight.go: the steps of nodes, in any order.
use g_micor.Base.{
  replicate, ℕ, ◌≡◌, ◌≢◌, Bool, true, String, Option, none, some, List, [], ◌∷◌, get_elem?, lookup,
  map, delete, if◌then◌else◌,
}
use g_micor.Errorx.{GoError}
use g_micor.Redisx.Flight.{
  Call, Json, Stage, starting, following, running, leaving, waiting, panicked, Node, World,
  set_phase, begin_call, fn_returns, fn_panics, leave, read_call, forget, receive, fetched, lapse,
  poll, complete, empty_call, failed_item,
}

abbrev pub new_node : Node
new_node = record { call_map = []; inbox = []; completing = none }

module _ {V A : Type 0} where
  -- Nothing has been called yet.
  abbrev pub start_world : List Node → List (ℕ × String) → World V A
  start_world nodes starts = record {
    locks = [];
    results = [];
    calls = [];
    nodes = nodes;
    goroutines = map (λ s. (s.0, starting s.1)) starts;
    drawn = [];
    ran = [];
  }

  module _ (json : Json V A) (contexts_end : Bool) where
    pub data Step (w : World V A) : World V A → Type 0 where
      begins :
          (i n : ℕ) (node : Node) (key id : String)
          → get_elem? w.goroutines i ≡ some (n, starting key)
          → get_elem? w.nodes n ≡ some node
          → lookup id w.drawn ≡ none
          → Step w (begin_call i n node key id w)
      fn_ends :
          (i n : ℕ) (key id : String) (c : ℕ) (res : A) (err : Option (GoError V))
          → get_elem? w.goroutines i ≡ some (n, running key id c)
          → Step w (fn_returns i n key id c res err w)
      fn_dies :
          (i n : ℕ) (key id : String) (c : ℕ) (text : String)
          → get_elem? w.goroutines i ≡ some (n, running key id c)
          → text ≢ ""
          → Step w (fn_panics i n key id c text w)
      leaves :
          (stage : Stage) (i n : ℕ) (node : Node) (key id : String) (c : ℕ) (res : A)
          (err : Option (GoError V))
          → get_elem? w.goroutines i ≡ some (n, leaving stage key id c res err)
          → get_elem? w.nodes n ≡ some node
          → Step w (leave json stage i n node key id c res err w)
      forgets :
          (i n : ℕ) (node : Node) (key : String) (c : ℕ) (call : Call V A)
          → get_elem? w.goroutines i ≡ some (n, following key c)
          → get_elem? w.nodes n ≡ some node
          → get_elem? w.calls c ≡ some call
          → call.done ≡ true
          → Step w (forget i n node key c w)
      wakes :
          (i n : ℕ) (key : String) (c : ℕ) (call : Call V A)
          → get_elem? w.goroutines i ≡ some (n, waiting key c)
          → get_elem? w.calls c ≡ some call
          → call.done ≡ true
          → Step w (set_phase i n (read_call key call) w)
      receives :
          (n : ℕ) (node : Node) (key : String) (rest : List String)
          → get_elem? w.nodes n ≡ some node
          → node.inbox ≡ key ∷ rest
          → node.completing ≡ none
          → Step w (receive n node key rest w)
      completes :
          (n : ℕ) (node : Node) (c : ℕ) (call : Call V A) (reached : Bool) (failure : String)
          → get_elem? w.nodes n ≡ some node
          → node.completing ≡ some c
          → get_elem? w.calls c ≡ some call
          → failure ≢ ""
          → Step w (
              complete n node c
                (fetched json json.zero_value
                  (if reached then lookup call.process_id w.results else none)
                  failure)
                w)
      polls :
          (c : ℕ) (call : Call V A) (text : String)
          → get_elem? w.calls c ≡ some call
          → call.follows ≡ true
          → lookup call.process_id w.results ≡ some text
          → Step w (poll json c text w)
      lapses :
          (i n : ℕ) (key id : String)
          → get_elem? w.goroutines i ≡ some (n, panicked key id)
          → Step w (lapse i n key w)
      -- The lock of a call whose context has ended, and so its watchdog, expires.
      loses_lock :
          (key : String) → contexts_end ≡ true → Step w (record w { locks = delete key w.locks })
      -- `complete` puts an empty item into its call, before it fills it.
      empties :
          (n : ℕ) (node : Node) (c : ℕ)
          → get_elem? w.nodes n ≡ some node
          → node.completing ≡ some c
          → Step w (empty_call (failed_item json.zero_value "") c w)
      -- and so does the poller.
      poll_empties :
          (c : ℕ) (call : Call V A) (text : String)
          → get_elem? w.calls c ≡ some call
          → call.follows ≡ true
          → lookup call.process_id w.results ≡ some text
          → Step w (empty_call (failed_item json.zero_value "") c w)
      expires : (id : String) → Step w (record w { results = delete id w.results })

    -- The states that calls of `Do` on nodes lead to.
    pub data Reach (nodes : ℕ) (starts : List (ℕ × String)) : World V A → Type 0 where
      start : Reach nodes starts (start_world (replicate nodes new_node) starts)
      step : {w w' : World V A} → Reach nodes starts w → Step w w' → Reach nodes starts w'

    -- The states that may follow a state.
    pub data Later (w : World V A) : World V A → Type 0 where
      now : Later w w
      next : {w' w'' : World V A} → Later w w' → Step w' w'' → Later w w''
