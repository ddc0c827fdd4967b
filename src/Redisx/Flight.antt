-- ===== src/Redisx/Flight.antt =====
-- redisx/singleFlight.go: a single flight of several nodes, over a lock, a result and a notification in
-- Redis. A step is what one goroutine does under a node's lock, one command of Redis, the end of a
-- function, or one part of a receiver or a poller. A pointer to a call is its number in the list of all
-- calls. Redis answers the commands of `Do`. The watchdog of a call ends with its context, and then its lock
-- expires, so that steps are those of a program whose contexts may end, or of one whose contexts do not.
pub mod Steps
pub mod Exclusion
pub mod Lock
pub mod Broken
pub mod Genuine
pub mod Outcome
pub mod Results
pub mod Returned
pub mod Late
mod Text
mod Tests
use g_micor.Base.{
  ℕ, zero, suc, ◌≡◌, ◌≢◌, Bool, true, false, String, Option, none, some, List, [], ◌∷◌, ◌++◌,
  length, modify, get_elem?, str_eq, Dict, lookup, insert, map, delete, if◌then◌else◌,
}
use g_micor.Errorx.{ErrorCode, GoError, error_code, plain, as_error_code_pointer, error_text}

-- What is kept of the results of a function. `bu_error` is nil or points to an ErrorCode.
pub record CacheItem (V A : Type 0) : Type 0 where
  pub value : A
  pub bu_error : Option (ErrorCode V)
  pub sys_error : String

-- A call: `done` is its WaitGroup, and `follows` says that another node runs it, so that it is polled.
pub record Call (V A : Type 0) : Type 0 where
  pub process_id : String
  pub follows : Bool
  pub item : Option (CacheItem V A)
  pub done : Bool

-- encoding/json, of a CacheItem and of an ErrorCode, and the zero value of the type of values. To read a text gives an item, and an error's text if it
-- could not be read.
pub record Json (V A : Type 0) : Type 0 where
  pub marshal : CacheItem V A → String
  pub unmarshal : String → CacheItem V A × Option String
  pub error_json : ErrorCode V → String
  pub zero_value : A

-- What is left to do when the function has returned, in this order.
pub data Stage : Type 0 where
  set_item : Stage
  set_result : Stage
  del_lock : Stage
  clear_key : Stage
  notify_nodes : Stage

-- What a goroutine in `Do` is at: before the lock; in `wg.Wait()` for a call of this node, or for one that
-- another node runs; in `fn()`; behind it; gone with results, or by a panic of the function. `blocked`
-- is a panic in the function that recovers panics: its call is never done, and the watchdog goes on
-- until the context of the call ends.
-- `crashed` is any other end by a panic.
pub data Phase (V A : Type 0) : Type 0 where
  starting : (key : String) → Phase V A
  waiting : (key : String) (c : ℕ) → Phase V A
  following : (key : String) (c : ℕ) → Phase V A
  running : (key id : String) (c : ℕ) → Phase V A
  leaving : Stage → (key id : String) (c : ℕ) (res : A) (err : Option (GoError V)) → Phase V A
  returned : (key id : String) (res : A) (err : Option (GoError V)) → Phase V A
  panicked : (key id : String) → Phase V A
  blocked : (key id : String) → Phase V A
  crashed : Phase V A

-- `inbox` are the notifications that have not been read; `completing` is the call that `complete` looked up.
pub record Node : Type 0 where
  pub call_map : Dict ℕ
  pub inbox : List String
  pub completing : Option ℕ

-- Redis' locks and results, the calls, the nodes, and the goroutines with their nodes. `drawn` are the
-- keys that ids were drawn for, and `ran` are the functions that returned: both only tell what happened.
pub record World (V A : Type 0) : Type 0 where
  pub locks : Dict String
  pub results : Dict String
  pub calls : List (Call V A)
  pub nodes : List Node
  pub goroutines : List (ℕ × Phase V A)
  pub drawn : Dict String
  pub ran : List (String × A × Option (GoError V))

abbrev pub tell : String → Node → Node
tell key node = record node { inbox = node.inbox ++ key ∷ [] }

module _ {V A : Type 0} where
  -- `newCacheItem`
  unfoldable pub new_cache_item : Json V A → A → Option (GoError V) → CacheItem V A
  new_cache_item json res none = record { value = res; bu_error = none; sys_error = "" }
  new_cache_item json res (some err) = elim (as_error_code_pointer err) [
    | some e ↦ record { value = res; bu_error = some e; sys_error = "" }
    | none ↦ record { value = res; bu_error = none; sys_error = error_text json.error_json err }
  ]

  -- `Result` of an item
  unfoldable pub result : CacheItem V A → A × Option (GoError V)
  result item = elim item.bu_error [
    | some e ↦ (item.value, some (error_code e))
    | none ↦ (item.value, (if str_eq item.sys_error "" then none else some (plain item.sys_error)))
  ]

  abbrev pub set_phase : ℕ → ℕ → Phase V A → World V A → World V A
  set_phase i n phase w = record w { goroutines = modify i (λ _. (n, phase)) w.goroutines }

  abbrev pub set_node : ℕ → Node → World V A → World V A
  set_node n node w = record w { nodes = modify n (λ _. node) w.nodes }

  abbrev pub set_call : ℕ → (Call V A → Call V A) → World V A → World V A
  set_call c f w = record w { calls = modify c f w.calls }

  -- A new call, which is put into the node's map.
  abbrev pub add_call : ℕ → Node → String → String → Bool → World V A → World V A
  add_call n node key id follows w = record w {
    calls =
        w.calls ++ record { process_id = id; follows = follows; item = none; done = false } ∷ [];
    nodes =
        modify n (λ _. record node { call_map = insert key (length w.calls) node.call_map })
          w.nodes;
  }

  -- The lock is taken for a new id.
  abbrev pub take_lock : String → String → World V A → World V A
  take_lock key id w = record w { locks = insert key id w.locks; drawn = insert id key w.drawn }

  -- The part of `Do` under the node's lock; `GetSetNX` takes the lock or reads it.
  unfoldable pub begin_call : ℕ → ℕ → Node → String → String → World V A → World V A
  begin_call i n node key id w = elim (lookup key node.call_map) [
    | some c ↦ set_phase i n (waiting key c) w
    | none ↦ elim (lookup key w.locks) [
      | some other ↦
          set_phase i n (following key (length w.calls)) (add_call n node key other true w)
      | none ↦
          set_phase i n (running key id (length w.calls))
            (add_call n node key id false (take_lock key id w))
    ]
  ]

  -- `fn()` returns.
  unfoldable pub fn_returns :
      ℕ → ℕ → String → String → ℕ → A → Option (GoError V) → World V A → World V A
  fn_returns i n key id c res err w =
      set_phase i n (leaving set_item key id c res err)
        (record w { ran = w.ran ++ (id, res, err) ∷ [] })

  -- `fn()` panics. The recovering function writes through `cacheItem`, which is nil unless `complete`
  -- has set it.
  unfoldable pub fn_panics : ℕ → ℕ → String → String → ℕ → String → World V A → World V A
  fn_panics i n key id c text w =
      let item = get_elem? w.calls c in
      elim item [
        | none ↦ set_phase i n (blocked key id) w
        | some call ↦ elim call.item [
          | none ↦ set_phase i n (blocked key id) w
          | some item ↦ set_phase i n (panicked key id) (
              set_call c
                (λ call. record call {
                  item = some (record item { sys_error = text });
                  done = true;
                })
                w)
        ]
      ]

  -- One part of what `Do` does when the function has returned.
  unfoldable pub leave :
      Json V A
      → Stage
      → ℕ
      → ℕ
      → Node
      → String
      → String
      → ℕ
      → A
      → Option (GoError V)
      → World V A
      → World V A
  leave json set_item i n node key id c res err w =
      set_phase i n (leaving set_result key id c res err) (
        set_call c (λ call. record call { item = some (new_cache_item json res err); done = true })
          w)
  leave json set_result i n node key id c res err w =
      set_phase i n (leaving del_lock key id c res err)
        (record w { results = insert id (json.marshal (new_cache_item json res err)) w.results })
  leave json del_lock i n node key id c res err w =
      set_phase i n (leaving clear_key key id c res err) (record w { locks = delete key w.locks })
  leave json clear_key i n node key id c res err w =
      set_phase i n (leaving notify_nodes key id c res err)
        (set_node n (record node { call_map = delete key node.call_map }) w)
  leave json notify_nodes i n node key id c res err w =
      set_phase i n (returned key id res err) (record w { nodes = map (tell key) w.nodes })

  -- `callner.Result()`; through a nil pointer it panics.
  abbrev pub read_call : String → Call V A → Phase V A
  read_call key call = elim call.item [
    | none ↦ crashed
    | some item ↦ returned key call.process_id (result item).0 (result item).1
  ]

  -- `wg.Wait()` has returned: who waited for another node's call first takes the key off the map.
  unfoldable pub forget : ℕ → ℕ → Node → String → ℕ → World V A → World V A
  forget i n node key c w =
      set_phase i n (waiting key c)
        (set_node n (record node { call_map = delete key node.call_map }) w)

  -- `complete` up to its unlocking.
  unfoldable pub receive : ℕ → Node → String → List String → World V A → World V A
  receive n node key rest w =
      set_node n (record node { inbox = rest; completing = lookup key node.call_map }) w

  -- An item filled from a text.
  abbrev pub filled : CacheItem V A × Option String → CacheItem V A
  filled (item, none) = item
  filled (item, some text) = record item { sys_error = text }

  abbrev pub failed_item : A → String → CacheItem V A
  failed_item zero_value text = record { value = zero_value; bu_error = none; sys_error = text }

  -- The item that a call is given by `complete`: from the result of its id, or `failure`, the text of an
  -- error, if there is none or Redis did not give it.
  abbrev pub fetched : Json V A → A → Option String → String → CacheItem V A
  fetched json zero_value none failure = failed_item zero_value failure
  fetched json zero_value (some text) failure = filled (json.unmarshal text)

  abbrev pub end_call : CacheItem V A → Call V A → Call V A
  end_call item call = record call { item = some item; done = true }

  -- The lock of a call whose watchdog a panic has stopped expires.
  unfoldable pub lapse : ℕ → ℕ → String → World V A → World V A
  lapse i n key w = set_phase i n crashed (record w { locks = delete key w.locks })

  -- The poller of a call that another node runs finds its result.
  unfoldable pub poll : Json V A → ℕ → String → World V A → World V A
  poll json c text w = set_call c (end_call (filled (json.unmarshal text))) w

  -- `callner.cacheItem = &cacheItem[T]{}`
  unfoldable pub empty_call : CacheItem V A → ℕ → World V A → World V A
  empty_call item c w = set_call c (λ call. record call { item = some item }) w

  -- The rest of `complete`: the item is filled, and the call is done.
  unfoldable pub complete : ℕ → Node → ℕ → CacheItem V A → World V A → World V A
  complete n node c item w =
      set_node n (record node { completing = none }) (set_call c (end_call item) w)
