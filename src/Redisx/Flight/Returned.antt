-- ===== src/Redisx/Flight/Returned.antt =====
-- redisx/singleFlight.go: the results of `Do`, in all states that nodes reach.
use g_micor.Base.{
  replicate, ℕ, zero, suc, ◌≡◌, ◌≢◌, refl, ap, sym, ◌∙◌, subst, ◌⊎◌, inl, inr, Bool, true, false,
  String, Option, none, some, some_inj, Option-cases, List, get_elem?, none-ne-some, lookup, delete,
  delete_cases, map_cases, if◌then◌else◌,
}
use g_micor.Errorx.{GoError}
use g_micor.Redisx.Flight.{
  waiting, following, returned, crashed, Node, World, Json, Call, CacheItem, new_cache_item, result,
  set_phase, set_node, set_call, forget, receive, complete, poll, read_call, failed_item,
  empty_call, filled, fetched, end_call, lapse, crashed,
}
use g_micor.Redisx.Flight.Steps.{
  new_node, Step, begins, fn_ends, fn_dies, leaves, forgets, wakes, receives, completes, polls,
  lapses, loses_lock, empties, poll_empties, expires, Reach, start_world, start, step,
}
use g_micor.Redisx.Flight.Genuine.{
  Ran, IsShared, IsFailed, IsOutcome, Fits, IsGenuine, set_phase-IsGenuine, set_call-IsGenuine,
  set_node-IsGenuine,
}
use g_micor.Redisx.Flight.Outcome.{shared-IsOutcome, failed-IsOutcome}
use g_micor.Redisx.Flight.Results.{
  begin_call-IsGenuine, fn_returns-IsGenuine, fn_panics-IsGenuine, leave-IsGenuine,
}

module _ {V A : Type 0} (json : Json V A) where
  forget-IsGenuine :
      (i n : ℕ) (node : Node) (key : String) (c : ℕ) (w : World V A)
      → get_elem? w.goroutines i ≡ some (n, following key c)
      → get_elem? w.nodes n ≡ some node
      → IsGenuine json w
      → IsGenuine json (forget i n node key c w)
  unfolding forget
  forget-IsGenuine i n node key c w here there v =
      let node' = record node { call_map = delete key node.call_map } in
      set_phase-IsGenuine json i n (waiting key c) (set_node n node' w)
        (v.phases i n (following key c) here)
        (set_node-IsGenuine json n node node' w there
          (λ k d h. v.maps n node k d there (delete_cases key k d node.call_map h).1) v)

  wake-IsGenuine :
      (i n : ℕ) (key : String) (c : ℕ) (call : Call V A) (w : World V A)
      → get_elem? w.goroutines i ≡ some (n, waiting key c)
      → get_elem? w.calls c ≡ some call
      → IsGenuine json w
      → IsGenuine json (set_phase i n (read_call key call) w)
  wake-IsGenuine i n key c call w here got v = elim (Option-cases call.item) [
    | inl e ↦ rw (e, read_call) (set_phase-IsGenuine json i n crashed w tt v)
    | inr (item, e) ↦
        let (call', at, own) = v.phases i n (waiting key c) here in
        let own' =
          ap (λ x. lookup x w.drawn) (ap (λ x. x.process_id) (some_inj (sym got ∙ at))) ∙ own in
        let seen : IsOutcome json w call.process_id (result item).0 (result item).1 =
          elim (v.items c call item got e) [
            | inl shared ↦ shared-IsOutcome json w call.process_id item shared
            | inr bad ↦ failed-IsOutcome json w call.process_id item bad
          ] in
        rw (e, read_call)
          (set_phase-IsGenuine json i n
            (returned key call.process_id (result item).0 (result item).1) w (own', seen) v)
  ]

  receive-IsGenuine :
      (n : ℕ) (node : Node) (key : String) (rest : List String) (w : World V A)
      → get_elem? w.nodes n ≡ some node
      → IsGenuine json w
      → IsGenuine json (receive n node key rest w)
  unfolding receive
  receive-IsGenuine n node key rest w there v =
      set_node-IsGenuine json n node _ w there (λ k d h. v.maps n node k d there h) v

  -- An item that Redis gave is what was put there; without one it tells of a failure.
  IsGiven : World V A → String → CacheItem V A → Type 0
  IsGiven w id item = IsShared json w id item ⊎ IsFailed json item

  module _
      (lossless : (item : CacheItem V A) → json.unmarshal (json.marshal item) ≡ (item, none)) where
    given :
        (w : World V A) (id text : String)
        → IsGenuine json w
        → lookup id w.results ≡ some text
        → IsGiven w id (filled (json.unmarshal text))
    unfolding IsGiven
    given w id text v e =
        let (item, own, same) = v.texts id text e in
        inl (
          subst (λ x. IsShared json w id x)
            (sym (ap (λ t. filled (json.unmarshal t)) same ∙ ap filled (lossless item))) own)

    fetched-IsGiven :
        (zero_value : A) (w : World V A) (id failure : String) (reached : Bool)
        → failure ≢ ""
        → IsGenuine json w
        → IsGiven w id
            (fetched json zero_value (if reached then lookup id w.results else none) failure)
    unfolding IsGiven
    fetched-IsGiven zero_value w id failure false nonempty v = inr (inl nonempty)
    fetched-IsGiven zero_value w id failure true nonempty v =
        elim (Option-cases (lookup id w.results)) [
          | inl e ↦ rw (e, fetched) (inr (inl nonempty))
          | inr (text, e) ↦ rw (e, fetched) (given w id text v e)
        ]

    end_call-IsGenuine :
        (c : ℕ) (call : Call V A) (item : CacheItem V A) (w : World V A)
        → get_elem? w.calls c ≡ some call
        → IsGiven w call.process_id item
        → IsGenuine json w
        → IsGenuine json (set_call c (end_call item) w)
    unfolding IsGiven
    end_call-IsGenuine c call item w got is_given v =
        (set_call-IsGenuine json c (end_call item) w (λ x. refl)
          (λ x y at same.
            let same_id = ap (λ z. z.process_id) (some_inj (sym got ∙ at)) in
            subst (λ z. IsShared json w x.process_id z ⊎ IsFailed json z) (some_inj same)
              (subst (λ d. IsShared json w d item ⊎ IsFailed json item) same_id is_given))
          v).1

    empty-IsGenuine :
        (c : ℕ) (w : World V A)
        → IsGenuine json w
        → IsGenuine json (empty_call (failed_item json.zero_value "") c w)
    unfolding empty_call
    empty-IsGenuine c w v =
        (set_call-IsGenuine json c
          (λ call. record call { item = some (failed_item json.zero_value "") }) w (λ x. refl)
          (λ x y at same. inr (inr (ap (λ z. z.value) (sym (some_inj same))))) v).1

    Step-IsGenuine :
        {contexts_end : Bool} {w w' : World V A}
        → Step json contexts_end w w'
        → IsGenuine json w
        → IsGenuine json w'
    unfolding complete poll lapse
    Step-IsGenuine {w = w} (begins i n node key id here there fresh) v =
        begin_call-IsGenuine json i n node key id w there fresh v
    Step-IsGenuine {w = w} (fn_ends i n key id c res err here) v =
        fn_returns-IsGenuine json i n key id c res err w here v
    Step-IsGenuine {w = w} (fn_dies i n key id c text here nonempty) v =
        fn_panics-IsGenuine json i n key id c text w nonempty v
    Step-IsGenuine {w = w} (leaves stage i n node key id c res err here there) v =
        leave-IsGenuine json stage i n node key id c res err w here there v
    Step-IsGenuine {w = w} (forgets i n node key c call here there got over) v =
        forget-IsGenuine i n node key c w here there v
    Step-IsGenuine {w = w} (wakes i n key c call here got over) v =
        wake-IsGenuine i n key c call w here got v
    Step-IsGenuine {w = w} (receives n node key rest there e e') v =
        receive-IsGenuine n node key rest w there v
    Step-IsGenuine {w = w} (completes n node c call reached failure there e got nonempty) v =
        let item =
          fetched json json.zero_value (if reached then lookup call.process_id w.results else none)
            failure in
        let v' =
          end_call-IsGenuine c call item w got
            (fetched-IsGiven json.zero_value w call.process_id failure reached nonempty v) v in
        set_node-IsGenuine json n node (record node { completing = none })
          (set_call c (end_call item) w) there (λ k d h. v'.maps n node k d there h) v'
    Step-IsGenuine {w = w} (polls c call text got follows there) v =
        end_call-IsGenuine c call (filled (json.unmarshal text)) w got
          (given w call.process_id text v there) v
    Step-IsGenuine {w = w} (lapses i n key id here) v =
        set_phase-IsGenuine json i n crashed (record w { locks = delete key w.locks }) tt
          (record {
            texts = v.texts;
            items = v.items;
            phases = v.phases;
            maps = v.maps;
            lock_of = λ k d h. v.lock_of k d (delete_cases key k d w.locks h).1;
          })
    Step-IsGenuine {w = w} (loses_lock key ended) v = record {
      texts = v.texts;
      items = v.items;
      phases = v.phases;
      maps = v.maps;
      lock_of = λ k d h. v.lock_of k d (delete_cases key k d w.locks h).1;
    }
    Step-IsGenuine {w = w} (empties n node c there e) v = empty-IsGenuine c w v
    Step-IsGenuine {w = w} (poll_empties c call text got follows there) v = empty-IsGenuine c w v
    Step-IsGenuine {w = w} (expires id) v = record {
      texts = λ d text h. v.texts d text (delete_cases id d text w.results h).1;
      items = v.items;
      phases = v.phases;
      maps = v.maps;
      lock_of = v.lock_of;
    }

    replicated :
        (k i : ℕ) (node : Node) → get_elem? (replicate k new_node) i ≡ some node → new_node ≡ node
    replicated zero i node h = absurd cc
    replicated (suc k) zero node h = some_inj h
    replicated (suc k) (suc i) node h = replicated k i node h

    Reach-IsGenuine :
        {contexts_end : Bool} {nodes : ℕ} {starts : List (ℕ × String)} {w : World V A}
        → Reach json contexts_end nodes starts w
        → IsGenuine json w
    unfolding lookup
    Reach-IsGenuine {nodes = nodes} {starts} start = record {
      texts = λ id text h. absurd cc;
      items = λ c call item at has. absurd cc;
      phases = λ i n p at.
          let (s, at', same) = map_cases i _ starts (n, p) at in
          subst (λ x. Fits json (start_world (replicate nodes new_node) starts) x.1) same tt;
      maps = λ n node key c at own.
          let same = replicated nodes n node at in
          absurd (none-ne-some (ap (λ x. lookup key x.call_map) same ∙ own));
      lock_of = λ key id h. absurd cc;
    }
    Reach-IsGenuine (step r st) = Step-IsGenuine st (Reach-IsGenuine r)

    -- A value that `Do` returns without an error, on whatever node and to whoever, was returned by a function
    -- that was run for the key, and that function had no error, or none that is passed on; or it is the zero
    -- value, which a call holds between being given an empty item and its filling: whatever the order of all
    -- steps, and though notifications may be late, contexts end, panics happen and results expire. The JSON
    -- of items is read back as they were.
    pub returned_genuine :
        {contexts_end : Bool} {nodes : ℕ} {starts : List (ℕ × String)} {w : World V A} {n : ℕ}
        {key id : String} {res : A} (i : ℕ)
        → Reach json contexts_end nodes starts w
        → get_elem? w.goroutines i ≡ some (n, returned key id res none)
        → (lookup id w.drawn ≡ some key)
          × (((err : Option (GoError V)) × Ran w id res err
                × (result (new_cache_item json res err) ≡ (res, none)))
              ⊎ (res ≡ json.zero_value))
    returned_genuine {n = n} {key} {id} {res} i r at =
        let fits = (Reach-IsGenuine r).phases i n (returned key id res none) at in
        (fits.0, fits.1 refl)
