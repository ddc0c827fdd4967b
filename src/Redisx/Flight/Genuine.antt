-- ===== src/Redisx/Flight/Genuine.antt =====
-- redisx/singleFlight.go: where the results that are read come from, and how parts of the state change it.
use g_micor.Base.{
  Bool, modify_cases, snoc_cases, ℕ, ◌≡◌, ◌≢◌, refl, ap, sym, ◌∙◌, subst, ◌⊎◌, inl, inr, String,
  Option, none, some, length, get_elem?, get_elem?-set_cases, get_elem?-append_left,
  get_elem?-length, get_elem?-modify, none-ne-some, lookup, insert, insert_cases, insert-other,
  lookup-insert_self,
}
use g_micor.Errorx.{GoError}
use g_micor.Redisx.Flight.{
  Phase, starting, waiting, following, running, leaving, returned, panicked, blocked, crashed, Node,
  World, Json, Call, CacheItem, new_cache_item, result, set_phase, set_node, set_call, add_call,
  take_lock,
}

module _ {V A : Type 0} where
  -- A function that was run with an id has returned.
  abbrev pub Ran : World V A → String → A → Option (GoError V) → Type 0
  Ran w id res err = (n : ℕ) × (get_elem? w.ran n ≡ some (id, res, err))

  -- A call has an id that was drawn for a key.
  abbrev pub IsFor : World V A → String → ℕ → Type 0
  IsFor w key c =
      (call : Call V A) × (get_elem? w.calls c ≡ some call)
      × (lookup call.process_id w.drawn ≡ some key)

  -- A call has an id.
  abbrev pub HasId : World V A → ℕ → String → Type 0
  HasId w c id = (call : Call V A) × (get_elem? w.calls c ≡ some call) × (call.process_id ≡ id)

  module _ (json : Json V A) where
    -- An item is made of what a function that was run with an id returned.
    abbrev pub IsShared : World V A → String → CacheItem V A → Type 0
    IsShared w id item =
        (res : A) × (err : Option (GoError V)) × Ran w id res err
        × (item ≡ new_cache_item json res err)

    -- An item that tells of a failure, or that has been emptied.
    abbrev pub IsFailed : CacheItem V A → Type 0
    IsFailed item = (item.sys_error ≢ "") ⊎ (item.value ≡ json.zero_value)

    -- If results have no error, they are those of a function that was run with the id, and its own results
    -- have no error that the others see; or they are the zero value of an emptied item.
    abbrev pub IsOutcome : World V A → String → A → Option (GoError V) → Type 0
    IsOutcome w id res err =
        err ≡ none
        → ((err' : Option (GoError V)) × Ran w id res err'
            × (result (new_cache_item json res err') ≡ (res, none)))
          ⊎ (res ≡ json.zero_value)

    abbrev pub Fits : World V A → Phase V A → Type 0
    Fits w (waiting key c) = IsFor w key c
    Fits w (following key c) = IsFor w key c
    Fits w (running key id c) = HasId w c id × (lookup id w.drawn ≡ some key)
    Fits w (leaving stage key id c res err) =
        HasId w c id × (lookup id w.drawn ≡ some key) × Ran w id res err
    Fits w (returned key id res err) = (lookup id w.drawn ≡ some key) × IsOutcome w id res err
    Fits w _ = Unit

    pub record IsGenuine (w : World V A) : Type 0 where
      pub texts :
          (id text : String)
          → lookup id w.results ≡ some text
          → (item : CacheItem V A) × IsShared w id item × (text ≡ json.marshal item)
      pub items :
          (c : ℕ) (call : Call V A) (item : CacheItem V A)
          → get_elem? w.calls c ≡ some call
          → call.item ≡ some item
          → IsShared w call.process_id item ⊎ IsFailed item
      pub phases : (i n : ℕ) (p : Phase V A) → get_elem? w.goroutines i ≡ some (n, p) → Fits w p
      pub maps :
          (n : ℕ) (node : Node) (key : String) (c : ℕ)
          → get_elem? w.nodes n ≡ some node
          → lookup key node.call_map ≡ some c
          → IsFor w key c
      pub lock_of : (key id : String) → lookup key w.locks ≡ some id → lookup id w.drawn ≡ some key

    -- What is known of ids, calls and functions stays.
    pub record Grows (w w' : World V A) : Type 0 where
      pub drawn : (id key : String) → lookup id w.drawn ≡ some key → lookup id w'.drawn ≡ some key
      pub has_id : (c : ℕ) (id : String) → HasId w c id → HasId w' c id
      pub ran :
          (id : String) (res : A) (err : Option (GoError V)) → Ran w id res err → Ran w' id res err

    module _ {w w' : World V A} (g : Grows w w') where
      pub IsFor-grows : (key : String) (c : ℕ) → IsFor w key c → IsFor w' key c
      IsFor-grows key c (call, at, own) =
          let (call', at', same) = g.has_id c call.process_id (call, at, refl) in
          (call', at', ap (λ id. lookup id w'.drawn) same ∙ g.drawn call.process_id key own)

      pub IsShared-grows :
          (id : String) (item : CacheItem V A) → IsShared w id item → IsShared w' id item
      IsShared-grows id item (res, err, r, e) = (res, err, g.ran id res err r, e)

      pub Fits-grows : (p : Phase V A) → Fits w p → Fits w' p
      Fits-grows (starting key) h = tt
      Fits-grows (waiting key c) h = IsFor-grows key c h
      Fits-grows (following key c) h = IsFor-grows key c h
      Fits-grows (running key id c) h = (g.has_id c id h.0, g.drawn id key h.1)
      Fits-grows (leaving stage key id c res err) h =
          (g.has_id c id h.0, g.drawn id key h.1, g.ran id res err h.2)
      Fits-grows (returned key id res err) h = (
        g.drawn id key h.0,
        λ e. elim (h.1 e) [
          | inl (err', r, e') ↦ inl (err', g.ran id res err' r, e')
          | inr empty ↦ inr empty
        ],
      )
      Fits-grows (panicked key id) h = tt
      Fits-grows (blocked key id) h = tt
      Fits-grows crashed h = tt

    pub set_phase-IsGenuine :
        (i n : ℕ) (p : Phase V A) (w : World V A)
        → Fits w p
        → IsGenuine w
        → IsGenuine (set_phase i n p w)
    set_phase-IsGenuine i n p w fits v = record {
      texts = v.texts;
      items = v.items;
      phases = λ j m q at. elim (get_elem?-set_cases i j (n, p) (m, q) w.goroutines at) [
        | inl (e, e') ↦ subst (λ x. Fits w x.1) e' fits
        | inr (ne, at') ↦ v.phases j m q at'
      ];
      maps = v.maps;
      lock_of = v.lock_of;
    }

    -- A call that is changed, but for its id; its item is one of its function's or tells of a failure.
    pub set_call-IsGenuine :
        (c : ℕ) (f : Call V A → Call V A) (w : World V A)
        → ((call : Call V A) → (f call).process_id ≡ call.process_id)
        → ((call : Call V A) (item : CacheItem V A)
            → get_elem? w.calls c ≡ some call
            → (f call).item ≡ some item
            → IsShared w call.process_id item ⊎ IsFailed item)
        → IsGenuine w
        → Grows w (set_call c f w) × IsGenuine (set_call c f w)
    set_call-IsGenuine c f w same_id good v = (
      grows,
      record {
        texts = v.texts;
        items = λ d call item at own. elim (modify_cases c d f w.calls call at) [
          | inl (e, (before, at', same)) ↦
              elim (good before item at' (ap (λ x. x.item) same ∙ own)) [
                | inl mine ↦ inl (
                    subst (λ id. IsShared w id item)
                      (sym (same_id before) ∙ ap (λ x. x.process_id) same) mine)
                | inr bad ↦ inr bad
              ]
          | inr (ne, at') ↦ v.items d call item at' own
        ];
        phases = λ i n p at. Fits-grows grows p (v.phases i n p at);
        maps = λ n node key d at own. IsFor-grows grows key d (v.maps n node key d at own);
        lock_of = v.lock_of;
      },
    )
      where
        grows : Grows w (set_call c f w)
        grows = record {
          drawn = λ id key h. h;
          has_id = λ d id (call, at, own). elim (get_elem?-modify c d f w.calls call at) [
            | inl at' ↦ (f call, at', same_id call ∙ own)
            | inr at' ↦ (call, at', own)
          ];
          ran = λ id res err h. h;
        }

    -- A node whose map has no new entries.
    pub set_node-IsGenuine :
        (n : ℕ) (node node' : Node) (w : World V A)
        → get_elem? w.nodes n ≡ some node
        → ((key : String) (c : ℕ) → lookup key node'.call_map ≡ some c → IsFor w key c)
        → IsGenuine w
        → IsGenuine (set_node n node' w)
    set_node-IsGenuine n node node' w there fewer v = record {
      texts = v.texts;
      items = v.items;
      phases = v.phases;
      maps = λ m x key c at own. elim (get_elem?-set_cases n m node' x w.nodes at) [
        | inl (e, e') ↦ fewer key c (ap (λ y. lookup key y.call_map) e' ∙ own)
        | inr (ne, at') ↦ v.maps m x key c at' own
      ];
      lock_of = v.lock_of;
    }

    -- A new call with an id that was drawn for the key.
    pub add_call-IsGenuine :
        (n : ℕ) (node : Node) (key id : String) (follows : Bool) (w : World V A)
        → get_elem? w.nodes n ≡ some node
        → lookup id w.drawn ≡ some key
        → IsGenuine w
        → IsGenuine (add_call n node key id follows w)
          × HasId (add_call n node key id follows w) (length w.calls) id
    add_call-IsGenuine n node key id follows w there own v = (
      record {
        texts = v.texts;
        items = λ c call item at has. elim (snoc_cases c w.calls _ call at) [
          | inl (e, e') ↦ absurd (none-ne-some (ap (λ x. x.item) e' ∙ has))
          | inr old ↦ v.items c call item old has
        ];
        phases = λ i m p at. Fits-grows grows p (v.phases i m p at);
        maps = λ m x k c at has. elim (get_elem?-set_cases n m _ x w.nodes at) [
          | inl (e, e') ↦
              elim (insert_cases key k (length w.calls) c node.call_map
                (ap (λ y. lookup k y.call_map) e' ∙ has)) [
                  | inl (same, same') ↦
                      subst (λ x. IsFor (add_call n node key id follows w) k x) same'
                        (_, get_elem?-length w.calls _, own ∙ ap some same)
                  | inr (ne, old) ↦ IsFor-grows grows k c (v.maps n node k c there old)
                ]
          | inr (ne, at') ↦ IsFor-grows grows k c (v.maps m x k c at' has)
        ];
        lock_of = v.lock_of;
      },
      (_, get_elem?-length w.calls _, refl),
    )
      where
        grows : Grows w (add_call n node key id follows w)
        grows = record {
          drawn = λ d k h. h;
          has_id = λ c d (call, at, same). (call, get_elem?-append_left c w.calls _ call at, same);
          ran = λ d res err h. h;
        }

    -- An id that nobody has had takes a lock.
    pub take_lock-IsGenuine :
        (key id : String) (w : World V A)
        → lookup id w.drawn ≡ none
        → IsGenuine w
        → IsGenuine (take_lock key id w) × (lookup id (take_lock key id w).drawn ≡ some key)
    take_lock-IsGenuine key id w fresh v = (
      record {
        texts = λ d text h.
            let (item, own, e) = v.texts d text h in (item, IsShared-grows grows d item own, e);
        items = λ c call item at has. elim (v.items c call item at has) [
          | inl own ↦ inl (IsShared-grows grows call.process_id item own)
          | inr bad ↦ inr bad
        ];
        phases = λ i n p at. Fits-grows grows p (v.phases i n p at);
        maps = λ n node k c at has. IsFor-grows grows k c (v.maps n node k c at has);
        lock_of = λ k d h. elim (insert_cases key k id d w.locks h) [
          | inl (e, e') ↦
              subst (λ x. lookup x (insert id key w.drawn) ≡ some k) e'
                (lookup-insert_self id key w.drawn ∙ ap some e)
          | inr (ne, h') ↦ grows.drawn d k (v.lock_of k d h')
        ];
      },
      lookup-insert_self id key w.drawn,
    )
      where
        grows : Grows w (take_lock key id w)
        grows = record {
          drawn = λ d k h. insert-other id d key k w.drawn fresh h;
          has_id = λ c d h. h;
          ran = λ d res err h. h;
        }
