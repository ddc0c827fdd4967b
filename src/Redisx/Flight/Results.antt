-- ===== src/Redisx/Flight/Results.antt =====
-- redisx/singleFlight.go: the steps of `Do` keep what is known of results.
use g_micor.Base.{
  ℕ, ◌≡◌, ◌≢◌, refl, ap, sym, ◌∙◌, subst, inl, inr, true, false, String, Option, none, some,
  some_inj, Option-cases, [], ◌∷◌, ◌++◌, map, length, get_elem?, get_elem?-append_left,
  get_elem?-length, lookup, insert_cases, delete_cases, map_cases,
}
use g_micor.Errorx.{GoError}
use g_micor.Redisx.Flight.{
  Stage, set_item, set_result, del_lock, clear_key, notify_nodes, waiting, following, running,
  leaving, returned, panicked, blocked, Node, World, Json, Call, new_cache_item, set_phase,
  set_call, add_call, take_lock, tell, begin_call, fn_returns, fn_panics, leave, end_call,
}
use g_micor.Redisx.Flight.Genuine.{
  Ran, IsFor, HasId, IsGenuine, Grows, IsShared-grows, Fits-grows, set_phase-IsGenuine,
  set_call-IsGenuine, set_node-IsGenuine, add_call-IsGenuine, take_lock-IsGenuine,
}
use g_micor.Redisx.Flight.Outcome.{own-IsOutcome}

module _ {V A : Type 0} (json : Json V A) where
  IsFor-key :
      (w : World V A) (key id : String) (c : ℕ)
      → HasId w c id
      → lookup id w.drawn ≡ some key
      → IsFor w key c
  IsFor-key w key id c (call, at, same) own = (call, at, ap (λ x. lookup x w.drawn) same ∙ own)

  pub begin_call-IsGenuine :
      (i n : ℕ) (node : Node) (key id : String) (w : World V A)
      → get_elem? w.nodes n ≡ some node
      → lookup id w.drawn ≡ none
      → IsGenuine json w
      → IsGenuine json (begin_call i n node key id w)
  unfolding begin_call
  begin_call-IsGenuine i n node key id w there fresh v =
      elim (Option-cases (lookup key node.call_map)) [
        | inr (c, e) ↦
            rw (e, begin_call)
              (set_phase-IsGenuine json i n (waiting key c) w (v.maps n node key c there e) v)
        | inl absent ↦ elim (Option-cases (lookup key w.locks)) [
          | inr (other, e) ↦
              let own = v.lock_of key other e in
              let (v', has) = add_call-IsGenuine json n node key other true w there own v in
              rw (absent, e, begin_call)
                (set_phase-IsGenuine json i n (following key (length w.calls))
                  (add_call n node key other true w)
                  (IsFor-key (add_call n node key other true w) key other (length w.calls) has own)
                  v')
          | inl free ↦
              let (v', own) = take_lock-IsGenuine json key id w fresh v in
              let w' = take_lock key id w in
              let (v'', has) = add_call-IsGenuine json n node key id false w' there own v' in
              rw (absent, free, begin_call)
                (set_phase-IsGenuine json i n (running key id (length w.calls))
                  (add_call n node key id false w') (has, own) v'')
        ]
      ]

  pub fn_returns-IsGenuine :
      (i n : ℕ) (key id : String) (c : ℕ) (res : A) (err : Option (GoError V)) (w : World V A)
      → get_elem? w.goroutines i ≡ some (n, running key id c)
      → IsGenuine json w
      → IsGenuine json (fn_returns i n key id c res err w)
  unfolding fn_returns
  fn_returns-IsGenuine i n key id c res err w here v =
      let w' = record w { ran = w.ran ++ (id, res, err) ∷ [] } in
      let grows : Grows json w w' = record {
        drawn = λ d k h. h;
        has_id = λ d k h. h;
        ran = λ d r e (m, h). (m, get_elem?-append_left m w.ran _ _ h);
      } in
      let v' : IsGenuine json w' = record {
        texts = λ d text h.
            let (item, own, e) = v.texts d text h in
            (item, IsShared-grows json grows d item own, e);
        items = λ d call item at has. elim (v.items d call item at has) [
          | inl own ↦ inl (IsShared-grows json grows call.process_id item own)
          | inr bad ↦ inr bad
        ];
        phases = λ j m p at. Fits-grows json grows p (v.phases j m p at);
        maps = v.maps;
        lock_of = v.lock_of;
      } in
      let fits = v.phases i n (running key id c) here in
      set_phase-IsGenuine json i n (leaving set_item key id c res err) w'
        (fits.0, fits.1, (length w.ran, get_elem?-length w.ran (id, res, err))) v'

  pub fn_panics-IsGenuine :
      (i n : ℕ) (key id : String) (c : ℕ) (text : String) (w : World V A)
      → text ≢ ""
      → IsGenuine json w
      → IsGenuine json (fn_panics i n key id c text w)
  unfolding fn_panics
  fn_panics-IsGenuine i n key id c text w nonempty v = elim (Option-cases (get_elem? w.calls c)) [
    | inl e ↦ rw (e, fn_panics) (set_phase-IsGenuine json i n (blocked key id) w tt v)
    | inr (call, e) ↦ elim (Option-cases call.item) [
      | inl e' ↦ rw (e, e', fn_panics) (set_phase-IsGenuine json i n (blocked key id) w tt v)
      | inr (item, e') ↦
          let f = λ (call : Call V A). record call {
            item = some (record item { sys_error = text });
            done = true;
          } in
          rw (e, e', fn_panics)
            (set_phase-IsGenuine json i n (panicked key id) (set_call c f w) tt
              (set_call-IsGenuine json c f w (λ x. refl)
                (λ x y at same.
                  inr (inl (λ e''. nonempty (ap (λ z. z.sys_error) (some_inj same) ∙ e''))))
                v).1)
    ]
  ]

  -- A goroutine that goes on to the next stage, after a change of the state.
  next_stage :
      (i n : ℕ) (stage stage' : Stage) (key id : String) (c : ℕ) (res : A)
      (err : Option (GoError V)) (w w' : World V A)
      → get_elem? w.goroutines i ≡ some (n, leaving stage key id c res err)
      → IsGenuine json w
      → Grows json w w'
      → IsGenuine json w'
      → IsGenuine json (set_phase i n (leaving stage' key id c res err) w')
  next_stage i n stage stage' key id c res err w w' here v grows v' =
      set_phase-IsGenuine json i n (leaving stage' key id c res err) w'
        (Fits-grows json grows (leaving stage key id c res err)
          (v.phases i n (leaving stage key id c res err) here))
        v'

  pub leave-IsGenuine :
      (stage : Stage) (i n : ℕ) (node : Node) (key id : String) (c : ℕ) (res : A)
      (err : Option (GoError V)) (w : World V A)
      → get_elem? w.goroutines i ≡ some (n, leaving stage key id c res err)
      → get_elem? w.nodes n ≡ some node
      → IsGenuine json w
      → IsGenuine json (leave json stage i n node key id c res err w)
  unfolding leave
  leave-IsGenuine set_item i n node key id c res err w here there v =
      let (has, own, r) = v.phases i n (leaving set_item key id c res err) here in
      let (grows, v') =
        set_call-IsGenuine json c (end_call (new_cache_item json res err)) w (λ x. refl)
          (λ x y at same. inl (
            res,
            err,
            (let (call, at', same') = has in
                subst (λ x. Ran w x res err)
                  (sym same' ∙ ap (λ x. x.process_id) (some_inj (sym at' ∙ at))) r),
            sym (some_inj same),
          ))
          v in
      next_stage i n set_item set_result key id c res err w _ here v grows v'
  leave-IsGenuine set_result i n node key id c res err w here there v =
      let (has, own, r) = v.phases i n (leaving set_result key id c res err) here in
      next_stage i n set_result del_lock key id c res err w _ here v
        (record { drawn = λ d k h. h; has_id = λ d k h. h; ran = λ d x e h. h })
        (record {
          texts = λ d text h. elim (insert_cases id d _ text w.results h) [
            | inl (e, e') ↦ (
              new_cache_item json res err,
              (res, err, subst (λ x. Ran w x res err) e r, refl),
              sym e',
            )
            | inr (ne, h') ↦ v.texts d text h'
          ];
          items = v.items;
          phases = v.phases;
          maps = v.maps;
          lock_of = v.lock_of;
        })
  leave-IsGenuine del_lock i n node key id c res err w here there v =
      next_stage i n del_lock clear_key key id c res err w _ here v
        (record { drawn = λ d k h. h; has_id = λ d k h. h; ran = λ d x e h. h })
        (record {
          texts = v.texts;
          items = v.items;
          phases = v.phases;
          maps = v.maps;
          lock_of = λ k d h. v.lock_of k d (delete_cases key k d w.locks h).1;
        })
  leave-IsGenuine clear_key i n node key id c res err w here there v =
      next_stage i n clear_key notify_nodes key id c res err w _ here v
        (record { drawn = λ d k h. h; has_id = λ d k h. h; ran = λ d x e h. h })
        (set_node-IsGenuine json n node _ w there
          (λ k d h. v.maps n node k d there (delete_cases key k d node.call_map h).1) v)
  leave-IsGenuine notify_nodes i n node key id c res err w here there v =
      let w' = record w { nodes = map (tell key) w.nodes } in
      let (has, own, r) = v.phases i n (leaving notify_nodes key id c res err) here in
      set_phase-IsGenuine json i n (returned key id res err) w'
        (own, own-IsOutcome json w id res err r)
        (record {
          texts = v.texts;
          items = v.items;
          phases = v.phases;
          maps = λ m x k d at h.
              let (x', at', same) = map_cases m (tell key) w.nodes x at in
              v.maps m x' k d at' (ap (λ y. lookup k y.call_map) same ∙ h);
          lock_of = v.lock_of;
        })
