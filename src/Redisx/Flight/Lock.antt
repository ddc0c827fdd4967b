-- ===== src/Redisx/Flight/Lock.antt =====
-- redisx/singleFlight.go: who runs a function, in all states that nodes reach.
use g_micor.Base.{
  ℕ, zero, suc, ◌≡◌, refl, ap, sym, ◌∙◌, subst, false, inl, inr, String, Option, none, some,
  some_inj, Option-cases, List, [], ◌∷◌, map, get_elem?, none-ne-some, lookup,
}
use g_micor.Errorx.{GoError}
use g_micor.Redisx.Flight.{
  Stage, set_item, set_result, del_lock, clear_key, notify_nodes, starting, waiting, following,
  running, leaving, Node, World, Json, Call, begin_call, fn_returns, fn_panics, leave, forget,
  receive, complete, poll, empty_call, read_call, lapse, panicked, crashed,
}
use g_micor.Redisx.Flight.Steps.{
  Step, begins, fn_ends, fn_dies, leaves, forgets, wakes, receives, completes, polls, lapses,
  expires, loses_lock, empties, poll_empties, Reach, start, step,
}
use g_micor.Redisx.Flight.Exclusion.{
  holds, Holds, go_on, take_lock-IsExclusive, del_lock-IsExclusive, Exclusive,
}

module _ {V A : Type 0} where
  begin_call-Exclusive :
      (i n : ℕ) (node : Node) (key id : String) (w : World V A)
      → get_elem? w.goroutines i ≡ some (n, starting key)
      → lookup id w.drawn ≡ none
      → Exclusive w
      → Exclusive (begin_call i n node key id w)
  unfolding begin_call
  begin_call-Exclusive i n node key id w here fresh v =
      elim (Option-cases (lookup key node.call_map)) [
        | inr (c, e) ↦
            rw (e, begin_call) (go_on i n (starting key) _ w.goroutines here (inl refl) v)
        | inl absent ↦ elim (Option-cases (lookup key w.locks)) [
          | inr (other, e) ↦
              rw (absent, e, begin_call) (go_on i n (starting key) _ w.goroutines here (inl refl) v)
          | inl free ↦
              rw (absent, free, begin_call)
                (take_lock-IsExclusive i n key id _ w.goroutines free fresh v)
        ]
      ]

  fn_panics-Exclusive :
      (i n : ℕ) (key id : String) (c : ℕ) (text : String) (w : World V A)
      → get_elem? w.goroutines i ≡ some (n, running key id c)
      → Exclusive w
      → Exclusive (fn_panics i n key id c text w)
  unfolding fn_panics
  fn_panics-Exclusive i n key id c text w here v = elim (Option-cases (get_elem? w.calls c)) [
    | inl e ↦ rw (e, fn_panics) (go_on i n (running key id c) _ w.goroutines here (inl refl) v)
    | inr (call, e) ↦ elim (Option-cases call.item) [
      | inl e' ↦
          rw (e, e', fn_panics) (go_on i n (running key id c) _ w.goroutines here (inl refl) v)
      | inr (item, e') ↦
          rw (e, e', fn_panics) (go_on i n (running key id c) _ w.goroutines here (inl refl) v)
    ]
  ]

  leave-Exclusive :
      (json : Json V A) (stage : Stage) (i n : ℕ) (node : Node) (key id : String) (c : ℕ) (res : A)
      (err : Option (GoError V)) (w : World V A)
      → get_elem? w.goroutines i ≡ some (n, leaving stage key id c res err)
      → Exclusive w
      → Exclusive (leave json stage i n node key id c res err w)
  unfolding leave
  leave-Exclusive json set_item i n node key id c res err w here v =
      go_on i n (leaving set_item key id c res err) _ w.goroutines here (inl refl) v
  leave-Exclusive json set_result i n node key id c res err w here v =
      go_on i n (leaving set_result key id c res err) _ w.goroutines here (inl refl) v
  leave-Exclusive json del_lock i n node key id c res err w here v =
      del_lock-IsExclusive i n key id (leaving del_lock key id c res err) _ w.goroutines here refl
        refl v
  leave-Exclusive json clear_key i n node key id c res err w here v =
      go_on i n (leaving clear_key key id c res err) _ w.goroutines here (inl refl) v
  leave-Exclusive json notify_nodes i n node key id c res err w here v =
      go_on i n (leaving notify_nodes key id c res err) _ w.goroutines here (inl refl) v

  read_call-free : (key : String) (call : Call V A) → holds (read_call key call) ≡ none
  read_call-free key call = elim (Option-cases call.item) [
    | inl e ↦ rw (e, read_call) refl
    | inr (item, e) ↦ rw (e, read_call) refl
  ]

  Step-Exclusive :
      {json : Json V A} {w w' : World V A} → Step json false w w' → Exclusive w → Exclusive w'
  unfolding fn_returns forget receive complete poll lapse empty_call
  Step-Exclusive {w = w} (begins i n node key id here there fresh) v =
      begin_call-Exclusive i n node key id w here fresh v
  Step-Exclusive {w = w} (fn_ends i n key id c res err here) v =
      go_on i n (running key id c) _ w.goroutines here (inl refl) v
  Step-Exclusive {w = w} (fn_dies i n key id c text here nonempty) v =
      fn_panics-Exclusive i n key id c text w here v
  Step-Exclusive {json} {w = w} (leaves stage i n node key id c res err here there) v =
      leave-Exclusive json stage i n node key id c res err w here v
  Step-Exclusive {w = w} (forgets i n node key c call here there got over) v =
      go_on i n (following key c) _ w.goroutines here (inl refl) v
  Step-Exclusive {w = w} (wakes i n key c call here got over) v =
      go_on i n (waiting key c) _ w.goroutines here (inr (read_call-free key call)) v
  Step-Exclusive (receives n node key rest there e e') v = v
  Step-Exclusive (completes n node c call reached failure there e got nonempty) v = v
  Step-Exclusive (polls c call text got follows there) v = v
  Step-Exclusive {w = w} (lapses i n key id here) v =
      del_lock-IsExclusive i n key id (panicked key id) crashed w.goroutines here refl refl v
  Step-Exclusive (loses_lock key ended) v = absurd cc
  Step-Exclusive (empties n node c there e) v = v
  Step-Exclusive (poll_empties c call text got follows there) v = v
  Step-Exclusive (expires id) v = v

  no_holder :
      (starts : List (ℕ × String)) (i : ℕ) (key id : String)
      → ¬ (Holds {V = V} {A = A} (map (λ s. (s.0, starting s.1)) starts) i key id)
  no_holder [] i key id (n, p, at, own) = cc
  no_holder (s ∷ starts) zero key id (n, p, at, own) =
      none-ne-some (ap (λ x. holds x.1) (some_inj at) ∙ own)
  no_holder (s ∷ starts) (suc i) key id (n, p, at, own) = no_holder starts i key id (n, p, at, own)

  module _ {json : Json V A} {nodes : ℕ} {starts : List (ℕ × String)} where
    pub Reach-Exclusive : {w : World V A} → Reach json false nodes starts w → Exclusive w
    Reach-Exclusive start = record {
      held = λ i key id h. absurd (no_holder starts i key id h);
      known = λ i key id h. absurd (no_holder starts i key id h);
      unique = λ i j key key' id h h'. absurd (no_holder starts i key id h);
    }
    Reach-Exclusive (step r st) = Step-Exclusive st (Reach-Exclusive r)

    pub holder_unique :
        {w : World V A} {key id id' : String} (i j : ℕ)
        → Reach json false nodes starts w
        → Holds w.goroutines i key id
        → Holds w.goroutines j key id'
        → i ≡ j
    holder_unique {w} {key} {id} {id'} i j r first second =
        let v = Reach-Exclusive r in
        let same = some_inj (sym (v.held j key id' second) ∙ v.held i key id first) in
        v.unique i j key key id first (subst (λ x. Holds w.goroutines j key x) same second)
