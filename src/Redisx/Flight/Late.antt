-- ===== src/Redisx/Flight/Late.antt =====
-- redisx/singleFlight.go: a notification that comes when the next call of its key is under way.
use g_micor.Base.{
  ℕ, ◌≡◌, ◌≢◌, refl, ap, sym, ◌∙◌, Bool, true, subst, Option, eq_iff, String, none, some, some_inj,
  List, ◌∷◌, get_elem?, get_elem?-modify_self, get_elem?-modify_ne, lookup, arith,
}
use g_micor.Errorx.{GoError, plain}
use g_micor.Redisx.Flight.{
  Phase, waiting, running, returned, Node, World, Json, Call, result, set_phase, receive, complete,
  read_call, failed_item, fetched, end_call,
}
use g_micor.Redisx.Flight.Steps.{Step, wakes, receives, completes, Later, now, next}

module _ {V A : Type 0} (json : Json V A) (contexts_end : Bool) where
  failed_result :
      (failure : String)
      → failure ≢ ""
      → result {V = V} (failed_item json.zero_value failure)
        ≡ (json.zero_value, some (plain failure))
  unfolding result
  failed_result failure nonempty = ground (arith, eq_iff failure "")

  module _ (i k n c : ℕ) (key id failure : String) (rest : List String) (node : Node)
      (call : Call V A) (w : World V A) (there : get_elem? w.nodes n ≡ some node)
      (told : node.inbox ≡ key ∷ rest) (idle : node.completing ≡ none)
      (listed : lookup key node.call_map ≡ some c) (got : get_elem? w.calls c ≡ some call)
      (none_yet : lookup call.process_id w.results ≡ none)
      (runs : get_elem? w.goroutines i ≡ some (n, running key id c))
      (waits : get_elem? w.goroutines k ≡ some (n, waiting key c)) (nonempty : failure ≢ "") where
    failed : Call V A
    failed = end_call (failed_item json.zero_value failure) call

    -- `complete` takes a notification for one about any call of its key that the node has: if the node has
    -- begun a new call by then, who waits for it is given an error, although its function still runs.
    pub late_notification :
        (w' : World V A) × Later json contexts_end w w'
        × (get_elem? w'.goroutines i ≡ some (n, running key id c))
        × (get_elem? w'.goroutines k
            ≡ some (n, returned key call.process_id json.zero_value (some (plain failure))))
    unfolding receive complete failed
    late_notification =
        let node' = record node { inbox = rest; completing = lookup key node.call_map } in
        let w1 = receive n node key rest w in
        let w2 = complete n node' c (failed_item json.zero_value failure) w1 in
        (
          set_phase k n (read_call key failed) w2,
          next
              (next (next now (receives n node key rest there told idle)) (
                subst (λ item. Step json contexts_end w1 (complete n node' c item w1))
                  (ap (λ o. fetched json json.zero_value o failure) none_yet)
                  (completes n node' c call true failure
                    (get_elem?-modify_self n _ w.nodes node there) listed got nonempty)))
              (wakes k n key c failed waits (get_elem?-modify_self c _ w.calls call got) refl),
          get_elem?-modify_ne k i _ w.goroutines (λ e.
                let same = some_inj (sym waits ∙ ap (get_elem? w.goroutines) e ∙ runs) in
                let phases : ◌≡◌ {A = Phase V A} (waiting key c) (running key id c) =
                  ap (λ x. x.1) same in
                cc)
              ∙ runs,
          get_elem?-modify_self k _ w.goroutines _ waits
              ∙ ap (λ (r : A × Option (GoError V)). some (n, returned key call.process_id r.0 r.1))
                  (failed_result failure nonempty),
        )
