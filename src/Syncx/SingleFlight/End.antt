-- ===== src/Syncx/SingleFlight/End.antt =====
-- syncx/singleflight.go, `makeCall` and `c.wg.Wait()`: results, and the call's way off the map.
use g_micor.Base.{
  ℕ, ◌≡◌, ◌≢◌, refl, ap, sym, ◌∙◌, subst, ◌⊎◌, inl, inr, Bool, true, false, String, Option, some,
  some_inj, List, modify, get_elem?, get_elem?-modify_self, get_elem?-modify_ne, delete_cases,
  delete-other, same_call, none-ne-some, ℕ-cases, get_elem?-set_cases,
}
use g_micor.Syncx.SingleFlight.{
  Call, waiting, running, leaving, ending, returned, SingleFlight, set_phase, fn_returns, read_call,
  clear_call, wake,
}
use g_micor.Syncx.SingleFlight.Sound.{
  owner, holds, owner-holds, owner_before, set_phase-IsAwaited, At, IsOpen, IsSound, move,
}
use g_micor.Syncx.SingleFlight.Create.{owner-ne}

module _ {ℓ} {A : Type ℓ} where
  -- A change of one call, seen from another or from itself.
  pub modified_cases :
      (c d : ℕ) (f : Call A → Call A) (calls : List (Call A)) (call : Call A)
      → get_elem? calls d ≡ some call
      → ((c ≡ d) × (get_elem? (modify c f calls) d ≡ some (f call)))
        ⊎ ((c ≢ d) × (get_elem? (modify c f calls) d ≡ some call))
  modified_cases c d f calls call there = elim (ℕ-cases c d) [
    | inl e ↦ inl (
      e,
      subst (λ n. get_elem? (modify n f calls) d ≡ some (f call)) (sym e)
          (get_elem?-modify_self d f calls call there),
    )
    | inr ne ↦ inr (ne, get_elem?-modify_ne c d f calls ne ∙ there)
  ]

  abbrev written : A → Option String → Call A → Call A
  written val err call = record call { val = val; err = err }

  -- The results of a call that is not over are read by nobody yet.
  write-IsSound :
      (g : SingleFlight A) (c : ℕ) (val : A) (err : Option String)
      → IsSound g
      → IsOpen g c
      → IsSound (record g { all_calls = modify c (written val err) g.all_calls })
  write-IsSound g c val err v mine = record {
    held = v.held;
    owned = v.owned;
    unique = v.unique;
    is_open = λ j p c1 at own.
        let (call, there, yet) = v.is_open j p c1 at own in
        elim (modified_cases c c1 (written val err) g.all_calls call there) [
          | inl (e, there') ↦ (written val err call, there', yet)
          | inr (ne, there') ↦ (call, there', yet)
        ];
    waits = λ j key1 c1 at. elim (v.waits j key1 c1 at) [
      | inl h ↦ inl h
      | inr (call, there, over) ↦
          elim (modified_cases c c1 (written val err) g.all_calls call there) [
            | inl (e, there') ↦ inr (written val err call, there', over)
            | inr (ne, there') ↦ inr (call, there', over)
          ]
    ];
    results = λ j c1 val1 err1 at.
        let (call, there, over, same_val, same_err) = v.results j c1 val1 err1 at in
        let (own, there_own, yet) = mine in
        elim (modified_cases c c1 (written val err) g.all_calls call there) [
          | inl (e, there') ↦
              let both =
                ap (λ x. x.done)
                  (some_inj (sym there_own ∙ ap (get_elem? g.all_calls) e ∙ there)) in
              absurd cc
          | inr (ne, there') ↦ (call, there', over, same_val, same_err)
        ];
  }

  pub fn_returns-IsSound :
      (i : ℕ) (key : String) (c : ℕ) (val : A) (err : Option String) (g : SingleFlight A)
      → IsSound g
      → At g i (running key c)
      → IsSound (fn_returns i key c val err g)
  unfolding fn_returns
  fn_returns-IsSound i key c val err g v here =
      write-IsSound (set_phase i (leaving key c false) g) c val err
        (move g i (running key c) (leaving key c false) v here refl refl (λ k d e. absurd cc)
          (λ d val' err' e. absurd cc))
        (v.is_open i (running key c) c here refl)

  pub read_call-some :
      (c : ℕ) (g : SingleFlight A) (call : Call A)
      → get_elem? g.all_calls c ≡ some call
      → read_call c g ≡ returned c call.val call.err
  read_call-some c g call there = rw (there, read_call) refl

  pub wake-IsSound :
      (i : ℕ) (key : String) (c : ℕ) (call : Call A) (g : SingleFlight A)
      → IsSound g
      → At g i (waiting key c)
      → get_elem? g.all_calls c ≡ some call
      → call.done ≡ true
      → IsSound (wake i c g)
  unfolding wake
  wake-IsSound i key c call g v here there over =
      subst (λ phase. IsSound (set_phase i phase g)) (sym (read_call-some c g call there))
        (move g i (waiting key c) (returned c call.val call.err) v here refl refl
          (λ k d e. absurd cc)
          (λ d val err e. (
            call,
            (let same : c ≡ d = cc in ap (get_elem? g.all_calls) (sym same) ∙ there),
            over,
            cc,
            cc,
          )))

  -- The owner of a call takes it off the map.
  pub clear-IsSound :
      (i : ℕ) (key : String) (c : ℕ) (panics : Bool) (g : SingleFlight A)
      → IsSound g
      → At g i (leaving key c panics)
      → IsSound (clear_call i key c panics g)
  unfolding clear_call
  clear-IsSound i key c panics g v here =
      let before = leaving key c panics in
      let phase = ending c panics in
      let held_before = owner_before holds i before phase g.goroutines here refl in
      record {
        held = λ j p key1 c1 at own. elim (get_elem?-set_cases i j phase p g.goroutines at) [
          | inl (e, e') ↦ absurd (none-ne-some (ap owner e' ∙ own))
          | inr (ne, at') ↦
              let h = v.held j p key1 c1 at' own in
              delete-other key key1 c1 g.calls
                (λ same. ne (
                  v.unique i j before p c here refl at' (
                    owner-holds p own
                    ∙ ap (λ n. some n)
                        (sym (
                          same_call key key1 c c1 g.calls same (v.held i before key c here refl)
                            h)))))
                h
        ];
        owned = λ key1 c1 h.
            let (ne, h') = delete_cases key key1 c1 g.calls h in
            let (j, p, at, own) = v.owned key1 c1 h' in
            (
              j,
              p,
              get_elem?-modify_ne i j _ g.goroutines
                    (owner-ne owner g i j here refl at own (λ e. ne (ap (λ o. o.0) (some_inj e))))
                  ∙ at,
              own,
            );
        unique = λ j k p q d at own at' own'.
            let (p1, at1, own1) = held_before j p _ at own in
            let (q1, at2, own2) = held_before k q _ at' own' in
            v.unique j k p1 q1 d at1 own1 at2 own2;
        is_open = λ j p d at own.
            let (p1, at1, own1) = held_before j p _ at own in v.is_open j p1 d at1 own1;
        waits = λ j key1 c1 at.
            set_phase-IsAwaited g i before phase here refl c1
              (elim (get_elem?-set_cases i j phase (waiting key1 c1) g.goroutines at) [
                | inl (e, e') ↦ absurd cc
                | inr (ne, at') ↦ v.waits j key1 c1 at'
              ]);
        results = λ j c1 val err at.
            elim (get_elem?-set_cases i j phase (returned c1 val err) g.goroutines at) [
              | inl (e, e') ↦ absurd cc
              | inr (ne, at') ↦ v.results j c1 val err at'
            ];
      }
