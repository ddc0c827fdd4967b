-- ===== src/Syncx/SingleFlight/Over.antt =====
-- syncx/singleflight.go, `c.wg.Done()`: a call is over.
use g_micor.Base.{
  ℕ, ◌≡◌, ◌≢◌, refl, ap, sym, ◌∙◌, subst, inl, inr, Bool, true, false, String, Option, none, some,
  some_inj, modify, get_elem?, get_elem?-modify_self, get_elem?-modify_ne, none-ne-some,
  get_elem?-set_cases,
}
use g_micor.Syncx.SingleFlight.{
  Call, Phase, waiting, ending, returned, panicked, SingleFlight, end_call,
}
use g_micor.Syncx.SingleFlight.Sound.{owner, holds, At, IsAwaited, IsSound}
use g_micor.Syncx.SingleFlight.Create.{owner-ne}
use g_micor.Syncx.SingleFlight.End.{modified_cases, read_call-some}

module _ {ℓ} {A : Type ℓ} where
  abbrev over : Call A → Call A
  over call = record call { done = true }

  -- A call is over, and its goroutine goes on with results that are read off it, or by a panic.
  over-IsSound :
      (i c : ℕ) (panics : Bool) (phase : Phase A) (g : SingleFlight A)
      → IsSound g
      → At g i (ending c panics)
      → owner phase ≡ none
      → holds phase ≡ none
      → ((k : String) (d : ℕ) → phase ≢ waiting k d)
      → ((d : ℕ) (val : A) (err : Option String)
          → phase ≡ returned d val err
          → (call : Call A) × (get_elem? g.all_calls c ≡ some call)
            × (c ≡ d)
            × (call.val ≡ val)
            × (call.err ≡ err))
      → IsSound (record {
        calls = g.calls;
        all_calls = modify c over g.all_calls;
        goroutines = modify i (λ _. phase) g.goroutines;
      })
  over-IsSound i c panics phase g v here free frees not_waiting result = record {
    held = λ j p key1 c1 at own. elim (get_elem?-set_cases i j phase p g.goroutines at) [
      | inl (e, e') ↦ absurd (none-ne-some (sym free ∙ ap owner e' ∙ own))
      | inr (ne, at') ↦ v.held j p key1 c1 at' own
    ];
    owned = λ key1 c1 h.
        let (j, p, at, own) = v.owned key1 c1 h in
        (
          j,
          p,
          get_elem?-modify_ne i j _ g.goroutines
                (owner-ne owner g i j here refl at own none-ne-some)
              ∙ at,
          own,
        );
    unique = λ j k p q d at own at' own'. elim (get_elem?-set_cases i j phase p g.goroutines at) [
      | inl (e, e') ↦ absurd (none-ne-some (sym frees ∙ ap holds e' ∙ own))
      | inr (ne, at1) ↦ elim (get_elem?-set_cases i k phase q g.goroutines at') [
        | inl (f, f') ↦ absurd (none-ne-some (sym frees ∙ ap holds f' ∙ own'))
        | inr (ne', at2) ↦ v.unique j k p q d at1 own at2 own'
      ]
    ];
    is_open = λ j p d at own. elim (get_elem?-set_cases i j phase p g.goroutines at) [
      | inl (e, e') ↦ absurd (none-ne-some (sym frees ∙ ap holds e' ∙ own))
      | inr (ne, at') ↦
          let (call, there, yet) = v.is_open j p d at' own in
          (
            call,
            get_elem?-modify_ne c d over g.all_calls (λ e. ne (
                  v.unique i j (ending c panics) p c here refl at'
                    (own ∙ ap (λ n. some n) (sym e))))
                ∙ there,
            yet,
          )
    ];
    waits = λ j key1 c1 at. elim (get_elem?-set_cases i j phase (waiting key1 c1) g.goroutines at) [
      | inl (e, e') ↦ absurd (not_waiting key1 c1 e')
      | inr (ne, at') ↦ still_over i c panics phase g v here c1 (v.waits j key1 c1 at')
    ];
    results = λ j c1 val err at.
        elim (get_elem?-set_cases i j phase (returned c1 val err) g.goroutines at) [
          | inl (e, e') ↦
              let (call, there, same, same_val, same_err) = result c1 val err e' in
              (
                over call,
                subst (λ n. get_elem? (modify c over g.all_calls) n ≡ some (over call)) same
                    (get_elem?-modify_self c over g.all_calls call there),
                refl,
                same_val,
                same_err,
              )
          | inr (ne, at') ↦
              let (call, there, ended, same_val, same_err) = v.results j c1 val err at' in
              elim (modified_cases c c1 over g.all_calls call there) [
                | inl (e, there') ↦ (over call, there', refl, same_val, same_err)
                | inr (ne', there') ↦ (call, there', ended, same_val, same_err)
              ]
        ];
  }
    where
      -- Who waits for the call sees it over, and who waits for another goes on to wait.
      still_over :
          (i c : ℕ) (panics : Bool) (phase : Phase A) (g : SingleFlight A)
          → IsSound g
          → At g i (ending c panics)
          → (d : ℕ) → IsAwaited g d
          → IsAwaited
              (record {
                calls = g.calls;
                all_calls = modify c over g.all_calls;
                goroutines = modify i (λ _. phase) g.goroutines;
              })
              d
      still_over i c panics phase g v here d (inl (k, q, at, own)) =
          let (call, there, yet) = v.is_open k q d at own in
          elim (modified_cases c d over g.all_calls call there) [
            | inl (e, there') ↦ inr (over call, there', refl)
            | inr (ne, there') ↦ inl (
              k,
              q,
              get_elem?-modify_ne i k _ g.goroutines
                    (owner-ne holds g i k here refl at own (λ e. ne (some_inj e)))
                  ∙ at,
              own,
            )
          ]
      still_over i c panics phase g v here d (inr (call, there, ended)) =
          elim (modified_cases c d over g.all_calls call there) [
            | inl (e, there') ↦ inr (over call, there', refl)
            | inr (ne, there') ↦ inr (call, there', ended)
          ]

  pub end-IsSound :
      (i c : ℕ) (panics : Bool) (g : SingleFlight A)
      → IsSound g
      → At g i (ending c panics)
      → IsSound (end_call i c panics g)
  unfolding end_call
  end-IsSound i c true g v here =
      over-IsSound i c true panicked g v here refl refl (λ k d e. cc) (λ d val err e. absurd cc)
  end-IsSound i c false g v here =
      let (call, there, yet) = v.is_open i (ending c false) c here refl in
      subst
        (λ phase. IsSound (record {
          calls = g.calls;
          all_calls = modify c over g.all_calls;
          goroutines = modify i (λ _. phase) g.goroutines;
        }))
        (sym (read_call-some c g call there))
        (over-IsSound i c false (returned c call.val call.err) g v here refl refl (λ k d e. cc)
          (λ d val err e. (call, there, cc, cc, cc)))
