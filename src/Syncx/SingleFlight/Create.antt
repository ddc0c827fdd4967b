-- ===== src/Syncx/SingleFlight/Create.antt =====
-- syncx/singleflight.go, `createCall`: one more call, or one more who waits.
use g_micor.Base.{
  ℕ, ◌≡◌, ◌≢◌, refl, ap, sym, ◌∙◌, subst, inl, inr, String, Option, none, some, some_inj,
  Option-cases, [], ◌∷◌, ◌++◌, length, get_elem?, get_elem?-modify_self, get_elem?-modify_ne,
  get_elem?-append_left, get_elem?-length, lookup, insert, lookup-insert_self, insert-other,
  insert_cases, get_elem?-past, none-ne-some, get_elem?-set_cases,
}
use g_micor.Syncx.SingleFlight.{
  Phase, starting, waiting, running, SingleFlight, new_call, start_call, create_call,
}
use g_micor.Syncx.SingleFlight.Sound.{owner, holds, owner-holds, At, IsSound, move}

module _ {ℓ} {A : Type ℓ} where
  -- Goroutines that own different calls are different.
  pub owner-ne {κ} :
      {B : Type κ} (f : Phase A → Option B) (g : SingleFlight A) (i j : ℕ) {p q : Phase A}
      {o o' : Option B}
      → At g i p
      → f p ≡ o
      → At g j q
      → f q ≡ o'
      → o ≢ o'
      → i ≢ j
  owner-ne f g i j at own at' own' ne e =
      ne (sym own ∙ ap f (some_inj (sym at ∙ ap (get_elem? g.goroutines) e ∙ at')) ∙ own')

  -- No goroutine owns the call that comes next.
  fresh :
      (g : SingleFlight A) (k : ℕ) {q : Phase A} {c : ℕ}
      → IsSound g
      → At g k q
      → holds q ≡ some c
      → length g.all_calls ≢ c
  fresh g k {q} {c} v at own e =
      let (call, there, yet) = v.is_open k q c at own in
      none-ne-some (sym (get_elem?-past g.all_calls) ∙ ap (get_elem? g.all_calls) e ∙ there)

  start-IsSound :
      (zero_value : A) (i : ℕ) (key : String) (g : SingleFlight A)
      → IsSound g
      → At g i (starting key)
      → lookup key g.calls ≡ none
      → IsSound (start_call zero_value i key g)
  start-IsSound zero_value i key g v here absent = record {
    held = λ j p key1 c1 at own. elim (get_elem?-set_cases i j _ p g.goroutines at) [
      | inl (e, e') ↦
          subst (λ o. lookup o.0 (insert key (length g.all_calls) g.calls) ≡ some o.1)
            (some_inj (ap owner e' ∙ own)) (lookup-insert_self key (length g.all_calls) g.calls)
      | inr (ne, at') ↦
          insert-other key key1 (length g.all_calls) c1 g.calls absent (v.held j p key1 c1 at' own)
    ];
    owned = λ key1 c1 h. elim (insert_cases key key1 (length g.all_calls) c1 g.calls h) [
      | inl (e, e') ↦
          (i, running key (length g.all_calls), get_elem?-modify_self i _ g.goroutines _ here, cc)
      | inr (ne, h') ↦
          let (j, p, at, own) = v.owned key1 c1 h' in
          (
            j,
            p,
            get_elem?-modify_ne i j _ g.goroutines
                  (owner-ne owner g i j here refl at own none-ne-some)
                ∙ at,
            own,
          )
    ];
    unique = λ j k p q c at own at' own'.
        let moved = running key (length g.all_calls) in
        elim (get_elem?-set_cases i j moved p g.goroutines at) [
          | inl (e, e') ↦ elim (get_elem?-set_cases i k moved q g.goroutines at') [
            | inl (f, f') ↦ sym e ∙ f
            | inr (ne, at2) ↦ absurd (fresh g k v at2 own' (some_inj (ap holds e' ∙ own)))
          ]
          | inr (ne, at1) ↦ elim (get_elem?-set_cases i k moved q g.goroutines at') [
            | inl (f, f') ↦ absurd (fresh g j v at1 own (some_inj (ap holds f' ∙ own')))
            | inr (ne', at2) ↦ v.unique j k p q c at1 own at2 own'
          ]
        ];
    is_open = λ j p c at own.
        elim (get_elem?-set_cases i j (running key (length g.all_calls)) p g.goroutines at) [
          | inl (e, e') ↦ (
            new_call zero_value,
            subst
                (λ n.
                  get_elem? (g.all_calls ++ new_call zero_value ∷ []) n
                  ≡ some (new_call zero_value))
                (some_inj (ap holds e' ∙ own)) (get_elem?-length g.all_calls (new_call zero_value)),
            refl,
          )
          | inr (ne, at') ↦
              let (call, there, yet) = v.is_open j p c at' own in
              (call, get_elem?-append_left c g.all_calls _ call there, yet)
        ];
    waits = λ j key1 c1 at. elim (get_elem?-set_cases i j _ _ g.goroutines at) [
      | inl (e, e') ↦ absurd cc
      | inr (ne, at') ↦ elim (v.waits j key1 c1 at') [
        | inl (k, q, there, own) ↦ inl (
          k,
          q,
          get_elem?-modify_ne i k _ g.goroutines
                (owner-ne holds g i k here refl there own none-ne-some)
              ∙ there,
          own,
        )
        | inr (call, there, over) ↦
            inr (call, get_elem?-append_left c1 g.all_calls _ call there, over)
      ]
    ];
    results = λ j c val err at. elim (get_elem?-set_cases i j _ _ g.goroutines at) [
      | inl (e, e') ↦ absurd cc
      | inr (ne, at') ↦
          let (call, there, over, same_val, same_err) = v.results j c val err at' in
          (call, get_elem?-append_left c g.all_calls _ call there, over, same_val, same_err)
    ];
  }

  pub create-IsSound :
      (zero_value : A) (i : ℕ) (key : String) (g : SingleFlight A)
      → IsSound g
      → At g i (starting key)
      → IsSound (create_call zero_value i key g)
  unfolding create_call
  create-IsSound zero_value i key g v here = elim (Option-cases (lookup key g.calls)) [
    | inr (c, e) ↦
        rw (e, create_call)
          (move g i (starting key) (waiting key c) v here refl refl
            (λ key1 c1 e'.
              let (j, q, at, own) = v.owned key c e in
              let same : c ≡ c1 = cc in inl (j, q, at, owner-holds q own ∙ ap (λ n. some n) same))
            (λ c val err e'. absurd cc))
    | inl absent ↦ rw (absent, create_call) (start-IsSound zero_value i key g v here absent)
  ]
