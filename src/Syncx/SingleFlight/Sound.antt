-- ===== src/Syncx/SingleFlight/Sound.antt =====
-- syncx/singleflight.go: who runs, who waits, and what the map of calls has to do with it.
use g_micor.Base.{
  ℕ, ◌≡◌, ap, sym, ◌∙◌, subst, ◌⊎◌, inl, inr, true, false, String, Option, none, some, some_inj,
  List, modify, get_elem?, get_elem?-modify_self, get_elem?-modify_ne, lookup, ℕ-cases,
  get_elem?-set_cases,
}
use g_micor.Syncx.SingleFlight.{
  Call, Phase, starting, waiting, running, leaving, ending, returned, panicked, SingleFlight,
  set_phase,
}

-- The key and the call of a goroutine that is in `makeCall`, until it takes the call off the map.
abbrev pub owner {ℓ} : {A : Type ℓ} → Phase A → Option (String × ℕ)
owner (running key c) = some (key, c)
owner (leaving key c panics) = some (key, c)
owner _ = none

-- The call of a goroutine that is in `makeCall`.
abbrev pub holds {ℓ} : {A : Type ℓ} → Phase A → Option ℕ
holds (running key c) = some c
holds (leaving key c panics) = some c
holds (ending c panics) = some c
holds _ = none

pub owner-holds {ℓ} :
    {A : Type ℓ} (p : Phase A) {key : String} {c : ℕ} → owner p ≡ some (key, c) → holds p ≡ some c
owner-holds (starting key) e = absurd cc
owner-holds (waiting key c) e = absurd cc
owner-holds (running key c) e = ap (λ o. some o.1) (some_inj e)
owner-holds (leaving key c panics) e = ap (λ o. some o.1) (some_inj e)
owner-holds (ending c panics) e = absurd cc
owner-holds (returned c val err) e = absurd cc
owner-holds panicked e = absurd cc

module _ {ℓ} {A : Type ℓ} where
  abbrev pub At : SingleFlight A → ℕ → Phase A → Type ℓ
  At g i phase = get_elem? g.goroutines i ≡ some phase

  -- A call that is over, with its results.
  abbrev pub IsDone : SingleFlight A → ℕ → A → Option String → Type ℓ
  IsDone g c val err =
      (call : Call A) × (get_elem? g.all_calls c ≡ some call)
      × (call.done ≡ true)
      × (call.val ≡ val)
      × (call.err ≡ err)

  abbrev pub IsOpen : SingleFlight A → ℕ → Type ℓ
  IsOpen g c = (call : Call A) × (get_elem? g.all_calls c ≡ some call) × (call.done ≡ false)

  -- Who waits for a call does so while a goroutine is in `makeCall` for it, or it is over.
  abbrev pub IsAwaited : SingleFlight A → ℕ → Type ℓ
  IsAwaited g c =
      ((j : ℕ) × (q : Phase A) × At g j q × (holds q ≡ some c))
      ⊎ ((call : Call A) × (get_elem? g.all_calls c ≡ some call) × (call.done ≡ true))

  -- The calls in the map are those of goroutines in `makeCall` that have not cleared them. A call has one
  -- such goroutine, and is not over until that is through. Who waits does so for a call that a goroutine is in
  -- `makeCall` for or for one that is over, and who is behind `Do` has the results of one that is over.
  pub record IsSound (g : SingleFlight A) : Type ℓ where
    pub held :
        (i : ℕ) (p : Phase A) (key : String) (c : ℕ)
        → At g i p
        → owner p ≡ some (key, c)
        → lookup key g.calls ≡ some c
    pub owned :
        (key : String) (c : ℕ)
        → lookup key g.calls ≡ some c
        → (i : ℕ) × (p : Phase A) × At g i p × (owner p ≡ some (key, c))
    pub unique :
        (i j : ℕ) (p q : Phase A) (c : ℕ)
        → At g i p
        → holds p ≡ some c
        → At g j q
        → holds q ≡ some c
        → i ≡ j
    pub is_open : (i : ℕ) (p : Phase A) (c : ℕ) → At g i p → holds p ≡ some c → IsOpen g c
    pub waits : (i : ℕ) (key : String) (c : ℕ) → At g i (waiting key c) → IsAwaited g c
    pub results :
        (i c : ℕ) (val : A) (err : Option String) → At g i (returned c val err) → IsDone g c val err

  module _ {κ} {B : Type κ} (f : Phase A → Option B) (i : ℕ) (before phase : Phase A)
      (gs : List (Phase A)) (here : get_elem? gs i ≡ some before) (same : f phase ≡ f before) where
    -- Who owns a call after a change of phase owned it before,
    pub owner_before :
        (j : ℕ) (q : Phase A) (o : Option B)
        → get_elem? (modify i (λ _. phase) gs) j ≡ some q
        → f q ≡ o
        → (q' : Phase A) × (get_elem? gs j ≡ some q') × (f q' ≡ o)
    owner_before j q o at own = elim (get_elem?-set_cases i j phase q gs at) [
      | inl (e, e') ↦
          (before, subst (λ n. get_elem? gs n ≡ some before) e here, sym same ∙ ap f e' ∙ own)
      | inr (ne, at') ↦ (q, at', own)
    ]

    -- and the other way round.
    pub owner_after :
        (j : ℕ) (q : Phase A) (o : Option B)
        → get_elem? gs j ≡ some q
        → f q ≡ o
        → (q' : Phase A) × (get_elem? (modify i (λ _. phase) gs) j ≡ some q') × (f q' ≡ o)
    owner_after j q o at own = elim (ℕ-cases i j) [
      | inl e ↦ (
        phase,
        subst (λ n. get_elem? (modify i (λ _. phase) gs) n ≡ some phase) e
            (get_elem?-modify_self i (λ _. phase) gs before here),
        same ∙ ap f (some_inj (sym here ∙ ap (get_elem? gs) e ∙ at)) ∙ own,
      )
      | inr ne ↦ (q, get_elem?-modify_ne i j (λ _. phase) gs ne ∙ at, own)
    ]

  -- A wait goes on when a goroutine goes on that keeps its call.
  pub set_phase-IsAwaited :
      (g : SingleFlight A) (i : ℕ) (before phase : Phase A)
      → At g i before
      → holds phase ≡ holds before
      → (c : ℕ) → IsAwaited g c
      → IsAwaited (set_phase i phase g) c
  set_phase-IsAwaited g i before phase here same c (inl (j, q, at, own)) =
      let (q', at', own') = owner_after holds i before phase g.goroutines here same j q _ at own in
      inl (j, q', at', own')
  set_phase-IsAwaited g i before phase here same c (inr ended) = inr ended

  -- A goroutine that goes on without a change of what it owns.
  pub move :
      (g : SingleFlight A) (i : ℕ) (before phase : Phase A)
      → IsSound g
      → At g i before
      → owner phase ≡ owner before
      → holds phase ≡ holds before
      → ((key : String) (c : ℕ) → phase ≡ waiting key c → IsAwaited g c)
      → ((c : ℕ) (val : A) (err : Option String) → phase ≡ returned c val err → IsDone g c val err)
      → IsSound (set_phase i phase g)
  move g i before phase v here same same' wait result = record {
    held = λ j p key c at own.
        let (p', at', own') =
          owner_before owner i before phase g.goroutines here same j p _ at own in
        v.held j p' key c at' own';
    owned = λ key c h.
        let (j, q, at, own) = v.owned key c h in
        let (q', at', own') =
          owner_after owner i before phase g.goroutines here same j q _ at own in
        (j, q', at', own');
    unique = λ j k p q c at own at' own'.
        let (p1, at1, own1) =
          owner_before holds i before phase g.goroutines here same' j p _ at own in
        let (q1, at2, own2) =
          owner_before holds i before phase g.goroutines here same' k q _ at' own' in
        v.unique j k p1 q1 c at1 own1 at2 own2;
    is_open = λ j p c at own.
        let (p1, at1, own1) =
          owner_before holds i before phase g.goroutines here same' j p _ at own in
        v.is_open j p1 c at1 own1;
    waits = λ j key c at.
        set_phase-IsAwaited g i before phase here same' c
          (elim (get_elem?-set_cases i j phase (waiting key c) g.goroutines at) [
            | inl (e, e') ↦ wait key c e'
            | inr (ne, at') ↦ v.waits j key c at'
          ]);
    results = λ j c val err at.
        elim (get_elem?-set_cases i j phase (returned c val err) g.goroutines at) [
          | inl (e, e') ↦ result c val err e'
          | inr (ne, at') ↦ v.results j c val err at'
        ];
  }
