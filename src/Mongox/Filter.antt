-- ===== src/Mongox/Filter.antt =====
-- mongox/filter.go. A filter is a map from keys; what stands under a key is the operators that the code
-- puts there, or a value of a caller's own.
use g_micor.Base.{
  ◌≢◌, inl, inr, ◌⊎◌, Bool-cases, String, ◌≡◌, refl, ap, sym, ◌∙◌, true, false, ◌&&◌, Option, none,
  some, List, [], ◌∷◌, Dict, lookup, insert, lookup-insert, str_eq, eq_iff, arith, if◌then◌else◌,
}

pub data Condition {ℓ} (V : Type ℓ) : Type ℓ where
  operators : Dict V → Condition V
  plain : V → Condition V

abbrev pub Filter {ℓ} : Type ℓ → Type ℓ
Filter V = Dict (Condition V)

-- The names of the operators.
pub data Operator : Type 0 where
  eq : Operator
  lt : Operator
  in_ : Operator

abbrev pub name_of : Operator → String
name_of eq = "$eq"
name_of lt = "$lt"
name_of in_ = "$in"

-- A call of one of the methods: its operator, key and value.
abbrev pub Call {ℓ} : Type ℓ → Type ℓ
Call V = Operator × String × V

module _ {ℓ} {V : Type ℓ} where
  -- `Eq`, `In` and `Lt`
  unfoldable pub new_filter : Operator → String → V → Filter V
  new_filter opt key value = insert key (operators (insert (name_of opt) value [])) []

  -- `set` with an operator; `none` is the panic of the type assertion.
  unfoldable pub set : Operator → String → V → Filter V → Option (Filter V)
  set opt key value f = elim (lookup key f) [
    | none ↦ some (insert key (operators (insert (name_of opt) value [])) f)
    | some (operators vmap) ↦ some (insert key (operators (insert (name_of opt) value vmap)) f)
    | some (plain v) ↦ none
  ]

  -- Calls of the methods one behind the other.
  unfoldable pub set_all : List (Call V) → Filter V → Option (Filter V)
  unfolding set
  set_all [] f = some f
  set_all ((opt, key, value) ∷ calls) f = elim (set opt key value f) [
    | none ↦ none
    | some f' ↦ set_all calls f'
  ]

  abbrev pub value_in : Operator → Option (Condition V) → Option V
  value_in opt none = none
  value_in opt (some (operators vmap)) = lookup (name_of opt) vmap
  value_in opt (some (plain v)) = none

  -- The value that a filter has for an operator at a key.
  abbrev pub value_at : Operator → String → Filter V → Option V
  value_at opt key f = value_in opt (lookup key f)

  -- The value of the last call for an operator at a key, or else `before`.
  unfoldable pub last_value : Operator → String → List (Call V) → Option V → Option V
  last_value opt key [] before = before
  last_value opt key ((opt', key', value) ∷ calls) before =
      last_value opt key calls
        (if str_eq key' key && str_eq (name_of opt') (name_of opt) then some value else before)

  -- Under every key stand operators.
  abbrev pub OnlyOperators : Filter V → Type ℓ
  OnlyOperators f = (key : String) (v : V) → lookup key f ≢ some (plain v)

  -- What a call of a method makes of a filter.
  Puts : Operator → String → V → Filter V → Filter V → Type ℓ
  Puts opt key value f f' =
      OnlyOperators f'
      × ((opt' : Operator) (key' : String)
          → value_at opt' key' f' ≡ (
              if str_eq key key' && str_eq (name_of opt) (name_of opt')
              then some value
              else value_at opt' key' f))

  put_operators :
      (opt : Operator) (key : String) (value : V) (f : Filter V) (vmap : Dict V)
      → OnlyOperators f
      → ((opt' : Operator) → value_at opt' key f ≡ lookup (name_of opt') vmap)
      → Puts opt key value f (insert key (operators (insert (name_of opt) value vmap)) f)
  unfolding Puts
  put_operators opt key value f vmap only same = (
    λ key' v e. ground (
      arith,
      lookup-insert key key' (operators (insert (name_of opt) value vmap)) f,
      only key' v,
    ),
    λ opt' key'.
        ap (value_in opt') (lookup-insert key key' (operators (insert (name_of opt) value vmap)) f)
        ∙ found_there opt' key' (Bool-cases (str_eq key key')),
  )
    where
      found_there :
          (opt' : Operator) (key' : String)
          → (str_eq key key' ≡ true) ⊎ (str_eq key key' ≡ false)
          → value_in opt' (
              if str_eq key key'
              then some (operators (insert (name_of opt) value vmap))
              else lookup key' f)
            ≡ (if str_eq key key' && str_eq (name_of opt) (name_of opt')
                then some value
                else value_at opt' key' f)
      found_there opt' key' (inl e) = rw e (
          lookup-insert (name_of opt) (name_of opt') value vmap
          ∙ ap (λ o. if str_eq (name_of opt) (name_of opt') then some value else o)
              (sym (same opt') ∙ ap (λ k. value_at opt' k f) ((eq_iff key key').0 e)))
      found_there opt' key' (inr e) = rw e refl

  set_some :
      (opt : Operator) (key : String) (value : V) (f : Filter V)
      → OnlyOperators f
      → (f' : Filter V) × (set opt key value f ≡ some f') × Puts opt key value f f'
  unfolding set lookup
  set_some opt key value f only = elim (condition-cases (lookup key f)) [
    | inl e ↦
        (_, rw (e, set) refl, put_operators opt key value f [] only (λ opt'. ap (value_in opt') e))
    | inr (inl (vmap, e)) ↦ (
      _,
      rw (e, set) refl,
      put_operators opt key value f vmap only (λ opt'. ap (value_in opt') e),
    )
    | inr (inr (v, e)) ↦ absurd (only key v e)
  ]
    where
      condition-cases :
          (o : Option (Condition V))
          → (o ≡ none)
            ⊎ (((vmap : Dict V) × (o ≡ some (operators vmap))) ⊎ ((v : V) × (o ≡ some (plain v))))
      condition-cases none = inl refl
      condition-cases (some (operators vmap)) = inr (inl (vmap, refl))
      condition-cases (some (plain v)) = inr (inr (v, refl))

  set_all-last :
      (calls : List (Call V)) (f : Filter V)
      → OnlyOperators f
      → (f' : Filter V) × (set_all calls f ≡ some f')
        × ((opt : Operator) (key : String)
            → value_at opt key f' ≡ last_value opt key calls (value_at opt key f))
  unfolding set_all last_value Puts
  set_all-last [] f only = (f, refl, λ opt key. refl)
  set_all-last ((opt, key, value) ∷ calls) f only =
      let (f1, e1, (only1, at1)) = set_some opt key value f only in
      let (f2, e2, at2) = set_all-last calls f1 only1 in
      (
        f2,
        rw (e1, set_all) e2,
        λ opt' key'. at2 opt' key' ∙ ap (last_value opt' key' calls) (at1 opt' key'),
      )

  -- A filter that is made by a function and calls of the methods behind it, in any order and with any keys,
  -- has for each operator at each key the value of its last call, and none if there was none; no
  -- call panics.
  pub set_all-new_filter :
      (opt : Operator) (key : String) (value : V) (calls : List (Call V))
      → (f : Filter V) × (set_all calls (new_filter opt key value) ≡ some f)
        × ((opt' : Operator) (key' : String)
            → value_at opt' key' f ≡ last_value opt' key' ((opt, key, value) ∷ calls) none)
  unfolding new_filter last_value Puts lookup
  set_all-new_filter opt key value calls =
      let (only, at) = put_operators opt key value [] [] (λ key' v e. cc) (λ opt'. refl) in
      let (f, e, at') = set_all-last calls (new_filter opt key value) only in
      (f, e, λ opt' key'. at' opt' key' ∙ ap (last_value opt' key' calls) (at opt' key'))
