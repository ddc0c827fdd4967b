-- ===== src/Base/Changes.antt =====
-- What one change of a list or of a dictionary does to another place of it.
use Prim.Native.Nat.{ℕ, zero, suc}
use Prim.Native.String.{String}
use mathlib.Core.Path.{◌≡◌, refl, sym, ap, ◌∙◌}
use mathlib.Core.Logic.{◌≢◌, ◌⊎◌, inl, inr}
use mathlib.Core.Option.{none, some}
use mathlib.Core.List.{List, [], ◌∷◌, ◌++◌, map}
use native.Mathlib.Omega.{arith}
use text.Mathlib.Text.{◌==◌ as str_eq}
use text.Mathlib.TextEquality.{eq_iff}
use g_micor.Base.Tests.{Bool-cases, some_inj}
use g_micor.Base.Lists.{length, modify, get_elem?}
use g_micor.Base.Maps.{
  Dict, lookup, insert, delete, lookup-insert, lookup-insert_self, lookup-delete,
}

pub none-ne-some {ℓ} : {A : Type ℓ} {a : A} → none ≢ some a
none-ne-some e = cc

pub ℕ-cases : (i j : ℕ) → (i ≡ j) ⊎ (i ≢ j)
ℕ-cases zero zero = inl refl
ℕ-cases zero (suc j) = inr (omega arith)
ℕ-cases (suc i) zero = inr (omega arith)
ℕ-cases (suc i) (suc j) = elim (ℕ-cases i j) [
  | inl e ↦ inl (ap suc e)
  | inr ne ↦ inr (λ e. ne (omega arith))
]

module _ {ℓ} {A : Type ℓ} where
  pub get_elem?-set_cases :
      (i j : ℕ) (p q : A) (gs : List A)
      → get_elem? (modify i (λ _. p) gs) j ≡ some q
      → ((i ≡ j) × (p ≡ q)) ⊎ ((i ≢ j) × (get_elem? gs j ≡ some q))
  get_elem?-set_cases i j p q [] h = absurd cc
  get_elem?-set_cases zero zero p q (r ∷ gs) h = inl (refl, some_inj h)
  get_elem?-set_cases zero (suc j) p q (r ∷ gs) h = inr (omega arith, h)
  get_elem?-set_cases (suc i) zero p q (r ∷ gs) h = inr (omega arith, h)
  get_elem?-set_cases (suc i) (suc j) p q (r ∷ gs) h = elim (get_elem?-set_cases i j p q gs h) [
    | inl (e, e') ↦ inl (ap suc e, e')
    | inr (ne, e) ↦ inr ((λ e'. ne (omega arith)), e)
  ]

module _ {ℓ} {A : Type ℓ} where
  -- What stands in a list of which one entry was changed, or to which one was added.
  pub modify_cases :
      (i j : ℕ) (f : A → A) (xs : List A) (y : A)
      → get_elem? (modify i f xs) j ≡ some y
      → ((i ≡ j) × ((x : A) × (get_elem? xs i ≡ some x) × (f x ≡ y)))
        ⊎ ((i ≢ j) × (get_elem? xs j ≡ some y))
  modify_cases i j f [] y h = absurd cc
  modify_cases zero zero f (x ∷ xs) y h = inl (refl, (x, refl, some_inj h))
  modify_cases zero (suc j) f (x ∷ xs) y h = inr (omega arith, h)
  modify_cases (suc i) zero f (x ∷ xs) y h = inr (omega arith, h)
  modify_cases (suc i) (suc j) f (x ∷ xs) y h = elim (modify_cases i j f xs y h) [
    | inl (e, was) ↦ inl (ap suc e, was)
    | inr (ne, e) ↦ inr ((λ e'. ne (omega arith)), e)
  ]

  pub snoc_cases :
      (i : ℕ) (xs : List A) (x y : A)
      → get_elem? (xs ++ x ∷ []) i ≡ some y
      → ((length xs ≡ i) × (x ≡ y)) ⊎ (get_elem? xs i ≡ some y)
  snoc_cases zero [] x y h = inl (refl, some_inj h)
  snoc_cases (suc i) [] x y h = absurd cc
  snoc_cases zero (z ∷ xs) x y h = inr h
  snoc_cases (suc i) (z ∷ xs) x y h = elim (snoc_cases i xs x y h) [
    | inl (e, e') ↦ inl (ap suc e, e')
    | inr old ↦ inr old
  ]

pub map_cases {ℓ κ} :
    {A : Type ℓ} {B : Type κ} (i : ℕ) (f : B → A) (xs : List B) (y : A)
    → get_elem? (map f xs) i ≡ some y
    → (x : B) × (get_elem? xs i ≡ some x) × (f x ≡ y)
map_cases i f [] y h = absurd cc
map_cases zero f (x ∷ xs) y h = (x, refl, some_inj h)
map_cases (suc i) f (x ∷ xs) y h = map_cases i f xs y h

pub get_elem?-past {ℓ} : {A : Type ℓ} (xs : List A) → get_elem? xs (length xs) ≡ none
get_elem?-past [] = refl
get_elem?-past (x ∷ xs) = get_elem?-past xs

module _ {ℓ} {V : Type ℓ} where
  -- Another key than one that is put in, or taken out.
  pub insert-other :
      (key at : String) (c d : V) (m : Dict V)
      → lookup key m ≡ none
      → lookup at m ≡ some d
      → lookup at (insert key c m) ≡ some d
  insert-other key at c d m absent h = elim (Bool-cases (str_eq key at)) [
    | inl e ↦ let same : key ≡ at = (eq_iff key at).0 e in absurd cc
    | inr e ↦ rw (lookup-insert, e) h
  ]

  -- What is put in, looked up again.
  pub insert_cases :
      (key at : String) (c d : V) (m : Dict V)
      → lookup at (insert key c m) ≡ some d
      → ((key ≡ at) × (c ≡ d)) ⊎ ((key ≢ at) × (lookup at m ≡ some d))
  insert_cases key at c d m h = elim (Bool-cases (str_eq key at)) [
    | inl e ↦
        let same = (eq_iff key at).0 e in
        inl (
          same,
          some_inj
              (sym (lookup-insert_self key c m) ∙ ap (λ k. lookup k (insert key c m)) same ∙ h),
        )
    | inr e ↦ inr (
      (λ same. let e' = (eq_iff key at).1 same in absurd cc),
      sym (rw (lookup-insert, e) refl) ∙ h,
    )
  ]

  pub delete_cases :
      (key at : String) (d : V) (m : Dict V)
      → lookup at (delete key m) ≡ some d
      → (key ≢ at) × (lookup at m ≡ some d)
  delete_cases key at d m h = elim (Bool-cases (str_eq key at)) [
    | inl e ↦ let gone : lookup at (delete key m) ≡ none = rw (lookup-delete, e) refl in absurd cc
    | inr e ↦ (
      (λ same. let e' = (eq_iff key at).1 same in absurd cc),
      sym (rw (lookup-delete, e) refl) ∙ h,
    )
  ]

  pub delete-other :
      (key at : String) (d : V) (m : Dict V)
      → key ≢ at
      → lookup at m ≡ some d
      → lookup at (delete key m) ≡ some d
  delete-other key at d m ne h = elim (Bool-cases (str_eq key at)) [
    | inl e ↦ absurd (ne ((eq_iff key at).0 e))
    | inr e ↦ rw (lookup-delete, e) h
  ]

  pub same_call :
      (key at : String) (c d : V) (m : Dict V)
      → key ≡ at
      → lookup key m ≡ some c
      → lookup at m ≡ some d
      → c ≡ d
  same_call key at c d m same h k = some_inj (sym h ∙ ap (λ n. lookup n m) same ∙ k)
