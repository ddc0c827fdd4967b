-- ===== src/Arrays.antt =====
-- util/arrays/: convert.go and diff.go. A slice is nil or a list. `eq` is the test of a comparable type.
pub mod Laws
mod Tests
use g_micor.Base.{
  ℕ, zero, suc, Bool, true, false, not, ◌||◌, Option, none, some, List, [], ◌∷◌, ◌++◌,
  if◌then◌else◌,
}

-- The result of a converter: its value or its error.
pub data Outcome {ℓ κ} (E : Type ℓ) (R : Type κ) : Type (ℓ ⊔ κ) where
  ok : R → Outcome E R
  error : E → Outcome E R

module _ {ℓ κ} {A : Type ℓ} {R : Type κ} where
  -- The loop of `Map`.
  abbrev pub map_items : (A → R) → List A → List R
  map_items converter [] = []
  map_items converter (item ∷ items) = converter item ∷ map_items converter items

  -- `Map`
  unfoldable pub map_slice : Option (List A) → (A → R) → Option (List R)
  map_slice none converter = none
  map_slice (some source) converter = some (map_items converter source)

  -- The loop of `MapWithIndex` from an index on.
  abbrev pub map_from : ℕ → (ℕ → A → R) → List A → List R
  map_from i converter [] = []
  map_from i converter (item ∷ items) = converter i item ∷ map_from (suc i) converter items

  unfoldable pub map_with_index : Option (List A) → (ℕ → A → R) → Option (List R)
  map_with_index none converter = none
  map_with_index (some source) converter = some (map_from 0 converter source)

module _ {ℓ κ μ} {A : Type ℓ} {E : Type κ} {R : Type μ} where
  -- The loop of `MapWithError`; it stops at the first error.
  unfoldable pub convert_items : (A → Outcome E R) → List A → Outcome E (List R)
  convert_items converter [] = ok []
  convert_items converter (item ∷ items) = elim (converter item) [
    | error e ↦ error e
    | ok converted ↦ elim (convert_items converter items) [
      | error e ↦ error e
      | ok rest ↦ ok (converted ∷ rest)
    ]
  ]

  unfoldable pub map_with_error : Option (List A) → (A → Outcome E R) → Outcome E (Option (List R))
  unfolding convert_items
  map_with_error none converter = ok none
  map_with_error (some source) converter = elim (convert_items converter source) [
    | error e ↦ error e
    | ok result ↦ ok (some result)
  ]

module _ {ℓ} {A : Type ℓ} (eq : A → A → Bool) where
  -- A look into the map of a list's items.
  unfoldable pub in_map : List A → A → Bool
  in_map [] item = false
  in_map (x ∷ xs) item = let rest = in_map xs item in if eq x item then true else rest

  -- The items of a list that are not in the map of another.
  unfoldable pub difference : List A → List A → List A
  unfolding in_map
  difference [] b = []
  difference (item ∷ a) b = let rest = difference a b in if in_map b item then rest else item ∷ rest

  unfoldable pub symmetric_difference : List A → List A → List A
  unfolding difference
  symmetric_difference a b = difference a b ++ difference b a
