-- ===== src/Base/Maps.antt =====
-- Go's `map[string]V` as an association list: `lookup` is the comma-ok read.
use Prim.Native.String.{String}
use mathlib.Core.Path.{◌≡◌, refl}
use mathlib.Core.Bool.{Bool, true, false}
use mathlib.Core.List.{List, [], ◌∷◌}
use mathlib.Core.Option.{Option, none, some}
use native.Mathlib.Omega.{arith}
use text.Mathlib.Text.{◌==◌ as str_eq}
use text.Mathlib.TextEquality.{eq_iff}
use text.Mathlib.TextPositions.{eq_refl}
use g_micor.Base.Tests.{if◌then◌else◌}

abbrev pub Dict {ℓ} : Type ℓ → Type ℓ
Dict V = List (String × V)

module _ {ℓ} {V : Type ℓ} where
  -- m[key], with its ok
  unfoldable pub lookup : (key : String) → Dict V → Option V
  lookup key [] = none
  lookup key ((name, val) ∷ rest) = if str_eq name key then some val else lookup key rest

  -- m[key] = val
  unfoldable pub insert : (key : String) → (val : V) → Dict V → Dict V
  insert key val [] = (key, val) ∷ []
  insert key val ((name, old) ∷ rest) =
      let below = insert key val rest in
      if str_eq name key then (name, val) ∷ rest else (name, old) ∷ below

  -- delete(m, key)
  unfoldable pub delete : (key : String) → Dict V → Dict V
  delete key [] = []
  delete key ((name, old) ∷ rest) =
      let below = delete key rest in if str_eq name key then below else (name, old) ∷ below

  -- The value that a missing key reads as is the type's zero value.
  abbrev pub or_zero : V → Option V → V
  or_zero zero_value none = zero_value
  or_zero zero_value (some val) = val

  abbrev pub is_some : Option V → Bool
  is_some none = false
  is_some (some val) = true

  pub lookup-insert :
      (key at : String) (val : V) (dict : Dict V)
      → lookup at (insert key val dict) ≡ (if str_eq key at then some val else lookup at dict)
  unfolding lookup insert
  lookup-insert key at val [] = refl
  lookup-insert key at val ((name, old) ∷ rest) =
      ground (arith, lookup-insert key at val rest, eq_iff name at, eq_iff name key, eq_iff key at)

  pub lookup-insert_self :
      (key : String) (val : V) (dict : Dict V) → lookup key (insert key val dict) ≡ some val
  lookup-insert_self key val dict = rw (lookup-insert, eq_refl)

  pub lookup-delete :
      (key at : String) (dict : Dict V)
      → lookup at (delete key dict) ≡ (if str_eq key at then none else lookup at dict)
  unfolding lookup delete
  lookup-delete key at [] = ground arith
  lookup-delete key at ((name, old) ∷ rest) =
      ground (arith, lookup-delete key at rest, eq_iff name at, eq_iff name key, eq_iff key at)

pub ruleset dict_laws = (lookup-insert, lookup-delete)
