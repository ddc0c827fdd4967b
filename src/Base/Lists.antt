-- ===== src/Base/Lists.antt =====
-- Lists measured and indexed by native numbers, and lists of texts searched by the `==` of Go.
use Prim.Native.Nat.{ℕ, zero, suc, ◌+◌}
use Prim.Native.String.{String}
use Prim.Native.Nat.add
use mathlib.Core.Path.{◌≡◌, refl, ap, subst}
use mathlib.Core.Logic.{◌⊎◌, inl, inr}
use mathlib.Core.Logic.{◌≢◌}
use mathlib.Core.Bool.{Bool, false, ◌||◌}
use mathlib.Core.Option.{Option, none, some}
use mathlib.Core.List.{List, [], ◌∷◌, ◌++◌}
use native.Mathlib.Omega.{arith}
use text.Mathlib.Text.{◌==◌ as str_eq}
use text.Mathlib.TextEquality.{eq_iff}
use g_micor.Base.Tests.{if◌then◌else◌, some_inj}

module _ {ℓ} {A : Type ℓ} where
  abbrev pub length : List A → ℕ
  length [] = 0
  length (x ∷ xs) = suc (length xs)

  abbrev pub get_or : List A → ℕ → A → A
  get_or [] i d = d
  get_or (x ∷ xs) zero d = x
  get_or (x ∷ xs) (suc i) d = get_or xs i d

  abbrev pub drop : ℕ → List A → List A
  drop zero xs = xs
  drop (suc n) [] = []
  drop (suc n) (x ∷ xs) = drop n xs

  abbrev pub take : ℕ → List A → List A
  take zero xs = []
  take (suc n) [] = []
  take (suc n) (x ∷ xs) = x ∷ take n xs

  -- Every entry satisfies the predicate.
  abbrev pub All {κ} : (A → Type κ) → List A → Type κ
  All P [] = Unit
  All P (x ∷ xs) = P x × All P xs

  pub length-append : (xs ys : List A) → length (xs ++ ys) ≡ length xs + length ys
  length-append [] ys = omega arith
  length-append (x ∷ xs) ys = omega (arith, length-append xs ys)

-- A search loop with a `break`.
unfoldable pub elem : String → List String → Bool
elem a [] = false
elem a (x ∷ xs) = str_eq x a || elem a xs

-- `append(xs[:i], xs[i+1:]...)` at the first entry equal to `a`; as it was if there is none.
unfoldable pub remove_first : String → List String → List String
remove_first a [] = []
remove_first a (x ∷ xs) = if str_eq x a then xs else x ∷ remove_first a xs

-- No entry stands twice.
abbrev pub Distinct : List String → Type 0
Distinct [] = Unit
Distinct (x ∷ xs) = (elem x xs ≡ false) × Distinct xs

pub elem-append : (a : String) (xs ys : List String) → elem a (xs ++ ys) ≡ (elem a xs || elem a ys)
unfolding elem
elem-append a [] ys = refl
elem-append a (x ∷ xs) ys = ground (arith, elem-append a xs ys)

pub elem-snoc :
    (a b : String) (xs : List String) → elem a (xs ++ b ∷ []) ≡ (elem a xs || str_eq b a)
unfolding elem
elem-snoc a b xs = ground (arith, elem-append a xs (b ∷ []))

pub Distinct-snoc :
    (a : String) (xs : List String) → Distinct xs → elem a xs ≡ false → Distinct (xs ++ a ∷ [])
unfolding elem
Distinct-snoc a [] d h = (refl, tt)
Distinct-snoc a (x ∷ xs) d h =
    ground (arith, Distinct-snoc a xs d.1, elem-snoc x a xs, eq_iff x a, eq_iff a x)

-- What is left after the removal of one entry of a list with no duplicates.
pub elem-remove_first :
    (a b : String) (xs : List String)
    → Distinct xs
    → elem b (remove_first a xs) ≡ (if str_eq a b then false else elem b xs)
unfolding elem remove_first
elem-remove_first a b [] d = ground arith
elem-remove_first a b (x ∷ xs) d =
    ground (arith, elem-remove_first a b xs d.1, eq_iff x a, eq_iff x b, eq_iff a b)

pub remove_first-absent :
    (a : String) (xs : List String) → elem a xs ≡ false → remove_first a xs ≡ xs
unfolding elem remove_first
remove_first-absent a [] h = refl
remove_first-absent a (x ∷ xs) h = ground (arith, remove_first-absent a xs)

pub Distinct-remove_first :
    (a : String) (xs : List String) → Distinct xs → Distinct (remove_first a xs)
unfolding elem remove_first
Distinct-remove_first a [] d = tt
Distinct-remove_first a (x ∷ xs) d =
    ground
      (arith, Distinct-remove_first a xs d.1, elem-remove_first a x xs d.1, eq_iff x a, eq_iff a x)

module _ {ℓ} {A : Type ℓ} where
  -- The last entry of `a ∷ xs`.
  abbrev pub get_last : A → List A → A
  get_last a [] = a
  get_last a (x ∷ xs) = get_last x xs

  pub drop-length : (a : A) (xs : List A) → drop (length xs) (a ∷ xs) ≡ get_last a xs ∷ []
  drop-length a [] = refl
  drop-length a (x ∷ xs) = drop-length x xs

  -- Reading at `k`, and what is behind it, from the part of the list that starts there.
  pub get_or-drop :
      (k : ℕ) (xs : List A) (d x : A) (rest : List A) → drop k xs ≡ x ∷ rest → get_or xs k d ≡ x
  get_or-drop zero [] d x rest h = cc
  get_or-drop zero (y ∷ xs) d x rest h = cc
  get_or-drop (suc k) [] d x rest h = cc
  get_or-drop (suc k) (y ∷ xs) d x rest h = get_or-drop k xs d x rest h

  pub drop-suc :
      (k : ℕ) (xs : List A) (x : A) (rest : List A) → drop k xs ≡ x ∷ rest → drop (suc k) xs ≡ rest
  drop-suc zero [] x rest h = cc
  drop-suc zero (y ∷ xs) x rest h = cc
  drop-suc (suc k) [] x rest h = cc
  drop-suc (suc k) (y ∷ xs) x rest h = drop-suc k xs x rest h

  pub drop-append : (xs ys : List A) → drop (length xs) (xs ++ ys) ≡ ys
  drop-append [] ys = refl
  drop-append (x ∷ xs) ys = drop-append xs ys

  pub drop-append_suc :
      (xs : List A) (y : A) (ys : List A) → drop (suc (length xs)) (xs ++ y ∷ ys) ≡ ys
  drop-append_suc [] y ys = refl
  drop-append_suc (x ∷ xs) y ys = drop-append_suc xs y ys

  pub drop-add : (xs ys : List A) (k : ℕ) → drop (length xs + k) (xs ++ ys) ≡ drop k ys
  drop-add [] ys k = rw (add.zero k)
  drop-add (x ∷ xs) ys k = rw (add.suc (length xs) k) (drop-add xs ys k)

  pub List-cases : (xs : List A) → (xs ≡ []) ⊎ ((a : A) × (rest : List A) × (xs ≡ a ∷ rest))
  List-cases [] = inl refl
  List-cases (x ∷ xs) = inr (x, xs, refl)

module _ {ℓ} {A : Type ℓ} where
  abbrev pub get_elem? : List A → ℕ → Option A
  get_elem? [] i = none
  get_elem? (x ∷ xs) zero = some x
  get_elem? (x ∷ xs) (suc i) = get_elem? xs i

  -- A write through a function; out of bounds it changes nothing.
  abbrev pub modify : ℕ → (A → A) → List A → List A
  modify i f [] = []
  modify zero f (x ∷ xs) = f x ∷ xs
  modify (suc i) f (x ∷ xs) = x ∷ modify i f xs

  pub get_elem?-modify_self :
      (i : ℕ) (f : A → A) (xs : List A) (x : A)
      → get_elem? xs i ≡ some x
      → get_elem? (modify i f xs) i ≡ some (f x)
  get_elem?-modify_self i f [] x e = cc
  get_elem?-modify_self zero f (y ∷ xs) x e = cc
  get_elem?-modify_self (suc i) f (y ∷ xs) x e = get_elem?-modify_self i f xs x e

  pub get_elem?-modify_ne :
      (i j : ℕ) (f : A → A) (xs : List A) → i ≢ j → get_elem? (modify i f xs) j ≡ get_elem? xs j
  get_elem?-modify_ne i j f [] h = refl
  get_elem?-modify_ne zero zero f (y ∷ xs) h = absurd (h refl)
  get_elem?-modify_ne zero (suc j) f (y ∷ xs) h = refl
  get_elem?-modify_ne (suc i) zero f (y ∷ xs) h = refl
  get_elem?-modify_ne (suc i) (suc j) f (y ∷ xs) h =
      get_elem?-modify_ne i j f xs (λ e. h (ap suc e))

  pub get_elem?-append_left :
      (i : ℕ) (xs ys : List A) (x : A) → get_elem? xs i ≡ some x → get_elem? (xs ++ ys) i ≡ some x
  get_elem?-append_left i [] ys x e = cc
  get_elem?-append_left zero (y ∷ xs) ys x e = e
  get_elem?-append_left (suc i) (y ∷ xs) ys x e = get_elem?-append_left i xs ys x e

  pub get_elem?-length : (xs : List A) (x : A) → get_elem? (xs ++ x ∷ []) (length xs) ≡ some x
  get_elem?-length [] x = refl
  get_elem?-length (y ∷ xs) x = get_elem?-length xs x

  -- An entry after a write is the entry before, or the function of it.
  pub get_elem?-modify :
      (i j : ℕ) (f : A → A) (xs : List A) (x : A)
      → get_elem? xs j ≡ some x
      → (get_elem? (modify i f xs) j ≡ some (f x)) ⊎ (get_elem? (modify i f xs) j ≡ some x)
  get_elem?-modify i j f [] x e = cc
  get_elem?-modify zero zero f (y ∷ xs) x e = inl (cc)
  get_elem?-modify zero (suc j) f (y ∷ xs) x e = inr e
  get_elem?-modify (suc i) zero f (y ∷ xs) x e = inr e
  get_elem?-modify (suc i) (suc j) f (y ∷ xs) x e = get_elem?-modify i j f xs x e

pub All-append {ℓ κ} :
    {A : Type ℓ} (P : A → Type κ) (xs ys : List A) → All P xs → All P ys → All P (xs ++ ys)
All-append P [] ys hx hy = hy
All-append P (x ∷ xs) ys hx hy = (hx.0, All-append P xs ys hx.1 hy)

pub All-get_elem? {ℓ κ} :
    {A : Type ℓ} (P : A → Type κ) (xs : List A) (i : ℕ) (x : A)
    → All P xs
    → get_elem? xs i ≡ some x
    → P x
All-get_elem? P [] i x h e = absurd cc
All-get_elem? P (y ∷ ys) zero x h e = subst P (some_inj e) h.0
All-get_elem? P (y ∷ ys) (suc i) x h e = All-get_elem? P ys i x h.1 e
