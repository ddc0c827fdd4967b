-- ===== src/Base/Counts.antt =====
-- How many items of lists pass a test, and lists without an item.
use Prim.Native.Nat.{ℕ, zero, suc, ◌+◌}
use mathlib.Core.Path.{◌≡◌, ap, subst}
use mathlib.Core.Bool.{Bool}
use mathlib.Core.Option.{some}
use mathlib.Core.List.{List, [], ◌∷◌, ◌++◌, map}
use native.Mathlib.Omega.{arith}
use g_micor.Base.Tests.{if◌then◌else◌, some_inj}
use g_micor.Base.Lists.{All, get_elem?, modify}

abbrev pub replicate {ℓ} : {A : Type ℓ} → ℕ → A → List A
replicate zero x = []
replicate (suc n) x = x ∷ replicate n x

-- A list without the item at an index.
abbrev pub remove_at {κ} : {A : Type κ} → ℕ → List A → List A
remove_at i [] = []
remove_at zero (x ∷ xs) = xs
remove_at (suc i) (x ∷ xs) = x ∷ remove_at i xs

pub All-remove_at {ℓ κ} :
    {A : Type ℓ} (P : A → Type κ) (i : ℕ) (xs : List A) → All P xs → All P (remove_at i xs)
All-remove_at P i [] h = tt
All-remove_at P zero (x ∷ xs) h = h.1
All-remove_at P (suc i) (x ∷ xs) h = (h.0, All-remove_at P i xs h.1)

module _ {ℓ} {A : Type ℓ} where
  -- How many xs pass a test.
  abbrev pub matches : (A → Bool) → List A → ℕ
  matches test [] = 0
  matches test (x ∷ xs) = let rest = matches test xs in if test x then suc rest else rest

  abbrev pub matches_all : (A → Bool) → List (List A) → ℕ
  matches_all test [] = 0
  matches_all test (batch ∷ batches) = matches test batch + matches_all test batches

  pub matches-append :
      (test : A → Bool) (xs ys : List A)
      → matches test (xs ++ ys) ≡ matches test xs + matches test ys
  matches-append test [] ys = omega arith
  matches-append test (x ∷ xs) ys = ground (arith, matches-append test xs ys)

  pub matches_all-snoc :
      (test : A → Bool) (bs : List (List A)) (b : List A)
      → matches_all test (bs ++ b ∷ []) ≡ matches_all test bs + matches test b
  matches_all-snoc test [] b = omega arith
  matches_all-snoc test (c ∷ bs) b = omega (arith, matches_all-snoc test bs b)

  pub matches_all-remove_at :
      (test : A → Bool) (i : ℕ) (bs : List (List A)) (b : List A)
      → get_elem? bs i ≡ some b
      → matches_all test bs ≡ matches test b + matches_all test (remove_at i bs)
  matches_all-remove_at test i [] b e = absurd cc
  matches_all-remove_at test zero (c ∷ bs) b e =
      ap (λ x. matches test x + matches_all test bs) (some_inj e)
  matches_all-remove_at test (suc i) (c ∷ bs) b e =
      omega (arith, matches_all-remove_at test i bs b e)

  pub matches-remove_at :
      (test : A → Bool) (i : ℕ) (xs : List A) (x : A)
      → get_elem? xs i ≡ some x
      → matches test xs ≡ matches test (x ∷ []) + matches test (remove_at i xs)
  matches-remove_at test i [] x e = absurd cc
  matches-remove_at test zero (y ∷ xs) x e =
      subst (λ z. matches test (y ∷ xs) ≡ matches test (z ∷ []) + matches test xs) (some_inj e)
        (ground arith)
  matches-remove_at test (suc i) (y ∷ xs) x e = ground (arith, matches-remove_at test i xs x e)

-- One of several lists is exchanged for another.
pub matches_all-modify {ℓ κ} :
    {A : Type ℓ} {B : Type κ} (test : A → Bool) (f : B → List A) (i : ℕ) (ys : List B)
    (before after : B)
    → get_elem? ys i ≡ some before
    → matches_all test (map f (modify i (λ _. after) ys)) + matches test (f before)
      ≡ matches_all test (map f ys) + matches test (f after)
matches_all-modify test f i [] before after e = absurd cc
matches_all-modify test f zero (y ∷ ys) before after e =
    let same = ap (λ b. matches test (f b)) (some_inj e) in omega arith
matches_all-modify test f (suc i) (y ∷ ys) before after e =
    omega (arith, matches_all-modify test f i ys before after e)
