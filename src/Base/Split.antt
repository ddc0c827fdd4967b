-- ===== src/Base/Split.antt =====
-- `strings.Split` at one byte.
use Prim.Native.Nat.{ℕ}
use mathlib.Core.Path.{◌≡◌, refl, ap, sym, ◌∙◌}
use mathlib.Core.Logic.{inl, inr}
use mathlib.Core.Bool.{false}
use mathlib.Core.List.{List, [], ◌∷◌, ◌++◌}
use native.Mathlib.Omega.{arith}
use g_micor.Base.Bytes.{Bytes}
use g_micor.Base.Tests.{◌==◌, ==_iff, if◌then◌else◌, Bool-cases}
use g_micor.Base.Lists.{All}

-- The first part, and the others.
unfoldable pub split : ℕ → Bytes → Bytes × List Bytes
split sep [] = ([], [])
split sep (c ∷ s) =
    let (part, parts) = split sep s in if c == sep then ([], part ∷ parts) else (c ∷ part, parts)

abbrev pub IsNot : ℕ → ℕ → Type 0
IsNot sep c = (c == sep) ≡ false

pub split_plain : (sep : ℕ) (s : Bytes) → All (IsNot sep) s → split sep s ≡ (s, [])
unfolding split
split_plain sep [] h = refl
split_plain sep (c ∷ s) h = ground (arith, split_plain sep s h.1)

pub split-append :
    (sep : ℕ) (s t : Bytes)
    → All (IsNot sep) s
    → All (IsNot sep) t
    → split sep (s ++ sep ∷ t) ≡ (s, t ∷ [])
unfolding split
split-append sep [] t h k = ground (arith, split_plain sep t k)
split-append sep (c ∷ s) t h k = ground (arith, split-append sep s t h.1 k)

-- The text that parts are of.
abbrev pub joined : ℕ → Bytes → List Bytes → Bytes
joined sep part [] = part
joined sep part (next ∷ parts) = part ++ sep ∷ joined sep next parts

joined_cons :
    (sep c : ℕ) (part : Bytes) (parts : List Bytes)
    → joined sep (c ∷ part) parts ≡ c ∷ joined sep part parts
joined_cons sep c part [] = refl
joined_cons sep c part (next ∷ parts) = refl

pub joined-split : (sep : ℕ) (s : Bytes) → joined sep (split sep s).0 (split sep s).1 ≡ s
unfolding split
joined-split sep [] = refl
joined-split sep (c ∷ s) = elim (Bool-cases (c == sep)) [
  | inl e ↦
      let same : c ≡ sep = (==_iff c sep).0 e in
      rw e (ap (λ t. sep ∷ t) (joined-split sep s) ∙ ap (λ d. d ∷ s) (sym same))
  | inr e ↦
      rw e
        (joined_cons sep c (split sep s).0 (split sep s).1 ∙ ap (λ t. c ∷ t) (joined-split sep s))
]
