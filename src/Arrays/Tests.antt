-- ===== src/Arrays/Tests.antt =====
-- util/arrays/: lists of a few items.
use g_micor.Base.{ℕ, ◌≡◌, refl, some, [], ◌∷◌, str_eq}
use g_micor.Arrays.{map_with_index, difference}

difference_keeps_order :
    difference str_eq ("c" ∷ "a" ∷ "b" ∷ "a" ∷ []) ("b" ∷ []) ≡ "c" ∷ "a" ∷ "a" ∷ []
unfolding difference
difference_keeps_order = refl

indices : map_with_index {A = ℕ} (some (7 ∷ 7 ∷ [])) (λ i n. i) ≡ some (0 ∷ 1 ∷ [])
unfolding map_with_index
indices = refl
