-- ===== src/Arrays/Laws.antt =====
-- util/arrays/: what is in a difference, and which error stops a conversion.
use g_micor.Base.{
  ◌≡◌, refl, ap, ◌∙◌, ◌↔◌, Bool, true, not, ◌&&◌, ◌||◌, some, List, [], ◌∷◌, ◌++◌, map, arith,
  Bool-cases, inl, inr,
}
use g_micor.Arrays.{
  Outcome, ok, error, convert_items, map_with_error, in_map, difference, symmetric_difference,
}

module _ {ℓ} {A : Type ℓ} (eq : A → A → Bool) (eq_iff : (x y : A) → (eq x y ≡ true) ↔ (x ≡ y)) where
  in_map-append :
      (xs ys : List A) (x : A) → in_map eq (xs ++ ys) x ≡ (in_map eq xs x || in_map eq ys x)
  unfolding in_map
  in_map-append [] ys x = refl
  in_map-append (y ∷ xs) ys x = ground (arith, in_map-append xs ys x)

  in_map-difference :
      (a b : List A) (x : A)
      → in_map eq (difference eq a b) x ≡ (in_map eq a x && not (in_map eq b x))
  unfolding in_map difference
  in_map-difference [] b x = refl
  in_map-difference (y ∷ a) b x = elim (Bool-cases (eq y x)) [
    | inl e ↦
        let same = (eq_iff y x).0 e in
        let there = ap (in_map eq b) same in ground (arith, in_map-difference a b x)
    | inr e ↦ ground (arith, in_map-difference a b x)
  ]

  -- An item is in the symmetric difference if it is in one of the lists and not in the other.
  pub in_map-symmetric_difference :
      (a b : List A) (x : A)
      → in_map eq (symmetric_difference eq a b) x
        ≡ ((in_map eq a x && not (in_map eq b x)) || (in_map eq b x && not (in_map eq a x)))
  unfolding symmetric_difference
  in_map-symmetric_difference a b x =
      in_map-append (difference eq a b) (difference eq b a) x
      ∙ rw (in_map-difference a b x, in_map-difference b a x) refl

module _ {ℓ κ μ} {A : Type ℓ} {E : Type κ} {R : Type μ} (converter : A → Outcome E R) where
  convert_items-append :
      (xs : List A) (y : A) (ys : List A) (e : E) (rs : List R)
      → map converter xs ≡ map (λ r. ok r) rs
      → converter y ≡ error e
      → convert_items converter (xs ++ y ∷ ys) ≡ error e
  unfolding convert_items
  convert_items-append [] y ys e rs h k = rw (k, convert_items) refl
  convert_items-append (x ∷ xs) y ys e [] h k = absurd cc
  convert_items-append (x ∷ xs) y ys e (r ∷ rs) h k =
      let here : converter x ≡ ok r = cc in
      let more : map converter xs ≡ map (λ r'. ok r') rs = cc in
      rw (here, convert_items) (rw (convert_items-append xs y ys e rs more k) refl)

  -- The first error is the result, whatever comes behind it.
  pub map_with_error-first :
      (xs : List A) (y : A) (ys : List A) (e : E) (rs : List R)
      → map converter xs ≡ map (λ r. ok r) rs
      → converter y ≡ error e
      → map_with_error (some (xs ++ y ∷ ys)) converter ≡ error e
  unfolding map_with_error
  map_with_error-first xs y ys e rs h k =
      rw (convert_items-append xs y ys e rs h k, map_with_error) refl
