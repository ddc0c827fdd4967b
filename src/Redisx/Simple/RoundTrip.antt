-- ===== src/Redisx/Simple/RoundTrip.antt =====
-- redisx/operation.go: a simple value that is converted and parsed again.
use native.Mathlib.Nat.{pow-le-pow_right, pow-suc}
use g_micor.Base.{
  ℕ, zero, suc, ◌-◌, ◌^◌, ◌<◌, ◌≤◌, ◌≡◌, refl, ap, sym, subst, ◌∙◌, Bool, true, false, none, some,
  [], ◌∷◌, arith, List-cases, inl, inr, if◌then◌else◌, ltb, leb,
}
use g_micor.Base.Int.{ℤ, pos, negsuc}
use g_micor.Base.Bytes.{Bytes, codes}
use g_micor.Base.Decimal.{
  is_digit, decimal, spelled, AllDigits, spelled-decimal, decimal-AllDigits, decimal-ne-nil,
}
use g_micor.Redisx.Simple.{
  SimpleType, string_type, int_type, uint_type, float_type, bool_type, SimpleValue, string, int,
  uint, float, bool, Floats, format_int, all_digits, parse_uint, parse_int, convert_simple_value,
  parse_simple_value, signed_in_range,
}

ltb_of_lt : (n m : ℕ) → n < m → ltb n m ≡ true
ltb_of_lt n m h = ground arith

leb_of_le : (n m : ℕ) → n ≤ m → leb n m ≡ true
leb_of_le n m h = ground arith

all_digits-AllDigits : (s : Bytes) → AllDigits s → all_digits s ≡ true
all_digits-AllDigits [] h = refl
all_digits-AllDigits (c ∷ s) h = rw (h.0) (all_digits-AllDigits s h.1)

parse_uint-cons :
    (bits n : ℕ) (c : ℕ) (s : Bytes)
    → AllDigits (c ∷ s)
    → spelled 0 (c ∷ s) ≡ n
    → n < 2 ^ bits
    → parse_uint bits (c ∷ s) ≡ some n
unfolding parse_uint
parse_uint-cons bits n c s digits value small =
    rw (all_digits-AllDigits (c ∷ s) digits, parse_uint)
      (ap (λ m. if ltb m (2 ^ bits) then some m else none) value
        ∙ rw (ltb_of_lt n (2 ^ bits) small) refl)

parse_uint-decimal : (bits n : ℕ) → n < 2 ^ bits → parse_uint bits (decimal n) ≡ some n
parse_uint-decimal bits n h = elim (List-cases (decimal n)) [
  | inl e ↦ absurd (decimal-ne-nil n e)
  | inr (c, s, e) ↦
      ap (parse_uint bits) e
      ∙ parse_uint-cons bits n c s (subst AllDigits e (decimal-AllDigits n))
          (ap (spelled 0) (sym e) ∙ spelled-decimal n) h
]

parse_int-unsigned :
    (bits c : ℕ) (s : Bytes)
    → is_digit c ≡ true
    → parse_int bits (c ∷ s) ≡ signed_in_range bits false (parse_uint bits (c ∷ s))
unfolding parse_int
parse_int-unsigned bits c s h = ground arith

parse_int-minus :
    (bits : ℕ) (s : Bytes)
    → parse_int bits (b'-' ∷ s) ≡ signed_in_range bits true (parse_uint bits s)
unfolding parse_int
parse_int-minus bits s = refl

abbrev pub IsInt : ℕ → ℤ → Type 0
IsInt bits (pos n) = n < 2 ^ (bits - 1)
IsInt bits (negsuc n) = suc n ≤ 2 ^ (bits - 1)

half-lt : (bits : ℕ) → zero < bits → 2 ^ (bits - 1) < 2 ^ bits
half-lt zero h = absurd (omega arith)
half-lt (suc b) h =
    let positive = pow-le-pow_right {n = 2} (omega arith) {i = 0} {j = b} (omega arith) in
    let same : suc b - 1 ≡ b = omega arith in rw (same, pow-suc 2 b) (omega (arith, positive))

-- A value of a type, as long as it fits.
module _ {F O : Type 0} where
  pub data IsOf : SimpleType → SimpleValue F O → Type 0 where
    a_string : (s : Bytes) → IsOf string_type (string s)
    an_int : (bits : ℕ) (n : ℤ) → zero < bits → IsInt bits n → IsOf (int_type bits) (int n)
    a_uint : (bits n : ℕ) → n < 2 ^ bits → IsOf (uint_type bits) (uint n)
    a_float : (x : F) → IsOf float_type (float x)
    a_bool : (b : Bool) → IsOf bool_type (bool b)

parse_int-format_int :
    (bits : ℕ) (n : ℤ) → zero < bits → IsInt bits n → parse_int bits (format_int n) ≡ some n
parse_int-format_int bits (pos n) h k = elim (List-cases (decimal n)) [
  | inl e ↦ absurd (decimal-ne-nil n e)
  | inr (c, s, e) ↦
      let digits = subst AllDigits e (decimal-AllDigits n) in
      ap (parse_int bits) e
      ∙ parse_int-unsigned bits c s digits.0
      ∙ ap (signed_in_range bits false) (
          ap (parse_uint bits) (sym e)
          ∙ parse_uint-decimal bits n (omega (arith, k, half-lt bits h)))
      ∙ rw (ltb_of_lt n (2 ^ (bits - 1)) k) refl
]
parse_int-format_int bits (negsuc n) h k =
    parse_int-minus bits (decimal (suc n))
    ∙ ap (signed_in_range bits true)
        (parse_uint-decimal bits (suc n) (omega (arith, k, half-lt bits h)))
    ∙ rw (leb_of_le (suc n) (2 ^ (bits - 1)) k) refl

module _ {F O : Type 0} (floats : Floats F) where
  -- A simple value that fits its type comes back from its text as it was, if floats do.
  pub parse-convert :
      {t : SimpleType} {v : SimpleValue F O}
      → ((x : F) → floats.parse (floats.format x) ≡ some x)
      → IsOf t v
      → (s : Bytes) × (convert_simple_value floats v ≡ some s)
        × (parse_simple_value floats t s ≡ some v)
  unfolding convert_simple_value parse_simple_value
  parse-convert law (a_string s) = (s, refl, refl)
  parse-convert law (an_int bits n h k) =
      (format_int n, refl, rw (parse_int-format_int bits n h k, parse_simple_value) refl)
  parse-convert law (a_uint bits n h) =
      (decimal n, refl, rw (parse_uint-decimal bits n h, parse_simple_value) refl)
  parse-convert law (a_float x) = (floats.format x, refl, rw (law x, parse_simple_value) refl)
  parse-convert law (a_bool true) = (codes "true", refl, refl)
  parse-convert law (a_bool false) = (codes "false", refl, refl)
