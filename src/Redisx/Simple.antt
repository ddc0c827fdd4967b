-- ===== src/Redisx/Simple.antt =====
-- redisx/operation.go: simple values as texts. The types are those of the code's switches, integers by their
-- bits; `F` stands for the floats of a size, which strconv prints and parses, and `O` for values of other
-- types.
pub mod RoundTrip
use g_micor.Base.{
  ℕ, zero, suc, ◌-◌, ◌^◌, Bool, true, false, Option, none, some, List, [], ◌∷◌, ◌==◌, ltb, leb,
  if◌then◌else◌,
}
use g_micor.Base.Int.{ℤ, pos, negsuc}
use g_micor.Base.Bytes.{Bytes, codes}
use g_micor.Base.Decimal.{is_digit, decimal, spelled}

pub data SimpleType : Type 0 where
  string_type : SimpleType
  int_type : (bits : ℕ) → SimpleType
  uint_type : (bits : ℕ) → SimpleType
  float_type : SimpleType
  bool_type : SimpleType
  other_type : SimpleType

module _ (F O : Type 0) where
  pub data SimpleValue : Type 0 where
    string : Bytes → SimpleValue
    int : ℤ → SimpleValue
    uint : ℕ → SimpleValue
    float : F → SimpleValue
    bool : Bool → SimpleValue
    other : O → SimpleValue

-- strconv.FormatFloat and strconv.ParseFloat; `none` is an error.
pub record Floats (F : Type 0) : Type 0 where
  pub format : F → Bytes
  pub parse : Bytes → Option F

-- strconv.FormatInt(n, 10)
abbrev pub format_int : ℤ → Bytes
format_int (pos n) = decimal n
format_int (negsuc n) = b'-' ∷ decimal (suc n)

abbrev pub format_bool : Bool → Bytes
format_bool true = codes "true"
format_bool false = codes "false"

abbrev pub all_digits : Bytes → Bool
all_digits [] = true
all_digits (c ∷ s) = let rest = all_digits s in if is_digit c then rest else false

-- strconv.ParseUint(s, 10, bits)
unfoldable pub parse_uint : ℕ → Bytes → Option ℕ
parse_uint bits [] = none
parse_uint bits (c ∷ s) =
    if all_digits (c ∷ s)
    then if ltb (spelled 0 (c ∷ s)) (2 ^ bits) then some (spelled 0 (c ∷ s)) else none
    else none

abbrev pub negated : ℕ → ℤ
negated zero = pos zero
negated (suc n) = negsuc n

-- The bounds of a signed type of so many bits.
abbrev pub signed_in_range : ℕ → Bool → Option ℕ → Option ℤ
signed_in_range bits negative none = none
signed_in_range bits false (some n) = if ltb n (2 ^ (bits - 1)) then some (pos n) else none
signed_in_range bits true (some n) = if leb n (2 ^ (bits - 1)) then some (negated n) else none

-- strconv.ParseInt(s, 10, bits)
unfoldable pub parse_int : ℕ → Bytes → Option ℤ
unfolding parse_uint
parse_int bits [] = none
parse_int bits (c ∷ s) =
    if c == b'+'
    then signed_in_range bits false (parse_uint bits s)
    else if c == b'-'
    then signed_in_range bits true (parse_uint bits s)
    else signed_in_range bits false (parse_uint bits (c ∷ s))

unfoldable same_text : Bytes → Bytes → Bool
same_text [] [] = true
same_text [] (d ∷ t) = false
same_text (c ∷ s) [] = false
same_text (c ∷ s) (d ∷ t) = let rest = same_text s t in if c == d then rest else false

unfoldable one_of : List Bytes → Bytes → Bool
unfolding same_text
one_of [] s = false
one_of (t ∷ ts) s = let rest = one_of ts s in if same_text t s then true else rest

abbrev pub true_texts : List Bytes
true_texts = codes "1" ∷ codes "t" ∷ codes "T" ∷ codes "true" ∷ codes "TRUE" ∷ codes "True" ∷ []

abbrev pub false_texts : List Bytes
false_texts = codes "0" ∷ codes "f" ∷ codes "F" ∷ codes "false" ∷ codes "FALSE" ∷ codes "False" ∷ []

-- strconv.ParseBool
unfoldable pub parse_bool : Bytes → Option Bool
unfolding one_of
parse_bool s =
    if one_of true_texts s then some true else if one_of false_texts s then some false else none

module _ {F O : Type 0} (floats : Floats F) where
  -- `convertSimpleValue`
  unfoldable pub convert_simple_value : SimpleValue F O → Option Bytes
  convert_simple_value (string s) = some s
  convert_simple_value (int n) = some (format_int n)
  convert_simple_value (uint n) = some (decimal n)
  convert_simple_value (float x) = some (floats.format x)
  convert_simple_value (bool b) = some (format_bool b)
  convert_simple_value (other x) = none

  -- `parseSimpleValue`
  unfoldable pub parse_simple_value : SimpleType → Bytes → Option (SimpleValue F O)
  unfolding parse_int parse_uint parse_bool
  parse_simple_value string_type s = some (string s)
  parse_simple_value (int_type bits) s = elim (parse_int bits s) [
    | none ↦ none
    | some n ↦ some (int n)
  ]
  parse_simple_value (uint_type bits) s = elim (parse_uint bits s) [
    | none ↦ none
    | some n ↦ some (uint n)
  ]
  parse_simple_value float_type s = elim (floats.parse s) [ none ↦ none | some x ↦ some (float x) ]
  parse_simple_value bool_type s = elim (parse_bool s) [ none ↦ none | some b ↦ some (bool b) ]
  parse_simple_value other_type s = none
