-- ===== src/Ginx/Params.antt =====
-- ginx/params.go: the parameters of a path or a query as values. `none` is an error: of strconv, or that the
-- type is none of the four.
use g_micor.Base.{Bool, String, str_eq, Option, none, some, if◌then◌else◌}
use g_micor.Base.Int.{ℤ}
use g_micor.Base.Bytes.{Bytes}
use g_micor.Redisx.Simple.{Floats, parse_int, parse_bool}

pub data ParamValue (F : Type 0) : Type 0 where
  a_string : Bytes → ParamValue F
  an_int : ℤ → ParamValue F
  a_float : F → ParamValue F
  a_bool : Bool → ParamValue F

module _ {F : Type 0} (floats : Floats F) where
  -- `strConvert`; strconv.Atoi parses an int of 64 bits.
  unfoldable pub str_convert : Bytes → String → Option (ParamValue F)
  unfolding parse_int parse_bool
  str_convert value type =
      if str_eq type "STRING"
      then some (a_string value)
      else if str_eq type "INT"
      then elim (parse_int 64 value) [ none ↦ none | some n ↦ some (an_int n) ]
      else if str_eq type "FLOAT"
      then elim (floats.parse value) [ none ↦ none | some x ↦ some (a_float x) ]
      else if str_eq type "BOOL"
      then elim (parse_bool value) [ none ↦ none | some b ↦ some (a_bool b) ]
      else none
