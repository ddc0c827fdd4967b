-- ===== src/Redisx/Tests.antt =====
-- redisx/: a cacher over a list of keys, and the numbers it keeps.
use g_micor.Base.{
  ℕ, Bool, ◌≡◌, refl, true, false, none, some, List, [], ◌∷◌, String, Dict, lookup, insert, delete,
  lookup-insert_self, arith,
}
use g_micor.Base.Int.{pos, negsuc}
use g_micor.Base.Bytes.{Bytes, codes}
use g_micor.Redisx.Simple.{
  SimpleValue, int_type, int, Floats, convert_simple_value, parse_simple_value, parse_int,
  parse_bool, format_bool,
}
use g_micor.Redisx.Simple.RoundTrip.{an_int, parse-convert}
use g_micor.Redisx.Cacher.{Client, Format, Cacher, simple_format, get_and_delete}
use g_micor.Redisx.Cacher.Laws.{IsRedis}

abbrev floats : Floats Bool
floats = record { format = format_bool; parse = parse_bool }

floats_law : (x : Bool) → floats.parse (floats.format x) ≡ some x
unfolding parse_bool
floats_law true = refl
floats_law false = refl

below_range : parse_int 8 (codes "-129") ≡ none
unfolding parse_int
below_range = refl

parse-convert_example :
    (s : Bytes) × (convert_simple_value {O = ℕ} floats (int (negsuc 127)) ≡ some s)
    × (parse_simple_value {O = ℕ} floats (int_type 8) s ≡ some (int (negsuc 127)))
parse-convert_example =
    parse-convert floats floats_law (an_int 8 (negsuc 127) (omega arith) (omega arith))

abbrev drop_keys : List String → Dict Bytes → Dict Bytes
drop_keys [] s = s
drop_keys (key ∷ keys) s = drop_keys keys (delete key s)

abbrev client : Client (Dict Bytes)
client = record {
  get = λ key s. lookup key s;
  set = λ key text expire s. (true, insert key text s);
  set_nx = λ key text expire s. (some true, insert key text s);
  del = λ keys s. (some 1, drop_keys keys s);
}

client-IsRedis : IsRedis client
client-IsRedis = record { get_set = λ key text expire s h. lookup-insert_self key text s }

abbrev numbers : Format (SimpleValue Bool ℕ)
numbers = simple_format floats (int_type 64)

abbrev ages : Cacher
ages = record { expire = 60; prefix = "age" }

deleted :
    get_and_delete client numbers ages "bo" (("age:bo", codes "7") ∷ []) ≡ (some (int (pos 7)), [])
unfolding get_and_delete delete parse_simple_value lookup
deleted = refl
