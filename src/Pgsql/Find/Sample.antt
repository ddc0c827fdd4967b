-- ===== src/Pgsql/Find/Sample.antt =====
-- pgsql/: a driver that keeps rows as it was given them.
use g_micor.Base.{ℕ, ◌≡◌, refl, Bool, Option, none, some, List, [], ◌∷◌}
use g_micor.Base.Int.{ℤ, pos}
use g_micor.Base.Bytes.{Bytes}
use g_micor.Pgsql.Types.{
  no_methods, slice_type, map_type, struct_type, bytes, slice, gomap, struct, string, bool, int,
  float, int64_type, ptr_type, uint, nil_ptr, Codec, DbValue, ScanKind, scan_direct, scan_json,
  scan_ptr_string, scan_ptr_bool, scan_ptr_int, scan_ptr_uint, scan_ptr_float, scan_ptr_time,
  db_string, db_bool, db_int, db_uint, db_float, db_time, db_bytes, GoType, GoValue,
}
use g_micor.Pgsql.Scan.{
  Target, direct, null_string, null_bool, null_int64, null_float64, null_time, json_buffer,
}
use g_micor.Pgsql.Scan.RoundTrip.{IsDriver}
use g_micor.Pgsql.Driver.{Decoder}
use g_micor.Pgsql.Find.Kept.{
  IsRowDriver, IsDirect, direct_string, direct_bool, direct_int, direct_int64, direct_uint,
  direct_float, no_bytes, some_bytes,
}

abbrev as_int : DbValue ℕ ℕ ℕ → Option ℤ
as_int (db_int n) = some n
as_int (db_uint n) = some (pos n)
as_int _ = none

abbrev as_string : DbValue ℕ ℕ ℕ → Option Bytes
as_string (db_string s) = some s
as_string _ = none

abbrev as_bool : DbValue ℕ ℕ ℕ → Option Bool
as_bool (db_bool b) = some b
as_bool _ = none

abbrev as_float : DbValue ℕ ℕ ℕ → Option ℕ
as_float (db_float x) = some x
as_float _ = none

abbrev as_time : DbValue ℕ ℕ ℕ → Option ℕ
as_time (db_time t) = some t
as_time _ = none

abbrev as_value : DbValue ℕ ℕ ℕ → GoValue ℕ ℕ ℕ
as_value (db_string s) = string s
as_value (db_bool b) = bool b
as_value (db_int n) = int n
as_value (db_uint n) = uint n
as_value (db_float x) = float x
as_value (db_bytes s) = bytes (some s)
as_value _ = bytes none

abbrev as_json : DbValue ℕ ℕ ℕ → Bytes
as_json (db_bytes s) = s
as_json _ = []

abbrev pub load : GoType → ScanKind → DbValue ℕ ℕ ℕ → Target ℕ ℕ ℕ
load t scan_ptr_string d = null_string (as_string d)
load t scan_ptr_bool d = null_bool (as_bool d)
load t scan_ptr_int d = null_int64 (as_int d)
load t scan_ptr_uint d = null_int64 (as_int d)
load t scan_ptr_float d = null_float64 (as_float d)
load t scan_ptr_time d = null_time (as_time d)
load t scan_direct d = direct (as_value d)
load t scan_json d = json_buffer (as_json d)

load-IsDriver : (t : GoType) → IsDriver (load t)
load-IsDriver t = record {
  string_null = refl;
  string_value = λ s. refl;
  bool_null = refl;
  bool_value = λ b. refl;
  int_null = refl;
  int_value = λ n h. refl;
  uint_null = refl;
  uint_value = λ n h. refl;
  float_null = refl;
  float_value = λ x. refl;
  time_null = refl;
  time_value = λ t. refl;
}

-- Contents are numbers, which JSON writes as one byte behind a bracket.
abbrev pub codec : Codec ℕ ℕ ℕ
codec = record { marshal = λ j. some (91 ∷ j ∷ []); value_of = λ j. none }

abbrev as_contents : GoType → ℕ → Option (GoValue ℕ ℕ ℕ)
as_contents (struct_type sc va) j = some (struct no_methods j)
as_contents slice_type j = some (slice (some j))
as_contents map_type j = some (gomap (some j))
as_contents _ j = none

abbrev unmarshal : GoType → Bytes → Option (GoValue ℕ ℕ ℕ)
unmarshal t (b ∷ j ∷ []) = as_contents t j
unmarshal t _ = none

abbrev pub zero_value : GoType → GoValue ℕ ℕ ℕ
zero_value slice_type = slice none
zero_value map_type = gomap none
zero_value (ptr_type t) = nil_ptr t
zero_value int64_type = int (pos 0)
zero_value _ = string []

abbrev scan : List (ScanKind × GoType) → List (DbValue ℕ ℕ ℕ) → List (Target ℕ ℕ ℕ)
scan [] ds = []
scan (k ∷ ks) [] = []
scan (k ∷ ks) (d ∷ ds) = load k.1 k.0 d ∷ scan ks ds

abbrev pub decoder : Decoder ℕ ℕ ℕ (List (DbValue ℕ ℕ ℕ))
decoder = record {
  scan = λ kinds row. some (scan kinds row);
  zero_value = zero_value;
  unmarshal = unmarshal;
}

direct-load : {t : GoType} {v : GoValue ℕ ℕ ℕ} {d : DbValue ℕ ℕ ℕ} → IsDirect t v d → as_value d ≡ v
direct-load (direct_string s) = refl
direct-load (direct_bool b) = refl
direct-load (direct_int w n h) = refl
direct-load (direct_int64 n h) = refl
direct-load (direct_uint w n h k) = refl
direct-load (direct_float x) = refl
direct-load no_bytes = refl
direct-load (some_bytes s) = refl

-- It is as it should be.
pub load-IsRowDriver : IsRowDriver codec decoder load
load-IsRowDriver = record {
  pointers = load-IsDriver;
  direct_value = λ h i. direct (direct-load h i);
  json_text = λ t text. refl;
  json_null = λ t. refl;
  zero_slice = refl;
  zero_map = refl;
  zero_pointer = λ t. refl;
}
