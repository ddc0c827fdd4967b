-- ===== src/Pgsql/Scan.antt =====
-- pgsql/table.go: the targets that a row is scanned into, and what becomes of the fields afterwards
-- (`ptrScanSlot.apply`, `finalizeScan`).
pub mod RoundTrip
use g_micor.Pgsql.Result.{Result, ok, err, negative_unsigned, wrong_target}
use g_micor.Base.{
  ℕ, ◌+◌, ◌-◌, ◌*◌, ◌/◌, ◌%◌, ◌^◌, Bool, true, false, Option, none, some, List, [], ◌∷◌, ltb,
  if◌then◌else◌,
}
use g_micor.Base.Int.{ℤ, pos, negsuc}
use g_micor.Base.Bytes.{Bytes}
use g_micor.Pgsql.Types.{
  Width, w8, w16, w32, w64, GoType, GoValue, ScanKind, scan_direct, scan_json, scan_ptr_string,
  scan_ptr_bool, scan_ptr_int, scan_ptr_uint, scan_ptr_float, scan_ptr_time, classify_scan_kind,
  string, bool, int, uint, float, time, nil_ptr, ptr, int_type, int64_type, uint_type, string_type,
  bool_type, float_type, time_type,
}

abbrev pub modulus : Width → ℕ
modulus w8 = 2 ^ 8
modulus w16 = 2 ^ 16
modulus w32 = 2 ^ 32
modulus w64 = 2 ^ 64

-- The integer of a bit pattern.
abbrev pub signed : Width → ℕ → ℤ
signed w m = if ltb m (modulus w / 2) then pos m else negsuc (modulus w - 1 - m)

-- Conversion to a signed type of a width.
unfoldable pub wrap_int : Width → ℤ → ℤ
wrap_int w (pos n) = signed w (n % modulus w)
wrap_int w (negsuc k) = signed w (modulus w - 1 - k % modulus w)

abbrev pub int_width : GoType → Width
int_width (int_type w) = w
int_width (uint_type w) = w
int_width _ = w64

-- sql.NullString and its like: `none` is not Valid. A JSON buffer is nil for NULL; a direct target is
-- the field itself.
module _ (J F O : Type 0) where
  pub data Target : Type 0 where
    direct : GoValue J F O → Target
    json_buffer : Bytes → Target
    null_string : Option Bytes → Target
    null_bool : Option Bool → Target
    null_int64 : Option ℤ → Target
    null_float64 : Option F → Target
    null_time : Option ℕ → Target

module _ {J F O : Type 0} where
  -- `SetUint(uint64(i))` into an unsigned element.
  abbrev pub apply_uint : GoType → Option ℤ → Result (GoValue J F O)
  apply_uint elem none = ok (nil_ptr elem)
  apply_uint elem (some (pos n)) = ok (ptr (uint (n % modulus (int_width elem))))
  apply_uint elem (some (negsuc k)) = err negative_unsigned

  -- A value that is not valid sets the field to its type's zero: the nil pointer, or the zero time.
  unfoldable pub apply_slot : ScanKind → Option GoType → Target J F O → Result (GoValue J F O)
  unfolding wrap_int
  apply_slot scan_ptr_string (some elem) (null_string none) = ok (nil_ptr elem)
  apply_slot scan_ptr_string (some elem) (null_string (some s)) = ok (ptr (string s))
  apply_slot scan_ptr_bool (some elem) (null_bool none) = ok (nil_ptr elem)
  apply_slot scan_ptr_bool (some elem) (null_bool (some b)) = ok (ptr (bool b))
  apply_slot scan_ptr_int (some elem) (null_int64 none) = ok (nil_ptr elem)
  apply_slot scan_ptr_int (some elem) (null_int64 (some n)) =
      ok (ptr (int (wrap_int (int_width elem) n)))
  apply_slot scan_ptr_uint (some elem) (null_int64 n) = apply_uint elem n
  apply_slot scan_ptr_float (some elem) (null_float64 none) = ok (nil_ptr elem)
  apply_slot scan_ptr_float (some elem) (null_float64 (some x)) = ok (ptr (float x))
  apply_slot scan_ptr_time (some elem) (null_time none) = ok (nil_ptr elem)
  apply_slot scan_ptr_time (some elem) (null_time (some t)) = ok (ptr (time (some t)))
  apply_slot scan_ptr_time none (null_time none) = ok (time none)
  apply_slot scan_ptr_time none (null_time (some t)) = ok (time (some t))
  apply_slot scan_direct elem (direct v) = ok v
  apply_slot kind elem target = err wrong_target
