-- ===== src/Pgsql/Scan/RoundTrip.antt =====
-- pgsql/table.go: a field that is sent to the database and scanned from it again.
use g_micor.Base.{ℕ, ◌/◌, ◌%◌, ◌^◌, ◌<◌, ◌≡◌, refl, Bool, true, none, some, arith}
use g_micor.Base.Int.{ℤ, pos, negsuc}
use g_micor.Base.Bytes.{Bytes}
use g_micor.Pgsql.Types.{
  Width, w8, w16, w32, w64, GoType, GoValue, DbValue, Codec, ScanKind, scan_ptr_string,
  scan_ptr_bool, scan_ptr_int, scan_ptr_uint, scan_ptr_float, scan_ptr_time, classify_scan_kind,
  get_value, string, bool, int, uint, float, time, nil_ptr, ptr, int_type, int64_type, uint_type,
  string_type, bool_type, float_type, time_type, ptr_type, null, db_string, db_bool, db_int,
  db_uint, db_float, db_time,
}
use g_micor.Pgsql.Result.{ok}
use g_micor.Pgsql.Scan.{
  modulus, wrap_int, Target, null_string, null_bool, null_int64, null_float64, null_time,
  apply_slot,
}

-- The range of a signed width.
abbrev pub InRange : Width → ℤ → Type 0
InRange w (pos n) = n < modulus w / 2
InRange w (negsuc k) = k < modulus w / 2

-- Conversion to a signed type does not change what is in its range.
pub wrap_int-InRange : (w : Width) (n : ℤ) → InRange w n → wrap_int w n ≡ n
unfolding wrap_int
wrap_int-InRange w8 n h = ground arith
wrap_int-InRange w16 n h = ground arith
wrap_int-InRange w32 n h = ground arith
wrap_int-InRange w64 n h = ground arith

InRange-w64 : (w : Width) (n : ℤ) → InRange w n → InRange w64 n
InRange-w64 w8 n h = ground arith
InRange-w64 w16 n h = ground arith
InRange-w64 w32 n h = ground arith
InRange-w64 w64 n h = h

mod-modulus : (w : Width) (n : ℕ) → n < modulus w → n % modulus w ≡ n
mod-modulus w8 n h = omega arith
mod-modulus w16 n h = omega arith
mod-modulus w32 n h = omega arith
mod-modulus w64 n h = omega arith

module _ {J F O : Type 0} where
  -- The values of the basic types, with the bounds of the column that they are kept in. The zero time
  -- is not one of them: it is sent as NULL.
  pub data IsBasic : GoType → GoValue J F O → Type 0 where
    a_string : (s : Bytes) → IsBasic string_type (string s)
    a_bool : (b : Bool) → IsBasic bool_type (bool b)
    an_int : (w : Width) (n : ℤ) → InRange w n → IsBasic (int_type w) (int n)
    an_int64 : (n : ℤ) → InRange w64 n → IsBasic int64_type (int n)
    a_uint : (w : Width) (n : ℕ) → n < modulus w → n < 2 ^ 63 → IsBasic (uint_type w) (uint n)
    a_float : (x : F) → IsBasic float_type (float x)
    a_time : (t : ℕ) → IsBasic time_type (time (some t))

  -- What is relied on of the driver and of database/sql: a target takes the value that was sent, and
  -- NULL makes it not Valid.
  pub record IsDriver (load : ScanKind → DbValue J F O → Target J F O) : Type 0 where
    pub string_null : load scan_ptr_string null ≡ null_string none
    pub string_value : (s : Bytes) → load scan_ptr_string (db_string s) ≡ null_string (some s)
    pub bool_null : load scan_ptr_bool null ≡ null_bool none
    pub bool_value : (b : Bool) → load scan_ptr_bool (db_bool b) ≡ null_bool (some b)
    pub int_null : load scan_ptr_int null ≡ null_int64 none
    pub int_value : (n : ℤ) → InRange w64 n → load scan_ptr_int (db_int n) ≡ null_int64 (some n)
    pub uint_null : load scan_ptr_uint null ≡ null_int64 none
    pub uint_value :
        (n : ℕ) → n < 2 ^ 63 → load scan_ptr_uint (db_uint n) ≡ null_int64 (some (pos n))
    pub float_null : load scan_ptr_float null ≡ null_float64 none
    pub float_value : (x : F) → load scan_ptr_float (db_float x) ≡ null_float64 (some x)
    pub time_null : load scan_ptr_time null ≡ null_time none
    pub time_value : (t : ℕ) → load scan_ptr_time (db_time t) ≡ null_time (some t)

  -- A pointer field read back from the value that it was sent as.
  abbrev pub ReadsBack :
      Codec J F O → (ScanKind → DbValue J F O → Target J F O) → GoType → GoValue J F O → Type 0
  ReadsBack codec load t v =
      let (kind, elem) = classify_scan_kind t in
      (d : DbValue J F O) × (get_value codec true v ≡ some d)
      × (apply_slot kind elem (load kind d) ≡ ok v)

  -- A pointer to a basic value comes back as it was sent, and so does a nil pointer to its type.
  pub pointer-ReadsBack :
      (codec : Codec J F O) (load : ScanKind → DbValue J F O → Target J F O) {t : GoType}
      {v : GoValue J F O}
      → IsDriver load
      → IsBasic t v
      → ReadsBack codec load (ptr_type t) (ptr v) × ReadsBack codec load (ptr_type t) (nil_ptr t)
  unfolding classify_scan_kind get_value apply_slot
  pointer-ReadsBack codec load dr (a_string s) =
      ((db_string s, refl, rw dr.string_value), (null, refl, rw dr.string_null))
  pointer-ReadsBack codec load dr (a_bool b) =
      ((db_bool b, refl, rw dr.bool_value), (null, refl, rw dr.bool_null))
  pointer-ReadsBack codec load dr (an_int w n h) = (
    (db_int n, refl, rw (dr.int_value n (InRange-w64 w n h)) (rw (wrap_int-InRange w n h))),
    (null, refl, rw dr.int_null),
  )
  pointer-ReadsBack codec load dr (an_int64 n h) = (
    (db_int n, refl, rw (dr.int_value n h) (rw (wrap_int-InRange w64 n h))),
    (null, refl, rw dr.int_null),
  )
  pointer-ReadsBack codec load dr (a_uint w n h k) = (
    (db_uint n, refl, rw (dr.uint_value n k) (rw (mod-modulus w n h))),
    (null, refl, rw dr.uint_null),
  )
  pointer-ReadsBack codec load dr (a_float x) =
      ((db_float x, refl, rw dr.float_value), (null, refl, rw dr.float_null))
  pointer-ReadsBack codec load dr (a_time t) =
      ((db_time t, refl, rw dr.time_value), (null, refl, rw dr.time_null))
