-- ===== src/Pgsql/Find/Kept.antt =====
-- pgsql/table.go: the values of fields that a column keeps, and how one comes back from its target.
use g_micor.Base.{ℕ, ◌^◌, ◌<◌, ◌≡◌, refl, sym, Bool, true, Option, none, some, [], ◌∷◌}
use g_micor.Base.Int.{ℤ}
use g_micor.Base.Bytes.{Bytes}
use g_micor.Pgsql.Types.{
  Width, w64, GoType, GoValue, DbValue, Codec, ScanKind, scan_direct, scan_json, classify_scan_kind,
  no_methods, json_value, get_value, string, bool, int, uint, float, time, bytes, struct, slice,
  gomap, nil_ptr, ptr, int_type, int64_type, uint_type, string_type, bool_type, float_type,
  time_type, bytes_type, struct_type, slice_type, map_type, ptr_type, null, db_string, db_bool,
  db_int, db_uint, db_float, db_time, db_bytes,
}
use g_micor.Pgsql.Scan.{modulus, Target, direct, json_buffer, apply_slot}
use g_micor.Pgsql.Scan.RoundTrip.{InRange, IsBasic, IsDriver, pointer-ReadsBack}
use g_micor.Pgsql.Driver.{Decoder}
use g_micor.Pgsql.Table.{FieldMeta}
use g_micor.Pgsql.Find.Rows.{shown, IsReadAs, slot_read}

module _ {J F O : Type 0} where
  -- Fields that are scanned into directly, with what they are sent as.
  pub data IsDirect : GoType → GoValue J F O → DbValue J F O → Type 0 where
    direct_string : (s : Bytes) → IsDirect string_type (string s) (db_string s)
    direct_bool : (b : Bool) → IsDirect bool_type (bool b) (db_bool b)
    direct_int : (w : Width) (n : ℤ) → InRange w n → IsDirect (int_type w) (int n) (db_int n)
    direct_int64 : (n : ℤ) → InRange w64 n → IsDirect int64_type (int n) (db_int n)
    direct_uint :
        (w : Width) (n : ℕ)
        → n < modulus w
        → n < 2 ^ 63
        → IsDirect (uint_type w) (uint n) (db_uint n)
    direct_float : (x : F) → IsDirect float_type (float x) (db_float x)
    no_bytes : IsDirect bytes_type (bytes none) null
    some_bytes : (s : Bytes) → IsDirect bytes_type (bytes (some s)) (db_bytes s)

  -- Fields that are kept as the JSON of their contents.
  pub data IsJson : GoType → J → GoValue J F O → Type 0 where
    json_struct : (j : J) → IsJson (struct_type no_methods no_methods) j (struct no_methods j)
    json_slice : (j : J) → IsJson slice_type j (slice (some j))
    json_map : (j : J) → IsJson map_type j (gomap (some j))

module _ {J F O R : Type 0} (codec : Codec J F O) (de : Decoder J F O R)
    (load : GoType → ScanKind → DbValue J F O → Target J F O) where
  -- What is relied on of the driver, of database/sql and of reflection: a target takes the value that was
  -- sent, and the zero values of slices, maps and pointers are nil.
  pub record IsRowDriver : Type 0 where
    pub pointers : (t : GoType) → IsDriver (load t)
    pub direct_value :
        {t : GoType} {v : GoValue J F O} {d : DbValue J F O}
        → IsDirect t v d
        → load t scan_direct d ≡ direct v
    pub json_text :
        (t : GoType) (text : Bytes) → load t scan_json (db_bytes text) ≡ json_buffer text
    pub json_null : (t : GoType) → load t scan_json null ≡ json_buffer []
    pub zero_slice : de.zero_value slice_type ≡ slice none
    pub zero_map : de.zero_value map_type ≡ gomap none
    pub zero_pointer : (t : GoType) → de.zero_value (ptr_type t) ≡ nil_ptr t

  -- A value that its column keeps: of a basic type, in the range of the column, a time, a pointer to such a value,
  -- or contents that JSON encodes and decodes, or nil. A pointer to a zero time and one to a nil slice or map are not
  -- kept, nor is a pointer to a []byte, which is sent as it is and read as JSON.
  pub data IsKept : GoType → GoValue J F O → Type 0 where
    kept_direct : {t : GoType} {v : GoValue J F O} {d : DbValue J F O} → IsDirect t v d → IsKept t v
    kept_time : (x : Option ℕ) → IsKept time_type (time x)
    kept_pointer : {t : GoType} {v : GoValue J F O} → IsBasic t v → IsKept (ptr_type t) (ptr v)
    kept_nil : {t : GoType} {v : GoValue J F O} → IsBasic t v → IsKept (ptr_type t) (nil_ptr t)
    kept_json :
        {t : GoType} {j : J} {v : GoValue J F O} (c : ℕ) (s : Bytes)
        → IsJson t j v
        → codec.marshal j ≡ some (c ∷ s)
        → de.unmarshal t (c ∷ s) ≡ some v
        → IsKept t v
    kept_json_pointer :
        {t : GoType} {j : J} {v : GoValue J F O} (c : ℕ) (s : Bytes)
        → IsJson t j v
        → codec.marshal j ≡ some (c ∷ s)
        → de.unmarshal t (c ∷ s) ≡ some v
        → IsKept (ptr_type t) (ptr v)
    kept_json_nil :
        {t : GoType} {j : J} {v : GoValue J F O} → IsJson t j v → IsKept (ptr_type t) (nil_ptr t)
    kept_no_slice : IsKept slice_type (slice none)
    kept_no_map : IsKept map_type (gomap none)

  json_sent :
      (j : J) (text : Bytes)
      → codec.marshal j ≡ some text
      → json_value codec j ≡ some (db_bytes text)
  json_sent j text e = rw (e, json_value) refl

  -- The value that a column's field is sent as gives it back.
  abbrev pub ComesBack : FieldMeta → GoValue J F O → Type 0
  ComesBack m v =
      (d : DbValue J F O) × (get_value codec true v ≡ some d)
      × IsReadAs de (shown m (load m.go_type m.scan_kind d) (de.zero_value m.go_type) v)

  module _ (name db_name : Bytes) (index : ℕ) (is_primary_key : Bool) where
    abbrev pub meta_of : GoType → FieldMeta
    meta_of t = record {
      name = name;
      db_name = db_name;
      index = index;
      is_primary_key = is_primary_key;
      go_type = t;
      scan_kind = (classify_scan_kind t).0;
      elem_type = (classify_scan_kind t).1;
    }

    direct-ComesBack :
        {t : GoType} {v : GoValue J F O} {d : DbValue J F O}
        → IsRowDriver
        → IsDirect t v d
        → ComesBack (meta_of t) v
    unfolding classify_scan_kind get_value apply_slot
    direct-ComesBack h (direct_string s) = (_, refl, rw (h.direct_value (direct_string s)) refl)
    direct-ComesBack h (direct_bool b) = (_, refl, rw (h.direct_value (direct_bool b)) refl)
    direct-ComesBack h (direct_int w n k) = (_, refl, rw (h.direct_value (direct_int w n k)) refl)
    direct-ComesBack h (direct_int64 n k) = (_, refl, rw (h.direct_value (direct_int64 n k)) refl)
    direct-ComesBack h (direct_uint w n k l) =
        (_, refl, rw (h.direct_value (direct_uint w n k l)) refl)
    direct-ComesBack h (direct_float x) = (_, refl, rw (h.direct_value (direct_float x)) refl)
    direct-ComesBack h no_bytes = (_, refl, rw (h.direct_value no_bytes) refl)
    direct-ComesBack h (some_bytes s) = (_, refl, rw (h.direct_value (some_bytes s)) refl)

    pointer-ComesBack :
        {t : GoType} {v : GoValue J F O}
        → IsRowDriver
        → IsBasic t v
        → ComesBack (meta_of (ptr_type t)) (ptr v) × ComesBack (meta_of (ptr_type t)) (nil_ptr t)
    pointer-ComesBack {t} h b =
        let ((d, sent, there), (d0, sent0, there0)) =
          pointer-ReadsBack codec (load (ptr_type t)) (h.pointers (ptr_type t)) b in
        (
          (d, sent, slot_read de (meta_of (ptr_type t)) _ _ _ there),
          (d0, sent0, slot_read de (meta_of (ptr_type t)) _ _ _ there0),
        )

    json-ComesBack :
        {t : GoType} {j : J} {v : GoValue J F O} (c : ℕ) (s : Bytes)
        → IsRowDriver
        → IsJson t j v
        → codec.marshal j ≡ some (c ∷ s)
        → de.unmarshal t (c ∷ s) ≡ some v
        → ComesBack (meta_of t) v × ComesBack (meta_of (ptr_type t)) (ptr v)
    unfolding classify_scan_kind get_value
    json-ComesBack c s h (json_struct j) e k = (
      (db_bytes (c ∷ s), json_sent j (c ∷ s) e, rw (h.json_text _ (c ∷ s)) k),
      (db_bytes (c ∷ s), json_sent j (c ∷ s) e, rw (h.json_text _ (c ∷ s)) (rw k refl)),
    )
    json-ComesBack c s h (json_slice j) e k = (
      (db_bytes (c ∷ s), json_sent j (c ∷ s) e, rw (h.json_text _ (c ∷ s)) k),
      (db_bytes (c ∷ s), json_sent j (c ∷ s) e, rw (h.json_text _ (c ∷ s)) (rw k refl)),
    )
    json-ComesBack c s h (json_map j) e k = (
      (db_bytes (c ∷ s), json_sent j (c ∷ s) e, rw (h.json_text _ (c ∷ s)) k),
      (db_bytes (c ∷ s), json_sent j (c ∷ s) e, rw (h.json_text _ (c ∷ s)) (rw k refl)),
    )

    json_nil-ComesBack :
        {t : GoType} {j : J} {v : GoValue J F O}
        → IsRowDriver
        → IsJson t j v
        → ComesBack (meta_of (ptr_type t)) (nil_ptr t)
    unfolding classify_scan_kind get_value
    json_nil-ComesBack h (json_struct j) = (null, refl, rw (h.json_null _) (sym (h.zero_pointer _)))
    json_nil-ComesBack h (json_slice j) = (null, refl, rw (h.json_null _) (sym (h.zero_pointer _)))
    json_nil-ComesBack h (json_map j) = (null, refl, rw (h.json_null _) (sym (h.zero_pointer _)))

    -- Whatever a column keeps comes back.
    pub kept-ComesBack :
        {t : GoType} {v : GoValue J F O} → IsRowDriver → IsKept t v → ComesBack (meta_of t) v
    unfolding classify_scan_kind get_value apply_slot
    kept-ComesBack h (kept_direct k) = direct-ComesBack h k
    kept-ComesBack h (kept_time none) = (null, refl, rw (h.pointers time_type).time_null refl)
    kept-ComesBack h (kept_time (some x)) =
        (db_time x, refl, rw ((h.pointers time_type).time_value x) refl)
    kept-ComesBack h (kept_pointer k) = (pointer-ComesBack h k).0
    kept-ComesBack h (kept_nil k) = (pointer-ComesBack h k).1
    kept-ComesBack h (kept_json c s k e e') = (json-ComesBack c s h k e e').0
    kept-ComesBack h (kept_json_pointer c s k e e') = (json-ComesBack c s h k e e').1
    kept-ComesBack h (kept_json_nil k) = json_nil-ComesBack h k
    kept-ComesBack h kept_no_slice = (null, refl, rw (h.json_null _) (sym h.zero_slice))
    kept-ComesBack h kept_no_map = (null, refl, rw (h.json_null _) (sym h.zero_map))
