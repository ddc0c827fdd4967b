-- ===== src/Pgsql/Types.antt =====
-- pgsql/table.go: the Go types and values that the code reflects on, how a column is scanned
-- (`classifyScanKind`) and what a field is sent as (`getValue`).
use g_micor.Base.{ℕ, Bool, true, false, ◌||◌, Option, none, some, if◌then◌else◌}
use g_micor.Base.Int.{ℤ}
use g_micor.Base.Bytes.{Bytes}

-- How a type implements an interface, `sql.Scanner` or `driver.Valuer`: with value receivers, so that the type
-- and its pointer do, with pointer receivers only, or not at all.
pub data Methods : Type 0 where
  by_value : Methods
  by_pointer : Methods
  no_methods : Methods

pub data Width : Type 0 where
  w8 w16 w32 w64 : Width

-- `reflect.Type`, as far as the code tells types apart. `int_type` is int, int8, int16 and int32,
-- by width; kinds with no case of their own are `other_type`. Only structs have methods here: a named
-- type over another kind is taken for that kind.
pub data GoType : Type 0 where
  string_type : GoType
  bool_type : GoType
  int_type : Width → GoType
  int64_type : GoType
  uint_type : Width → GoType
  float_type : GoType
  time_type : GoType
  struct_type : (scanner valuer : Methods) → GoType
  bytes_type : GoType
  slice_type : GoType
  map_type : GoType
  other_type : GoType
  ptr_type : GoType → GoType

pub data ScanKind : Type 0 where
  scan_direct : ScanKind
  scan_json : ScanKind
  scan_ptr_string : ScanKind
  scan_ptr_bool : ScanKind
  scan_ptr_int : ScanKind
  scan_ptr_uint : ScanKind
  scan_ptr_float : ScanKind
  scan_ptr_time : ScanKind

-- `elem.Kind()` of a pointer that is no pointer to a struct, slice or map.
abbrev pub classify_elem : GoType → ScanKind × Option GoType
classify_elem string_type = (scan_ptr_string, some string_type)
classify_elem bool_type = (scan_ptr_bool, some bool_type)
classify_elem (int_type w) = (scan_ptr_int, some (int_type w))
classify_elem int64_type = (scan_ptr_int, some int64_type)
classify_elem (uint_type w) = (scan_ptr_uint, some (uint_type w))
classify_elem float_type = (scan_ptr_float, some float_type)
classify_elem _ = (scan_direct, none)

abbrev pub has_methods : Methods → Bool
has_methods by_value = true
has_methods by_pointer = true
has_methods no_methods = false

-- `classifyScanKind`, with the element type of the pointer kinds.
unfoldable pub classify_scan_kind : GoType → ScanKind × Option GoType
classify_scan_kind (ptr_type time_type) = (scan_ptr_time, some time_type)
classify_scan_kind (ptr_type (struct_type sc va)) =
    if has_methods sc || has_methods va then (scan_direct, none) else (scan_json, none)
classify_scan_kind (ptr_type bytes_type) = (scan_json, none)
classify_scan_kind (ptr_type slice_type) = (scan_json, none)
classify_scan_kind (ptr_type map_type) = (scan_json, none)
classify_scan_kind (ptr_type elem) = classify_elem elem
classify_scan_kind time_type = (scan_ptr_time, none)
classify_scan_kind (struct_type sc va) =
    if has_methods sc || has_methods va then (scan_direct, none) else (scan_json, none)
classify_scan_kind bytes_type = (scan_direct, none)
classify_scan_kind slice_type = (scan_json, none)
classify_scan_kind map_type = (scan_json, none)
classify_scan_kind _ = (scan_direct, none)

-- Values of the types above. `J` stands for what JSON encodes: the contents of structs, slices and
-- maps; `F` for floats; `O` for values of other kinds. A zero time is `time none`; a struct carries how
-- it implements `driver.Valuer`.
module _ (J F O : Type 0) where
  pub data GoValue : Type 0 where
    string : Bytes → GoValue
    bool : Bool → GoValue
    int : ℤ → GoValue
    uint : ℕ → GoValue
    float : F → GoValue
    time : Option ℕ → GoValue
    struct : Methods → J → GoValue
    bytes : Option Bytes → GoValue
    slice : Option J → GoValue
    gomap : Option J → GoValue
    other : O → GoValue
    nil_ptr : GoType → GoValue
    ptr : GoValue → GoValue

  -- What a driver takes.
  pub data DbValue : Type 0 where
    null : DbValue
    db_string : Bytes → DbValue
    db_bool : Bool → DbValue
    db_int : ℤ → DbValue
    db_uint : ℕ → DbValue
    db_float : F → DbValue
    db_time : ℕ → DbValue
    db_bytes : Bytes → DbValue
    db_other : O → DbValue

-- The parts that are not in the repository's code: `json.Marshal` and the `Value` methods of the
-- program's own types. `none` is an error.
pub record Codec (J F O : Type 0) : Type 0 where
  pub marshal : J → Option Bytes
  pub value_of : J → Option (DbValue J F O)

module _ {J F O : Type 0} (codec : Codec J F O) where
  abbrev pub json_value : J → Option (DbValue J F O)
  json_value j = elim (codec.marshal j) [ none ↦ none | some text ↦ some (db_bytes text) ]

  -- `getValue` behind the loop over pointers. `addressable` is `CanAddr`: a field of a struct behind a
  -- pointer is, the argument of `Set` is not.
  abbrev pub plain_value : Bool → GoValue J F O → Option (DbValue J F O)
  plain_value addressable (string s) = some (db_string s)
  plain_value addressable (bool b) = some (db_bool b)
  plain_value addressable (int n) = some (db_int n)
  plain_value addressable (uint n) = some (db_uint n)
  plain_value addressable (float x) = some (db_float x)
  plain_value addressable (time none) = some null
  plain_value addressable (time (some t)) = some (db_time t)
  plain_value addressable (struct by_value j) = codec.value_of j
  plain_value true (struct by_pointer j) = codec.value_of j
  plain_value false (struct by_pointer j) = json_value j
  plain_value addressable (struct no_methods j) = json_value j
  plain_value addressable (bytes none) = some null
  plain_value addressable (bytes (some s)) = some (db_bytes s)
  plain_value addressable (slice none) = some null
  plain_value addressable (slice (some j)) = json_value j
  plain_value addressable (gomap none) = some null
  plain_value addressable (gomap (some j)) = json_value j
  plain_value addressable (other x) = some (db_other x)
  plain_value addressable (nil_ptr t) = some null
  plain_value addressable (ptr v) = some null

  -- The loop over pointers: a nil pointer is NULL, and a pointer to a struct with a `Value` method is
  -- asked for it. What a pointer points to is addressable.
  unfoldable pub get_value : Bool → GoValue J F O → Option (DbValue J F O)
  get_value addressable (nil_ptr t) = some null
  get_value addressable (ptr (struct by_value j)) = codec.value_of j
  get_value addressable (ptr (struct by_pointer j)) = codec.value_of j
  get_value addressable (ptr v) = get_value true v
  get_value addressable v = plain_value addressable v

  -- `toDBValue`; `none` is nil.
  unfoldable pub to_db_value : Option (GoValue J F O) → Option (DbValue J F O)
  unfolding get_value
  to_db_value none = some null
  to_db_value (some v) = get_value false v
