-- ===== src/Pgsql/Table.antt =====
-- pgsql/table.go: `GetTable`, the columns of a table, and the texts and arguments of an INSERT.
pub mod Reference
pub mod Columns
use g_micor.Base.{
  ℕ, zero, suc, ◌+◌, ◌*◌, Bool, true, false, ◌&&◌, ◌||◌, not, Option, none, some, List, [], ◌∷◌,
  ◌++◌, map, length, get_or, modify, ◌==◌, if◌then◌else◌,
}
use g_micor.Base.Int.{ℤ, pos}
use g_micor.Base.Bytes.{Bytes, codes}
use g_micor.Pgsql.Sql.{placeholder, join}
use g_micor.Pgsql.Where.{is_empty}
use g_micor.Pgsql.Types.{
  GoType, int64_type, ScanKind, classify_scan_kind, GoValue, bool, int, DbValue, Codec, get_value,
}
use g_micor.Pgsql.Result.{
  DbError, id_not_int64, no_id, value_failed, Result, ok, err, or_error, ◌>>=◌,
}

-- `reflect.StructField`; `db` is its tag of that name.
pub record StructField : Type 0 where
  pub name : Bytes
  pub exported : Bool
  pub db : Bytes
  pub type : GoType

pub record FieldMeta : Type 0 where
  pub name : Bytes
  pub db_name : Bytes
  pub index : ℕ
  pub is_primary_key : Bool
  pub go_type : GoType
  pub scan_kind : ScanKind
  pub elem_type : Option GoType

pub record Table : Type 0 where
  pub name : Bytes
  pub pk_field : FieldMeta
  pub fields : List FieldMeta
  pub insert_fields : List FieldMeta
  pub select_one_sql : Bytes

-- The test of two texts.
unfoldable pub same : Bytes → Bytes → Bool
same [] [] = true
same [] (d ∷ t) = false
same (c ∷ s) [] = false
same (c ∷ s) (d ∷ t) = let rest = same s t in if c == d then rest else false

abbrev pub is_int64 : GoType → Bool
is_int64 int64_type = true
is_int64 _ = false

-- The column of a field, if it has one.
unfoldable pub column_name : StructField → Option Bytes
unfolding same
column_name f =
    if not f.exported
    then none
    else if same f.db (codes "-")
    then none
    else if is_empty f.db
    then some f.name
    else some f.db

unfoldable pub field_meta : ℕ → StructField → Bytes → FieldMeta
unfolding same classify_scan_kind
field_meta i f db_name =
    let (kind, elem) = classify_scan_kind f.type in
    record {
      name = f.name;
      db_name = db_name;
      index = i;
      is_primary_key = same db_name (codes "id");
      go_type = f.type;
      scan_kind = kind;
      elem_type = elem;
    }

-- The variables of the loop. The names of all columns are those of `fields`.
pub record Collected : Type 0 where
  pub fields : List FieldMeta
  pub insert_fields : List FieldMeta
  pub pk_field : Option FieldMeta

abbrev pub nothing_collected : Collected
nothing_collected = record { fields = []; insert_fields = []; pk_field = none }

abbrev pub add_field : FieldMeta → Collected → Result Collected
add_field meta acc =
    if meta.is_primary_key
    then if is_int64 meta.go_type
      then ok (record acc { fields = acc.fields ++ meta ∷ []; pk_field = some meta })
      else err id_not_int64
    else ok (record acc {
      fields = acc.fields ++ meta ∷ [];
      insert_fields = acc.insert_fields ++ meta ∷ [];
    })

unfoldable pub collect : List StructField → ℕ → Collected → Result Collected
unfolding column_name field_meta
collect [] i acc = ok acc
collect (f ∷ fs) i acc = elim (column_name f) [
  | none ↦ collect fs (suc i) acc
  | some db_name ↦ do acc' ← add_field (field_meta i f db_name) acc; collect fs (suc i) acc'
]

-- `columnSQL`, `allColumnSQL` and `insertColumnSQL`
unfoldable pub column_sql : List FieldMeta → Bytes
unfolding join
column_sql fields = join (codes ", ") (map (λ f. f.db_name) fields)

abbrev pub quoted : Bytes → Bytes
quoted name = b'"' ∷ (name ++ b'"' ∷ [])

-- What follows the loop.
abbrev pub make_table : Bytes → Collected → Result Table
make_table table_name acc = elim acc.pk_field [
  | none ↦ err no_id
  | some pk ↦ ok (record {
    name = table_name;
    pk_field = pk;
    fields = acc.fields;
    insert_fields = acc.insert_fields;
    select_one_sql =
        codes "SELECT "
        ++ (column_sql acc.fields
            ++ (codes " FROM " ++ (quoted table_name ++ codes " WHERE id = $1")));
  })
]

-- `GetTable`: what is kept in the cache, or the error of a panic.
unfoldable pub get_table : Bytes → List StructField → Result Table
unfolding collect column_sql
get_table table_name struct_fields = do
  acc ← collect struct_fields 0 nothing_collected
  make_table table_name acc

unfoldable pub insert_columns : Table → Bool → List FieldMeta
insert_columns t false = t.insert_fields
insert_columns t true = t.pk_field ∷ t.insert_fields

abbrev pub row_placeholders : ℕ → ℕ → ℕ → List Bytes
row_placeholders base j zero = []
row_placeholders base j (suc cols) = placeholder (base + j + 1) ∷ row_placeholders base (suc j) cols

abbrev pub row_sql : ℕ → ℕ → Bytes
row_sql base cols = codes "(" ++ (join (codes ", ") (row_placeholders base 0 cols) ++ codes ")")

abbrev pub values_rows : ℕ → ℕ → ℕ → List Bytes
values_rows i zero cols = []
values_rows i (suc rows) cols = row_sql (i * cols) cols ∷ values_rows (suc i) rows cols

unfoldable pub build_values_sql : ℕ → ℕ → Bytes
unfolding join
build_values_sql rows cols = join (codes ", ") (values_rows 0 rows cols)

module _ {J F O : Type 0} where
  -- An entity's fields, by their index. The fields of a table are always there.
  abbrev pub field_value : List (GoValue J F O) → FieldMeta → GoValue J F O
  field_value entity f = get_or entity f.index (bool false)

  -- `IsZero` of an int64
  abbrev pub is_zero_value : GoValue J F O → Bool
  is_zero_value (int (pos zero)) = true
  is_zero_value _ = false

  unfoldable pub has_explicit_pk : Table → List (GoValue J F O) → Bool
  has_explicit_pk t entity = not (is_zero_value (field_value entity t.pk_field))

  unfoldable pub set_pk : Table → ℤ → List (GoValue J F O) → List (GoValue J F O)
  set_pk t id entity = modify t.pk_field.index (λ _. int id) entity

  -- The fields of an entity behind a pointer are addressable.
  unfoldable pub extract_args_by_fields :
      Codec J F O → List (GoValue J F O) → List FieldMeta → Result (List (DbValue J F O))
  unfolding get_value
  extract_args_by_fields codec entity [] = ok []
  extract_args_by_fields codec entity (f ∷ fields) = do
    value ← or_error value_failed (get_value codec true (field_value entity f))
    args ← extract_args_by_fields codec entity fields
    ok (value ∷ args)
