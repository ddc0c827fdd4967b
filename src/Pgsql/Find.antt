-- ===== src/Pgsql/Find.antt =====
-- pgsql/table.go: the scanning of rows; pgsql/table_operation.go: `FindByID`, `FindOne`, `Find`,
-- `Count` and `FindPage`.
pub mod Statement
pub mod Rows
pub mod Kept
pub mod Cells
pub mod RoundTrip
mod Sample
mod Tests
use g_micor.Base.{Bool, Option, none, some, List, [], ◌∷◌, ◌++◌, map, modify, if◌then◌else◌}
use g_micor.Base.Int.{ℤ, pos}
use g_micor.Base.Bytes.{Bytes, codes}
use g_micor.Pgsql.Where.{WhereBuilder, build_sql}
use g_micor.Pgsql.Types.{GoType, ptr_type, GoValue, ptr, DbValue, db_int, ScanKind}
use g_micor.Pgsql.Scan.{Target, json_buffer, apply_slot}
use g_micor.Pgsql.Result.{query_failed, panicked, bad_json, Result, ok, err}
use g_micor.Pgsql.Driver.{Decoder, Driver, Db, ◌>>=◌, lift, fail, get_option, calling, get_pool}
use g_micor.Pgsql.Table.{FieldMeta, Table, quoted, column_sql}

module _ {J F O R : Type 0} (de : Decoder J F O R) where
  -- The loop over the slots of `finalizeScan`; a direct target has been written by `Scan`.
  unfoldable pub apply_slots :
      List FieldMeta → List (Target J F O) → List (GoValue J F O) → Result (List (GoValue J F O))
  unfolding apply_slot
  apply_slots [] targets entity = ok entity
  apply_slots (f ∷ fields) [] entity = ok entity
  apply_slots (f ∷ fields) (json_buffer text ∷ targets) entity = apply_slots fields targets entity
  apply_slots (f ∷ fields) (target ∷ targets) entity =
      elim (apply_slot f.scan_kind f.elem_type target) [
        | err e ↦ err e
        | ok v ↦ apply_slots fields targets (modify f.index (λ _. v) entity)
      ]

  -- A field from its JSON: a pointer field is given a new value to point to.
  abbrev pub from_json : GoType → Bytes → Option (GoValue J F O)
  from_json (ptr_type elem) text = elim (de.unmarshal elem text) [
    | none ↦ none
    | some v ↦ some (ptr v)
  ]
  from_json t text = de.unmarshal t text

  -- The loop over the buffers; an empty one, of NULL, is skipped.
  unfoldable pub apply_json :
      List FieldMeta → List (Target J F O) → List (GoValue J F O) → Result (List (GoValue J F O))
  apply_json [] targets entity = ok entity
  apply_json (f ∷ fields) [] entity = ok entity
  apply_json (f ∷ fields) (json_buffer (c ∷ text) ∷ targets) entity =
      elim (from_json f.go_type (c ∷ text)) [
        | none ↦ err bad_json
        | some v ↦ apply_json fields targets (modify f.index (λ _. v) entity)
      ]
  apply_json (f ∷ fields) (target ∷ targets) entity = apply_json fields targets entity

  unfoldable pub finalize_scan :
      List FieldMeta → List (Target J F O) → List (GoValue J F O) → Result (List (GoValue J F O))
  unfolding apply_slots apply_json
  finalize_scan fields targets entity = elim (apply_slots fields targets entity) [
    | err e ↦ err e
    | ok entity' ↦ apply_json fields targets entity'
  ]

  -- `prepareScan`: the targets by their kinds and the types of the fields.
  abbrev pub prepare_scan : Table → List (ScanKind × GoType)
  prepare_scan t = map (λ f. (f.scan_kind, f.go_type)) t.fields

  -- One row into a new entity of a struct type.
  unfoldable pub scan_row : Table → List GoType → R → Result (List (GoValue J F O))
  unfolding finalize_scan
  scan_row t struct_types row = elim (de.scan (prepare_scan t) row) [
    | none ↦ err query_failed
    | some targets ↦ finalize_scan t.fields targets (map de.zero_value struct_types)
  ]

  -- `scanRows`, with whether the rows ended without an error.
  unfoldable pub scan_rows :
      Table → List GoType → List R → Bool → Result (List (List (GoValue J F O)))
  unfolding scan_row
  scan_rows t struct_types [] ended_well = if ended_well then ok [] else err query_failed
  scan_rows t struct_types (row ∷ rows) ended_well = elim (scan_row t struct_types row) [
    | err e ↦ err e
    | ok entity ↦ elim (scan_rows t struct_types rows ended_well) [
      | err e ↦ err e
      | ok entities ↦ ok (entity ∷ entities)
    ]
  ]

module _ {J F O S R : Type 0} (dr : Driver J F O S R) (t : Table) (struct_types : List GoType) where
  unfoldable pub find_by_id : ℤ → Db J F O S (List (GoValue J F O))
  unfolding scan_row
  find_by_id id = do
    _ ← get_pool dr
    row ← calling (dr.query_row t.select_one_sql (db_int id ∷ []))
    lift (scan_row dr.decoder t struct_types row)

  unfoldable pub find_one :
      Option (WhereBuilder (DbValue J F O)) → Db J F O S (List (GoValue J F O))
  unfolding scan_row column_sql build_sql
  find_one wb = do
    _ ← get_pool dr
    let (where_clause, where_args) = build_sql wb 1
    let query = codes "SELECT " ++ (column_sql t.fields ++ (codes " FROM " ++ quoted t.name))
    row ← calling (dr.query_row (query ++ (where_clause ++ codes " LIMIT 1")) where_args)
    lift (scan_row dr.decoder t struct_types row)

  abbrev pub select_sql : Bytes
  select_sql = codes "SELECT " ++ (column_sql t.fields ++ (codes " FROM " ++ t.name))

  unfoldable pub find :
      Option (WhereBuilder (DbValue J F O)) → Db J F O S (List (List (GoValue J F O)))
  unfolding scan_rows column_sql build_sql
  find wb = do
    _ ← get_pool dr
    let (where_clause, where_args) = build_sql wb 1
    (rows, ended_well) ← calling (dr.query (select_sql ++ where_clause) where_args)
    lift (scan_rows dr.decoder t struct_types rows ended_well)

  -- A nil builder is dereferenced, which is a panic.
  unfoldable pub count : Option (WhereBuilder (DbValue J F O)) → Db J F O S ℤ
  unfolding build_sql
  count none = do _ ← get_pool dr; fail panicked
  count (some wb) = do
    _ ← get_pool dr
    let (where_clause, where_args) =
        build_sql
          (some (record {
            conditions = wb.conditions;
            args = wb.args;
            order_by = [];
            limit = pos 0;
            offset = pos 0;
          }))
          1
    row ←
        calling
          (dr.query_row ((codes "SELECT COUNT(*) FROM " ++ t.name) ++ where_clause) where_args)
    get_option query_failed (dr.scan_int row)
