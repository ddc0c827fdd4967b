-- ===== src/Pgsql/Insert.antt =====
-- pgsql/table_operation.go: `ID`, `InsertOne` and `InsertMany`.
pub mod Ids
pub mod Statement
use g_micor.Base.{
  ℕ, zero, suc, Bool, true, false, Option, none, some, List, [], ◌∷◌, ◌++◌, length, if◌then◌else◌,
}
use g_micor.Base.Int.{ℤ}
use g_micor.Base.Bytes.{Bytes, codes}
use g_micor.Pgsql.Where.{is_empty}
use g_micor.Pgsql.Types.{GoValue, DbValue, Codec}
use g_micor.Pgsql.Result.{query_failed, panicked, Result, ok, err}
use g_micor.Pgsql.Driver.{
  Driver, World, Db, ◌>>=◌, lift, fail, get_option, load, store_with, calling, get_pool,
}
use g_micor.Pgsql.Table.{
  FieldMeta, Table, quoted, column_sql, build_values_sql, insert_columns, has_explicit_pk, set_pk,
  extract_args_by_fields,
}

-- An INSERT statement into a table, whose name is given as it is written.
unfoldable pub insert_sql : Bytes → List FieldMeta → ℕ → Bytes
unfolding column_sql build_values_sql
insert_sql table fields rows =
    codes "INSERT INTO "
    ++ (table
        ++ (codes " ("
            ++ (column_sql fields
                ++ (codes ") VALUES "
                    ++ (build_values_sql rows (length fields) ++ codes " RETURNING id")))))

module _ {J F O S : Type 0} (codec : Codec J F O) where
  -- The loop over the entities of a batch.
  unfoldable pub collect_args : List FieldMeta → List ℕ → Db J F O S (List (DbValue J F O))
  unfolding extract_args_by_fields
  collect_args fields [] = lift (ok [])
  collect_args fields (p ∷ ps) = do
    entity ← load p
    args ← lift (extract_args_by_fields codec entity fields)
    all_args ← collect_args fields ps
    lift (ok (args ++ all_args))

module _ {J F O S : Type 0} where
  -- The loop that tells entities with an id from those without.
  unfoldable pub divide : Table → List ℕ → Db J F O S (List ℕ × List ℕ)
  unfolding has_explicit_pk
  divide t [] = lift (ok ([], []))
  divide t (p ∷ ps) = do
    entity ← load p
    (with_pk, without_pk) ← divide t ps
    lift (
        ok (
          if has_explicit_pk t entity
          then (p ∷ with_pk, without_pk)
          else (with_pk, p ∷ without_pk)))

module _ {J F O S R : Type 0} (scan_int : R → Option ℤ) where
  -- The loop over the rows; `entities[i]` past the last entity is a panic.
  unfoldable pub assign_ids : Table → List R → List ℕ → Db J F O S Unit
  unfolding set_pk
  assign_ids t [] ps = lift (ok tt)
  assign_ids t (row ∷ rows) [] = do
    returned_id ← get_option query_failed (scan_int row)
    fail panicked
  assign_ids t (row ∷ rows) (p ∷ ps) = do
    returned_id ← get_option query_failed (scan_int row)
    _ ← store_with p (set_pk t returned_id)
    assign_ids t rows ps

module _ {J F O S R : Type 0} (dr : Driver J F O S R) where
  unfoldable pub id : Table → Db J F O S ℤ
  id t = do
    _ ← get_pool dr
    row ← calling (
        dr.query_row
          (codes "SELECT nextval(pg_get_serial_sequence('" ++ (t.name ++ codes "', 'id'))")) [])
    get_option query_failed (dr.scan_int row)

  unfoldable pub insert_one : Table → ℕ → Db J F O S Unit
  unfolding insert_columns has_explicit_pk set_pk extract_args_by_fields insert_sql
  insert_one t p = do
    _ ← get_pool dr
    entity ← load p
    let fields = insert_columns t (has_explicit_pk t entity)
    args ← lift (extract_args_by_fields dr.codec entity fields)
    row ← calling (dr.query_row (insert_sql (quoted t.name) fields 1) args)
    returned_id ← get_option query_failed (dr.scan_int row)
    store_with p (set_pk t returned_id)

  unfoldable pub insert_many_batch : Table → List ℕ → Bool → Db J F O S Unit
  unfolding insert_columns insert_sql collect_args assign_ids
  insert_many_batch t ps include_pk = do
    _ ← get_pool dr
    let fields = insert_columns t include_pk
    all_args ← collect_args dr.codec fields ps
    (rows, ended_well) ← calling (dr.query (insert_sql t.name fields (length ps)) all_args)
    _ ← assign_ids dr.scan_int t rows ps
    if ended_well then lift (ok tt) else fail query_failed

  unfoldable pub insert_many : Table → List ℕ → Db J F O S Unit
  unfolding divide insert_many_batch
  insert_many t ps = do
    (with_pk, without_pk) ← divide t ps
    _ ← if is_empty without_pk then lift (ok tt) else insert_many_batch t without_pk false
    if is_empty with_pk then lift (ok tt) else insert_many_batch t with_pk true
