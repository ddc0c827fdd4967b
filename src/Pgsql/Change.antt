-- ===== src/Pgsql/Change.antt =====
-- pgsql/table_operation.go: `UpdateByID` and `Update`.
pub mod Statement
use g_micor.Base.{
  ℕ, zero, suc, ◌+◌, Bool, Option, none, some, List, [], ◌∷◌, ◌++◌, length, if◌then◌else◌,
}
use g_micor.Base.Int.{ℤ, pos}
use g_micor.Base.Bytes.{Bytes, codes}
use g_micor.Pgsql.Sql.{placeholder, join}
use g_micor.Pgsql.Where.{WhereBuilder, is_empty, is_zero}
use g_micor.Pgsql.Where
use g_micor.Pgsql.Update.{UpdateBuilder}
use g_micor.Pgsql.Update
use g_micor.Pgsql.Types.{GoValue, int, DbValue, db_int}
use g_micor.Pgsql.Result.{
  panicked, zero_id, no_rows_affected, nothing_to_set, where_required, Result, ok, err,
}
use g_micor.Pgsql.Driver.{Driver, Db, ◌>>=◌, lift, fail, load, calling, get_pool}
use g_micor.Pgsql.Table.{FieldMeta, Table, field_value, extract_args_by_fields}

abbrev pub set_clauses : List FieldMeta → ℕ → List Bytes
set_clauses [] i = []
set_clauses (f ∷ fields) i =
    (f.db_name ++ (codes " = " ++ placeholder (i + 1))) ∷ set_clauses fields (suc i)

unfoldable pub update_by_id_sql : Table → Bytes
unfolding join
update_by_id_sql t =
    codes "UPDATE "
    ++ (t.name
        ++ (codes " SET "
            ++ (join (codes ", ") (set_clauses t.insert_fields 0)
                ++ (codes " WHERE id = " ++ placeholder (length t.insert_fields + 1)))))

-- `Int()` of the id field, which is an int64.
abbrev pub int_of : {J F O : Type 0} → GoValue J F O → ℤ
int_of (int n) = n
int_of _ = pos 0

-- The text and the arguments of `Update`. A panic of the SET builder is `none`.
unfoldable pub update_sql {ℓ} :
    {D : Type ℓ} → Table → UpdateBuilder D → WhereBuilder D → Option (Bytes × List D)
unfolding Update.build_sql Where.build_sql
update_sql t ub wb = elim (Update.build_sql (some ub) 1) [
  | none ↦ none
  | some (set_clause, set_args, next_idx) ↦
      let (where_clause, where_args) = Where.build_sql (some wb) next_idx in
      some (
        codes "UPDATE " ++ (t.name ++ (codes " " ++ (set_clause ++ where_clause))),
        set_args ++ where_args,
      )
]

module _ {J F O S R : Type 0} (dr : Driver J F O S R) (t : Table) where
  unfoldable pub update_by_id : ℕ → Db J F O S Unit
  unfolding update_by_id_sql extract_args_by_fields
  update_by_id p = do
    _ ← get_pool dr
    entity ← load p
    let id = int_of (field_value entity t.pk_field)
    if is_zero id then fail zero_id else do
      args ← lift (extract_args_by_fields dr.codec entity t.insert_fields)
      affected ← calling (dr.exec (update_by_id_sql t) (args ++ db_int id ∷ []))
      elim affected [ zero ↦ fail no_rows_affected | suc n ↦ lift (ok tt) ]

  unfoldable pub update :
      Option (UpdateBuilder (DbValue J F O)) → Option (WhereBuilder (DbValue J F O)) → Db J F O S ℕ
  unfolding update_sql
  update none wb = fail nothing_to_set
  update (some ub) none = if is_empty ub.sets then fail nothing_to_set else fail where_required
  update (some ub) (some wb) =
      if is_empty ub.sets
      then fail nothing_to_set
      else if is_empty wb.conditions
      then fail where_required
      else do
        _ ← get_pool dr
        (query, all_args) ← elim (update_sql t ub wb) [
          | none ↦ fail panicked
          | some q ↦ lift (ok q)
        ]
        calling (dr.exec query all_args)
