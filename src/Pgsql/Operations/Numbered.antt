-- ===== src/Pgsql/Operations/Numbered.antt =====
-- pgsql/table.go and pgsql/table_operation.go: the statements that a table made by `GetTable` sends.
use g_micor.Base.{
  ◌≡◌, refl, ap, ◌∙◌, sym, Option, none, some, List, [], ◌∷◌, All, arith, Bool-cases, Option-cases,
  inl, inr, if◌then◌else◌, some_inj, subst,
}
use g_micor.Base.Bytes.{Bytes, codes}
use g_micor.Pgsql.Sql.{placeholders, NoDollar, placeholders-NoDollar}
use g_micor.Pgsql.Types.{GoType, DbValue}
use g_micor.Pgsql.Result.{ok, ok_inj}
use g_micor.Pgsql.Driver.{Driver, World}
use g_micor.Pgsql.Strict.{strict, bind_cong}
use g_micor.Pgsql.Table.{StructField, FieldMeta, Table, get_table, column_sql, quoted}
use g_micor.Pgsql.Table.Columns.{PlainColumns, NoDollar-column_sql, NoDollar-quoted}
use g_micor.Pgsql.Table.Reference.{
  columns, without_id, last_id, ids_are_int64, table_over, get_table-columns,
}
use g_micor.Pgsql.Insert.Statement.{id-strict, insert_one-strict, insert_many-strict}
use g_micor.Pgsql.Find.Statement.{
  IsPlainWhere, find_by_id-strict, find_one-strict, find-strict, count-strict,
}
use g_micor.Pgsql.Page.Statement.{find_page-strict}
use g_micor.Pgsql.Change.Statement.{IsPlainUpdate, update_by_id-strict, update-strict}
use g_micor.Pgsql.Operations.{
  Operation, id_op, insert_one_op, insert_many_op, find_by_id_op, find_one_op, find_op, count_op,
  find_page_op, update_by_id_op, update_op, run, run_all,
}

-- An operation whose builders are plain.
abbrev pub IsPlainOperation : {D : Type 0} → Operation D → Type 0
IsPlainOperation (find_one_op wb) = IsPlainWhere wb
IsPlainOperation (find_op wb) = IsPlainWhere wb
IsPlainOperation (count_op wb) = IsPlainWhere wb
IsPlainOperation (find_page_op wb n size) = IsPlainWhere wb
IsPlainOperation (update_op ub wb) = IsPlainUpdate ub × IsPlainWhere wb
IsPlainOperation _ = Unit

record IsPlainTable (t : Table) : Type 0 where
  plain_name : NoDollar t.name
  plain_fields : PlainColumns t.fields
  plain_inserted : PlainColumns (t.pk_field ∷ t.insert_fields)
  one_placeholder : placeholders t.select_one_sql ≡ 1 ∷ []

without_id-Plain : (ms : List FieldMeta) → PlainColumns ms → PlainColumns (without_id ms)
without_id-Plain [] h = tt
without_id-Plain (m ∷ ms) h = elim (Bool-cases m.is_primary_key) [
  | inl e ↦ rw e (without_id-Plain ms h.1)
  | inr e ↦ rw e (h.0, without_id-Plain ms h.1)
]

-- The key is one of the columns.
last_id-Plain :
    (start : Option FieldMeta) (ms : List FieldMeta) (pk : FieldMeta)
    → ((m : FieldMeta) → start ≡ some m → NoDollar m.db_name)
    → PlainColumns ms
    → last_id start ms ≡ some pk
    → NoDollar pk.db_name
last_id-Plain start [] pk before h e = before pk e
last_id-Plain start (m ∷ ms) pk before h e = elim (Bool-cases m.is_primary_key) [
  | inl c ↦
      last_id-Plain (some m) ms pk (λ m' e'. rw (sym (some_inj e')) h.0) h.1
        (ap (λ b. if b then last_id (some m) ms else last_id start ms) (sym c) ∙ e)
  | inr c ↦
      last_id-Plain start ms pk before h.1
        (ap (λ b. if b then last_id (some m) ms else last_id start ms) (sym c) ∙ e)
]

placeholders-by_id : placeholders (codes " WHERE id = $1") ≡ 1 ∷ []
unfolding placeholders
placeholders-by_id = refl

table_over-IsPlain :
    (name : Bytes) (ms : List FieldMeta) (t : Table)
    → NoDollar name
    → PlainColumns ms
    → table_over name ms ≡ ok t
    → IsPlainTable t
table_over-IsPlain name ms t h k e = elim (Bool-cases (ids_are_int64 ms)) [
  | inr c ↦ absurd (let e' = (rw c at e) in cc)
  | inl c ↦ elim (Option-cases (last_id none ms)) [
    | inl c' ↦ absurd (let e' = (rw (c, c') at e) in cc)
    | inr (pk, c') ↦ subst IsPlainTable (ok_inj (rw (c, c') at e)) (record {
      plain_name = h;
      plain_fields = k;
      plain_inserted = (last_id-Plain none ms pk (λ m e'. absurd cc) k c', without_id-Plain ms k);
      one_placeholder =
          placeholders-NoDollar (codes "SELECT ") _ (omega arith)
          ∙ placeholders-NoDollar (column_sql ms) _ (NoDollar-column_sql ms k)
          ∙ placeholders-NoDollar (codes " FROM ") _ (omega arith)
          ∙ placeholders-NoDollar (quoted name) _ (NoDollar-quoted name h)
          ∙ placeholders-by_id;
    })
  ]
]

get_table-IsPlain :
    (name : Bytes) (fs : List StructField) (t : Table)
    → NoDollar name
    → PlainColumns (columns fs 0)
    → get_table name fs ≡ ok t
    → IsPlainTable t
get_table-IsPlain name fs t h k e =
    table_over-IsPlain name (columns fs 0) t h k (sym (get_table-columns name fs) ∙ e)

module _ {J F O S R : Type 0} (dr : Driver J F O S R) (t : Table) (struct_types : List GoType) where
  run-strict :
      (op : Operation (DbValue J F O)) (w : World J F O S)
      → IsPlainTable t
      → IsPlainOperation op
      → run (strict dr) t struct_types op w ≡ run dr t struct_types op w
  unfolding run
  run-strict id_op w h k = bind_cong _ _ _ w (id-strict dr t w h.plain_name)
  run-strict (insert_one_op p) w h k =
      bind_cong _ _ _ w (insert_one-strict dr t p w h.plain_name h.plain_inserted)
  run-strict (insert_many_op ps) w h k =
      bind_cong _ _ _ w (insert_many-strict dr t ps w h.plain_name h.plain_inserted)
  run-strict (find_by_id_op n) w h k =
      bind_cong _ _ _ w (find_by_id-strict dr t struct_types n w h.one_placeholder)
  run-strict (find_one_op wb) w h k =
      bind_cong _ _ _ w (find_one-strict dr t struct_types wb w h.plain_name h.plain_fields k)
  run-strict (find_op wb) w h k =
      bind_cong _ _ _ w (find-strict dr t struct_types wb w h.plain_name h.plain_fields k)
  run-strict (count_op wb) w h k =
      bind_cong _ _ _ w (count-strict dr t struct_types wb w h.plain_name k)
  run-strict (find_page_op wb n size) w h k =
      bind_cong _ _ _ w
        (find_page-strict dr t struct_types wb n size w h.plain_name h.plain_fields k)
  run-strict (update_by_id_op p) w h k =
      bind_cong _ _ _ w (update_by_id-strict dr t p w h.plain_name h.plain_inserted.1)
  run-strict (update_op ub wb) w h k =
      bind_cong _ _ _ w (update-strict dr t ub wb w h.plain_name k.0 k.1)

  run_all-plain :
      (ops : List (Operation (DbValue J F O))) (w : World J F O S)
      → IsPlainTable t
      → All IsPlainOperation ops
      → run_all (strict dr) t struct_types ops w ≡ run_all dr t struct_types ops w
  unfolding run_all
  run_all-plain [] w h k = refl
  run_all-plain (op ∷ ops) w h k =
      rw (run-strict op w h k.0, run_all-plain ops (run dr t struct_types op w).1 h k.1) refl

-- All that a program's calls of a table's methods send, in whatever order and from whatever entities
-- and builders, are statements with the placeholders $1, $2, … and one for each argument, in order: with a
-- driver that refuses any other statement every call has the same result and leaves the same database and
-- entities. The table is one that GetTable made, the names of table and columns have no $, SET is of plain
-- entries, WHERE has as many arguments as placeholders, and ORDER BY has no $.
pub run_all-strict :
    {J F O S R : Type 0} (dr : Driver J F O S R) (name : Bytes) (fs : List StructField) (t : Table)
    (struct_types : List GoType) (ops : List (Operation (DbValue J F O))) (w : World J F O S)
    → NoDollar name
    → PlainColumns (columns fs 0)
    → get_table name fs ≡ ok t
    → All IsPlainOperation ops
    → run_all (strict dr) t struct_types ops w ≡ run_all dr t struct_types ops w
run_all-strict dr name fs t struct_types ops w h k made plain =
    run_all-plain dr t struct_types ops w (get_table-IsPlain name fs t h k made) plain
