-- ===== src/Pgsql/Page.antt =====
-- pgsql/table_operation.go: `FindPage`.
pub mod Statement
pub mod Window
use g_micor.Base.{
  ℕ, zero, suc, ◌+◌, ◌-◌, ◌*◌, Bool, Option, none, some, List, [], ◌∷◌, ◌++◌, if◌then◌else◌,
}
use g_micor.Base.Int.{ℤ, pos, negsuc, pos_part, ltb_ℤ}
use g_micor.Base.Bytes.{Bytes, codes}
use g_micor.Pgsql.Where.{WhereBuilder, is_empty, is_zero, build_sql}
use g_micor.Pgsql.Types.{w64, GoType, GoValue, DbValue}
use g_micor.Pgsql.Scan.{wrap_int}
use g_micor.Pgsql.Result.{panicked, ok}
use g_micor.Pgsql.Driver.{Driver, Db, ◌>>=◌, lift, fail, calling, get_pool}
use g_micor.Pgsql.Table.{Table}
use g_micor.Pgsql.Find.{scan_rows, select_sql, count}

pub record Page (A : Type 0) : Type 0 where
  pub total : ℤ
  pub items : List A

-- A page number or size, with the default for one below 1.
abbrev pub at_least_one : ℤ → ℕ → ℕ
at_least_one n default = if ltb_ℤ n (pos 1) then default else pos_part n

-- The copy of the builder with the order and the window of a page.
unfoldable pub page_builder {ℓ} : {A : Type ℓ} → WhereBuilder A → ℕ → ℕ → WhereBuilder A
unfolding wrap_int
page_builder wb page page_size = record {
  conditions = wb.conditions;
  args = wb.args;
  order_by = if is_empty wb.order_by then codes "id ASC" else wb.order_by;
  limit = pos page_size;
  offset = wrap_int w64 (pos ((page - 1) * page_size));
}

module _ {J F O S R : Type 0} (dr : Driver J F O S R) (t : Table) (struct_types : List GoType) where
  unfoldable pub find_page :
      Option (WhereBuilder (DbValue J F O)) → ℤ → ℤ → Db J F O S (Page (List (GoValue J F O)))
  unfolding count scan_rows build_sql page_builder
  find_page none page page_size = do
    _ ← get_pool dr
    total ← count dr t struct_types none
    fail panicked
  find_page (some wb) page page_size = do
    _ ← get_pool dr
    total ← count dr t struct_types (some wb)
    let (data_clause, data_args) =
        build_sql (some (page_builder wb (at_least_one page 1) (at_least_one page_size 10))) 1
    if is_zero total then lift (ok (record { total = total; items = [] })) else do
      (rows, ended_well) ←
          calling (dr.query (select_sql dr t struct_types ++ data_clause) data_args)
      items ← lift (scan_rows dr.decoder t struct_types rows ended_well)
      lift (ok (record { total = total; items = items }))
