-- ===== src/Pgsql/Page/Statement.antt =====
-- pgsql/table_operation.go, `FindPage`: the statements and their arguments.
use g_micor.Base.{ℕ, ◌≡◌, refl, ◌∙◌, Option, none, some, List, arith, Bool-cases, inl, inr}
use g_micor.Base.Int.{ℤ}
use g_micor.Pgsql.Sql.{NoDollar}
use g_micor.Pgsql.Where.{WhereBuilder, is_empty, is_zero}
use g_micor.Pgsql.Types.{GoType, DbValue}
use g_micor.Pgsql.Strict.{strict, bind_ext, bind_cong, query-strict}
use g_micor.Pgsql.Driver.{Driver, World, get_pool}
use g_micor.Pgsql.Table.{Table}
use g_micor.Pgsql.Table.Columns.{PlainColumns}
use g_micor.Pgsql.Find.{select_sql}
use g_micor.Pgsql.Find.Statement.{
  IsPlainWhere, IsNumbered-build_sql, NoDollar-select_sql, count-strict,
}
use g_micor.Pgsql.Page.{page_builder, at_least_one, find_page}

page_builder-NoDollar {ℓ} :
    {D : Type ℓ} (wb : WhereBuilder D) (page page_size : ℕ)
    → NoDollar wb.order_by
    → NoDollar (page_builder wb page page_size).order_by
unfolding page_builder
page_builder-NoDollar wb page page_size k = elim (Bool-cases (is_empty wb.order_by)) [
  | inl e ↦ rw e (omega arith)
  | inr e ↦ rw e k
]

module _ {J F O S R : Type 0} (dr : Driver J F O S R) (t : Table) (struct_types : List GoType) where
  -- `FindPage` sends numbered statements, for whatever page.
  pub find_page-strict :
      (wb : Option (WhereBuilder (DbValue J F O))) (page page_size : ℤ) (w : World J F O S)
      → NoDollar t.name
      → PlainColumns t.fields
      → IsPlainWhere wb
      → find_page (strict dr) t struct_types wb page page_size w
        ≡ find_page dr t struct_types wb page page_size w
  unfolding find_page strict get_pool
  find_page-strict none page page_size w h k plain =
      bind_ext _ _ _ w (λ _ w1 _. bind_cong _ _ _ w1 (count-strict dr t struct_types none w1 h tt))
  find_page-strict (some wb) page page_size w h k (balanced, n) = bind_ext _ _ _ w (λ _ w1 _.
      bind_cong _ _ _ w1 (count-strict dr t struct_types (some wb) w1 h (balanced, n))
      ∙ bind_ext _ _ _ w1 (λ total w2 _. elim (Bool-cases (is_zero total)) [
        | inl e ↦ rw e refl
        | inr e ↦
            let window = page_builder wb (at_least_one page 1) (at_least_one page_size 10) in
            rw e (
              query-strict dr _ _ _ w2 (
                IsNumbered-build_sql (select_sql dr t struct_types) (some window)
                  (NoDollar-select_sql dr t struct_types h k)
                  (
                    balanced,
                    page_builder-NoDollar wb (at_least_one page 1) (at_least_one page_size 10) n,
                  )))
      ]))
