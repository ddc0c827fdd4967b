-- ===== src/Pgsql/Find/Statement.antt =====
-- pgsql/table_operation.go, `FindByID`, `FindOne`, `Find` and `Count`: the statements and their arguments.
use g_micor.Base.{
  ◌≡◌, refl, ap, sym, ◌∙◌, Option, none, some, List, [], ◌∷◌, ◌++◌, length, All-append, arith,
}
use g_micor.Base.Int.{ℤ, pos}
use g_micor.Base.Bytes.{Bytes, codes}
use g_micor.Pgsql.Sql.{
  placeholders, range, NoDollar, placeholders-NoDollar, placeholders-append_NoDollar,
  placeholders-nil,
}
use g_micor.Pgsql.Where.{WhereBuilder, build_sql}
use g_micor.Pgsql.Where.Numbering.{IsBalanced, length-build_sql, placeholders-build_sql}
use g_micor.Pgsql.Types.{GoType, DbValue}
use g_micor.Pgsql.Strict.{strict, IsNumbered, bind_ext, query-strict, query_row-strict}
use g_micor.Pgsql.Driver.{Driver, World, get_pool}
use g_micor.Pgsql.Table.{Table, quoted, column_sql}
use g_micor.Pgsql.Table.Columns.{PlainColumns, NoDollar-column_sql, NoDollar-quoted}
use g_micor.Pgsql.Find.{select_sql, find_by_id, find_one, find, count}

-- A builder, if there is one, with as many arguments as placeholders and none in its ORDER BY.
abbrev pub IsPlainWhere {ℓ} : {D : Type ℓ} → Option (WhereBuilder D) → Type 0
IsPlainWhere none = Unit
IsPlainWhere (some wb) = IsBalanced wb × NoDollar wb.order_by

placeholders-clause {ℓ} :
    {D : Type ℓ} (wb : Option (WhereBuilder D))
    → IsPlainWhere wb
    → placeholders (build_sql wb 1).0 ≡ range 1 (length (build_sql wb 1).1)
unfolding build_sql
placeholders-clause none h = placeholders-nil
placeholders-clause (some wb) h =
    placeholders-build_sql wb 1 h.1 ∙ ap (range 1) (sym (length-build_sql wb 1 h.0))

-- A builder's text behind a head with no placeholder.
pub IsNumbered-build_sql {ℓ} :
    {D : Type ℓ} (head : Bytes) (wb : Option (WhereBuilder D))
    → NoDollar head
    → IsPlainWhere wb
    → IsNumbered (head ++ (build_sql wb 1).0) (build_sql wb 1).1
IsNumbered-build_sql head wb h plain = placeholders-NoDollar head _ h ∙ placeholders-clause wb plain

module _ {J F O S R : Type 0} (dr : Driver J F O S R) (t : Table) (struct_types : List GoType) where
  NoDollar-select :
      (name : Bytes)
      → NoDollar name
      → PlainColumns t.fields
      → NoDollar (codes "SELECT " ++ (column_sql t.fields ++ (codes " FROM " ++ name)))
  NoDollar-select name h k = All-append _ (codes "SELECT ") _ (omega arith) (
      All-append _ (column_sql t.fields) _ (NoDollar-column_sql t.fields k)
        (All-append _ (codes " FROM ") _ (omega arith) h))

  pub NoDollar-select_sql :
      NoDollar t.name → PlainColumns t.fields → NoDollar (select_sql dr t struct_types)
  NoDollar-select_sql h k = NoDollar-select t.name h k

  -- `FindByID` sends the table's own statement with the id.
  pub find_by_id-strict :
      (id : ℤ) (w : World J F O S)
      → placeholders t.select_one_sql ≡ 1 ∷ []
      → find_by_id (strict dr) t struct_types id w ≡ find_by_id dr t struct_types id w
  unfolding find_by_id strict get_pool
  find_by_id-strict id w h = bind_ext _ _ _ w (λ _ w1 _. query_row-strict dr _ _ _ w1 h)

  -- `FindOne` puts its limit behind the builder's text,
  pub find_one-strict :
      (wb : Option (WhereBuilder (DbValue J F O))) (w : World J F O S)
      → NoDollar t.name
      → PlainColumns t.fields
      → IsPlainWhere wb
      → find_one (strict dr) t struct_types wb w ≡ find_one dr t struct_types wb w
  unfolding find_one strict get_pool
  find_one-strict wb w h k plain = bind_ext _ _ _ w (λ _ w1 _. query_row-strict dr _ _ _ w1 (
      placeholders-NoDollar
        (codes "SELECT " ++ (column_sql t.fields ++ (codes " FROM " ++ quoted t.name))) _
        (NoDollar-select (quoted t.name) (NoDollar-quoted t.name h) k)
      ∙ placeholders-append_NoDollar (build_sql wb 1).0 (codes " LIMIT 1") refl (omega arith)
      ∙ placeholders-clause wb plain))

  -- `Find` sends it as it is,
  pub find-strict :
      (wb : Option (WhereBuilder (DbValue J F O))) (w : World J F O S)
      → NoDollar t.name
      → PlainColumns t.fields
      → IsPlainWhere wb
      → find (strict dr) t struct_types wb w ≡ find dr t struct_types wb w
  unfolding find strict get_pool
  find-strict wb w h k plain = bind_ext _ _ _ w (λ _ w1 _.
      query-strict dr _ _ _ w1
        (IsNumbered-build_sql (select_sql dr t struct_types) wb (NoDollar-select_sql h k) plain))

  -- and `Count` without its order and its window.
  pub count-strict :
      (wb : Option (WhereBuilder (DbValue J F O))) (w : World J F O S)
      → NoDollar t.name
      → IsPlainWhere wb
      → count (strict dr) t struct_types wb w ≡ count dr t struct_types wb w
  unfolding count strict get_pool
  count-strict none w h plain = refl
  count-strict (some wb) w h plain = bind_ext _ _ _ w (λ _ w1 _. query_row-strict dr _ _ _ w1 (
      IsNumbered-build_sql (codes "SELECT COUNT(*) FROM " ++ t.name)
        (some (record {
          conditions = wb.conditions;
          args = wb.args;
          order_by = [];
          limit = pos 0;
          offset = pos 0;
        }))
        (All-append _ (codes "SELECT COUNT(*) FROM ") _ (omega arith) h) (plain.0, tt)))
