-- ===== src/Pgsql/Table/Columns.antt =====
-- pgsql/table.go, `buildValuesSQL` and `columnSQL`: the placeholders of their texts.
use native.Mathlib.Nat.{mul-suc}
use g_micor.Base.{
  ℕ, zero, suc, ◌+◌, ◌*◌, ◌≡◌, refl, ap, sym, ◌∙◌, List, [], ◌∷◌, ◌++◌, All, All-append, arith,
}
use g_micor.Base.Bytes.{Bytes, codes}
use g_micor.Pgsql.Sql.{
  placeholder, join, placeholders, range, NoDollar, range-append, placeholders-NoDollar,
  placeholders-append_NoDollar, placeholders-nil, placeholders_one, placeholders-join_cons,
}
use g_micor.Pgsql.Table.{
  FieldMeta, row_placeholders, row_sql, values_rows, build_values_sql, column_sql, quoted,
}

pub zero-mul : (n : ℕ) → 0 * n ≡ 0
zero-mul zero = refl
zero-mul (suc n) = rw (mul-suc 0 n, zero-mul n) refl

pub suc-mul : (n m : ℕ) → suc n * m ≡ n * m + m
suc-mul n zero = omega arith
suc-mul n (suc m) = rw (mul-suc (suc n) m, mul-suc n m, suc-mul n m) (omega arith)

placeholders-row_placeholders :
    (base j cols : ℕ)
    → placeholders (join (codes ", ") (row_placeholders base j cols)) ≡ range (base + j + 1) cols
unfolding join
placeholders-row_placeholders base j zero = placeholders-nil
placeholders-row_placeholders base j (suc cols) =
    placeholders-join_cons (placeholder (base + j + 1)) (row_placeholders base (suc j) cols)
    ∙ rw (placeholders_one (base + j + 1), placeholders-row_placeholders base (suc j) cols)
        (ap (λ k. (base + j + 1) ∷ range k cols) (omega arith))

placeholders-row_sql : (base cols : ℕ) → placeholders (row_sql base cols) ≡ range (base + 1) cols
placeholders-row_sql base cols =
    placeholders-NoDollar (codes "(") _ (omega arith)
    ∙ placeholders-append_NoDollar (join (codes ", ") (row_placeholders base 0 cols)) (codes ")")
        refl (omega arith)
    ∙ placeholders-row_placeholders base 0 cols
    ∙ ap (λ k. range k cols) (omega arith)

placeholders-values_rows :
    (i rows cols : ℕ)
    → placeholders (join (codes ", ") (values_rows i rows cols))
      ≡ range (i * cols + 1) (rows * cols)
unfolding join
placeholders-values_rows i zero cols =
    placeholders-nil ∙ ap (range (i * cols + 1)) (sym (zero-mul cols))
placeholders-values_rows i (suc rows) cols =
    placeholders-join_cons (row_sql (i * cols) cols) (values_rows (suc i) rows cols)
    ∙ rw (placeholders-row_sql (i * cols) cols, placeholders-values_rows (suc i) rows cols)
        (ap (λ k. range (i * cols + 1) cols ++ range k (rows * cols))
            (rw (suc-mul i cols) (omega arith))
          ∙ range-append (i * cols + 1) cols (rows * cols)
          ∙ ap (range (i * cols + 1)) (rw (suc-mul rows cols) (omega arith)))

-- The rows of VALUES number their placeholders on from 1, row by row, one for each column of each
-- row.
pub placeholders-build_values_sql :
    (rows cols : ℕ) → placeholders (build_values_sql rows cols) ≡ range 1 (rows * cols)
unfolding build_values_sql
placeholders-build_values_sql rows cols =
    placeholders-values_rows 0 rows cols
    ∙ ap (λ k. range k (rows * cols)) (ap (λ k. k + 1) (zero-mul cols))

-- Columns with no `$` in their names.
abbrev pub PlainColumns : List FieldMeta → Type 0
PlainColumns = All (λ f. NoDollar f.db_name)

pub NoDollar-column_sql :
    (fields : List FieldMeta) → PlainColumns fields → NoDollar (column_sql fields)
unfolding column_sql join
NoDollar-column_sql [] h = tt
NoDollar-column_sql (f ∷ []) h = h.0
NoDollar-column_sql (f ∷ g ∷ fields) h =
    All-append _ f.db_name _ h.0
      (All-append _ (codes ", ") _ (omega arith) (NoDollar-column_sql (g ∷ fields) h.1))

pub NoDollar-quoted : (name : Bytes) → NoDollar name → NoDollar (quoted name)
NoDollar-quoted name h = (omega arith, All-append _ name _ h (omega arith, tt))
