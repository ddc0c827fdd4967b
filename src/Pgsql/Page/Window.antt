-- ===== src/Pgsql/Page/Window.antt =====
-- pgsql/table_operation.go, `FindPage`: which rows are on which page.
use native.Mathlib.Nat.{div-mul-le_self, lt-div-mul-add, le-div_iff_mul-le, div-lt_iff_lt-mul}
use g_micor.Base.{ℕ, zero, suc, ◌+◌, ◌*◌, ◌/◌, ◌^◌, ◌≤◌, ◌<◌, ◌≡◌, ap, sym, ◌∙◌, subst, arith}
use g_micor.Base.Int.{pos, pos_part}
use g_micor.Pgsql.Where.{WhereBuilder}
use g_micor.Pgsql.Types.{w64}
use g_micor.Pgsql.Scan.{wrap_int}
use g_micor.Pgsql.Scan.RoundTrip.{wrap_int-InRange}
use g_micor.Pgsql.Table.Columns.{suc-mul}
use g_micor.Pgsql.Page.{page_builder}

-- The row of this number, from 0, of the ordered result is on a page.
abbrev pub IsOnPage {ℓ} : {A : Type ℓ} → WhereBuilder A → ℕ → ℕ → ℕ → Type 0
IsOnPage wb page page_size row =
    let window = page_builder wb page page_size in
    (first : ℕ) × (window.offset ≡ pos first)
    × (first ≤ row)
    × (row < first + pos_part window.limit)

offset-page_builder {ℓ} :
    {A : Type ℓ} (wb : WhereBuilder A) (page page_size : ℕ)
    → page * page_size < 2 ^ 63
    → (page_builder wb (suc page) page_size).offset ≡ pos (page * page_size)
unfolding page_builder
offset-page_builder wb page page_size h =
    ap (λ n. wrap_int w64 (pos (n * page_size))) (omega arith)
    ∙ wrap_int-InRange w64 (pos (page * page_size)) (omega arith)

-- Each row is on exactly one page: for a size that is not 0, the row is on the page of its number
-- divided by the size, and on no other whose offset fits an int64.
pub row-IsOnPage {ℓ} :
    {A : Type ℓ} (wb : WhereBuilder A) (row page_size : ℕ)
    → zero < page_size
    → row < 2 ^ 63
    → IsOnPage wb (suc (row / page_size)) page_size row
      × ((page : ℕ)
          → page * page_size < 2 ^ 63
          → IsOnPage wb (suc page) page_size row
          → page ≡ row / page_size)
unfolding page_builder
row-IsOnPage wb row page_size h k =
    let first = row / page_size * page_size in
    let below : first ≤ row = div-mul-le_self row page_size in
    (
      (
        first,
        offset-page_builder wb (row / page_size) page_size (omega (arith, below)),
        below,
        lt-div-mul-add h,
      ),
      λ page fits (n, at, low, high).
          let same = ap pos_part (sym at ∙ offset-page_builder wb page page_size fits) in
          let lower = (le-div_iff_mul-le h).1 (subst (λ m. m ≤ row) same low) in
          let upper = (div-lt_iff_lt-mul {k = page_size} {x = row} {y = suc page} h).1 (
            subst (λ m. row < m) (ap (λ m. m + page_size) same ∙ sym (suc-mul page page_size))
              high) in
          omega arith,
    )
