-- ===== src/Pgsql/Where.antt =====
-- pgsql/where.go: the builder of WHERE, ORDER BY, LIMIT and OFFSET. A text is its bytes; an argument
-- is a value of any type.
pub mod Numbering
pub mod Erased
pub mod Rounds
use g_micor.Base.{
  ℕ, zero, suc, ◌+◌, Bool, true, false, ◌&&◌, Option, none, some, List, [], ◌∷◌, ◌++◌, length, ◌==◌,
  if◌then◌else◌,
}
use g_micor.Base.Int.{ℤ, pos, ltb_ℤ}
use g_micor.Base.Bytes.{Bytes, codes}
use g_micor.Base.Decimal.{is_digit, decimal}
use g_micor.Pgsql.Sql.{dollar, placeholder, join}

abbrev pub is_empty {ℓ} : {A : Type ℓ} → List A → Bool
is_empty [] = true
is_empty (x ∷ xs) = false

-- n > 0, and the number that is then printed
abbrev pub positive : ℤ → Option ℕ
positive (pos zero) = none
positive (pos (suc n)) = some (suc n)
positive _ = none

abbrev pub is_zero : ℤ → Bool
is_zero (pos zero) = true
is_zero _ = false

pub record WhereBuilder {ℓ} (A : Type ℓ) : Type ℓ where
  pub conditions : List Bytes
  pub args : List A
  pub order_by : Bytes
  pub limit : ℤ
  pub offset : ℤ

module _ {ℓ} {A : Type ℓ} where
  abbrev pub empty_where : WhereBuilder A
  empty_where = record { conditions = []; args = []; order_by = []; limit = pos 0; offset = pos 0 }

  unfoldable pub and_where : Bytes → List A → WhereBuilder A → WhereBuilder A
  and_where condition args wb = record wb {
    conditions = wb.conditions ++ condition ∷ [];
    args = wb.args ++ args;
  }

  unfoldable pub where_ : Bytes → List A → WhereBuilder A
  unfolding and_where
  where_ condition args = and_where condition args empty_where

  unfoldable pub set_order_by : Bytes → WhereBuilder A → WhereBuilder A
  set_order_by order wb = record wb { order_by = order }

  unfoldable pub set_limit : ℤ → WhereBuilder A → WhereBuilder A
  set_limit n wb = record wb { limit = n }

  unfoldable pub set_offset : ℤ → WhereBuilder A → WhereBuilder A
  set_offset n wb = record wb { offset = n }

-- The inner loop: past the digits of a placeholder.
unfoldable pub skip_digits : Bytes → Bytes
skip_digits [] = []
skip_digits (c ∷ s) = if is_digit c then skip_digits s else c ∷ s

-- The loop over the bytes of a condition; a round takes at least one byte, so as many rounds as
-- bytes are enough.
unfoldable pub reindex_loop : ℕ → Bytes → ℕ → Bytes × ℕ
unfolding skip_digits
reindex_loop zero s idx = ([], idx)
reindex_loop (suc rounds) [] idx = ([], idx)
reindex_loop (suc rounds) (c ∷ s) idx =
    let (renumbered, next) = reindex_loop rounds (skip_digits s) (suc idx) in
    let (copied, same) = reindex_loop rounds s idx in
    if c == dollar then (placeholder idx ++ renumbered, next) else (c ∷ copied, same)

unfoldable pub reindex : Bytes → ℕ → Bytes × ℕ
unfolding reindex_loop
reindex cond idx = reindex_loop (length cond) cond idx

unfoldable pub reindex_all : List Bytes → ℕ → List Bytes
unfolding reindex
reindex_all [] idx = []
reindex_all (cond ∷ conds) idx =
    let (text, next) = reindex cond idx in text ∷ reindex_all conds next

abbrev pub suffix : Bytes → Option ℕ → Bytes
suffix word none = []
suffix word (some n) = word ++ decimal n

abbrev pub where_clause : List Bytes → Bytes
where_clause [] = []
where_clause (c ∷ cs) = codes " WHERE " ++ join (codes " AND ") (c ∷ cs)

abbrev pub order_clause : Bytes → Bytes
order_clause [] = []
order_clause (c ∷ s) = codes " ORDER BY " ++ (c ∷ s)

-- `buildSQL`; `none` is the nil builder.
unfoldable pub build_sql {ℓ} : {A : Type ℓ} → Option (WhereBuilder A) → ℕ → Bytes × List A
unfolding reindex_all join
build_sql none start = ([], [])
build_sql (some wb) start =
    if is_empty wb.conditions && (is_empty wb.order_by && is_zero wb.limit) then ([], []) else (
      where_clause (reindex_all wb.conditions start)
          ++ (order_clause wb.order_by
              ++ (suffix (codes " LIMIT ") (positive wb.limit)
                  ++ suffix (codes " OFFSET ") (positive wb.offset))),
      wb.args,
    )
