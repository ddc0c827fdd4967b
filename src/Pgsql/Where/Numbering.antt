-- ===== src/Pgsql/Where/Numbering.antt =====
-- pgsql/where.go, `buildSQL`: the numbers of the placeholders in the text that it builds.
use native.Mathlib.Nat.{add-zero}
use g_micor.Base.{
  if_intro, ℕ, zero, suc, ◌+◌, ◌≤◌, ◌≡◌, refl, ap, sym, ◌∙◌, inl, inr, Bool, true, false, ◌&&◌,
  Option, none, some, List, [], ◌∷◌, ◌++◌, length, All-append, arith, ◌==◌, Bool-cases,
  if◌then◌else◌,
}
use g_micor.Base.Int.{ℤ}
use g_micor.Base.Bytes.{Bytes, codes}
use g_micor.Base.Decimal.{decimal, decimal-AllDigits, AllDigits}
use g_micor.Pgsql.Sql.{
  dollar, join, placeholders, range, NoDollar, first_digit, range-append, placeholders-placeholder,
  placeholders-NoDollar, placeholders-append, placeholders-append_NoDollar, placeholders-nil,
}
use g_micor.Pgsql.Where.{
  WhereBuilder, is_empty, is_zero, positive, skip_digits, reindex_loop, reindex, reindex_all,
  suffix, where_clause, order_clause, build_sql,
}

-- The placeholders that a condition is read to have.
abbrev pub dollars : Bytes → ℕ
dollars [] = 0
dollars (c ∷ s) = if c == dollar then suc (dollars s) else dollars s

abbrev pub all_dollars : List Bytes → ℕ
all_dollars [] = 0
all_dollars (cond ∷ conds) = dollars cond + all_dollars conds

pub length-skip_digits-le : (s : Bytes) → length (skip_digits s) ≤ length s
unfolding skip_digits
length-skip_digits-le [] = omega arith
length-skip_digits-le (c ∷ s) = ground (arith, length-skip_digits-le s)

dollars-skip_digits : (s : Bytes) → dollars (skip_digits s) ≡ dollars s
unfolding skip_digits
dollars-skip_digits [] = refl
dollars-skip_digits (c ∷ s) = ground (arith, dollars-skip_digits s)

first_digit-skip_digits : (s : Bytes) → first_digit (skip_digits s) ≡ false
unfolding skip_digits
first_digit-skip_digits [] = refl
first_digit-skip_digits (c ∷ s) = ground (arith, first_digit-skip_digits s)

first_digit-reindex_loop :
    (rounds : ℕ) (s : Bytes) (idx : ℕ)
    → first_digit s ≡ false
    → first_digit (reindex_loop rounds s idx).0 ≡ false
unfolding reindex_loop
first_digit-reindex_loop zero s idx h = refl
first_digit-reindex_loop (suc rounds) [] idx h = refl
first_digit-reindex_loop (suc rounds) (c ∷ s) idx h = ground arith

-- The index moves on by one for each placeholder.
next-reindex_loop :
    (rounds : ℕ) (s : Bytes) (idx : ℕ)
    → length s ≤ rounds
    → (reindex_loop rounds s idx).1 ≡ idx + dollars s
unfolding reindex_loop
next-reindex_loop zero [] idx h = omega arith
next-reindex_loop zero (c ∷ s) idx h = absurd (omega arith)
next-reindex_loop (suc rounds) [] idx h = omega arith
next-reindex_loop (suc rounds) (c ∷ s) idx h = ground (
  arith,
  next-reindex_loop rounds (skip_digits s) (suc idx),
  next-reindex_loop rounds s idx,
  length-skip_digits-le s,
  dollars-skip_digits s,
)

placeholders-reindex_loop :
    (rounds : ℕ) (s : Bytes) (idx : ℕ)
    → length s ≤ rounds
    → placeholders (reindex_loop rounds s idx).0 ≡ range idx (dollars s)
unfolding reindex_loop
placeholders-reindex_loop zero [] idx h = placeholders-nil
placeholders-reindex_loop zero (c ∷ s) idx h = absurd (omega arith)
placeholders-reindex_loop (suc rounds) [] idx h = placeholders-nil
placeholders-reindex_loop (suc rounds) (c ∷ s) idx h = elim (Bool-cases (c == dollar)) [
  | inl hit ↦ rw hit (
      placeholders-placeholder idx _
        (first_digit-reindex_loop rounds (skip_digits s) (suc idx) (first_digit-skip_digits s))
      ∙ ap (λ xs. idx ∷ xs)
          (placeholders-reindex_loop rounds (skip_digits s) (suc idx)
              (omega (arith, length-skip_digits-le s))
            ∙ ap (range (suc idx)) (dollars-skip_digits s)))
  | inr miss ↦ rw miss (
      placeholders-NoDollar (c ∷ []) _ (ground arith, tt)
      ∙ placeholders-reindex_loop rounds s idx (omega arith))
]

pub placeholders-reindex :
    (cond : Bytes) (idx : ℕ) → placeholders (reindex cond idx).0 ≡ range idx (dollars cond)
unfolding reindex
placeholders-reindex cond idx = placeholders-reindex_loop (length cond) cond idx (omega arith)

pub next-reindex : (cond : Bytes) (idx : ℕ) → (reindex cond idx).1 ≡ idx + dollars cond
unfolding reindex
next-reindex cond idx = next-reindex_loop (length cond) cond idx (omega arith)

-- Joined by AND, the conditions have the placeholders of all of them, numbered on.
placeholders-join :
    (conds : List Bytes) (idx : ℕ)
    → placeholders (join (codes " AND ") (reindex_all conds idx)) ≡ range idx (all_dollars conds)
unfolding reindex_all join
placeholders-join [] idx = placeholders-nil
placeholders-join (cond ∷ []) idx =
    placeholders-reindex cond idx ∙ ap (range idx) (sym (add-zero (dollars cond)))
placeholders-join (cond ∷ next ∷ conds) idx =
    placeholders-append (reindex cond idx).0 _ refl
    ∙ ap (◌++◌ (placeholders (reindex cond idx).0)) (
        placeholders-NoDollar (codes " AND ") _ (omega arith)
        ∙ placeholders-join (next ∷ conds) (reindex cond idx).1)
    ∙ rw (placeholders-reindex cond idx, next-reindex cond idx)
        (range-append idx (dollars cond) (all_dollars (next ∷ conds)))

placeholders-where_clause :
    (conds : List Bytes) (idx : ℕ)
    → placeholders (where_clause (reindex_all conds idx)) ≡ range idx (all_dollars conds)
unfolding reindex_all
placeholders-where_clause [] idx = placeholders-nil
placeholders-where_clause (cond ∷ conds) idx =
    placeholders-NoDollar (codes " WHERE ") _ (omega arith) ∙ placeholders-join (cond ∷ conds) idx

digits-NoDollar : (ds : Bytes) → AllDigits ds → NoDollar ds
digits-NoDollar [] h = tt
digits-NoDollar (d ∷ ds) h = (ground (arith, h.0), digits-NoDollar ds h.1)

NoDollar-suffix : (word : Bytes) (n : Option ℕ) → NoDollar word → NoDollar (suffix word n)
NoDollar-suffix word none h = tt
NoDollar-suffix word (some n) h =
    All-append _ word (decimal n) h (digits-NoDollar (decimal n) (decimal-AllDigits n))

NoDollar-order_clause : (order : Bytes) → NoDollar order → NoDollar (order_clause order)
NoDollar-order_clause [] h = tt
NoDollar-order_clause (c ∷ s) h = All-append _ (codes " ORDER BY ") (c ∷ s) (omega arith) h

tail_texts : Bytes → ℤ → ℤ → Bytes
tail_texts order limit offset =
    order_clause order
    ++ (suffix (codes " LIMIT ") (positive limit) ++ suffix (codes " OFFSET ") (positive offset))

NoDollar-tail_texts :
    (order : Bytes) (limit offset : ℤ) → NoDollar order → NoDollar (tail_texts order limit offset)
unfolding tail_texts
NoDollar-tail_texts order limit offset h =
    All-append _ (order_clause order) _ (NoDollar-order_clause order h) (
      All-append _ (suffix (codes " LIMIT ") (positive limit)) _
        (NoDollar-suffix (codes " LIMIT ") (positive limit) (omega arith))
        (NoDollar-suffix (codes " OFFSET ") (positive offset) (omega arith)))

first_digit-tail_texts :
    (order : Bytes) (limit offset : ℤ) → first_digit (tail_texts order limit offset) ≡ false
unfolding tail_texts
first_digit-tail_texts (c ∷ s) limit offset = refl
first_digit-tail_texts [] limit offset = ground arith

all_dollars-is_empty :
    (conds : List Bytes) (b : Bool) → (is_empty conds && b) ≡ true → all_dollars conds ≡ 0
all_dollars-is_empty [] b e = refl
all_dollars-is_empty (cond ∷ conds) b e = cc

-- The text of a builder numbers the placeholders of its conditions on from the start index, one
-- after another and without a gap, whatever numbers they had; ORDER BY, LIMIT and OFFSET add none,
-- if the ORDER BY text has none.
pub placeholders-build_sql {ℓ} :
    {A : Type ℓ} (wb : WhereBuilder A) (start : ℕ)
    → NoDollar wb.order_by
    → placeholders (build_sql (some wb) start).0 ≡ range start (all_dollars wb.conditions)
unfolding build_sql tail_texts
placeholders-build_sql {A} wb start h =
    if_intro (λ (r : Bytes × List A). placeholders r.0 ≡ range start (all_dollars wb.conditions))
      (is_empty wb.conditions && (is_empty wb.order_by && is_zero wb.limit)) _ _
      (λ e. placeholders-nil ∙ ap (range start) (sym (all_dollars-is_empty wb.conditions _ e)))
      (λ _.
        placeholders-append_NoDollar (where_clause (reindex_all wb.conditions start))
          (tail_texts wb.order_by wb.limit wb.offset)
          (first_digit-tail_texts wb.order_by wb.limit wb.offset)
          (NoDollar-tail_texts wb.order_by wb.limit wb.offset h)
        ∙ placeholders-where_clause wb.conditions start)

-- A builder has as many placeholders as arguments,
abbrev pub IsBalanced {ℓ} : {A : Type ℓ} → WhereBuilder A → Type 0
IsBalanced wb = all_dollars wb.conditions ≡ length wb.args

all_dollars-append : (xs ys : List Bytes) → all_dollars (xs ++ ys) ≡ all_dollars xs + all_dollars ys
all_dollars-append [] ys = omega arith
all_dollars-append (x ∷ xs) ys = omega (arith, all_dollars-append xs ys)

-- What a balanced builder builds has an argument for each placeholder,
pub length-build_sql {ℓ} :
    {A : Type ℓ} (wb : WhereBuilder A) (start : ℕ)
    → IsBalanced wb
    → length (build_sql (some wb) start).1 ≡ all_dollars wb.conditions
unfolding build_sql
length-build_sql {A} wb start h =
    if_intro (λ (r : Bytes × List A). length r.1 ≡ all_dollars wb.conditions)
      (is_empty wb.conditions && (is_empty wb.order_by && is_zero wb.limit)) _ _
      (λ e. sym (all_dollars-is_empty wb.conditions _ e)) (λ _. sym h)

first_digit-where_clause :
    (conds : List Bytes) (s : Bytes)
    → first_digit s ≡ false
    → first_digit (where_clause conds ++ s) ≡ false
first_digit-where_clause [] s h = h
first_digit-where_clause (cond ∷ conds) s h = refl

-- and its text can stand behind a placeholder.
pub first_digit-build_sql {ℓ} :
    {A : Type ℓ} (wb : WhereBuilder A) (start : ℕ)
    → first_digit (build_sql (some wb) start).0 ≡ false
unfolding build_sql tail_texts
first_digit-build_sql {A} wb start =
    if_intro (λ (r : Bytes × List A). first_digit r.0 ≡ false)
      (is_empty wb.conditions && (is_empty wb.order_by && is_zero wb.limit)) _ _ (λ _. refl)
      (λ _.
        first_digit-where_clause (reindex_all wb.conditions start)
          (tail_texts wb.order_by wb.limit wb.offset)
          (first_digit-tail_texts wb.order_by wb.limit wb.offset))
