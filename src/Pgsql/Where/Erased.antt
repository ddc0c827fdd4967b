-- ===== src/Pgsql/Where/Erased.antt =====
-- pgsql/where.go, `buildSQL`: the loop over a condition does not read the numbers of its placeholders.
use g_micor.Base.{
  ℕ, zero, suc, ◌≤◌, ◌≡◌, refl, ap, sym, ◌∙◌, Bool, true, false, ◌&&◌, [], ◌∷◌, ◌++◌, length, arith,
  ◌==◌, if◌then◌else◌,
}
use g_micor.Base.Bytes.{Bytes}
use g_micor.Base.Decimal.{is_digit}
use g_micor.Pgsql.Sql.{dollar, placeholder}
use g_micor.Pgsql.Where.{skip_digits, reindex_loop, reindex}
use g_micor.Pgsql.Where.Numbering.{length-skip_digits-le}

-- A condition with the digits behind each `$` left out.
abbrev pub erase : Bool → Bytes → Bytes
erase reading [] = []
erase reading (c ∷ s) =
    let marked = erase true s in
    let skipped = erase true s in
    let kept = erase false s in
    if c == dollar then c ∷ marked else if reading && is_digit c then skipped else c ∷ kept

-- Each `$` of such a text replaced by the next placeholder.
abbrev fill : Bytes → ℕ → Bytes × ℕ
fill [] idx = ([], idx)
fill (c ∷ s) idx =
    let (marked, next) = fill s (suc idx) in
    let (kept, same) = fill s idx in
    if c == dollar then (placeholder idx ++ marked, next) else (c ∷ kept, same)

erase-skip_digits : (s : Bytes) → erase false (skip_digits s) ≡ erase true s
unfolding skip_digits
erase-skip_digits [] = refl
erase-skip_digits (c ∷ s) = ground (arith, erase-skip_digits s)

reindex_loop-fill :
    (rounds : ℕ) (s : Bytes) (idx : ℕ)
    → length s ≤ rounds
    → reindex_loop rounds s idx ≡ fill (erase false s) idx
unfolding reindex_loop
reindex_loop-fill zero [] idx h = refl
reindex_loop-fill zero (c ∷ s) idx h = absurd (omega arith)
reindex_loop-fill (suc rounds) [] idx h = refl
reindex_loop-fill (suc rounds) (c ∷ s) idx h = ground (
  arith,
  reindex_loop-fill rounds (skip_digits s) (suc idx),
  reindex_loop-fill rounds s idx,
  length-skip_digits-le s,
  erase-skip_digits s,
)

-- The numbers that a condition gives its placeholders play no part: two conditions that differ in
-- them alone come out as the same text, though `$2 … $1` asks for its arguments the other way round.
pub reindex_ignores_numbers :
    (c d : Bytes) (idx : ℕ) → erase false c ≡ erase false d → reindex c idx ≡ reindex d idx
unfolding reindex
reindex_ignores_numbers c d idx h =
    reindex_loop-fill (length c) c idx (omega arith)
    ∙ ap (λ s. fill s idx) h
    ∙ sym (reindex_loop-fill (length d) d idx (omega arith))
