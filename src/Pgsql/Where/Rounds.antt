-- ===== src/Pgsql/Where/Rounds.antt =====
-- pgsql/where.go: the loop over the bytes of a condition comes to its end.
use g_micor.Base.{ℕ, zero, suc, ◌≤◌, ◌≡◌, refl, [], ◌∷◌, length, arith, Bool-cases, inl, inr}
use g_micor.Base.Bytes.{Bytes}
use g_micor.Base.Decimal.{is_digit}
use g_micor.Pgsql.Where.{skip_digits, reindex_loop, reindex}

length-skip_digits : (s : Bytes) → length (skip_digits s) ≤ length s
unfolding skip_digits
length-skip_digits [] = omega arith
length-skip_digits (c ∷ s) = elim (Bool-cases (is_digit c)) [
  | inl e ↦ rw (e, skip_digits) (let h = length-skip_digits s in omega arith)
  | inr e ↦ rw (e, skip_digits) (omega arith)
]

same_result :
    (m n : ℕ) (s : Bytes) (idx : ℕ)
    → length s ≤ m
    → length s ≤ n
    → reindex_loop m s idx ≡ reindex_loop n s idx
unfolding reindex_loop
same_result zero zero [] idx h k = refl
same_result zero (suc n) [] idx h k = refl
same_result (suc m) zero [] idx h k = refl
same_result (suc m) (suc n) [] idx h k = refl
same_result zero n (c ∷ s) idx h k = absurd (omega arith)
same_result (suc m) zero (c ∷ s) idx h k = absurd (omega arith)
same_result (suc m) (suc n) (c ∷ s) idx h k =
    let shorter = length-skip_digits s in
    let numbered = same_result m n (skip_digits s) (suc idx) (omega arith) (omega arith) in
    let copied = same_result m n s idx (omega arith) (omega arith) in rw (numbered, copied) refl

-- As many rounds as a condition has bytes are enough: with any more the loop has the same result.
pub enough_rounds :
    (rounds : ℕ) (cond : Bytes) (idx : ℕ)
    → length cond ≤ rounds
    → reindex_loop rounds cond idx ≡ reindex cond idx
unfolding reindex
enough_rounds rounds cond idx h = same_result rounds (length cond) cond idx h (omega arith)
