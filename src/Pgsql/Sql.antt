-- ===== src/Pgsql/Sql.antt =====
-- Texts of SQL: joining, placeholders, and a lexer that reads the placeholders of a text back.
use Prim.Native.Nat.add
use native.Mathlib.Nat.{add-zero}
use g_micor.Base.{
  ℕ, zero, suc, ◌+◌, ◌-◌, ◌*◌, ◌≡◌, ◌≢◌, refl, ap, sym, ◌∙◌, Bool, false, Option, none, some, List,
  [], ◌∷◌, ◌++◌, append-nil, All, arith, ◌==◌, if◌then◌else◌,
}
use g_micor.Base.Bytes.{Bytes, codes}
use g_micor.Base.Decimal.{is_digit, decimal, spelled, AllDigits, spelled-decimal, decimal-AllDigits}

abbrev pub dollar : ℕ
dollar = b'$'

-- fmt.Sprintf("$%d", i)
abbrev pub placeholder : ℕ → Bytes
placeholder i = dollar ∷ decimal i

-- strings.Join
unfoldable pub join : Bytes → List Bytes → Bytes
join sep [] = []
join sep (p ∷ []) = p
join sep (p ∷ q ∷ ps) = p ++ (sep ++ join sep (q ∷ ps))

-- The numbers of the placeholders of a text, in the order in which they stand. The second argument
-- is the placeholder being read, if the text before ends in one.
lex : Bytes → Option ℕ → List ℕ
lex [] none = []
lex [] (some n) = n ∷ []
lex (c ∷ s) none = if c == dollar then lex s (some 0) else lex s none
lex (c ∷ s) (some n) =
    let digit = lex s (some (n * 10 + (c - b'0'))) in
    let next = lex s (some 0) in
    let text = lex s none in
    if is_digit c then digit else if c == dollar then n ∷ next else n ∷ text

unfoldable pub placeholders : Bytes → List ℕ
unfolding lex
placeholders s = lex s none

pub placeholders-nil : placeholders [] ≡ []
unfolding placeholders lex
placeholders-nil = refl

-- a, a + 1, …, n numbers
abbrev pub range : ℕ → ℕ → List ℕ
range a zero = []
range a (suc n) = a ∷ range (suc a) n

-- A text with no placeholder, and no digit at its start.
abbrev pub NoDollar : Bytes → Type 0
NoDollar = All (λ c. c ≢ dollar)

abbrev pub first_digit : Bytes → Bool
first_digit [] = false
first_digit (c ∷ s) = is_digit c

pub range-append : (a m n : ℕ) → range a m ++ range (a + m) n ≡ range a (m + n)
range-append a zero n = rw (add-zero a, add.zero n)
range-append a (suc m) n = rw (add.suc m n) (
    ap (λ xs. a ∷ xs)
      (ap (λ k. range (suc a) m ++ range k n) (omega arith) ∙ range-append (suc a) m n))

-- A number goes on as long as digits follow.
lex-AllDigits :
    (ds : Bytes) (n : ℕ) (s : Bytes)
    → AllDigits ds
    → lex (ds ++ s) (some n) ≡ lex s (some (spelled n ds))
unfolding lex
lex-AllDigits [] n s h = refl
lex-AllDigits (d ∷ ds) n s h = ground (arith, lex-AllDigits ds (n * 10 + (d - b'0')) s h.1)

-- A number ends before text that does not go on with a digit.
lex-some : (n : ℕ) (s : Bytes) → first_digit s ≡ false → lex s (some n) ≡ n ∷ lex s none
unfolding lex
lex-some n [] h = refl
lex-some n (c ∷ s) h = ground arith

pub placeholders-placeholder :
    (i : ℕ) (s : Bytes)
    → first_digit s ≡ false
    → placeholders (placeholder i ++ s) ≡ i ∷ placeholders s
unfolding placeholders lex
placeholders-placeholder i s h =
    lex-AllDigits (decimal i) 0 s (decimal-AllDigits i) ∙ rw (spelled-decimal i) (lex-some i s h)

pub placeholders-NoDollar : (t s : Bytes) → NoDollar t → placeholders (t ++ s) ≡ placeholders s
unfolding placeholders lex
placeholders-NoDollar [] s h = refl
placeholders-NoDollar (c ∷ t) s h = ground (arith, placeholders-NoDollar t s h.1)

lex-append :
    (t s : Bytes) (reading : Option ℕ)
    → first_digit s ≡ false
    → lex (t ++ s) reading ≡ lex t reading ++ lex s none
unfolding lex
lex-append [] s none h = refl
lex-append [] s (some n) h = lex-some n s h
lex-append (c ∷ t) s none h = ground (arith, lex-append t s (some 0) h, lex-append t s none h)
lex-append (c ∷ t) s (some n) h = ground (
  arith,
  lex-append t s (some (n * 10 + (c - b'0'))) h,
  lex-append t s (some 0) h,
  lex-append t s none h,
)

pub placeholders-append :
    (t s : Bytes) → first_digit s ≡ false → placeholders (t ++ s) ≡ placeholders t ++ placeholders s
unfolding placeholders
placeholders-append t s h = lex-append t s none h

-- Text without placeholders behind a text adds none.
pub placeholders-append_NoDollar :
    (t s : Bytes) → first_digit s ≡ false → NoDollar s → placeholders (t ++ s) ≡ placeholders t
placeholders-append_NoDollar t s h k =
    placeholders-append t s h
    ∙ ap (◌++◌ (placeholders t))
        (ap placeholders (sym (append-nil s)) ∙ placeholders-NoDollar s [] k ∙ placeholders-nil)
    ∙ append-nil (placeholders t)

pub placeholders_none : (s : Bytes) → NoDollar s → placeholders s ≡ []
placeholders_none s h =
    ap placeholders (sym (append-nil s)) ∙ placeholders-NoDollar s [] h ∙ placeholders-nil

pub placeholders_one : (i : ℕ) → placeholders (placeholder i) ≡ i ∷ []
placeholders_one i =
    ap placeholders (sym (append-nil (placeholder i)))
    ∙ placeholders-placeholder i [] refl
    ∙ ap (λ xs. i ∷ xs) placeholders-nil

-- Parts joined by commas have the placeholders of each.
pub placeholders-join_cons :
    (t : Bytes) (ps : List Bytes)
    → placeholders (join (codes ", ") (t ∷ ps))
      ≡ placeholders t ++ placeholders (join (codes ", ") ps)
unfolding join
placeholders-join_cons t [] = sym (rw placeholders-nil (append-nil (placeholders t)))
placeholders-join_cons t (p ∷ ps) =
    placeholders-append t _ refl
    ∙ ap (◌++◌ (placeholders t)) (placeholders-NoDollar (codes ", ") _ (omega arith))
