-- ===== src/Random.antt =====
-- util/random/uuid.go: the shorter text of a UUID.
mod Tests
use g_micor.Base.{
  ℕ, zero, suc, ◌≡◌, refl, ap, sym, ◌∙◌, Bool, true, false, ◌&&◌, List, [], ◌∷◌, take, All, ◌*◌,
  ◌+◌, ◌%◌, ◌/◌, ◌<◌, ◌≤◌, ◌==◌, ==_iff, arith, get_or, drop, subst, Bool-cases, inl, inr, ◌↔◌,
  if◌then◌else◌,
}
use g_micor.Base.Bytes.{Bytes, codes}

abbrev pub base62_chars : Bytes
base62_chars = codes "0123456789ABCDEFGHIJKLMNOPQRSTUVWXYZabcdefghijklmnopqrstuvwxyz"

-- base62Chars[i]
unfoldable pub char_at : ℕ → ℕ
char_at i = get_or base62_chars i 0

-- The loop over the bytes.
unfoldable pub encode : Bytes → Bytes
unfolding char_at
encode [] = []
encode (b ∷ bytes) = char_at (b % 62) ∷ char_at (b / 62) ∷ encode bytes

-- `ShortUUID` of the bytes of a new UUID.
unfoldable pub short_uuid : Bytes → Bytes
unfolding encode
short_uuid u = take 16 (encode (take 10 u))

-- The place of a character.
index_of : ℕ → Bytes → ℕ
index_of c [] = 0
index_of c (d ∷ s) = let rest = index_of c s in if d == c then 0 else suc rest

all_below : ℕ → (ℕ → Bool) → Bool
all_below zero p = true
all_below (suc n) p = p n && all_below n p

all_below_lem : (n : ℕ) (p : ℕ → Bool) → all_below n p ≡ true → (i : ℕ) → i < n → p i ≡ true
unfolding all_below
all_below_lem zero p h i lt = absurd (omega arith)
all_below_lem (suc n) p h i lt = elim (Bool-cases (i == n)) [
  | inl e ↦ subst (λ k. p k ≡ true) (sym ((==_iff i n).0 e)) (ground arith)
  | inr e ↦ all_below_lem n p (ground arith) i (ground arith)
]

index_of-char_at : (i : ℕ) → i < 62 → index_of (char_at i) base62_chars ≡ i
unfolding index_of char_at all_below
index_of-char_at i h =
    (==_iff _ _).0 (all_below_lem 62 (λ i. index_of (char_at i) base62_chars == i) refl i h)

char_at_injective : (i j : ℕ) → i < 62 → j < 62 → char_at i ≡ char_at j → i ≡ j
char_at_injective i j hi hj e =
    sym (index_of-char_at i hi) ∙ ap (λ c. index_of c base62_chars) e ∙ index_of-char_at j hj

double : ℕ → ℕ
double zero = zero
double (suc n) = suc (suc (double n))

-- Two characters for each byte.
take-encode : (n : ℕ) (u : Bytes) → take (double n) (encode u) ≡ encode (take n u)
unfolding encode double
take-encode zero u = refl
take-encode (suc n) [] = refl
take-encode (suc n) (b ∷ u) = ap (λ s. char_at (b % 62) ∷ char_at (b / 62) ∷ s) (take-encode n u)

take-take : (n m : ℕ) (u : Bytes) → n ≤ m → take n (take m u) ≡ take n u
take-take zero m u h = refl
take-take (suc n) zero u h = absurd (omega arith)
take-take (suc n) (suc m) [] h = refl
take-take (suc n) (suc m) (b ∷ u) h = ap (λ s. b ∷ s) (take-take n m u (omega arith))

byte_of_chars :
    (b c : ℕ)
    → b < 256
    → c < 256
    → char_at (b % 62) ≡ char_at (c % 62)
    → char_at (b / 62) ≡ char_at (c / 62)
    → b ≡ c
byte_of_chars b c hb hc e h =
    let low = char_at_injective (b % 62) (c % 62) (omega arith) (omega arith) e in
    let high = char_at_injective (b / 62) (c / 62) (omega arith) (omega arith) h in omega arith

encode_injective :
    (xs ys : Bytes)
    → All (λ b. b < 256) xs
    → All (λ b. b < 256) ys
    → encode xs ≡ encode ys
    → xs ≡ ys
unfolding encode
encode_injective [] [] hx hy e = refl
encode_injective [] (c ∷ ys) hx hy e = absurd cc
encode_injective (b ∷ xs) [] hx hy e = absurd cc
encode_injective (b ∷ xs) (c ∷ ys) hx hy e =
    let same = byte_of_chars b c hx.0 hy.0 (ap (λ s. get_or s 0 0) e) (ap (λ s. get_or s 1 0) e) in
    let rest = encode_injective xs ys hx.1 hy.1 (ap (drop 2) e) in cc

take-All : (n : ℕ) (u : Bytes) → All (λ b. b < 256) u → All (λ b. b < 256) (take n u)
take-All zero u h = tt
take-All (suc n) [] h = tt
take-All (suc n) (b ∷ u) h = (h.0, take-All n u h.1)

short_uuid_lem : (u : Bytes) → short_uuid u ≡ encode (take 8 u)
unfolding short_uuid double
short_uuid_lem u = take-encode 8 (take 10 u) ∙ ap encode (take-take 8 10 u (omega arith))

-- Two UUIDs have the same short text exactly if their first eight bytes are the same.
pub short_uuid_iff :
    (u v : Bytes)
    → All (λ b. b < 256) u
    → All (λ b. b < 256) v
    → (short_uuid u ≡ short_uuid v) ↔ (take 8 u ≡ take 8 v)
short_uuid_iff u v hu hv = (
  λ e.
      encode_injective (take 8 u) (take 8 v) (take-All 8 u hu) (take-All 8 v hv)
        (sym (short_uuid_lem u) ∙ e ∙ short_uuid_lem v),
  λ e. short_uuid_lem u ∙ ap encode e ∙ sym (short_uuid_lem v),
)
