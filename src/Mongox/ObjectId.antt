-- ===== src/Mongox/ObjectId.antt =====
-- mongox/objectId.go: the object id of a time, in seconds since 1970.
use g_micor.Base.{
  ℕ, ◌≡◌, refl, ap, ◌∙◌, Bool, false, ◌&&◌, ◌||◌, [], ◌∷◌, ◌==◌, ltb, ◌<◌, ◌+◌, ◌*◌, ◌^◌, ◌%◌, ◌/◌,
  ◌-◌, arith,
}
use g_micor.Base.Bytes.{Bytes}
use g_micor.Base.Int.{ℤ, pos, negsuc}

-- uint32(n) of an int64
unfoldable pub uint32 : ℤ → ℕ
uint32 (pos n) = n % 2 ^ 32
uint32 (negsuc n) = (2 ^ 32 - 1) - n % 2 ^ 32

-- `binary.BigEndian.PutUint32`
unfoldable pub big_endian : ℕ → Bytes → Bytes
big_endian n rest = n / 2 ^ 24 % 256 ∷ n / 2 ^ 16 % 256 ∷ n / 2 ^ 8 % 256 ∷ n % 256 ∷ rest

-- `TimeToObjectId`
unfoldable pub time_to_object_id : ℤ → Bytes
unfolding uint32 big_endian
time_to_object_id seconds = big_endian (uint32 seconds) (0 ∷ 0 ∷ 0 ∷ 0 ∷ 0 ∷ 0 ∷ 0 ∷ 0 ∷ [])

-- The order of MongoDB on object ids.
unfoldable pub before : Bytes → Bytes → Bool
before [] ys = false
before (x ∷ xs) [] = false
before (x ∷ xs) (y ∷ ys) = let rest = before xs ys in ltb x y || (x == y && rest)

-- A digit before the others.
digit8 :
    (x y r s : ℕ)
    → r < 256
    → s < 256
    → (ltb x y || (x == y && ltb r s)) ≡ ltb (x * 256 + r) (y * 256 + s)
digit8 x y r s hr hs = ground arith

digit16 :
    (x y r s : ℕ)
    → r < 2 ^ 16
    → s < 2 ^ 16
    → (ltb x y || (x == y && ltb r s)) ≡ ltb (x * 2 ^ 16 + r) (y * 2 ^ 16 + s)
digit16 x y r s hr hs = ground arith

digit24 :
    (x y r s : ℕ)
    → r < 2 ^ 24
    → s < 2 ^ 24
    → (ltb x y || (x == y && ltb r s)) ≡ ltb (x * 2 ^ 24 + r) (y * 2 ^ 24 + s)
digit24 x y r s hr hs = ground arith

digits :
    (n : ℕ)
    → n < 2 ^ 32
    → n / 2 ^ 24 % 256 * 2 ^ 24 + (n / 2 ^ 16 % 256 * 2 ^ 16 + (n / 2 ^ 8 % 256 * 256 + n % 256))
      ≡ n
digits n h = omega arith

last_digit : (x y : ℕ) (b : Bool) → b ≡ false → (ltb x y || (x == y && b)) ≡ ltb x y
last_digit x y b e = ground arith

same_ltb : {a b m n : ℕ} → a ≡ m → b ≡ n → ltb a b ≡ ltb m n
same_ltb {b = b} {m = m} e h = ap (λ k. ltb k b) e ∙ ap (ltb m) h

before_step :
    (x y v w : ℕ) {b c : Bool}
    → (ltb x y || (x == y && c)) ≡ ltb v w
    → b ≡ c
    → (ltb x y || (x == y && b)) ≡ ltb v w
before_step x y v w e h = ap (λ b. ltb x y || (x == y && b)) h ∙ e

before-big_endian :
    (m n : ℕ) (rest : Bytes)
    → m < 2 ^ 32
    → n < 2 ^ 32
    → before rest rest ≡ false
    → before (big_endian m rest) (big_endian n rest) ≡ ltb m n
unfolding before big_endian
before-big_endian m n rest hm hn same =
    before_step (n3 m) (n3 n) _ _
      (digit24 (n3 m) (n3 n) (n2 m * 2 ^ 16 + (n1 m * 256 + n0 m))
        (n2 n * 2 ^ 16 + (n1 n * 256 + n0 n)) (omega arith) (omega arith))
      (before_step (n2 m) (n2 n) _ _
        (digit16 (n2 m) (n2 n) (n1 m * 256 + n0 m) (n1 n * 256 + n0 n) (omega arith) (omega arith))
        (before_step (n1 m) (n1 n) _ _
          (digit8 (n1 m) (n1 n) (n0 m) (n0 n) (omega arith) (omega arith))
          (last_digit (n0 m) (n0 n) (before rest rest) same)))
    ∙ same_ltb (digits m hm) (digits n hn)
  where
    n3 : ℕ → ℕ
    n3 k = k / 2 ^ 24 % 256

    n2 : ℕ → ℕ
    n2 k = k / 2 ^ 16 % 256

    n1 : ℕ → ℕ
    n1 k = k / 2 ^ 8 % 256

    n0 : ℕ → ℕ
    n0 k = k % 256

-- For times from 1970 on and less than 2 to the 32nd seconds later the object ids of times come in the order
-- of the times.
pub before-time_to_object_id :
    (s t : ℕ)
    → s < 2 ^ 32
    → t < 2 ^ 32
    → before (time_to_object_id (pos s)) (time_to_object_id (pos t)) ≡ ltb s t
unfolding time_to_object_id uint32 before
before-time_to_object_id s t hs ht =
    before-big_endian (s % 2 ^ 32) (t % 2 ^ 32) (0 ∷ 0 ∷ 0 ∷ 0 ∷ 0 ∷ 0 ∷ 0 ∷ 0 ∷ []) (omega arith)
      (omega arith) zeros
    ∙ same_ltb (omega arith) (omega arith)
  where
    zeros : before (0 ∷ 0 ∷ 0 ∷ 0 ∷ 0 ∷ 0 ∷ 0 ∷ 0 ∷ []) (0 ∷ 0 ∷ 0 ∷ 0 ∷ 0 ∷ 0 ∷ 0 ∷ 0 ∷ []) ≡ false
    zeros = refl
