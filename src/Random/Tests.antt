-- ===== src/Random/Tests.antt =====
-- util/random/uuid.go: two UUIDs that differ behind their first eight bytes.
use g_micor.Base.{ℕ, ◌≡◌, refl, [], ◌∷◌, take, All, ◌<◌, ◌↔◌, arith}
use g_micor.Base.Bytes.{Bytes, codes}
use g_micor.Random.{short_uuid, encode, char_at, short_uuid_iff}

abbrev uuid : ℕ → Bytes
uuid last = 0 ∷ 61 ∷ 62 ∷ 255 ∷ 1 ∷ 2 ∷ 3 ∷ 4 ∷ last ∷ 6 ∷ []

text : short_uuid (uuid 5) ≡ codes "00z0017410203040"
unfolding short_uuid encode char_at
text = refl

short_uuid_iff_example :
    (short_uuid (uuid 5) ≡ short_uuid (uuid 9)) ↔ (take 8 (uuid 5) ≡ take 8 (uuid 9))
short_uuid_iff_example = short_uuid_iff (uuid 5) (uuid 9) five nine
  where
    five : All (λ b. b < 256) (uuid 5)
    five = (
      omega arith,
      (
        omega arith,
        (
          omega arith,
          (
            omega arith,
            (
              omega arith,
              (omega arith, (omega arith, (omega arith, (omega arith, (omega arith, tt))))),
            ),
          ),
        ),
      ),
    )

    nine : All (λ b. b < 256) (uuid 9)
    nine = (
      omega arith,
      (
        omega arith,
        (
          omega arith,
          (
            omega arith,
            (
              omega arith,
              (omega arith, (omega arith, (omega arith, (omega arith, (omega arith, tt))))),
            ),
          ),
        ),
      ),
    )
