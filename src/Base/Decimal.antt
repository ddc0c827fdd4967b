-- ===== src/Base/Decimal.antt =====
-- The decimal print of `fmt.Sprintf("%d")` and `strconv`, and its value.
use Prim.Native.Nat.{ℕ, zero, suc, ◌+◌, ◌-◌, ◌*◌, ◌/◌, ◌%◌, ◌≤◌}
use mathlib.Core.Path.{◌≡◌}
use mathlib.Core.Logic.{◌≢◌}
use mathlib.Core.Bool.{Bool, true, ◌&&◌}
use mathlib.Core.List.{[], ◌∷◌}
use native.Mathlib.Omega.{arith}
use g_micor.Base.Tests.{leb, ◌==◌, if◌then◌else◌}
use g_micor.Base.Lists.{All, length}
use g_micor.Base.Bytes.{Bytes}

abbrev pub is_digit : ℕ → Bool
is_digit c = leb b'0' c && leb c b'9'

-- Digits in front of `out`, a round for each while `n` is not 0; `n` rounds are enough.
digits : ℕ → ℕ → Bytes → Bytes
digits zero n out = out
digits (suc rounds) n out =
    let more = digits rounds (n / 10) ((b'0' + n % 10) ∷ out) in if n == 0 then out else more

unfoldable pub decimal : ℕ → Bytes
unfolding digits
decimal n = if n == 0 then b'0' ∷ [] else digits n n []

-- The number that digits spell behind `n`.
abbrev pub spelled : ℕ → Bytes → ℕ
spelled n [] = n
spelled n (c ∷ s) = spelled (n * 10 + (c - b'0')) s

abbrev pub AllDigits : Bytes → Type 0
AllDigits = All (λ c. is_digit c ≡ true)

spelled-digits :
    (rounds n : ℕ) (out : Bytes) → n ≤ rounds → spelled 0 (digits rounds n out) ≡ spelled n out
unfolding digits
spelled-digits zero n out h = ground arith
spelled-digits (suc rounds) n out h =
    ground (arith, spelled-digits rounds (n / 10) ((b'0' + n % 10) ∷ out))

digits-AllDigits : (rounds n : ℕ) (out : Bytes) → AllDigits out → AllDigits (digits rounds n out)
unfolding digits
digits-AllDigits zero n out h = h
digits-AllDigits (suc rounds) n out h =
    ground (arith, digits-AllDigits rounds (n / 10) ((b'0' + n % 10) ∷ out))

pub spelled-decimal : (n : ℕ) → spelled 0 (decimal n) ≡ n
unfolding decimal
spelled-decimal n = ground (arith, spelled-digits n n [])

pub decimal-AllDigits : (n : ℕ) → AllDigits (decimal n)
unfolding decimal
decimal-AllDigits n = ground (arith, digits-AllDigits n n [])

length-digits-le : (rounds n : ℕ) (out : Bytes) → length out ≤ length (digits rounds n out)
unfolding digits
length-digits-le zero n out = omega arith
length-digits-le (suc rounds) n out =
    ground (arith, length-digits-le rounds (n / 10) ((b'0' + n % 10) ∷ out))

pub decimal-ne-nil : (n : ℕ) → decimal n ≢ []
unfolding decimal
decimal-ne-nil zero = λ e. cc
decimal-ne-nil (suc n) =
    λ e. ground (arith, length-digits-le n (suc n / 10) ((b'0' + suc n % 10) ∷ []))
