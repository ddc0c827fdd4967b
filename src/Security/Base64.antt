-- ===== src/Security/Base64.antt =====
-- security/凭证.go, `encoding` and `decoding`: base64 in the alphabet for URLs, without padding, as encoding/base64
-- does it. It skips line breaks, and does not look at the bits that are left over at the end.
use g_micor.Base.{
  ℕ, ◌+◌, ◌-◌, ◌*◌, ◌/◌, ◌%◌, ◌<◌, ◌≡◌, refl, ap, false, ◌&&◌, ◌||◌, Option, none, some, List, [],
  ◌∷◌, map, All, ◌==◌, ltb, leb, if◌then◌else◌, arith,
}
use g_micor.Base.Bytes.{Bytes}

unfoldable pub encode_char : ℕ → ℕ
encode_char n =
    if ltb n 26
    then n + 65
    else if ltb n 52
    then n + 71
    else if ltb n 62
    then n - 4
    else if n == 62
    then b'-'
    else b'_'

unfoldable pub decode_char : ℕ → Option ℕ
decode_char c =
    if leb b'A' c && leb c b'Z'
    then some (c - 65)
    else if leb b'a' c && leb c b'z'
    then some (c - 71)
    else if leb b'0' c && leb c b'9'
    then some (c + 4)
    else if c == b'-'
    then some 62
    else if c == b'_'
    then some 63
    else none

-- The digits of 6 bits of each 3 bytes, and of what is left.
unfoldable pub to_digits : Bytes → List ℕ
to_digits [] = []
to_digits (a ∷ []) = a / 4 ∷ a % 4 * 16 ∷ []
to_digits (a ∷ b ∷ []) = a / 4 ∷ (a % 4 * 16 + b / 16) ∷ b % 16 * 4 ∷ []
to_digits (a ∷ b ∷ c ∷ rest) =
    a / 4 ∷ (a % 4 * 16 + b / 16) ∷ (b % 16 * 4 + c / 64) ∷ c % 64 ∷ to_digits rest

-- The bytes of each 4 digits, and of what is left; one digit alone is an error.
unfoldable pub from_digits : List ℕ → Option Bytes
from_digits [] = some []
from_digits (p ∷ []) = none
from_digits (p ∷ q ∷ []) = some ((p * 4 + q / 16) ∷ [])
from_digits (p ∷ q ∷ r ∷ []) = some ((p * 4 + q / 16) ∷ (q % 16 * 16 + r / 4) ∷ [])
from_digits (p ∷ q ∷ r ∷ s ∷ rest) = elim (from_digits rest) [
  | none ↦ none
  | some bytes ↦ some ((p * 4 + q / 16) ∷ (q % 16 * 16 + r / 4) ∷ (r % 4 * 64 + s) ∷ bytes)
]

unfoldable pub decode_chars : Bytes → Option (List ℕ)
decode_chars [] = some []
decode_chars (c ∷ s) = elim (decode_char c) [
  | none ↦ none
  | some n ↦ elim (decode_chars s) [ none ↦ none | some ns ↦ some (n ∷ ns) ]
]

unfoldable pub without_breaks : Bytes → Bytes
without_breaks [] = []
without_breaks (c ∷ s) =
    let rest = without_breaks s in if c == 10 || c == 13 then rest else c ∷ rest

unfoldable pub encoding : Bytes → Bytes
unfolding to_digits encode_char
encoding bytes = map encode_char (to_digits bytes)

unfoldable pub decoding : Bytes → Option Bytes
unfolding decode_chars without_breaks from_digits decode_char
decoding s = elim (decode_chars (without_breaks s)) [ none ↦ none | some ns ↦ from_digits ns ]

abbrev pub IsDigit : ℕ → Type 0
IsDigit n = n < 64

abbrev pub IsByte : ℕ → Type 0
IsByte n = n < 256

decode_char-encode_char : (n : ℕ) → IsDigit n → decode_char (encode_char n) ≡ some n
unfolding decode_char encode_char
decode_char-encode_char n h = ground arith

pub encode_char-plain :
    (n : ℕ)
    → IsDigit n
    → ((encode_char n == 10) ≡ false)
      × ((encode_char n == 13) ≡ false)
      × ((encode_char n == b'.') ≡ false)
unfolding encode_char
encode_char-plain n h = (ground arith, ground arith, ground arith)

to_digits-IsDigit : (bytes : Bytes) → All IsByte bytes → All IsDigit (to_digits bytes)
unfolding to_digits
to_digits-IsDigit [] h = tt
to_digits-IsDigit (a ∷ []) h = (omega arith, (omega arith, tt))
to_digits-IsDigit (a ∷ b ∷ []) h = (omega arith, (omega arith, (omega arith, tt)))
to_digits-IsDigit (a ∷ b ∷ c ∷ rest) h =
    (omega arith, (omega arith, (omega arith, (omega arith, to_digits-IsDigit rest h.1.1.1))))

from_digits-to_digits :
    (bytes : Bytes) → All IsByte bytes → from_digits (to_digits bytes) ≡ some bytes
unfolding to_digits from_digits
from_digits-to_digits [] h = refl
from_digits-to_digits (a ∷ []) h = ground arith
from_digits-to_digits (a ∷ b ∷ []) h = ground arith
from_digits-to_digits (a ∷ b ∷ c ∷ rest) h = ground (arith, from_digits-to_digits rest h.1.1.1)

decode_chars-encoding : (ns : List ℕ) → All IsDigit ns → decode_chars (map encode_char ns) ≡ some ns
unfolding decode_chars
decode_chars-encoding [] h = refl
decode_chars-encoding (n ∷ ns) h =
    ground (arith, decode_char-encode_char n h.0, decode_chars-encoding ns h.1)

without_breaks-encoding :
    (ns : List ℕ) → All IsDigit ns → without_breaks (map encode_char ns) ≡ map encode_char ns
unfolding without_breaks
without_breaks-encoding [] h = refl
without_breaks-encoding (n ∷ ns) h =
    let plain = encode_char-plain n h.0 in
    rw (plain.0, plain.1) (ap (λ s. encode_char n ∷ s) (without_breaks-encoding ns h.1))

-- What is encoded is decoded as it was.
pub decoding-encoding : (bytes : Bytes) → All IsByte bytes → decoding (encoding bytes) ≡ some bytes
unfolding decoding encoding
decoding-encoding bytes h =
    let digits = to_digits-IsDigit bytes h in
    ground (
      arith,
      without_breaks-encoding (to_digits bytes) digits,
      decode_chars-encoding (to_digits bytes) digits,
      from_digits-to_digits bytes h,
    )

-- A byte that is not the point between the parts of a token.
abbrev pub IsPartByte : ℕ → Type 0
IsPartByte c = (c == b'.') ≡ false

pub encoding-IsPartByte : (bytes : Bytes) → All IsByte bytes → All IsPartByte (encoding bytes)
unfolding encoding
encoding-IsPartByte bytes h = go (to_digits bytes) (to_digits-IsDigit bytes h)
  where
    go : (ns : List ℕ) → All IsDigit ns → All IsPartByte (map encode_char ns)
    go [] d = tt
    go (n ∷ ns) d = ((encode_char-plain n d.0).2, go ns d.1)
