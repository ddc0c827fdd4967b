-- ===== src/Security/Tests.antt =====
-- security/凭证.go: a token of two bytes, with a signature that stands for an HMAC.
use g_micor.Base.{◌≡◌, refl, some, [], ◌∷◌, ◌++◌, arith}
use g_micor.Base.Bytes.{Bytes, codes}
use g_micor.Security.Base64.{encoding, decoding}
use g_micor.Security.Token.{Codec, accepted, new_token, verify_token}
use g_micor.Security.Token.Laws.{verify_token-new_token, accepted-IsSigned}

abbrev bytes_codec : Codec Bytes
bytes_codec = record {
  marshal = λ body. some body;
  unmarshal = λ bytes. some bytes;
  sign = λ key bytes. key ++ bytes;
}

abbrev hi : Bytes
hi = 104 ∷ 105 ∷ []

abbrev key : Bytes
key = 107 ∷ []

hi_token : new_token bytes_codec hi key ≡ some (codes "aGk.a2hp")
unfolding new_token encoding
hi_token = refl

decoding_breaks : decoding (codes "aG" ++ 10 ∷ codes "k") ≡ some hi
unfolding decoding
decoding_breaks = refl

verify_token-new_token_example :
    (token : Bytes) × (new_token bytes_codec hi key ≡ some token)
    × (verify_token bytes_codec token key ≡ accepted hi)
verify_token-new_token_example =
    verify_token-new_token bytes_codec hi key hi refl refl (omega arith) (omega arith)

hi_accepted : verify_token bytes_codec (codes "aGk.a2hp") key ≡ accepted hi
unfolding verify_token encoding decoding
hi_accepted = refl

accepted-IsSigned_example :
    (part bytes : Bytes) × (codes "aGk.a2hp" ≡ part ++ b'.' ∷ encoding (key ++ bytes))
    × (decoding part ≡ some bytes)
    × (some bytes ≡ some hi)
accepted-IsSigned_example = accepted-IsSigned bytes_codec (codes "aGk.a2hp") key hi hi_accepted
