-- ===== src/Security/Token.antt =====
-- security/凭证.go: making tokens and verifying them. Protobuf's messages and the HMAC are arguments.
pub mod Laws
use g_micor.Base.{
  ℕ, ◌≡◌, Bool, true, false, ◌&&◌, Option, none, some, List, [], ◌∷◌, ◌++◌, ◌==◌, if◌then◌else◌,
}
use g_micor.Base.Names.{bytes_eq}
use g_micor.Base.Bytes.{Bytes}
use g_micor.Base.Split.{split}
use g_micor.Security.Base64.{encoding, decoding}

-- `proto.Marshal` and `proto.Unmarshal` for one type of messages, where `none` is an error, and the
-- HMAC of data under a key.
pub record Codec (M : Type 0) : Type 0 where
  pub marshal : M → Option Bytes
  pub unmarshal : Bytes → Option M
  pub sign : (key : Bytes) → Bytes → Bytes

pub data TokenError : Type 0 where
  invalid_format : TokenError
  invalid_body : TokenError
  invalid_signature : TokenError
  unmarshal_failed : TokenError

-- What `VerifyToken` comes to: an error, or a message in its target.
pub data Verdict (M : Type 0) : Type 0 where
  accepted : M → Verdict M
  refused : TokenError → Verdict M

module _ {M : Type 0} (codec : Codec M) where
  -- `NewToken`
  unfoldable pub new_token : M → (key : Bytes) → Option Bytes
  new_token body key = elim (codec.marshal body) [
    | none ↦ none
    | some bytes ↦ some (encoding bytes ++ b'.' ∷ encoding (codec.sign key bytes))
  ]

  abbrev pub unmarshal_body : Bytes → Verdict M
  unmarshal_body bytes = elim (codec.unmarshal bytes) [
    | none ↦ refused unmarshal_failed
    | some body ↦ accepted body
  ]

  -- `VerifyToken` behind the splitting
  unfoldable pub verify_parts : Bytes → List Bytes → (key : Bytes) → Verdict M
  unfolding bytes_eq
  verify_parts body [] key = refused invalid_format
  verify_parts body (signature ∷ []) key = elim (decoding body) [
    | none ↦ refused invalid_body
    | some bytes ↦
        -- `hmac.Equal`
        if bytes_eq (encoding (codec.sign key bytes)) signature
        then unmarshal_body bytes
        else refused invalid_signature
  ]
  verify_parts body (signature ∷ part ∷ parts) key = refused invalid_format

  unfoldable pub verify_token : (token key : Bytes) → Verdict M
  unfolding split verify_parts
  verify_token token key = let (part, parts) = split b'.' token in verify_parts part parts key
