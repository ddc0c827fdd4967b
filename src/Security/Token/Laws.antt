-- ===== src/Security/Token/Laws.antt =====
-- security/凭证.go: which tokens are accepted.
use g_micor.Base.{
  ◌≡◌, refl, ap, sym, ◌∙◌, inl, inr, some, Option-cases, Bool-cases, List, [], ◌∷◌, ◌++◌, All,
  arith,
}
use g_micor.Base.Bytes.{Bytes}
use g_micor.Base.Split.{split, split-append, joined, joined-split}
use g_micor.Security.Base64.{encoding, decoding, IsByte, encoding-IsPartByte, decoding-encoding}
use g_micor.Base.Names.{bytes_eq, bytes_eq_refl, bytes_eq→eq}
use g_micor.Security.Token.{Codec, accepted, new_token, verify_parts, verify_token}

module _ {M : Type 0} (codec : Codec M) where
  -- A token of two encoded parts is accepted or refused by its second part.
  verify_two :
      (bytes mac key : Bytes)
      → All IsByte bytes
      → All IsByte mac
      → verify_token codec (encoding bytes ++ b'.' ∷ encoding mac) key
        ≡ verify_parts codec (encoding bytes) (encoding mac ∷ []) key
  unfolding verify_token
  verify_two bytes mac key h k =
      rw
        (split-append b'.' (encoding bytes) (encoding mac) (encoding-IsPartByte bytes h)
          (encoding-IsPartByte mac k))
        refl

  -- A token that is made of a message verifies under its key as the message, if Protobuf reads back what
  -- it wrote.
  pub verify_token-new_token :
      (body : M) (key bytes : Bytes)
      → codec.marshal body ≡ some bytes
      → codec.unmarshal bytes ≡ some body
      → All IsByte bytes
      → All IsByte (codec.sign key bytes)
      → (token : Bytes) × (new_token codec body key ≡ some token)
        × (verify_token codec token key ≡ accepted body)
  unfolding new_token verify_parts
  verify_token-new_token body key bytes wrote reads h k =
      (_, rw (wrote, new_token) refl, verify_two bytes (codec.sign key bytes) key h k ∙ verified)
    where
      verified :
          verify_parts codec (encoding bytes) (encoding (codec.sign key bytes) ∷ []) key
          ≡ accepted body
      verified =
          ground (arith, decoding-encoding bytes h, bytes_eq_refl (encoding (codec.sign key bytes)))

  signed_parts :
      (part : Bytes) (parts : List Bytes) (key : Bytes) (body : M)
      → verify_parts codec part parts key ≡ accepted body
      → (bytes : Bytes) × (parts ≡ encoding (codec.sign key bytes) ∷ [])
        × (decoding part ≡ some bytes)
        × (codec.unmarshal bytes ≡ some body)
  unfolding verify_parts
  signed_parts part [] key body h = absurd cc
  signed_parts part (signature ∷ []) key body h = elim (Option-cases (decoding part)) [
    | inl e ↦ absurd (ground arith)
    | inr (bytes, e) ↦ elim (Bool-cases (bytes_eq (encoding (codec.sign key bytes)) signature)) [
      | inl same ↦ (
        bytes,
        ap (λ x. x ∷ []) (sym (bytes_eq→eq (encoding (codec.sign key bytes)) signature same)),
        e,
        ground arith,
      )
      | inr other ↦ absurd (ground arith)
    ]
  ]
  signed_parts part (signature ∷ next ∷ parts) key body h = absurd cc

  -- A token that is accepted is a text that decodes to data of the message, a point, and the signature of the data
  -- under the key: nothing is accepted without it.
  pub accepted-IsSigned :
      (token key : Bytes) (body : M)
      → verify_token codec token key ≡ accepted body
      → (part bytes : Bytes) × (token ≡ part ++ b'.' ∷ encoding (codec.sign key bytes))
        × (decoding part ≡ some bytes)
        × (codec.unmarshal bytes ≡ some body)
  unfolding verify_token
  accepted-IsSigned token key body h =
      let (bytes, two, decodes, reads) =
        signed_parts (split b'.' token).0 (split b'.' token).1 key body h in
      (
        (split b'.' token).0,
        bytes,
        sym (joined-split b'.' token) ∙ ap (joined b'.' (split b'.' token).0) two,
        decodes,
        reads,
      )

  -- A token has more than one text: one with a line break before it is accepted or refused as the token is.
  pub break_ignored :
      (token key : Bytes) → verify_token codec (10 ∷ token) key ≡ verify_token codec token key
  unfolding verify_token split verify_parts decoding
  break_ignored token key = same (split b'.' token).0 (split b'.' token).1
    where
      same :
          (part : Bytes) (parts : List Bytes)
          → verify_parts codec (10 ∷ part) parts key ≡ verify_parts codec part parts key
      same part [] = refl
      same part (signature ∷ []) = refl
      same part (signature ∷ next ∷ parts) = refl
