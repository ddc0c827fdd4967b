-- ===== src/Gen/Lines.antt =====
-- gen.go: the lines of a proto file as a printer writes them, and what the regular expressions read of one.
use g_micor.Base.{
  ℕ, ◌≡◌, ◌≢◌, refl, ap, ◌∙◌, true, false, some, List, [], ◌∷◌, ◌++◌, map, All, arith,
}
use g_micor.Base.Bytes.{Bytes, codes}
use g_micor.Gen.Scan.{
  is_space, is_word, is_trimmed, skip_spaces, take_word, take_text, take_word_and, match_rpc,
  put_before, trim_left, trim_right, trim_space,
}

-- The lines of a service with methods: a name, the type that it takes and the one that it returns.
abbrev pub service_line : Bytes → Bytes
service_line name = codes "service " ++ (name ++ codes " {")

abbrev pub rpc_text : Bytes × Bytes × Bytes → Bytes
rpc_text (name, param, result) =
    codes "rpc "
    ++ (name ++ (codes " (" ++ (param ++ (codes ") returns (" ++ (result ++ codes ");")))))

abbrev pub proto_lines : Bytes → List (Bytes × Bytes × Bytes) → List Bytes
proto_lines name methods =
    service_line name ∷ map (λ m. codes "  " ++ rpc_text m) methods ++ codes "}" ∷ []

-- A word of at least one character.
abbrev pub IsName : Bytes → Type 0
IsName [] = ⊥
IsName (c ∷ s) = All (λ d. is_word d ≡ true) (c ∷ s)

abbrev pub AreNames : Bytes × Bytes × Bytes → Type 0
AreNames (name, param, result) = IsName name × IsName param × IsName result

take_word-append :
    (w : Bytes) (c : ℕ) (s : Bytes)
    → All (λ d. is_word d ≡ true) w
    → is_word c ≡ false
    → take_word (w ++ c ∷ s) ≡ (w, c ∷ s)
unfolding take_word
take_word-append [] c s h other = rw other refl
take_word-append (d ∷ w) c s h other = rw (h.0, take_word-append w c s h.1 other) refl

pub skip_spaces-name : (w s : Bytes) → IsName w → skip_spaces (w ++ s) ≡ w ++ s
unfolding skip_spaces is_space is_word
skip_spaces-name [] s h = absurd h
skip_spaces-name (d ∷ w) s h = ground arith

pub take_word_and-name :
    (text w : Bytes) (c : ℕ) (s behind : Bytes)
    → IsName w
    → is_word c ≡ false
    → take_text text (skip_spaces (c ∷ s)) ≡ some behind
    → take_word_and text (w ++ c ∷ s) ≡ some (w, behind)
unfolding take_word_and
take_word_and-name text [] c s behind h other found = absurd h
take_word_and-name text (d ∷ w) c s behind h other found =
    ground (arith, take_word-append (d ∷ w) c s h other)

-- A text that ends with what is not taken off.
unfoldable pub Kept : Bytes → Type 0
Kept s = (trim_right s ≡ s) × (s ≢ [])

Kept-cons : (c : ℕ) (s : Bytes) → Kept s → Kept (c ∷ s)
unfolding Kept trim_right put_before
Kept-cons c [] h = absurd (h.1 refl)
Kept-cons c (d ∷ s) h = (ap (put_before c) h.0, λ e. cc)

pub Kept-append : (x y : Bytes) → Kept y → Kept (x ++ y)
Kept-append [] y h = h
Kept-append (c ∷ x) y h = Kept-cons c (x ++ y) (Kept-append x y h)

rpc-Kept : (m : Bytes × Bytes × Bytes) → Kept (rpc_text m)
unfolding Kept trim_right put_before is_trimmed is_space
rpc-Kept (name, param, result) = Kept-append (codes "rpc ") _ (
    Kept-append name _ (
      Kept-append (codes " (") _ (
        Kept-append param _
          (Kept-append (codes ") returns (") _ (Kept-append result (codes ");") end)))))
  where
    end : Kept (codes ");")
    end = (refl, λ e. cc)

module _ (name param result : Bytes) (h : AreNames (name, param, result)) where
  gives : Bytes
  gives = result ++ codes ");"

  takes : Bytes
  takes = param ++ (codes ") returns (" ++ gives)

  starts :
      take_text (codes "rpc") (skip_spaces (rpc_text (name, param, result)))
      ≡ some (b' ' ∷ (name ++ (codes " (" ++ takes)))
  unfolding takes gives take_text skip_spaces is_space
  starts = refl

  named : take_word_and (codes "(") (name ++ (codes " (" ++ takes)) ≡ some (name, takes)
  unfolding is_word take_text skip_spaces is_space
  named = take_word_and-name (codes "(") name b' ' (b'(' ∷ takes) takes h.0 refl refl

  param_read :
      take_word_and (codes ")") (skip_spaces takes) ≡ some (param, codes " returns (" ++ gives)
  unfolding takes is_word take_text skip_spaces is_space
  param_read =
      ap (take_word_and (codes ")")) (skip_spaces-name param _ h.1)
      ∙ take_word_and-name (codes ")") param b')' (codes " returns (" ++ gives)
          (codes " returns (" ++ gives) h.1 refl refl

  result_read : take_word_and (codes ")") (skip_spaces gives) ≡ some (result, codes ";")
  unfolding gives is_word take_text skip_spaces is_space
  result_read =
      ap (take_word_and (codes ")")) (skip_spaces-name result _ h.2)
      ∙ take_word_and-name (codes ")") result b')' (codes ";") (codes ";") h.2 refl refl

pub match_rpc-text : (m : Bytes × Bytes × Bytes) → AreNames m → match_rpc (rpc_text m) ≡ some m
unfolding match_rpc gives takes
match_rpc-text (name, param, result) h =
    rw
      (
        skip_spaces-name name (b' ' ∷ b'(' ∷ takes name param result h) h.0,
        named name param result h,
        param_read name param result h,
        result_read name param result h,
      )
      refl

pub trim_space-rpc :
    (m : Bytes × Bytes × Bytes) → trim_space (codes "  " ++ rpc_text m) ≡ rpc_text m
unfolding Kept trim_space trim_left is_trimmed is_space
trim_space-rpc m = (rpc-Kept m).0
