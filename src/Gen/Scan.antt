-- ===== src/Gen/Scan.antt =====
-- gen.go: what the generator reads from a proto file, as ASCII bytes with lines that the scanner takes, and which
-- methods it adds. The regular expressions are written out: in both, what a repetition takes cannot
-- start what follows it, so that each takes all it can.
use g_micor.Base.{
  ℕ, Bool, true, false, ◌&&◌, ◌||◌, Option, none, some, List, [], ◌∷◌, ◌++◌, ◌==◌, leb,
  if◌then◌else◌,
}
use g_micor.Base.Bytes.{Bytes, codes}
use g_micor.Base.Split.{split}

pub record MethodInfo : Type 0 where
  pub name : Bytes
  pub param_type : Bytes
  pub return_type : Bytes

pub record ProtoServiceInfo : Type 0 where
  pub service_name : Bytes
  pub methods : List MethodInfo

-- `\s` of a regular expression, `\w` of one, and what `strings.TrimSpace` takes off.
unfoldable pub is_space : ℕ → Bool
is_space c = c == b' ' || c == 9 || c == 10 || c == 12 || c == 13

unfoldable pub is_word : ℕ → Bool
is_word c =
    (leb b'0' c && leb c b'9')
    || (leb b'A' c && leb c b'Z')
    || c == b'_'
    || (leb b'a' c && leb c b'z')

unfoldable pub is_trimmed : ℕ → Bool
unfolding is_space
is_trimmed c = is_space c || c == 11

-- `\s*`
unfoldable pub skip_spaces : Bytes → Bytes
unfolding is_space
skip_spaces [] = []
skip_spaces (c ∷ s) = let rest = skip_spaces s in if is_space c then rest else c ∷ s

-- `(\w*)`: the word and what is behind it.
unfoldable pub take_word : Bytes → Bytes × Bytes
unfolding is_word
take_word [] = ([], [])
take_word (c ∷ s) =
    let (word, rest) = take_word s in if is_word c then (c ∷ word, rest) else ([], c ∷ s)

-- A literal: what is behind it.
unfoldable pub take_text : Bytes → Bytes → Option Bytes
take_text [] s = some s
take_text (c ∷ text) [] = none
take_text (c ∷ text) (d ∷ s) = let rest = take_text text s in if c == d then rest else none

-- `\s+`
unfoldable pub take_spaces : Bytes → Option Bytes
unfolding is_space skip_spaces
take_spaces [] = none
take_spaces (c ∷ s) = if is_space c then some (skip_spaces s) else none

-- `(\w+)\s*` and a literal: the word, and what is behind.
unfoldable pub take_word_and : Bytes → Bytes → Option (Bytes × Bytes)
unfolding take_word skip_spaces take_text
take_word_and text s =
    let (word, rest) = take_word s in
    elim word [
      | [] ↦ none
      | c ∷ cs ↦ elim (take_text text (skip_spaces rest)) [
        | none ↦ none
        | some behind ↦ some (c ∷ cs, behind)
      ]
    ]

infixl 5 ◌>>=◌
abbrev pub ◌>>=◌ {ℓ κ} : {A : Type ℓ} {B : Type κ} → Option A → (A → Option B) → Option B
none >>= f = none
some a >>= f = f a

-- ^\s*service\s+(\w+)\s*\{
unfoldable pub match_service : Bytes → Option Bytes
unfolding skip_spaces take_text take_spaces take_word_and
match_service line = do
  s1 ← take_text (codes "service") (skip_spaces line)
  s2 ← take_spaces s1
  named ← take_word_and (codes "{") s2
  some named.0

-- ^\s*rpc\s+(\w+)\s*\(\s*(\w+)\s*\)\s*returns\s*\(\s*(\w+)\s*\)
unfoldable pub match_rpc : Bytes → Option (Bytes × Bytes × Bytes)
unfolding skip_spaces take_text take_spaces take_word_and
match_rpc line = do
  s1 ← take_text (codes "rpc") (skip_spaces line)
  s2 ← take_spaces s1
  named ← take_word_and (codes "(") s2
  takes ← take_word_and (codes ")") (skip_spaces named.1)
  s3 ← take_text (codes "returns") (skip_spaces takes.1)
  s4 ← take_text (codes "(") (skip_spaces s3)
  gives ← take_word_and (codes ")") (skip_spaces s4)
  some (named.0, takes.0, gives.0)

-- `strings.TrimSpace`
unfoldable pub trim_left : Bytes → Bytes
unfolding is_trimmed
trim_left [] = []
trim_left (c ∷ s) = let rest = trim_left s in if is_trimmed c then rest else c ∷ s

-- A character before a text that has been trimmed.
unfoldable pub put_before : ℕ → Bytes → Bytes
unfolding is_trimmed
put_before c [] = if is_trimmed c then [] else c ∷ []
put_before c (d ∷ s) = c ∷ d ∷ s

unfoldable pub trim_right : Bytes → Bytes
unfolding put_before
trim_right [] = []
trim_right (c ∷ s) = put_before c (trim_right s)

unfoldable pub trim_space : Bytes → Bytes
unfolding trim_left trim_right
trim_space s = trim_right (trim_left s)

unfoldable pub has_prefix : Bytes → Bytes → Bool
unfolding take_text
has_prefix prefix s = elim (take_text prefix s) [ none ↦ false | some rest ↦ true ]

-- `line == "}"`
abbrev pub is_end : Bytes → Bool
is_end [] = false
is_end (c ∷ []) = c == b'}'
is_end (c ∷ d ∷ s) = false

-- A type with the package of the contract, as a pointer.
abbrev pub contract_type : Bytes → Bytes → Bytes
contract_type pkg name = b'*' ∷ (pkg ++ (codes "C." ++ name))

abbrev pub method_of : Bytes → Bytes × Bytes × Bytes → MethodInfo
method_of pkg (name, param, result) = record {
  name = name;
  param_type = contract_type pkg param;
  return_type = contract_type pkg result;
}

-- The variables of the loop over lines.
pub record ScanState : Type 0 where
  pub service_name : Bytes
  pub methods : List MethodInfo
  pub in_service : Bool

-- A line inside a service that is not its end.
unfoldable pub scan_method : Bytes → Bytes → ScanState → ScanState
unfolding match_rpc
scan_method pkg line st = elim (match_rpc line) [
  | none ↦ st
  | some found ↦ record st { methods = st.methods ++ method_of pkg found ∷ [] }
]

-- The body of the loop; `none` is its `break`.
unfoldable pub scan_line : Bytes → Bytes → ScanState → Option ScanState
unfolding has_prefix match_service scan_method
scan_line pkg line st =
    if has_prefix (codes "//") line || has_prefix (codes "/*") line
    then some st
    else elim (match_service line) [
      | some name ↦ some (record st { service_name = name; in_service = true })
      | none ↦
          if st.in_service
          then if is_end line then none else some (scan_method pkg line st)
          else some st
    ]

unfoldable pub scan_lines : Bytes → List Bytes → ScanState → ScanState
unfolding scan_line trim_space
scan_lines pkg [] st = st
scan_lines pkg (line ∷ lines) st = elim (scan_line pkg (trim_space line) st) [
  | none ↦ st
  | some st' ↦ scan_lines pkg lines st'
]

-- What is returned after the loop; `none` is nil.
abbrev pub service_info : ScanState → Option ProtoServiceInfo
service_info st = elim st.service_name [
  | [] ↦ none
  | c ∷ s ↦ some (record { service_name = c ∷ s; methods = st.methods })
]

-- `scanProtoService` of the lines of a file.
unfoldable pub scan_proto_service : Bytes → List Bytes → Option ProtoServiceInfo
unfolding scan_lines
scan_proto_service pkg lines =
    service_info
      (scan_lines pkg lines (record { service_name = []; methods = []; in_service = false }))

-- `removePackagePrefix` of a name and its parts.
unfoldable pub remove_from_parts : Bytes → Bytes × List Bytes → Bytes
unfolding has_prefix
remove_from_parts name (first, []) = name
remove_from_parts name (first, part ∷ []) =
    if has_prefix (codes "*") first then b'*' ∷ part else part
remove_from_parts name (first, part ∷ next ∷ rest) = name

unfoldable pub remove_package_prefix : Bytes → Bytes
unfolding split remove_from_parts
remove_package_prefix name = remove_from_parts name (split b'.' name)
