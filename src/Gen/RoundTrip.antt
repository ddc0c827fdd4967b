-- ===== src/Gen/RoundTrip.antt =====
-- gen.go: a service that is written out is read as it was.
use g_micor.Base.{
  ℕ, ◌≡◌, refl, ap, sym, ◌∙◌, true, false, some, List, [], ◌∷◌, ◌++◌, map, All, append-nil,
  append_assoc, arith,
}
use g_micor.Base.Bytes.{Bytes, codes}
use g_micor.Base.Split.{split, IsNot, split-append}
use g_micor.Gen.Scan.{
  MethodInfo, ScanState, is_space, is_word, is_trimmed, skip_spaces, take_text, take_spaces,
  match_service, match_rpc, put_before, trim_left, trim_right, trim_space, has_prefix, method_of,
  scan_method, scan_line, scan_lines, scan_proto_service, service_info, contract_type,
  remove_from_parts, remove_package_prefix,
}
use g_micor.Gen.Lines.{
  service_line, rpc_text, proto_lines, IsName, AreNames, skip_spaces-name, take_word_and-name, Kept,
  Kept-append, match_rpc-text, trim_space-rpc,
}

-- Inside a service, after some methods.
inside : Bytes → List MethodInfo → ScanState
inside name methods = record { service_name = name; methods = methods; in_service = true }

scan_method-found :
    (pkg line : Bytes) (st : ScanState) (m : Bytes × Bytes × Bytes)
    → match_rpc line ≡ some m
    → scan_method pkg line st ≡ record st { methods = st.methods ++ method_of pkg m ∷ [] }
unfolding scan_method
scan_method-found pkg line st m e = rw (e, scan_method) refl

scan_line-rpc :
    (pkg name : Bytes) (before : List MethodInfo) (m : Bytes × Bytes × Bytes)
    → AreNames m
    → scan_line pkg (rpc_text m) (inside name before)
      ≡ some (inside name (before ++ method_of pkg m ∷ []))
unfolding inside scan_line has_prefix take_text match_service skip_spaces is_space
scan_line-rpc pkg name before m h =
    ap some (scan_method-found pkg (rpc_text m) (inside name before) m (match_rpc-text m h))

match_service-line : (name : Bytes) → IsName name → match_service (service_line name) ≡ some name
unfolding match_service take_text take_spaces skip_spaces is_space is_word
match_service-line name h =
    rw
      (
        skip_spaces-name name (codes " {") h,
        take_word_and-name (codes "{") name b' ' (codes "{") [] h refl refl,
      )
      refl

service-Kept : (name : Bytes) → Kept (service_line name)
unfolding Kept trim_right put_before is_trimmed is_space
service-Kept name = Kept-append (codes "service ") _ (Kept-append name _ end)
  where
    end : Kept (codes " {")
    end = (refl, λ e. cc)

trim_space-service : (name : Bytes) → trim_space (service_line name) ≡ service_line name
unfolding Kept trim_space trim_left is_trimmed is_space
trim_space-service name = (service-Kept name).0

-- The state before the first line.
blank : ScanState
blank = record { service_name = []; methods = []; in_service = false }

scan_line-service :
    (pkg name : Bytes)
    → IsName name
    → scan_line pkg (service_line name) blank ≡ some (inside name [])
unfolding inside blank scan_line has_prefix take_text
scan_line-service pkg name h = rw (match_service-line name h) refl

scan_lines_step :
    (pkg line : Bytes) (lines : List Bytes) (st st' : ScanState)
    → scan_line pkg (trim_space line) st ≡ some st'
    → scan_lines pkg (line ∷ lines) st ≡ scan_lines pkg lines st'
unfolding scan_lines
scan_lines_step pkg line lines st st' e = rw (e, scan_lines) refl

scan_lines_end :
    (pkg name : Bytes) (before : List MethodInfo) (rest : List Bytes)
    → scan_lines pkg (codes "}" ∷ rest) (inside name before) ≡ inside name before
unfolding scan_lines inside
scan_lines_end pkg name before rest = refl

scan_lines-methods :
    (pkg name : Bytes) (methods : List (Bytes × Bytes × Bytes)) (before : List MethodInfo)
    (rest : List Bytes)
    → All AreNames methods
    → scan_lines pkg
        (map (λ m. codes "  " ++ rpc_text m) methods ++ codes "}" ∷ rest)
        (inside name before)
      ≡ inside name (before ++ map (method_of pkg) methods)
scan_lines-methods pkg name [] before rest h =
    scan_lines_end pkg name before rest ∙ ap (inside name) (sym (append-nil before))
scan_lines-methods pkg name (m ∷ methods) before rest h =
    scan_lines_step pkg _ _ _ _ (
      ap (λ l. scan_line pkg l (inside name before)) (trim_space-rpc m)
      ∙ scan_line-rpc pkg name before m h.0)
    ∙ scan_lines-methods pkg name methods (before ++ method_of pkg m ∷ []) rest h.1
    ∙ ap (inside name) (append_assoc before (method_of pkg m ∷ []) (map (method_of pkg) methods))

scan_proto_service-inside :
    (pkg : Bytes) (lines : List Bytes) (c : ℕ) (s : Bytes) (methods : List MethodInfo)
    → scan_lines pkg lines blank ≡ inside (c ∷ s) methods
    → scan_proto_service pkg lines ≡ some (record { service_name = c ∷ s; methods = methods })
unfolding scan_proto_service inside blank
scan_proto_service-inside pkg lines c s methods e = ap service_info e

-- If the names of a service, of its methods and of their types are words of at least one character,
-- the lines of the service are scanned as it, with its methods in order and their types as pointers of the
-- package's contract, whatever lines follow.
pub scan_proto_service-proto_lines :
    (pkg name : Bytes) (methods : List (Bytes × Bytes × Bytes)) (rest : List Bytes)
    → IsName name
    → All AreNames methods
    → scan_proto_service pkg (proto_lines name methods ++ rest)
      ≡ some (record { service_name = name; methods = map (method_of pkg) methods })
scan_proto_service-proto_lines pkg [] methods rest named h = absurd named
scan_proto_service-proto_lines pkg (c ∷ s) methods rest named h =
    scan_proto_service-inside pkg (proto_lines (c ∷ s) methods ++ rest) c s _ (
      scan_lines_step pkg (service_line (c ∷ s)) _ blank _ (
        ap (λ l. scan_line pkg l blank) (trim_space-service (c ∷ s))
        ∙ scan_line-service pkg (c ∷ s) named)
      ∙ ap (λ l. scan_lines pkg l (inside (c ∷ s) []))
          (append_assoc (map (λ m. codes "  " ++ rpc_text m) methods) (codes "}" ∷ []) rest)
      ∙ scan_lines-methods pkg (c ∷ s) methods [] rest h)

word_IsNot : (s : Bytes) → All (λ d. is_word d ≡ true) s → All (IsNot b'.') s
unfolding is_word
word_IsNot [] h = tt
word_IsNot (c ∷ s) h = (ground arith, word_IsNot s h.1)

IsNot-append : (s t : Bytes) → All (IsNot b'.') s → All (IsNot b'.') t → All (IsNot b'.') (s ++ t)
IsNot-append [] t h k = k
IsNot-append (c ∷ s) t h k = (h.0, IsNot-append s t h.1 k)

split-contract_type :
    (pkg name : Bytes)
    → All (λ d. is_word d ≡ true) pkg
    → All (λ d. is_word d ≡ true) name
    → split b'.' (contract_type pkg name) ≡ (b'*' ∷ pkg ++ codes "C", name ∷ [])
split-contract_type pkg name h k =
    ap (λ s. split b'.' (b'*' ∷ s)) (sym (append_assoc pkg (codes "C") (b'.' ∷ name)))
    ∙ split-append b'.' (b'*' ∷ pkg ++ codes "C") name
        (refl, IsNot-append pkg (codes "C") (word_IsNot pkg h) (refl, tt)) (word_IsNot name k)

-- The type that the scanner gives a method loses exactly its package, if package and type are words.
pub remove_package_prefix-contract_type :
    (pkg name : Bytes)
    → All (λ d. is_word d ≡ true) pkg
    → All (λ d. is_word d ≡ true) name
    → remove_package_prefix (contract_type pkg name) ≡ b'*' ∷ name
unfolding remove_package_prefix remove_from_parts has_prefix take_text
remove_package_prefix-contract_type pkg name h k =
    ap (remove_from_parts (contract_type pkg name)) (split-contract_type pkg name h k)
