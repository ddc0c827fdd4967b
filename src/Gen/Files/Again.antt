-- ===== src/Gen/Files/Again.antt =====
-- gen.go: a second run of the generator.
use g_micor.Base.{
  ◌≡◌, refl, ap, sym, ◌∙◌, Bool, true, ◌||◌, Option, none, some, List, [], ◌∷◌, ◌++◌, map, All,
  arith, Bool-cases, List-cases, inl, inr, append-nil, subst,
}
use g_micor.Base.Bytes.{Bytes}
use g_micor.Base.Names.{bytes_eq, bytes_eq_refl, has_name, has_name-append}
use g_micor.Gen.Scan.{MethodInfo, ProtoServiceInfo, scan_proto_service}
use g_micor.Gen.Templates.{range, method_text, base_service_text, contract_text, package_text}
use g_micor.Gen.Files.{
  GoTools, Files, missing_methods, create_base_service_file, add_missing_methods, ensure_methods,
  ensure_service_methods, write_files, generate,
}

-- Each of the methods stands among the names.
abbrev pub AllThere : List Bytes → List MethodInfo → Type 0
AllThere names = All (λ m. has_name m.name names ≡ true)

abbrev pub names_of : List MethodInfo → List Bytes
names_of = map (λ m. m.name)

missing_methods-AllThere :
    (names : List Bytes) (methods : List MethodInfo)
    → AllThere names methods
    → missing_methods names methods ≡ []
unfolding missing_methods
missing_methods-AllThere names [] h = refl
missing_methods-AllThere names (m ∷ methods) h = rw h.0 (missing_methods-AllThere names methods h.1)

-- Names that hold those of the missing methods make up for them.
AllThere-missing_methods :
    (existing added : List Bytes) (methods : List MethodInfo)
    → ((name : Bytes)
        → has_name name (names_of (missing_methods existing methods)) ≡ true
        → has_name name added ≡ true)
    → AllThere (existing ++ added) methods
unfolding missing_methods has_name
AllThere-missing_methods existing added [] h = tt
AllThere-missing_methods existing added (m ∷ methods) h =
    elim (Bool-cases (has_name m.name existing)) [
      | inl e ↦ (
        ground (arith, has_name-append m.name existing added),
        AllThere-missing_methods existing added methods (λ name k. h name (rw e k)),
      )
      | inr e ↦ (
        has_name-append m.name existing added
            ∙ or_true (has_name m.name existing) (has_name m.name added)
                (h m.name (rw e (ground (arith, bytes_eq_refl m.name)))),
        AllThere-missing_methods existing added methods (λ name k. h name (
            rw e (
              or_true (bytes_eq m.name name)
                (has_name name (names_of (missing_methods existing methods))) k))),
      )
    ]
  where
    or_true : (a b : Bool) → b ≡ true → (a || b) ≡ true
    or_true a b e = ground (arith, e)

missing_methods-nil : (methods : List MethodInfo) → missing_methods [] methods ≡ methods
unfolding missing_methods has_name
missing_methods-nil [] = refl
missing_methods-nil (m ∷ methods) = ap (λ ms. m ∷ ms) (missing_methods-nil methods)

module _ (go : GoTools) (pkg : Bytes) (service : ProtoServiceInfo) where
  -- A file in which all methods are found stays as it is.
  ensure_service_methods-AllThere :
      (content : Bytes) (names : List Bytes)
      → go.methods_of content ≡ some names
      → AllThere names service.methods
      → ensure_service_methods go pkg service (some content) ≡ some content
  unfolding ensure_service_methods ensure_methods
  ensure_service_methods-AllThere content names e h =
      rw (e, ensure_service_methods) (rw (missing_methods-AllThere names service.methods h) refl)

  -- What a run makes of a service file, and which methods are found there then.
  abbrev Ensured : Option Bytes → Type 0
  Ensured old =
      (file : Bytes) × (names : List Bytes) × (ensure_service_methods go pkg service old
        ≡ some file)
      × (go.methods_of file ≡ some names)
      × AllThere names service.methods

  ensure_service_methods-Ensured :
      (content text : Bytes) (existing : List Bytes)
      → go.methods_of content ≡ some existing
      → let missing = missing_methods existing service.methods in
        go.format (content ++ range method_text missing) ≡ some text
        → go.methods_of text ≡ some (existing ++ names_of missing)
        → Ensured (some content)
  unfolding ensure_service_methods ensure_methods add_missing_methods
  ensure_service_methods-Ensured content text existing found formatted found_then =
      elim (List-cases (missing_methods existing service.methods)) [
        | inl e ↦ (
          content,
          existing,
          rw (found, ensure_service_methods) (rw e refl),
          found,
          subst (λ names. AllThere names service.methods) (append-nil existing)
              (AllThere-missing_methods existing [] service.methods
                (λ name h. ap (λ ms. has_name name (names_of ms)) (sym e) ∙ h)),
        )
        | inr (m, ms, e) ↦ (
          text,
          existing ++ names_of (missing_methods existing service.methods),
          rw (found, ensure_service_methods)
              (rw e (ap (λ l. go.format (content ++ range method_text l)) (sym e) ∙ formatted)),
          found_then,
          AllThere-missing_methods existing _ service.methods (λ name h. h),
        )
      ]

  write_files-done :
      (files : Files) (text contract adapter : Bytes)
      → ensure_service_methods go pkg service files.service_file ≡ some text
      → go.format (contract_text pkg service) ≡ some contract
      → go.format (package_text pkg service) ≡ some adapter
      → write_files go pkg service files ≡ (
        true,
        record {
          service_file = some text;
          contract_file = some contract;
          package_file = some adapter;
        },
      )
  unfolding write_files
  write_files-done files text contract adapter e f g = rw (e, write_files) (rw f (rw g refl))

  generate-done :
      (lines : List Bytes) (files : Files) (text contract adapter : Bytes)
      → scan_proto_service pkg lines ≡ some service
      → ensure_service_methods go pkg service files.service_file ≡ some text
      → go.format (contract_text pkg service) ≡ some contract
      → go.format (package_text pkg service) ≡ some adapter
      → generate go pkg lines files ≡ (
        true,
        record {
          service_file = some text;
          contract_file = some contract;
          package_file = some adapter;
        },
      )
  unfolding generate
  generate-done lines files text contract adapter scanned e f g =
      rw (scanned, generate) (write_files-done files text contract adapter e f g)

  -- The text that a run formats for the service file: a new one, or the old one with the missing methods.
  abbrev pub text_given : Option Bytes → List Bytes → Bytes
  text_given none existing = base_service_text pkg service
  text_given (some content) existing =
      content ++ range method_text (missing_methods existing service.methods)

  -- The methods of the old service file, which a file that is not there has none of.
  abbrev pub HasMethods : Option Bytes → List Bytes → Type 0
  HasMethods none existing = existing ≡ []
  HasMethods (some content) existing = go.methods_of content ≡ some existing

  created-Ensured :
      (text : Bytes)
      → go.format (base_service_text pkg service) ≡ some text
      → go.methods_of text ≡ some (names_of service.methods)
      → Ensured none
  unfolding ensure_service_methods create_base_service_file
  created-Ensured text formatted found_then = (
    text,
    names_of service.methods,
    formatted,
    found_then,
    AllThere-missing_methods [] (names_of service.methods) service.methods (λ name h.
        ap (λ ms. has_name name (names_of ms)) (sym (missing_methods-nil service.methods)) ∙ h),
  )

  given-Ensured :
      (old : Option Bytes) (text : Bytes) (existing : List Bytes)
      → HasMethods old existing
      → go.format (text_given old existing) ≡ some text
      → go.methods_of text ≡ some (existing ++ names_of (missing_methods existing service.methods))
      → Ensured old
  given-Ensured none text existing found formatted found_then = created-Ensured text formatted (
      found_then
      ∙ ap (λ names. some (names ++ names_of (missing_methods names service.methods))) found
      ∙ ap (λ ms. some (names_of ms)) (missing_methods-nil service.methods))
  given-Ensured (some content) text existing found formatted found_then =
      ensure_service_methods-Ensured content text existing found formatted found_then

  -- If the formatter takes the generator's texts, and the parser finds the methods of the old service file, if
  -- there is one, and in the new one these and those that were added, then a run comes to its end, all methods of
  -- the service are found in the service file, and a second run changes no file.
  pub generate_again :
      (lines : List Bytes) (files : Files) (text contract adapter : Bytes) (existing : List Bytes)
      → scan_proto_service pkg lines ≡ some service
      → HasMethods files.service_file existing
      → go.format (text_given files.service_file existing) ≡ some text
      → go.methods_of text ≡ some (existing ++ names_of (missing_methods existing service.methods))
      → go.format (contract_text pkg service) ≡ some contract
      → go.format (package_text pkg service) ≡ some adapter
      → (out : Files) × (generate go pkg lines files ≡ (true, out))
        × (generate go pkg lines out ≡ (true, out))
        × ((file : Bytes) × (names : List Bytes) × (out.service_file ≡ some file)
            × (go.methods_of file ≡ some names)
            × AllThere names service.methods)
  generate_again lines files text contract adapter existing scanned found formatted found_then f g =
      let (file, names, ensured, found', all) =
        given-Ensured files.service_file text existing found formatted found_then in
      (
        record {
          service_file = some file;
          contract_file = some contract;
          package_file = some adapter;
        },
        generate-done lines files file contract adapter scanned ensured f g,
        generate-done lines _ file contract adapter scanned
            (ensure_service_methods-AllThere file names found' all) f g,
        (file, names, refl, found', all),
      )
