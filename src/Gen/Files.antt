-- ===== src/Gen/Files.antt =====
-- gen.go: the files that a run writes. Formatting and parsing are Go's; reading and writing files goes well.
pub mod Again
mod Tests
use g_micor.Base.{
  ◌≡◌, ◌≢◌, refl, ap, sym, ◌∙◌, Bool, true, false, ◌||◌, Option, none, some, List, [], ◌∷◌, ◌++◌,
  map, All, arith, if◌then◌else◌, Bool-cases, inl, inr,
}
use g_micor.Base.Bytes.{Bytes}
use g_micor.Base.Names.{bytes_eq, bytes_eq_refl, has_name, has_name-append}
use g_micor.Gen.Scan.{MethodInfo, ProtoServiceInfo, scan_proto_service}
use g_micor.Gen.Templates.{range, method_text, base_service_text, contract_text, package_text}

-- `format.Source`; and the names of the methods of *RPCServer in a text, as the parser finds them. `none` is
-- an error.
pub record GoTools : Type 0 where
  pub format : Bytes → Option Bytes
  pub methods_of : Bytes → Option (List Bytes)

-- rpcServer.go, contract_gen.go and localAdapter_gen.go; `none` is a file that is not there.
pub record Files : Type 0 where
  pub service_file : Option Bytes
  pub contract_file : Option Bytes
  pub package_file : Option Bytes

-- The methods of the service that do not exist yet.
unfoldable pub missing_methods : List Bytes → List MethodInfo → List MethodInfo
missing_methods existing [] = []
missing_methods existing (m ∷ methods) =
    let rest = missing_methods existing methods in
    if has_name m.name existing then rest else m ∷ rest

module _ (go : GoTools) where
  -- `createBaseServiceFile` and `addMissingMethods`: the file's new contents, or an error.
  unfoldable pub create_base_service_file : Bytes → ProtoServiceInfo → Option Bytes
  create_base_service_file pkg service = go.format (base_service_text pkg service)

  unfoldable pub add_missing_methods : Bytes → List MethodInfo → Option Bytes
  add_missing_methods content missing = go.format (content ++ range method_text missing)

  -- `ensureServiceMethods` when the file was parsed.
  unfoldable pub ensure_methods : Bytes → List MethodInfo → Option Bytes
  unfolding add_missing_methods
  ensure_methods content [] = some content
  ensure_methods content (m ∷ missing) = add_missing_methods content (m ∷ missing)

  -- `ensureServiceMethods`
  unfoldable pub ensure_service_methods : Bytes → ProtoServiceInfo → Option Bytes → Option Bytes
  unfolding create_base_service_file ensure_methods missing_methods
  ensure_service_methods pkg service none = create_base_service_file pkg service
  ensure_service_methods pkg service (some content) = elim (go.methods_of content) [
    | none ↦ none
    | some existing ↦ ensure_methods content (missing_methods existing service.methods)
  ]

  -- The rest of `main`, of a service: whether it came to its end, and the files then. An error ends it.
  unfoldable pub write_files : Bytes → ProtoServiceInfo → Files → Bool × Files
  unfolding ensure_service_methods
  write_files pkg service files = elim (ensure_service_methods pkg service files.service_file) [
    | none ↦ (false, files)
    | some text ↦
        let files1 = record files { service_file = some text } in
        elim (go.format (contract_text pkg service)) [
          | none ↦ (false, files1)
          | some contract ↦
              let files2 = record files1 { contract_file = some contract } in
              elim (go.format (package_text pkg service)) [
                | none ↦ (false, files2)
                | some adapter ↦ (true, record files2 { package_file = some adapter })
              ]
        ]
  ]

  -- `main`, of the lines of the proto file.
  unfoldable pub generate : Bytes → List Bytes → Files → Bool × Files
  unfolding write_files
  generate pkg lines files = elim (scan_proto_service pkg lines) [
    | none ↦ (true, files)
    | some service ↦ write_files pkg service files
  ]
