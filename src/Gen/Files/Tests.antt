-- ===== src/Gen/Files/Tests.antt =====
-- gen.go: a file with one of two methods.
use g_micor.Base.{◌≡◌, refl, true, none, some, List, [], ◌∷◌, ◌++◌}
use g_micor.Base.Bytes.{Bytes, codes}
use g_micor.Base.Split.{split}
use g_micor.Base.Names.{has_name, bytes_eq}
use g_micor.Gen.Scan.{
  MethodInfo, ProtoServiceInfo, take_text, take_word, is_word, scan_proto_service,
}
use g_micor.Gen.Templates.{range, method_text, contract_text, package_text}
use g_micor.Gen.Files.{GoTools, Files, missing_methods, generate}
use g_micor.Gen.Files.Again.{AllThere, generate_again}

-- The name of the method that a line begins.
abbrev method_on : Bytes → List Bytes
method_on line = elim (take_text (codes "func (s *RPCServer) ") line) [
  | none ↦ []
  | some rest ↦ (take_word rest).0 ∷ []
]

abbrev methods_on : List Bytes → List Bytes
methods_on [] = []
methods_on (line ∷ lines) = method_on line ++ methods_on lines

-- Tools that take every text as formatted, and find methods line by line.
abbrev tools : GoTools
tools = record {
  format = λ text. some text;
  methods_of = λ text. let (line, lines) = split 10 text in some (methods_on (line ∷ lines));
}

abbrev ask : MethodInfo
ask = record { name = codes "Ask"; param_type = codes "*qaC.X"; return_type = codes "*qaC.Y" }

abbrev tell_method : MethodInfo
tell_method = record {
  name = codes "Tell";
  param_type = codes "*qaC.X";
  return_type = codes "*qaC.Y";
}

abbrev qa : ProtoServiceInfo
qa = record { service_name = codes "Qa"; methods = ask ∷ tell_method ∷ [] }

abbrev qa_lines : List Bytes
qa_lines =
    codes "service Qa {"
    ∷ codes "rpc Ask (X) returns (Y);"
    ∷ codes "rpc Tell (X) returns (Y);"
    ∷ codes "}"
    ∷ []

abbrev old : Bytes
old = codes "package endpoint\n" ++ method_text ask

one_missing : missing_methods (codes "Ask" ∷ []) qa.methods ≡ tell_method ∷ []
unfolding missing_methods has_name bytes_eq
one_missing = refl

generate_again_example :
    (out : Files) × (generate tools
        (codes "qa")
        qa_lines
        (record { service_file = some old; contract_file = none; package_file = none })
      ≡ (true, out))
    × (generate tools (codes "qa") qa_lines out ≡ (true, out))
    × ((file : Bytes) × (names : List Bytes) × (out.service_file ≡ some file)
        × (tools.methods_of file ≡ some names)
        × AllThere names qa.methods)
unfolding scan_proto_service missing_methods has_name bytes_eq method_text split take_text take_word
    is_word
generate_again_example =
    generate_again tools (codes "qa") qa qa_lines
      (record { service_file = some old; contract_file = none; package_file = none })
      (old ++ range method_text (tell_method ∷ [])) (contract_text (codes "qa") qa)
      (package_text (codes "qa") qa) (codes "Ask" ∷ []) refl refl refl refl refl refl
