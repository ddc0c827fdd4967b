-- ===== src/Gen/Tests.antt =====
-- gen.go: a service of two methods.
use g_micor.Base.{◌≡◌, refl, none, some, List, [], ◌∷◌, ◌++◌, map}
use g_micor.Base.Bytes.{Bytes, codes}
use g_micor.Gen.Lines.{IsName, AreNames, proto_lines}
use g_micor.Gen.RoundTrip.{scan_proto_service-proto_lines}
use g_micor.Gen.Scan.{is_word, method_of, match_rpc, scan_proto_service, remove_package_prefix}

spaced :
    match_rpc (codes "rpc  Ask ( Question ) returns(Answer) {}")
    ≡ some (codes "Ask", codes "Question", codes "Answer")
unfolding match_rpc
spaced = refl

streaming : match_rpc (codes "rpc Ask (stream Question) returns (Answer);") ≡ none
unfolding match_rpc
streaming = refl

-- The end of the options of a method is taken for the end of the service.
options :
    scan_proto_service (codes "qa") (
      codes "service Qa {"
      ∷ codes "rpc A (X) returns (Y) {"
      ∷ codes "}"
      ∷ codes "rpc B (X) returns (Y);"
      ∷ codes "}"
      ∷ [])
    ≡ some (record {
      service_name = codes "Qa";
      methods =
          record { name = codes "A"; param_type = codes "*qaC.X"; return_type = codes "*qaC.Y" }
          ∷ [];
    })
unfolding scan_proto_service
options = refl

without_package : remove_package_prefix (codes "*qaC.X") ≡ codes "*X"
unfolding remove_package_prefix
without_package = refl

-- A service of one method, and a type of it.
abbrev methods : List (Bytes × Bytes × Bytes)
methods = (codes "Ask", codes "Question", codes "Answer") ∷ []

scan_proto_service-proto_lines_example :
    scan_proto_service (codes "qa") (proto_lines (codes "Qa") methods ++ [])
    ≡ some (record { service_name = codes "Qa"; methods = map (method_of (codes "qa")) methods })
unfolding is_word
scan_proto_service-proto_lines_example =
    scan_proto_service-proto_lines (codes "qa") (codes "Qa") methods [] named (both, tt)
  where
    named : IsName (codes "Qa")
    named = (refl, (refl, tt))

    both : AreNames (codes "Ask", codes "Question", codes "Answer")
    both = (
      (refl, (refl, (refl, tt))),
      (refl, (refl, (refl, (refl, (refl, (refl, (refl, (refl, tt)))))))),
      (refl, (refl, (refl, (refl, (refl, (refl, tt)))))),
    )
