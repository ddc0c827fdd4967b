-- ===== src/Gen/Templates.antt =====
-- gen.go: the texts that its templates make of a service.
use g_micor.Base.{List, [], ◌∷◌, ◌++◌}
use g_micor.Base.Bytes.{Bytes, codes}
use g_micor.Gen.Scan.{MethodInfo, ProtoServiceInfo, remove_package_prefix}

abbrev pub concat : List Bytes → Bytes
concat [] = []
concat (piece ∷ pieces) = piece ++ concat pieces

-- A text for each of the methods: `range`.
abbrev pub range : (MethodInfo → Bytes) → List MethodInfo → Bytes
range text [] = []
range text (m ∷ methods) = text m ++ range text methods

-- `methodTemplate`, and the same in `baseServiceTemplate`
unfoldable pub method_text : MethodInfo → Bytes
method_text m = concat (
    codes "\nfunc (s *RPCServer) "
    ∷ m.name
    ∷ codes "(ctx context.Context, req "
    ∷ m.param_type
    ∷ codes ") ("
    ∷ m.return_type
    ∷ codes ", error) {\n\tpanic(\"implement me\")\n}\n"
    ∷ [])

-- `baseServiceTemplate`
unfoldable pub base_service_text : Bytes → ProtoServiceInfo → Bytes
unfolding method_text
base_service_text pkg service = concat (
    codes "package endpoint\n\nimport (\n\t\"context\"\n\t\"github.com/Gong-Yang/GGYYNet/contract/"
    ∷ pkg
    ∷ codes "C\"\n)\n\ntype RPCServer struct {\n\t"
    ∷ pkg
    ∷ codes "C.Unimplemented"
    ∷ service.service_name
    ∷ codes "Server\n}\n"
    ∷ range method_text service.methods
    ∷ codes "\n"
    ∷ [])

-- A method in `contractTemplate`
unfoldable pub remote_method_text : Bytes → MethodInfo → Bytes
unfolding remove_package_prefix
remote_method_text pkg m = concat (
    codes "\nfunc (s *"
    ∷ pkg
    ∷ codes "RemoteClient) "
    ∷ m.name
    ∷ codes "(ctx context.Context, in "
    ∷ remove_package_prefix m.param_type
    ∷ codes ", opts ...grpc.CallOption) ("
    ∷ remove_package_prefix m.return_type
    ∷ codes ", error) {\n\tif s.client == nil {\n\t\terr := s.init()\n\t\tif err != nil {\n"
    ∷ codes "\t\t\treturn nil, err\n\t\t}\n\t}\n\treturn s.client."
    ∷ m.name
    ∷ codes "(ctx, in, opts...)\n}\n"
    ∷ [])

-- `contractTemplate`
unfoldable pub contract_text : Bytes → ProtoServiceInfo → Bytes
unfolding remote_method_text
contract_text pkg service = concat (
    codes "package "
    ∷ pkg
    ∷ codes "C\n\nimport (\n\t\"context\"\n\t\"github.com/Gong-Yang/g-micor/discover\"\n"
    ∷ codes "\t\"google.golang.org/grpc\"\n\t\"log/slog\"\n)\n\nvar ModuleName = \""
    ∷ pkg
    ∷ codes "\"\n\nvar Client "
    ∷ service.service_name
    ∷ codes "Client = &"
    ∷ pkg
    ∷ codes "RemoteClient{}\n\ntype "
    ∷ pkg
    ∷ codes "RemoteClient struct {\n\tclient "
    ∷ service.service_name
    ∷ codes "Client\n}\n\nfunc (s *"
    ∷ pkg
    ∷ codes "RemoteClient) init() error {\n\tc, err := discover.Grpc(\""
    ∷ pkg
    ∷ codes "\")\n\tif err != nil {\n\t\treturn err\n\t}\n\tclient := New"
    ∷ service.service_name
    ∷ codes "Client(c)\n\ts.client = client\n\tslog.Info(\""
    ∷ pkg
    ∷ codes " remote client init\")\n\treturn nil\n}\n"
    ∷ range (remote_method_text pkg) service.methods
    ∷ codes "\n"
    ∷ [])

-- A method in `packageTemplate`
unfoldable pub local_method_text : MethodInfo → Bytes
local_method_text m = concat (
    codes "\nfunc (s *localAdapter) "
    ∷ m.name
    ∷ codes "(ctx context.Context, in "
    ∷ m.param_type
    ∷ codes ", opts ...grpc.CallOption) ("
    ∷ m.return_type
    ∷ codes ", error) {\n\treturn s.server."
    ∷ m.name
    ∷ codes "(ctx, in)\n}\n"
    ∷ [])

-- The comments in `packageTemplate`, in UTF-8: a local call, and the registration of the service.
abbrev pub local_comment : Bytes
local_comment =
    230 ∷ 156 ∷ 172 ∷ 229 ∷ 156 ∷ 176 ∷ 231 ∷ 155 ∷ 180 ∷ 230 ∷ 142 ∷ 165 ∷ 232 ∷ 176 ∷ 131 ∷ []

abbrev pub register_comment : Bytes
register_comment =
    229 ∷ 176 ∷ 134 ∷ 230 ∷ 156 ∷ 141 ∷ 229 ∷ 138 ∷ 161 ∷ 230 ∷ 179 ∷ 168 ∷ 229 ∷ 134 ∷ 140 ∷ []

-- `packageTemplate`
unfoldable pub package_text : Bytes → ProtoServiceInfo → Bytes
unfolding local_method_text
package_text pkg service = concat (
    codes "package endpoint\n\nimport (\n\t\"context\"\n\t\"github.com/Gong-Yang/GGYYNet/contract/"
    ∷ pkg
    ∷ codes
        "C\"\n\t\"google.golang.org/grpc\"\n)\n\nfunc InitRPC(register grpc.ServiceRegistrar) {\n"
    ∷ codes "\ts := &RPCServer{}\n\t"
    ∷ pkg
    ∷ codes "C.Client = &localAdapter{server: s}    // "
    ∷ local_comment
    ∷ codes "\n\t"
    ∷ pkg
    ∷ codes "C.Register"
    ∷ service.service_name
    ∷ codes "Server(register, s)  // "
    ∷ register_comment
    ∷ codes "\n\treturn\n}\n\ntype localAdapter struct {\n\tserver *RPCServer\n}\n"
    ∷ range local_method_text service.methods
    ∷ codes "\n"
    ∷ [])
