-- ===== src/Discover/Resolver/Tests.antt =====
-- discover/clientV2.go: the theorems at a client with one resolver.
use g_micor.Base.{◌≡◌, refl, true, some, [], ◌∷◌, lookup, insert, elem, get_elem?}
use g_micor.Discover.Registry.{Service, NotifyReq, other, read, client_addr, empty_service}
use g_micor.Discover.Resolver.{Node, build, subscribe_server_register}
use g_micor.Discover.Resolver.Refresh.{
  IsWired, build-IsWired, notification_refreshes, notification_keeps_stale,
}

abbrev fresh_node : Node
fresh_node = record { resolvers = []; resolver_map = []; local_port = ":9"; peer = some other }

abbrev centre : Service
centre = record {
  s_name_to_s_addr = ("user", "a" ∷ []) ∷ [];
  s_addr_to_s_names = ("a", "user" ∷ []) ∷ [];
  s_name_to_d_addr = [];
  addr_store = ("a", record { target = "a" }) ∷ [];
}

abbrev node : Node
node = (build "user" fresh_node centre).0

node-IsWired : IsWired node
unfolding lookup
node-IsWired = build-IsWired "user" fresh_node centre (λ server i e. cc)

user_added : NotifyReq
user_added = record { kind = "register"; server = "user"; addr = "a" }

at_zero : lookup "user" node.resolver_map ≡ some 0
unfolding build lookup insert
at_zero = refl

me : client_addr node.peer node.local_port ≡ some ":9"
unfolding build client_addr
me = refl

notification_refreshes_example :
    let (node', center') = subscribe_server_register user_added node centre in
    (get_elem? node'.resolvers 0 ≡ some (record { endpoint = "user"; addresses = some ("a" ∷ []) }))
    × (elem ":9" (read center'.s_name_to_d_addr "user") ≡ true)
unfolding user_added lookup
notification_refreshes_example =
    notification_refreshes user_added node centre 0 ":9" "a" [] node-IsWired at_zero me refl

notification_keeps_stale_example :
    (get_elem? (subscribe_server_register user_added node empty_service).0.resolvers 0
      ≡ get_elem? node.resolvers 0)
    × ((subscribe_server_register user_added node empty_service).1 ≡ empty_service)
unfolding user_added lookup
notification_keeps_stale_example =
    notification_keeps_stale user_added node empty_service 0 ":9" node-IsWired at_zero me refl
