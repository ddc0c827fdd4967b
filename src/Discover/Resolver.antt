-- ===== src/Discover/Resolver.antt =====
-- discover/clientV2.go: the resolvers of a client, which ask the centre for the addresses of a
-- server, once when they are built and again on each notification.
pub mod Refresh
mod Tests
use g_micor.Base.{
  ℕ, String, Option, none, some, List, [], ◌∷◌, ◌++◌, Dict, lookup, insert, length, modify,
  get_elem?,
}
use g_micor.Discover.Registry.{
  Client, Service, NotifyReq, Sent, Peer, DiscoverOut, found, RegisterOut, registered, register,
  discover,
}

-- A resolver, with the addresses that it last gave to its connection; none before the first time.
pub record Resolve : Type 0 where
  pub endpoint : String
  pub addresses : Option (List String)

-- A client process: its resolvers in the order they were built, the one for each server that
-- notifications go to, the port that it sends to the centre, and its address as the centre sees it.
pub record Node : Type 0 where
  pub resolvers : List Resolve
  pub resolver_map : Dict ℕ
  pub local_port : String
  pub peer : Option Peer

-- What an answer of the centre makes of a resolver: an error leaves it as it was.
abbrev pub take_answer : DiscoverOut → Resolve → Resolve
take_answer (found resp) r = record r { addresses = some resp.addr }
take_answer _ r = r

-- `updateStates` of the resolver at an index, for its endpoint.
unfoldable pub update_states : ℕ → String → Node → Service → Node × Service
update_states i endpoint node center =
    let (answer, center') = discover node.peer node.local_port endpoint center in
    (record node { resolvers = modify i (take_answer answer) node.resolvers }, center')

-- `Build`.
unfoldable pub build : String → Node → Service → Node × Service
unfolding update_states
build endpoint node center =
    let i = length node.resolvers in
    let fresh : Resolve = record { endpoint = endpoint; addresses = none } in
    update_states i endpoint
      (record node {
        resolvers = node.resolvers ++ fresh ∷ [];
        resolver_map = insert endpoint i node.resolver_map;
      })
      center

-- `ResolveNow`.
unfoldable pub resolve_now : ℕ → Node → Service → Node × Service
unfolding update_states
resolve_now i node center = elim (get_elem? node.resolvers i) [
  | none ↦ (node, center)
  | some r ↦ update_states i r.endpoint node center
]

-- `SubscribeServerRegister`: a server that the client does not resolve is passed over.
unfoldable pub subscribe_server_register : NotifyReq → Node → Service → Node × Service
unfolding resolve_now
subscribe_server_register req node center = elim (lookup req.server node.resolver_map) [
  | none ↦ (node, center)
  | some i ↦ resolve_now i node center
]

-- `RegisterCenter`; an error of the centre is a panic, `none`.
unfoldable pub register_center :
    (String → Option Client)
    → String
    → List String
    → Node
    → Service
    → Option (Node × Service × List Sent)
register_center dial port servers node center =
    let (out, center', sent) = register dial node.peer port servers center in
    elim out [ registered ↦ some (record node { local_port = port }, center', sent) | _ ↦ none ]
