-- ===== src/Discover/Resolver/Refresh.antt =====
-- discover/clientV2.go: what a notification does to the addresses that a client balances over.
use g_micor.Base.{
  ℕ, String, ◌≡◌, refl, ap, inl, inr, true, Option, none, some, List, [], ◌∷◌, ◌++◌, lookup, insert,
  length, modify, get_elem?, elem, arith, str_eq, eq_iff, str_eq_refl, lookup-insert,
  get_elem?-modify_self, get_elem?-modify, ◌∙◌, get_elem?-append_left, get_elem?-length, Bool-cases,
  some_inj,
}
use g_micor.Discover.Registry.{
  Service, NotifyReq, Peer, DiscoverOut, found, read, client_addr, discover, subscribe,
  server_not_find,
}
use g_micor.Discover.Registry.Effects.{elem-add_new}
use g_micor.Discover.Resolver.{
  Resolve, Node, take_answer, update_states, build, resolve_now, subscribe_server_register,
}

-- Each server that notifications reach has a resolver for it.
abbrev pub IsWired : Node → Type 0
IsWired node =
    (server : String) (i : ℕ)
    → lookup server node.resolver_map ≡ some i
    → (r : Resolve) × (get_elem? node.resolvers i ≡ some r) × (r.endpoint ≡ server)

endpoint-take_answer :
    (answer : DiscoverOut) (r : Resolve) → (take_answer answer r).endpoint ≡ r.endpoint
endpoint-take_answer answer r = ground arith

modify-IsWired :
    (node : Node) (i : ℕ) (answer : DiscoverOut)
    → IsWired node
    → IsWired (record node { resolvers = modify i (take_answer answer) node.resolvers })
modify-IsWired node i answer w server j e =
    let (r, at, same) = w server j e in
    elim (get_elem?-modify i j (take_answer answer) node.resolvers r at) [
      | inl f ↦ (take_answer answer r, f, endpoint-take_answer answer r ∙ same)
      | inr f ↦ (r, f, same)
    ]

-- An answer of the centre: the list that the registry holds, and the client among its subscribers.
discover_answers :
    (peer : Option Peer) (port server : String) (center : Service) (me first : String)
    (rest : List String)
    → client_addr peer port ≡ some me
    → read center.s_name_to_s_addr server ≡ first ∷ rest
    → discover peer port server center
      ≡ (found (record { server = server; addr = first ∷ rest }), subscribe server me center)
unfolding discover
discover_answers peer port server center me first rest h e = rw (h, discover) (rw e)

discover_refuses :
    (peer : Option Peer) (port server : String) (center : Service) (me : String)
    → client_addr peer port ≡ some me
    → read center.s_name_to_s_addr server ≡ []
    → discover peer port server center ≡ (server_not_find, center)
unfolding discover
discover_refuses peer port server center me h e = rw (h, discover) (rw e)

update_states-IsWired :
    (i : ℕ) (endpoint : String) (node : Node) (center : Service)
    → IsWired node
    → IsWired (update_states i endpoint node center).0
unfolding update_states
update_states-IsWired i endpoint node center w =
    modify-IsWired node i (discover node.peer node.local_port endpoint center).0 w

-- Building a resolver keeps the others wired, and wires the new one.
pub build-IsWired :
    (endpoint : String) (node : Node) (center : Service)
    → IsWired node
    → IsWired (build endpoint node center).0
unfolding build
build-IsWired endpoint node center w =
    update_states-IsWired (length node.resolvers) endpoint _ center wired
  where
    fresh : Resolve
    fresh = record { endpoint = endpoint; addresses = none }

    wired :
        (server : String) (i : ℕ)
        → lookup server (insert endpoint (length node.resolvers) node.resolver_map) ≡ some i
        → (r : Resolve) × (get_elem? (node.resolvers ++ fresh ∷ []) i ≡ some r)
          × (r.endpoint ≡ server)
    wired server i e = elim (Bool-cases (str_eq endpoint server)) [
      | inl same ↦ (
        fresh,
        rw (← some_inj (rw (lookup-insert, same) at e)) (get_elem?-length node.resolvers fresh),
        (eq_iff endpoint server).0 same,
      )
      | inr differ ↦
          let (r, at, named) = w server i (rw (lookup-insert, differ) at e) in
          (r, get_elem?-append_left i node.resolvers (fresh ∷ []) r at, named)
    ]

-- Such a notification is one lookup by the resolver of the server.
subscribe_server_register_runs :
    (req : NotifyReq) (node : Node) (center : Service) (i : ℕ) (r : Resolve)
    → lookup req.server node.resolver_map ≡ some i
    → get_elem? node.resolvers i ≡ some r
    → r.endpoint ≡ req.server
    → let (answer, center') = discover node.peer node.local_port req.server center in
      subscribe_server_register req node center
      ≡ (record node { resolvers = modify i (take_answer answer) node.resolvers }, center')
unfolding subscribe_server_register
subscribe_server_register_runs req node center i r at there named =
    rw (at, subscribe_server_register) (rw (there, resolve_now) (rw named))

-- A notification of a server, at a client that resolves it: if the centre lists some address for the
-- server, the connection gets exactly those, and the client is on the list of those to be told of
-- the next change.
pub notification_refreshes :
    (req : NotifyReq) (node : Node) (center : Service) (i : ℕ) (me first : String)
    (rest : List String)
    → IsWired node
    → lookup req.server node.resolver_map ≡ some i
    → client_addr node.peer node.local_port ≡ some me
    → read center.s_name_to_s_addr req.server ≡ first ∷ rest
    → let (node', center') = subscribe_server_register req node center in
      (get_elem? node'.resolvers i
        ≡ some (record { endpoint = req.server; addresses = some (first ∷ rest) }))
      × (elem me (read center'.s_name_to_d_addr req.server) ≡ true)
unfolding subscribe_server_register
notification_refreshes req node center i me first rest w at known listed =
    let (r, there, named) = w req.server i at in
    rw
      (
        subscribe_server_register_runs req node center i r at there named,
        discover_answers node.peer node.local_port req.server center me first rest known listed,
      )
      (
        get_elem?-modify_self i _ node.resolvers r there
            ∙ ap (λ e. some (record { endpoint = e; addresses = some (first ∷ rest) })) named,
        unfold subscribe in
            ground (
              arith,
              elem-add_new req.server me center.s_name_to_d_addr me req.server,
              str_eq_refl req.server,
              str_eq_refl me,
            ),
      )

-- If the centre lists none any more, the client keeps the addresses that it had.
pub notification_keeps_stale :
    (req : NotifyReq) (node : Node) (center : Service) (i : ℕ) (me : String)
    → IsWired node
    → lookup req.server node.resolver_map ≡ some i
    → client_addr node.peer node.local_port ≡ some me
    → read center.s_name_to_s_addr req.server ≡ []
    → (get_elem? (subscribe_server_register req node center).0.resolvers i
        ≡ get_elem? node.resolvers i)
      × ((subscribe_server_register req node center).1 ≡ center)
unfolding subscribe_server_register
notification_keeps_stale req node center i me w at known gone =
    let (r, there, named) = w req.server i at in
    rw
      (
        subscribe_server_register_runs req node center i r at there named,
        discover_refuses node.peer node.local_port req.server center me known gone,
        there,
      )
      (get_elem?-modify_self i _ node.resolvers r there, refl)
