-- ===== src/Discover/Registry/Lookup.antt =====
-- discover/server.go, `Register` and `Discover`: what a lookup yields after registrations.
use g_micor.Base.{
  ◌≢◌, String, ◌≡◌, true, false, ◌&&◌, ◌||◌, Option, none, some, List, [], lookup, elem, arith,
  str_eq, eq_iff, str_eq_refl, if◌then◌else◌,
}
use g_micor.Discover.Registry.{
  Resp, found, discover, Client, Service, Peer, read, register_locked, register,
  handle_unhealthy_service, client_addr,
}
use g_micor.Discover.Registry.Effects.{read-insert, elem-add_addresses}
use g_micor.Discover.Registry.Invariant.{IsConsistent, register-IsConsistent}
use g_micor.Discover.Registry.Health.{
  IsExact, SameAddrs, notify_all-SameAddrs, stale_after_unhealthy,
}

-- A lookup that answers, answers with the addresses listed under the name, of which there are some.
pub discover-found :
    (peer : Option Peer) (port server : String) (s : Service) (resp : Resp)
    → (discover peer port server s).0 ≡ found resp
    → (resp.server ≡ server) × (resp.addr ≡ read s.s_name_to_s_addr server) × (resp.addr ≢ [])
unfolding discover
discover-found peer port server s resp h = ground arith

-- The maps after a registration that reaches the centre.
module _ (dial : String → Option Client) (peer : Option Peer) (port : String) {addr : String}
    {client : Client} (known : client_addr peer port ≡ some addr)
    (dialled : dial addr ≡ some client) where
  pub register-SameAddrs :
      (servers : List String) (s : Service)
      → SameAddrs (register_locked addr servers client s) (register dial peer port servers s).1
  unfolding register
  register-SameAddrs servers s =
      rw (known, register)
        (rw dialled
          (notify_all-SameAddrs "register" addr servers (register_locked addr servers client s)))

  pub elem-register :
      (servers : List String) (s : Service) (a name : String)
      → elem a (read (register dial peer port servers s).1.s_name_to_s_addr name)
        ≡ (elem a (read s.s_name_to_s_addr name) || (elem name servers && str_eq addr a))
  elem-register servers s a name =
      rw (register-SameAddrs servers s).0
        (unfold register_locked in elem-add_addresses servers addr s.s_name_to_s_addr a name)

  pub names-register :
      (servers : List String) (s : Service) (a : String)
      → read (register dial peer port servers s).1.s_addr_to_s_names a
        ≡ (if str_eq addr a then servers else read s.s_addr_to_s_names a)
  names-register servers s a =
      rw (register-SameAddrs servers s).1
        (unfold register_locked in read-insert addr a servers s.s_addr_to_s_names)

  -- A registration that drops none of the address's earlier names.
  pub register-IsExact :
      (servers : List String) (s : Service)
      → ((name : String)
          → elem name (read s.s_addr_to_s_names addr) ≡ true
          → elem name servers ≡ true)
      → IsExact s
      → IsExact (register dial peer port servers s).1
  register-IsExact servers s grows x a name =
      rw (elem-register servers s a name, names-register servers s a)
        (ground (arith, x a name, grows name, eq_iff addr a))

  -- The bug: an address that registers again without one of its names stays listed under that
  -- name. When it goes down its connection is dropped, and lookups of the name still yield it.
  pub reregister_stale :
      (servers fewer : List String) (name : String) (s : Service)
      → IsConsistent s
      → elem name servers ≡ true
      → elem name fewer ≡ false
      → let s1 = (register dial peer port servers s).1 in
        let s2 = (register dial peer port fewer s1).1 in
        (elem addr (read (handle_unhealthy_service addr s2).0.s_name_to_s_addr name) ≡ true)
        × (lookup addr (handle_unhealthy_service addr s2).0.addr_store ≡ none)
  reregister_stale servers fewer name s v had lost =
      let s1 = (register dial peer port servers s).1 in
      stale_after_unhealthy addr name (register dial peer port fewer s1).1
        (register-IsConsistent dial peer port fewer s1
          (register-IsConsistent dial peer port servers s v))
        (ground (
          arith,
          elem-register fewer s1 addr name,
          elem-register servers s addr name,
          str_eq_refl addr,
        ))
        (rw (names-register fewer s1 addr, str_eq_refl addr) lost)
