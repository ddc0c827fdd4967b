-- ===== src/Discover/Registry/Invariant.antt =====
-- discover/server.go: what the four maps say of one another, and that every handler keeps it.
use g_micor.Base.{
  inl, inr, List-cases, String, ◌≡◌, refl, Bool, true, Option, List, [], ◌∷◌, lookup, is_some, elem,
  Distinct, arith, str_eq, eq_iff, lookup-insert, lookup-delete, Distinct-remove_first,
  Option-cases, if_intro,
}
use g_micor.Discover.Registry.{
  Client, Sent, Service, Peer, read, empty_service, register_locked, remove_subscriber, notify_all,
  register, subscribe, discover, unregister_locked, handle_unhealthy_service, perform_health_check,
  is_service_healthy, client_addr,
}
use g_micor.Discover.Registry.Notify.{notify_all-keeps}
use g_micor.Discover.Registry.Effects.{
  AllDistinct, NoneEmpty, read-insert, read-delete, elem-add_addresses, add_new-AllDistinct,
  add_addresses-AllDistinct, add_addresses-NoneEmpty, elem-drop_addresses,
  drop_addresses-AllDistinct, drop_addresses-NoneEmpty,
}

pub record IsConsistent (s : Service) : Type 0 where
  -- no address stands twice under a name, and no name is kept without an address
  pub addrs_distinct : AllDistinct s.s_name_to_s_addr
  pub addrs_some : NoneEmpty s.s_name_to_s_addr
  -- no subscriber stands twice under a name
  pub subscribers_distinct : AllDistinct s.s_name_to_d_addr
  -- each name that an address registered lists the address
  pub advertised :
      (addr name : String)
      → elem name (read s.s_addr_to_s_names addr) ≡ true
      → elem addr (read s.s_name_to_s_addr name) ≡ true
  -- the addresses with a connection are those that registered
  pub connected :
      (addr : String)
      → is_some (lookup addr s.addr_store) ≡ is_some (lookup addr s.s_addr_to_s_names)

pub empty_service-IsConsistent : IsConsistent empty_service
unfolding lookup elem
empty_service-IsConsistent = record {
  addrs_distinct = λ _. tt;
  addrs_some = λ _ e. cc;
  subscribers_distinct = λ _. tt;
  advertised = λ addr name e. cc;
  connected = λ addr. refl;
}

pub register_locked-IsConsistent :
    (addr : String) (servers : List String) (client : Client) (s : Service)
    → IsConsistent s
    → IsConsistent (register_locked addr servers client s)
unfolding register_locked
register_locked-IsConsistent addr servers client s v = record {
  addrs_distinct = add_addresses-AllDistinct servers addr s.s_name_to_s_addr v.addrs_distinct;
  addrs_some = add_addresses-NoneEmpty servers addr s.s_name_to_s_addr v.addrs_some;
  subscribers_distinct = v.subscribers_distinct;
  advertised = λ a name h. ground (
    arith,
    elem-add_addresses servers addr s.s_name_to_s_addr a name,
    read-insert addr a servers s.s_addr_to_s_names,
    v.advertised a name,
    eq_iff addr a,
  );
  connected = λ a. ground (
    arith,
    lookup-insert addr a client s.addr_store,
    lookup-insert addr a servers s.s_addr_to_s_names,
    v.connected a,
  );
}

pub remove_subscriber-IsConsistent :
    (server addr : String) (s : Service)
    → IsConsistent s
    → IsConsistent (remove_subscriber server addr s)
unfolding remove_subscriber
remove_subscriber-IsConsistent server addr s v =
    if_intro IsConsistent (elem addr (read s.s_name_to_d_addr server)) _ s
      (λ _. record {
        addrs_distinct = v.addrs_distinct;
        addrs_some = v.addrs_some;
        subscribers_distinct = λ name. rw read-insert (
            if_intro Distinct (str_eq server name) _ _
              (λ _.
                Distinct-remove_first addr (read s.s_name_to_d_addr server)
                  (v.subscribers_distinct server))
              (λ _. v.subscribers_distinct name));
        advertised = v.advertised;
        connected = v.connected;
      })
      (λ _. v)

pub unregister_locked-IsConsistent :
    (addr : String) (s : Service) → IsConsistent s → IsConsistent (unregister_locked addr s)
unfolding unregister_locked
unregister_locked-IsConsistent addr s v = record {
  addrs_distinct =
      drop_addresses-AllDistinct (read s.s_addr_to_s_names addr) addr s.s_name_to_s_addr
        v.addrs_distinct;
  addrs_some =
      drop_addresses-NoneEmpty (read s.s_addr_to_s_names addr) addr s.s_name_to_s_addr v.addrs_some;
  subscribers_distinct = v.subscribers_distinct;
  advertised = λ a name h.
      unfold elem in
      ground (
        arith,
        elem-drop_addresses (read s.s_addr_to_s_names addr) addr s.s_name_to_s_addr a name
            v.addrs_distinct,
        read-delete addr a s.s_addr_to_s_names,
        v.advertised a name,
        eq_iff addr a,
      );
  connected = λ a. ground (
    arith,
    lookup-delete addr a s.addr_store,
    lookup-delete addr a s.s_addr_to_s_names,
    v.connected a,
    eq_iff addr a,
  );
}

pub notify_all-IsConsistent :
    (kind addr : String) (names : List String) (s : Service)
    → IsConsistent s
    → IsConsistent (notify_all kind addr names s).0
notify_all-IsConsistent = notify_all-keeps IsConsistent remove_subscriber-IsConsistent

-- Every handler keeps the maps consistent: registration,
pub register-IsConsistent :
    (dial : String → Option Client) (peer : Option Peer) (port : String) (servers : List String)
    (s : Service)
    → IsConsistent s
    → IsConsistent (register dial peer port servers s).1
unfolding register
register-IsConsistent dial peer port servers s v = elim (Option-cases (client_addr peer port)) [
  | inl e ↦ rw (e, register) v
  | inr (addr, e) ↦ elim (Option-cases (dial addr)) [
    | inl f ↦ rw (e, register) (rw f v)
    | inr (client, f) ↦
        rw (e, register)
          (rw f (
            notify_all-IsConsistent "register" addr servers _
              (register_locked-IsConsistent addr servers client s v)))
  ]
]

pub subscribe-IsConsistent :
    (server addr : String) (s : Service) → IsConsistent s → IsConsistent (subscribe server addr s)
unfolding subscribe
subscribe-IsConsistent server addr s v = record {
  addrs_distinct = v.addrs_distinct;
  addrs_some = v.addrs_some;
  subscribers_distinct = add_new-AllDistinct server addr s.s_name_to_d_addr v.subscribers_distinct;
  advertised = v.advertised;
  connected = v.connected;
}

-- discovery,
pub discover-IsConsistent :
    (peer : Option Peer) (port server : String) (s : Service)
    → IsConsistent s
    → IsConsistent (discover peer port server s).1
unfolding discover
discover-IsConsistent peer port server s v = elim (Option-cases (client_addr peer port)) [
  | inl e ↦ rw (e, discover) v
  | inr (addr, e) ↦ elim (List-cases (read s.s_name_to_s_addr server)) [
    | inl f ↦ rw (e, discover) (rw f v)
    | inr (x, rest, f) ↦ rw (e, discover) (rw f (subscribe-IsConsistent server addr s v))
  ]
]

pub handle_unhealthy_service-IsConsistent :
    (addr : String) (s : Service)
    → IsConsistent s
    → IsConsistent (handle_unhealthy_service addr s).0
unfolding handle_unhealthy_service
handle_unhealthy_service-IsConsistent addr s v =
    notify_all-IsConsistent "del" addr _ _ (unregister_locked-IsConsistent addr s v)

pub perform_health_check-IsConsistent :
    (ping : Client → Bool) (order : List String) (s : Service)
    → IsConsistent s
    → IsConsistent (perform_health_check ping order s).0
unfolding perform_health_check
perform_health_check-IsConsistent ping [] s v = v
perform_health_check-IsConsistent ping (addr ∷ order) s v =
    if_intro (λ (r : Service × List Sent). IsConsistent (r.0)) (is_service_healthy ping addr s) _ _
      (λ _. perform_health_check-IsConsistent ping order s v)
      (λ _.
        perform_health_check-IsConsistent ping order _
          (handle_unhealthy_service-IsConsistent addr s v))
