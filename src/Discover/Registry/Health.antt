-- ===== src/Discover/Registry/Health.antt =====
-- discover/server.go, `performHealthCheck` and `handleUnhealthyService`: which addresses a lookup
-- still yields after an instance went down.
use g_micor.Base.{
  String, ◌≡◌, refl, Bool, true, false, not, ◌&&◌, none, List, [], ◌∷◌, lookup, elem, arith, str_eq,
  eq_iff, str_eq_refl, lookup-delete, if_intro, if◌then◌else◌,
}
use g_micor.Discover.Registry.{
  Client, Service, read, remove_subscriber, notify_all, unregister_locked, handle_unhealthy_service,
  perform_health_check, is_service_healthy,
}
use g_micor.Discover.Registry.Notify.{notify_all-keeps}
use g_micor.Discover.Registry.Effects.{read-delete, elem-drop_addresses}
use g_micor.Discover.Registry.Invariant.{IsConsistent, handle_unhealthy_service-IsConsistent}

-- Each name that lists an address is one that the address registered last.
abbrev pub IsExact : Service → Type 0
IsExact s =
    (addr name : String)
    → elem addr (read s.s_name_to_s_addr name) ≡ true
    → elem name (read s.s_addr_to_s_names addr) ≡ true

-- The maps but that of the subscribers.
abbrev pub SameAddrs : Service → Service → Type 0
SameAddrs t s =
    (s.s_name_to_s_addr ≡ t.s_name_to_s_addr)
    × (s.s_addr_to_s_names ≡ t.s_addr_to_s_names)
    × (s.addr_store ≡ t.addr_store)

pub remove_subscriber-SameAddrs :
    (t : Service) (server addr : String) (s : Service)
    → SameAddrs t s
    → SameAddrs t (remove_subscriber server addr s)
unfolding remove_subscriber
remove_subscriber-SameAddrs t server addr s h =
    if_intro (SameAddrs t) (elem addr (read s.s_name_to_d_addr server)) _ s (λ _. h) (λ _. h)

-- Notifying changes the subscribers only.
pub notify_all-SameAddrs :
    (kind addr : String) (names : List String) (s : Service)
    → SameAddrs s (notify_all kind addr names s).0
notify_all-SameAddrs kind addr names s =
    notify_all-keeps (SameAddrs s) (remove_subscriber-SameAddrs s) kind addr names s
      (refl, refl, refl)

-- The names under which `handleUnhealthyService` leaves an address.
elem-handle_unhealthy_service :
    (addr : String) (s : Service) (a name : String)
    → IsConsistent s
    → elem a (read (handle_unhealthy_service addr s).0.s_name_to_s_addr name) ≡ (
        if elem name (read s.s_addr_to_s_names addr) && str_eq addr a
        then false
        else elem a (read s.s_name_to_s_addr name))
unfolding handle_unhealthy_service unregister_locked
elem-handle_unhealthy_service addr s a name v =
    rw
      ((notify_all-SameAddrs "del" addr (read s.s_addr_to_s_names addr)
        (unregister_locked addr s)).0)
      (elem-drop_addresses (read s.s_addr_to_s_names addr) addr s.s_name_to_s_addr a name
        v.addrs_distinct)

pub names-handle_unhealthy_service :
    (addr : String) (s : Service) (a : String)
    → read (handle_unhealthy_service addr s).0.s_addr_to_s_names a
      ≡ (if str_eq addr a then [] else read s.s_addr_to_s_names a)
unfolding handle_unhealthy_service unregister_locked
names-handle_unhealthy_service addr s a =
    rw
      ((notify_all-SameAddrs "del" addr (read s.s_addr_to_s_names addr)
        (unregister_locked addr s)).1)
      (read-delete addr a s.s_addr_to_s_names)

pub client-handle_unhealthy_service :
    (addr : String) (s : Service) (a : String)
    → lookup a (handle_unhealthy_service addr s).0.addr_store
      ≡ (if str_eq addr a then none else lookup a s.addr_store)
unfolding handle_unhealthy_service unregister_locked
client-handle_unhealthy_service addr s a =
    rw
      ((notify_all-SameAddrs "del" addr (read s.s_addr_to_s_names addr)
        (unregister_locked addr s)).2)
      (ground (arith, lookup-delete addr a s.addr_store, eq_iff addr a))

pub handle_unhealthy_service-IsExact :
    (addr : String) (s : Service)
    → IsConsistent s
    → IsExact s
    → IsExact (handle_unhealthy_service addr s).0
handle_unhealthy_service-IsExact addr s v x a name =
    rw (elem-handle_unhealthy_service addr s a name v, names-handle_unhealthy_service addr s a)
      (ground (arith, x a name, eq_iff addr a))

-- A health check of the addresses in `order` takes exactly the unhealthy ones among them off every
-- name, and leaves every other address where it stood, if the names that list an address are those
-- that it registered last.
pub elem-perform_health_check :
    (ping : Client → Bool) (order : List String) (s : Service) (a name : String)
    → IsConsistent s
    → IsExact s
    → elem a (read (perform_health_check ping order s).0.s_name_to_s_addr name) ≡ (
        if elem a order && not (is_service_healthy ping a s)
        then false
        else elem a (read s.s_name_to_s_addr name))
unfolding perform_health_check elem
elem-perform_health_check ping [] s a name v x = refl
elem-perform_health_check ping (b ∷ order) s a name v x =
    let s1 = (handle_unhealthy_service b s).0 in
    ground (
      arith,
      elem-perform_health_check ping order s a name v x,
      elem-perform_health_check ping order s1 a name (handle_unhealthy_service-IsConsistent b s v)
          (handle_unhealthy_service-IsExact b s v x),
      elem-handle_unhealthy_service b s a name v,
      client-handle_unhealthy_service b s a,
      x a name,
      eq_iff b a,
    )

-- An address that is still listed under a name which its last registration left out stays listed
-- when it goes down, though its connection is gone.
pub stale_after_unhealthy :
    (addr name : String) (s : Service)
    → IsConsistent s
    → elem addr (read s.s_name_to_s_addr name) ≡ true
    → elem name (read s.s_addr_to_s_names addr) ≡ false
    → (elem addr (read (handle_unhealthy_service addr s).0.s_name_to_s_addr name) ≡ true)
      × (lookup addr (handle_unhealthy_service addr s).0.addr_store ≡ none)
stale_after_unhealthy addr name s v listed dropped = ground (
  arith,
  elem-handle_unhealthy_service addr s addr name v,
  client-handle_unhealthy_service addr s addr,
  str_eq_refl addr,
)
