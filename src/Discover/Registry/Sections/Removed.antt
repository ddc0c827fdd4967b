-- ===== src/Discover/Registry/Sections/Removed.antt =====
-- discover/server.go: the health check, and a registration at the same time.
use g_micor.Base.{
  String, ◌≡◌, refl, ap, Bool, true, false, Option, none, some, List, [], ◌∷◌, lookup, elem,
  str_eq_refl, arith, lookup-delete,
}
use g_micor.Discover.Registry.{
  Client, Service, Peer, client_addr, read, register_locked, unregister_locked, is_service_healthy,
}
use g_micor.Discover.Registry.Effects.{elem-drop_addresses, read-insert}
use g_micor.Discover.Registry.Invariant.{IsConsistent, register_locked-IsConsistent}
use g_micor.Discover.Registry.Sections.{
  Centre, registers, finds_dead, unregisters, Reach, next, begin_register, begin_unregister,
}
use g_micor.Discover.Registry.Sections.Coherence.{Reach-IsCoherent}

-- An instance is found unhealthy, registers again, and is removed.
module _ (addr : String) (servers : List String) (client : Client) (in_place : String → Bool) where
  after_check : Centre → Centre
  after_check c = record c { dead = addr ∷ [] }

  after_return : Centre → Centre
  after_return c = begin_register addr servers client in_place (after_check c)

  unfoldable pub removal_around_registration : Centre → Centre
  unfolding after_check after_return
  removal_around_registration c = begin_unregister addr (after_return c)

  names_again :
      (s : Service) → read (register_locked addr servers client s).s_addr_to_s_names addr ≡ servers
  unfolding register_locked
  names_again s =
      ground (arith, read-insert addr addr servers s.s_addr_to_s_names, str_eq_refl addr)

  module _ (dial : String → Option Client) (peer : Option Peer) (port : String)
      (known : client_addr peer port ≡ some addr) (dialled : dial addr ≡ some client) where
    after_removal-Reach :
        (ping : Client → Bool) (c : Centre)
        → c.dead ≡ []
        → is_service_healthy ping addr c.service ≡ false
        → Reach dial c
        → Reach dial (removal_around_registration c)
    unfolding removal_around_registration after_check after_return begin_register
    after_removal-Reach ping c none_yet sick r =
        next
          (next (next r (finds_dead c ping addr none_yet sick))
            (registers (after_check c) peer port servers addr client in_place known dialled))
          (unregisters (after_return c) addr refl)

    -- The race: a ping of an instance fails while the health check has no other address to remove, the instance
    -- comes back and registers, and then the health check removes it. At the end of these three steps, in a
    -- state that the centre reaches, the instance is gone: it has no connection, and it is not listed under
    -- any of the names that it has just registered.
    pub removed_anew :
        (ping : Client → Bool) (c : Centre) (name : String)
        → elem name servers ≡ true
        → c.dead ≡ []
        → is_service_healthy ping addr c.service ≡ false
        → Reach dial c
        → let d = removal_around_registration c in
          Reach dial d
          × (lookup addr d.service.addr_store ≡ none)
          × (elem addr (read d.service.s_name_to_s_addr name) ≡ false)
    unfolding removal_around_registration after_check after_return begin_register begin_unregister
        unregister_locked
    removed_anew ping c name has none_yet sick r = (
      after_removal-Reach ping c none_yet sick r,
      ground (
        arith,
        lookup-delete addr addr (register_locked addr servers client c.service).addr_store,
        str_eq_refl addr,
      ),
      unlisted (Reach-IsCoherent r).consistent,
    )
      where
        unlisted :
            IsConsistent c.service
            → elem addr (
                read
                  (unregister_locked addr
                    (register_locked addr servers client c.service)).s_name_to_s_addr
                  name)
              ≡ false
        unlisted v =
            let s1 = register_locked addr servers client c.service in
            ground (
              arith,
              elem-drop_addresses (read s1.s_addr_to_s_names addr) addr s1.s_name_to_s_addr addr
                  name
                  (register_locked-IsConsistent addr servers client c.service v).addrs_distinct,
              ap (elem name) (names_again c.service),
              str_eq_refl addr,
              has,
            )
