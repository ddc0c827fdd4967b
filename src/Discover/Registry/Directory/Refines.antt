-- ===== src/Discover/Registry/Directory/Refines.antt =====
-- discover/server.go does what the directory of instances says.
use g_micor.Base.{
  String, ◌≡◌, refl, ap, sym, subst, ◌∙◌, false, Option, none, some, List, [], ◌∷◌, lookup, elem,
  Option-cases, List-cases, Distinct, ◌≢◌, inl, inr,
}
use g_micor.Discover.Registry.{
  Client, Peer, Service, DiscoverOut, found, server_not_find, unknown_peer, subscribe, read,
  client_addr, empty_service, discover,
}
use g_micor.Discover.Registry.Invariant.{IsConsistent, empty_service-IsConsistent}
use g_micor.Discover.Registry.Health.{SameAddrs, remove_subscriber-SameAddrs}
use g_micor.Discover.Registry.Steps.{
  Step, Step-IsConsistent, registers, discovers, checks, notify_failed,
}
use g_micor.Discover.Registry.Directory.{
  Directory, names_of, Event, registration, lookup_of, health_check, lost_notification,
  handle_event, handle_events, change, change_all, Grows, AllGrow,
}
use g_micor.Discover.Registry.Directory.Holds.{
  Holds, Holds-SameAddrs, registration-Holds, health_check-Holds,
}

handle_event-Step :
    (dial : String → Option Client) (e : Event) (s : Service) → Step dial s (handle_event dial e s)
unfolding handle_event
handle_event-Step dial (registration peer port servers) s = registers s peer port servers
handle_event-Step dial (lookup_of peer port server) s = discovers s peer port server
handle_event-Step dial (health_check ping order) s = checks s ping order
handle_event-Step dial (lost_notification server addr) s = notify_failed s server addr

discover-SameAddrs :
    (peer : Option Peer) (port server : String) (s : Service)
    → SameAddrs s (discover peer port server s).1
unfolding discover subscribe
discover-SameAddrs peer port server s = elim (Option-cases (client_addr peer port)) [
  | inl e ↦ rw (e, discover) (refl, refl, refl)
  | inr (from, e) ↦
      rw (e, discover)
        (elim (List-cases (read s.s_name_to_s_addr server)) [
          | inl e' ↦ rw (e', discover) (refl, refl, refl)
          | inr (a, rest, e') ↦ rw (e', discover) (refl, refl, refl)
        ])
]

handle_event-Holds :
    (dial : String → Option Client) (e : Event) (s : Service) (d : Directory)
    → Grows dial e d
    → IsConsistent s
    → Holds s d
    → Holds (handle_event dial e s) (change dial e d)
unfolding handle_event change Grows
handle_event-Holds dial (registration peer port servers) s d grows v h =
    registration-Holds dial peer port servers s d grows h
handle_event-Holds dial (lookup_of peer port server) s d grows v h =
    Holds-SameAddrs (discover-SameAddrs peer port server s) h
handle_event-Holds dial (health_check ping order) s d grows v h =
    health_check-Holds ping order s d v h
handle_event-Holds dial (lost_notification server addr) s d grows v h =
    Holds-SameAddrs (remove_subscriber-SameAddrs s server addr s (refl, refl, refl)) h

handle_events-Holds :
    (dial : String → Option Client) (events : List Event) (s : Service) (d : Directory)
    → AllGrow dial events d
    → IsConsistent s
    → Holds s d
    → IsConsistent (handle_events dial events s)
      × Holds (handle_events dial events s) (change_all dial events d)
unfolding handle_events change_all AllGrow
handle_events-Holds dial [] s d grows v h = (v, h)
handle_events-Holds dial (e ∷ events) s d grows v h =
    handle_events-Holds dial events (handle_event dial e s) (change dial e d) grows.1
      (Step-IsConsistent (handle_event-Step dial e s) v) (handle_event-Holds dial e s d grows.0 v h)

abbrev pub nobody : Directory
nobody = λ addr. none

empty_service-Holds : Holds empty_service nobody
unfolding lookup elem
empty_service-Holds = record {
  clients = λ addr. refl;
  registered = λ addr. refl;
  listed = λ addr name. refl;
}

-- Whether an answer is the one that a directory has for a name.
abbrev pub Answers : Directory → String → DiscoverOut → Type 0
Answers d name (found resp) =
    (resp.server ≡ name)
    × (resp.addr ≢ [])
    × Distinct resp.addr
    × ((addr : String) → elem addr resp.addr ≡ elem name (names_of (d addr)))
Answers d name server_not_find = (addr : String) → elem name (names_of (d addr)) ≡ false
Answers d name unknown_peer = ⊥

discover-Answers :
    (s : Service) (d : Directory) (asker : Option Peer) (port name : String) {from : String}
    → client_addr asker port ≡ some from
    → IsConsistent s
    → Holds s d
    → Answers d name (discover asker port name s).0
unfolding discover elem
discover-Answers s d asker port name caller v h =
    rw (caller, discover)
      (elim (List-cases (read s.s_name_to_s_addr name)) [
        | inl e ↦ rw (e, discover) (λ addr. sym (h.listed addr name) ∙ ap (elem addr) e)
        | inr (a, rest, e) ↦
            rw (e, discover)
              (
                refl,
                λ e. cc,
                subst Distinct e (v.addrs_distinct name),
                λ addr. ap (elem addr) (sym e) ∙ h.listed addr name,
              )
      ])

-- After any registrations, lookups, health checks and failed notifications, in any order, in which no
-- registration drops a name of its address, a lookup by a caller whose address is known answers as the
-- directory of running instances does: with the addresses of those that serve the name, each
-- of them once and no other, or, if there are none, that the service is not found.
pub handle_events-Answers :
    (dial : String → Option Client) (events : List Event) (asker : Option Peer) (port name : String)
    {from : String}
    → AllGrow dial events nobody
    → client_addr asker port ≡ some from
    → Answers
        (change_all dial events nobody)
        name
        (discover asker port name (handle_events dial events empty_service)).0
handle_events-Answers dial events asker port name grows caller =
    let (v, h) =
      handle_events-Holds dial events empty_service nobody grows empty_service-IsConsistent
        empty_service-Holds in
    discover-Answers _ _ asker port name caller v h
