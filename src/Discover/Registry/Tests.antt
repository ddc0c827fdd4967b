-- ===== src/Discover/Registry/Tests.antt =====
-- discover/server.go: runs of the registration centre, and the theorems at such runs.
use g_micor.Base.{
  String, ◌≡◌, refl, true, Option, none, some, List, [], ◌∷◌, ◌++◌, lookup, insert, remove_first,
  elem, str_eq,
}
use g_micor.Discover.Registry.{
  Client, Service, NotifyReq, found, other, tcp, read, empty_service, client_addr, register,
  discover, notify_subscribers, remove_subscriber, handle_unhealthy_service, perform_health_check,
  unregister_locked, drop_address, drop_addresses, notify_loop, notify_all, register_locked,
  add_addresses,
}
use g_micor.Discover.Registry.Invariant.{
  IsConsistent, empty_service-IsConsistent, register-IsConsistent,
}
use g_micor.Discover.Registry.Notify.{told, notify_subscribers_skips}
use g_micor.Discover.Registry.Health.{IsExact}
use g_micor.Discover.Registry.Lookup.{register-IsExact, reregister_stale}
use g_micor.Discover.Registry.Directory.{
  Event, registration, health_check, started, change, change_all, handle_event, handle_events,
  Grows, AllGrow,
}
use g_micor.Discover.Registry.Directory.Refines.{nobody, Answers, handle_events-Answers}

abbrev dial_all : String → Option Client
dial_all addr = some (record { target = addr })

abbrev user_only : List String
user_only = "user" ∷ []

abbrev after_a : Service
after_a = (register dial_all (some other) "a" user_only empty_service).1

abbrev after_ab : Service
after_ab = (register dial_all (some (tcp "::1")) ":80" user_only after_a).1

-- An IPv6 peer's address is its IP in brackets and the port it sent.
tcp_addr : client_addr (some (tcp "::1")) ":80" ≡ some "[::1]:80"
unfolding client_addr
tcp_addr = refl

lookup_user : read after_ab.s_name_to_s_addr "user" ≡ "a" ∷ "[::1]:80" ∷ []
unfolding register register_locked notify_all notify_subscribers notify_loop client_addr lookup
    insert elem add_addresses
lookup_user = refl

ask_user :
    (discover (some other) "b" "user" after_ab).0
    ≡ found (record { server = "user"; addr = "a" ∷ "[::1]:80" ∷ [] })
unfolding discover register register_locked notify_all notify_subscribers notify_loop client_addr
    lookup insert elem add_addresses
ask_user = refl

after_a-IsConsistent : IsConsistent after_a
after_a-IsConsistent =
    register-IsConsistent dial_all (some other) "a" user_only empty_service
      empty_service-IsConsistent

after_a-IsExact : IsExact after_a
unfolding client_addr elem lookup
after_a-IsExact =
    register-IsExact dial_all (some other) "a" refl refl user_only empty_service (λ name h. cc)
      (λ addr name h. cc)

other_addr : client_addr (some other) "a" ≡ some "a"
unfolding client_addr
other_addr = refl

reregister_stale_example :
    let s2 = (register dial_all (some other) "a" ("order" ∷ []) after_a).1 in
    (elem "a" (read (handle_unhealthy_service "a" s2).0.s_name_to_s_addr "user") ≡ true)
    × (lookup "a" (handle_unhealthy_service "a" s2).0.addr_store ≡ none)
unfolding elem
reregister_stale_example =
    reregister_stale dial_all (some other) "a" other_addr refl user_only ("order" ∷ []) "user"
      empty_service empty_service-IsConsistent refl refl

-- Three subscribers of a name, the first of which has no connection.
abbrev with_lost : Service
with_lost = record {
  s_name_to_s_addr = [];
  s_addr_to_s_names = [];
  s_name_to_d_addr = ("user", "lost" ∷ "b" ∷ "c" ∷ []) ∷ [];
  addr_store = ("b", record { target = "b" }) ∷ ("c", record { target = "c" }) ∷ [];
}

abbrev del_user : NotifyReq
del_user = record { kind = "del"; server = "user"; addr = "a" }

notify_subscribers_skips_example : notify_subscribers del_user with_lost ≡ (
  remove_subscriber "user" "lost" with_lost,
  told del_user with_lost.addr_store ([] ++ ("c" ∷ "c" ∷ [])),
)
unfolding lookup
notify_subscribers_skips_example =
    notify_subscribers_skips del_user with_lost [] "lost" "b" ("c" ∷ []) refl tt refl
      (refl, (refl, tt))

abbrev without_lost : Service
without_lost = record with_lost { s_name_to_d_addr = ("user", "c" ∷ "b" ∷ []) ∷ [] }

-- Two instances start, one of them does not answer, and someone asks.
abbrev events : List Event
events =
    registration (some other) "a" user_only
    ∷ registration (some (tcp "::1")) ":80" user_only
    ∷ health_check (λ client. str_eq client.target "a") ("a" ∷ "[::1]:80" ∷ [])
    ∷ []

events-AllGrow : AllGrow dial_all events nobody
unfolding AllGrow Grows started client_addr change elem
events-AllGrow = (λ name e. cc, (λ name e. cc, (tt, tt)))

only_a :
    (discover (some other) "b" "user" (handle_events dial_all events empty_service)).0
    ≡ found (record { server = "user"; addr = "a" ∷ [] })
unfolding discover handle_events handle_event client_addr lookup perform_health_check register
    notify_all notify_subscribers notify_loop register_locked insert handle_unhealthy_service
    unregister_locked drop_addresses drop_address elem add_addresses remove_first
only_a = refl

handle_events-Answers_example :
    Answers
      (change_all dial_all events nobody)
      "user"
      (discover (some other) "b" "user" (handle_events dial_all events empty_service)).0
unfolding client_addr
handle_events-Answers_example =
    handle_events-Answers dial_all events (some other) "b" "user" events-AllGrow refl
