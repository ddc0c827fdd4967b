-- ===== src/Discover/Registry/Sections/Tests.antt =====
-- discover/server.go: two races at a centre with one instance.
use g_micor.Base.{
  String, Bool, ◌≡◌, ◌≢◌, refl, true, false, Option, none, some, List, [], ◌∷◌, ◌++◌, All, elem,
  lookup, insert,
}
use g_micor.Discover.Registry.{
  Client, Sent, Resp, other, client_addr, read, register_locked, is_service_healthy, add_addresses,
  notify_subscribers, notify_loop,
}
use g_micor.Discover.Registry.Sections.{
  Centre, new_centre, begin_register, Reach, start, next, registers, reads, notifies, notify_next,
  begin_discover, shifted,
}
use g_micor.Discover.Registry.Sections.Coherence.{IsCoherent, Reach-IsCoherent}
use g_micor.Discover.Registry.Sections.Removed.{removed_anew, removal_around_registration}
use g_micor.Discover.Registry.Sections.Races.{
  missed_registration, lookup_around_registration, IsDone,
}

abbrev dial_all : String → Option Client
dial_all addr = some (record { target = addr })

-- Every array has room.
abbrev roomy : String → Bool
roomy name = true

-- Instance a serves user.
abbrev with_a : Centre
with_a = begin_register "a" ("user" ∷ []) (record { target = "a" }) roomy new_centre

with_a-Reach : Reach dial_all with_a
unfolding client_addr
with_a-Reach = next start (
    registers new_centre (some other) "a" ("user" ∷ []) "a" (record { target = "a" }) roomy refl
      refl)

Reach-IsCoherent_example : IsCoherent (begin_discover "b" "user" with_a)
unfolding client_addr begin_register register_locked add_addresses lookup insert elem
Reach-IsCoherent_example =
    Reach-IsCoherent {dial = dial_all}
      (next with_a-Reach (reads with_a (some other) "b" "user" "b" refl (λ e. cc)))

-- The subscribers of user have been told of a: there are none.
abbrev with_a_told : Centre
with_a_told = notify_next 0 "register" "a" "user" [] with_a

with_a_told-Reach : Reach dial_all with_a_told
unfolding client_addr begin_register
with_a_told-Reach = next with_a-Reach (notifies with_a 0 "register" "a" "user" [] refl)

abbrev missed : Centre
missed = lookup_around_registration "b" "user" "c" (record { target = "c" }) roomy with_a_told

missed_registration_example :
    Reach dial_all missed
    × (elem "c" (read missed.service.s_name_to_s_addr "user") ≡ true)
    × (elem "b" (read missed.service.s_name_to_d_addr "user") ≡ true)
    × ((resp : Resp) × (missed.answers ≡ with_a_told.answers ++ resp ∷ [])
        × (elem "c" resp.addr ≡ false))
    × ((new : List Sent) × (missed.sent ≡ with_a_told.sent ++ new)
        × All (λ t. t.subscriber ≢ "b") new)
    × All IsDone missed.notifying
unfolding client_addr begin_register register_locked add_addresses lookup insert elem notify_next
    notify_subscribers notify_loop
missed_registration_example =
    missed_registration "b" "user" "c" (record { target = "c" }) roomy dial_all (some other)
      (some other) "c" "b" refl refl refl with_a_told with_a_told-Reach (λ e. cc) refl refl tt
      (refl, tt)

abbrev removed : Centre
removed = removal_around_registration "a" ("user" ∷ []) (record { target = "a" }) roomy with_a

removed_anew_example :
    Reach dial_all removed
    × (lookup "a" removed.service.addr_store ≡ none)
    × (elem "a" (read removed.service.s_name_to_s_addr "user") ≡ false)
unfolding client_addr begin_register register_locked lookup insert elem is_service_healthy
removed_anew_example =
    removed_anew "a" ("user" ∷ []) (record { target = "a" }) roomy dial_all (some other) "a" refl
      refl (λ client. false) with_a "user" refl refl refl with_a-Reach

-- What a lookup has read is edited: a is removed in place, and its answer holds b twice.
edited_in_place : shifted "a" ("a" ∷ "b" ∷ []) ≡ "b" ∷ "b" ∷ []
unfolding shifted
edited_in_place = refl
