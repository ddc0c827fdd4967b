-- ===== src/Discover/Registry/Sections/Coherence.antt =====
-- discover/server.go: what holds in every state of the centre.
use g_micor.Base.{
  String, ◌≢◌, Bool, true, false, ◌&&◌, if◌then◌else◌, Option, List, [], ◌∷◌, map, All, All-append,
  All-remove_at, All-get_elem?,
}
use g_micor.Discover.Registry.{Client}
use g_micor.Discover.Registry.Notify.{notify_subscribers-keeps}
use g_micor.Discover.Registry.Invariant.{
  IsConsistent, empty_service-IsConsistent, register_locked-IsConsistent, subscribe-IsConsistent,
  unregister_locked-IsConsistent, remove_subscriber-IsConsistent,
}
use g_micor.Discover.Registry.Sections.{
  Lookup, Centre, overlay, see, see_register, see_unregister, begin_register, begin_discover,
  end_discover, begin_unregister, notify_next, Step, Reach, registers, reads, subscribes,
  finds_dead, unregisters, notifies, notify_failed, start, next,
}

abbrev pub Shows : Lookup → Type 0
Shows l = l.shown ≢ []

pub record IsCoherent (c : Centre) : Type 0 where
  pub consistent : IsConsistent c.service
  pub lookups_show : All Shows c.lookups
  pub answers_show : All (λ resp. resp.addr ≢ []) c.answers

overlay-nonempty : (new xs : List String) → xs ≢ [] → overlay new xs ≢ []
unfolding overlay
overlay-nonempty new [] h = h
overlay-nonempty [] (x ∷ xs) h = h
overlay-nonempty (y ∷ new) (x ∷ xs) h = λ e. cc

see-Shows :
    (edited : Bool) (new : List String) (moves : Bool) (l : Lookup)
    → Shows l
    → Shows (see edited new moves l)
unfolding see
see-Shows edited new moves l h =
    elim (edited && l.shares) as (λ b. (if b then overlay new l.shown else l.shown) ≢ []) [
      | true ↦ overlay-nonempty new l.shown h
      | false ↦ h
    ]

All-see :
    (f : Lookup → Lookup) (ls : List Lookup)
    → ((l : Lookup) → Shows l → Shows (f l))
    → All Shows ls
    → All Shows (map f ls)
All-see f [] keeps h = tt
All-see f (l ∷ ls) keeps h = (keeps l h.0, All-see f ls keeps h.1)

Step-IsCoherent :
    {dial : String → Option Client} {c d : Centre} → Step dial c d → IsCoherent c → IsCoherent d
unfolding begin_register begin_discover see_register see_unregister end_discover begin_unregister
    notify_next
Step-IsCoherent (registers c peer port servers addr client in_place known dialled) v = record {
  consistent = register_locked-IsConsistent addr servers client c.service v.consistent;
  lookups_show = All-see _ c.lookups (λ l h. see-Shows _ _ _ l h) v.lookups_show;
  answers_show = v.answers_show;
}
Step-IsCoherent (reads c peer port name from known listed) v = record {
  consistent = v.consistent;
  lookups_show = All-append Shows c.lookups _ v.lookups_show (listed, tt);
  answers_show = v.answers_show;
}
Step-IsCoherent (subscribes c i l there) v = record {
  consistent = subscribe-IsConsistent l.server l.from c.service v.consistent;
  lookups_show = All-remove_at Shows i c.lookups v.lookups_show;
  answers_show =
      All-append (λ resp. resp.addr ≢ []) c.answers _ v.answers_show
        (All-get_elem? Shows c.lookups i l v.lookups_show there, tt);
}
Step-IsCoherent (finds_dead c ping addr none_yet sick) v = record {
  consistent = v.consistent;
  lookups_show = v.lookups_show;
  answers_show = v.answers_show;
}
Step-IsCoherent (unregisters c addr found) v = record {
  consistent = unregister_locked-IsConsistent addr c.service v.consistent;
  lookups_show = All-see _ c.lookups (λ l h. see-Shows _ _ _ l h) v.lookups_show;
  answers_show = v.answers_show;
}
Step-IsCoherent (notifies c i kind addr name names there) v = record {
  consistent =
      notify_subscribers-keeps IsConsistent remove_subscriber-IsConsistent
        (record { kind = kind; server = name; addr = addr }) c.service v.consistent;
  lookups_show = v.lookups_show;
  answers_show = v.answers_show;
}
Step-IsCoherent (notify_failed c server addr) v = record {
  consistent = remove_subscriber-IsConsistent server addr c.service v.consistent;
  lookups_show = v.lookups_show;
  answers_show = v.answers_show;
}

-- In whatever order the handlers' sections run, the four maps are consistent in every state that the centre
-- reaches, and every answer that a lookup has given, or would give at present, holds some addresses, though
-- registrations and removals may edit what it has read.
pub Reach-IsCoherent : {dial : String → Option Client} {c : Centre} → Reach dial c → IsCoherent c
Reach-IsCoherent start = record {
  consistent = empty_service-IsConsistent;
  lookups_show = tt;
  answers_show = tt;
}
Reach-IsCoherent (next r st) = Step-IsCoherent st (Reach-IsCoherent r)
