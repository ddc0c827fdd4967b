-- ===== src/Discover/Registry/Sections.antt =====
-- discover/server.go as its handlers run at the same time: a step is what one of them does under the
-- lock, and any number of registrations, lookups and notifications are under way, with the one health
-- check. The notification of the subscribers of one name is one step.
pub mod Coherence
pub mod Removed
pub mod Races
mod Tests
use g_micor.Base.{
  ℕ, String, ◌≡◌, ◌≢◌, Bool, true, false, not, ◌&&◌, str_eq, if◌then◌else◌, elem, remove_first,
  Dict, Option, some, List, [], ◌∷◌, ◌++◌, map, All, All-append, All-remove_at, All-get_elem?,
  get_elem?, remove_at, modify, subst, sym,
}
use g_micor.Discover.Registry.{
  Client, Service, Peer, Sent, Resp, is_empty, client_addr, empty_service, read, register_locked,
  subscribe, unregister_locked, is_service_healthy, notify_subscribers, remove_subscriber,
}
use g_micor.Discover.Registry.Notify.{notify_subscribers-keeps}
use g_micor.Discover.Registry.Invariant.{
  IsConsistent, empty_service-IsConsistent, register_locked-IsConsistent, subscribe-IsConsistent,
  unregister_locked-IsConsistent, remove_subscriber-IsConsistent,
}

-- A call of `Discover` that has read the addresses of its name, and is to subscribe its caller. It copies
-- them last, so an edit of their array shows in the answer: `shown` is what its slice shows at present, and
-- `shares` whether it is still the array of the map's slice.
pub record Lookup : Type 0 where
  pub from : String
  pub server : String
  pub shown : List String
  pub shares : Bool

-- A handler that has changed the maps, with the names whose subscribers it is to notify yet.
pub record Notifying : Type 0 where
  pub kind : String
  pub addr : String
  pub names : List String

-- The centre, with what is under way: `dead` is the address that the health check found unhealthy last and
-- has not removed yet. `sent` and `answers` are what went out.
pub record Centre : Type 0 where
  pub service : Service
  pub lookups : List Lookup
  pub notifying : List Notifying
  pub dead : List String
  pub sent : List Sent
  pub answers : List Resp

abbrev pub new_centre : Centre
new_centre = record {
  service = empty_service;
  lookups = [];
  notifying = [];
  dead = [];
  sent = [];
  answers = [];
}

-- What a slice shows when its array gets new contents.
unfoldable pub overlay : List String → List String → List String
overlay new [] = []
overlay [] (x ∷ xs) = x ∷ xs
overlay (y ∷ new) (x ∷ xs) = y ∷ overlay new xs

abbrev pub last_of : String → List String → String
last_of x [] = x
last_of x (y ∷ ys) = last_of y ys

-- The array of a slice from which an address was removed in place: those behind it move, and the last one stays.
unfoldable pub shifted : String → List String → List String
shifted addr [] = []
shifted addr (x ∷ xs) =
    let rest = shifted addr xs in if str_eq x addr then xs ++ last_of x xs ∷ [] else x ∷ rest

-- A lookup's slice, when its array is given new contents, or the map's slice moves to another array.
unfoldable pub see : Bool → List String → Bool → Lookup → Lookup
see edited new moves l = record l {
  shown = if edited && l.shares then overlay new l.shown else l.shown;
  shares = l.shares && not moves;
}

-- A lookup's slice when an instance registers: `in_place` says whether the array has room.
unfoldable pub see_register :
    String → List String → (String → Bool) → Dict (List String) → Lookup → Lookup
see_register addr servers in_place m l =
    let addrs = read m l.server in
    let added = elem l.server servers && not (elem addr addrs) in
    see (added && in_place l.server) (addrs ++ addr ∷ []) (added && not (in_place l.server)) l

-- A lookup's slice when an instance is removed. The map drops a list that is empty then.
unfoldable pub see_unregister : String → List String → Dict (List String) → Lookup → Lookup
see_unregister addr servers m l =
    let addrs = read m l.server in
    let removed = elem l.server servers && elem addr addrs in
    see removed (shifted addr addrs) (removed && is_empty (remove_first addr addrs)) l

-- `Register` under the lock.
unfoldable pub begin_register : String → List String → Client → (String → Bool) → Centre → Centre
begin_register addr servers client in_place c = record c {
  service = register_locked addr servers client c.service;
  lookups = map (see_register addr servers in_place c.service.s_name_to_s_addr) c.lookups;
  notifying = c.notifying ++ record { kind = "register"; addr = addr; names = servers } ∷ [];
}

-- The first part of `Discover`, of a name with addresses.
unfoldable pub begin_discover : String → String → Centre → Centre
begin_discover from name c = record c {
  lookups =
      c.lookups
      ++ record {
        from = from;
        server = name;
        shown = read c.service.s_name_to_s_addr name;
        shares = true;
      }
        ∷ [];
}

-- The second part of `Discover`, and its answer: a copy of what the slice shows by now.
unfoldable pub end_discover : ℕ → Lookup → Centre → Centre
end_discover i l c = record c {
  service = subscribe l.server l.from c.service;
  lookups = remove_at i c.lookups;
  answers = c.answers ++ record { server = l.server; addr = l.shown } ∷ [];
}

-- `handleUnhealthyService` under the lock.
unfoldable pub begin_unregister : String → Centre → Centre
begin_unregister addr c = record c {
  service = unregister_locked addr c.service;
  lookups =
      map (see_unregister addr (read c.service.s_addr_to_s_names addr) c.service.s_name_to_s_addr)
        c.lookups;
  notifying =
      c.notifying
      ++ record { kind = "del"; addr = addr; names = read c.service.s_addr_to_s_names addr } ∷ [];
  dead = [];
}

-- The notification of the first name's subscribers.
unfoldable pub notify_next : ℕ → String → String → String → List String → Centre → Centre
notify_next i kind addr name names c =
    let (service, sent) =
      notify_subscribers (record { kind = kind; server = name; addr = addr }) c.service in
    record c {
      service = service;
      notifying = modify i (λ n. record n { names = names }) c.notifying;
      sent = c.sent ++ sent;
    }

pub data Step (dial : String → Option Client) : Centre → Centre → Type 0 where
  registers :
      (c : Centre) (peer : Option Peer) (port : String) (servers : List String) (addr : String)
      (client : Client) (in_place : String → Bool)
      → client_addr peer port ≡ some addr
      → dial addr ≡ some client
      → Step dial c (begin_register addr servers client in_place c)
  reads :
      (c : Centre) (peer : Option Peer) (port name from : String)
      → client_addr peer port ≡ some from
      → read c.service.s_name_to_s_addr name ≢ []
      → Step dial c (begin_discover from name c)
  subscribes :
      (c : Centre) (i : ℕ) (l : Lookup)
      → get_elem? c.lookups i ≡ some l
      → Step dial c (end_discover i l c)
  finds_dead :
      (c : Centre) (ping : Client → Bool) (addr : String)
      → c.dead ≡ []
      → is_service_healthy ping addr c.service ≡ false
      → Step dial c (record c { dead = addr ∷ [] })
  unregisters :
      (c : Centre) (addr : String) → c.dead ≡ addr ∷ [] → Step dial c (begin_unregister addr c)
  notifies :
      (c : Centre) (i : ℕ) (kind addr name : String) (names : List String)
      → get_elem? c.notifying i ≡ some (record { kind = kind; addr = addr; names = name ∷ names })
      → Step dial c (notify_next i kind addr name names c)
  notify_failed :
      (c : Centre) (server addr : String)
      → Step dial c (record c { service = remove_subscriber server addr c.service })

pub data Reach (dial : String → Option Client) : Centre → Type 0 where
  start : Reach dial new_centre
  next : {c d : Centre} → Reach dial c → Step dial c d → Reach dial d
