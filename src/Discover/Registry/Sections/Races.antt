-- ===== src/Discover/Registry/Sections/Races.antt =====
-- discover/server.go: a lookup, and a registration at the same time.
use g_micor.Base.{
  String, ◌≡◌, ◌≢◌, refl, ap, ◌∙◌, Bool, true, false, Option, some, List, [], ◌∷◌, ◌++◌, All, elem,
  Dict, length, get_elem?, get_elem?-length, map, modify, if◌then◌else◌, eq_iff, str_eq_refl, arith,
}
use g_micor.Discover.Registry.{
  Client, Service, Peer, Sent, Resp, NotifyReq, client_addr, read, register_locked, subscribe,
}
use g_micor.Discover.Registry.Effects.{elem-add_new, elem-add_addresses}
use g_micor.Discover.Registry.Notify.{AllConnected, told, notify_subscribers-told}
use g_micor.Discover.Registry.Sections.{
  Centre, Lookup, Notifying, overlay, see, see_register, registers, reads, subscribes, notifies,
  Reach, next, begin_register, begin_discover, end_discover, notify_next,
}

-- Requests go to subscribers only.
told_others :
    (req : NotifyReq) (store : Dict Client) (from : String) (subs : List String)
    → elem from subs ≡ false
    → All (λ t. t.subscriber ≢ from) (told req store subs)
unfolding elem
told_others req store from [] h = tt
told_others req store from (x ∷ subs) h =
    (ground (arith, eq_iff x from), told_others req store from subs (ground arith))

-- A slice does not see what is appended behind it.
overlay-own : (xs ys : List String) → overlay (xs ++ ys) xs ≡ xs
unfolding overlay
overlay-own [] ys = refl
overlay-own (x ∷ xs) ys = ap (λ rest. x ∷ rest) (overlay-own xs ys)

overlay-none : (xs : List String) → overlay [] xs ≡ xs
unfolding overlay
overlay-none [] = refl
overlay-none (x ∷ xs) = refl

map-snoc {ℓ} :
    {A : Type ℓ} (f : A → A) (xs : List A) (x : A) → map f (xs ++ x ∷ []) ≡ map f xs ++ f x ∷ []
map-snoc f [] x = refl
map-snoc f (y ∷ xs) x = ap (λ rest. f y ∷ rest) (map-snoc f xs x)

get_elem?-map_last {ℓ} :
    {A : Type ℓ} (f : A → A) (xs : List A) (x : A)
    → get_elem? (map f (xs ++ x ∷ [])) (length xs) ≡ some (f x)
get_elem?-map_last f [] x = refl
get_elem?-map_last f (y ∷ xs) x = get_elem?-map_last f xs x

-- A handler that has told the subscribers of its last name.
abbrev pub IsDone : Notifying → Type 0
IsDone n = n.names ≡ []

modify_last-IsDone :
    (ns : List Notifying) (n : Notifying)
    → All IsDone ns
    → All IsDone (modify (length ns) (λ n. record n { names = [] }) (ns ++ n ∷ []))
modify_last-IsDone [] n h = (refl, tt)
modify_last-IsDone (m ∷ ns) n h = (h.0, modify_last-IsDone ns n h.1)

-- A caller asks for a name while an instance of it registers: the lookup reads, the instance registers and
-- the subscribers are told of it, and the lookup subscribes its caller and answers.
module _ (from name addr : String) (client : Client) (in_place : String → Bool) where
  after_read : Centre → Centre
  after_read c = begin_discover from name c

  after_register : Centre → Centre
  after_register c = begin_register addr (name ∷ []) client in_place (after_read c)

  after_notify : Centre → Centre
  after_notify c = notify_next (length c.notifying) "register" addr name [] (after_register c)

  the_lookup : Centre → Lookup
  the_lookup c = see_register addr (name ∷ []) in_place c.service.s_name_to_s_addr (record {
    from = from;
    server = name;
    shown = read c.service.s_name_to_s_addr name;
    shares = true;
  })

  unfoldable pub lookup_around_registration : Centre → Centre
  unfolding after_read after_register after_notify the_lookup
  lookup_around_registration c = end_discover (length c.lookups) (the_lookup c) (after_notify c)

  -- The maps after the registration.
  abbrev pub registered : Centre → Service
  registered c = register_locked addr (name ∷ []) client c.service

  the_request : NotifyReq
  the_request = record { kind = "register"; server = name; addr = addr }

  after_all-sent :
      (c : Centre)
      → AllConnected (registered c).addr_store (read c.service.s_name_to_d_addr name)
      → (lookup_around_registration c).sent
        ≡ c.sent
          ++ told the_request (registered c).addr_store (read c.service.s_name_to_d_addr name)
  unfolding lookup_around_registration the_request after_notify after_register after_read
      end_discover notify_next begin_register begin_discover register_locked
  after_all-sent c h =
      ap (λ r. c.sent ++ r.1) (notify_subscribers-told the_request (registered c) h)

  after_all-service :
      (c : Centre)
      → AllConnected (registered c).addr_store (read c.service.s_name_to_d_addr name)
      → (lookup_around_registration c).service ≡ subscribe name from (registered c)
  unfolding lookup_around_registration the_request after_notify after_register after_read
      end_discover notify_next begin_register begin_discover register_locked the_lookup see_register
      see
  after_all-service c h =
      ap (λ r. subscribe name from r.0) (notify_subscribers-told the_request (registered c) h)

  lookup_shown : (c : Centre) → (the_lookup c).shown ≡ read c.service.s_name_to_s_addr name
  unfolding the_lookup see_register see
  lookup_shown c = unseen _ (read c.service.s_name_to_s_addr name)
    where
      unseen :
          (edited : Bool) (addrs : List String)
          → (if edited then overlay (addrs ++ addr ∷ []) addrs else addrs) ≡ addrs
      unseen true addrs = overlay-own addrs (addr ∷ [])
      unseen false addrs = refl

  now_listed :
      (c : Centre)
      → elem addr (read (subscribe name from (registered c)).s_name_to_s_addr name) ≡ true
  unfolding subscribe register_locked elem
  now_listed c = ground (
    arith,
    elem-add_addresses (name ∷ []) addr c.service.s_name_to_s_addr addr name,
    str_eq_refl addr,
    str_eq_refl name,
  )

  now_subscribed :
      (c : Centre)
      → elem from (read (subscribe name from (registered c)).s_name_to_d_addr name) ≡ true
  unfolding subscribe register_locked
  now_subscribed c = ground (
    arith,
    elem-add_new name from c.service.s_name_to_d_addr from name,
    str_eq_refl from,
    str_eq_refl name,
  )

  module _ (dial : String → Option Client) (peer asker : Option Peer) (port asker_port : String)
      (known : client_addr peer port ≡ some addr) (dialled : dial addr ≡ some client)
      (caller : client_addr asker asker_port ≡ some from) where
    after_all-Reach :
        (c : Centre)
        → read c.service.s_name_to_s_addr name ≢ []
        → Reach dial c
        → Reach dial (lookup_around_registration c)
    unfolding lookup_around_registration after_read after_register after_notify the_lookup
        begin_discover begin_register notify_next
    after_all-Reach c listed r =
        next
          (next
            (next (next r (reads c asker asker_port name from caller listed))
              (registers (after_read c) peer port (name ∷ []) addr client in_place known dialled))
            (notifies (after_register c) (length c.notifying) "register" addr name []
              (get_elem?-length c.notifying _)))
          (subscribes (after_notify c) (length c.lookups) (the_lookup c)
            (get_elem?-map_last _ c.lookups _))

    -- The race: a lookup of a name reads its addresses, of which there are some, then an instance
    -- that is not among them registers under the name and its subscribers are told of it, and then
    -- the lookup subscribes its caller and answers. If the caller was not subscribed before, all
    -- subscribers are connected and no other handler has a name to notify, then at the end, in a
    -- state that the centre reaches and with nothing left to notify, the instance is listed and the
    -- caller is subscribed, but the answer lacks the instance, and the caller was told of nothing.
    pub missed_registration :
        (c : Centre)
        → Reach dial c
        → read c.service.s_name_to_s_addr name ≢ []
        → elem addr (read c.service.s_name_to_s_addr name) ≡ false
        → elem from (read c.service.s_name_to_d_addr name) ≡ false
        → AllConnected (registered c).addr_store (read c.service.s_name_to_d_addr name)
        → All IsDone c.notifying
        → let d = lookup_around_registration c in
          Reach dial d
          × (elem addr (read d.service.s_name_to_s_addr name) ≡ true)
          × (elem from (read d.service.s_name_to_d_addr name) ≡ true)
          × ((resp : Resp) × (d.answers ≡ c.answers ++ resp ∷ []) × (elem addr resp.addr ≡ false))
          × ((new : List Sent) × (d.sent ≡ c.sent ++ new) × All (λ t. t.subscriber ≢ from) new)
          × All IsDone d.notifying
    unfolding lookup_around_registration after_notify after_register after_read end_discover
        notify_next begin_register begin_discover
    missed_registration c r listed absent stranger connected done = (
      after_all-Reach c listed r,
      ap (λ (t : Service). elem addr (read t.s_name_to_s_addr name)) (after_all-service c connected)
          ∙ now_listed c,
      ap (λ (t : Service). elem from (read t.s_name_to_d_addr name)) (after_all-service c connected)
          ∙ now_subscribed c,
      (_, refl, ap (elem addr) (lookup_shown c) ∙ absent),
      (
        _,
        after_all-sent c connected,
        told_others the_request (registered c).addr_store from _ stranger,
      ),
      modify_last-IsDone c.notifying _ done,
    )
