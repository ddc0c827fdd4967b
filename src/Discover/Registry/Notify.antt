-- ===== src/Discover/Registry/Notify.antt =====
-- discover/server.go, `notifySubscribers` and its callers: what a handler changes, and who is told.
use Prim.Native.Nat.add
use native.Mathlib.Nat.{add-zero}
use g_micor.Base.{
  drop-append, drop-append_suc, append_assoc, map-append, lookup-insert_self, get_last, drop-length,
  drop-add, length-append, remove_first, str_eq_refl, sym, ◌∙◌, append-nil, get_or-drop, drop-suc,
  ℕ, zero, suc, ◌+◌, String, ◌≡◌, refl, inl, inr, true, none, some, List, [], ◌∷◌, ◌++◌, map, Dict,
  lookup, elem, All, arith, eq_iff, get_or, drop, length, Option-cases, is_some,
}
use g_micor.Discover.Registry.{
  Client, Service, NotifyReq, Sent, read, remove_subscriber, notify_loop, notify_subscribers,
  notify_all, overwrite,
}

-- What every removal of a subscriber keeps, notifying keeps.
module _ {ℓ} (P : Service → Type ℓ)
    (keep : (server addr : String) (s : Service) → P s → P (remove_subscriber server addr s)) where
  pub notify_loop-keeps :
      (req : NotifyReq) (n k : ℕ) (backing : List String) (s : Service)
      → P s
      → P (notify_loop req n k backing s).0
  unfolding notify_loop
  notify_loop-keeps req zero k backing s v = v
  notify_loop-keeps req (suc n) k backing s v =
      elim (Option-cases (lookup (get_or backing k "") s.addr_store)) [
        | inl e ↦
            rw (e, notify_loop)
              (notify_loop-keeps req n (suc k) _ _ (keep req.server (get_or backing k "") s v))
        | inr (client, e) ↦ rw (e, notify_loop) (notify_loop-keeps req n (suc k) backing s v)
      ]

  pub notify_subscribers-keeps :
      (req : NotifyReq) (s : Service) → P s → P (notify_subscribers req s).0
  unfolding notify_subscribers
  notify_subscribers-keeps req s v = notify_loop-keeps req _ 0 _ s v

  pub notify_all-keeps :
      (kind addr : String) (names : List String) (s : Service)
      → P s
      → P (notify_all kind addr names s).0
  unfolding notify_all
  notify_all-keeps kind addr [] s v = v
  notify_all-keeps kind addr (name ∷ names) s v =
      notify_all-keeps kind addr names _ (notify_subscribers-keeps _ s v)

-- The subscribers that have a connection.
abbrev pub AllConnected : Dict Client → List String → Type 0
AllConnected store = All (λ addr. is_some (lookup addr store) ≡ true)

abbrev pub client_of : Dict Client → String → Client
client_of store addr = elim (lookup addr store) [ none ↦ record { target = "" } | some c ↦ c ]

abbrev pub told : NotifyReq → Dict Client → List String → List Sent
told req store =
    map (λ addr. record { subscriber = addr; client = client_of store addr; req = req })

-- A round whose subscriber has a connection.
notify_loop_sends :
    (req : NotifyReq) (n k : ℕ) (backing : List String) (s : Service) (x : String)
    → get_or backing k "" ≡ x
    → is_some (lookup x s.addr_store) ≡ true
    → let rest = notify_loop req n (suc k) backing s in
      notify_loop req (suc n) k backing s
      ≡ (rest.0, record { subscriber = x; client = client_of s.addr_store x; req = req } ∷ rest.1)
unfolding notify_loop
notify_loop_sends req n k backing s x e h = rw (e, notify_loop) (ground arith)

-- A round whose subscriber has none.
notify_loop_drops :
    (req : NotifyReq) (n k : ℕ) (backing : List String) (s : Service) (x : String)
    → get_or backing k "" ≡ x
    → lookup x s.addr_store ≡ none
    → let s' = remove_subscriber req.server x s in
      notify_loop req (suc n) k backing s
      ≡ notify_loop req n (suc k) (overwrite (read s'.s_name_to_d_addr req.server) backing) s'
unfolding notify_loop
notify_loop_drops req n k backing s x e h = rw (e, h, notify_loop) (rw e)

-- Rounds over subscribers with a connection: each is told, and the rest of the rounds follows.
notify_loop-AllConnected :
    (req : NotifyReq) (s : Service) (rounds n k j : ℕ) (backing todo rest : List String)
    → AllConnected s.addr_store todo
    → drop k backing ≡ todo ++ rest
    → rounds ≡ length todo + n
    → j ≡ length todo + k
    → notify_loop req rounds k backing s ≡ (
      (notify_loop req n j backing s).0,
      told req s.addr_store todo ++ (notify_loop req n j backing s).1,
    )
notify_loop-AllConnected req s rounds n k j backing [] rest h e p q =
    rw (p, q, add.zero n, add.zero k)
notify_loop-AllConnected req s rounds n k j backing (x ∷ todo) rest h e p q = rw (
  p,
  add.suc (length todo) n,
  notify_loop_sends req (length todo + n) k backing s x (get_or-drop k backing "" x _ e) h.0,
  notify_loop-AllConnected req s (length todo + n) n (suc k) j backing todo rest h.1
      (drop-suc k backing x _ e) refl (omega arith),
)

-- If every subscriber of the name has a connection, each is sent the request once, in the order in
-- which they subscribed, and the maps stay as they were.
pub notify_subscribers-told :
    (req : NotifyReq) (s : Service)
    → AllConnected s.addr_store (read s.s_name_to_d_addr req.server)
    → notify_subscribers req s ≡ (s, told req s.addr_store (read s.s_name_to_d_addr req.server))
unfolding notify_subscribers
notify_subscribers-told req s h =
    notify_loop-AllConnected req s _ 0 0 (length (read s.s_name_to_d_addr req.server))
      (read s.s_name_to_d_addr req.server) (read s.s_name_to_d_addr req.server) [] h
      (sym (append-nil _)) (omega arith) (omega arith)
    ∙ (unfold notify_loop in rw append-nil)

remove_subscriber-addr_store :
    (server addr : String) (s : Service)
    → (remove_subscriber server addr s).addr_store ≡ s.addr_store
unfolding remove_subscriber
remove_subscriber-addr_store server addr s = ground arith

remove_first-middle :
    (store : Dict Client) (pre : List String) (dead : String) (rest : List String)
    → AllConnected store pre
    → lookup dead store ≡ none
    → (elem dead (pre ++ dead ∷ rest) ≡ true)
      × (remove_first dead (pre ++ dead ∷ rest) ≡ pre ++ rest)
unfolding elem remove_first
remove_first-middle store [] dead rest h e = ground (arith, str_eq_refl dead)
remove_first-middle store (y ∷ pre) dead rest h e =
    ground (arith, remove_first-middle store pre dead rest h.1 e, eq_iff y dead)

-- After the removal the rest of the array has moved down by one, and its last entry stands twice.
overwrite-middle :
    (pre : List String) (dead x : String) (rest : List String)
    → overwrite (pre ++ x ∷ rest) (pre ++ dead ∷ x ∷ rest)
      ≡ pre ++ x ∷ (rest ++ get_last x rest ∷ [])
unfolding overwrite
overwrite-middle pre dead x rest = rw (
  length-append pre (x ∷ rest),
  drop-add pre (dead ∷ x ∷ rest) (suc (length rest)),
  drop-length x rest,
  append_assoc pre (x ∷ rest),
)

read-remove_subscriber :
    (s : Service) (server : String) (pre : List String) (dead : String) (rest : List String)
    → read s.s_name_to_d_addr server ≡ pre ++ dead ∷ rest
    → AllConnected s.addr_store pre
    → lookup dead s.addr_store ≡ none
    → read (remove_subscriber server dead s).s_name_to_d_addr server ≡ pre ++ rest
unfolding remove_subscriber
read-remove_subscriber s server pre dead rest e hp hd =
    let (there, left) = remove_first-middle s.addr_store pre dead rest hp hd in
    rw (e, there, left) (rw lookup-insert_self)

All-last :
    (store : Dict Client) (x : String) (rest : List String)
    → AllConnected store (x ∷ rest)
    → AllConnected store (rest ++ get_last x rest ∷ [])
All-last store x [] h = h
All-last store x (y ∷ rest) h = (h.1.0, All-last store y rest h.1)

-- The rounds from the lost subscriber on.
notify_loop_skips :
    (req : NotifyReq) (s : Service) (pre : List String) (dead x : String) (rest : List String)
    → read s.s_name_to_d_addr req.server ≡ pre ++ dead ∷ x ∷ rest
    → AllConnected s.addr_store pre
    → lookup dead s.addr_store ≡ none
    → AllConnected s.addr_store (x ∷ rest)
    → notify_loop req (suc (suc (length rest))) (length pre) (pre ++ dead ∷ x ∷ rest) s
      ≡ (remove_subscriber req.server dead s, told req s.addr_store (rest ++ get_last x rest ∷ []))
notify_loop_skips req s pre dead x rest e hp hd hr =
    rw
      (
        notify_loop_drops req (suc (length rest)) (length pre) (pre ++ dead ∷ x ∷ rest) s dead
            (get_or-drop (length pre) _ "" dead (x ∷ rest) (drop-append pre _)) hd,
        read-remove_subscriber s req.server pre dead (x ∷ rest) e hp hd,
        overwrite-middle pre dead x rest,
        notify_loop-AllConnected req (remove_subscriber req.server dead s) (suc (length rest)) 0
            (suc (length pre)) (suc (length rest) + suc (length pre)) _
            (rest ++ get_last x rest ∷ []) []
            (rw (remove_subscriber-addr_store req.server dead s) (All-last s.addr_store x rest hr))
            (drop-append_suc pre x _ ∙ sym (append-nil _))
            (omega (arith, length-append rest (get_last x rest ∷ [])))
            (omega (arith, length-append rest (get_last x rest ∷ []))),
        remove_subscriber-addr_store req.server dead s,
      )
      (unfold notify_loop in rw append-nil)

-- If a subscriber has lost its connection, another one follows it, and all others are connected, then it is
-- removed, and the one behind it is passed over: the loop goes on with the entry after that, and tells the
-- last entry once more at the end. One that has others behind it is so not told, and one that is the last is
-- told once.
pub notify_subscribers_skips :
    (req : NotifyReq) (s : Service) (pre : List String) (dead x : String) (rest : List String)
    → read s.s_name_to_d_addr req.server ≡ pre ++ dead ∷ x ∷ rest
    → AllConnected s.addr_store pre
    → lookup dead s.addr_store ≡ none
    → AllConnected s.addr_store (x ∷ rest)
    → notify_subscribers req s ≡ (
      remove_subscriber req.server dead s,
      told req s.addr_store (pre ++ (rest ++ get_last x rest ∷ [])),
    )
unfolding notify_subscribers
notify_subscribers_skips req s pre dead x rest e hp hd hr = rw (
  e,
  notify_loop-AllConnected req s (length (pre ++ dead ∷ x ∷ rest)) (suc (suc (length rest))) 0
      (length pre) (pre ++ dead ∷ x ∷ rest) pre (dead ∷ x ∷ rest) hp refl
      (length-append pre (dead ∷ x ∷ rest)) (sym (add-zero _)),
  notify_loop_skips req s pre dead x rest e hp hd hr,
  map-append _ pre (rest ++ get_last x rest ∷ []),
)
