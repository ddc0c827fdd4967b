-- ===== src/Discover/Registry.antt =====
-- discover/server.go: the registration centre. Here a handler runs with no other handler between its
-- locked sections (Sections has them in any order); a goroutine that notifies a subscriber is an entry of the list of sent requests,
-- and its failure is a later step. `ping` and `dial` stand for gRPC.
pub mod Effects
pub mod Notify
pub mod Invariant
pub mod Health
pub mod Lookup
pub mod Steps
pub mod Directory
pub mod Sections
mod Tests
use Prim.Native.String.{◌++◌ as append}
use g_micor.Base.{
  ℕ, zero, suc, ◌+◌, String, Bool, true, false, not, Option, none, some, List, [], ◌∷◌, ◌++◌, Dict,
  lookup, insert, delete, or_zero, is_some, elem, remove_first, length, drop, get_or, if◌then◌else◌,
}

-- The RPC client of a connection to an address.
pub record Client : Type 0 where
  pub target : String

pub record NotifyReq : Type 0 where
  pub kind : String
  pub server : String
  pub addr : String

-- A notification that was handed to a goroutine.
pub record Sent : Type 0 where
  pub subscriber : String
  pub client : Client
  pub req : NotifyReq

pub record Service : Type 0 where
  pub s_name_to_s_addr : Dict (List String)
  pub s_addr_to_s_names : Dict (List String)
  pub s_name_to_d_addr : Dict (List String)
  pub addr_store : Dict Client

abbrev pub empty_service : Service
empty_service = record {
  s_name_to_s_addr = [];
  s_addr_to_s_names = [];
  s_name_to_d_addr = [];
  addr_store = [];
}

-- m[k] of a map of slices: nil if the key is missing.
abbrev pub read : Dict (List String) → String → List String
read m k = or_zero [] (lookup k m)

pub data Peer : Type 0 where
  tcp : String → Peer
  other : Peer

-- The address of the caller: the port it sent, behind its IP if the peer is a TCP one.
unfoldable pub client_addr : Option Peer → String → Option String
client_addr none port = none
client_addr (some (tcp ip)) port = some (append "[" (append ip (append "]" port)))
client_addr (some other) port = some port

-- Append the address under the key unless it stands there already.
unfoldable pub add_new : String → String → Dict (List String) → Dict (List String)
add_new key addr m = if elem addr (read m key) then m else insert key (read m key ++ addr ∷ []) m

unfoldable pub add_addresses : List String → String → Dict (List String) → Dict (List String)
unfolding add_new
add_addresses [] addr m = m
add_addresses (name ∷ names) addr m = add_addresses names addr (add_new name addr m)

-- The part of `Register` under the lock.
unfoldable pub register_locked : String → List String → Client → Service → Service
register_locked addr servers client s = record {
  s_name_to_s_addr = add_addresses servers addr s.s_name_to_s_addr;
  s_addr_to_s_names = insert addr servers s.s_addr_to_s_names;
  s_name_to_d_addr = s.s_name_to_d_addr;
  addr_store = insert addr client s.addr_store;
}

unfoldable pub remove_subscriber : String → String → Service → Service
remove_subscriber server addr s =
    let subscribers = read s.s_name_to_d_addr server in
    if elem addr subscribers
    then record s {
      s_name_to_d_addr = insert server (remove_first addr subscribers) s.s_name_to_d_addr;
    }
    else s

-- Writing a slice's new contents over the start of the array that it shares.
unfoldable pub overwrite : List String → List String → List String
overwrite front backing = front ++ drop (length front) backing

-- The loop of `notifySubscribers`: entry `k` is read from the array that the map's slice shares, so
-- a removal made by the loop shows in the entries it has not read yet.
unfoldable pub notify_loop : NotifyReq → ℕ → ℕ → List String → Service → Service × List Sent
unfolding remove_subscriber overwrite
notify_loop req zero k backing s = (s, [])
notify_loop req (suc rounds) k backing s =
    let addr = get_or backing k "" in
    elim (lookup addr s.addr_store) [
      | none ↦
          let s' = remove_subscriber req.server addr s in
          let backing' = overwrite (read s'.s_name_to_d_addr req.server) backing in
          notify_loop req rounds (suc k) backing' s'
      | some client ↦
          let (s', sent) = notify_loop req rounds (suc k) backing s in
          (s', record { subscriber = addr; client = client; req = req } ∷ sent)
    ]

unfoldable pub notify_subscribers : NotifyReq → Service → Service × List Sent
notify_subscribers req s =
    let subscribers = read s.s_name_to_d_addr req.server in
    notify_loop req (length subscribers) 0 subscribers s

-- The loops that notify for each of the names.
unfoldable pub notify_all : String → String → List String → Service → Service × List Sent
notify_all kind addr [] s = (s, [])
notify_all kind addr (name ∷ names) s =
    let (s1, sent1) = notify_subscribers (record { kind = kind; server = name; addr = addr }) s in
    let (s2, sent2) = notify_all kind addr names s1 in (s2, sent1 ++ sent2)

pub data RegisterOut : Type 0 where
  registered : RegisterOut
  no_peer : RegisterOut
  fatal : RegisterOut

-- `Register`. A failed dial ends the process by `log.Fatalf`.
unfoldable pub register :
    (String → Option Client)
    → Option Peer
    → String
    → List String
    → Service
    → RegisterOut × Service × List Sent
register dial peer port servers s = elim (client_addr peer port) [
  | none ↦ (no_peer, s, [])
  | some addr ↦ elim (dial addr) [
    | none ↦ (fatal, s, [])
    | some client ↦
        let (s', sent) =
          notify_all "register" addr servers (register_locked addr servers client s) in
        (registered, s', sent)
  ]
]

pub record Resp : Type 0 where
  pub server : String
  pub addr : List String

pub data DiscoverOut : Type 0 where
  found : Resp → DiscoverOut
  server_not_find : DiscoverOut
  unknown_peer : DiscoverOut

-- Put the caller on the list of those who are told of changes.
unfoldable pub subscribe : String → String → Service → Service
unfolding add_new
subscribe server addr s = record s { s_name_to_d_addr = add_new server addr s.s_name_to_d_addr }

-- `Discover`.
unfoldable pub discover : Option Peer → String → String → Service → DiscoverOut × Service
discover peer port server s = elim (client_addr peer port) [
  | none ↦ (unknown_peer, s)
  | some addr ↦ elim (read s.s_name_to_s_addr server) [
    | [] ↦ (server_not_find, s)
    | first ∷ rest ↦
        (found (record { server = server; addr = first ∷ rest }), subscribe server addr s)
  ]
]

abbrev pub is_empty {ℓ} : {A : Type ℓ} → List A → Bool
is_empty [] = true
is_empty (x ∷ xs) = false

-- Take the address off one name's list, and the name off the map when its list is empty.
unfoldable pub drop_address : String → String → Dict (List String) → Dict (List String)
drop_address addr name m =
    let addrs = read m name in
    let m' = if elem addr addrs then insert name (remove_first addr addrs) m else m in
    if is_empty (read m' name) then delete name m' else m'

unfoldable pub drop_addresses : List String → String → Dict (List String) → Dict (List String)
drop_addresses [] addr m = m
drop_addresses (name ∷ names) addr m = drop_addresses names addr (drop_address addr name m)

-- The part of `handleUnhealthyService` under the lock.
unfoldable pub unregister_locked : String → Service → Service
unregister_locked addr s = record {
  s_name_to_s_addr = drop_addresses (read s.s_addr_to_s_names addr) addr s.s_name_to_s_addr;
  s_addr_to_s_names = delete addr s.s_addr_to_s_names;
  s_name_to_d_addr = s.s_name_to_d_addr;
  addr_store =
      if is_some (lookup addr s.addr_store) then delete addr s.addr_store else s.addr_store;
}

unfoldable pub handle_unhealthy_service : String → Service → Service × List Sent
handle_unhealthy_service addr s =
    notify_all "del" addr (read s.s_addr_to_s_names addr) (unregister_locked addr s)

unfoldable pub is_service_healthy : (Client → Bool) → String → Service → Bool
is_service_healthy ping addr s = elim (lookup addr s.addr_store) [
  | none ↦ false
  | some client ↦ ping client
]

-- One round of `performHealthCheck`: `order` is the order in which the map yields its keys.
unfoldable pub perform_health_check : (Client → Bool) → List String → Service → Service × List Sent
unfolding is_service_healthy
perform_health_check ping [] s = (s, [])
perform_health_check ping (addr ∷ order) s =
    let rest = perform_health_check ping order s in
    let (s1, sent1) = handle_unhealthy_service addr s in
    let (s2, sent2) = perform_health_check ping order s1 in
    if is_service_healthy ping addr s then rest else (s2, sent1 ++ sent2)
