-- ===== src/Discover/Registry/Directory.antt =====
-- What discover/server.go promises: a directory of the instances of services, without the maps, the
-- subscribers and the order of lists.
pub mod Holds
pub mod Refines
use g_micor.Base.{
  ◌≡◌, String, Bool, true, false, Option, none, some, List, [], ◌∷◌, elem, str_eq, if◌then◌else◌,
}
use g_micor.Discover.Registry.{
  Client, Peer, Service, client_addr, register, discover, perform_health_check, remove_subscriber,
}

-- A running instance: the connection to it, and the names it serves.
pub record Instance : Type 0 where
  pub client : Client
  pub names : List String

-- The instance at each address.
abbrev pub Directory : Type 0
Directory = String → Option Instance

abbrev pub names_of : Option Instance → List String
names_of none = []
names_of (some inst) = inst.names

abbrev pub client_of : Option Instance → Option Client
client_of none = none
client_of (some inst) = some inst.client

-- What happens to the centre.
pub data Event : Type 0 where
  registration : Option Peer → String → List String → Event
  lookup_of : Option Peer → String → String → Event
  health_check : (Client → Bool) → List String → Event
  lost_notification : String → String → Event

-- The centre's part.
unfoldable pub handle_event : (String → Option Client) → Event → Service → Service
handle_event dial (registration peer port servers) s = (register dial peer port servers s).1
handle_event dial (lookup_of peer port server) s = (discover peer port server s).1
handle_event dial (health_check ping order) s = (perform_health_check ping order s).0
handle_event dial (lost_notification server addr) s = remove_subscriber server addr s

unfoldable pub handle_events : (String → Option Client) → List Event → Service → Service
unfolding handle_event
handle_events dial [] s = s
handle_events dial (e ∷ events) s = handle_events dial events (handle_event dial e s)

-- The instance that a registration starts, with its address: none without a caller's address or a
-- connection to it.
unfoldable pub started :
    (String → Option Client) → Option Peer → String → List String → Option (String × Instance)
started dial peer port servers = elim (client_addr peer port) [
  | none ↦ none
  | some addr ↦ elim (dial addr) [
    | none ↦ none
    | some client ↦ some (addr, record { client = client; names = servers })
  ]
]

abbrev pub put : Option (String × Instance) → Directory → Directory
put none d = d
put (some (addr, inst)) d = λ a. if str_eq addr a then some inst else d a

-- An instance that answers a ping.
abbrev pub alive : (Client → Bool) → Option Instance → Option Instance
alive ping none = none
alive ping (some inst) = if ping inst.client then some inst else none

-- The directory's part.
unfoldable pub change : (String → Option Client) → Event → Directory → Directory
unfolding started
change dial (registration peer port servers) d = put (started dial peer port servers) d
change dial (lookup_of peer port server) d = d
change dial (health_check ping order) d = λ a. if elem a order then alive ping (d a) else d a
change dial (lost_notification server addr) d = d

unfoldable pub change_all : (String → Option Client) → List Event → Directory → Directory
unfolding change
change_all dial [] d = d
change_all dial (e ∷ events) d = change_all dial events (change dial e d)

-- A registration keeps the names that its address has in the directory.
abbrev pub GrowsAt : Option (String × Instance) → Directory → Type 0
GrowsAt none d = Unit
GrowsAt (some (addr, inst)) d =
    (name : String) → elem name (names_of (d addr)) ≡ true → elem name inst.names ≡ true

unfoldable pub Grows : (String → Option Client) → Event → Directory → Type 0
unfolding started
Grows dial (registration peer port servers) d = GrowsAt (started dial peer port servers) d
Grows dial (lookup_of peer port server) d = Unit
Grows dial (health_check ping order) d = Unit
Grows dial (lost_notification server addr) d = Unit

unfoldable pub AllGrow : (String → Option Client) → List Event → Directory → Type 0
unfolding Grows change
AllGrow dial [] d = Unit
AllGrow dial (e ∷ events) d = Grows dial e d × AllGrow dial events (change dial e d)
