-- ===== src/Discover/Registry/Steps.antt =====
-- discover/server.go as a transition system: the requests of clients, the rounds of the health check
-- and the failures of notifications, in any order.
use g_micor.Base.{String, Bool, Option, List}
use g_micor.Discover.Registry.{
  Client, Service, Peer, empty_service, register, discover, perform_health_check, remove_subscriber,
}
use g_micor.Discover.Registry.Invariant.{
  IsConsistent, empty_service-IsConsistent, register-IsConsistent, discover-IsConsistent,
  perform_health_check-IsConsistent, remove_subscriber-IsConsistent,
}

pub data Step (dial : String → Option Client) : Service → Service → Type 0 where
  registers :
      (s : Service) (peer : Option Peer) (port : String) (servers : List String)
      → Step dial s (register dial peer port servers s).1
  discovers :
      (s : Service) (peer : Option Peer) (port server : String)
      → Step dial s (discover peer port server s).1
  checks :
      (s : Service) (ping : Client → Bool) (order : List String)
      → Step dial s (perform_health_check ping order s).0
  notify_failed :
      (s : Service) (server addr : String) → Step dial s (remove_subscriber server addr s)

pub data Reach (dial : String → Option Client) : Service → Type 0 where
  start : Reach dial empty_service
  next : {s t : Service} → Reach dial s → Step dial s t → Reach dial t

pub Step-IsConsistent :
    {dial : String → Option Client} {s t : Service}
    → Step dial s t
    → IsConsistent s
    → IsConsistent t
Step-IsConsistent {dial} (registers s peer port servers) v =
    register-IsConsistent dial peer port servers s v
Step-IsConsistent (discovers s peer port server) v = discover-IsConsistent peer port server s v
Step-IsConsistent (checks s ping order) v = perform_health_check-IsConsistent ping order s v
Step-IsConsistent (notify_failed s server addr) v = remove_subscriber-IsConsistent server addr s v

-- In every state that the centre reaches from its start the maps are consistent.
pub Reach-IsConsistent :
    {dial : String → Option Client} {s : Service} → Reach dial s → IsConsistent s
Reach-IsConsistent start = empty_service-IsConsistent
Reach-IsConsistent (next r st) = Step-IsConsistent st (Reach-IsConsistent r)
