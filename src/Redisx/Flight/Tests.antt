-- ===== src/Redisx/Flight/Tests.antt =====
-- redisx/singleFlight.go: a node that runs the function of a key, and others that wait for it.
use g_micor.Base.{
  ℕ, ◌≡◌, ◌⊎◌, refl, true, false, String, Option, none, some, List, [], ◌∷◌, get_elem?, Dict,
  lookup, insert, delete,
}
use g_micor.Errorx.{GoError, plain}
use g_micor.Redisx.Flight.{
  set_item, set_result, del_lock, clear_key, notify_nodes, Phase, starting, waiting, following,
  running, returned, blocked, Call, Node, World, new_cache_item, result, begin_call, fn_returns,
  leave, forget, receive, complete,
}
use g_micor.Redisx.Flight.Steps.{
  begins, fn_ends, leaves, forgets, wakes, receives, completes, Reach, start, step, Later,
}
use g_micor.Redisx.Flight.Text.{
  packed, unpacked, write_option, read_option, write_code, read_fields, read_code, marshal,
  unmarshal, text_json, lossless,
}
use g_micor.Redisx.Flight.Genuine.{Ran}
use g_micor.Redisx.Flight.Returned.{returned_genuine}
use g_micor.Redisx.Flight.Late.{late_notification}

abbrev two_nodes : List (ℕ × String)
two_nodes = (0, "k") ∷ (1, "k") ∷ []

abbrev FlightPhase : Type 0
FlightPhase = Phase String String

abbrev node_with : Dict ℕ → Node
node_with calls = record { call_map = calls; inbox = []; completing = none }

abbrev open_call : String → Call String String
open_call id = record { process_id = id; follows = false; item = none; done = false }

-- Node 0 runs the function, and node 1 follows it.
abbrev both_in : World String String
both_in = record {
  locks = ("k", "1") ∷ [];
  results = [];
  calls =
      open_call "1" ∷ record { process_id = "1"; follows = true; item = none; done = false } ∷ [];
  nodes = node_with (("k", 0) ∷ []) ∷ node_with (("k", 1) ∷ []) ∷ [];
  goroutines = (0, running "k" "1" 0) ∷ (1, following "k" 1) ∷ [];
  drawn = ("1", "k") ∷ [];
  ran = [];
}

one_in : Reach text_json false 2 two_nodes (record {
  locks = ("k", "1") ∷ [];
  results = [];
  calls = open_call "1" ∷ [];
  nodes = node_with (("k", 0) ∷ []) ∷ node_with [] ∷ [];
  goroutines = (0, running "k" "1" 0) ∷ (1, starting "k") ∷ [];
  drawn = ("1", "k") ∷ [];
  ran = [];
})
unfolding begin_call lookup insert
one_in = step start (begins 0 0 (node_with []) "k" "1" refl refl refl)

both_in_reached : Reach text_json false 2 two_nodes both_in
unfolding begin_call lookup insert
both_in_reached = step one_in (begins 1 1 (node_with []) "k" "2" refl refl refl)

abbrev broken : World String String
broken = record both_in { goroutines = (0, blocked "k" "1") ∷ (1, following "k" 1) ∷ [] }

-- Both nodes have returned what the function of node 0 did.
abbrev both_out : World String String
both_out = record {
  locks = [];
  results = ("1", marshal (new_cache_item text_json "v" none)) ∷ [];
  calls =
      record {
        process_id = "1";
        follows = false;
        item = some (record { value = "v"; bu_error = none; sys_error = "" });
        done = true;
      }
      ∷ record {
        process_id = "1";
        follows = true;
        item = some (record { value = "v"; bu_error = none; sys_error = "" });
        done = true;
      }
      ∷ [];
  nodes = record { call_map = []; inbox = "k" ∷ []; completing = none } ∷ node_with [] ∷ [];
  goroutines = (0, returned "k" "1" "v" none) ∷ (1, returned "k" "1" "v" none) ∷ [];
  drawn = ("1", "k") ∷ [];
  ran = ("1", "v", none) ∷ [];
}

both_out_reached : Reach text_json false 2 two_nodes both_out
unfolding fn_returns leave forget receive complete new_cache_item result lookup insert delete packed
    unpacked write_option read_option write_code read_fields read_code marshal unmarshal
both_out_reached =
    let ran_once = step both_in_reached (fn_ends 0 0 "k" "1" 0 "v" none refl) in
    let shared =
      step ran_once
        (leaves set_item 0 0 (node_with (("k", 0) ∷ [])) "k" "1" 0 "v" none refl refl) in
    let stored =
      step shared
        (leaves set_result 0 0 (node_with (("k", 0) ∷ [])) "k" "1" 0 "v" none refl refl) in
    let freed =
      step stored (leaves del_lock 0 0 (node_with (("k", 0) ∷ [])) "k" "1" 0 "v" none refl refl) in
    let cleared =
      step freed (leaves clear_key 0 0 (node_with (("k", 0) ∷ [])) "k" "1" 0 "v" none refl refl) in
    let told = step cleared (leaves notify_nodes 0 0 (node_with []) "k" "1" 0 "v" none refl refl) in
    let heard = step told (
      receives 1 (record { call_map = ("k", 1) ∷ []; inbox = "k" ∷ []; completing = none }) "k" []
        refl refl refl) in
    let done = step heard (
      completes 1 (record { call_map = ("k", 1) ∷ []; inbox = []; completing = some 1 }) 1
        (record { process_id = "1"; follows = true; item = none; done = false }) true "lost" refl
        refl refl (cc)) in
    let forgotten = step done (
      forgets 1 1 (record { call_map = ("k", 1) ∷ []; inbox = []; completing = none }) "k" 1
        (record {
          process_id = "1";
          follows = true;
          item = some (record { value = "v"; bu_error = none; sys_error = "" });
          done = true;
        })
        refl refl refl refl) in
    step forgotten (
      wakes 1 1 "k" 1
        (record {
          process_id = "1";
          follows = true;
          item = some (record { value = "v"; bu_error = none; sys_error = "" });
          done = true;
        })
        refl refl refl)

returned_genuine_example :
    (lookup "1" both_out.drawn ≡ some "k")
    × (((err : Option (GoError String)) × Ran both_out "1" "v" err
          × (result (new_cache_item text_json "v" err) ≡ ("v", none)))
        ⊎ (◌≡◌ {A = String} "v" ""))
returned_genuine_example = returned_genuine text_json lossless 1 both_out_reached refl

abbrev three_calls : List (ℕ × String)
three_calls = (0, "k") ∷ (0, "k") ∷ (0, "k") ∷ []

-- The first call has taken its key off the map, and the next one has begun, before the notification of the
-- first is read.
abbrev overtaken : World String String
overtaken = record {
  locks = ("k", "2") ∷ [];
  results = ("1", marshal (new_cache_item text_json "v" none)) ∷ [];
  calls =
      record {
        process_id = "1";
        follows = false;
        item = some (record { value = "v"; bu_error = none; sys_error = "" });
        done = true;
      }
      ∷ open_call "2"
      ∷ [];
  nodes = record { call_map = ("k", 1) ∷ []; inbox = "k" ∷ []; completing = none } ∷ [];
  goroutines = (0, returned "k" "1" "v" none) ∷ (0, running "k" "2" 1) ∷ (0, waiting "k" 1) ∷ [];
  drawn = ("1", "k") ∷ ("2", "k") ∷ [];
  ran = ("1", "v", none) ∷ [];
}

overtaken_reached : Reach text_json false 1 three_calls overtaken
unfolding fn_returns leave begin_call new_cache_item lookup insert delete
overtaken_reached =
    let mine = node_with (("k", 0) ∷ []) in
    let began = step start (begins 0 0 (node_with []) "k" "1" refl refl refl) in
    let ran_once = step began (fn_ends 0 0 "k" "1" 0 "v" none refl) in
    let shared = step ran_once (leaves set_item 0 0 mine "k" "1" 0 "v" none refl refl) in
    let stored = step shared (leaves set_result 0 0 mine "k" "1" 0 "v" none refl refl) in
    let freed = step stored (leaves del_lock 0 0 mine "k" "1" 0 "v" none refl refl) in
    let cleared = step freed (leaves clear_key 0 0 mine "k" "1" 0 "v" none refl refl) in
    let again = step cleared (begins 1 0 (node_with []) "k" "2" refl refl refl) in
    let joined = step again (begins 2 0 (node_with (("k", 1) ∷ [])) "k" "3" refl refl refl) in
    step joined (leaves notify_nodes 0 0 (node_with (("k", 1) ∷ [])) "k" "1" 0 "v" none refl refl)

late_notification_example :
    (w' : World String String) × Later text_json false overtaken w'
    × (get_elem? w'.goroutines 1 ≡ some (0, running "k" "2" 1))
    × (get_elem? w'.goroutines 2 ≡ some (0, returned "k" "2" "" (some (plain "redis: nil"))))
unfolding lookup
late_notification_example =
    late_notification text_json false 1 2 0 1 "k" "2" "redis: nil" []
      (record { call_map = ("k", 1) ∷ []; inbox = "k" ∷ []; completing = none }) (open_call "2")
      overtaken refl refl refl refl refl refl refl refl (cc)
