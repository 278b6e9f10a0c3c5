-- ===== src/Tests/Measuring.antt =====
-- The theorems on measureFetch and measureSetNotify, applied: one state, and one fetch that is
-- accepted; two values.
use jetpeer_cpp.Base.{
  ℤ, pos, String, none, some, List, [], ◌∷◌, true, false, ◌≡◌, refl, nat_eq, int_eq, string_eq,
  if◌then◌else◌, int_to_string, to_string,
}
use jetpeer_cpp.Base.Table.{find, put, erase}
use jetpeer_cpp.Defines.Failure.{ok}
use jetpeer_cpp.Defines.Matching.{add_path_information}
use jetpeer_cpp.Peer.Lifecycle.{construct, start, connect, restore_fetches}
use jetpeer_cpp.Peer.Methods.{config_async, add_state_async, add_state_async_private}
use jetpeer_cpp.Peer.Registry.{register_state, register_fetch, create_fetch_id}
use jetpeer_cpp.Peer.Request.{
  execute, execute_no_response, handle_result, call_response, request_doc,
}
use jetpeer_cpp.Peer.Send.{send_message}
use jetpeer_cpp.Peer.State.{World}
use jetpeer_cpp.Peer.Sync.{Ending, add_fetch, promised}
use jetpeer_cpp.Peer.Sync.Waits.{receiving}
use jetpeer_cpp.Tests.Data.{toy, known, idle, wire, object2}
use jetpeer_cpp.Tests.Toy.{Json}
use jetpeer_cpp.Tools.Speed.{create_states, is_created, state_cb}
use jetpeer_cpp.Tests.Toy.Holds.{json_laws, int_laws}
use jetpeer_cpp.Tools.Speed.Sets.{measure_set_notify, acknowledging, measure_set_notify_ends}
use jetpeer_cpp.Tools.Speed.Fetches.{add_fetches, measure_fetch, is_one_of, measure_fetch_clears}

-- {"id": 8, "result": null}
abbrev accepted : Json
accepted = object2 "id" (Json.uint 8) "result" Json.nil

abbrev made : World
made = (construct (wire []) "localhost" 11122 "" false idle).1

abbrev with_states : World
with_states = (create_states 1 0 made).1

abbrev world_of : Ending (List ℤ) → World
world_of (Ending.done (r, w)) = w
world_of (Ending.waits w) = w
world_of (Ending.terminated w) = w

abbrev fetched : World
fetched = world_of (add_fetches (receiving accepted) 1 1 with_states)

measure_fetch_clears_example :
    (u : World) × (measure_fetch (receiving accepted) 1 1 1 (wire []) "localhost" 11122 idle
      ≡ Ending.done (ok tt, u))
    × ((path : String)
        → find path with_states.state_callbacks
          ≡ (if is_created 1 0 path then some (some state_cb) else find path made.state_callbacks))
    × ((path : String)
        → find path u.state_callbacks
          ≡ (if is_created 1 0 path then none else find path made.state_callbacks))
    × ((j : ℤ)
        → find j u.fetchers ≡ (if is_one_of (pos 4 ∷ []) j then none else find j fetched.fetchers))
unfolding construct start connect restore_fetches config_async execute execute_no_response
    send_message create_states add_state_async add_state_async_private register_state add_fetches
    add_fetch register_fetch create_fetch_id handle_result call_response promised request_doc
    add_path_information to_string int_to_string find put erase
measure_fetch_clears_example =
    measure_fetch_clears (receiving accepted) 1 1 1 (wire []) "localhost" 11122 (pos 4 ∷ []) idle
      fetched refl refl refl

measure_set_notify_ends_example :
    (u : World) × (measure_set_notify acknowledging 2 (wire []) "localhost" 11122 idle
      ≡ Ending.done (ok tt, u))
unfolding construct start connect restore_fetches config_async execute send_message request_doc
    to_string int_to_string
measure_set_notify_ends_example =
    measure_set_notify_ends (json_laws true known) (int_laws true known) 2 (wire []) "localhost"
      11122 idle refl
