-- ===== src/Tests/Waiting.antt =====
-- The theorems on the synchronous peer, applied.
use jetpeer_cpp.Base.{
  arith, int_to_string, to_string, String, [], ◌∷◌, true, pos, negsuc, none, some, ◌≡◌, refl,
  nat_eq, string_eq,
}
use jetpeer_cpp.Base.Table.{find}
use jetpeer_cpp.Defines.Entries.{DataEntries, of_entries, data_entries}
use jetpeer_cpp.Defines.Entries.Reads.{data_entries-of_entries}
use jetpeer_cpp.Defines.Errors.{of_response, with_detail}
use jetpeer_cpp.Defines.Failure.{Failure, JsoncppRpcException, ok, raised}
use jetpeer_cpp.Defines.Rpc
use jetpeer_cpp.Peer.Dispatch.Calls.{method_reply}
use jetpeer_cpp.Peer.State.{World}
use jetpeer_cpp.Peer.Sync.{Ending, set_state_value, call_method, add_state_private}
use jetpeer_cpp.Peer.Sync.Owners.{set_state_value_by_owner}
use jetpeer_cpp.Peer.Dispatch.{state_response}
use jetpeer_cpp.Peer.Send.{send_message}
use jetpeer_cpp.Peer.Dispatch.Replies.{state_outcome_reply}
use jetpeer_cpp.Peer.Sync.Waits.{receiving, call_method_relays, add_state_refused}
use jetpeer_cpp.Tests.Toy.{Json}
use jetpeer_cpp.Tests.Toy.Holds.{json_laws, int_laws, object_laws}
use jetpeer_cpp.Tests.Data.{toy, known, idle, lamp, blink, object2}

abbrev yes : Json
yes = object2 "id" (Json.int (pos 8)) "result" Json.nil

-- {"id": 8, "error": {"code": -3, "message": "exists"}}
abbrev no : Json
no =
    object2 "id" (Json.int (pos 8)) "error"
      (object2 "code" (Json.int (negsuc 2)) "message" (Json.text "exists"))

abbrev exists : JsoncppRpcException
exists = with_detail (negsuc 2) "exists" Json.nil

call_method_relays_example :
    let v = toy.set (method_reply (blink Json.nil)) Rpc.id (Json.uint 8) in
    (u : World) × (call_method 1 (receiving v) "blink" Json.nil none idle
      ≡ Ending.done
          (raised (Failure.jsoncpprpc_exception (with_detail (negsuc 32602) "broken" Json.nil)), u))
    × (find 8 u.open_requests ≡ none)
call_method_relays_example =
    call_method_relays (json_laws true known) 1 "blink" Json.nil none (blink Json.nil) idle

add_state_refused_example :
    (u : World) × (add_state_private 1
        (receiving no)
        "bulb"
        (Json.int (pos 0))
        Json.nil
        (some lamp)
        idle
      ≡ Ending.done (raised (Failure.jsoncpprpc_exception exists), u))
    × (find "bulb" u.state_callbacks ≡ none)
    × (find 8 u.open_requests ≡ none)
unfolding of_response
add_state_refused_example =
    add_state_refused 1 no (Json.int (pos 8)) "bulb" (Json.int (pos 0)) Json.nil (some lamp) idle
      refl refl exists refl refl

abbrev entries : DataEntries
entries =
    ("gain", record { code = negsuc 4; message = "too large" })
    ∷ ("rate", record { code = pos 1; message = "" })
    ∷ []

data_entries-of_entries_example :
    (r : DataEntries) × (data_entries (of_entries entries) ≡ some r)
    × ((j : String) → find j r ≡ find j entries)
unfolding find
data_entries-of_entries_example =
    data_entries-of_entries (json_laws true known) (object_laws true known) entries
      (refl, (refl, tt))

set_state_value_by_owner_example :
    let reply = state_outcome_reply (lamp (Json.uint 2) "lamp") in
    (u : World) × (set_state_value 1
        (receiving (toy.set reply Rpc.id (Json.uint 8)))
        "lamp"
        (Json.uint 2)
        none
        idle
      ≡ Ending.done (ok (record { code = pos 2; message = "" }), u))
    × (find 8 u.open_requests ≡ none)
unfolding state_response send_message int_to_string to_string
set_state_value_by_owner_example =
    set_state_value_by_owner (json_laws true known) (int_laws true known) idle (some lamp) "lamp"
      (Json.uint 2) (state_outcome_reply (lamp (Json.uint 2) "lamp")) 1 "lamp" (Json.uint 2) none
      idle refl (omega arith)
