-- ===== src/Tests/Adding.antt =====
-- The theorems on adding states, methods and fetches, applied: one is refused, two are not.
use jetpeer_cpp.Base.{pos, none, some, ◌∷◌, ◌≡◌, refl, int_eq, nat_eq, string_eq}
use jetpeer_cpp.Base.Table.{find}
use jetpeer_cpp.Defines.{Fetcher, default_matcher}
use jetpeer_cpp.Peer.Request.{handle_result}
use jetpeer_cpp.Peer.Methods.{add_state_async_private}
use jetpeer_cpp.Peer.Methods.Adding.{add_state_settled}
use jetpeer_cpp.Peer.State.{Effect}
use jetpeer_cpp.Tests.Toy.{Json}
use jetpeer_cpp.Tests.Data.{toy, idle, lamp, object2}

-- {"id": 8, "error": 1}
abbrev refusal : Json
refusal = object2 "id" (Json.int (pos 8)) "error" (Json.int (pos 1))

abbrev consent : Json
consent = object2 "id" (Json.int (pos 8)) "result" Json.nil

add_state_settled_example :
    let w1 =
      (add_state_async_private "bulb" (Json.int (pos 0)) Json.nil (some 4) (some lamp) idle).1 in
    let w2 = (handle_result refusal w1).1 in
    (find "bulb" w1.state_callbacks ≡ some (some lamp))
    × (find "bulb" w2.state_callbacks ≡ none)
    × (w2.trace ≡ Effect.response_called 4 refusal ∷ w1.trace)
    × (find 8 w2.open_requests ≡ none)
add_state_settled_example =
    add_state_settled "bulb" Json.nil refusal (Json.int (pos 8)) 4 idle refl refl (Json.int (pos 0))
      (some lamp)

abbrev watcher : Fetcher
watcher = record { callback = some 2; matcher = default_matcher }
