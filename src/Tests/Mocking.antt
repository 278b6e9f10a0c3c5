-- ===== src/Tests/Mocking.antt =====
-- The theorems on the mock, applied.
use jetpeer_cpp.Base.{arith, int_to_string, pos, some, [], ◌∷◌, ◌≡◌, refl, string_eq}
use jetpeer_cpp.Base.Table.{find}
use jetpeer_cpp.Defines.Failure.{Failure, ok, raised}
use jetpeer_cpp.Mock.{Mock, MockedState, set_state_mock}
use jetpeer_cpp.Mock.Agrees.{mock_answers_as_peer}
use jetpeer_cpp.Defines.Rpc
use jetpeer_cpp.Peer.Dispatch.{handle_message, state_result}
use jetpeer_cpp.Peer.Dispatch.Replies.{send_all, told}
use jetpeer_cpp.Peer.Send.{change_message}
use jetpeer_cpp.Peer.Send.Results.{after_send}
use jetpeer_cpp.Peer.State.{StateCb, Effect}
use jetpeer_cpp.Tests.Toy.{Json}
use jetpeer_cpp.Tests.Data.{toy, known, idle, lamp, set_lamp, value_of}
use jetpeer_cpp.Tests.Toy.Holds.{reliable}

abbrev off : MockedState
off = record { state_callback = some lamp; value = Json.uint 0 }

abbrev on : MockedState
on = record { state_callback = some lamp; value = Json.uint 1 }

abbrev stage : Mock
stage = record { states = ("lamp", off) ∷ []; methods = []; id = 0; results = [] }

-- A state that cannot be set.
abbrev stuck_cb : StateCb
stuck_cb value path = raised (Failure.jsonrpc_exception (pos 4) "stuck")

abbrev fixed : MockedState
fixed = record { state_callback = some stuck_cb; value = Json.uint 0 }

mock_answers_as_peer_example :
    let two = Json.int (pos 2) in
    let m' = (set_state_mock "lamp" two (some 5) stage).1 in
    (response : Json) × ((set_state_mock "lamp" two (some 5) stage).0 ≡ ok tt)
    × (m'.results ≡ (5, response) ∷ [])
    × (find "lamp" m'.states ≡ some (record off { value = two }))
    × (handle_message (set_lamp two) idle ≡ (
      ok tt,
      after_send (toy.set response Rpc.id (Json.int (pos 5))) (
          send_all
            (change_message "lamp" two ∷ [])
            (told (Effect.state_called "lamp" two ∷ []) idle)),
    ))
unfolding find int_to_string state_result
mock_answers_as_peer_example =
    let two = Json.int (pos 2) in
    mock_answers_as_peer "lamp" two stage off lamp refl refl 5 _ (reliable known) (set_lamp two)
      (Json.text "lamp") (value_of two) (Json.int (pos 5)) idle refl refl refl refl refl refl refl
      refl refl refl (omega arith, tt) (omega arith, tt)
