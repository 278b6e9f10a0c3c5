-- ===== src/Tests/Running.antt =====
-- The theorems on requests and messages, applied.
use jetpeer_cpp.Base.{
  int_to_string, to_string, ℕ, pos, minus_one, [], ◌∷◌, none, some, true, false, ◌≡◌, ◌≢◌, refl,
  arith, string_eq, int_eq, nat_eq,
}
use jetpeer_cpp.Base.Table.{find}
use jetpeer_cpp.Defines.Failure.{ok}
use jetpeer_cpp.Peer.State.{Effect, Request, ResponseCb}
use jetpeer_cpp.Peer.Request.{handle_result, execute}
use jetpeer_cpp.Peer.Request.Responses.{response_closes_request}
use jetpeer_cpp.Peer.Dispatch.{
  handle_message, state_result, failure_response, handle_state, state_response, send_response,
}
use jetpeer_cpp.Peer.Dispatch.Replies.{
  set_request_answered, answers, send_all, told, state_changes, state_reply, state_calls,
}
use jetpeer_cpp.Peer.Dispatch.Calls.{call_request_answered, method_reply}
use jetpeer_cpp.Base.{ℕ, take, String, ◌⊎◌}
use jetpeer_cpp.Defines.Rpc
use jetpeer_cpp.Peer.Dispatch.Shapes.{IsAnswer}
use jetpeer_cpp.Peer.Dispatch.Outcomes.{set_outcome, set_response-IsAnswer}
use jetpeer_cpp.Peer.Frame.{frame}
use jetpeer_cpp.Peer.Send.{send_message, part}
use jetpeer_cpp.Peer.Request.{notifier_cb, error_response}
use jetpeer_cpp.Peer.Request.Sending.{
  execute-Opens, Opens, failed_request_is_answered, failed_request_is_lost,
}
use jetpeer_cpp.Tests.Toy.{Json}
use jetpeer_cpp.Tests.Toy.Holds.{reliable, json_laws}
use jetpeer_cpp.Tests.Data.{
  toy, refusing, known, idle, open7, response7, set_lamp, call_blink, lamp, blink, value_of,
  object1, stuck,
}

response_closes_request_example :
    let w' = (handle_result response7 idle).1 in
    (w'.trace ≡ Effect.response_called 1 response7 ∷ [])
    × (find 7 w'.open_requests ≡ none)
    × ((j : ℕ) → 7 ≢ j → find j w'.open_requests ≡ find j idle.open_requests)
unfolding find
response_closes_request_example =
    response_closes_request response7 (Json.int (pos 7)) 7 refl refl idle open7 refl

set_request_answered_example :
    let two = Json.int (pos 2) in
    handle_message (set_lamp two) idle ≡ (
      ok tt,
      send_all (answers (Json.int (pos 5)) (state_reply (some lamp) "lamp" two)) (
          send_all
            (state_changes (some lamp) "lamp" two)
            (told (state_calls (some lamp) "lamp" two) idle)),
    )
unfolding find int_to_string state_result
set_request_answered_example =
    let two = Json.int (pos 2) in
    set_request_answered (reliable known) (set_lamp two) (Json.text "lamp") (value_of two) two
      (Json.int (pos 5)) "lamp" (some lamp) idle refl refl refl refl refl refl refl refl
      (omega arith, tt) (omega arith, tt)

call_request_answered_example : handle_message call_blink idle ≡ (
  ok tt,
  send_all
      (answers (Json.int (pos 6)) (method_reply (blink (Json.int (pos 4)))))
      (told (Effect.method_called "blink" (Json.int (pos 4)) ∷ []) idle),
)
unfolding find int_to_string failure_response
call_request_answered_example =
    call_request_answered (reliable known) call_blink (Json.text "blink") (Json.int (pos 4))
      (Json.int (pos 6)) "blink" blink idle refl refl refl refl refl refl refl (omega arith, tt)

execute-Opens_example :
    let w' = (execute Json.nil (some (ResponseCb.user 4)) idle).1 in
    ((execute Json.nil (some (ResponseCb.user 4)) idle).0 ≡ ok tt)
    × (w'.sid ≡ 8)
    × Opens Json.nil (ResponseCb.user 4) idle w'
    × ((w'.trace ≡ Effect.wrote (frame (object1 "id" (Json.uint 8))) ∷ [])
        ⊎ (((n : ℕ) × (w'.trace ≡ part (take n (frame (object1 "id" (Json.uint 8)))) []))
            × ((message : String) × (find 8 w'.open_requests
                  ≡ some (record {
                    response_callback = some (ResponseCb.user 4);
                    error_notifier = some (minus_one, message);
                  })))))
execute-Opens_example = execute-Opens Json.nil (ResponseCb.user 4) idle

abbrev refused_text : String
refused_text = "could not send message: 'Broken pipe'"

failed_request_is_answered_example :
    let doc = Json.nil in
    let cb = ResponseCb.user 4 in
    let u =
      (notifier_cb ⦃P = refusing⦄ 8
        (minus_one, refused_text)
        (execute ⦃P = refusing⦄ doc (some cb) stuck).1).1 in
    ((n : ℕ) × (u.trace
        ≡ Effect.response_called 4 (error_response ⦃P = refusing⦄ 8 minus_one refused_text)
          ∷ part ⦃P = refusing⦄ (take n (frame ⦃P = refusing⦄ (object1 "id" (Json.uint 8)))) []))
    × (find 8 u.open_requests ≡ none)
unfolding send_message int_to_string to_string frame
failed_request_is_answered_example =
    failed_request_is_answered ⦃P = refusing⦄ (json_laws false known) Json.nil (ResponseCb.user 4)
      stuck refused_text refl

failed_request_is_lost_example :
    let u =
      (notifier_cb ⦃P = refusing⦄ 0
        (minus_one, refused_text)
        (execute ⦃P = refusing⦄ Json.nil (some (ResponseCb.user 4)) stuck).1).1 in
    ((n : ℕ) × (u.trace
        ≡ part ⦃P = refusing⦄ (take n (frame ⦃P = refusing⦄ (object1 "id" (Json.uint 8)))) []))
    × ((r : Request) × (find 8 u.open_requests ≡ some r)
        × (r.response_callback ≡ some (ResponseCb.user 4)))
unfolding find send_message int_to_string to_string frame
failed_request_is_lost_example =
    failed_request_is_lost ⦃P = refusing⦄ (json_laws false known) Json.nil (ResponseCb.user 4) stuck
      refused_text 0 (omega arith) refl refl

set_response-IsAnswer_example :
    let two = Json.int (pos 2) in
    (reply : Json) × (handle_state (set_lamp two) "lamp" (some lamp) idle
      ≡ send_response
          (toy.set reply Rpc.id (Json.int (pos 5)))
          (state_response (some lamp) "lamp" two idle).1)
    × IsAnswer
        (json_laws true known)
        (set_outcome (some lamp) "lamp" two idle)
        (Json.int (pos 5))
        (toy.set reply Rpc.id (Json.int (pos 5)))
set_response-IsAnswer_example =
    let two = Json.int (pos 2) in
    set_response-IsAnswer (json_laws true known) (set_lamp two) (value_of two) two
      (Json.int (pos 5)) "lamp" (some lamp) idle refl refl refl refl refl
