-- ===== src/Peer/Request.antt =====
-- AsyncRequest of lib/asyncrequest.cpp. Its table of open requests is static: it is shared by all
-- peers of the process, and the entries of other peers look like any other entry here.
pub mod Responses
pub mod Sending
use jetpeer_cpp.Base.{
  ℕ, ℤ, String, Option, none, some, List, [], ◌∷◌, length, if◌then◌else◌, next_uint32, minus_one,
  nat_eq, string_eq, int_eq,
}
use jetpeer_cpp.Base.Table.{find, put, erase}
use jetpeer_cpp.Platform.{Platform, Value, set_in}
use jetpeer_cpp.Defines.Failure.{Failure, Outcome, ok, raised}
use jetpeer_cpp.Defines.Rpc
use jetpeer_cpp.Peer.Send.{send_message}
use jetpeer_cpp.Peer.State.{World, Request, ResponseCb, Effect, M, modify, or_throw, ◌>>=◌}

module _ ⦃P : Platform⦄ where
  open P use {null, set, member, is_member, of_string, of_int, of_uint, as_uint}

  -- AsyncRequest::AsyncRequest: m_requestDoc
  unfoldable pub request_doc : String → Value → Value
  request_doc name params =
      set (set (set null Rpc.jsonrpc (of_string "2.0")) Rpc.method (of_string name)) Rpc.params
        params

  -- addMethodResultCb, addStateResultCb, addFetchResultCb: an error takes the registration back.
  abbrev pub method_added_result : Value → String → World → World
  method_added_result result path w =
      if is_member result Rpc.err
      then record w { method_callbacks = erase path w.method_callbacks }
      else w

  abbrev pub state_added_result : Value → String → World → World
  state_added_result result path w =
      if is_member result Rpc.err
      then record w { state_callbacks = erase path w.state_callbacks }
      else w

  abbrev pub fetch_added_result : Value → ℤ → World → World
  fetch_added_result result fetch_id w =
      if is_member result Rpc.err then record w { fetchers = erase fetch_id w.fetchers } else w

  abbrev told : Effect → World → World
  told e w = record w { trace = e ∷ w.trace }

  -- A call of a response callback. What a callback of the user throws is caught by every caller.
  unfoldable pub call_response : ResponseCb → Value → World → World
  call_response (ResponseCb.user u) v w = told (Effect.response_called u v) w
  call_response (ResponseCb.method_added path u) v w =
      told (Effect.response_called u v) (method_added_result v path w)
  call_response (ResponseCb.state_added path u) v w =
      told (Effect.response_called u v) (state_added_result v path w)
  call_response (ResponseCb.fetch_added id u) v w =
      told (Effect.response_called u v) (fetch_added_result v id w)
  call_response (ResponseCb.fulfils p) v w = told (Effect.promise_set p v) w

  -- An empty std::function throws, and the exception is caught.
  abbrev pub call_optional : Option ResponseCb → Value → World → World
  call_optional none v w = w
  call_optional (some cb) v w = call_response cb v w

  -- The entry that m_openRequestCbs[id] gives, which is a new one for a new id.
  abbrev pub callback_of : Option Request → Option ResponseCb
  callback_of none = none
  callback_of (some r) = r.response_callback

  abbrev pub notifier_of : Option Request → Option (ℤ × String)
  notifier_of none = none
  notifier_of (some r) = r.error_notifier

  -- m_openRequestCbs[id].responseCallback = cb
  abbrev pub set_callback : ℕ → Option ResponseCb → World → World
  set_callback id cb w = record w {
    open_requests =
        put id
          (record {
            response_callback = cb;
            error_notifier = notifier_of (find id w.open_requests);
          })
          w.open_requests;
  }

  -- m_openRequestCbs[id].errorNotifier = a notifier that is set to report the exception
  abbrev pub set_notifier : ℕ → ℤ × String → World → World
  set_notifier id failure w = record w {
    open_requests =
        put id
          (record {
            response_callback = callback_of (find id w.open_requests);
            error_notifier = some failure;
          })
          w.open_requests;
  }

  -- `catch (const hbk::exception::jsonrpcException& e)`, which catches the derived class too.
  abbrev pub caught_sending :
      Outcome (Unit {0}) × World → (ℤ × String → World → World) → Outcome (Unit {0}) × World
  caught_sending (ok _, w) handler = (ok tt, w)
  caught_sending (raised (Failure.jsonrpc_exception code message), w) handler =
      (ok tt, handler (code, message) w)
  caught_sending (raised (Failure.jsoncpprpc_exception j), w) handler =
      (ok tt, handler (j.code, j.message) w)
  caught_sending (raised (Failure.std_exception what), w) handler =
      (raised (Failure.std_exception what), w)
  caught_sending (raised Failure.other, w) handler = (raised Failure.other, w)

  -- execute(peerAsync, resultCb) with a callback: m_id, and the message with that id
  abbrev pub execute_with : Value → ResponseCb → M (Unit {0})
  execute_with doc cb w =
      let id = next_uint32 w.sid in
      let w1 = set_callback id (some cb) (record w { sid = id }) in
      caught_sending (send_message (set doc Rpc.id (of_uint id)) w1) (set_notifier id)

  unfoldable pub execute : Value → Option ResponseCb → M (Unit {0})
  execute doc none w = caught_sending (send_message doc w) (λ _ u. u)
  execute doc (some cb) w = execute_with doc cb w

  -- execute(peerAsync): no id, no response, all exceptions ignored
  unfoldable pub execute_no_response : Value → M (Unit {0})
  execute_no_response doc w = let (_, w') = send_message doc w in (ok tt, w')

  -- The entry that handleResult found.
  abbrev pub respond : ℕ → Value → Option Request → World → World
  respond id v none w = w
  respond id v (some r) w =
      call_optional r.response_callback v (record w { open_requests = erase id w.open_requests })

  unfoldable pub handle_result : Value → M (Unit {0})
  handle_result v = do
    id_node ← or_throw (member v Rpc.id)
    id ← or_throw (as_uint id_node)
    modify (λ w. respond id v (find id w.open_requests) w)

  -- {id: id, error: {code: code, message: message}}
  unfoldable pub error_response : ℕ → ℤ → String → Value
  error_response id code message =
      set_in (set_in (set null Rpc.id (of_uint id)) Rpc.err Rpc.code (of_int code)) Rpc.err
        Rpc.message (of_string message)

  -- The lambda NotifierCb. It captured the request object by its address, and reads `m_id` of it
  -- when the event loop runs it: `m_id` is what that memory holds then.
  unfoldable pub notifier_cb : ℕ → ℤ × String → M (Unit {0})
  notifier_cb m_id (code, message) = handle_result (error_response m_id code message)

  abbrev pub cancelled : ℕ → Value
  cancelled id = error_response id minus_one "jet request has been canceled without response!"

  -- The callbacks of all peers of the process are called; those of other peers are a `user` here.
  unfoldable pub cancel_all : List (ℕ × Request) → World → World
  cancel_all [] w = w
  cancel_all ((id, r) ∷ rest) w =
      cancel_all rest (call_optional r.response_callback (cancelled id) w)

  -- AsyncRequest::clear
  unfoldable pub clear : M ℕ
  unfolding cancel_all
  clear w =
      (ok (length w.open_requests), record (cancel_all w.open_requests w) { open_requests = [] })
