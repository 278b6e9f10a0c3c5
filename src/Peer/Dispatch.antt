-- ===== src/Peer/Dispatch.antt =====
-- PeerAsync::receiveCallback and PeerAsync::handleMessage.
pub mod Acts
pub mod Keeps
pub mod Replies
pub mod Calls
pub mod Shapes
pub mod Returns
pub mod Outcomes
use jetpeer_cpp.Base.{
  ℤ, pos, String, Option, none, some, List, [], ◌∷◌, if◌then◌else◌, str_empty, int_eq, string_eq,
  ◌==◌,
}
use jetpeer_cpp.Base.Table.{find}
use jetpeer_cpp.Platform.{Platform, Value, Kind, is_null, set_in}
use jetpeer_cpp.Defines.{Fetcher, SetStateResult, warn_none}
use jetpeer_cpp.Defines.Failure.{Failure, JsoncppRpcException, Outcome, ok, raised}
use jetpeer_cpp.Defines.Key
use jetpeer_cpp.Defines.Rpc
use jetpeer_cpp.Peer.Send.{send_message, change_message}
use jetpeer_cpp.Peer.Request.{handle_result}
use jetpeer_cpp.Peer.State.{World, StateCb, MethodCb, Effect, M, pure, emit, or_throw, ◌>>=◌, ◌>>◌}

module _ ⦃P : Platform⦄ where
  open P use {
    null, set, member, kind, elements, empty_object, of_string, of_int, as_int, as_string,
    internal_error,
  }

  -- {error: {code: code, message: message}}
  unfoldable pub code_message : ℤ → String → Value
  code_message code message =
      set_in (set_in null Rpc.err Rpc.code (of_int code)) Rpc.err Rpc.message (of_string message)

  -- jsoncpprpcException::json
  unfoldable pub json : JsoncppRpcException → Value
  json e =
      let o1 = set_in null Rpc.err Rpc.code (of_int e.code) in
      let o2 = set_in o1 Rpc.err Rpc.message (of_string e.message) in
      set_in o2 Rpc.err Rpc.detail e.data_obj

  -- The handlers that a state callback and a method callback share.
  unfoldable pub failure_response : Failure → Value
  unfolding json code_message
  failure_response (Failure.jsoncpprpc_exception e) = json e
  failure_response (Failure.jsonrpc_exception code message) = code_message code message
  failure_response (Failure.std_exception what) = code_message internal_error what
  failure_response Failure.other = code_message internal_error "caught exception!"

  abbrev pub caught_failure : Outcome Value × World → Outcome Value × World
  caught_failure (ok v, w) = (ok v, w)
  caught_failure (raised e, w) = (ok (failure_response e), w)

  abbrev pub caught : M Value → M Value
  caught m w = caught_failure (m w)

  -- A notification of the changed value, unless the callback reports none.
  abbrev pub notify_change : String → Value → M (Unit {0})
  notify_change path value =
      if is_null value then pure tt else send_message (change_message path value)

  -- {result: {}}, or {result: {warning: {code: code, message: message}}}
  unfoldable pub state_result : SetStateResult → Value
  state_result result =
      if result.code == warn_none
      then set null Rpc.result empty_object
      else let w1 = set null Rpc.code (of_int result.code) in
        let w2 =
          if str_empty result.message then w1 else set w1 Rpc.message (of_string result.message) in
        set null Rpc.result (set null Key.warning w2)

  abbrev pub run_state_callback : StateCb → String → Value → M Value
  run_state_callback callback path value = do
    emit (Effect.state_called path value)
    result ← λ w. (callback value path, w)
    notify_change path result.value
    pure (state_result result.result)

  unfoldable pub state_response : Option StateCb → String → Value → M Value
  state_response none path value = pure (code_message internal_error "state is read only!")
  state_response (some callback) path value = caught (run_state_callback callback path value)

  -- A failure to send a response is logged and ignored.
  abbrev pub ignored_sending : Outcome (Unit {0}) × World → Outcome (Unit {0}) × World
  ignored_sending (ok _, w) = (ok tt, w)
  ignored_sending (raised (Failure.jsonrpc_exception _ _), w) = (ok tt, w)
  ignored_sending (raised (Failure.jsoncpprpc_exception _), w) = (ok tt, w)
  ignored_sending (raised (Failure.std_exception what), w) =
      (raised (Failure.std_exception what), w)
  ignored_sending (raised Failure.other, w) = (raised Failure.other, w)

  abbrev pub send_response : Value → M (Unit {0})
  send_response response w = ignored_sending (send_message response w)

  -- The response with the id of the request; without an id there is none.
  unfoldable pub answer : Value → Value → M (Unit {0})
  answer msg response = do
    id_node ← or_throw (member msg Rpc.id)
    if is_null id_node then pure tt else send_response (set response Rpc.id id_node)

  unfoldable pub handle_state : Value → String → Option StateCb → M (Unit {0})
  unfolding state_response answer
  handle_state msg path callback = do
    params ← or_throw (member msg Rpc.params)
    value ← or_throw (member params Key.value)
    if is_null value
        then pure tt
        else (do response ← state_response callback path value; answer msg response)

  -- `response[RESULT] = callback(params)`: C++11 leaves open which side is evaluated first. The
  -- callback is taken to run first. Otherwise the error response to a callback that throws, unless it
  -- is a jsoncpprpcException, would also hold a null result.
  abbrev pub run_method_callback : MethodCb → String → Value → M Value
  run_method_callback callback path msg = do
    params ← or_throw (member msg Rpc.params)
    emit (Effect.method_called path params)
    result ← λ w. (callback params, w)
    pure (set null Rpc.result result)

  unfoldable pub handle_method : Value → String → MethodCb → M (Unit {0})
  unfolding answer
  handle_method msg path callback = do
    response ← caught (run_method_callback callback path msg)
    answer msg response

  abbrev dispatch_method : Value → String → Option MethodCb → M (Unit {0})
  dispatch_method msg path (some callback) = handle_method msg path callback
  dispatch_method msg path none = pure tt

  abbrev dispatch_state : Value → String → Option (Option StateCb) → M (Unit {0})
  dispatch_state msg path (some callback) = handle_state msg path callback
  dispatch_state msg path none = λ w. dispatch_method msg path (find path w.method_callbacks) w

  unfoldable pub handle_request : Value → String → M (Unit {0})
  handle_request msg path w = dispatch_state msg path (find path w.state_callbacks) w

  -- What the callback of a fetcher throws is logged and ignored.
  abbrev notify_fetcher : Value → Option Fetcher → M (Unit {0})
  notify_fetcher msg none = pure tt
  notify_fetcher msg (some fetcher) = do
    params ← or_throw (member msg Rpc.params)
    emit (Effect.fetch_called fetcher.callback params (pos 0))

  unfoldable pub handle_notification : Value → ℤ → M (Unit {0})
  handle_notification msg id w = notify_fetcher msg (find id w.fetchers) w

  unfoldable pub handle_kind : Value → Value → Kind → M (Unit {0})
  handle_kind msg method_node Kind.null_value = handle_result msg
  handle_kind msg method_node Kind.int_value = do
    id ← or_throw (as_int method_node)
    handle_notification msg id
  handle_kind msg method_node Kind.string_value = do
    path ← or_throw (as_string method_node)
    handle_request msg path
  handle_kind msg method_node _ = pure tt

  unfoldable pub handle_message : Value → M (Unit {0})
  unfolding handle_kind
  handle_message msg = do
    method_node ← or_throw (member msg Rpc.method)
    handle_kind msg method_node (kind method_node)

  unfoldable pub handle_batch : List Value → M (Unit {0})
  handle_batch [] = pure tt
  handle_batch (element ∷ rest) = do handle_message element; handle_batch rest

  unfoldable pub receive_kind : Value → Kind → M (Unit {0})
  unfolding handle_batch
  receive_kind msg Kind.array_value = handle_batch (elements msg)
  receive_kind msg Kind.object_value = handle_message msg
  receive_kind msg _ = pure tt

  -- receiveCallback
  unfoldable pub receive_callback : Value → M (Unit {0})
  unfolding receive_kind
  receive_callback msg = receive_kind msg (kind msg)
