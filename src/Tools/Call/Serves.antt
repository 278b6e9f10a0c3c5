-- ===== src/Tools/Call/Serves.antt =====
-- tool/jetmethod.cpp: from its start to the answer of a call.
use jetpeer_cpp.Base.{
  ℕ, String, none, some, [], ◌∷◌, ◌≡◌, ◌∙◌, ap, true, false, arith, nat_eq, string_eq, int_eq,
  next_uint32, if◌then◌else◌,
}
use jetpeer_cpp.Base.Table.{find, put}
use jetpeer_cpp.Platform.{Platform, Value, Kind, Socket, Double}
use jetpeer_cpp.Platform.Laws.{IsReliable}
use jetpeer_cpp.Defines.{default_matcher}
use jetpeer_cpp.Defines.Failure.{Outcome, ok}
use jetpeer_cpp.Defines.Key
use jetpeer_cpp.Defines.Rpc
use jetpeer_cpp.Defines.Verb
use jetpeer_cpp.Peer.Dispatch.{handle_message}
use jetpeer_cpp.Peer.Dispatch.Calls.{call_request_answered}
use jetpeer_cpp.Peer.Dispatch.Replies.{answers, send_all, told, Fits}
use jetpeer_cpp.Peer.Lifecycle.{connecting}
use jetpeer_cpp.Peer.Lifecycle.Start.{config_doc, connected}
use jetpeer_cpp.Peer.Methods.{timeout_params, add_method_async, add_method_async_private}
use jetpeer_cpp.Peer.Methods.Adding.{execute-KeepsTables, response_lem, add_method_settled}
use jetpeer_cpp.Peer.Registry.{register_method}
use jetpeer_cpp.Peer.Request.{handle_result, call_response, request_doc}
use jetpeer_cpp.Peer.Send.Results.{after_send}
use jetpeer_cpp.Peer.State.{World, ResponseCb, Effect, continue}
use jetpeer_cpp.Tools.Arguments.{Arguments, tcp_port}
use jetpeer_cpp.Tools.Call.{method_cb, method_name, jetmethod}
use jetpeer_cpp.Tools.Programs.Starts.{fresh, peer_ready}

module _ ⦃P : Platform⦄ where
  open P use {null, set, member, is_member, as_uint, kind, as_string, of_string}

  abbrev pub place : Arguments
  place = record { address = "::1"; port = tcp_port; program = ""; match = default_matcher }

  -- A response to the request for a method enters no state.
  states-method_added :
      (path : String) (u : ℕ) (v : Value) (w : World)
      → (call_response (ResponseCb.method_added path u) v w).state_callbacks ≡ w.state_callbacks
  unfolding call_response
  states-method_added path u v w = ground arith

  module _ (socket : Socket) (timeout_s : Double) (w : World) where
    -- The new peer, before and behind the greeting.
    abbrev pub new_peer : World
    new_peer = fresh socket place w

    abbrev greeted : World
    greeted = after_send (config_doc "" false) (connected new_peer)

    abbrev pub running : World
    running = (jetmethod socket timeout_s w).1

    running_lem :
        IsReliable
        → (connecting new_peer).0 ≡ true
        → Fits (config_doc "" false ∷ [])
        → running ≡ (add_method_async method_name (some timeout_s) (some 0) method_cb greeted).1
    unfolding jetmethod
    running_lem reliable connects fits =
        ap
          (λ (r : Outcome (Unit {0}) × World).
            (continue r.0 (λ _. add_method_async method_name (some timeout_s) (some 0) method_cb)
              r.1).1)
          (peer_ready socket place w reliable connects fits)

    states-settled :
        (v id_node : Value)
        → member v Rpc.id ≡ some id_node
        → as_uint id_node ≡ some (next_uint32 w.sid)
        → (handle_result v
            (add_method_async method_name
              (some timeout_s)
              (some 0)
              method_cb
              greeted).1).1.state_callbacks
          ≡ []
    unfolding add_method_async add_method_async_private register_method
    states-settled v id_node has_id is_id =
        let doc =
          request_doc Verb.add
            (set (timeout_params (some timeout_s)) Key.path (of_string method_name)) in
        let done = ResponseCb.method_added method_name 0 in
        let start = record greeted { method_callbacks = put method_name method_cb [] } in
        ap (λ r. r.1.state_callbacks) (response_lem v id_node doc done start has_id is_id)
        ∙ states-method_added method_name 0 v _
        ∙ (execute-KeepsTables doc done start).same_states

    -- jetmethod connects and adds its method. When the response to that request has come, and is
    -- no error, a call of the method is answered with its parameters: the callback is called
    -- once with them, and one response with the id of the call is sent, with the parameters as
    -- the result. Nothing else changes. The messages must fit, and the socket take them.
    pub jetmethod_serves :
        (reliable : IsReliable) (v id_node msg node call_id params : Value)
        → (connecting new_peer).0 ≡ true
        → Fits (config_doc "" false ∷ [])
        → member v Rpc.id ≡ some id_node
        → as_uint id_node ≡ some (next_uint32 w.sid)
        → is_member v Rpc.err ≡ false
        → member msg Rpc.method ≡ some node
        → kind node ≡ Kind.string_value
        → as_string node ≡ some method_name
        → member msg Rpc.params ≡ some params
        → member msg Rpc.id ≡ some call_id
        → Fits (answers call_id (set null Rpc.result params))
        → let u = (handle_result v running).1 in
          handle_message msg u ≡ (
            ok tt,
            send_all
                (answers call_id (set null Rpc.result params))
                (told (Effect.method_called method_name params ∷ []) u),
          )
    unfolding add_method_async find
    jetmethod_serves reliable v id_node msg node call_id params connects fits has_id is_id good
          has_method is_string has_path has_params has_call_id fits_answer =
        let (_, entered, _, _) =
          add_method_settled method_name (timeout_params (some timeout_s)) v id_node 0 greeted
            has_id is_id method_cb in
        rw (running_lem reliable connects fits) (
          call_request_answered reliable msg node params call_id method_name method_cb _ has_method
            is_string has_path (ap (find method_name) (states-settled v id_node has_id is_id))
            (entered ∙ ap (λ b. if b then none else some method_cb) good) has_params has_call_id
            fits_answer)
