-- ===== src/Peer/Dispatch/Outcomes.antt =====
-- PeerAsync::handleMessage on a request to set a state: what it comes to, and what the response says of
-- it, also where the change cannot be notified.
use jetpeer_cpp.Base.{String, Option, none, some, ◌∷◌, false, ◌≡◌, refl}
use jetpeer_cpp.Platform.{Platform, Value, is_null}
use jetpeer_cpp.Platform.Laws.{JsonLaws}
use jetpeer_cpp.Defines.{SetStateCbResult}
use jetpeer_cpp.Defines.Failure.{Failure, Outcome, ok, raised}
use jetpeer_cpp.Defines.Key
use jetpeer_cpp.Defines.Rpc
use jetpeer_cpp.Peer.Dispatch.{
  caught_failure, state_result, failure_response, state_response, notify_change, send_response,
  answer, handle_state,
}
use jetpeer_cpp.Peer.Dispatch.Replies.{state_outcome_reply}
use jetpeer_cpp.Peer.Dispatch.Shapes.{IsAnswer, state_outcome_reply-IsAnswer}
use jetpeer_cpp.Peer.State.{World, StateCb, Effect, pure, continue, ◌>>=◌}

module _ ⦃P : Platform⦄ where
  open P use {member, set, internal_error}

  -- The callback has returned, and its change is notified: an exception of sendMessage is one of the
  -- whole.
  abbrev pub after_notifying : SetStateCbResult → Outcome (Unit {0}) → Outcome SetStateCbResult
  after_notifying r (ok _) = ok r
  after_notifying r (raised e) = raised e

  abbrev pub callback_outcome : String → Outcome SetStateCbResult → World → Outcome SetStateCbResult
  callback_outcome path (ok r) w = after_notifying r (notify_change path r.value w).0
  callback_outcome path (raised e) w = raised e

  -- What a request to set a state comes to: what its callback did, unless it returned a change that
  -- cannot be sent; and a failure if the state is read only.
  abbrev pub set_outcome : Option StateCb → String → Value → World → Outcome SetStateCbResult
  set_outcome none path value w =
      raised (Failure.jsonrpc_exception internal_error "state is read only!")
  set_outcome (some cb) path value w =
      callback_outcome path (cb value path)
        (record w { trace = Effect.state_called path value ∷ w.trace })

  notified_reply :
      (r : SetStateCbResult) (n : Outcome (Unit {0}) × World)
      → (caught_failure (continue n.0 (λ _. pure (state_result r.result)) n.1)).0
        ≡ ok (state_outcome_reply (after_notifying r n.0))
  notified_reply r (ok _, w) = refl
  notified_reply r (raised e, w) = refl

  callback_reply :
      (o : Outcome SetStateCbResult) (path : String) (w : World)
      → (caught_failure
          (continue o (λ r. notify_change path r.value >>= λ _. pure (state_result r.result)) w)).0
        ≡ ok (state_outcome_reply (callback_outcome path o w))
  callback_reply (ok r) path w = notified_reply r (notify_change path r.value w)
  callback_reply (raised e) path w = refl

  -- There always is a response, and it is made from what the request came to.
  pub state_response_reply :
      (cb : Option StateCb) (path : String) (value : Value) (w : World)
      → (state_response cb path value w).0 ≡ ok (state_outcome_reply (set_outcome cb path value w))
  unfolding state_response failure_response
  state_response_reply none path value w = refl
  state_response_reply (some cb) path value w = callback_reply (cb value path) path _

  responding :
      (msg reply id_node : Value) (w : World)
      → member msg Rpc.id ≡ some id_node
      → is_null id_node ≡ false
      → answer msg reply w ≡ send_response (set reply Rpc.id id_node) w
  unfolding answer
  responding msg reply id_node w has_id asks = rw (has_id, asks) refl

  -- A request with an id to set a state of the peer to a value that is not null has a response,
  -- whatever the callback of the state does and whether or not its change can be sent; handling the
  -- request ends with the attempt to send that response. It carries the id of the request. It is a
  -- result and no error if the callback returned and the change that it reported, if any, was sent.
  -- It is an error and no result, with the code and the message of the exception, if the callback
  -- threw or the change could not be sent, and if the state is read only.
  pub set_response-IsAnswer :
      (laws : JsonLaws) (msg params value id_node : Value) (path : String) (cb : Option StateCb)
      (w : World)
      → member msg Rpc.params ≡ some params
      → member params Key.value ≡ some value
      → is_null value ≡ false
      → member msg Rpc.id ≡ some id_node
      → is_null id_node ≡ false
      → (reply : Value) × (handle_state msg path cb w
          ≡ send_response (set reply Rpc.id id_node) (state_response cb path value w).1)
        × IsAnswer laws (set_outcome cb path value w) id_node (set reply Rpc.id id_node)
  unfolding handle_state
  set_response-IsAnswer laws msg params value id_node path cb w has_params has_value present has_id
        asks =
      let o = set_outcome cb path value w in
      let reply = state_outcome_reply o in
      (
        reply,
        rw (has_params, has_value, present, state_response_reply cb path value w)
            (responding msg reply id_node (state_response cb path value w).1 has_id asks),
        state_outcome_reply-IsAnswer laws o id_node,
      )
