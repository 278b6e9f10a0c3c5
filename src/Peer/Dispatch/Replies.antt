-- ===== src/Peer/Dispatch/Replies.antt =====
-- PeerAsync::handleMessage on requests to set a state and to call a method: what is sent, in which
-- order, on every outcome of the callback.
use jetpeer_cpp.Base.{
  String, Option, none, some, List, [], ◌∷◌, ◌++◌, Bool, true, false, ◌≡◌, ◌≤◌, ◌∙◌, ap, refl,
  if◌then◌else◌, length, string_eq, int_eq,
}
use jetpeer_cpp.Base.Table.{find}
use jetpeer_cpp.Platform.{Platform, Value, Kind, is_null}
use jetpeer_cpp.Platform.Laws.{IsReliable}
use jetpeer_cpp.Defines.{SetStateCbResult, max_message_size}
use jetpeer_cpp.Defines.Failure.{Outcome, ok, raised}
use jetpeer_cpp.Defines.Key
use jetpeer_cpp.Defines.Rpc
use jetpeer_cpp.Peer.Frame.{frame}
use jetpeer_cpp.Peer.Send.{send_message, change_message}
use jetpeer_cpp.Peer.Send.Results.{after_send, send_message_ok}
use jetpeer_cpp.Peer.Dispatch.{
  caught_failure, state_result, failure_response, code_message, state_response, notify_change,
  send_response, ignored_sending, answer, handle_state, handle_message, handle_request,
}
use jetpeer_cpp.Peer.State.{World, StateCb, Effect, pure, continue, ◌>>=◌}

module _ ⦃P : Platform⦄ where
  open P use {null, set, member, write, kind, as_string, internal_error}

  -- The response to a request, before it gets the id, by what the request came to: what the callback
  -- did, or the failure to send the change that it returned (Peer/Dispatch/Outcomes.antt).
  abbrev pub state_outcome_reply : Outcome SetStateCbResult → Value
  state_outcome_reply (ok r) = state_result r.result
  state_outcome_reply (raised e) = failure_response e

  abbrev pub state_reply : Option StateCb → String → Value → Value
  state_reply none path value = code_message internal_error "state is read only!"
  state_reply (some cb) path value = state_outcome_reply (cb value path)

  -- The notification of a change: one if the callback returned a value, none otherwise.
  abbrev pub changes : String → Outcome SetStateCbResult → List Value
  changes path (ok r) = if is_null r.value then [] else change_message path r.value ∷ []
  changes path (raised e) = []

  abbrev pub state_changes : Option StateCb → String → Value → List Value
  state_changes none path value = []
  state_changes (some cb) path value = changes path (cb value path)

  abbrev pub state_calls : Option StateCb → String → Value → List Effect
  state_calls none path value = []
  state_calls (some cb) path value = Effect.state_called path value ∷ []

  -- The answer that is sent: none if the request has no id.
  abbrev pub answers : Value → Value → List Value
  answers id_node response = if is_null id_node then [] else set response Rpc.id id_node ∷ []

  -- The state after the socket took the frames of these messages, the last one of the list first.
  abbrev pub send_all : List Value → World → World
  send_all [] w = w
  send_all (v ∷ rest) w = after_send v (send_all rest w)

  abbrev pub Fits : List Value → Type 0
  Fits [] = Unit
  Fits (v ∷ rest) = (length (write v) ≤ max_message_size) × Fits rest

  -- The state after the calls of callbacks that these effects tell of.
  abbrev pub told : List Effect → World → World
  told effects w = record w { trace = effects ++ w.trace }

  module _ (reliable : IsReliable) where
    send_fits :
        (v : Value) (w : World)
        → length (write v) ≤ max_message_size
        → send_message v w ≡ (ok tt, after_send v w)
    send_fits v w fits = send_message_ok v w fits (reliable.never_refused w.socket (frame v))

    -- A message that is sent unless a value is null.
    send_unless :
        (b : Bool) (v : Value) (w : World)
        → Fits (if b then [] else v ∷ [])
        → (if b then pure tt else send_message v) w ≡ (ok tt, send_all (if b then [] else v ∷ []) w)
    send_unless true v w fits = refl
    send_unless false v w fits = send_fits v w fits.0

    respond_unless :
        (b : Bool) (v : Value) (w : World)
        → Fits (if b then [] else v ∷ [])
        → (if b then pure tt else send_response v) w
          ≡ (ok tt, send_all (if b then [] else v ∷ []) w)
    respond_unless true v w fits = refl
    respond_unless false v w fits = ap ignored_sending (send_fits v w fits.0)

    pub answer_lem :
        (msg response id_node : Value) (w : World)
        → member msg Rpc.id ≡ some id_node
        → Fits (answers id_node response)
        → answer msg response w ≡ (ok tt, send_all (answers id_node response) w)
    unfolding answer
    answer_lem msg response id_node w has_id fits =
        rw has_id (respond_unless (is_null id_node) (set response Rpc.id id_node) w fits)

    outcome_lem :
        (o : Outcome SetStateCbResult) (path : String) (w : World)
        → Fits (changes path o)
        → caught_failure
            (continue o (λ r. notify_change path r.value >>= λ _. pure (state_result r.result)) w)
          ≡ (ok (state_outcome_reply o), send_all (changes path o) w)
    outcome_lem (ok r) path w fits =
        ap (λ p. caught_failure (continue p.0 (λ _. pure (state_result r.result)) p.1))
          (send_unless (is_null r.value) (change_message path r.value) w fits)
    outcome_lem (raised e) path w fits = refl

    state_response_lem :
        (cb : Option StateCb) (path : String) (value : Value) (w : World)
        → Fits (state_changes cb path value)
        → state_response cb path value w ≡ (
          ok (state_reply cb path value),
          send_all (state_changes cb path value) (told (state_calls cb path value) w),
        )
    unfolding state_response
    state_response_lem none path value w fits = refl
    state_response_lem (some cb) path value w fits =
        outcome_lem (cb value path) path (told (state_calls (some cb) path value) w) fits

    -- A request to set the state `path` to a value that is not null, where the peer has that state.
    -- The callback is called once with that value; a change that it reports is notified; and then, if
    -- the request has an id, one response with that id is sent: the result or a warning if the
    -- callback returns, an error with the code and message of what it throws, and an error if the
    -- state is read only. Nothing else changes. The messages must fit, and the socket take them.
    pub set_request_answered :
        (msg node params value id_node : Value) (path : String) (cb : Option StateCb) (w : World)
        → member msg Rpc.method ≡ some node
        → kind node ≡ Kind.string_value
        → as_string node ≡ some path
        → find path w.state_callbacks ≡ some cb
        → member msg Rpc.params ≡ some params
        → member params Key.value ≡ some value
        → is_null value ≡ false
        → member msg Rpc.id ≡ some id_node
        → Fits (state_changes cb path value)
        → Fits (answers id_node (state_reply cb path value))
        → handle_message msg w ≡ (
          ok tt,
          send_all
              (answers id_node (state_reply cb path value))
              (send_all (state_changes cb path value) (told (state_calls cb path value) w)),
        )
    unfolding handle_message handle_request handle_state
    set_request_answered msg node params value id_node path cb w has_method is_string has_path found
          has_params has_value present has_id fits_changes fits_answer =
        rw (has_method, is_string, has_path, found, has_params, has_value, present)
          (ap (λ p. continue p.0 (λ response. answer msg response) p.1)
              (state_response_lem cb path value w fits_changes)
            ∙ answer_lem msg (state_reply cb path value) id_node _ has_id fits_answer)
