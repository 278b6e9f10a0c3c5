-- ===== src/Peer/Dispatch/Calls.antt =====
-- PeerAsync::handleMessage on calls of methods, on notifications of fetches, and on what it ignores.
use jetpeer_cpp.Base.{
  ℤ, pos, String, Option, none, some, List, [], ◌∷◌, ◌≡◌, ◌∙◌, ap, refl, string_eq, int_eq,
}
use jetpeer_cpp.Base.Table.{find}
use jetpeer_cpp.Platform.{Platform, Value, Kind}
use jetpeer_cpp.Platform.Laws.{IsReliable}
use jetpeer_cpp.Defines.{Fetcher}
use jetpeer_cpp.Defines.Failure.{Outcome, ok, raised}
use jetpeer_cpp.Defines.Rpc
use jetpeer_cpp.Peer.Dispatch.{
  caught_failure, failure_response, answer, handle_message, handle_request, handle_method,
  handle_state, handle_notification,
}
use jetpeer_cpp.Peer.Dispatch.Replies.{answers, send_all, told, Fits, answer_lem}
use jetpeer_cpp.Peer.State.{World, MethodCb, Effect, pure, continue}

module _ ⦃P : Platform⦄ where
  open P use {null, set, member, kind, as_string, as_int}

  -- The response to a call, before it gets the id.
  abbrev pub method_reply : Outcome Value → Value
  method_reply (ok result) = set null Rpc.result result
  method_reply (raised e) = failure_response e

  method_outcome_lem :
      (o : Outcome Value) (w : World)
      → caught_failure (continue o (λ result. pure (set null Rpc.result result)) w)
        ≡ (ok (method_reply o), w)
  method_outcome_lem (ok result) w = refl
  method_outcome_lem (raised e) w = refl

  -- A call of the method `path`, where the peer has that method and no state of that name: the
  -- callback is called once with the parameters, and then, if the request has an id, one response
  -- with that id is sent, with the result, or with the error that the callback throws. Nothing else
  -- changes. The response must fit, and the socket take it.
  pub call_request_answered :
      (reliable : IsReliable) (msg node params id_node : Value) (path : String) (cb : MethodCb)
      (w : World)
      → member msg Rpc.method ≡ some node
      → kind node ≡ Kind.string_value
      → as_string node ≡ some path
      → find path w.state_callbacks ≡ none
      → find path w.method_callbacks ≡ some cb
      → member msg Rpc.params ≡ some params
      → member msg Rpc.id ≡ some id_node
      → Fits (answers id_node (method_reply (cb params)))
      → handle_message msg w ≡ (
        ok tt,
        send_all
            (answers id_node (method_reply (cb params)))
            (told (Effect.method_called path params ∷ []) w),
      )
  unfolding handle_message handle_request handle_method
  call_request_answered reliable msg node params id_node path cb w has_method is_string has_path
        no_state found has_params has_id fits =
      rw (has_method, is_string, has_path, no_state, found, has_params)
        (ap (λ p. continue p.0 (λ response. answer msg response) p.1)
            (method_outcome_lem (cb params) (told (Effect.method_called path params ∷ []) w))
          ∙ answer_lem reliable msg (method_reply (cb params)) id_node _ has_id fits)

  -- What a notification adds.
  abbrev pub notified : Option Fetcher → Value → List Effect
  notified none params = []
  notified (some fetcher) params = Effect.fetch_called fetcher.callback params (pos 0) ∷ []

  -- A message whose method is a number calls the callback of the fetch with that id once, with the
  -- parameters and status 0, and does nothing if there is no such fetch.
  pub fetch_notified :
      (msg node params : Value) (id : ℤ) (w : World)
      → member msg Rpc.method ≡ some node
      → kind node ≡ Kind.int_value
      → as_int node ≡ some id
      → member msg Rpc.params ≡ some params
      → handle_message msg w ≡ (ok tt, told (notified (find id w.fetchers) params) w)
  unfolding handle_message handle_notification
  fetch_notified msg node params id w has_method is_int has_id has_params =
      rw (has_method, is_int, has_id) (by_entry (find id w.fetchers))
    where
      by_entry :
          (o : Option Fetcher)
          → jetpeer_cpp.Peer.Dispatch.notify_fetcher msg o w ≡ (ok tt, told (notified o params) w)
      by_entry none = refl
      by_entry (some fetcher) = rw has_params

  -- A request for a path that the peer does not have changes nothing, and is not answered, whether
  -- or not it has an id.
  pub unknown_request_ignored :
      (msg node : Value) (path : String) (w : World)
      → member msg Rpc.method ≡ some node
      → kind node ≡ Kind.string_value
      → as_string node ≡ some path
      → find path w.state_callbacks ≡ none
      → find path w.method_callbacks ≡ none
      → handle_message msg w ≡ (ok tt, w)
  unfolding handle_message handle_request
  unknown_request_ignored msg node path w has_method is_string has_path no_state no_method =
      rw (has_method, is_string, has_path, no_state, no_method)
