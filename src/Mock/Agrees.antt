-- ===== src/Mock/Agrees.antt =====
-- PeerAsyncMock against PeerAsync: what the one that sets a state gets.
use jetpeer_cpp.Base.{
  ℕ, String, Option, some, [], ◌∷◌, false, ◌∙◌, ◌≡◌, refl, arith, string_eq, int_eq,
}
use jetpeer_cpp.Base.Table.{find, put, find-put_self}
use jetpeer_cpp.Platform.{Platform, Value, Kind, is_null}
use jetpeer_cpp.Platform.Laws.{IsReliable}
use jetpeer_cpp.Defines.{SetStateCbResult, SetStateResult}
use jetpeer_cpp.Defines.Failure.{Failure, ok, raised}
use jetpeer_cpp.Defines.Key
use jetpeer_cpp.Defines.Rpc
use jetpeer_cpp.Peer.Dispatch.{state_result, handle_message}
use jetpeer_cpp.Peer.Dispatch.Replies.{
  changes, state_changes, state_calls, state_reply, answers, send_all, told, Fits,
  set_request_answered,
}
use jetpeer_cpp.Peer.Send.Results.{after_send}
use jetpeer_cpp.Peer.State.{World, StateCb, Effect}
use jetpeer_cpp.Mock.{Mock, MockedState, set_state_mock, set_response, state_called}

module _ ⦃P : Platform⦄ where
  open P use {set, null, member, kind, as_string}

  set_response-state_result : (r : SetStateResult) → set_response r ≡ state_result r
  unfolding set_response state_result
  set_response-state_result r = ground arith

  module _ (path : String) (value : Value) (m : Mock) (s : MockedState) (cb : StateCb)
      (found : find path m.states ≡ some s) (has_callback : s.state_callback ≡ some cb) where
    abbrev calling : Mock
    calling = record m { states = put path s m.states }

    set_state_mock_lem :
        (c : Option ℕ)
        → set_state_mock path value c m ≡ state_called c path value s (cb value path) calling
    unfolding set_state_mock
    set_state_mock_lem c = rw (found, has_callback)

    -- Setting a state of the mock whose callback returns a result: the result callback is called once
    -- with a response, and the state holds the value that was asked for, whatever value the callback
    -- reports. A PeerAsync that owns a state with this path and callback, and handles a request with
    -- an id to set it to the same value, sends that same response with the id, behind the change that
    -- the callback reports. The value is not null, the messages fit, and the socket takes them.
    pub mock_answers_as_peer :
        (u : ℕ) (r : SetStateCbResult) (reliable : IsReliable) (msg node params id_node : Value)
        (w : World)
        → cb value path ≡ ok r
        → member msg Rpc.method ≡ some node
        → kind node ≡ Kind.string_value
        → as_string node ≡ some path
        → find path w.state_callbacks ≡ some (some cb)
        → member msg Rpc.params ≡ some params
        → member params Key.value ≡ some value
        → is_null value ≡ false
        → member msg Rpc.id ≡ some id_node
        → is_null id_node ≡ false
        → Fits (changes path (ok r))
        → Fits (set (state_result r.result) Rpc.id id_node ∷ [])
        → let m' = (set_state_mock path value (some u) m).1 in
          (response : Value) × ((set_state_mock path value (some u) m).0 ≡ ok tt)
          × (m'.results ≡ (u, response) ∷ m.results)
          × (find path m'.states ≡ some (record s { value = value }))
          × (handle_message msg w ≡ (
            ok tt,
            after_send
                (set response Rpc.id id_node)
                (send_all (changes path (ok r)) (told (Effect.state_called path value ∷ []) w)),
          ))
    mock_answers_as_peer u r reliable msg node params id_node w returns has_method is_string
          has_path entered has_params has_value present has_id asks fits_changes fits_answer =
        let sent : handle_message msg w ≡ (
          ok tt,
          send_all (answers id_node (state_reply (some cb) path value)) (
              send_all (state_changes (some cb) path value)
                (told (state_calls (some cb) path value) w)),
        ) =
          set_request_answered reliable msg node params value id_node path (some cb) w has_method
            is_string has_path entered has_params has_value present has_id (rw returns fits_changes)
            (rw (asks, returns) fits_answer) in
        (
          set_response r.result,
          rw (set_state_mock_lem (some u), returns) refl,
          rw (set_state_mock_lem (some u), returns) refl,
          rw (set_state_mock_lem (some u), returns)
              (find-put_self path (record s { value = value }) calling.states),
          rw set_response-state_result (sent ∙ rw (asks, returns) refl),
        )

    -- Where the callback of a state of the mock throws, the one that sets the state gets the
    -- exception itself, no result callback is called, and the state is as before.
    pub mock_throws :
        (e : Failure) (c : Option ℕ)
        → cb value path ≡ raised e
        → let (r, m') = set_state_mock path value c m in
          (r ≡ raised e) × (m'.results ≡ m.results) × (find path m'.states ≡ some s)
    mock_throws e c throws =
        rw (set_state_mock_lem c, throws) (refl, refl, find-put_self path s m.states)
