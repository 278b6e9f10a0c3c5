-- ===== src/Mock.antt =====
-- PeerAsyncMock (include/jet/peerasyncmock.hpp), which calls the callbacks of states and methods
-- directly, for tests without a daemon.
pub mod Agrees
use jetpeer_cpp.Base.{
  ℕ, ℤ, String, Option, none, some, List, ◌∷◌, if◌then◌else◌, ◌==◌, str_empty, next_uint32, int_eq,
  string_eq,
}
use jetpeer_cpp.Base.Table.{Table, find, put, erase}
use jetpeer_cpp.Platform.{Platform, Value, set_in}
use jetpeer_cpp.Defines.{SetStateResult, SetStateCbResult, warn_none}
use jetpeer_cpp.Defines.Failure.{Failure, Outcome, ok, raised}
use jetpeer_cpp.Defines.Key
use jetpeer_cpp.Defines.Rpc
use jetpeer_cpp.Peer.State.{StateCb, MethodCb}

module _ ⦃P : Platform⦄ where
  open P use {null, set, of_uint, of_int, of_string, empty_object}

  -- MockedState; an empty callback is `none`.
  pub record MockedState : Type 0 where
    pub state_callback : Option StateCb
    pub value : Value

  pub record Mock : Type 0 where
    pub states : Table String MockedState
    pub methods : Table String (Option MethodCb)
    -- static
    pub id : ℕ
    -- the calls of result callbacks, newest first
    pub results : List (ℕ × Value)

  -- resultCallback(v), if there is one
  abbrev pub report : Option ℕ → Value → Mock → Mock
  report none v m = m
  report (some u) v m = record m { results = (u, v) ∷ m.results }

  -- The response to an `add`; the counter advances only where it is asked for.
  abbrev pub report_added : Option ℕ → Mock → Mock
  report_added none m = m
  report_added (some u) m =
      let id = next_uint32 m.id in
      report (some u) (set (set null Rpc.id (of_uint id)) Rpc.result empty_object)
        (record m { id = id })

  unfoldable pub add_state_mock : String → Value → Option ℕ → Option StateCb → Mock → Mock
  add_state_mock path value cb callback m = report_added cb (record m {
    states = put path (record { state_callback = callback; value = value }) m.states;
  })

  -- addMethodAsync, both overloads
  unfoldable pub add_method_mock : String → Option ℕ → Option MethodCb → Mock → Mock
  add_method_mock path cb callback m =
      report_added cb (record m { methods = put path callback m.methods })

  unfoldable pub remove_state_mock : String → Mock → Mock
  remove_state_mock path m = record m { states = erase path m.states }

  unfoldable pub remove_method_mock : String → Mock → Mock
  remove_method_mock path m = record m { methods = erase path m.methods }

  abbrev pub bad_call : Failure
  bad_call = Failure.std_exception "bad_function_call"

  -- The response to a set: no id.
  unfoldable pub set_response : SetStateResult → Value
  set_response result =
      if result.code == warn_none
      then set null Rpc.result empty_object
      else let r1 =
          set null Rpc.result (set null Key.warning (set null Rpc.code (of_int result.code))) in
        if str_empty result.message
        then r1
        else set null Rpc.result (
            set null Key.warning
              (set (set null Rpc.code (of_int result.code)) Rpc.message (of_string result.message)))

  -- m_states[path], which makes an entry for an unknown path.
  abbrev pub state_at : Option MockedState → MockedState
  state_at none = record { state_callback = none; value = null }
  state_at (some s) = s

  abbrev pub call_state : Option StateCb → Value → String → Outcome SetStateCbResult
  call_state none value path = raised bad_call
  call_state (some callback) value path = callback value path

  -- The value is stored, and the response reported, only where a result callback is given.
  abbrev pub state_called :
      Option ℕ
      → String
      → Value
      → MockedState
      → Outcome SetStateCbResult
      → Mock
      → Outcome (Unit {0}) × Mock
  state_called cb path value s (raised e) m = (raised e, m)
  state_called none path value s (ok r) m = (ok tt, m)
  state_called (some u) path value s (ok r) m = (
    ok tt,
    report (some u) (set_response r.result)
        (record m { states = put path (record s { value = value }) m.states }),
  )

  -- setStateValueAsync, both overloads
  unfoldable pub set_state_mock : String → Value → Option ℕ → Mock → Outcome (Unit {0}) × Mock
  set_state_mock path value cb m =
      let s = state_at (find path m.states) in
      state_called cb path value s (call_state s.state_callback value path)
        (record m { states = put path s m.states })

  abbrev pub method_at : Option (Option MethodCb) → Option MethodCb
  method_at none = none
  method_at (some callback) = callback

  abbrev pub call_callback : Option MethodCb → Value → Outcome Value
  call_callback none args = raised bad_call
  call_callback (some callback) args = callback args

  abbrev pub method_called : Option ℕ → Outcome Value → Mock → Outcome (Unit {0}) × Mock
  method_called cb (raised e) m = (raised e, m)
  method_called cb (ok result) m = (ok tt, report cb (set null Rpc.result result) m)

  -- callMethodAsync, both overloads
  unfoldable pub call_method_mock : String → Value → Option ℕ → Mock → Outcome (Unit {0}) × Mock
  call_method_mock path args cb m =
      let callback = method_at (find path m.methods) in
      method_called cb (call_callback callback args)
        (record m { methods = put path callback m.methods })
