-- ===== src/Simulation.antt =====
-- The simulated library, lib_simulation/peerasync.cpp: a PeerAsync without a daemon, that answers each
-- request at once. It keeps nothing but the last fetch id, m_sfetchId.
pub mod Peer
pub mod Steps
pub mod StandIn
use jetpeer_cpp.Base.{ℕ, ℤ, pos, Bool, String, Option, none, some, List, [], ◌∷◌, next_int32}
use jetpeer_cpp.Platform.{Platform, Value, Double}
use jetpeer_cpp.Defines.{Matcher}
use jetpeer_cpp.Defines.Rpc
use jetpeer_cpp.Peer.State.{MethodCb, StateCb}
use jetpeer_cpp.Peer.Methods.{UserCb}

module _ ⦃P : Platform⦄ where
  open P use {null, set, of_int}

  pub record Simulated : Type 0 where
    pub sfetch_id : ℤ
    -- the response callbacks that were called, newest first, and with what
    pub answers : List (ℕ × Value)

  -- {"result": 1}
  abbrev pub success : Value
  success = set null Rpc.result (of_int (pos 1))

  -- sendResult
  unfoldable pub send_result : UserCb → Simulated → Simulated
  send_result none s = s
  send_result (some u) s = record s { answers = (u, success) ∷ s.answers }

  abbrev pub config_async : String → Bool → UserCb → Simulated → Simulated
  config_async name debug cb = send_result cb

  abbrev pub call_method_async : String → Value → UserCb → Simulated → Simulated
  call_method_async path args cb = send_result cb

  -- both overloads
  abbrev pub add_method_async : String → Option Double → UserCb → MethodCb → Simulated → Simulated
  add_method_async path timeout_s cb callback = send_result cb

  abbrev pub remove_method_async : String → UserCb → Simulated → Simulated
  remove_method_async path cb = send_result cb

  -- both overloads
  abbrev pub add_state_async :
      String → Value → Option Double → UserCb → Option StateCb → Simulated → Simulated
  add_state_async path value timeout_s cb callback = send_result cb

  abbrev pub remove_state_async : String → UserCb → Simulated → Simulated
  remove_state_async path cb = send_result cb

  abbrev pub set_state_value_async : String → Value → UserCb → Simulated → Simulated
  set_state_value_async path value cb = send_result cb

  abbrev pub get_async : Matcher → UserCb → Simulated → Simulated
  get_async match cb = send_result cb

  abbrev pub restore_fetch : Matcher → ℤ → Simulated → Simulated
  restore_fetch match id s = s

  abbrev pub remove_fetch_async : ℤ → UserCb → Simulated → Simulated
  remove_fetch_async id cb = send_result cb

  abbrev pub create_fetch_id : Simulated → ℤ × Simulated
  create_fetch_id s = let id = next_int32 s.sfetch_id in (id, record s { sfetch_id = id })

  abbrev pub add_fetch_async : Matcher → Option ℕ → UserCb → Simulated → ℤ × Simulated
  add_fetch_async match callback cb s = create_fetch_id (send_result cb s)

  -- The calls of the methods above.
  pub data Call : Type 0 where
    config : String → Bool → UserCb → Call
    call_method : String → Value → UserCb → Call
    add_method : String → Option Double → UserCb → MethodCb → Call
    remove_method : String → UserCb → Call
    add_state : String → Value → Option Double → UserCb → Option StateCb → Call
    remove_state : String → UserCb → Call
    set_state_value : String → Value → UserCb → Call
    get : Matcher → UserCb → Call
    add_fetch : Matcher → Option ℕ → UserCb → Call
    restore : Matcher → ℤ → Call
    remove_fetch : ℤ → UserCb → Call

  -- What a call returns: addFetchAsync returns the id, and all others return nothing. What else is seen
  -- of a call are the response callbacks, in `answers`.
  unfoldable pub perform : Call → Simulated → Option ℤ × Simulated
  perform (Call.config name debug cb) s = (none, config_async name debug cb s)
  perform (Call.call_method path args cb) s = (none, call_method_async path args cb s)
  perform (Call.add_method path t cb callback) s = (none, add_method_async path t cb callback s)
  perform (Call.remove_method path cb) s = (none, remove_method_async path cb s)
  perform (Call.add_state path v t cb callback) s = (none, add_state_async path v t cb callback s)
  perform (Call.remove_state path cb) s = (none, remove_state_async path cb s)
  perform (Call.set_state_value path v cb) s = (none, set_state_value_async path v cb s)
  perform (Call.get match cb) s = (none, get_async match cb s)
  perform (Call.add_fetch match callback cb) s =
      let (id, s') = add_fetch_async match callback cb s in (some id, s')
  perform (Call.restore match id) s = (none, restore_fetch match id s)
  perform (Call.remove_fetch id cb) s = (none, remove_fetch_async id cb s)

  unfoldable pub perform_all : List Call → Simulated → List (Option ℤ) × Simulated
  unfolding perform
  perform_all [] s = ([], s)
  perform_all (c ∷ rest) s =
      let (r, s1) = perform c s in let (rs, s2) = perform_all rest s1 in (r ∷ rs, s2)
