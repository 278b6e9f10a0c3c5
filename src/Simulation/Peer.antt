-- ===== src/Simulation/Peer.antt =====
-- lib_simulation/peer.cpp: the synchronous peer of the simulated library. Its addFetch counts ids of
-- its own, in a static variable of the file.
use jetpeer_cpp.Base.{ℕ, ℤ, pos, Bool, true, String, Option, none, next_uint32}
use jetpeer_cpp.Platform.{Platform, Value, Double}
use jetpeer_cpp.Defines.{Matcher}
use jetpeer_cpp.Peer.Methods.{UserCb}
use jetpeer_cpp.Peer.State.{MethodCb, StateCb}
use jetpeer_cpp.Simulation.{Simulated}
use jetpeer_cpp.Simulation as Async

module _ ⦃P : Platform⦄ where
  open P use {null, of_int}

  pub record SimulatedPeer : Type 0 where
    pub fetch_id : ℕ
    pub peer_async : Simulated

  abbrev pub info : SimulatedPeer → Value
  info p = null

  abbrev pub resume : SimulatedPeer → Bool
  resume p = true

  -- An assignment gives the value that was assigned.
  abbrev pub config : String → Bool → SimulatedPeer → Value
  config name debug p = of_int (pos 0)

  -- both overloads
  abbrev pub call_method : String → Value → Option Double → SimulatedPeer → Value
  call_method path args timeout_s p = of_int (pos 0)

  abbrev pub add_method : String → MethodCb → SimulatedPeer → SimulatedPeer
  add_method path callback p = p

  abbrev pub add_state : String → Value → Option StateCb → SimulatedPeer → SimulatedPeer
  add_state path value callback p = p

  abbrev pub add_state_async :
      String → Value → UserCb → Option StateCb → SimulatedPeer → SimulatedPeer
  add_state_async path value cb callback p = record p {
    peer_async = Async.add_state_async path value none cb callback p.peer_async;
  }

  abbrev pub remove_fetch_async : ℤ → UserCb → SimulatedPeer → SimulatedPeer
  remove_fetch_async id cb p = record p { peer_async = Async.remove_fetch_async id cb p.peer_async }

  abbrev pub remove_method_async : String → UserCb → SimulatedPeer → SimulatedPeer
  remove_method_async path cb p = record p {
    peer_async = Async.remove_method_async path cb p.peer_async;
  }

  abbrev pub remove_state_async : String → UserCb → SimulatedPeer → SimulatedPeer
  remove_state_async path cb p = record p {
    peer_async = Async.remove_state_async path cb p.peer_async;
  }

  abbrev pub add_fetch : Matcher → Option ℕ → SimulatedPeer → ℕ × SimulatedPeer
  add_fetch match callback p = let id = next_uint32 p.fetch_id in (id, record p { fetch_id = id })

  abbrev pub set_state_value_async : String → Value → UserCb → SimulatedPeer → SimulatedPeer
  set_state_value_async path value cb p = record p {
    peer_async = Async.set_state_value_async path value cb p.peer_async;
  }
