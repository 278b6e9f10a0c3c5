-- ===== src/Peer/Sync/Forwards.antt =====
-- The methods of Peer that call the same method of m_peerAsync (lib/peer.cpp,
-- include/jet/peer.hpp).
use jetpeer_cpp.Base.{ℤ, String, Option, List, Bool}
use jetpeer_cpp.Platform.{Platform, Value, Double}
use jetpeer_cpp.Peer.Lifecycle as Lifecycle
use jetpeer_cpp.Peer.Methods as Async
use jetpeer_cpp.Peer.Methods.{UserCb}
use jetpeer_cpp.Peer.Send as Send
use jetpeer_cpp.Peer.State.{M, MethodCb, StateCb}

module _ ⦃P : Platform⦄ where
  abbrev pub resume : M Bool
  resume = Lifecycle.resume

  abbrev pub add_method_async :
      String → List String → List String → MethodCb → Double → UserCb → M (Unit {0})
  add_method_async path fetch_groups call_groups callback timeout_s cb =
      Async.add_method_with_groups path fetch_groups call_groups callback timeout_s cb

  -- without and with a timeout
  abbrev pub add_state_async :
      String → Value → Option Double → UserCb → Option StateCb → M (Unit {0})
  add_state_async path value timeout_s cb callback =
      Async.add_state_async path value timeout_s cb callback

  -- with user groups; the value stands elsewhere than in PeerAsync
  abbrev pub add_state_with_groups :
      String → Value → List String → List String → Double → UserCb → Option StateCb → M (Unit {0})
  add_state_with_groups path value fetch_groups set_groups timeout_s cb callback =
      Async.add_state_with_groups path fetch_groups set_groups value timeout_s cb callback

  abbrev pub remove_fetch_async : ℤ → UserCb → M (Unit {0})
  remove_fetch_async id cb = Async.remove_fetch_async id cb

  abbrev pub remove_method_async : String → UserCb → M (Unit {0})
  remove_method_async path cb = Async.remove_method_async path cb

  abbrev pub remove_state_async : String → UserCb → M (Unit {0})
  remove_state_async path cb = Async.remove_state_async path cb

  abbrev pub notify_state : String → Value → M ℤ
  notify_state path value = Send.notify_state path value
