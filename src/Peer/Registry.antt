-- ===== src/Peer/Registry.antt =====
-- The tables of callbacks of PeerAsync, and the methods that only enter or remove what is in them.
use jetpeer_cpp.Base.{ℤ, String, Option, next_int32, int_eq, string_eq}
use jetpeer_cpp.Base.Table.{put, erase}
use jetpeer_cpp.Platform.{Platform}
use jetpeer_cpp.Defines.{Fetcher}
use jetpeer_cpp.Defines.Failure.{ok}
use jetpeer_cpp.Peer.State.{M, StateCb, MethodCb, modify}

module _ ⦃P : Platform⦄ where
  unfoldable pub register_fetch : ℤ → Fetcher → M (Unit {0})
  register_fetch id fetcher = modify (λ w. record w { fetchers = put id fetcher w.fetchers })

  unfoldable pub register_method : String → MethodCb → M (Unit {0})
  register_method path cb =
      modify (λ w. record w { method_callbacks = put path cb w.method_callbacks })

  unfoldable pub register_state : String → Option StateCb → M (Unit {0})
  register_state path cb =
      modify (λ w. record w { state_callbacks = put path cb w.state_callbacks })

  unfoldable pub unregister_fetch : ℤ → M (Unit {0})
  unregister_fetch id = modify (λ w. record w { fetchers = erase id w.fetchers })

  unfoldable pub unregister_method : String → M (Unit {0})
  unregister_method path =
      modify (λ w. record w { method_callbacks = erase path w.method_callbacks })

  unfoldable pub unregister_state : String → M (Unit {0})
  unregister_state path = modify (λ w. record w { state_callbacks = erase path w.state_callbacks })

  unfoldable pub create_fetch_id : M ℤ
  create_fetch_id w = let id = next_int32 w.sfetch_id in (ok id, record w { sfetch_id = id })
