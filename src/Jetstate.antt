-- ===== src/Jetstate.antt =====
-- tool/jetstate.cpp: a program that adds one state and serves it; `same` is the equality of
-- Json::Value.
pub mod Followers
use jetpeer_cpp.Base.{Bool, List, [], ◌∷◌, ◌++◌, String, some, if◌then◌else◌}
use jetpeer_cpp.Platform.{Platform, Value}
use jetpeer_cpp.Defines.{no_warning}
use jetpeer_cpp.Defines.Failure.{ok}
use jetpeer_cpp.Peer.State.{StateCb}

module _ ⦃P : Platform⦄ (same : Value → Value → Bool) where
  open P use {null}

  -- The lambda setCb, where the static variable `value` is `current`: what it returns, and what the
  -- variable then is. The value of a SetStateCbResult is null at first.
  abbrev pub set_cb : Value → StateCb
  set_cb current requested path =
      ok
        (record { value = if same current requested then null else requested; result = no_warning })

  abbrev pub stored : Value → Value → Value
  stored current requested = if same current requested then current else requested

  -- The requests to set the state, one after the other.
  unfoldable pub stored_after : Value → List Value → Value
  stored_after current [] = current
  stored_after current (requested ∷ rest) = stored_after (stored current requested) rest
