-- ===== src/Peer/Runs.antt =====
-- The life of a peer as a sequence of events: requests are executed, messages arrive, notifiers fire,
-- and the connection ends.
pub mod Counting
pub mod Balance
pub mod Steps
pub mod Answers
pub mod Written
pub mod Cuts
pub mod Frames
use jetpeer_cpp.Base.{
  ℕ, ℤ, String, Option, none, some, List, [], ◌∷◌, ◌+◌, if◌then◌else◌, ◌==◌, nat_eq,
}
use jetpeer_cpp.Platform.{Platform, Value}
use jetpeer_cpp.Peer.Dispatch.{receive_callback}
use jetpeer_cpp.Peer.Lifecycle.{stop}
use jetpeer_cpp.Peer.Request.{execute, execute_no_response, handle_result}
use jetpeer_cpp.Peer.State.{World, ResponseCb}

module _ ⦃P : Platform⦄ where
  pub data Event : Type 0 where
    -- execute(peer, callback)
    executes : Value → Option ResponseCb → Event
    -- execute(peer)
    announces : Value → Event
    -- receiveCallback
    receives : Value → Event
    -- handleResult, also from the notifier of a request that could not be sent
    reports : Value → Event
    stops : Event

  abbrev pub step : Event → World → World
  step (executes doc cb) w = (execute doc cb w).1
  step (announces doc) w = (execute_no_response doc w).1
  step (receives v) w = (receive_callback v w).1
  step (reports v) w = (handle_result v w).1
  step stops w = stop w

  unfoldable pub run : List Event → World → World
  run [] w = w
  run (e ∷ rest) w = run rest (step e w)

  -- The number by which the user knows a response callback.
  abbrev pub user_of : Option ResponseCb → Option ℕ
  user_of (some (ResponseCb.user u)) = some u
  user_of (some (ResponseCb.method_added path u)) = some u
  user_of (some (ResponseCb.state_added path u)) = some u
  user_of (some (ResponseCb.fetch_added id u)) = some u
  user_of (some (ResponseCb.fulfils p)) = none
  user_of none = none

  abbrev pub one_if : ℕ → Option ℕ → ℕ
  one_if u none = 0
  one_if u (some v) = if v == u then 1 else 0

  -- How many requests these events execute with the callback u.
  abbrev pub asked : ℕ → List Event → ℕ
  asked u [] = 0
  asked u (executes doc cb ∷ rest) = one_if u (user_of cb) + asked u rest
  asked u (e ∷ rest) = asked u rest

  -- How many requests they execute at all with an id.
  abbrev pub opened_by : List Event → ℕ
  opened_by [] = 0
  opened_by (executes doc (some cb) ∷ rest) = 1 + opened_by rest
  opened_by (e ∷ rest) = opened_by rest
