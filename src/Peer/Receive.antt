-- ===== src/Peer/Receive.antt =====
-- PeerAsync::receive. The two inner loops and the work on a complete message are told apart by the
-- levels of the buffers, so a step of `receive` is one call of the socket or one message.
pub mod Progress
pub mod Stream
pub mod Framing
pub mod Session
pub mod Bounds
pub mod Broken
use jetpeer_cpp.Base.{
  ℕ, zero, suc, ◌+◌, ◌-◌, ℤ, pos, Option, none, some, List, [], ◌++◌, length, ltb, if◌then◌else◌,
  ◌==◌, nat_eq, minus_one,
}
use jetpeer_cpp.Platform.{Platform, Reply, Socket, Value}
use jetpeer_cpp.Defines.{max_message_size}
use jetpeer_cpp.Defines.Failure.{Failure, Outcome, ok, raised}
use jetpeer_cpp.Peer.Dispatch.{receive_callback}
use jetpeer_cpp.Peer.Frame.{of_big_endian}
use jetpeer_cpp.Peer.Lifecycle.{stop}
use jetpeer_cpp.Peer.State.{World, Effect, M, emit, pure, ◌>>◌}

module _ ⦃P : Platform⦄ where
  open P use {parse, receive as receive_some}

  pub data Step : Type 0 where
    again : World → Step
    returned : ℤ → World → Step
    thrown : Failure → World → Step

  -- The length is complete: it is checked, and the data buffer gets that size.
  abbrev take_length : World → Step
  take_length w =
      let len = of_big_endian w.length_buffer in
      if ltb max_message_size len
      then Step.returned minus_one (stop w)
      else Step.again (record w { data_size = len })

  abbrev add_length : List ℕ → World → Step
  add_length bytes w =
      let w' = record w { length_buffer = w.length_buffer ++ bytes } in
      if length w'.length_buffer == 4 then take_length w' else Step.again w'

  abbrev add_data : List ℕ → World → Step
  add_data bytes w = Step.again (record w { data_buffer = w.data_buffer ++ bytes })

  -- What both loops do with the result of the socket.
  unfoldable pub replied : (List ℕ → World → Step) → Reply × Socket → World → Step
  replied add (Reply.got bytes, s) w = add bytes (record w { socket = s })
  replied add (Reply.would_block, s) w = Step.returned (pos 0) (record w { socket = s })
  replied add (Reply.closed, s) w = Step.returned (pos 0) (stop (record w { socket = s }))
  replied add (Reply.failed, s) w = Step.returned minus_one (stop (record w { socket = s }))

  abbrev reset_buffers : World → World
  reset_buffers w = record w { data_size = 0; data_buffer = []; length_buffer = [] }

  abbrev processed : Outcome (Unit {0}) × World → Step
  processed (ok _, w) = Step.again (reset_buffers w)
  processed (raised e, w) = Step.thrown e w

  abbrev dispatch : Option Value → M (Unit {0})
  dispatch none = pure tt
  dispatch (some v) = do emit (Effect.dispatched v); receive_callback v

  -- The terminating zero is added, and the text before it is parsed.
  unfoldable pub process : World → Step
  process w = processed (dispatch (parse w.data_buffer) (record w { data_size = w.data_size + 1 }))

  unfoldable pub receive_step : World → Step
  unfolding replied process
  receive_step w =
      if ltb (length w.length_buffer) 4
      then replied add_length (receive_some w.socket (4 - length w.length_buffer)) w
      else if ltb (length w.data_buffer) w.data_size
      then replied add_data (receive_some w.socket (w.data_size - length w.data_buffer)) w
      else process w

  abbrev next : (World → Option (Outcome ℤ × World)) → Step → Option (Outcome ℤ × World)
  next rest (Step.again w) = rest w
  next rest (Step.returned r w) = some (ok r, w)
  next rest (Step.thrown e w) = some (raised e, w)

  -- `none` means that the fuel ran out.
  unfoldable pub receive : ℕ → World → Option (Outcome ℤ × World)
  receive zero w = none
  receive (suc fuel) w = next (receive fuel) (receive_step w)
