-- ===== src/Peer/Receive/Broken.antt =====
-- What an exception that escapes PeerAsync::handleMessage does to PeerAsync::receive.
use jetpeer_cpp.Base.{
  ℕ, ◌+◌, ◌-◌, none, some, List, ◌∷◌, ◌++◌, true, false, ◌≡◌, ◌∙◌, ap, arith, length, ltb,
}
use jetpeer_cpp.Platform.{Platform, Reply, Socket, Value, Kind}
use jetpeer_cpp.Defines.Failure.{Failure, Outcome, ok, raised}
use jetpeer_cpp.Defines.Rpc
use jetpeer_cpp.Peer.Request.{handle_result}
use jetpeer_cpp.Peer.Dispatch.{receive_callback, handle_message}
use jetpeer_cpp.Peer.Dispatch.Keeps.{receive_callback-SameReader}
use jetpeer_cpp.Peer.Receive.{Step, replied, add_data, process, receive_step, processed}
use jetpeer_cpp.Peer.State.{World, Effect, json_error}

module _ ⦃P : Platform⦄ where
  open P use {parse, member, kind, as_uint, receive as receive_some}

  -- A response whose id is not an unsigned number throws, and so does an element of a batch that is
  -- neither an object nor null. The state is left as it was.
  pub response_throws :
      (msg node id_node : Value) (w : World)
      → member msg Rpc.method ≡ some node
      → kind node ≡ Kind.null_value
      → member msg Rpc.id ≡ some id_node
      → as_uint id_node ≡ none
      → handle_message msg w ≡ (raised json_error, w)
  unfolding handle_message handle_result
  response_throws msg node id_node w has_method is_null_node has_id no_number =
      rw (has_method, is_null_node, has_id, no_number)

  element_throws :
      (msg : Value) (w : World)
      → member msg Rpc.method ≡ none
      → handle_message msg w ≡ (raised json_error, w)
  unfolding handle_message
  element_throws msg w no_access = rw no_access

  abbrev dispatching : Value → World → World
  dispatching v w = record w { data_size = w.data_size + 1; trace = Effect.dispatched v ∷ w.trace }

  processed-raised :
      (r : Outcome (Unit {0}) × World) (f : Failure)
      → r.0 ≡ raised f
      → processed r ≡ Step.thrown f r.1
  processed-raised (ok _, u) f e = absurd (cc e)
  processed-raised (raised g, u) f e = cc

  step_of_message :
      (w : World)
      → length w.length_buffer ≡ 4
      → length w.data_buffer ≡ w.data_size
      → receive_step w ≡ process w
  unfolding receive_step
  step_of_message w four full =
      let complete : ltb (length w.length_buffer) 4 ≡ false = ground arith in
      let whole : ltb (length w.data_buffer) w.data_size ≡ false = ground arith in
      rw (complete, whole)

  process-parsed :
      (w : World) (v : Value)
      → parse w.data_buffer ≡ some v
      → process w ≡ processed (receive_callback v (dispatching v w))
  unfolding process
  process-parsed w v parses = rw parses

  -- A buffer that lacks one byte asks the socket for one byte.
  step_of_rest :
      (u : World) (bytes : List ℕ) (s : Socket)
      → length u.length_buffer ≡ 4
      → u.data_size ≡ length u.data_buffer + 1
      → receive_some u.socket 1 ≡ (Reply.got bytes, s)
      → receive_step u ≡ add_data bytes (record u { socket = s })
  unfolding receive_step replied
  step_of_rest u bytes s four lacks e =
      let complete : ltb (length u.length_buffer) 4 ≡ false = ground arith in
      let more : ltb (length u.data_buffer) u.data_size ≡ true = ground arith in
      let one : u.data_size - length u.data_buffer ≡ 1 = omega arith in rw (complete, more, one, e)

  -- The reader holds a complete message that parses and whose handling throws. The exception leaves
  -- `receive`, and leaves the buffers as they are, with room for one more byte of data. If the
  -- socket then gives a byte, the next step takes it for a byte of the old message.
  pub exception_breaks_stream :
      (w : World) (v : Value) (f : Failure)
      → length w.length_buffer ≡ 4
      → length w.data_buffer ≡ w.data_size
      → parse w.data_buffer ≡ some v
      → (receive_callback v (dispatching v w)).0 ≡ raised f
      → let u = (receive_callback v (dispatching v w)).1 in
        (receive_step w ≡ Step.thrown f u)
        × ((bytes : List ℕ) (s : Socket)
            → receive_some u.socket 1 ≡ (Reply.got bytes, s)
            → receive_step u
              ≡ Step.again (record u { socket = s; data_buffer = w.data_buffer ++ bytes }))
  exception_breaks_stream w v f four full parses throws =
      let u = (receive_callback v (dispatching v w)).1 in
      let same = receive_callback-SameReader v (dispatching v w) in
      (
        step_of_message w four full
            ∙ process-parsed w v parses
            ∙ processed-raised (receive_callback v (dispatching v w)) f throws,
        λ bytes s e.
            step_of_rest u bytes s (ap length same.same_length_buffer ∙ four)
              (omega (arith, same.same_data_size, full, ap length same.same_data_buffer)) e
            ∙ ap (λ old. Step.again (record u { socket = s; data_buffer = old ++ bytes }))
                same.same_data_buffer,
      )
