-- ===== src/Peer/Receive/Progress.antt =====
-- PeerAsync::receive returns: each turn of its loops reads from the socket or ends a message.
use jetpeer_cpp.Base.{
  ℕ, zero, suc, ◌+◌, ◌-◌, ◌<◌, ◌≤◌, ℤ, Option, none, some, List, ◌∷◌, ◌++◌, ◌≡◌, ap, refl, arith,
  length, length-append, ltb, if◌then◌else◌, if-cases, ◌==◌, nat_eq,
}
use jetpeer_cpp.Platform.{Platform, Reply, Socket, Value}
use jetpeer_cpp.Platform.Laws.{SocketLaws}
use jetpeer_cpp.Defines.{max_message_size}
use jetpeer_cpp.Defines.Failure.{Outcome, ok, raised}
use jetpeer_cpp.Peer.Frame.{of_big_endian}
use jetpeer_cpp.Peer.Dispatch.Keeps.{pending-receive_callback}
use jetpeer_cpp.Peer.Receive.{
  Step, replied, add_length, add_data, process, receive_step, receive, next, dispatch, processed,
}
use jetpeer_cpp.Peer.State.{World, Effect}

module _ ⦃P : Platform⦄ (laws : SocketLaws) where
  open P use {parse, receive as receive_some}
  open laws use {pending, receive-got}

  -- The message in the buffers is complete.
  abbrev pub is_complete : World → ℕ
  is_complete w =
      if ltb (length w.length_buffer) 4
      then 0
      else if ltb (length w.data_buffer) w.data_size
      then 0
      else 1

  -- Falls in each turn of the loops.
  abbrev pub remaining : World → ℕ
  remaining w = length (pending w.socket) + length (pending w.socket) + is_complete w

  -- A turn that goes on has less left to do.
  abbrev pub Shrinks : ℕ → Step → Type 0
  Shrinks n (Step.again u) = remaining u < n
  Shrinks n (Step.returned r u) = Unit
  Shrinks n (Step.thrown e u) = Unit

  pub is_complete-le : (w : World) → is_complete w ≤ 1
  is_complete-le w = ground arith

  got_shorter :
      (s t : Socket) (n : ℕ) (bytes : List ℕ)
      → 0 < n
      → receive_some s n ≡ (Reply.got bytes, t)
      → length (pending t) < length (pending s)
  got_shorter s t n bytes pos e =
      let (some_bytes, _, split) = receive-got s t n bytes pos e in
      omega (arith, ap length split, length-append bytes (pending t))

  add_length-Shrinks :
      (bytes : List ℕ) (w : World) (n : ℕ)
      → length (pending w.socket) + length (pending w.socket) + 1 < n
      → Shrinks n (add_length bytes w)
  add_length-Shrinks bytes w n h =
      if-cases (Shrinks n) (length (w.length_buffer ++ bytes) == 4)
        (λ _.
          if-cases (Shrinks n) (ltb max_message_size (of_big_endian (w.length_buffer ++ bytes)))
            (λ _. tt) (λ _. ground arith))
        (λ _. ground arith)

  add_data-Shrinks :
      (bytes : List ℕ) (w : World) (n : ℕ)
      → length (pending w.socket) + length (pending w.socket) + 1 < n
      → Shrinks n (add_data bytes w)
  add_data-Shrinks bytes w n h = ground arith

  replied-Shrinks :
      (add : List ℕ → World → Step) (w : World) (n m : ℕ) (reply : Reply × Socket)
      → 0 < m
      → receive_some w.socket m ≡ reply
      → length (pending w.socket) + length (pending w.socket) ≤ n
      → ((bytes : List ℕ) (u : World)
          → length (pending u.socket) + length (pending u.socket) + 1 < n
          → Shrinks n (add bytes u))
      → Shrinks n (replied add reply w)
  unfolding replied
  replied-Shrinks add w n m (Reply.got bytes, s) pos e h k =
      k bytes (record w { socket = s }) (omega (arith, got_shorter w.socket s m bytes pos e))
  replied-Shrinks add w n m (Reply.would_block, s) pos e h k = tt
  replied-Shrinks add w n m (Reply.closed, s) pos e h k = tt
  replied-Shrinks add w n m (Reply.failed, s) pos e h k = tt

  pub pending-dispatch :
      (o : Option Value) (w : World) → pending (dispatch o w).1.socket ≡ pending w.socket
  pending-dispatch none w = refl
  pending-dispatch (some v) w =
      pending-receive_callback laws v (record w { trace = Effect.dispatched v ∷ w.trace })

  processed-Shrinks :
      (r : Outcome (Unit {0}) × World) (n : ℕ)
      → length (pending r.1.socket) + length (pending r.1.socket) < n
      → Shrinks n (processed r)
  processed-Shrinks (ok _, u) n h = omega arith
  processed-Shrinks (raised e, u) n h = tt

  process-Shrinks :
      (w : World) (n : ℕ)
      → length (pending w.socket) + length (pending w.socket) < n
      → Shrinks n (process w)
  unfolding process
  process-Shrinks w n h =
      processed-Shrinks (dispatch (parse w.data_buffer) (record w { data_size = w.data_size + 1 }))
        n
        (omega (
          arith,
          ap length
              (pending-dispatch (parse w.data_buffer) (record w { data_size = w.data_size + 1 })),
        ))

  pub receive_step-Shrinks : (w : World) → Shrinks (remaining w) (receive_step w)
  unfolding receive_step
  receive_step-Shrinks w =
      if-cases (Shrinks (remaining w)) (ltb (length w.length_buffer) 4)
        (λ short.
          replied-Shrinks add_length w (remaining w) (4 - length w.length_buffer)
            (receive_some w.socket (4 - length w.length_buffer)) (ground arith) refl (omega arith)
            (λ bytes u. add_length-Shrinks bytes u (remaining w)))
        (λ long.
          if-cases (Shrinks (remaining w)) (ltb (length w.data_buffer) w.data_size)
            (λ open_end.
              replied-Shrinks add_data w (remaining w) (w.data_size - length w.data_buffer)
                (receive_some w.socket (w.data_size - length w.data_buffer)) (ground arith) refl
                (omega arith) (λ bytes u. add_data-Shrinks bytes u (remaining w)))
            (λ complete. process-Shrinks w (remaining w) (ground arith)))

  next-total :
      (fuel : ℕ) (s : Step) (n : ℕ)
      → ((u : World) → remaining u < fuel → (r : Outcome ℤ × World) × (receive fuel u ≡ some r))
      → Shrinks n s
      → n ≤ fuel
      → (r : Outcome ℤ × World) × (next (receive fuel) s ≡ some r)
  next-total fuel (Step.again u) n ih h le = ih u (omega arith)
  next-total fuel (Step.returned r u) n ih h le = ((ok r, u), refl)
  next-total fuel (Step.thrown e u) n ih h le = ((raised e, u), refl)

  -- Whatever a socket that keeps its laws delivers, and however it ends, `receive` returns or
  -- throws: fuel above twice the number of bytes that are there, plus one, is enough, and plus two
  -- if a complete message is held.
  pub receive_total :
      (fuel : ℕ) (w : World)
      → remaining w < fuel
      → (r : Outcome ℤ × World) × (receive fuel w ≡ some r)
  unfolding receive
  receive_total zero w h = absurd (omega arith)
  receive_total (suc fuel) w h =
      next-total fuel (receive_step w) (remaining w) (receive_total fuel) (receive_step-Shrinks w)
        (omega arith)
