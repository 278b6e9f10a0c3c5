-- ===== src/Tools/Speed/Notifies.antt =====
-- tool/measureSpeed.cpp: the values that measureSetNotify notifies, from the socket of one peer to the
-- reader of another one.
use jetpeer_cpp.Base.{
  ℕ, zero, suc, map, ◌+◌, ◌<◌, List, [], ◌∷◌, ◌++◌, ◌≡◌, ◌∙◌, ap, sym, refl, arith, nat_eq, pos,
  All, concat, length, append_assoc, append-nil,
}
use jetpeer_cpp.Platform.{Platform, Value, Socket}
use jetpeer_cpp.Platform.Laws.{SocketLaws, ArrivalLaws, IsSteady, IsReliable}
use jetpeer_cpp.Defines.Failure.{Outcome, ok}
use jetpeer_cpp.Peer.Frame.{frame}
use jetpeer_cpp.Peer.Receive.Session.{session, Delivers, session-frames}
use jetpeer_cpp.Peer.Receive.Stream.{received, stream, IsDeliverable, Reads, in_length}
use jetpeer_cpp.Peer.Runs.Written.{written}
use jetpeer_cpp.Peer.Runs.Frames.{Fits}
use jetpeer_cpp.Peer.Send.{notify_state, caught_all, change_message}
use jetpeer_cpp.Peer.Send.Results.{send_message_ok, after_send}
use jetpeer_cpp.Peer.State.{World}
use jetpeer_cpp.Tools.Speed.{state_path, notify_cycles}

module _ ⦃P : Platform⦄ where
  open P use {of_uint, of_int, write, send_blocks}

  -- What says each of these values, in their order.
  abbrev pub notices : ℕ → ℕ → List Value
  notices zero cycle = []
  notices (suc rest) cycle = change_message state_path (of_uint cycle) ∷ notices rest (suc cycle)

  -- What a reader makes of them: values of the type int.
  abbrev pub heard : ℕ → ℕ → List Value
  heard zero cycle = []
  heard (suc rest) cycle = change_message state_path (of_int (pos cycle)) ∷ heard rest (suc cycle)

  -- Messages that are written alike.
  frame-alike : (v x : Value) → write v ≡ write x → frame v ≡ frame x
  unfolding frame
  frame-alike v x same = rw same refl

  stream-alike : (vs xs : List Value) → map write vs ≡ map write xs → stream vs ≡ stream xs
  stream-alike [] [] same = refl
  stream-alike [] (x ∷ xs) same = absurd cc
  stream-alike (v ∷ vs) [] same = absurd cc
  stream-alike (v ∷ vs) (x ∷ xs) same =
      let rest = stream-alike vs xs cc in rw (frame-alike v x cc, rest) refl

  deliverable-Fits :
      (vs xs : List Value) → map write vs ≡ map write xs → All IsDeliverable xs → All Fits vs
  deliverable-Fits [] xs same good = tt
  deliverable-Fits (v ∷ vs) [] same good = absurd cc
  deliverable-Fits (v ∷ vs) (x ∷ xs) same (g, gs) =
      let alike : write v ≡ write x = cc in (rw alike g.fits, deliverable-Fits vs xs (cc) gs)

  module _ (reliable : IsReliable) where
    notify_state-taken :
        (v : Value) (w : World)
        → Fits (change_message state_path v)
        → notify_state state_path v w ≡ (ok (pos 0), after_send (change_message state_path v) w)
    unfolding notify_state
    notify_state-taken v w fits =
        ap (λ (r : Outcome (Unit {0}) × World). caught_all (λ _. r) w)
          (send_message_ok (change_message state_path v) w fits (reliable.never_refused w.socket _))

    notify_cycles-written :
        (n cycle : ℕ) (w : World)
        → All Fits (notices n cycle)
        → ((notify_cycles n cycle w).0 ≡ ok tt)
          × (written (notify_cycles n cycle w).1.trace
              ≡ written w.trace ++ stream (notices n cycle))
    unfolding notify_cycles written
    notify_cycles-written zero cycle w fits = (refl, sym (append-nil (written w.trace)))
    notify_cycles-written (suc n) cycle w (fits, others) =
        let msg = change_message state_path (of_uint cycle) in
        let (done, rest) = notify_cycles-written n (suc cycle) (after_send msg w) others in
        rw (notify_state-taken (of_uint cycle) w fits)
          (done, rest ∙ append_assoc (written w.trace) (frame msg) (stream (notices n (suc cycle))))

  module _ (arrive : List ℕ → Socket → Socket) (laws : SocketLaws)
      (arrivals : ArrivalLaws laws arrive) (steady : IsSteady) (reliable : IsReliable) where
    open laws use {pending}

    -- A new connection.
    pub record IsNew (w : World) : Type 0 where
      pub no_length : w.length_buffer ≡ []
      pub no_size : w.data_size ≡ 0
      pub no_data : w.data_buffer ≡ []
      pub no_bytes : pending w.socket ≡ []

    -- measureSetNotify notifies its values on a new connection, whose socket takes all that it is
    -- given: the loop goes to its end. If the bytes that were written arrive at a peer with a new
    -- connection, in whatever pieces, the calls of `receive` of that peer behind the pieces all
    -- return 0, and dispatch just the messages of these values, in their order. The values were
    -- written as unsigned ones and are read as values of the type int: the condition is that a
    -- message with the one is written like the message with the other, and that the message with
    -- the int fits, parses, and is handled there without an exception. The connection must be neither
    -- closed nor broken. Fuel above twice the number of bytes, plus one, is enough.
    pub cycles_arrive :
        (n fuel : ℕ) (pieces : List (List ℕ)) (w v : World)
        → written w.trace ≡ []
        → IsNew v
        → concat pieces ≡ written (notify_cycles n 0 w).1.trace
        → map write (notices n 0) ≡ map write (heard n 0)
        → All IsDeliverable (heard n 0)
        → length (concat pieces) + length (concat pieces) + 1 < fuel
        → ((notify_cycles n 0 w).0 ≡ ok tt)
          × Delivers arrive (received v ++ heard n 0) (session arrive fuel pieces v)
    cycles_arrive n fuel pieces w v silent new cut alike good enough =
        let (done, bytes) =
          notify_cycles-written reliable n 0 w
            (deliverable-Fits (notices n 0) (heard n 0) alike good) in
        let same : concat pieces ≡ stream (heard n 0) =
          cut
          ∙ bytes
          ∙ ap (λ x. x ++ stream (notices n 0)) silent
          ∙ stream-alike (notices n 0) (heard n 0) alike in
        let reads : Reads laws (concat pieces) v (heard n 0) =
          in_length (heard n 0) (omega (arith, ap length new.no_length)) new.no_size new.no_data
            (rw (new.no_length, new.no_bytes) same) in
        (
          done,
          session-frames arrive laws arrivals steady fuel pieces (heard n 0) v reads
              (ground (arith, ap length new.no_length, ap length new.no_bytes)) good enough,
        )
