-- ===== src/Peer/Receive/Framing.antt =====
-- PeerAsync::receive against PeerAsync::sendMessage: a stream of frames, cut anywhere, is dispatched
-- as the messages that were framed.
use mathlib.Core.List.{reverse, reverse-cons}
use jetpeer_cpp.Base.{
  ℕ, zero, suc, ◌+◌, ◌-◌, ◌<◌, ◌≤◌, ℤ, pos, Option, some, List, [], ◌∷◌, ◌++◌, ◌≡◌, ◌∙◌, ap, sym,
  refl, arith, length, length-append, append_inj, eq-nil_of_length, append_assoc, append-nil, ltb,
  if-cases, nat_eq, All,
}
use jetpeer_cpp.Platform.{Platform, Reply, Socket, Value}
use jetpeer_cpp.Platform.Laws.{SocketLaws, IsSteady}
use jetpeer_cpp.Defines.Failure.{Outcome, ok, raised}
use jetpeer_cpp.Peer.Dispatch.Keeps.{dispatched, receive_callback-SameReader}
use jetpeer_cpp.Peer.Receive.{
  Step, replied, add_length, add_data, process, receive_step, receive, next, dispatch, processed,
}
use jetpeer_cpp.Peer.Receive.Progress.{pending-dispatch, remaining, receive_step-Shrinks, Shrinks}
use jetpeer_cpp.Peer.State.{World, Effect}
use jetpeer_cpp.Peer.Receive.Stream.{
  received, coming, nothing_left, IsDeliverable, stream, Reads, in_length, in_data, Goes,
  add_length-Goes, add_data-Goes,
}

module _ ⦃P : Platform⦄ (laws : SocketLaws) (future : List ℕ) (total : List Value) where
  open P use {write, parse, receive as receive_some}
  open laws use {pending, receive-got, receive-would_block}

  -- What comes, before and behind a call of the socket.
  coming-got :
      (s t : Socket) (bytes : List ℕ)
      → pending s ≡ bytes ++ pending t
      → pending s ++ future ≡ bytes ++ (pending t ++ future)
  coming-got s t bytes split = ap (λ p. p ++ future) split ∙ append_assoc bytes (pending t) future

  coming-would_block :
      (s t : Socket) (n : ℕ)
      → receive_some s n ≡ (Reply.would_block, t)
      → (length (pending t) ≡ 0) × (pending t ++ future ≡ pending s ++ future)
  coming-would_block s t n r =
      let (before, after) = receive-would_block s t n r in
      (
        after,
        ap (λ p. p ++ future)
            (eq-nil_of_length (pending t) after ∙ sym (eq-nil_of_length (pending s) before)),
      )

  module _ (steady : IsSteady) where
    reply_length-Goes :
        (msgs : List Value) (w : World) (reply : Reply × Socket)
        → receive_some w.socket (4 - length w.length_buffer) ≡ reply
        → length w.length_buffer < 4
        → w.data_size ≡ 0
        → w.data_buffer ≡ []
        → w.length_buffer ++ coming laws future w ≡ stream msgs
        → All IsDeliverable msgs
        → received w ++ msgs ≡ total
        → Goes laws future total (replied add_length reply w)
    unfolding replied
    reply_length-Goes msgs w (Reply.got bytes, s) r short size0 data0 e good sum =
        let (some_bytes, few, split) =
          receive-got w.socket s (4 - length w.length_buffer) bytes (omega arith) r in
        add_length-Goes laws future total msgs bytes (record w { socket = s })
          (omega (arith, length-append w.length_buffer bytes)) some_bytes size0 data0
          (append_assoc w.length_buffer bytes (pending s ++ future)
            ∙ ap (λ t. w.length_buffer ++ t) (sym (coming-got w.socket s bytes split))
            ∙ e)
          good sum
    reply_length-Goes msgs w (Reply.would_block, s) r short size0 data0 e good sum =
        let (empty, coming_same) = coming-would_block w.socket s _ r in
        (
          refl,
          ground (arith, empty, short),
          (
            msgs,
            in_length msgs short size0 data0 (ap (λ t. w.length_buffer ++ t) coming_same ∙ e),
            good,
            sum,
          ),
        )
    reply_length-Goes msgs w (Reply.closed, s) r short size0 data0 e good sum =
        absurd (steady.never_closed _ _ (ap (λ p. p.0) r))
    reply_length-Goes msgs w (Reply.failed, s) r short size0 data0 e good sum =
        absurd (steady.never_failed _ _ (ap (λ p. p.0) r))

    reply_data-Goes :
        (v : Value) (rest : List Value) (w : World) (reply : Reply × Socket)
        → receive_some w.socket (w.data_size - length w.data_buffer) ≡ reply
        → length w.length_buffer ≡ 4
        → w.data_size ≡ length (write v)
        → length w.data_buffer < w.data_size
        → w.data_buffer ++ coming laws future w ≡ write v ++ stream rest
        → All IsDeliverable (v ∷ rest)
        → received w ++ v ∷ rest ≡ total
        → Goes laws future total (replied add_data reply w)
    unfolding replied
    reply_data-Goes v rest w (Reply.got bytes, s) r four size more e good sum =
        let (some_bytes, few, split) =
          receive-got w.socket s (w.data_size - length w.data_buffer) bytes (omega arith) r in
        add_data-Goes laws future total v rest bytes (record w { socket = s }) four size
          (omega (arith, length-append w.data_buffer bytes))
          (append_assoc w.data_buffer bytes (pending s ++ future)
            ∙ ap (λ t. w.data_buffer ++ t) (sym (coming-got w.socket s bytes split))
            ∙ e)
          good sum
    reply_data-Goes v rest w (Reply.would_block, s) r four size more e good sum =
        let (empty, coming_same) = coming-would_block w.socket s _ r in
        (
          refl,
          ground (arith, empty, four, more),
          (
            v ∷ rest,
            in_data v rest four size (omega arith) (ap (λ t. w.data_buffer ++ t) coming_same ∙ e),
            good,
            sum,
          ),
        )
    reply_data-Goes v rest w (Reply.closed, s) r four size more e good sum =
        absurd (steady.never_closed _ _ (ap (λ p. p.0) r))
    reply_data-Goes v rest w (Reply.failed, s) r four size more e good sum =
        absurd (steady.never_failed _ _ (ap (λ p. p.0) r))

    processed-Goes :
        (rest : List Value) (r : Outcome (Unit {0}) × World)
        → r.0 ≡ ok tt
        → coming laws future r.1 ≡ stream rest
        → All IsDeliverable rest
        → received r.1 ++ rest ≡ total
        → Goes laws future total (processed r)
    processed-Goes rest (ok _, u) quiet e good sum =
        (rest, in_length rest (omega arith) refl refl e, good, sum)
    processed-Goes rest (raised f, u) quiet e good sum = cc

    -- Counting the message that is dispatched.
    received-dispatch :
        (v : Value) (rest : List Value) (w : World)
        → received w ++ v ∷ rest ≡ total
        → received (dispatch (some v) w).1 ++ rest ≡ total
    unfolding dispatched
    received-dispatch v rest w sum =
        let u = record w { trace = Effect.dispatched v ∷ w.trace } in
        ap (λ d. reverse d ++ rest) (receive_callback-SameReader v u).same_dispatched
        ∙ ap (λ d. d ++ rest) (reverse-cons v (dispatched w.trace))
        ∙ append_assoc (received w) (v ∷ []) rest
        ∙ sum

    process-Goes :
        (v : Value) (rest : List Value) (w : World)
        → w.data_size ≡ length (write v)
        → length w.data_buffer ≡ w.data_size
        → w.data_buffer ++ coming laws future w ≡ write v ++ stream rest
        → All IsDeliverable (v ∷ rest)
        → received w ++ v ∷ rest ≡ total
        → Goes laws future total (process w)
    unfolding process
    process-Goes v rest w size full e (good, more) sum =
        let (text, tail) = append_inj w.data_buffer (write v) (full ∙ size) e in
        let u = record w { data_size = w.data_size + 1 } in
        let parsed : parse w.data_buffer ≡ some v = ap parse text ∙ good.parses in
        rw parsed (
          processed-Goes rest (dispatch (some v) u) (good.quiet _)
            (ap (λ p. p ++ future) (pending-dispatch laws (some v) u) ∙ tail) more
            (received-dispatch v rest u sum))

    receive_step-Goes :
        (msgs : List Value) (w : World)
        → Reads laws future w msgs
        → All IsDeliverable msgs
        → received w ++ msgs ≡ total
        → Goes laws future total (receive_step w)
    unfolding receive_step
    receive_step-Goes msgs w (in_length _ short size0 data0 e) good sum =
        if-cases (Goes laws future total) (ltb (length w.length_buffer) 4)
          (λ _. reply_length-Goes msgs w _ refl short size0 data0 e good sum)
          (λ long. absurd (ground arith))
    receive_step-Goes msgs w (in_data v rest four size le e) good sum =
        if-cases (Goes laws future total) (ltb (length w.length_buffer) 4)
          (λ short. absurd (ground arith))
          (λ _.
            if-cases (Goes laws future total) (ltb (length w.data_buffer) w.data_size)
              (λ more. reply_data-Goes v rest w _ refl four size (ground arith) e good sum)
              (λ full. process-Goes v rest w size (ground arith) e good sum))

    -- `receive` returns where the socket has no more, and the messages that are complete are
    -- dispatched.
    abbrev pub Ends : Option (Outcome ℤ × World) → Type 0
    Ends r =
        (u : World) × (r ≡ some (ok (pos 0), u))
        × (remaining laws u ≡ 0)
        × ((msgs : List Value) × Reads laws future u msgs
            × All IsDeliverable msgs
            × (received u ++ msgs ≡ total))

    next-Ends :
        (fuel : ℕ) (s : Step) (n : ℕ)
        → ((msgs : List Value) (u : World)
            → Reads laws future u msgs
            → All IsDeliverable msgs
            → received u ++ msgs ≡ total
            → remaining laws u < fuel
            → Ends (receive fuel u))
        → Goes laws future total s
        → Shrinks laws n s
        → n ≤ fuel
        → Ends (next (receive fuel) s)
    next-Ends fuel (Step.again u) n ih (msgs, reads, good, sum) h le =
        ih msgs u reads good sum (omega arith)
    next-Ends fuel (Step.returned r u) n ih (code0, done, reads) h le =
        (u, ap (λ k. some (ok k, u)) code0, done, reads)
    next-Ends fuel (Step.thrown f u) n ih goes h le = absurd goes

    pub receive-Ends :
        (fuel : ℕ) (msgs : List Value) (w : World)
        → Reads laws future w msgs
        → All IsDeliverable msgs
        → received w ++ msgs ≡ total
        → remaining laws w < fuel
        → Ends (receive fuel w)
    unfolding receive
    receive-Ends zero msgs w reads good sum enough = absurd (omega arith)
    receive-Ends (suc fuel) msgs w reads good sum enough =
        next-Ends fuel (receive_step w) (remaining laws w) (receive-Ends fuel)
          (receive_step-Goes msgs w reads good sum) (receive_step-Shrinks laws w) (omega arith)

-- The reader may stand anywhere in the stream, in a length field or in a message that it has in
-- part. If the bytes in its buffers and those still to come are a stream of frames, as sendMessage
-- makes them, of messages that fit, parse, and are handled without an exception, and the connection
-- is neither closed nor broken, then `receive` returns 0, has dispatched just these messages in
-- their order, and leaves empty buffers, however the socket cuts the bytes into pieces. Fuel above
-- twice the number of bytes in the socket, plus one, is enough.
pub receive-frames :
    ⦃P : Platform⦄ (laws : SocketLaws) (steady : IsSteady) (fuel : ℕ) (msgs : List Value)
    (w : World)
    → Reads laws [] w msgs
    → All IsDeliverable msgs
    → remaining laws w < fuel
    → (u : World) × (receive fuel w ≡ some (ok (pos 0), u))
      × (received u ≡ received w ++ msgs)
      × (u.length_buffer ≡ [])
      × (u.data_buffer ≡ [])
      × (u.data_size ≡ 0)
receive-frames laws steady fuel msgs w reads good enough =
    let (u, ended, done, (left, still, _, sum)) =
      receive-Ends laws [] (received w ++ msgs) steady fuel msgs w reads good refl enough in
    let (none_left, l, d, z) = nothing_left laws [] left u still done refl in
    (u, ended, sym (append-nil (received u)) ∙ rw none_left at sum, l, d, z)
