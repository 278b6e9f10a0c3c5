-- ===== src/Peer/Receive/Bounds.antt =====
-- PeerAsync::receive never holds more than one message of the largest size.
use jetpeer_cpp.Base.{
  ℕ, zero, suc, ◌-◌, ◌<◌, ◌≤◌, ℤ, some, List, ◌++◌, ◌≡◌, refl, arith, length, length-append, ltb,
  if-cases, ◌==◌, nat_eq,
}
use jetpeer_cpp.Platform.{Platform, Reply, Socket}
use jetpeer_cpp.Platform.Laws.{SocketLaws}
use jetpeer_cpp.Defines.{max_message_size}
use jetpeer_cpp.Defines.Failure.{Outcome, ok, raised}
use jetpeer_cpp.Peer.Frame.{of_big_endian}
use jetpeer_cpp.Peer.Lifecycle.{stop}
use jetpeer_cpp.Peer.Lifecycle.Stop.{stop_buffers}
use jetpeer_cpp.Peer.Receive.{
  Step, replied, add_length, add_data, process, receive_step, receive, next, processed,
}
use jetpeer_cpp.Peer.State.{World}

module _ ⦃P : Platform⦄ where
  -- The levels of the buffers are within the buffers, and the data buffer is within the limit.
  pub record IsBounded (w : World) : Type 0 where
    pub length_bound : length w.length_buffer ≤ 4
    pub size_bound : w.data_size ≤ max_message_size
    pub data_bound : length w.data_buffer ≤ w.data_size
    pub data_after_length : length w.length_buffer < 4 → w.data_size ≡ 0

  stop-IsBounded : (w : World) → IsBounded w → IsBounded (stop w)
  stop-IsBounded w b =
      let (l, s, d) = stop_buffers w in
      record {
        length_bound = rw l b.length_bound;
        size_bound = rw s b.size_bound;
        data_bound = rw (d, s) b.data_bound;
        data_after_length = rw (l, s) b.data_after_length;
      }

  same_buffers : (w : World) (s : Socket) → IsBounded w → IsBounded (record w { socket = s })
  same_buffers w s b = record {
    length_bound = b.length_bound;
    size_bound = b.size_bound;
    data_bound = b.data_bound;
    data_after_length = b.data_after_length;
  }

  -- The state behind a step, unless it throws.
  abbrev Stays : Step → Type 0
  Stays (Step.again u) = IsBounded u
  Stays (Step.returned r u) = IsBounded u
  Stays (Step.thrown e u) = Unit

  add_length-Stays :
      (bytes : List ℕ) (w : World)
      → length (w.length_buffer ++ bytes) ≤ 4
      → w.data_size ≡ 0
      → length w.data_buffer ≡ 0
      → Stays (add_length bytes w)
  add_length-Stays bytes w le size0 data0 =
      if-cases Stays (length (w.length_buffer ++ bytes) == 4)
        (λ four.
          if-cases Stays (ltb max_message_size (of_big_endian (w.length_buffer ++ bytes)))
            (λ _. stop-IsBounded _ (ground arith)) (λ fits. ground arith))
        (λ _. ground arith)

  module _ (laws : SocketLaws) where
    open P use {parse, receive as receive_some}
    open laws use {receive-got}

    -- What the reading of either part does with the reply of the socket.
    replied-Stays :
        (add : List ℕ → World → Step) (w : World) (n : ℕ) (reply : Reply × Socket)
        → 0 < n
        → receive_some w.socket n ≡ reply
        → IsBounded w
        → ((bytes : List ℕ) (s : Socket)
            → length bytes ≤ n
            → Stays (add bytes (record w { socket = s })))
        → Stays (replied add reply w)
    unfolding replied
    replied-Stays add w n (Reply.got bytes, s) pos e b k =
        k bytes s (receive-got w.socket s n bytes pos e).1
    replied-Stays add w n (Reply.would_block, s) pos e b k = same_buffers w s b
    replied-Stays add w n (Reply.closed, s) pos e b k = stop-IsBounded _ (same_buffers w s b)
    replied-Stays add w n (Reply.failed, s) pos e b k = stop-IsBounded _ (same_buffers w s b)

    processed-Stays : (r : Outcome (Unit {0}) × World) → Stays (processed r)
    processed-Stays (ok _, u) = omega arith
    processed-Stays (raised e, u) = tt

    receive_step-Stays : (w : World) → IsBounded w → Stays (receive_step w)
    unfolding receive_step process
    receive_step-Stays w b =
        if-cases Stays (ltb (length w.length_buffer) 4)
          (λ short.
            let size0 = b.data_after_length (ground arith) in
            replied-Stays add_length w (4 - length w.length_buffer)
              (receive_some w.socket (4 - length w.length_buffer)) (ground arith) refl b
              (λ bytes s few.
                add_length-Stays bytes (record w { socket = s })
                  (omega (arith, length-append w.length_buffer bytes, b.length_bound)) size0
                  (omega (arith, size0, b.data_bound))))
          (λ long.
            if-cases Stays (ltb (length w.data_buffer) w.data_size)
              (λ more.
                replied-Stays add_data w (w.data_size - length w.data_buffer)
                  (receive_some w.socket (w.data_size - length w.data_buffer)) (ground arith) refl b
                  (λ bytes s few. record {
                    length_bound = b.length_bound;
                    size_bound = b.size_bound;
                    data_bound = omega (arith, length-append w.data_buffer bytes, b.data_bound);
                    data_after_length = b.data_after_length;
                  }))
              (λ _. processed-Stays _))

    next-IsBounded :
        (fuel : ℕ) (s : Step) (r : ℤ) (u : World)
        → ((v : World) → IsBounded v → receive fuel v ≡ some (ok r, u) → IsBounded u)
        → Stays s
        → next (receive fuel) s ≡ some (ok r, u)
        → IsBounded u
    next-IsBounded fuel (Step.again v) r u ih b e = ih v b e
    next-IsBounded fuel (Step.returned q v) r u ih b e = let same : v ≡ u = cc e in rw (← same) b
    next-IsBounded fuel (Step.thrown f v) r u ih b e = absurd (cc e)

    -- If the levels are within the buffers, and the data buffer within the largest message, then
    -- they are so again when `receive` returns, whatever a socket that keeps its laws delivers.
    -- Where an exception leaves `receive`, nothing is said.
    pub receive-IsBounded :
        (fuel : ℕ) (w : World) (r : ℤ) (u : World)
        → IsBounded w
        → receive fuel w ≡ some (ok r, u)
        → IsBounded u
    unfolding receive
    receive-IsBounded zero w r u b e = absurd (cc e)
    receive-IsBounded (suc fuel) w r u b e =
        next-IsBounded fuel (receive_step w) r u (λ v. receive-IsBounded fuel v r u)
          (receive_step-Stays w b) e
