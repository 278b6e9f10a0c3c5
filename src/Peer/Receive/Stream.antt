-- ===== src/Peer/Receive/Stream.antt =====
-- Where PeerAsync::receive stands in a stream of frames, and how a turn of its loops goes on in it.
use mathlib.Core.List.{reverse}
use jetpeer_cpp.Base.{
  ℕ, ◌<◌, ◌≤◌, ◌^◌, ◌%◌, pos, some, List, [], ◌∷◌, ◌++◌, map, ◌≡◌, ◌∙◌, ap, sym, refl, arith,
  length, length-append, append_inj, eq-nil_of_length, append_assoc, ltb, if-cases, ◌==◌, nat_eq,
  All, concat,
}
use jetpeer_cpp.Platform.{Platform, Value}
use jetpeer_cpp.Platform.Laws.{SocketLaws}
use jetpeer_cpp.Defines.{max_message_size}
use jetpeer_cpp.Defines.Failure.{ok}
use jetpeer_cpp.Peer.Frame.{frame, to_big_endian, of_big_endian, of_big_endian-to_big_endian}
use jetpeer_cpp.Peer.Dispatch.{receive_callback}
use jetpeer_cpp.Peer.Dispatch.Keeps.{dispatched}
use jetpeer_cpp.Peer.Receive.{Step, add_length, add_data}
use jetpeer_cpp.Peer.Receive.Progress.{remaining}
use jetpeer_cpp.Peer.State.{World}

module _ ⦃P : Platform⦄ where
  open P use {write, parse}

  -- The messages that receiveCallback was called with, oldest first.
  abbrev pub received : World → List Value
  received w = reverse (dispatched w.trace)

  -- A message that fits, that the reader gives back, and whose handling does not throw.
  pub record IsDeliverable (v : Value) : Type 0 where
    pub fits : length (write v) ≤ max_message_size
    pub parses : parse (write v) ≡ some v
    pub quiet : (w : World) → (receive_callback v w).0 ≡ ok tt

  abbrev pub stream : List Value → List ℕ
  stream msgs = concat (map frame msgs)

-- `future` are the bytes that arrive when the socket has no more.
module _ ⦃P : Platform⦄ (laws : SocketLaws) (future : List ℕ) where
  open P use {write, parse, receive as receive_some}
  open laws use {pending, receive-got, receive-would_block}

  abbrev pub coming : World → List ℕ
  coming w = pending w.socket ++ future

  -- Where the reader stands in the stream of the messages that are still to come.
  pub data Reads (w : World) : List Value → Type 0 where
    in_length :
        (msgs : List Value)
        → length w.length_buffer < 4
        → w.data_size ≡ 0
        → w.data_buffer ≡ []
        → w.length_buffer ++ coming w ≡ stream msgs
        → Reads w msgs
    in_data :
        (v : Value) (rest : List Value)
        → length w.length_buffer ≡ 4
        → w.data_size ≡ length (write v)
        → length w.data_buffer ≤ w.data_size
        → w.data_buffer ++ coming w ≡ write v ++ stream rest
        → Reads w (v ∷ rest)

  -- A turn of the loops goes on in the stream, or ends where the socket has no more.
  abbrev pub Goes : List Value → Step → Type 0
  Goes total (Step.again u) =
      (msgs : List Value) × Reads u msgs × All IsDeliverable msgs × (received u ++ msgs ≡ total)
  Goes total (Step.returned r u) =
      (r ≡ pos 0)
      × (remaining laws u ≡ 0)
      × ((msgs : List Value) × Reads u msgs × All IsDeliverable msgs × (received u ++ msgs ≡ total))
  Goes total (Step.thrown e u) = ⊥

  pub length-to_big_endian : (n : ℕ) → length (to_big_endian n) ≡ 4
  unfolding to_big_endian
  length-to_big_endian n = refl

  -- The length field of a complete header.
  pub header_length :
      (v : Value) (bytes tail rest : List ℕ)
      → length (write v) ≤ max_message_size
      → length bytes ≡ 4
      → bytes ++ tail ≡ frame v ++ rest
      → (of_big_endian bytes ≡ length (write v)) × (tail ≡ write v ++ rest)
  unfolding frame
  header_length v bytes tail rest fits four e =
      let n = length (write v) % 2 ^ 32 in
      let (header, body) =
        append_inj bytes (to_big_endian n) {ys = tail} {ws = write v ++ rest}
          (four ∙ sym (length-to_big_endian n))
          (e ∙ append_assoc (to_big_endian n) (write v) rest) in
      (rw header (of_big_endian-to_big_endian n (omega arith) ∙ omega arith), body)

  module _ (total : List Value) where
    pub add_length-Goes :
        (msgs : List Value) (bytes : List ℕ) (w : World)
        → length (w.length_buffer ++ bytes) ≤ 4
        → 0 < length bytes
        → w.data_size ≡ 0
        → w.data_buffer ≡ []
        → (w.length_buffer ++ bytes) ++ coming w ≡ stream msgs
        → All IsDeliverable msgs
        → received w ++ msgs ≡ total
        → Goes total (add_length bytes w)
    add_length-Goes [] bytes w le some_bytes size0 data0 e good sum = absurd (
        omega (
          arith,
          ap length e,
          length-append (w.length_buffer ++ bytes) (coming w),
          length-append w.length_buffer bytes,
        ))
    add_length-Goes (v ∷ rest) bytes w le some_bytes size0 data0 e good sum =
        if-cases (Goes total) (length (w.length_buffer ++ bytes) == 4)
          (λ four.
            let (len, body) =
              header_length v (w.length_buffer ++ bytes) (coming w) (stream rest) good.0.fits
                (ground arith) e in
            if-cases (Goes total) (ltb max_message_size (of_big_endian (w.length_buffer ++ bytes)))
              (λ large. absurd (ground (arith, len, good.0.fits)))
              (λ _. (
                v ∷ rest,
                in_data v rest (ground arith) len (rw data0 (omega arith)) (rw data0 body),
                good,
                sum,
              )))
          (λ short. (v ∷ rest, in_length (v ∷ rest) (ground arith) size0 data0 e, good, sum))

    pub add_data-Goes :
        (v : Value) (rest : List Value) (bytes : List ℕ) (w : World)
        → length w.length_buffer ≡ 4
        → w.data_size ≡ length (write v)
        → length (w.data_buffer ++ bytes) ≤ w.data_size
        → (w.data_buffer ++ bytes) ++ coming w ≡ write v ++ stream rest
        → All IsDeliverable (v ∷ rest)
        → received w ++ v ∷ rest ≡ total
        → Goes total (add_data bytes w)
    add_data-Goes v rest bytes w four size le e good sum =
        (v ∷ rest, in_data v rest four size le e, good, sum)

  -- At the end of all that comes, the reader is between two messages.
  pub blocked_in_length :
      (msgs : List Value) (w : World)
      → length w.length_buffer < 4
      → length (coming w) ≡ 0
      → w.length_buffer ++ coming w ≡ stream msgs
      → (msgs ≡ []) × (w.length_buffer ≡ [])
  unfolding frame
  blocked_in_length [] w short empty e = (
    refl,
    eq-nil_of_length w.length_buffer
        (omega (arith, ap length e, length-append w.length_buffer (coming w))),
  )
  blocked_in_length (v ∷ rest) w short empty e =
      let n = length (write v) % 2 ^ 32 in
      absurd (
        omega (
          arith,
          ap length e,
          length-append w.length_buffer (coming w),
          length-append (to_big_endian n ++ write v) (stream rest),
          length-append (to_big_endian n) (write v),
          length-to_big_endian n,
        ))

  pub blocked_in_data :
      (v : Value) (rest : List Value) (w : World)
      → length w.data_buffer < length (write v)
      → length (coming w) ≡ 0
      → w.data_buffer ++ coming w ≡ write v ++ stream rest
      → ⊥
  blocked_in_data v rest w short empty e = omega (
    arith,
    ap length e,
    length-append w.data_buffer (coming w),
    length-append (write v) (stream rest),
  )

  -- At the end of all that comes, no message and no part of one is left.
  pub nothing_left :
      (msgs : List Value) (w : World)
      → Reads w msgs
      → remaining laws w ≡ 0
      → length future ≡ 0
      → (msgs ≡ []) × (w.length_buffer ≡ []) × (w.data_buffer ≡ []) × (w.data_size ≡ 0)
  nothing_left msgs w (in_length _ short size0 data0 e) done last =
      let empty : length (coming w) ≡ 0 =
        omega (arith, done, last, length-append (pending w.socket) future) in
      let (none_left, between) = blocked_in_length msgs w short empty e in
      (none_left, between, data0, size0)
  nothing_left msgs w (in_data v rest four size le e) done last =
      let empty : length (coming w) ≡ 0 =
        omega (arith, done, last, length-append (pending w.socket) future) in
      absurd (blocked_in_data v rest w (ground (arith, done, four, size)) empty e)
