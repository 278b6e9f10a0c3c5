-- ===== src/Peer/Receive/Session.antt =====
-- A connection over time: bytes arrive, the event loop calls PeerAsync::receive, and more bytes arrive.
use jetpeer_cpp.Base.{
  ℕ, ◌+◌, ◌<◌, ◌≤◌, ℤ, pos, Option, none, some, List, [], ◌∷◌, ◌++◌, ◌≡◌, ◌∙◌, ap, sym, refl, arith,
  length, length-append, append_assoc, append-nil, All, concat, nat_eq,
}
use jetpeer_cpp.Platform.{Platform, Socket, Value}
use jetpeer_cpp.Platform.Laws.{SocketLaws, ArrivalLaws, IsSteady}
use jetpeer_cpp.Defines.Failure.{Outcome, ok}
use jetpeer_cpp.Peer.Receive.{receive}
use jetpeer_cpp.Peer.Receive.Progress.{remaining, is_complete-le}
use jetpeer_cpp.Peer.Receive.Stream.{
  received, coming, nothing_left, IsDeliverable, Reads, in_length, in_data,
}
use jetpeer_cpp.Peer.Receive.Framing.{receive-Ends}
use jetpeer_cpp.Peer.State.{World}

module _ ⦃P : Platform⦄ (arrive : List ℕ → Socket → Socket) where
  -- Bytes arrive, and the socket is readable.
  abbrev pub arrived : List ℕ → World → World
  arrived bytes w = record w { socket = arrive bytes w.socket }

  abbrev Results : Type 0
  Results = List (Outcome ℤ) × World

  abbrev noted : Outcome ℤ → Option Results → Option Results
  noted r none = none
  noted r (some (rs, w)) = some (r ∷ rs, w)

  abbrev go_on : (World → Option Results) → Option (Outcome ℤ × World) → Option Results
  go_on rest none = none
  go_on rest (some (r, u)) = noted r (rest u)

  -- What the calls of `receive` return, each with this fuel, and the state behind the last one.
  unfoldable pub session : ℕ → List (List ℕ) → World → Option Results
  session fuel [] w = some ([], w)
  session fuel (bytes ∷ rest) w = go_on (session fuel rest) (receive fuel (arrived bytes w))

  -- All of them dispatched, and nothing held back.
  abbrev pub Delivers : List Value → Option Results → Type 0
  Delivers total o =
      (rs : List (Outcome ℤ)) × (u : World) × (o ≡ some (rs, u))
      × All (λ r. r ≡ ok (pos 0)) rs
      × (received u ≡ total)
      × (u.length_buffer ≡ [])
      × (u.data_buffer ≡ [])
      × (u.data_size ≡ 0)

  module _ (laws : SocketLaws) (arrivals : ArrivalLaws laws arrive) (steady : IsSteady) where
    open laws use {pending}

    -- What has arrived is no longer to come.
    coming-arrived :
        (bytes later : List ℕ) (w : World)
        → coming laws later (arrived bytes w) ≡ coming laws (bytes ++ later) w
    coming-arrived bytes later w =
        ap (λ p. p ++ later) (arrivals.pending-arrive bytes w.socket)
        ∙ append_assoc (pending w.socket) bytes later

    Reads-arrived :
        (bytes later : List ℕ) (msgs : List Value) (w : World)
        → Reads laws (bytes ++ later) w msgs
        → Reads laws later (arrived bytes w) msgs
    Reads-arrived bytes later msgs w (in_length _ short size0 data0 e) =
        in_length msgs short size0 data0
          (ap (λ t. w.length_buffer ++ t) (coming-arrived bytes later w) ∙ e)
    Reads-arrived bytes later msgs w (in_data v rest four size le e) =
        in_data v rest four size le
          (ap (λ t. w.data_buffer ++ t) (coming-arrived bytes later w) ∙ e)

    remaining-arrived :
        (bytes : List ℕ) (w : World)
        → remaining laws w ≡ 0
        → remaining laws (arrived bytes w) ≤ length bytes + length bytes + 1
    remaining-arrived bytes w done = omega (
      arith,
      done,
      ap length (arrivals.pending-arrive bytes w.socket),
      length-append (pending w.socket) bytes,
      is_complete-le laws (arrived bytes w),
    )

    noted-Delivers :
        (total : List Value) (o : Option Results)
        → Delivers total o
        → Delivers total (noted (ok (pos 0)) o)
    noted-Delivers total o (rs, u, e, good, all, l, d, z) =
        (ok (pos 0) ∷ rs, u, ap (noted (ok (pos 0))) e, (refl, good), all, l, d, z)

    session-Delivers :
        (total : List Value) (fuel : ℕ) (pieces : List (List ℕ)) (msgs : List Value) (w : World)
        → Reads laws (concat pieces) w msgs
        → remaining laws w ≡ 0
        → All IsDeliverable msgs
        → received w ++ msgs ≡ total
        → length (concat pieces) + length (concat pieces) + 1 < fuel
        → Delivers total (session fuel pieces w)
    unfolding session
    session-Delivers total fuel [] msgs w reads done good sum enough =
        let (none_left, l, d, z) = nothing_left laws [] msgs w reads done refl in
        ([], w, refl, tt, sym (append-nil (received w)) ∙ rw none_left at sum, l, d, z)
    session-Delivers total fuel (bytes ∷ rest) msgs w reads done good sum enough =
        let both = length-append bytes (concat rest) in
        let (u, ended, still_done, (left, still, still_good, still_sum)) =
          receive-Ends laws (concat rest) total steady fuel msgs (arrived bytes w)
            (Reads-arrived bytes (concat rest) msgs w reads) good sum
            (omega (arith, both, enough, remaining-arrived bytes w done)) in
        let behind =
          session-Delivers total fuel rest left u still still_done still_good still_sum
            (omega (arith, both, enough)) in
        rw ended (noted-Delivers total (session fuel rest u) behind)

    -- A stream of frames, as sendMessage makes them, of messages that fit, parse, and are handled
    -- without an exception, arrives on a connection that is neither closed nor broken. Whatever the
    -- pieces in which it arrives, and however the socket cuts these again, the calls of `receive`
    -- behind the pieces all return 0. They dispatch just these messages in their order, and leave
    -- empty buffers. At the start the reader is between two messages, or holds a part of one, and
    -- has read all that was there. Fuel above twice the number of bytes, plus one, is enough.
    pub session-frames :
        (fuel : ℕ) (pieces : List (List ℕ)) (msgs : List Value) (w : World)
        → Reads laws (concat pieces) w msgs
        → remaining laws w ≡ 0
        → All IsDeliverable msgs
        → length (concat pieces) + length (concat pieces) + 1 < fuel
        → Delivers (received w ++ msgs) (session fuel pieces w)
    session-frames fuel pieces msgs w reads done good enough =
        session-Delivers (received w ++ msgs) fuel pieces msgs w reads done good refl enough
