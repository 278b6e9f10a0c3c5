-- ===== src/Tests/Arriving.antt =====
-- The theorem on a connection over time, applied: two notifications arrive in three pieces.
use jetpeer_cpp.Base.{ℕ, List, [], ◌∷◌, ◌++◌, true, refl, arith, nat_eq, int_to_string, to_string}
use jetpeer_cpp.Platform.Laws.{ArrivalLaws}
use jetpeer_cpp.Peer.Dispatch.Keeps.{dispatched}
use jetpeer_cpp.Peer.Frame.{frame, to_big_endian}
use jetpeer_cpp.Peer.Receive.Session.{session, Delivers, session-frames}
use jetpeer_cpp.Peer.Receive.Stream.{Reads, in_length}
use jetpeer_cpp.Peer.State.{World}
use jetpeer_cpp.Tests.Data.{toy, known, home, wire, note3}
use jetpeer_cpp.Tests.Reading.{note3-IsDeliverable}
use jetpeer_cpp.Tests.Toy.{Wire, take, drop}
use jetpeer_cpp.Tests.Toy.Holds.{socket_laws, steady}

abbrev pub add_bytes : List ℕ → Wire → Wire
add_bytes bytes s = record s { held = s.held ++ bytes }

pub add_bytes-ArrivalLaws : ArrivalLaws (socket_laws true known) add_bytes
unfolding socket_laws
add_bytes-ArrivalLaws = record { pending-arrive = λ bytes s. refl }

abbrev pub quiet : World
quiet = home true (wire [])

abbrev both : List ℕ
both = frame note3 ++ frame note3

abbrev pieces : List (List ℕ)
pieces = take 6 both ∷ [] ∷ drop 6 both ∷ []

quiet-Reads : Reads (socket_laws true known) both quiet (note3 ∷ note3 ∷ [])
unfolding socket_laws frame to_big_endian int_to_string
quiet-Reads = in_length (note3 ∷ note3 ∷ []) (omega arith) refl refl refl

session-frames_example :
    Delivers add_bytes (note3 ∷ note3 ∷ []) (session add_bytes 200 pieces quiet)
unfolding socket_laws frame to_big_endian int_to_string to_string dispatched
session-frames_example =
    session-frames add_bytes (socket_laws true known) add_bytes-ArrivalLaws (steady true known) 200
      pieces (note3 ∷ note3 ∷ []) quiet quiet-Reads refl
      (note3-IsDeliverable, (note3-IsDeliverable, tt)) (omega arith)
