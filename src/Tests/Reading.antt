-- ===== src/Tests/Reading.antt =====
-- The theorems on the reader, and on the start and the end of a connection, applied.
use jetpeer_cpp.Base.{
  ℕ, ℤ, pos, minus_one, List, [], ◌∷◌, ◌++◌, some, true, false, ◌≡◌, ap, refl, arith, length,
  int_eq, nat_eq, string_eq, int_to_string, to_string, ◌+◌,
}
use jetpeer_cpp.Platform.{Reply}
use jetpeer_cpp.Defines.Failure.{Outcome, ok}
use jetpeer_cpp.Defines.Matching.{add_path_information}
use jetpeer_cpp.Peer.State.{World, Effect, json_error}
use jetpeer_cpp.Peer.Frame.{frame, to_big_endian}
use jetpeer_cpp.Peer.Request.{cancelled, request_doc}
use jetpeer_cpp.Peer.Dispatch.{receive_callback}
use jetpeer_cpp.Peer.Dispatch.Calls.{fetch_notified}
use jetpeer_cpp.Peer.Lifecycle.{stop, resume}
use jetpeer_cpp.Peer.Lifecycle.Stop.{stop_lem}
use jetpeer_cpp.Peer.Lifecycle.Start.{resume_restores, send_in_order, greeting, connected}
use jetpeer_cpp.Peer.Receive.{Step, receive, receive_step}
use jetpeer_cpp.Peer.Receive.Progress.{receive_total}
use jetpeer_cpp.Peer.Receive.Bounds.{receive-IsBounded, IsBounded}
use jetpeer_cpp.Peer.Receive.Stream.{Reads, IsDeliverable, in_length}
use jetpeer_cpp.Peer.Receive.Broken.{exception_breaks_stream, response_throws}
use jetpeer_cpp.Tests.Toy.{Json, Wire}
use jetpeer_cpp.Tests.Toy.Holds.{reliable, socket_laws}
use jetpeer_cpp.Tests.Data.{toy, known, idle, home, wire, note3, bad_response}

-- Two notifications of the fetch 3 have arrived, in pieces of three bytes.
abbrev arriving : World
arriving = home true (wire (frame note3 ++ frame note3))

arriving-Reads : Reads (socket_laws true known) [] arriving (note3 ∷ note3 ∷ [])
unfolding socket_laws frame to_big_endian int_to_string
arriving-Reads = in_length (note3 ∷ note3 ∷ []) (omega arith) refl refl refl

pub note3-IsDeliverable : IsDeliverable note3
unfolding int_to_string to_string receive_callback
note3-IsDeliverable = record {
  fits = omega arith;
  parses = refl;
  quiet = λ w.
      ap (λ r. r.0)
        (fetch_notified note3 (Json.int (pos 3)) (Json.int (pos 1)) (pos 3) w refl refl refl refl);
}

receive_total_example : (r : Outcome ℤ × World) × (receive 200 arriving ≡ some r)
unfolding frame int_to_string to_string to_big_endian socket_laws
receive_total_example = receive_total (socket_laws true known) 200 arriving (omega arith)

idle-IsBounded : IsBounded idle
idle-IsBounded = record {
  length_bound = omega arith;
  size_bound = omega arith;
  data_bound = omega arith;
  data_after_length = λ _. refl;
}

receive-IsBounded_example : IsBounded idle
unfolding receive receive_step
receive-IsBounded_example =
    receive-IsBounded (socket_laws true known) 1 idle (pos 0) idle idle-IsBounded refl

stop_lem_example :
    ((stop idle).state_callbacks ≡ [])
    × ((stop idle).method_callbacks ≡ [])
    × ((stop idle).open_requests ≡ [])
    × ((stop idle).stopped ≡ true)
    × ((stop idle).socket ≡ wire [])
    × ((stop idle).trace
        ≡ Effect.response_called 1 (cancelled 7)
          ∷ Effect.fetch_called (some 9) Json.nil minus_one
          ∷ [])
stop_lem_example = stop_lem idle

resume_restores_example : resume idle ≡ (ok true, send_in_order (greeting idle) (connected idle))
unfolding int_to_string request_doc add_path_information
resume_restores_example =
    resume_restores (reliable known) idle refl (omega arith, (omega arith, tt))

-- Nobody listens.
abbrev alone : World
alone = home true (record { connects = false; piece = 0; held = [] })

-- The reader has the whole of a response whose id is a text.
abbrev poisoned : World
poisoned =
    let bytes = toy.write bad_response in
    record (home true (wire (frame note3))) {
      length_buffer = to_big_endian (length bytes);
      data_size = length bytes;
      data_buffer = bytes;
    }

exception_breaks_stream_example :
    let u =
      (receive_callback bad_response (record poisoned {
        data_size = poisoned.data_size + 1;
        trace = Effect.dispatched bad_response ∷ [];
      })).1 in
    (receive_step poisoned ≡ Step.thrown json_error u)
    × ((bytes : List ℕ) (s : Wire)
        → toy.receive u.socket 1 ≡ (Reply.got bytes, s)
        → receive_step u
          ≡ Step.again (record u { socket = s; data_buffer = poisoned.data_buffer ++ bytes }))
unfolding receive_callback to_big_endian int_to_string
exception_breaks_stream_example =
    exception_breaks_stream poisoned bad_response json_error refl refl refl
      (ap (λ r. r.0) (response_throws bad_response Json.nil (Json.text "x") _ refl refl refl refl))
