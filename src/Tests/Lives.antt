-- ===== src/Tests/Lives.antt =====
-- The theorems on the life of a peer, applied.
use jetpeer_cpp.Base.{
  All, nat_eq, minus_one, none, some, true, [], ◌∷◌, ◌++◌, ◌+◌, ◌≤◌, ◌≡◌, List, refl, arith,
}
use jetpeer_cpp.Base.Table.{find}
use jetpeer_cpp.Defines.Errors.{with_detail}
use jetpeer_cpp.Defines.Failure.{Failure, raised}
use jetpeer_cpp.Peer.Lifecycle.{stop}
use jetpeer_cpp.Peer.Runs.{Event, executes, receives, stops, run, asked}
use jetpeer_cpp.Peer.Runs.Answers.{never_called_twice, all_answered_at_stop}
use jetpeer_cpp.Peer.Runs.Balance.{IsFresh}
use jetpeer_cpp.Peer.Receive.Stream.{stream}
use jetpeer_cpp.Peer.Runs.Frames.{Fits, run_frames}
use jetpeer_cpp.Peer.Runs.Written.{written}
use jetpeer_cpp.Peer.Runs.Cuts.{cuts}
use jetpeer_cpp.Peer.Dispatch.{receive_callback, handle_message}
use jetpeer_cpp.Peer.Request.{handle_result, execute, call_response}
use jetpeer_cpp.Peer.Send.{send_message}
use jetpeer_cpp.Base.Table.{put, erase}
use jetpeer_cpp.Base.{to_string, int_to_string}
use jetpeer_cpp.Peer.Runs.Counting.{calls, owed}
use jetpeer_cpp.Peer.State.{World, ResponseCb}
use jetpeer_cpp.Peer.Sync.{Ending, call_method}
use jetpeer_cpp.Peer.Sync.Stops.{call_method_cancelled}
use jetpeer_cpp.Tests.Data.{toy, known, idle, response7, call_blink}
use jetpeer_cpp.Tests.Toy.{Json}
use jetpeer_cpp.Tests.Toy.Holds.{json_laws}

abbrev life : List Event
life = receives response7 ∷ executes call_blink (some (ResponseCb.user 1)) ∷ receives response7 ∷ []

idle-IsFresh : IsFresh idle
unfolding find
idle-IsFresh = record { unique = (refl, tt); below = (omega arith, tt) }

never_called_twice_example :
    calls 1 (run life idle).trace ≤ calls 1 idle.trace + owed 1 idle.open_requests + asked 1 life
never_called_twice_example = never_called_twice 1 life idle idle-IsFresh (omega arith)

all_answered_at_stop_example :
    let w' = run (life ++ stops ∷ []) idle in
    (calls 1 w'.trace ≡ calls 1 idle.trace + owed 1 idle.open_requests + asked 1 life)
    × (w'.open_requests ≡ [])
all_answered_at_stop_example = all_answered_at_stop 1 life idle idle-IsFresh (omega arith)

call_method_cancelled_example :
    (u : World) × (call_method 2 stop "blink" Json.nil none idle
      ≡ Ending.done (
        raised (
            Failure.jsoncpprpc_exception
              (with_detail minus_one "jet request has been canceled without response!" Json.nil)),
        u,
      ))
    × (u.open_requests ≡ [])
call_method_cancelled_example =
    call_method_cancelled (json_laws true known) 2 "blink" Json.nil none idle (tt, tt)

run_frames_example :
    (msgs : List Json) × All Fits msgs
    × (written (run life idle).trace ≡ written idle.trace ++ stream msgs)
unfolding run receive_callback handle_message handle_result cuts find execute send_message to_string
    call_response int_to_string put erase
run_frames_example = run_frames life idle refl
