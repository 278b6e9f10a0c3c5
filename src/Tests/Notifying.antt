-- ===== src/Tests/Notifying.antt =====
-- The theorem on the notified values, applied: one value arrives in two pieces.
use jetpeer_cpp.Base.{
  pos, [], ◌∷◌, Option, none, some, true, ◌≡◌, refl, arith, nat_eq, inl, inr, int_to_string,
  to_string, Option-cases, string_eq,
}
use jetpeer_cpp.Base.Table.{find}
use jetpeer_cpp.Defines.Failure.{Outcome, ok, raised}
use jetpeer_cpp.Peer.Dispatch.{
  receive_callback, handle_message, handle_request, handle_state, handle_method, answer,
  state_response, caught_failure, run_state_callback, run_method_callback,
}
use jetpeer_cpp.Peer.Dispatch.Keeps.{dispatched}
use jetpeer_cpp.Peer.Send.{notify_state, send_message}
use jetpeer_cpp.Peer.Runs.Written.{written}
use jetpeer_cpp.Peer.Frame.{frame, to_big_endian}
use jetpeer_cpp.Peer.Receive.Session.{session, Delivers}
use jetpeer_cpp.Peer.Receive.Stream.{IsDeliverable}
use jetpeer_cpp.Peer.State.{World, StateCb, MethodCb, continue}
use jetpeer_cpp.Tests.Arriving.{add_bytes, add_bytes-ArrivalLaws, quiet}
use jetpeer_cpp.Tests.Data.{toy, known, cycle0}
use jetpeer_cpp.Tests.Toy.{Json, take, drop}
use jetpeer_cpp.Tests.Toy.Holds.{socket_laws, steady, reliable}
use jetpeer_cpp.Tools.Speed.{notify_cycles}
use jetpeer_cpp.Tools.Speed.Notifies.{cycles_arrive}

-- It has no id, so that it is not answered, whatever its handling gives.
caught_answered :
    (r : Outcome Json × World)
    → (continue (caught_failure r).0 (λ v. answer cycle0 v) (caught_failure r).1).0 ≡ ok tt
unfolding answer
caught_answered (ok v, w) = refl
caught_answered (raised e, w) = refl

state_quiet : (cb : Option StateCb) (w : World) → (handle_state cycle0 "change" cb w).0 ≡ ok tt
unfolding handle_state state_response answer
state_quiet none w = refl
state_quiet (some cb) w = caught_answered (run_state_callback cb "change" (Json.int (pos 0)) w)

method_quiet : (cb : MethodCb) (w : World) → (handle_method cycle0 "change" cb w).0 ≡ ok tt
unfolding handle_method
method_quiet cb w = caught_answered (run_method_callback cb "change" cycle0 w)

cycle0-quiet : (w : World) → (receive_callback cycle0 w).0 ≡ ok tt
unfolding receive_callback handle_message handle_request
cycle0-quiet w = elim (Option-cases (find "change" w.state_callbacks)) [
  | inl no_state ↦ elim (Option-cases (find "change" w.method_callbacks)) [
    | inl no_method ↦ rw (no_state, no_method) refl
    | inr (cb, found) ↦ rw (no_state, found) (method_quiet cb w)
  ]
  | inr (cb, found) ↦ rw found (state_quiet cb w)
]

cycle0-IsDeliverable : IsDeliverable cycle0
unfolding to_string int_to_string
cycle0-IsDeliverable = record { fits = omega arith; parses = refl; quiet = cycle0-quiet }

cycles_arrive_example :
    ((notify_cycles 1 0 quiet).0 ≡ ok tt)
    × Delivers add_bytes
        (cycle0 ∷ [])
        (session add_bytes 1000 (take 9 (frame cycle0) ∷ drop 9 (frame cycle0) ∷ []) quiet)
unfolding socket_laws frame to_big_endian int_to_string to_string dispatched written notify_cycles
    notify_state send_message
cycles_arrive_example =
    cycles_arrive add_bytes (socket_laws true known) add_bytes-ArrivalLaws (steady true known)
      (reliable known) 1 1000 (take 9 (frame cycle0) ∷ drop 9 (frame cycle0) ∷ []) quiet quiet refl
      (record { no_length = refl; no_size = refl; no_data = refl; no_bytes = refl }) refl refl
      (cycle0-IsDeliverable, tt) (omega arith)
