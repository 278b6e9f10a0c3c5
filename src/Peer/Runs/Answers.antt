-- ===== src/Peer/Runs/Answers.antt =====
-- What the balance of a run says of response callbacks: none is called too often, and none is left.
use jetpeer_cpp.Base.{ℕ, ◌+◌, ◌<◌, ◌≤◌, ◌^◌, List, [], ◌∷◌, ◌++◌, ◌≡◌, ap, refl, arith}
use jetpeer_cpp.Platform.{Platform}
use jetpeer_cpp.Peer.Lifecycle.Stop.{stop_lem}
use jetpeer_cpp.Peer.Runs.{Event, stops, step, run, asked, opened_by}
use jetpeer_cpp.Peer.Runs.Counting.{calls, owed}
use jetpeer_cpp.Peer.Runs.Balance.{IsFresh}
use jetpeer_cpp.Peer.Runs.Steps.{run_balance, stop-Settles}
use jetpeer_cpp.Peer.State.{World}

module _ ⦃P : Platform⦄ where
  run-append : (es fs : List Event) (w : World) → run (es ++ fs) w ≡ run fs (run es w)
  unfolding run
  run-append [] fs w = refl
  run-append (e ∷ es) fs w = run-append es fs (step e w)

  module _ (u : ℕ) (es : List Event) (w : World) (fresh : IsFresh w)
      (room : w.sid + opened_by es < 2 ^ 32) where
    -- Start with open requests that have distinct ids, none above the last id that was given.
    -- Whatever is executed, arrives, is reported and stopped, and in whatever order, a response
    -- callback of the user is never called more often than requests were executed with it, those
    -- counted that were open at the start. The ids of the requests must not wrap.
    pub never_called_twice :
        calls u (run es w).trace ≤ calls u w.trace + owed u w.open_requests + asked u es
    never_called_twice = omega (arith, (run_balance u es w fresh room).0)

    -- Start with open requests that have distinct ids, none above the last id that was given. When
    -- the peer is stopped after any sequence of events, a response callback of the user has been
    -- called just once for each request that was executed with it, those counted that were open at
    -- the start, and no request is open. The ids of the requests must not wrap.
    pub all_answered_at_stop :
        let w' = run (es ++ stops ∷ []) w in
        (calls u w'.trace ≡ calls u w.trace + owed u w.open_requests + asked u es)
        × (w'.open_requests ≡ [])
    unfolding run owed
    all_answered_at_stop =
        let (before, still_fresh) = run_balance u es w fresh room in
        let v = run es w in
        let none_open = (stop_lem v).2 in
        let same = (stop-Settles u v).balanced still_fresh in
        let left = ap (owed u) none_open in
        rw (run-append es (stops ∷ []) w) (omega (arith, before, same, left), none_open)
