-- ===== src/Simulation/StandIn.antt =====
-- The simulated library stands in for PeerAsync: the same calls give the same results, and every
-- response callback is called.
use mathlib.Core.List.{reverse, reverse-append}
use jetpeer_cpp.Base.{
  append_assoc, append-nil, string_eq, int_eq, arith, ℕ, ℤ, pos, Option, none, some, List, [], ◌∷◌,
  ◌++◌, ◌≡◌, ◌∙◌, ap, sym, refl,
}
use jetpeer_cpp.Platform.{Platform, Value}
use jetpeer_cpp.Defines.Failure.{Outcome, ok, raised}
use jetpeer_cpp.Defines.Rpc
use jetpeer_cpp.Peer.Methods.{UserCb}
use jetpeer_cpp.Peer.State.{World, M, continue, pure, ◌>>=◌}
use jetpeer_cpp.Simulation.{send_result, Simulated, Call, perform, perform_all}
use jetpeer_cpp.Simulation.Steps.{real, Alike, step-Alike}

module _ ⦃P : Platform⦄ where
  open P use {null, set, of_int}

  -- The calls one after the other; an exception ends them.
  abbrev pub real_all : List Call → M (List (Option ℤ))
  real_all [] = pure []
  real_all (c ∷ rest) = do x ← real c; xs ← real_all rest; pure (x ∷ xs)

  continue-Alike :
      {A B : Type 0} (r : Outcome A) (w : World) (a : A) (f : A → M B) (b : B × Simulated)
      → r ≡ ok a
      → Alike (f a w) b
      → Alike (continue r f w) b
  continue-Alike (ok x) w a f b e h = let xa : x ≡ a = cc in rw xa h
  continue-Alike (raised x) w a f b e h = ground (arith, e)

  all-Alike :
      (cs : List Call) (w : World) (s : Simulated)
      → w.sfetch_id ≡ s.sfetch_id
      → Alike (real_all cs w) (perform_all cs s)
  unfolding perform_all
  all-Alike [] w s same = (refl, same)
  all-Alike (c ∷ rest) w s same =
      let (e, same1) = step-Alike c w s same in
      let (es, same2) = all-Alike rest (real c w).1 (perform c s).1 same1 in
      let a = (perform c s).0 in
      let rest_ids = (perform_all rest (perform c s).1).0 in
      continue-Alike (real c w).0 (real c w).1 a (λ x. real_all rest >>= λ xs. pure (x ∷ xs))
        (a ∷ rest_ids, (perform_all rest (perform c s).1).1) e
        (continue-Alike (real_all rest (real c w).1).0 (real_all rest (real c w).1).1 rest_ids
          (λ xs. pure (a ∷ xs)) (a ∷ rest_ids, (perform_all rest (perform c s).1).1) es
          (refl, same2))

  -- The response callback of a call.
  abbrev pub cb_of : Call → UserCb
  cb_of (Call.config name debug cb) = cb
  cb_of (Call.call_method path args cb) = cb
  cb_of (Call.add_method path t cb callback) = cb
  cb_of (Call.remove_method path cb) = cb
  cb_of (Call.add_state path v t cb callback) = cb
  cb_of (Call.remove_state path cb) = cb
  cb_of (Call.set_state_value path v cb) = cb
  cb_of (Call.get match cb) = cb
  cb_of (Call.add_fetch match callback cb) = cb
  cb_of (Call.restore match id) = none
  cb_of (Call.remove_fetch id cb) = cb

  -- It is called with {"result": 1}.
  abbrev pub answered : UserCb → List (ℕ × Value)
  answered none = []
  answered (some u) = (u, set null Rpc.result (of_int (pos 1))) ∷ []

  -- The answers to these calls, in their order.
  abbrev pub answers_to : List Call → List (ℕ × Value)
  answers_to [] = []
  answers_to (c ∷ rest) = answered (cb_of c) ++ answers_to rest

  answers-send_result :
      (cb : UserCb) (s : Simulated)
      → reverse (send_result cb s).answers ≡ reverse s.answers ++ answered cb
  unfolding send_result
  answers-send_result none s = sym (append-nil (reverse s.answers))
  answers-send_result (some u) s =
      reverse-append ((u, set null Rpc.result (of_int (pos 1))) ∷ []) s.answers

  answers-perform :
      (c : Call) (s : Simulated)
      → reverse (perform c s).1.answers ≡ reverse s.answers ++ answered (cb_of c)
  unfolding perform
  answers-perform (Call.config name debug cb) s = answers-send_result cb s
  answers-perform (Call.call_method path args cb) s = answers-send_result cb s
  answers-perform (Call.add_method path t cb callback) s = answers-send_result cb s
  answers-perform (Call.remove_method path cb) s = answers-send_result cb s
  answers-perform (Call.add_state path v t cb callback) s = answers-send_result cb s
  answers-perform (Call.remove_state path cb) s = answers-send_result cb s
  answers-perform (Call.set_state_value path v cb) s = answers-send_result cb s
  answers-perform (Call.get match cb) s = answers-send_result cb s
  answers-perform (Call.add_fetch match callback cb) s = answers-send_result cb s
  answers-perform (Call.restore match id) s = sym (append-nil (reverse s.answers))
  answers-perform (Call.remove_fetch id cb) s = answers-send_result cb s

  all_succeed :
      (cs : List Call) (s : Simulated)
      → reverse (perform_all cs s).1.answers ≡ reverse s.answers ++ answers_to cs
  unfolding perform_all
  all_succeed [] s = sym (append-nil (reverse s.answers))
  all_succeed (c ∷ rest) s =
      all_succeed rest (perform c s).1
      ∙ ap (λ l. l ++ answers_to rest) (answers-perform c s)
      ∙ append_assoc (reverse s.answers) (answered (cb_of c)) (answers_to rest)

  -- In any sequence of calls, in whatever order, the simulated library does what the one who calls
  -- can rely on: `addFetchAsync` returns the id that the real peer returns, if both start with the
  -- same fetch id, and the real peer does not throw in any of the calls; and the simulated library
  -- calls the response callback of each call that has one, once, in the order of the calls, with the
  -- response {"result": 1}, and calls no other. `restoreFetch` has none.
  pub stands_in :
      (cs : List Call) (w : World) (s : Simulated)
      → w.sfetch_id ≡ s.sfetch_id
      → let (results, s') = perform_all cs s in
        ((real_all cs w).0 ≡ ok results) × (reverse s'.answers ≡ reverse s.answers ++ answers_to cs)
  stands_in cs w s same = ((all-Alike cs w s same).0, all_succeed cs s)
