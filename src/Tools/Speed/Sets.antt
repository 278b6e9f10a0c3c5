-- ===== src/Tools/Speed/Sets.antt =====
-- tool/measureSpeed.cpp: measureSetNotify, up to the destructor of its peer.
use jetpeer_cpp.Base.{
  ℕ, zero, suc, ℤ, pos, String, none, some, false, ◌≡◌, ◌∙◌, ap, sym, refl, arith, inl, inr,
  next_uint32, minus_one, nat_eq,
}
use jetpeer_cpp.Platform.{Platform, Value, Socket}
use jetpeer_cpp.Platform.Laws.{JsonLaws, IntLaws}
use jetpeer_cpp.Defines.{SetStateResult, no_warning}
use jetpeer_cpp.Defines.Failure.{Outcome, ok, raised}
use jetpeer_cpp.Defines.Rpc
use jetpeer_cpp.Peer.Dispatch.{state_result}
use jetpeer_cpp.Peer.Lifecycle.{construct}
use jetpeer_cpp.Peer.Methods.{add_state_async}
use jetpeer_cpp.Peer.Request.{execute}
use jetpeer_cpp.Peer.Request.Sending.{execute_cases, execute-Opens}
use jetpeer_cpp.Peer.Send.{notify_state, send_message, change_message, caught_all}
use jetpeer_cpp.Peer.State.{World, ResponseCb}
use jetpeer_cpp.Peer.Sync.{
  Ending, Loop, set_state_value, scoped, execute_sync, get_future, with_result, promised, checked,
  warning_of,
}
use jetpeer_cpp.Peer.Sync.Sets.{set_state_value_relays}
use jetpeer_cpp.Peer.Sync.Waits.{receiving}
use jetpeer_cpp.Tools.Speed.{state_path, state_cb, notify_cycles}
use jetpeer_cpp.Tools.Speed.Balance.{add_turn}
use jetpeer_cpp.Tools.Speed.Fetches.{tried, fetching}

module _ ⦃P : Platform⦄ where
  open P use {null, set, of_uint, of_string}

  abbrev next_cycle : (World → Ending (Unit {0})) → Ending SetStateResult → Ending (Unit {0})
  next_cycle rest (Ending.done (ok _, w)) = rest w
  next_cycle rest (Ending.done (raised e, w)) = Ending.done (raised e, w)
  next_cycle rest (Ending.waits w) = Ending.waits w
  next_cycle rest (Ending.terminated w) = Ending.terminated w

  -- The loop that sets the state; the number of the cycle also names the promise of its request.
  unfoldable pub set_cycles : Loop → ℕ → ℕ → World → Ending (Unit {0})
  set_cycles loop zero cycle w = Ending.done (ok tt, w)
  set_cycles loop (suc rest) cycle w =
      next_cycle (set_cycles loop rest (suc cycle))
        (set_state_value cycle loop state_path (of_uint cycle) none w)

  abbrev pub tried_ending : Ending (Unit {0}) → Ending (Unit {0})
  tried_ending (Ending.done r) = Ending.done (tried r)
  tried_ending (Ending.waits w) = Ending.waits w
  tried_ending (Ending.terminated w) = Ending.terminated w

  unfoldable pub measure_set_notify : Loop → ℕ → Socket → String → ℕ → World → Ending (Unit {0})
  measure_set_notify loop cycles socket address port w =
      fetching
        (λ w0.
          fetching
            (λ w1.
              fetching (λ w2. tried_ending (set_cycles loop cycles 0 w2))
                (tried (notify_cycles cycles 0 w1)))
            (tried (add_state_async state_path null none none (some state_cb) w0)))
        (construct socket address port "" false w)

  -- The event loop receives what the callback of the state gives for the last request of the peer.
  abbrev pub acknowledging : Loop
  acknowledging u = receiving (set (state_result no_warning) Rpc.id (of_uint u.sid)) u

  sid-execute :
      (doc : Value) (cb : ResponseCb) (w : World)
      → (execute doc (some cb) w).1.sid ≡ next_uint32 w.sid
  sid-execute doc cb w = elim (execute_cases doc cb w) [
    | inl (_, e) ↦ rw e refl
    | inr (_, _, _, _, e) ↦ rw e refl
  ]

  caught_all-ok :
      (r : Outcome (Unit {0}) × World) (w : World) → (z : ℤ) × ((caught_all (λ _. r) w).0 ≡ ok z)
  caught_all-ok (ok _, u) w = (pos 0, refl)
  caught_all-ok (raised e, u) w = (minus_one, refl)

  notify_state-ok :
      (path : String) (value : Value) (w : World) → (z : ℤ) × ((notify_state path value w).0 ≡ ok z)
  unfolding notify_state
  notify_state-ok path value w = caught_all-ok (send_message (change_message path value) w) w

  notify_cycles-ends : (n cycle : ℕ) (w : World) → (notify_cycles n cycle w).0 ≡ ok tt
  unfolding notify_cycles
  notify_cycles-ends zero cycle w = refl
  notify_cycles-ends (suc n) cycle w =
      rw (notify_state-ok state_path (of_uint cycle) w).1 (notify_cycles-ends n (suc cycle) _)

  -- It gives the same as an event loop that receives the response with the id of this request.
  pub acknowledging_lem :
      {A : Type 0} (p : ℕ) (doc : Value) (k : Value → World → Ending A) (w : World)
      → execute_sync p acknowledging doc k w
        ≡ execute_sync p
            (receiving (set (state_result no_warning) Rpc.id (of_uint (next_uint32 w.sid))))
            doc
            k
            w
  acknowledging_lem p doc k w =
      let id = next_uint32 w.sid in
      let cb = ResponseCb.fulfils p in
      let after = (execute doc (some cb) w).1 in
      let began = (execute-Opens doc cb w).0 in
      let v = set (state_result no_warning) Rpc.id (of_uint id) in
      ap (λ r. scoped id (get_future p acknowledging k (r, after))) began
      ∙ ap
          (λ n.
            let u = receiving (set (state_result no_warning) Rpc.id (of_uint n)) after in
            scoped id (with_result p k (promised p u.trace) u))
          (sid-execute doc cb w)
      ∙ sym (ap (λ r. scoped id (get_future p (receiving v) k (r, after))) began)

  module _ (laws : JsonLaws) (ints : IntLaws) where
    -- One turn of the loop that sets the state.
    set_turn :
        (p : ℕ) (value : Value) (w : World)
        → (u : World) × (set_state_value p acknowledging state_path value none w
            ≡ Ending.done (ok no_warning, u))
    unfolding set_state_value
    set_turn p value w =
        let (u, ended, _) =
          set_state_value_relays laws ints p state_path value none
            (ok (record { value = null; result = no_warning })) w (omega arith) in
        (u, acknowledging_lem p _ (checked warning_of) w ∙ ended)

    set_cycles-ends :
        (n cycle : ℕ) (w : World)
        → (u : World) × (set_cycles acknowledging n cycle w ≡ Ending.done (ok tt, u))
    unfolding set_cycles
    set_cycles-ends zero cycle w = (w, refl)
    set_cycles-ends (suc n) cycle w =
        let (u, turn) = set_turn cycle (of_uint cycle) w in
        let (end, rest) = set_cycles-ends n (suc cycle) u in
        (end, ap (next_cycle (set_cycles acknowledging n (suc cycle))) turn ∙ rest)

    -- If the peer of measureSetNotify can be constructed, and the event loop gives each request
    -- to set its state the response that its own callback makes, measureSetNotify comes to its
    -- end: no call waits for ever, and no exception leaves it, whether its other messages can be
    -- sent or not. jsoncpp must keep its laws.
    pub measure_set_notify_ends :
        (cycles : ℕ) (socket : Socket) (address : String) (port : ℕ) (w : World)
        → (construct socket address port "" false w).0 ≡ ok tt
        → (u : World) × (measure_set_notify acknowledging cycles socket address port w
            ≡ Ending.done (ok tt, u))
    unfolding measure_set_notify
    measure_set_notify_ends cycles socket address port w made =
        let w0 = (construct socket address port "" false w).1 in
        let w1 = (add_state_async state_path null none none (some state_cb) w0).1 in
        let w2 = (notify_cycles cycles 0 w1).1 in
        let (u, ended) = set_cycles-ends cycles 0 w2 in
        (
          u,
          rw
              (
                made,
                (add_turn state_path null (some state_cb) w0).0,
                notify_cycles-ends cycles 0 w1,
                ended,
              )
              refl,
        )
