-- ===== src/Simulation/Steps.antt =====
-- One call of the simulated library and of PeerAsync: the same result, and the same next fetch id.
use jetpeer_cpp.Base.{
  next_int32, str_empty, string_eq, int_eq, Bool, true, false, inl, inr, if◌then◌else◌, arith, ℤ,
  Option, none, some, ◌≡◌, ◌∙◌, ap, sym, refl,
}
use jetpeer_cpp.Base.Table.{put, erase}
use jetpeer_cpp.Platform.{Platform, Value}
use jetpeer_cpp.Defines.Failure.{Outcome, ok, raised}
use jetpeer_cpp.Peer.Methods as Peer
use jetpeer_cpp.Peer.Methods.{
  UserCb, to_response, execute_wrapped, method_wrapper, state_wrapper, fetch_wrapper,
}
use jetpeer_cpp.Peer.Registry.{
  register_fetch, register_method, register_state, unregister_fetch, unregister_method,
  unregister_state, create_fetch_id,
}
use jetpeer_cpp.Peer.Request.{execute, execute_no_response}
use jetpeer_cpp.Peer.Send.Results.{send_message_cases}
use jetpeer_cpp.Peer.Request.Sending.{execute_cases}
use jetpeer_cpp.Peer.State.{World, ResponseCb, M, continue, pure}
use jetpeer_cpp.Simulation.{send_result, Simulated, Call, perform}

module _ ⦃P : Platform⦄ where
  open P use {write, send_blocks}

  -- A call that returns nothing, and one that returns an id.
  abbrev given : Outcome ℤ × World → Outcome (Option ℤ) × World
  given (ok id, w) = (ok (some id), w)
  given (raised e, w) = (raised e, w)

  abbrev given_by : M ℤ → M (Option ℤ)
  given_by m w = given (m w)

  abbrev settled : Outcome (Unit {0}) × World → Outcome (Option ℤ) × World
  settled (ok _, w) = (ok none, w)
  settled (raised e, w) = (raised e, w)

  abbrev done : M (Unit {0}) → M (Option ℤ)
  done m w = settled (m w)

  -- The same call of the real peer.
  abbrev pub real : Call → M (Option ℤ)
  real (Call.config name debug cb) = done (Peer.config_async name debug cb)
  real (Call.call_method path args cb) = done (Peer.call_method_async path args none cb)
  real (Call.add_method path t cb callback) = done (Peer.add_method_async path t cb callback)
  real (Call.remove_method path cb) = done (Peer.remove_method_async path cb)
  real (Call.add_state path v t cb callback) = done (Peer.add_state_async path v t cb callback)
  real (Call.remove_state path cb) = done (Peer.remove_state_async path cb)
  real (Call.set_state_value path v cb) = done (Peer.set_state_value_async path v none cb)
  real (Call.get match cb) = done (Peer.get_async match cb)
  real (Call.add_fetch match callback cb) = given_by (Peer.add_fetch_async match callback cb)
  real (Call.restore match id) = done (Peer.restore_fetch match id)
  real (Call.remove_fetch id cb) = done (Peer.remove_fetch_async id cb)

  -- An operation that does not throw, and makes no fetch id.
  record Plain (w : World) (r : Outcome (Unit {0}) × World) : Type 0 where
    succeeds : r.0 ≡ ok tt
    same_id : r.1.sfetch_id ≡ w.sfetch_id

  execute-Plain : (doc : Value) (cb : Option ResponseCb) (w : World) → Plain w (execute doc cb w)
  unfolding execute
  execute-Plain doc none w = elim (send_message_cases doc w) [
    | inl e ↦ rw e (record { succeeds = refl; same_id = refl })
    | inr (_, _, _, e) ↦ rw e (record { succeeds = refl; same_id = refl })
  ]
  execute-Plain doc (some cb) w = elim (execute_cases doc cb w) [
    | inl (_, e) ↦ rw e (record { succeeds = refl; same_id = refl })
    | inr (_, _, _, _, e) ↦ rw e (record { succeeds = refl; same_id = refl })
  ]

  execute_no_response-Plain : (doc : Value) (w : World) → Plain w (execute_no_response doc w)
  unfolding execute_no_response
  execute_no_response-Plain doc w = elim (send_message_cases doc w) [
    | inl e ↦ rw e (record { succeeds = refl; same_id = refl })
    | inr (_, _, _, e) ↦ rw e (record { succeeds = refl; same_id = refl })
  ]

  execute_wrapped-Plain :
      (doc : Value) (cb : Option ResponseCb) (w : World) → Plain w (execute_wrapped doc cb w)
  execute_wrapped-Plain doc none w = execute_no_response-Plain doc w
  execute_wrapped-Plain doc (some cb) w = execute-Plain doc (some cb) w

  Plain-if :
      (t : Bool) (m k : M (Unit {0})) (w : World)
      → Plain w (m w)
      → Plain w (k w)
      → Plain w ((if t then m else k) w)
  Plain-if true m k w p q = p
  Plain-if false m k w p q = q

  send_result-id : (cb : UserCb) (s : Simulated) → (send_result cb s).sfetch_id ≡ s.sfetch_id
  unfolding send_result
  send_result-id none s = refl
  send_result-id (some u) s = refl

  -- The two libraries give the same result, and are then at the same fetch id.
  abbrev pub Alike : {A : Type 0} → Outcome A × World → A × Simulated → Type 0
  Alike (r, w) (a, s) = (r ≡ ok a) × (w.sfetch_id ≡ s.sfetch_id)

  settled-Alike :
      (r : Outcome (Unit {0}) × World) (cb : UserCb) (w : World) (s : Simulated)
      → w.sfetch_id ≡ s.sfetch_id
      → Plain w r
      → Alike (settled r) (none, send_result cb s)
  settled-Alike (ok _, u) cb w s same p = (refl, p.same_id ∙ same ∙ sym (send_result-id cb s))
  settled-Alike (raised e, u) cb w s same p = ground (arith, p.succeeds)

  given-Alike :
      (r : Outcome (Unit {0}) × World) (cb : UserCb) (w : World) (s : Simulated)
      → w.sfetch_id ≡ next_int32 s.sfetch_id
      → Plain w r
      → let id = next_int32 (send_result cb s).sfetch_id in
        Alike
          (given (continue r.0 (λ _. pure w.sfetch_id) r.1))
          (some id, record (send_result cb s) { sfetch_id = id })
  given-Alike (ok _, u) cb w s same p =
      let e = same ∙ ap next_int32 (sym (send_result-id cb s)) in
      (ap (λ i. ok (some i)) e, p.same_id ∙ e)
  given-Alike (raised e, u) cb w s same p = ground (arith, p.succeeds)

  pub step-Alike :
      (c : Call) (w : World) (s : Simulated)
      → w.sfetch_id ≡ s.sfetch_id
      → Alike (real c w) (perform c s)
  unfolding perform Peer.config_async Peer.call_method_async Peer.set_state_value_async
      Peer.get_async Peer.add_method_async Peer.add_method_async_private register_method
      Peer.remove_method_async unregister_method Peer.add_state_async Peer.add_state_async_private
      register_state Peer.remove_state_async unregister_state Peer.add_fetch_async register_fetch
      create_fetch_id Peer.restore_fetch Peer.remove_fetch_async unregister_fetch send_result
  step-Alike (Call.config name debug cb) w s same =
      settled-Alike _ cb w s same (execute-Plain _ (to_response cb) w)
  step-Alike (Call.call_method path args cb) w s same =
      settled-Alike _ cb w s same (execute-Plain _ (to_response cb) w)
  step-Alike (Call.set_state_value path v cb) w s same =
      settled-Alike _ cb w s same (execute-Plain _ (to_response cb) w)
  step-Alike (Call.get match cb) w s same =
      settled-Alike _ cb w s same (execute-Plain _ (to_response cb) w)
  step-Alike (Call.add_method path t cb callback) w s same =
      let w1 = record w { method_callbacks = put path callback w.method_callbacks } in
      settled-Alike _ cb w1 s same (execute_wrapped-Plain _ (method_wrapper path cb) w1)
  step-Alike (Call.remove_method path cb) w s same = settled-Alike _ cb w s same (
      Plain-if (str_empty path) _ _ w (record { succeeds = refl; same_id = refl })
        (let p =
            execute-Plain _ (to_response cb)
              (record w { method_callbacks = erase path w.method_callbacks }) in
          record { succeeds = p.succeeds; same_id = p.same_id }))
  step-Alike (Call.add_state path v t cb callback) w s same =
      let w1 = record w { state_callbacks = put path callback w.state_callbacks } in
      settled-Alike _ cb w1 s same (execute_wrapped-Plain _ (state_wrapper path cb) w1)
  step-Alike (Call.remove_state path cb) w s same = settled-Alike _ cb w s same (
      Plain-if (str_empty path) _ _ w (record { succeeds = refl; same_id = refl })
        (let p =
            execute-Plain _ (to_response cb)
              (record w { state_callbacks = erase path w.state_callbacks }) in
          record { succeeds = p.succeeds; same_id = p.same_id }))
  step-Alike (Call.add_fetch match callback cb) w s same =
      let id = next_int32 w.sfetch_id in
      let w1 = record w {
        sfetch_id = id;
        fetchers = put id (record { callback = callback; matcher = match }) w.fetchers;
      } in
      given-Alike _ cb w1 s (ap next_int32 same)
        (execute_wrapped-Plain (Peer.fetch_doc id match) (fetch_wrapper id cb) w1)
  step-Alike (Call.restore match id) w s same =
      settled-Alike _ none w s same (execute-Plain (Peer.fetch_doc id match) none w)
  step-Alike (Call.remove_fetch id cb) w s same =
      let w1 = record w { fetchers = erase id w.fetchers } in
      settled-Alike _ cb w1 s same (execute-Plain _ (to_response cb) w1)
