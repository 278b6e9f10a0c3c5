-- ===== src/Peer/Sync/Stops.antt =====
-- A synchronous call that waits while the peer is stopped.
use mathlib.Core.List.{reverse}
use mathlib.Core.Path.{subst}
use jetpeer_cpp.Base.{
  ℕ, String, Option, none, some, List, [], ◌∷◌, ◌++◌, ◌≡◌, ◌≢◌, ◌⊎◌, inl, inr, ◌∙◌, ap, sym, refl,
  arith, ◌==◌, nat_eq, if◌then◌else◌, if-cases, next_uint32, minus_one,
}
use jetpeer_cpp.Base.Table.{Table, put, erase, find-put_self}
use jetpeer_cpp.Base.Table.Unique.{put-put}
use jetpeer_cpp.Platform.{Platform, Value, Double}
use jetpeer_cpp.Platform.Laws.{JsonLaws}
use jetpeer_cpp.Defines.Errors.{with_detail}
use jetpeer_cpp.Defines.Verb
use jetpeer_cpp.Peer.Dispatch.Returns.{of_response-error_response, is_member-error_response}
use jetpeer_cpp.Peer.Methods.{call_params, timeout_params}
use jetpeer_cpp.Defines.Failure.{Failure, raised}
use jetpeer_cpp.Peer.Lifecycle.{stop}
use jetpeer_cpp.Peer.Lifecycle.Stop.{stop_lem}
use jetpeer_cpp.Peer.Request.{request_doc, execute, cancelled, callback_of}
use jetpeer_cpp.Peer.Request.Responses.{seen_all, cancellations, reverse-cancellations}
use jetpeer_cpp.Peer.Request.Sending.{execute_cases, execute-Opens}
use jetpeer_cpp.Peer.State.{World, Request, ResponseCb, Effect}
use jetpeer_cpp.Peer.Sync.{
  Ending, promised, scoped, with_result, get_future, execute_sync, call_method, checked, result_of,
  throw_response, throw_read,
}

module _ ⦃P : Platform⦄ (p : ℕ) where
  -- The callback does not set the promise p.
  abbrev pub IsElse : Option ResponseCb → Type 0
  IsElse (some (ResponseCb.fulfils q)) = q ≢ p
  IsElse _ = Unit

  abbrev pub AllElse : Table ℕ Request → Type 0
  AllElse [] = Unit
  AllElse ((k, r) ∷ t) = IsElse r.response_callback × AllElse t

  -- The entry under this id sets the promise p, and no other does.
  abbrev pub Awaits : ℕ → Table ℕ Request → Type 0
  Awaits id [] = ⊥
  Awaits id ((k, r) ∷ t) =
      ((k ≡ id) × (r.response_callback ≡ some (ResponseCb.fulfils p)) × AllElse t)
      ⊎ (IsElse r.response_callback × Awaits id t)

  put-Awaits :
      (id : ℕ) (r : Request) (t : Table ℕ Request)
      → AllElse t
      → r.response_callback ≡ some (ResponseCb.fulfils p)
      → Awaits id (put id r t)
  unfolding put
  put-Awaits id r [] others sets = inl (refl, sets, tt)
  put-Awaits id r ((k, q) ∷ t) (other, others) sets =
      if-cases (Awaits id) (k == id) (λ _. inl (refl, sets, others))
        (λ _. inr (other, put-Awaits id r t others sets))

  promised-other :
      (cb : Option ResponseCb) (v : Value) (s : List Effect)
      → IsElse cb
      → promised p (seen_all cb v ++ s) ≡ promised p s
  unfolding promised
  promised-other none v s other = refl
  promised-other (some (ResponseCb.user u)) v s other = refl
  promised-other (some (ResponseCb.method_added path u)) v s other = refl
  promised-other (some (ResponseCb.state_added path u)) v s other = refl
  promised-other (some (ResponseCb.fetch_added id u)) v s other = refl
  promised-other (some (ResponseCb.fulfils q)) v s other = ground (arith, other)

  promised-others :
      (t : Table ℕ Request) (s : List Effect)
      → AllElse t
      → promised p (reverse (cancellations t) ++ s) ≡ promised p s
  promised-others [] s others = refl
  promised-others ((id, r) ∷ t) s (other, others) =
      ap (promised p) (reverse-cancellations id r t s)
      ∙ promised-others t _ others
      ∙ promised-other r.response_callback (cancelled id) s other

  promised-cancellations :
      (id : ℕ) (t : Table ℕ Request) (s : List Effect)
      → Awaits id t
      → promised p (reverse (cancellations t) ++ s) ≡ some (cancelled id)
  unfolding promised
  promised-cancellations id [] s waits = absurd waits
  promised-cancellations id ((k, r) ∷ t) s (inl (here, sets, others)) =
      ap (promised p) (reverse-cancellations k r t s)
      ∙ promised-others t _ others
      ∙ rw (sets, here) (ground (arith, nat_eq.equals_iff p p))
  promised-cancellations id ((k, r) ∷ t) s (inr (other, waits)) =
      ap (promised p) (reverse-cancellations k r t s) ∙ promised-cancellations id t _ waits

  module _ (doc : Value) (w : World) (others : AllElse w.open_requests) where
    -- The state in which the caller begins to wait.
    abbrev pub waiting : World
    waiting = (execute doc (some (ResponseCb.fulfils p)) w).1

    Awaits-in :
        (r : Request)
        → r.response_callback ≡ some (ResponseCb.fulfils p)
        → waiting.open_requests ≡ put (next_uint32 w.sid) r w.open_requests
        → Awaits (next_uint32 w.sid) waiting.open_requests
    Awaits-in r sets e =
        let id = next_uint32 w.sid in
        subst (λ t. Awaits id t) (sym e) (put-Awaits id r w.open_requests others sets)

    waiting-Awaits : Awaits (next_uint32 w.sid) waiting.open_requests
    waiting-Awaits =
        let id = next_uint32 w.sid in
        let cb = ResponseCb.fulfils p in
        elim (execute_cases doc cb w) [
          | inl (_, e) ↦ Awaits-in _ refl (ap (λ x. x.1.open_requests) e)
          | inr (message, s, n, _, e) ↦
              Awaits-in _ (ap callback_of (find-put_self id _ w.open_requests))
                (ap (λ x. x.1.open_requests) e ∙ put-put id _ _ w.open_requests)
        ]

    -- A caller that waits for its response is woken when the peer is stopped: the method goes on with
    -- the error that `clear` makes for its request. No other open request may set its promise.
    pub stop_wakes :
        {A : Type 0} (k : Value → World → Ending A)
        → execute_sync p stop doc k w
          ≡ scoped (next_uint32 w.sid) (k (cancelled (next_uint32 w.sid)) (stop waiting))
    stop_wakes k =
        let id = next_uint32 w.sid in
        let shown = (stop_lem waiting).5 in
        ap (λ r. scoped id (get_future p stop k (r, waiting)))
          (execute-Opens doc (ResponseCb.fulfils p) w).0
        ∙ ap (λ o. scoped id (with_result p k o (stop waiting)))
            (ap (promised p) shown
              ∙ promised-cancellations id waiting.open_requests _ waiting-Awaits)

module _ ⦃P : Platform⦄ (laws : JsonLaws) where
  open P use {null}

  -- A synchronous `callMethod` that waits while the peer is stopped does not wait for ever: it throws
  -- the error that the request has been cancelled, and leaves no request open. No other open request
  -- may set its promise.
  pub call_method_cancelled :
      (p : ℕ) (path : String) (args : Value) (timeout_s : Option Double) (w : World)
      → AllElse p w.open_requests
      → (u : World) × (call_method p stop path args timeout_s w
          ≡ Ending.done (
            raised (
                Failure.jsoncpprpc_exception
                  (with_detail minus_one "jet request has been canceled without response!" null)),
            u,
          ))
        × (u.open_requests ≡ [])
  unfolding call_method erase
  call_method_cancelled p path args timeout_s w others =
      let id = next_uint32 w.sid in
      let doc = request_doc Verb.call (call_params path args (timeout_params timeout_s)) in
      let text : String = "jet request has been canceled without response!" in
      let u = stop (waiting p doc w others) in
      (
        record u { open_requests = erase id u.open_requests },
        stop_wakes p doc w others (checked result_of)
            ∙ ap
                (λ b. scoped id (
                  if b
                  then throw_response (cancelled id) u
                  else Ending.done (result_of (cancelled id) u)))
                (is_member-error_response laws minus_one text id)
            ∙ ap (λ o. scoped id (throw_read o u))
                (of_response-error_response laws minus_one text id),
        ap (erase id) (stop_lem (waiting p doc w others)).2,
      )
