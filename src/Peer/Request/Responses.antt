-- ===== src/Peer/Request/Responses.antt =====
-- AsyncRequest::handleResult and AsyncRequest::clear: each open request is answered once.
use mathlib.Core.List.{reverse, reverse-append}
use jetpeer_cpp.Base.{
  ℕ, Option, none, some, List, [], ◌∷◌, ◌++◌, ◌≡◌, ◌≢◌, ◌∙◌, ap, sym, refl, arith, nat_eq, int_eq,
  string_eq, append_assoc, Option-cases, length, inl, inr,
}
use jetpeer_cpp.Base.Table.{Table, find, erase, find-erase_self, find-erase_ne}
use jetpeer_cpp.Platform.{Platform, Value}
use jetpeer_cpp.Defines.Failure.{ok}
use jetpeer_cpp.Defines.Rpc
use jetpeer_cpp.Peer.Request.{
  call_response, call_optional, handle_result, respond, cancel_all, clear, cancelled,
}
use jetpeer_cpp.Peer.State.{World, Request, ResponseCb, Effect}

module _ ⦃P : Platform⦄ where
  open P use {member, as_uint}

  -- What the user, or the waiting thread, sees of a call of a response callback.
  abbrev pub seen : ResponseCb → Value → Effect
  seen (ResponseCb.user u) v = Effect.response_called u v
  seen (ResponseCb.method_added path u) v = Effect.response_called u v
  seen (ResponseCb.state_added path u) v = Effect.response_called u v
  seen (ResponseCb.fetch_added id u) v = Effect.response_called u v
  seen (ResponseCb.fulfils p) v = Effect.promise_set p v

  abbrev pub seen_all : Option ResponseCb → Value → List Effect
  seen_all none v = []
  seen_all (some cb) v = seen cb v ∷ []

  -- A call of a response callback shows itself once, and leaves the table of open requests alone.
  pub call_response_effect :
      (cb : ResponseCb) (v : Value) (w : World)
      → ((call_response cb v w).trace ≡ seen cb v ∷ w.trace)
        × ((call_response cb v w).open_requests ≡ w.open_requests)
  unfolding call_response
  call_response_effect (ResponseCb.user u) v w = (refl, refl)
  call_response_effect (ResponseCb.method_added path u) v w = ground arith
  call_response_effect (ResponseCb.state_added path u) v w = ground arith
  call_response_effect (ResponseCb.fetch_added id u) v w = ground arith
  call_response_effect (ResponseCb.fulfils p) v w = (refl, refl)

  pub call_optional_effect :
      (cb : Option ResponseCb) (v : Value) (w : World)
      → ((call_optional cb v w).trace ≡ seen_all cb v ++ w.trace)
        × ((call_optional cb v w).open_requests ≡ w.open_requests)
  call_optional_effect none v w = (refl, refl)
  call_optional_effect (some cb) v w = call_response_effect cb v w

  module _ (v id_node : Value) (id : ℕ) (has_id : member v Rpc.id ≡ some id_node)
      (is_id : as_uint id_node ≡ some id) where
    handle_result-respond :
        (w : World) → handle_result v w ≡ (ok tt, respond id v (find id w.open_requests) w)
    unfolding handle_result
    handle_result-respond w = rw (has_id, is_id)

    pub handle_result_open :
        (w : World) (r : Request)
        → find id w.open_requests ≡ some r
        → handle_result v w ≡ (
          ok tt,
          call_optional r.response_callback v
              (record w { open_requests = erase id w.open_requests }),
        )
    handle_result_open w r is_open = rw (handle_result-respond, is_open)

    pub handle_result_closed :
        (w : World) → find id w.open_requests ≡ none → handle_result v w ≡ (ok tt, w)
    handle_result_closed w closed = rw (handle_result-respond, closed)

    -- A response with the id of an open request calls the callback of that request once, with the
    -- response, and closes that request and no other.
    pub response_closes_request :
        (w : World) (r : Request)
        → find id w.open_requests ≡ some r
        → let w' = (handle_result v w).1 in
          (w'.trace ≡ seen_all r.response_callback v ++ w.trace)
          × (find id w'.open_requests ≡ none)
          × ((j : ℕ) → id ≢ j → find j w'.open_requests ≡ find j w.open_requests)
    response_closes_request w r is_open =
        let (shown, table) =
          call_optional_effect r.response_callback v
            (record w { open_requests = erase id w.open_requests }) in
        rw (handle_result_open w r is_open) (
          shown,
          ap (find id) table ∙ find-erase_self id w.open_requests,
          λ j ne. ap (find j) table ∙ find-erase_ne id j w.open_requests ne,
        )

    -- A response that comes a second time changes nothing, whether or not its request was open.
    pub response_twice :
        (w : World) → handle_result v (handle_result v w).1 ≡ (ok tt, (handle_result v w).1)
    response_twice w = elim (Option-cases (find id w.open_requests)) [
      | inl closed ↦
          handle_result_closed _
            (ap (λ r. find id r.1.open_requests) (handle_result_closed w closed) ∙ closed)
      | inr (r, is_open) ↦ handle_result_closed _ (response_closes_request w r is_open).1
    ]

module _ ⦃P : Platform⦄ where
  -- What a list of requests shows when each is cancelled in turn, oldest first.
  abbrev pub cancellations : Table ℕ Request → List Effect
  cancellations [] = []
  cancellations ((id, r) ∷ rest) = seen_all r.response_callback (cancelled id) ++ cancellations rest

  reverse-seen_all : (cb : Option ResponseCb) (v : Value) → reverse (seen_all cb v) ≡ seen_all cb v
  reverse-seen_all none v = refl
  reverse-seen_all (some cb) v = refl

  -- The effects of the first request come before those of the rest.
  pub reverse-cancellations :
      (id : ℕ) (r : Request) (rest : Table ℕ Request) (s : List Effect)
      → reverse (cancellations ((id, r) ∷ rest)) ++ s
        ≡ reverse (cancellations rest) ++ (seen_all r.response_callback (cancelled id) ++ s)
  reverse-cancellations id r rest s =
      let shown = seen_all r.response_callback (cancelled id) in
      ap (λ x. x ++ s)
        (reverse-append shown (cancellations rest)
          ∙ ap (λ y. reverse (cancellations rest) ++ y)
              (reverse-seen_all r.response_callback (cancelled id)))
      ∙ append_assoc (reverse (cancellations rest)) shown s

  cancel_all-trace :
      (t : Table ℕ Request) (w : World)
      → (cancel_all t w).trace ≡ reverse (cancellations t) ++ w.trace
  unfolding cancel_all
  cancel_all-trace [] w = refl
  cancel_all-trace ((id, r) ∷ rest) w =
      cancel_all-trace rest (call_optional r.response_callback (cancelled id) w)
      ∙ ap (λ t. reverse (cancellations rest) ++ t)
          (call_optional_effect r.response_callback (cancelled id) w).0
      ∙ sym (reverse-cancellations id r rest w.trace)

  -- `clear` reports how many requests were open, answers each of them that has a callback once, with
  -- an error, and leaves none open.
  pub clear_lem :
      (w : World)
      → ((clear w).0 ≡ ok (length w.open_requests))
        × ((clear w).1.open_requests ≡ [])
        × ((clear w).1.trace ≡ reverse (cancellations w.open_requests) ++ w.trace)
  unfolding clear
  clear_lem w = (refl, refl, cancel_all-trace w.open_requests w)
