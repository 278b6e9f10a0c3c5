-- ===== src/Peer/Request/Sending.antt =====
-- AsyncRequest::execute: what is open after it, and what becomes of a request that cannot be sent.
use jetpeer_cpp.Base.{
  ℕ, ℤ, String, Option, none, some, ◌∷◌, ◌≡◌, ◌≢◌, ◌⊎◌, inl, inr, ◌∙◌, ap, sym, refl, nat_eq,
  string_eq, next_uint32, minus_one, take,
}
use jetpeer_cpp.Base.Table.{find, find-put_self, find-put_ne}
use jetpeer_cpp.Platform.{Platform, Value, Socket, set_in}
use jetpeer_cpp.Platform.Laws.{JsonLaws}
use jetpeer_cpp.Platform.Objects.{
  member-set_self, member-set_ne, indexable-null, indexable-set, indexable-set_in,
}
use jetpeer_cpp.Defines.Failure.{Failure, ok, raised}
use jetpeer_cpp.Defines.Rpc
use jetpeer_cpp.Peer.Frame.{frame}
use jetpeer_cpp.Peer.Send.{send_message, part, cut}
use jetpeer_cpp.Peer.Send.Results.{after_send, send_message_cases}
use jetpeer_cpp.Peer.Request.{
  execute, caught_sending, callback_of, set_callback, set_notifier, error_response, notifier_cb,
}
use jetpeer_cpp.Peer.Request.Responses.{seen, response_closes_request, handle_result_closed}
use jetpeer_cpp.Peer.State.{World, Request, ResponseCb, Effect}

module _ ⦃P : Platform⦄ (doc : Value) (cb : ResponseCb) (w : World) where
  open P use {set, of_uint}

  -- m_id, and the message that goes out with it
  abbrev pub request_id : ℕ
  request_id = next_uint32 w.sid

  abbrev pub request_message : Value
  request_message = set doc Rpc.id (of_uint request_id)

  -- The state in which the message is sent.
  abbrev pub opened : World
  opened = set_callback request_id (some cb) (record w { sid = request_id })

  abbrev pub Opens : World → Type 0
  Opens u =
      ((r : Request) × (find request_id u.open_requests ≡ some r) × (r.response_callback ≡ some cb))
      × ((j : ℕ) → request_id ≢ j → find j u.open_requests ≡ find j w.open_requests)

  pub opened-Opens : Opens opened
  opened-Opens = (
    (_, find-put_self request_id _ w.open_requests, refl),
    λ j ne. find-put_ne request_id j _ w.open_requests ne,
  )

  pub execute_cases :
      ((send_message request_message opened ≡ (ok tt, after_send request_message opened))
        × (execute doc (some cb) w ≡ (ok tt, after_send request_message opened)))
      ⊎ ((message : String) × (s : Socket) × (n : ℕ) × (send_message request_message opened ≡ (
        raised (Failure.jsonrpc_exception minus_one message),
        cut request_message n (record opened { socket = s }),
      ))
          × (execute doc (some cb) w ≡ (
            ok tt,
            set_notifier request_id
                (minus_one, message)
                (cut request_message n (record opened { socket = s })),
          )))
  unfolding execute
  execute_cases = elim (send_message_cases request_message opened) [
    | inl e ↦ inl (e, ap (λ r. caught_sending r (set_notifier request_id)) e)
    | inr (message, s, n, e) ↦
        inr (message, s, n, e, ap (λ r. caught_sending r (set_notifier request_id)) e)
  ]

  abbrev pub failed : String → Socket → ℕ → World
  failed message s n =
      set_notifier request_id (minus_one, message)
        (cut request_message n (record opened { socket = s }))

  failed-find :
      (message : String) (s : Socket) (n : ℕ)
      → find request_id (failed message s n).open_requests
        ≡ some (record { response_callback = some cb; error_notifier = some (minus_one, message) })
  failed-find message s n =
      find-put_self request_id _ opened.open_requests
      ∙ ap
          (λ (c : Option ResponseCb).
            some (record { response_callback = c; error_notifier = some (minus_one, message) }))
          (ap callback_of (find-put_self request_id _ w.open_requests))

  failed-Opens : (message : String) (s : Socket) (n : ℕ) → Opens (failed message s n)
  failed-Opens message s n = (
    (_, failed-find message s n, refl),
    λ j ne. find-put_ne request_id j _ opened.open_requests ne ∙ opened-Opens.1 j ne,
  )

  -- Executing a request with a callback never throws and calls nobody. The request is open under the
  -- next id with its callback, all other requests stay as they were, and either the message with that
  -- id was handed to the socket, or at most a beginning of it was written and the notifier of the
  -- request holds the error.
  pub execute-Opens :
      let w' = (execute doc (some cb) w).1 in
      ((execute doc (some cb) w).0 ≡ ok tt)
      × (w'.sid ≡ request_id)
      × Opens w'
      × ((w'.trace ≡ Effect.wrote (frame request_message) ∷ w.trace)
          ⊎ (((n : ℕ) × (w'.trace ≡ part (take n (frame request_message)) w.trace))
              × ((message : String) × (find request_id w'.open_requests
                    ≡ some (record {
                      response_callback = some cb;
                      error_notifier = some (minus_one, message);
                    })))))
  execute-Opens = elim execute_cases [
    | inl (_, e) ↦ rw e (refl, refl, opened-Opens, inl refl)
    | inr (message, s, n, _, e) ↦
        rw e (
          refl,
          refl,
          failed-Opens message s n,
          inr ((n, refl), (message, failed-find message s n)),
        )
  ]

module _ ⦃P : Platform⦄ (laws : JsonLaws) where
  open P use {null, set, of_uint, of_int, of_string, member, as_uint}

  -- The error that a notifier reports carries the id that it read.
  pub member-error_response :
      (id : ℕ) (code : ℤ) (message : String)
      → member (error_response id code message) Rpc.id ≡ some (of_uint id)
  unfolding error_response
  member-error_response id code message =
      let o1 = set null Rpc.id (of_uint id) in
      let o2 = set_in o1 Rpc.err Rpc.code (of_int code) in
      let i1 = indexable-set laws null (of_uint id) Rpc.id (indexable-null laws) in
      let i2 = indexable-set_in laws o1 (of_int code) Rpc.err Rpc.code i1 in
      member-set_ne laws o2 _ Rpc.err Rpc.id i2 refl
      ∙ member-set_ne laws o1 _ Rpc.err Rpc.id i1 refl
      ∙ member-set_self laws null (of_uint id) Rpc.id (indexable-null laws)

  -- A request whose sending throws, because it is too large or because the socket refused it, is
  -- answered when the event loop runs its notifier, provided that `m_id` can still be read there:
  -- its callback is called once, with the error of the attempt, and the request is closed. Before
  -- this only what the socket may have taken of the message is seen.
  pub failed_request_is_answered :
      (doc : Value) (cb : ResponseCb) (w : World) (message : String)
      → (send_message (request_message doc cb w) (opened doc cb w)).0
        ≡ raised (Failure.jsonrpc_exception minus_one message)
      → let id = request_id doc cb w in
        let u = (notifier_cb id (minus_one, message) (execute doc (some cb) w).1).1 in
        ((n : ℕ) × (u.trace
            ≡ seen cb (error_response id minus_one message)
              ∷ part (take n (frame (request_message doc cb w))) w.trace))
        × (find id u.open_requests ≡ none)
  unfolding notifier_cb
  failed_request_is_answered doc cb w message fails = elim (execute_cases doc cb w) [
    | inl (sent, _) ↦ absurd (cc (fails, ap (λ r. r.0) sent))
    | inr (text, s, n, refused, e) ↦
        let id = request_id doc cb w in
        let same : text ≡ message = cc (fails, ap (λ r. r.0) refused) in
        let answered =
          response_closes_request (error_response id minus_one message) (of_uint id) id
            (member-error_response id minus_one message) (laws.as_uint-of_uint id)
            (failed doc cb w text s n) _ (failed-find doc cb w text s n) in
        rw e ((n, answered.0), answered.1)
  ]

  pub failed_request_is_lost :
      (doc : Value) (cb : ResponseCb) (w : World) (message : String) (m_id : ℕ)
      → m_id ≢ request_id doc cb w
      → find m_id w.open_requests ≡ none
      → (send_message (request_message doc cb w) (opened doc cb w)).0
        ≡ raised (Failure.jsonrpc_exception minus_one message)
      → let u = (notifier_cb m_id (minus_one, message) (execute doc (some cb) w).1).1 in
        ((n : ℕ) × (u.trace ≡ part (take n (frame (request_message doc cb w))) w.trace))
        × ((r : Request) × (find (request_id doc cb w) u.open_requests ≡ some r)
            × (r.response_callback ≡ some cb))
  unfolding notifier_cb
  failed_request_is_lost doc cb w message m_id other unused fails = elim (execute_cases doc cb w) [
    | inl (sent, _) ↦ absurd (cc (fails, ap (λ r. r.0) sent))
    | inr (text, s, n, _, e) ↦
        let w' = failed doc cb w text s n in
        let closed = (failed-Opens doc cb w text s n).1 m_id (λ q. other (sym q)) ∙ unused in
        let nothing =
          handle_result_closed (error_response m_id minus_one message) (of_uint m_id) m_id
            (member-error_response m_id minus_one message) (laws.as_uint-of_uint m_id) w' closed in
        rw (e, nothing) ((n, refl), (failed-Opens doc cb w text s n).0)
  ]
