-- ===== src/Peer/Lifecycle/Start.antt =====
-- PeerAsync::start and PeerAsync::resume: what is sent on a new connection.
use jetpeer_cpp.Base.{ℤ, String, none, List, [], ◌∷◌, Bool, true, false, ◌≡◌, ◌∙◌, ap, refl, nat_eq}
use jetpeer_cpp.Base.Table.{Table}
use jetpeer_cpp.Platform.{Platform, Value}
use jetpeer_cpp.Platform.Laws.{IsReliable}
use jetpeer_cpp.Defines.{Fetcher}
use jetpeer_cpp.Defines.Failure.{ok}
use jetpeer_cpp.Defines.Key
use jetpeer_cpp.Defines.Verb
use jetpeer_cpp.Peer.Frame.{frame}
use jetpeer_cpp.Peer.Send.Results.{after_send, send_message_ok}
use jetpeer_cpp.Peer.Request.{request_doc, execute, caught_sending}
use jetpeer_cpp.Peer.Methods.{config_async, restore_fetch, fetch_doc}
use jetpeer_cpp.Peer.Dispatch.Replies.{Fits}
use jetpeer_cpp.Peer.Lifecycle.{
  start, resume, restore_fetches, clear_buffers, set_up, connecting, connect_result, resumed,
}
use jetpeer_cpp.Peer.State.{World, continue}

module _ ⦃P : Platform⦄ where
  open P use {null, set, of_string, of_bool, connect_tcp, connect_unix}

  -- The state after the socket took the frames of these messages, the first one of the list first.
  abbrev pub send_in_order : List Value → World → World
  send_in_order [] w = w
  send_in_order (v ∷ rest) w = send_in_order rest (after_send v w)

  abbrev pub config_doc : String → Bool → Value
  config_doc name debug =
      request_doc Verb.config (set (set null Key.name (of_string name)) Key.dbg (of_bool debug))

  abbrev pub fetch_docs : Table ℤ Fetcher → List Value
  fetch_docs [] = []
  fetch_docs ((id, fetcher) ∷ rest) = fetch_doc id fetcher.matcher ∷ fetch_docs rest

  -- What is sent on a new connection, in this order.
  abbrev pub greeting : World → List Value
  greeting w = config_doc w.name w.debug ∷ fetch_docs w.fetchers

  abbrev pub connected : World → World
  connected w = record (clear_buffers w) { socket = (connecting w).1 }

  module _ (reliable : IsReliable) where
    execute_unanswered :
        (doc : Value) (w : World) → Fits (doc ∷ []) → execute doc none w ≡ (ok tt, after_send doc w)
    unfolding execute
    execute_unanswered doc w fits =
        ap (λ r. caught_sending r (λ _ u. u))
          (send_message_ok doc w fits.0 (reliable.never_refused w.socket (frame doc)))

    restore_fetches_lem :
        (t : Table ℤ Fetcher) (w : World)
        → Fits (fetch_docs t)
        → restore_fetches t w ≡ send_in_order (fetch_docs t) w
    unfolding restore_fetches restore_fetch
    restore_fetches_lem [] w fits = refl
    restore_fetches_lem ((id, fetcher) ∷ rest) w fits =
        ap (λ r. restore_fetches rest r.1)
          (execute_unanswered (fetch_doc id fetcher.matcher) w (fits.0, tt))
        ∙ restore_fetches_lem rest _ fits.1

    pub set_up_lem :
        (w : World) → Fits (greeting w) → set_up w ≡ (ok tt, send_in_order (greeting w) w)
    unfolding config_async
    set_up_lem w fits =
        ap (λ r. continue r.0 (λ _ u. (ok tt, restore_fetches u.fetchers u)) r.1)
          (execute_unanswered (config_doc w.name w.debug) w (fits.0, tt))
        ∙ ap (λ u. (ok tt, u)) (restore_fetches_lem w.fetchers _ fits.1)

    -- If the connection can be made, `resume` reports success, empties the buffers, and sends the
    -- configuration and then one request for each fetch that the peer knows, with the id that it has;
    -- nothing else changes. The messages must fit, and the socket take them.
    pub resume_restores :
        (w : World)
        → (connecting w).0 ≡ true
        → Fits (greeting w)
        → resume w ≡ (ok true, send_in_order (greeting w) (connected w))
    unfolding resume start
    resume_restores w connects fits =
        ap
          (λ b. resumed (
            continue (connect_result b (connected w)).0 (λ _. set_up)
              (connect_result b (connected w)).1))
          connects
        ∙ ap resumed (set_up_lem (connected w) fits)

  -- If the connection cannot be made, `resume` reports failure and writes nothing. The buffers are
  -- emptied, and all else, the fetches too, is as before.
  pub resume_refused : (w : World) → (connecting w).0 ≡ false → resume w ≡ (ok false, connected w)
  unfolding resume start
  resume_refused w refused =
      ap
        (λ b. resumed (
          continue (connect_result b (connected w)).0 (λ _. set_up)
            (connect_result b (connected w)).1))
        refused
