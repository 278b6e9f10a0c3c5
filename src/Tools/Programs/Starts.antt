-- ===== src/Tools/Programs/Starts.antt =====
-- What jetcat and jetcache have done when they wait in the event loop.
use jetpeer_cpp.Base.{
  ℤ, some, [], ◌∷◌, true, false, ◌≡◌, ◌∙◌, ap, refl, nat_eq, int_eq, string_eq, next_int32,
}
use jetpeer_cpp.Base.Table.{put}
use jetpeer_cpp.Cache.{Cache, open_cache}
use jetpeer_cpp.Cache as Cache
use jetpeer_cpp.Platform.{Platform, Value, Socket}
use jetpeer_cpp.Platform.Laws.{IsReliable}
use jetpeer_cpp.Defines.Failure.{Outcome, ok, raised}
use jetpeer_cpp.Notifier.{Notifier, start, set_cbs, fetch_cb}
use jetpeer_cpp.Notifier.Follows.{Agree, notifier_like_cache}
use jetpeer_cpp.Peer.Dispatch.Replies.{Fits}
use jetpeer_cpp.Peer.Frame.{frame}
use jetpeer_cpp.Peer.Lifecycle.{construct, connecting, connect_result, set_up}
use jetpeer_cpp.Peer.Lifecycle as Lifecycle
use jetpeer_cpp.Peer.Lifecycle.Start.{config_doc, connected, set_up_lem}
use jetpeer_cpp.Peer.Methods.{fetch_doc, add_fetch_async}
use jetpeer_cpp.Peer.Registry.{register_fetch, create_fetch_id}
use jetpeer_cpp.Peer.Request.{execute_no_response}
use jetpeer_cpp.Peer.Send.Results.{after_send, send_message_ok}
use jetpeer_cpp.Peer.State.{World, Effect, continue}
use jetpeer_cpp.Tools.Arguments.{Arguments}
use jetpeer_cpp.Tools.Programs.{peer, cat, jetcache, with_notifier, with_cache}

module _ ⦃P : Platform⦄ (socket : Socket) (a : Arguments) (w : World) where
  -- The members that the constructor sets before it connects.
  abbrev pub fresh : World
  fresh = record w {
    address = a.address;
    port = a.port;
    name = a.program;
    debug = false;
    socket = socket;
    stopped = false;
    length_buffer = [];
    data_size = 0;
    data_buffer = [];
    state_callbacks = [];
    method_callbacks = [];
    fetchers = [];
  }

  -- The constructor with a connection, and without one.
  pub peer_ready :
      IsReliable
      → (connecting fresh).0 ≡ true
      → Fits (config_doc a.program false ∷ [])
      → peer socket a w ≡ (ok tt, after_send (config_doc a.program false) (connected fresh))
  unfolding construct Lifecycle.start
  peer_ready reliable connects fits =
      ap
        (λ b.
          continue (connect_result b (connected fresh)).0 (λ _. set_up)
            (connect_result b (connected fresh)).1)
        connects
      ∙ set_up_lem reliable (connected fresh) fits

  abbrev pub next_id : ℤ
  next_id = next_int32 w.sfetch_id

  pub cat_fetches :
      (reliable : IsReliable) (n : Notifier)
      → (connecting fresh).0 ≡ true
      → Fits (config_doc a.program false ∷ fetch_doc next_id a.match ∷ [])
      → (u : World) × (cat socket a n w
          ≡ ((ok tt, record (set_cbs (some 0) (some 1) (some 2) n) { fetch_id = next_id }), u))
        × (u.fetchers ≡ (next_id, record { callback = some 0; matcher = a.match }) ∷ [])
        × (u.trace
            ≡ Effect.wrote (frame (fetch_doc next_id a.match))
              ∷ Effect.wrote (frame (config_doc a.program false))
              ∷ w.trace)
  unfolding cat start add_fetch_async execute_no_response register_fetch create_fetch_id put
  cat_fetches reliable n connects (fits_config, (fits_fetch, _)) =
      let w1 = after_send (config_doc a.program false) (connected fresh) in
      let w2 = record w1 {
        sfetch_id = next_id;
        fetchers = (next_id, record { callback = some 0; matcher = a.match }) ∷ [];
      } in
      let doc = fetch_doc next_id a.match in
      let ready = peer_ready reliable connects (fits_config, tt) in
      (
        after_send doc w2,
        ap (with_notifier a n) ready
            ∙ ap
                (λ (r : Outcome (Unit {0}) × World). (
                  (ok tt, record (set_cbs (some 0) (some 1) (some 2) n) { fetch_id = next_id }),
                  r.1,
                ))
                (send_message_ok doc w2 fits_fetch (reliable.never_refused w2.socket (frame doc))),
        refl,
        refl,
      )

  alike :
      (r : Outcome (Unit {0})) (v : World) (n : Notifier) (c : Cache)
      → n.calls ≡ c.calls
      → r ≡ ok tt
      → let ((q, n'), u) = with_notifier a n (r, v) in
        let ((s, c'), u') = with_cache c (continue r (λ _. open_cache 0 a.match) v) in
        (q ≡ ok tt)
        × (u ≡ u')
        × ((x : Value) (status : ℤ) → Agree (fetch_cb x status n') (Cache.fetch_cb x status c'))
  unfolding start add_fetch_async execute_no_response register_fetch create_fetch_id
  alike (raised e) v n c same made = absurd (cc made)
  alike (ok _) v n c same made = (
    refl,
    refl,
    λ x status. notifier_like_cache x status _ _ (record {
      adds = (0, refl, refl);
      changes = (1, refl, refl);
      removes = (2, refl, refl);
      same_calls = same;
    }),
  )

  -- jetcat and jetcache with the same arguments leave the peer in the same state when they wait in
  -- the event loop, and then agree on every notification: the notifier of the one and the cache of
  -- the other have the same callbacks and the same calls. The peer must be constructed without an
  -- exception, and the calls made so far be the same.
  pub cat_like_cache :
      (n : Notifier) (c : Cache)
      → (peer socket a w).0 ≡ ok tt
      → n.calls ≡ c.calls
      → let ((r, n'), u) = cat socket a n w in
        let ((s, c'), v) = jetcache socket a c w in
        (r ≡ ok tt)
        × (u ≡ v)
        × ((x : Value) (status : ℤ) → Agree (fetch_cb x status n') (Cache.fetch_cb x status c'))
  unfolding cat jetcache
  cat_like_cache n c made same = alike (peer socket a w).0 (peer socket a w).1 n c same made
