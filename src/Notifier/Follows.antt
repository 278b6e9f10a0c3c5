-- ===== src/Notifier/Follows.antt =====
-- notifier: what it tells its user, next to the cache; and what a start and a stop leave of it.
use jetpeer_cpp.Base.{
  ℕ, ℤ, pos, negsuc, String, Option, none, some, ◌∷◌, Bool, true, false, ◌≡◌, ◌∙◌, ap, refl,
  if◌then◌else◌, if-cases, ◌==◌, string_eq, int_eq, next_int32, ltb, length,
}
use jetpeer_cpp.Base.Table.{Table, find, put, erase, erase-put}
use jetpeer_cpp.Base.Table.Unique.{erase-absent}
use jetpeer_cpp.Platform.{Platform, Value, Kind}
use jetpeer_cpp.Cache.{Cache, Notice, read_notice}
use jetpeer_cpp.Cache as Cache
use jetpeer_cpp.Defines.{Matcher, Fetcher, max_message_size}
use jetpeer_cpp.Defines.Failure.{Failure, Outcome, ok, raised}
use jetpeer_cpp.Defines.Rpc
use jetpeer_cpp.Defines.Verb
use jetpeer_cpp.Peer.Frame.{frame}
use jetpeer_cpp.Notifier.{Notifier, call_cb, on_notice, noticed, on_object, fetch_cb, start, stop}
use jetpeer_cpp.Peer.Methods.{fetch_doc, add_fetch_async, remove_fetch_async}
use jetpeer_cpp.Peer.Request.{request_doc, execute, execute_no_response, caught_sending}
use jetpeer_cpp.Peer.Registry.{register_fetch, unregister_fetch, create_fetch_id}
use jetpeer_cpp.Peer.Send.{send_message, sent}
use jetpeer_cpp.Peer.State.{World, M}

module _ ⦃P : Platform⦄ where
  open P use {kind, null, set, of_int, write, send_blocks, took}

  -- A notifier and a cache with the same callbacks, all set, that have made the same calls.
  pub record Same (n : Notifier) (c : Cache) : Type 0 where
    pub adds : (a : ℕ) × (n.add_cb ≡ some a) × (c.add_cb ≡ some a)
    pub changes : (a : ℕ) × (n.change_cb ≡ some a) × (c.change_cb ≡ some a)
    pub removes : (a : ℕ) × (n.remove_cb ≡ some a) × (c.remove_cb ≡ some a)
    pub same_calls : n.calls ≡ c.calls

  -- They end alike.
  abbrev pub Agree : Outcome (Unit {0}) × Notifier → Outcome (Unit {0}) × Cache → Type 0
  Agree (r, n) (s, c) = (r ≡ s) × Same n c

  called :
      (o p : Option ℕ) (path : String) (v : Value) (n : Notifier) (c : Cache)
      → ((a : ℕ) × (o ≡ some a) × (p ≡ some a))
      → Same n c
      → Agree (call_cb o path v n) (ok tt, Cache.call_cb p path v c)
  called o p path v n c (a, eo, ep) h = rw eo (
      rw ep (
        refl,
        record {
          adds = h.adds;
          changes = h.changes;
          removes = h.removes;
          same_calls = ap (λ l. (a, (path, v)) ∷ l) h.same_calls;
        },
      ))

  storing :
      (n : Notifier) (c : Cache) (t : Table String Value)
      → Same n c
      → Same n (record c { entries = t })
  storing n c t h = record {
    adds = h.adds;
    changes = h.changes;
    removes = h.removes;
    same_calls = h.same_calls;
  }

  branch :
      (t : Bool) (r s : Outcome (Unit {0}) × Notifier) (c d : Cache)
      → Agree r (ok tt, c)
      → Agree s (ok tt, d)
      → Agree (if t then r else s) (ok tt, if t then c else d)
  branch true r s c d h k = h
  branch false r s c d h k = k

  on_notice-Agree :
      (m : Notice) (n : Notifier) (c : Cache)
      → Same n c
      → Agree (on_notice m n) (ok tt, Cache.on_notice m c)
  unfolding Cache.on_notice
  on_notice-Agree m n c h =
      let kept = put m.path m.value c.entries in
      let left = erase m.path c.entries in
      branch (m.event == Verb.change) _ _ _ _
        (called n.change_cb c.change_cb m.path m.value n _ h.changes (storing n c kept h))
        (branch (m.event == Verb.add) _ _ _ _
          (called n.add_cb c.add_cb m.path m.value n _ h.adds (storing n c kept h))
          (branch (m.event == Verb.remove) _ _ _ _
            (called n.remove_cb c.remove_cb m.path m.value n _ h.removes (storing n c left h))
            (refl, h)))

  noticed-Agree :
      (o : Option Notice) (n : Notifier) (c : Cache)
      → Same n c
      → Agree (noticed o n) (Cache.noticed o c)
  noticed-Agree none n c h = (refl, h)
  noticed-Agree (some m) n c h = on_notice-Agree m n c h

  on_object-Agree :
      (v : Value) (k : Kind) (n : Notifier) (c : Cache)
      → Same n c
      → Agree (on_object v k n) (Cache.on_object v k c)
  on_object-Agree v Kind.null_value n c h = (refl, h)
  on_object-Agree v Kind.int_value n c h = (refl, h)
  on_object-Agree v Kind.uint_value n c h = (refl, h)
  on_object-Agree v Kind.real_value n c h = (refl, h)
  on_object-Agree v Kind.string_value n c h = (refl, h)
  on_object-Agree v Kind.boolean_value n c h = (refl, h)
  on_object-Agree v Kind.array_value n c h = (refl, h)
  on_object-Agree v Kind.object_value n c h = noticed-Agree (read_notice v) n c h

  -- A notifier whose callbacks are all set tells its user what the cache tells, for every
  -- notification and status: the same outcome and the same calls, in the same order.
  pub notifier_like_cache :
      (v : Value) (status : ℤ) (n : Notifier) (c : Cache)
      → Same n c
      → Agree (fetch_cb v status n) (Cache.fetch_cb v status c)
  unfolding fetch_cb Cache.fetch_cb
  notifier_like_cache v (negsuc k) n c h = (refl, h)
  notifier_like_cache v (pos k) n c h = on_object-Agree v (kind v) n c h

  sent-fetchers :
      (v : Value) (n : ℕ) (o : Option String) (w : World) → (sent v n o w).1.fetchers ≡ w.fetchers
  sent-fetchers v n none w = refl
  sent-fetchers v n (some e) w = refl

  send-fetchers : (v : Value) (w : World) → (send_message v w).1.fetchers ≡ w.fetchers
  unfolding send_message
  send-fetchers v w =
      if-cases (λ (m : M (Unit {0})). (m w).1.fetchers ≡ w.fetchers)
        (ltb max_message_size (length (write v))) (λ _. refl)
        (λ _.
          let (o, s) = send_blocks w.socket (frame v) in
          sent-fetchers v (took w.socket (frame v)) o (record w { socket = s }))

  caught-fetchers :
      (r : Outcome (Unit {0}) × World) → (caught_sending r (λ _ u. u)).1.fetchers ≡ r.1.fetchers
  caught-fetchers (ok _, w) = refl
  caught-fetchers (raised (Failure.jsonrpc_exception code message), w) = refl
  caught-fetchers (raised (Failure.jsoncpprpc_exception j), w) = refl
  caught-fetchers (raised (Failure.std_exception what), w) = refl
  caught-fetchers (raised Failure.other, w) = refl

  -- What a notifier started, its stop takes away: the fetches are again what they were, if the id that
  -- the fetch got was free. A start does not fail.
  pub start_then_stop :
      (self : ℕ) (add change remove : Option ℕ) (match : Matcher) (n : Notifier) (w : World)
      → find (next_int32 w.sfetch_id) w.fetchers ≡ none
      → let ((r, started), w1) = start self add change remove match n w in
        (r ≡ ok tt) × ((stop started w1).1.fetchers ≡ w.fetchers)
  unfolding start stop add_fetch_async remove_fetch_async register_fetch unregister_fetch
      create_fetch_id execute execute_no_response
  start_then_stop self add change remove match n w free =
      let id = next_int32 w.sfetch_id in
      let f : Fetcher = record { callback = some self; matcher = match } in
      let w1 = record w { sfetch_id = id; fetchers = put id f w.fetchers } in
      let doc = fetch_doc id match in
      let w2 = (send_message doc w1).1 in
      let w3 = record w2 { fetchers = erase id w2.fetchers } in
      let undo = request_doc Verb.unfetch (set null Rpc.id (of_int id)) in
      (
        refl,
        caught-fetchers (send_message undo w3)
            ∙ send-fetchers undo w3
            ∙ ap (erase id) (send-fetchers doc w1)
            ∙ erase-put id f w.fetchers free
            ∙ erase-absent id w.fetchers free,
      )
