-- ===== src/Peer/Lifecycle/Stop.antt =====
-- PeerAsync::stop: who is told, and what is left.
use mathlib.Core.List.{reverse, reverse-cons}
use jetpeer_cpp.Base.{
  ℕ, ℤ, Option, none, some, List, [], ◌∷◌, ◌++◌, true, ◌≡◌, ◌≢◌, ◌∙◌, ap, sym, refl, arith,
  append_assoc, minus_one, int_eq, nat_eq, string_eq,
}
use jetpeer_cpp.Base.Table.{Table, find, erase, find-erase_ne}
use jetpeer_cpp.Platform.{Platform, Value}
use jetpeer_cpp.Defines.{Fetcher}
use jetpeer_cpp.Peer.Request.{clear, cancel_all, call_response, call_optional, cancelled}
use jetpeer_cpp.Peer.Request.Responses.{cancellations, clear_lem}
use jetpeer_cpp.Peer.Lifecycle.{stop, notify_fetchers, drop_callbacks}
use jetpeer_cpp.Peer.State.{World, Request, ResponseCb, Effect}

module _ ⦃P : Platform⦄ where
  open P use {null, disconnect}

  -- What the fetchers are told, in the order of the table.
  abbrev pub losses : Table ℤ Fetcher → List Effect
  losses [] = []
  losses ((_, fetcher) ∷ rest) = Effect.fetch_called fetcher.callback null minus_one ∷ losses rest

  notify_fetchers_lem :
      (t : Table ℤ Fetcher) (w : World)
      → notify_fetchers t w ≡ record w { trace = reverse (losses t) ++ w.trace }
  unfolding notify_fetchers
  notify_fetchers_lem [] w = refl
  notify_fetchers_lem ((id, fetcher) ∷ rest) w =
      let e = Effect.fetch_called fetcher.callback null minus_one in
      notify_fetchers_lem rest (record w { trace = e ∷ w.trace })
      ∙ ap (λ (t : List Effect). record w { trace = t })
          (sym (append_assoc (reverse (losses rest)) (e ∷ []) w.trace)
            ∙ ap (λ s. s ++ w.trace) (sym (reverse-cons e (losses rest))))

  -- Cancelling requests enters no callback, and leaves the connection and the buffers alone.
  record Cancels (w u : World) : Type 0 where
    no_state : w.state_callbacks ≡ [] → u.state_callbacks ≡ []
    no_method : w.method_callbacks ≡ [] → u.method_callbacks ≡ []
    same_stopped : u.stopped ≡ w.stopped
    same_socket : u.socket ≡ w.socket
    same_length_buffer : u.length_buffer ≡ w.length_buffer
    same_data_size : u.data_size ≡ w.data_size
    same_data_buffer : u.data_buffer ≡ w.data_buffer

  call_response-Cancels :
      (cb : ResponseCb) (v : Value) (w : World) → Cancels w (call_response cb v w)
  unfolding call_response erase
  call_response-Cancels (ResponseCb.user u) v w = ground arith
  call_response-Cancels (ResponseCb.method_added path u) v w = record {
    no_state = λ s. ground arith;
    no_method = λ m. ground (arith, ap (λ t. erase path t) m);
    same_stopped = ground arith;
    same_socket = ground arith;
    same_length_buffer = ground arith;
    same_data_size = ground arith;
    same_data_buffer = ground arith;
  }
  call_response-Cancels (ResponseCb.state_added path u) v w = record {
    no_state = λ s. ground (arith, ap (λ t. erase path t) s);
    no_method = λ m. ground arith;
    same_stopped = ground arith;
    same_socket = ground arith;
    same_length_buffer = ground arith;
    same_data_size = ground arith;
    same_data_buffer = ground arith;
  }
  call_response-Cancels (ResponseCb.fetch_added id u) v w = ground arith
  call_response-Cancels (ResponseCb.fulfils p) v w = ground arith

  Cancels-refl : (w : World) → Cancels w w
  Cancels-refl w = record {
    no_state = λ s. s;
    no_method = λ m. m;
    same_stopped = refl;
    same_socket = refl;
    same_length_buffer = refl;
    same_data_size = refl;
    same_data_buffer = refl;
  }

  Cancels-trans : {u v w : World} → Cancels u v → Cancels v w → Cancels u w
  Cancels-trans p q = record {
    no_state = λ s. q.no_state (p.no_state s);
    no_method = λ m. q.no_method (p.no_method m);
    same_stopped = q.same_stopped ∙ p.same_stopped;
    same_socket = q.same_socket ∙ p.same_socket;
    same_length_buffer = q.same_length_buffer ∙ p.same_length_buffer;
    same_data_size = q.same_data_size ∙ p.same_data_size;
    same_data_buffer = q.same_data_buffer ∙ p.same_data_buffer;
  }

  call_optional-Cancels :
      (cb : Option ResponseCb) (v : Value) (w : World) → Cancels w (call_optional cb v w)
  call_optional-Cancels none v w = Cancels-refl w
  call_optional-Cancels (some cb) v w = call_response-Cancels cb v w

  cancel_all-Cancels : (t : Table ℕ Request) (w : World) → Cancels w (cancel_all t w)
  unfolding cancel_all
  cancel_all-Cancels [] w = Cancels-refl w
  cancel_all-Cancels ((id, r) ∷ rest) w =
      Cancels-trans (call_optional-Cancels r.response_callback (cancelled id) w)
        (cancel_all-Cancels rest _)

  -- The request is not the one that enters the fetch `id`.
  abbrev pub IsOther : ℤ → Option ResponseCb → Type 0
  IsOther id (some (ResponseCb.fetch_added j u)) = j ≢ id
  IsOther id _ = Unit

  abbrev pub NoneAdds : ℤ → Table ℕ Request → Type 0
  NoneAdds id [] = Unit
  NoneAdds id ((_, r) ∷ rest) = IsOther id r.response_callback × NoneAdds id rest

  find-call_optional :
      (id : ℤ) (cb : Option ResponseCb) (v : Value) (w : World)
      → IsOther id cb
      → find id (call_optional cb v w).fetchers ≡ find id w.fetchers
  unfolding call_response
  find-call_optional id none v w other = refl
  find-call_optional id (some (ResponseCb.user u)) v w other = refl
  find-call_optional id (some (ResponseCb.method_added path u)) v w other = ground arith
  find-call_optional id (some (ResponseCb.state_added path u)) v w other = ground arith
  find-call_optional id (some (ResponseCb.fetch_added j u)) v w other =
      ground (arith, find-erase_ne j id w.fetchers other)
  find-call_optional id (some (ResponseCb.fulfils p)) v w other = refl

  find-cancel_all :
      (id : ℤ) (t : Table ℕ Request) (w : World)
      → NoneAdds id t
      → find id (cancel_all t w).fetchers ≡ find id w.fetchers
  unfolding cancel_all
  find-cancel_all id [] w none_adds = refl
  find-cancel_all id ((n, r) ∷ rest) w (other, others) =
      find-cancel_all id rest _ others
      ∙ find-call_optional id r.response_callback (cancelled n) w other

  -- The state in which `stop` clears the open requests.
  abbrev pub stopping : World → World
  stopping w = drop_callbacks (record w {
    stopped = true;
    socket = disconnect w.socket;
    trace = reverse (losses w.fetchers) ++ w.trace;
  })

  pub stop-clear : (w : World) → stop w ≡ (clear (stopping w)).1
  unfolding stop
  stop-clear w =
      ap (λ u. (clear (drop_callbacks u)).1)
        (notify_fetchers_lem w.fetchers (record w { stopped = true; socket = disconnect w.socket }))

  clear-Cancels : (w : World) → Cancels w (clear w).1
  unfolding clear
  clear-Cancels w =
      let c = cancel_all-Cancels w.open_requests w in
      record {
        no_state = c.no_state;
        no_method = c.no_method;
        same_stopped = c.same_stopped;
        same_socket = c.same_socket;
        same_length_buffer = c.same_length_buffer;
        same_data_size = c.same_data_size;
        same_data_buffer = c.same_data_buffer;
      }

  -- `stop` disconnects, tells every fetch the loss with status -1, and answers every open request
  -- that has a callback, also one of another peer of the process, once with an error, in this
  -- order. No state, method or open request is left.
  pub stop_lem :
      (w : World)
      → ((stop w).state_callbacks ≡ [])
        × ((stop w).method_callbacks ≡ [])
        × ((stop w).open_requests ≡ [])
        × ((stop w).stopped ≡ true)
        × ((stop w).socket ≡ disconnect w.socket)
        × ((stop w).trace
            ≡ reverse (cancellations w.open_requests) ++ (reverse (losses w.fetchers) ++ w.trace))
  stop_lem w =
      let c = clear-Cancels (stopping w) in
      let done = clear_lem (stopping w) in
      rw stop-clear
        (c.no_state refl, c.no_method refl, done.1, c.same_stopped, c.same_socket, done.2)

  -- What `stop` does to the buffers of the reader: nothing.
  pub stop_buffers :
      (w : World)
      → ((stop w).length_buffer ≡ w.length_buffer)
        × ((stop w).data_size ≡ w.data_size)
        × ((stop w).data_buffer ≡ w.data_buffer)
  stop_buffers w =
      let c = clear-Cancels (stopping w) in
      rw stop-clear (c.same_length_buffer, c.same_data_size, c.same_data_buffer)

  -- A fetch survives `stop`, with its callback and matcher, unless the request that enters it is
  -- still open.
  pub stop_keeps_fetch :
      (w : World) (id : ℤ)
      → NoneAdds id w.open_requests
      → find id (stop w).fetchers ≡ find id w.fetchers
  unfolding clear
  stop_keeps_fetch w id others =
      ap (λ u. find id u.fetchers) (stop-clear w)
      ∙ find-cancel_all id w.open_requests (stopping w) others
