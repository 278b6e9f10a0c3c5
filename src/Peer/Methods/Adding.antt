-- ===== src/Peer/Methods/Adding.antt =====
-- addStateAsync, addMethodAsync and addFetchAsync up to the response: addMethodResultCb,
-- addStateResultCb and addFetchResultCb.
use jetpeer_cpp.Base.{
  ℕ, ℤ, String, Option, none, some, ◌∷◌, ◌≡◌, ◌∙◌, ap, refl, arith, if◌then◌else◌, inl, inr, nat_eq,
  int_eq, string_eq, next_uint32, next_int32,
}
use jetpeer_cpp.Base.Table.{find, put, erase, find-put_self, find-erase_self}
use jetpeer_cpp.Platform.{Platform, Value}
use jetpeer_cpp.Defines.{Fetcher, Matcher}
use jetpeer_cpp.Defines.Failure.{ok}
use jetpeer_cpp.Defines.Key
use jetpeer_cpp.Defines.Rpc
use jetpeer_cpp.Defines.Verb
use jetpeer_cpp.Peer.Request.{execute, handle_result, call_response, call_optional, request_doc}
use jetpeer_cpp.Peer.Request.Responses.{seen, call_response_effect, handle_result_open}
use jetpeer_cpp.Peer.Request.Sending.{execute_cases, execute-Opens}
use jetpeer_cpp.Peer.Registry.{register_state, register_method, register_fetch, create_fetch_id}
use jetpeer_cpp.Peer.Methods.{
  add_state_params, fetch_doc, add_state_async_private, add_method_async_private, add_fetch_async,
}
use jetpeer_cpp.Peer.State.{World, ResponseCb, StateCb, MethodCb, Effect, continue, pure}

module _ ⦃P : Platform⦄ where
  open P use {member, is_member, as_uint, set, of_string}

  -- Executing a request leaves the callbacks and the fetches as they are.
  pub record KeepsTables (w u : World) : Type 0 where
    pub same_states : u.state_callbacks ≡ w.state_callbacks
    pub same_methods : u.method_callbacks ≡ w.method_callbacks
    pub same_fetchers : u.fetchers ≡ w.fetchers

  pub execute-KeepsTables :
      (doc : Value) (cb : ResponseCb) (w : World) → KeepsTables w (execute doc (some cb) w).1
  execute-KeepsTables doc cb w = elim (execute_cases doc cb w) [
    | inl (_, e) ↦ rw e (record { same_states = refl; same_methods = refl; same_fetchers = refl })
    | inr (_, _, _, _, e) ↦
        rw e (record { same_states = refl; same_methods = refl; same_fetchers = refl })
  ]

  -- What is left of a state in its table when its response has come.
  find-state_added :
      (path : String) (u : ℕ) (v : Value) (w : World) (cb : Option StateCb)
      → find path w.state_callbacks ≡ some cb
      → find path (call_response (ResponseCb.state_added path u) v w).state_callbacks
        ≡ (if is_member v Rpc.err then none else some cb)
  unfolding call_response
  find-state_added path u v w cb h = ground (arith, h, find-erase_self path w.state_callbacks)

  find-method_added :
      (path : String) (u : ℕ) (v : Value) (w : World) (cb : MethodCb)
      → find path w.method_callbacks ≡ some cb
      → find path (call_response (ResponseCb.method_added path u) v w).method_callbacks
        ≡ (if is_member v Rpc.err then none else some cb)
  unfolding call_response
  find-method_added path u v w cb h = ground (arith, h, find-erase_self path w.method_callbacks)

  find-fetch_added :
      (id : ℤ) (u : ℕ) (v : Value) (w : World) (f : Fetcher)
      → find id w.fetchers ≡ some f
      → find id (call_response (ResponseCb.fetch_added id u) v w).fetchers
        ≡ (if is_member v Rpc.err then none else some f)
  unfolding call_response
  find-fetch_added id u v w f h = ground (arith, h, find-erase_self id w.fetchers)

  -- The response to a request that was executed in the state w.
  module _ (v id_node : Value) (doc : Value) (cb : ResponseCb) (w : World)
      (has_id : member v Rpc.id ≡ some id_node)
      (is_id : as_uint id_node ≡ some (next_uint32 w.sid)) where
    abbrev pub waiting : World
    waiting = (execute doc (some cb) w).1

    -- The state in which the callback is called.
    abbrev pub closed : World
    closed = record waiting { open_requests = erase (next_uint32 w.sid) waiting.open_requests }

    pub response_lem : handle_result v waiting ≡ (ok tt, call_response cb v closed)
    response_lem =
        let ((r, is_open, same), _) = (execute-Opens doc cb w).2 in
        handle_result_open v id_node (next_uint32 w.sid) has_id is_id waiting r is_open
        ∙ ap (λ c. (ok tt, call_optional c v closed)) same

    settled :
        ((handle_result v waiting).1.trace ≡ seen cb v ∷ waiting.trace)
        × (find (next_uint32 w.sid) (handle_result v waiting).1.open_requests ≡ none)
    settled =
        let (shown, table) = call_response_effect cb v closed in
        rw response_lem
          (shown, ap (find (next_uint32 w.sid)) table ∙ find-erase_self (next_uint32 w.sid) _)

  module _ (path : String) (params v id_node : Value) (u : ℕ) (w : World)
      (has_id : member v Rpc.id ≡ some id_node)
      (is_id : as_uint id_node ≡ some (next_uint32 w.sid)) where
    -- When `addStateAsync` with a result callback has executed its request, the state is entered with
    -- its callback. The response with the id of that request closes the request and is shown to the
    -- user once, and then the state is still entered if the response is no error, and no longer
    -- entered if it is one.
    pub add_state_settled :
        (value : Value) (cb : Option StateCb)
        → let w1 = (add_state_async_private path value params (some u) cb w).1 in
          let w2 = (handle_result v w1).1 in
          (find path w1.state_callbacks ≡ some cb)
          × (find path w2.state_callbacks ≡ (if is_member v Rpc.err then none else some cb))
          × (w2.trace ≡ Effect.response_called u v ∷ w1.trace)
          × (find (next_uint32 w.sid) w2.open_requests ≡ none)
    unfolding add_state_async_private register_state
    add_state_settled value cb =
        let doc = request_doc Verb.add (add_state_params path value params cb) in
        let done = ResponseCb.state_added path u in
        let start = record w { state_callbacks = put path cb w.state_callbacks } in
        let entered =
          ap (find path) (execute-KeepsTables doc done start).same_states
          ∙ find-put_self path cb w.state_callbacks in
        let (shown, gone) = settled v id_node doc done start has_id is_id in
        (
          entered,
          ap (λ r. find path r.1.state_callbacks)
                (response_lem v id_node doc done start has_id is_id)
              ∙ find-state_added path u v (closed v id_node doc done start has_id is_id) cb entered,
          shown,
          gone,
        )

    -- When `addMethodAsync` with a result callback has executed its request, the method is entered
    -- with its callback. The response with the id of that request closes the request and is shown to the
    -- user once, and then the method is still entered if the response is no error, and no longer
    -- entered if it is one.
    pub add_method_settled :
        (cb : MethodCb)
        → let w1 = (add_method_async_private path params (some u) cb w).1 in
          let w2 = (handle_result v w1).1 in
          (find path w1.method_callbacks ≡ some cb)
          × (find path w2.method_callbacks ≡ (if is_member v Rpc.err then none else some cb))
          × (w2.trace ≡ Effect.response_called u v ∷ w1.trace)
          × (find (next_uint32 w.sid) w2.open_requests ≡ none)
    unfolding add_method_async_private register_method
    add_method_settled cb =
        let doc = request_doc Verb.add (set params Key.path (of_string path)) in
        let done = ResponseCb.method_added path u in
        let start = record w { method_callbacks = put path cb w.method_callbacks } in
        let entered =
          ap (find path) (execute-KeepsTables doc done start).same_methods
          ∙ find-put_self path cb w.method_callbacks in
        let (shown, gone) = settled v id_node doc done start has_id is_id in
        (
          entered,
          ap (λ r. find path r.1.method_callbacks)
                (response_lem v id_node doc done start has_id is_id)
              ∙ find-method_added path u v (closed v id_node doc done start has_id is_id) cb
                  entered,
          shown,
          gone,
        )

  abbrev entering : Matcher → Option ℕ → World → World
  entering match callback w =
      let id = next_int32 w.sfetch_id in
      record w {
        sfetch_id = id;
        fetchers = put id (record { callback = callback; matcher = match }) w.fetchers;
      }

  add_fetch_async_lem :
      (match : Matcher) (callback : Option ℕ) (u : ℕ) (w : World)
      → let id = next_int32 w.sfetch_id in
        add_fetch_async match callback (some u) w ≡ (
          ok id,
          (execute
              (fetch_doc id match)
              (some (ResponseCb.fetch_added id u))
              (entering match callback w)).1,
        )
  unfolding add_fetch_async register_fetch create_fetch_id
  add_fetch_async_lem match callback u w =
      let id = next_int32 w.sfetch_id in
      let done = ResponseCb.fetch_added id u in
      let start = entering match callback w in
      ap (λ o. continue o (λ _. pure id) (execute (fetch_doc id match) (some done) start).1)
        (execute-Opens (fetch_doc id match) done start).0

  -- When `addFetchAsync` with a result callback has executed its request, the fetch is entered under
  -- the next id of the process. The response with the id of that request closes the request and is shown to
  -- the user once, and then the fetch is still entered if the response is no error, and no longer
  -- entered if it is one.
  pub add_fetch_settled :
      (match : Matcher) (callback : Option ℕ) (v id_node : Value) (u : ℕ) (w : World)
      → member v Rpc.id ≡ some id_node
      → as_uint id_node ≡ some (next_uint32 w.sid)
      → let id = next_int32 w.sfetch_id in
        let f : Fetcher = record { callback = callback; matcher = match } in
        let w1 = (add_fetch_async match callback (some u) w).1 in
        let w2 = (handle_result v w1).1 in
        ((add_fetch_async match callback (some u) w).0 ≡ ok id)
        × (find id w1.fetchers ≡ some f)
        × (find id w2.fetchers ≡ (if is_member v Rpc.err then none else some f))
        × (w2.trace ≡ Effect.response_called u v ∷ w1.trace)
        × (find (next_uint32 w.sid) w2.open_requests ≡ none)
  add_fetch_settled match callback v id_node u w has_id is_id =
      let id = next_int32 w.sfetch_id in
      let f : Fetcher = record { callback = callback; matcher = match } in
      let doc = fetch_doc id match in
      let done = ResponseCb.fetch_added id u in
      let start = entering match callback w in
      let entered =
        ap (find id) (execute-KeepsTables doc done start).same_fetchers
        ∙ find-put_self id f w.fetchers in
      let (shown, gone) = settled v id_node doc done start has_id is_id in
      rw (add_fetch_async_lem match callback u w) (
        refl,
        entered,
        ap (λ r. find id r.1.fetchers) (response_lem v id_node doc done start has_id is_id)
            ∙ find-fetch_added id u v (closed v id_node doc done start has_id is_id) f entered,
        shown,
        gone,
      )
