-- ===== src/Peer/Sync/Waits.antt =====
-- Peer: what a synchronous call returns, and what it leaves.
use jetpeer_cpp.Base.{
  ℕ, String, Option, none, some, ◌≡◌, ◌∙◌, ap, refl, true, false, arith, nat_eq, string_eq,
  next_uint32, if◌then◌else◌,
}
use jetpeer_cpp.Base.Table.{find, put, erase, find-erase_self, find-put_self}
use jetpeer_cpp.Platform.{Platform, Value}
use jetpeer_cpp.Platform.{Double, indexable}
use jetpeer_cpp.Platform.Laws.{JsonLaws}
use jetpeer_cpp.Platform.Objects.{indexable-null, member-set_self, member-set_ne}
use jetpeer_cpp.Defines.Errors.{of_response, with_detail}
use jetpeer_cpp.Peer.Dispatch.Calls.{method_reply}
use jetpeer_cpp.Peer.Dispatch.Shapes.{method_reply-IsAnswer, failure-IsAnswer, code_of, message_of}
use jetpeer_cpp.Peer.Dispatch.Returns.{detail_of, of_response-failure}
use jetpeer_cpp.Defines.Failure.{Failure, JsoncppRpcException, Outcome, ok, raised}
use jetpeer_cpp.Defines.Key
use jetpeer_cpp.Defines.Rpc
use jetpeer_cpp.Defines.Verb
use jetpeer_cpp.Peer.Request.{execute, handle_result, call_response, request_doc}
use jetpeer_cpp.Peer.Registry.{register_state, unregister_state}
use jetpeer_cpp.Peer.Request.Sending.{execute-Opens}
use jetpeer_cpp.Peer.Methods.{call_params, timeout_params}
use jetpeer_cpp.Peer.Methods.Adding.{closed, response_lem, execute-KeepsTables}
use jetpeer_cpp.Peer.State.{World, ResponseCb, StateCb}
use jetpeer_cpp.Peer.Sync.{
  Ending, promised, scoped, with_result, get_future, execute_sync, add_state_private,
  throw_response, throw_read, checked, result_of, call_method,
}

module _ ⦃P : Platform⦄ where
  open P use {null, of_uint, member, is_member, as_uint, set, of_string}

  -- The event loop receives this response.
  abbrev pub receiving : Value → World → World
  receiving v u = (handle_result v u).1

  module _ (p : ℕ) (v id_node doc : Value) (w : World) (has_id : member v Rpc.id ≡ some id_node)
      (is_id : as_uint id_node ≡ some (next_uint32 w.sid)) where
    -- The state in which the waiting thread goes on.
    abbrev pub woken : World
    woken =
        call_response (ResponseCb.fulfils p) v
          (closed v id_node doc (ResponseCb.fulfils p) w has_id is_id)

    promised-woken : promised p woken.trace ≡ some v
    unfolding promised call_response
    promised-woken = ground (arith, nat_eq.equals_iff p p)

    received_lem : receiving v (execute doc (some (ResponseCb.fulfils p)) w).1 ≡ woken
    received_lem = ap (λ r. r.1) (response_lem v id_node doc (ResponseCb.fulfils p) w has_id is_id)

    -- The response that the event loop receives is what the method goes on with.
    pub execute_sync_lem :
        {A : Type 0} (k : Value → World → Ending A)
        → execute_sync p (receiving v) doc k w ≡ scoped (next_uint32 w.sid) (k v woken)
    execute_sync_lem k =
        let id = next_uint32 w.sid in
        let after = (execute doc (some (ResponseCb.fulfils p)) w).1 in
        ap (λ r. scoped id (get_future p (receiving v) k (r, after)))
          (execute-Opens doc (ResponseCb.fulfils p) w).0
        ∙ ap (λ u. scoped id (with_result p k (promised p u.trace) u)) received_lem
        ∙ ap (λ o. scoped id (with_result p k o woken)) promised-woken

  -- The request to add a state, and the state in which it is executed.
  abbrev adding : String → Value → Value → Value
  adding path value params =
      request_doc Verb.add (set (set params Key.path (of_string path)) Key.value value)

  abbrev entered : String → Option StateCb → World → World
  entered path cb w = record w { state_callbacks = put path cb w.state_callbacks }

  module _ (p : ℕ) (v id_node : Value) (path : String) (value params : Value) (cb : Option StateCb)
      (w : World) (has_id : member v Rpc.id ≡ some id_node)
      (is_id : as_uint id_node ≡ some (next_uint32 w.sid)) where
    abbrev after_response : World
    after_response = woken p v id_node (adding path value params) (entered path cb w) has_id is_id

    find-after_response : find path after_response.state_callbacks ≡ some cb
    unfolding call_response
    find-after_response =
        ap (find path)
          (execute-KeepsTables (adding path value params) (ResponseCb.fulfils p)
            (entered path cb w)).same_states
        ∙ find-put_self path cb w.state_callbacks

    -- A synchronous `addState` whose request gets a response that is no error returns, keeps the
    -- callback of the state, and leaves its request closed.
    pub add_state_accepted :
        is_member v Rpc.err ≡ false
        → (u : World) × (add_state_private p (receiving v) path value params cb w
            ≡ Ending.done (ok tt, u))
          × (find path u.state_callbacks ≡ some cb)
          × (find (next_uint32 w.sid) u.open_requests ≡ none)
    unfolding add_state_private register_state
    add_state_accepted accepted =
        let id = next_uint32 w.sid in
        let u = after_response in
        (
          record u { open_requests = erase id u.open_requests },
          execute_sync_lem p v id_node (adding path value params) (entered path cb w) has_id is_id _
              ∙ ap
                  (λ b. scoped id (
                    if b
                    then throw_response v (unregister_state path u).1
                    else Ending.done (ok tt, u)))
                  accepted,
          find-after_response,
          find-erase_self id u.open_requests,
        )

    -- A synchronous `addState` whose request gets an error response that can be read throws the
    -- error of the response. The callback of the state is gone again, and the request is closed.
    pub add_state_refused :
        (e : JsoncppRpcException)
        → is_member v Rpc.err ≡ true
        → of_response v ≡ some e
        → (u : World) × (add_state_private p (receiving v) path value params cb w
            ≡ Ending.done (raised (Failure.jsoncpprpc_exception e), u))
          × (find path u.state_callbacks ≡ none)
          × (find (next_uint32 w.sid) u.open_requests ≡ none)
    unfolding add_state_private register_state unregister_state
    add_state_refused e refused reads =
        let id = next_uint32 w.sid in
        let u = (unregister_state path after_response).1 in
        (
          record u { open_requests = erase id u.open_requests },
          execute_sync_lem p v id_node (adding path value params) (entered path cb w) has_id is_id _
              ∙ ap
                  (λ b.
                    scoped id
                      (if b then throw_response v u else Ending.done (ok tt, after_response)))
                  refused
              ∙ ap (λ o. scoped id (throw_read o u)) reads,
          find-erase_self path after_response.state_callbacks,
          find-erase_self id u.open_requests,
        )

  -- What the caller of a method gets: what the callback of the owner returned, or its exception, with
  -- the code, the message and the data that it is reported with.
  module _ (laws : JsonLaws) where
    abbrev pub relayed : Outcome Value → Outcome Value
    relayed (ok r) = ok r
    relayed (raised e) = raised (
        Failure.jsoncpprpc_exception
          (with_detail (code_of laws e) (message_of laws e) (detail_of laws e)))

    relayed_lem :
        (o : Outcome Value) (id_node : Value) (w : World)
        → checked result_of (set (method_reply o) Rpc.id id_node) w ≡ Ending.done (relayed o, w)
    relayed_lem (ok r) id_node w =
        let h = method_reply-IsAnswer laws (ok r) id_node in
        let i = laws.kind-set null r Rpc.result (indexable-null laws) in
        let found : member (set (set null Rpc.result r) Rpc.id id_node) Rpc.result ≡ some r =
          member-set_ne laws _ id_node Rpc.id Rpc.result (ap indexable i) refl
          ∙ member-set_self laws null r Rpc.result (indexable-null laws) in
        rw (h.0.has_error, found)
    relayed_lem (raised e) id_node w =
        rw ((failure-IsAnswer laws e id_node).0.has_error, of_response-failure laws e id_node)

    reply_id :
        (o : Outcome Value) (id_node : Value)
        → member (set (method_reply o) Rpc.id id_node) Rpc.id ≡ some id_node
    reply_id (ok r) id_node = (method_reply-IsAnswer laws (ok r) id_node).1
    reply_id (raised e) id_node = (failure-IsAnswer laws e id_node).1

    -- A synchronous `callMethod` whose request is answered by the owner of the method ends with what
    -- the callback of the owner did: it returns what the callback returned, or throws an exception
    -- with the code, the message and the data of what the callback threw. Its request is closed.
    pub call_method_relays :
        (p : ℕ) (path : String) (args : Value) (timeout_s : Option Double) (o : Outcome Value)
        (w : World)
        → let id = next_uint32 w.sid in
          let v = set (method_reply o) Rpc.id (of_uint id) in
          (u : World) × (call_method p (receiving v) path args timeout_s w
            ≡ Ending.done (relayed o, u))
          × (find id u.open_requests ≡ none)
    unfolding call_method
    call_method_relays p path args timeout_s o w =
        let id = next_uint32 w.sid in
        let v = set (method_reply o) Rpc.id (of_uint id) in
        let doc = request_doc Verb.call (call_params path args (timeout_params timeout_s)) in
        let has_id = reply_id o (of_uint id) in
        let is_id = laws.as_uint-of_uint id in
        let u = woken p v (of_uint id) doc w has_id is_id in
        (
          record u { open_requests = erase id u.open_requests },
          execute_sync_lem p v (of_uint id) doc w has_id is_id (checked result_of)
              ∙ ap (scoped id) (relayed_lem o (of_uint id) u),
          find-erase_self id u.open_requests,
        )
