-- ===== src/Peer/Sync.antt =====
-- Peer (lib/peer.cpp) and SyncRequest (lib/syncrequest.cpp): methods that wait for the response, which
-- the thread of the event loop gives to a promise.
pub mod Waits
pub mod Forwards
pub mod Stops
pub mod Sets
pub mod Owners
use jetpeer_cpp.Base.{
  ℕ, ℤ, String, Option, none, some, List, [], ◌∷◌, Bool, true, false, if◌then◌else◌, ◌==◌, nat_eq,
  next_uint32, minus_one, not,
}
use jetpeer_cpp.Base.Table.{erase}
use jetpeer_cpp.Platform.{Platform, Value, Double, is_null}
use jetpeer_cpp.Defines.{Matcher, SetStateResult, no_warning}
use jetpeer_cpp.Defines.Errors.{of_response, with_detail}
use jetpeer_cpp.Defines.Failure.{Failure, JsoncppRpcException, Outcome, ok, raised}
use jetpeer_cpp.Defines.Key
use jetpeer_cpp.Defines.Matching.{add_path_information}
use jetpeer_cpp.Defines.Rpc
use jetpeer_cpp.Defines.Verb
use jetpeer_cpp.Peer.Request.{request_doc, execute}
use jetpeer_cpp.Peer.Registry.{
  register_fetch, register_method, register_state, unregister_fetch, unregister_method,
  unregister_state, create_fetch_id,
}
use jetpeer_cpp.Peer.Methods.{timeout_params, add_groups, call_params, fetch_params}
use jetpeer_cpp.Peer.State.{
  World, ResponseCb, StateCb, MethodCb, Effect, M, pure, throw, json_error, or_throw, ◌>>=◌, ◌>>◌,
}

module _ ⦃P : Platform⦄ where
  open P use {null, set, is_member, is_int, as_int, member, of_string, of_bool, of_int}

  -- How a call ends: it returns or throws, it waits for ever, or the program is terminated, because a
  -- constructor that is `noexcept` throws.
  pub data Ending (A : Type 0) : Type 0 where
    done : Outcome A × World → Ending A
    waits : World → Ending A
    terminated : World → Ending A

  -- What the event loop does while the caller waits.
  abbrev pub Loop : Type 0
  Loop = World → World

  -- The value of the promise p, which is set once.
  unfoldable pub promised : ℕ → List Effect → Option Value
  promised p [] = none
  promised p (Effect.promise_set q v ∷ rest) = if q == p then some v else promised p rest
  promised p (e ∷ rest) = promised p rest

  -- The rest of the method, and then the destructor of the request, which erases its id.
  abbrev pub destructed : {A : Type 0} → ℕ → Outcome A × World → Outcome A × World
  destructed id (r, w) = (r, record w { open_requests = erase id w.open_requests })

  abbrev pub with_result :
      {A : Type 0} → ℕ → (Value → World → Ending A) → Option Value → World → Ending A
  with_result p k none w = Ending.waits w
  with_result p k (some v) w = k v w

  abbrev pub scoped : {A : Type 0} → ℕ → Ending A → Ending A
  scoped id (Ending.done r) = Ending.done (destructed id r)
  scoped id (Ending.waits w) = Ending.waits w
  scoped id (Ending.terminated w) = Ending.terminated w

  -- f.get(), behind `execute`
  abbrev pub get_future :
      {A : Type 0} → ℕ → Loop → (Value → World → Ending A) → Outcome (Unit {0}) × World → Ending A
  get_future p loop k (ok _, w) = let w' = loop w in with_result p k (promised p w'.trace) w'
  get_future p loop k (raised e, w) = Ending.done (raised e, w)

  -- executeSync, and what the method does with its result; p names the promise of the request.
  abbrev pub execute_sync :
      {A : Type 0} → ℕ → Loop → Value → (Value → World → Ending A) → World → Ending A
  execute_sync p loop doc k w =
      scoped (next_uint32 w.sid) (get_future p loop k (execute doc (some (ResponseCb.fulfils p)) w))

  abbrev finish : {A : Type 0} → M A → World → Ending A
  finish m w = Ending.done (m w)

  abbrev pub throw_read : {A : Type 0} → Option JsoncppRpcException → World → Ending A
  throw_read none w = Ending.terminated w
  throw_read (some e) w = Ending.done (raised (Failure.jsoncpprpc_exception e), w)

  -- throw jsoncpprpcException(result)
  abbrev pub throw_response : {A : Type 0} → Value → World → Ending A
  throw_response result w = throw_read (of_response result) w

  -- `result` is thrown if it is an error, and else used.
  abbrev pub checked : {A : Type 0} → (Value → M A) → Value → World → Ending A
  checked use_result result w =
      if is_member result Rpc.err then throw_response result w else finish (use_result result) w

  -- return result[jsonrpc::RESULT]
  abbrev pub result_of : Value → M Value
  result_of result = or_throw (member result Rpc.result)

  -- The warning of a result that is no error: its code is kept, its message is not.
  abbrev pub warning_of : Value → M SetStateResult
  warning_of result = do
    result_node ← or_throw (member result Rpc.result)
    warning ← or_throw (member result_node Key.warning)
    code_node ← or_throw (member warning Rpc.code)
    if is_int code_node
        then (do code ← or_throw (as_int code_node); pure (record { code = code; message = "" }))
        else pure no_warning

  module _ (p : ℕ) (loop : Loop) where
    unfoldable pub authenticate : String → String → World → Ending Value
    authenticate user password =
        let params = set (set null Key.user (of_string user)) Key.password (of_string password) in
        execute_sync p loop (request_doc Verb.authenticate params) (checked result_of)

    unfoldable pub info : World → Ending Value
    info = execute_sync p loop (request_doc Verb.info null) (λ result. finish (pure result))

    unfoldable pub config : String → Bool → World → Ending Value
    config name debug =
        let params = set (set null Key.name (of_string name)) Key.dbg (of_bool debug) in
        execute_sync p loop (request_doc Verb.config params) (λ result. finish (pure result))

    -- callMethod with and without a timeout, and callMethodPrivate
    unfoldable pub call_method : String → Value → Option Double → World → Ending Value
    call_method path args timeout_s =
        execute_sync p loop
          (request_doc Verb.call (call_params path args (timeout_params timeout_s)))
          (checked result_of)

    -- What a method does that enters a callback first and takes it back on an error.
    abbrev pub undone :
        (World → World) → (Value → World → Ending (Unit {0})) → Value → World → Ending (Unit {0})
    undone unregister fail result w =
        if is_member result Rpc.err then fail result (unregister w) else Ending.done (ok tt, w)

    -- The exception has the name of this function for its message, as the compiler spells it.
    unfoldable pub add_method_private :
        String → String → Value → MethodCb → World → Ending (Unit {0})
    add_method_private pretty_function path params callback w =
        execute_sync p loop (request_doc Verb.add (set params Key.path (of_string path)))
          (undone (λ u. (unregister_method path u).1)
            (λ result u. Ending.done (
              raised (Failure.jsoncpprpc_exception (with_detail minus_one pretty_function result)),
              u,
            )))
          (register_method path callback w).1

    -- addMethod without and with a timeout
    unfoldable pub add_method :
        String → String → Option Double → MethodCb → World → Ending (Unit {0})
    unfolding add_method_private
    add_method pretty_function path timeout_s callback =
        add_method_private pretty_function path (timeout_params timeout_s) callback

    -- addMethod with user groups
    unfoldable pub add_method_for_groups :
        String → String → List String → List String → MethodCb → Double → World → Ending (Unit {0})
    unfolding add_method_private
    add_method_for_groups pretty_function path fetch_groups call_groups callback timeout_s =
        let p1 = add_groups Key.fetch_groups fetch_groups (timeout_params (some timeout_s)) in
        let p2 = add_groups Key.call_groups call_groups p1 in
        add_method_private pretty_function path p2 callback

    unfoldable pub add_state_private :
        String → Value → Value → Option StateCb → World → Ending (Unit {0})
    add_state_private path value params callback w =
        execute_sync p loop
          (request_doc Verb.add (set (set params Key.path (of_string path)) Key.value value))
          (undone (λ u. (unregister_state path u).1) throw_response)
          (register_state path callback w).1

    -- addState without and with a timeout
    unfoldable pub add_state :
        String → Value → Option Double → Option StateCb → World → Ending (Unit {0})
    unfolding add_state_private
    add_state path value timeout_s callback =
        add_state_private path value (timeout_params timeout_s) callback

    -- addState with user groups
    unfoldable pub add_state_for_groups :
        String
        → List String
        → List String
        → Value
        → Double
        → Option StateCb
        → World
        → Ending (Unit {0})
    unfolding add_state_private
    add_state_for_groups path fetch_groups set_groups value timeout_s callback =
        let p1 = add_groups Key.fetch_groups fetch_groups (timeout_params (some timeout_s)) in
        let p2 = add_groups Key.set_groups set_groups p1 in add_state_private path value p2 callback

    unfoldable pub get : Matcher → World → Ending Value
    get match =
        execute_sync p loop (request_doc Verb.get (add_path_information null match))
          (λ result. finish (pure result))

    abbrev fetched : ℤ → Value → World → Ending ℤ
    fetched id result w =
        if is_member result Rpc.err
        then throw_response result (unregister_fetch id w).1
        else Ending.done (ok id, w)

    abbrev add_fetch_with : ℤ → Matcher → Option ℕ → World → Ending ℤ
    add_fetch_with id match callback w =
        execute_sync p loop (request_doc Verb.fetch (fetch_params id match)) (fetched id)
          (register_fetch id (record { callback = callback; matcher = match }) w).1

    unfoldable pub add_fetch : Matcher → Option ℕ → World → Ending ℤ
    add_fetch match callback w =
        let (r, w') = create_fetch_id w in
        elim r [
          | ok id ↦ add_fetch_with id match callback w'
          | raised e ↦ Ending.done (raised e, w')
        ]

    -- setStateValue with and without a timeout, and setStateValuePrivate
    unfoldable pub set_state_value : String → Value → Option Double → World → Ending SetStateResult
    set_state_value path value timeout_s =
        let params =
          set (set (timeout_params timeout_s) Key.path (of_string path)) Key.value value in
        execute_sync p loop (request_doc Verb.set params) (checked warning_of)
