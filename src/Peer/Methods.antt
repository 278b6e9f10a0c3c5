-- ===== src/Peer/Methods.antt =====
-- The asynchronous methods of PeerAsync that send a request: each builds the parameters, enters what
-- the peer must keep, and executes an AsyncRequest.
pub mod Adding
use jetpeer_cpp.Base.{
  ℤ, ℕ, String, Option, none, some, List, [], ◌∷◌, if◌then◌else◌, str_empty, is_empty, Bool, true,
}
use jetpeer_cpp.Platform.{Platform, Value, Double, is_null, set_in}
use jetpeer_cpp.Defines.{Matcher}
use jetpeer_cpp.Defines.Key
use jetpeer_cpp.Defines.Rpc
use jetpeer_cpp.Defines.Verb
use jetpeer_cpp.Defines.Matching.{add_path_information}
use jetpeer_cpp.Peer.Request.{request_doc, execute, execute_no_response}
use jetpeer_cpp.Peer.Registry.{
  register_fetch, register_method, register_state, unregister_fetch, unregister_method,
  unregister_state, create_fetch_id,
}
use jetpeer_cpp.Peer.State.{ResponseCb, StateCb, MethodCb, M, pure, ◌>>=◌, ◌>>◌}

module _ ⦃P : Platform⦄ where
  open P use {null, set, append, empty_array, of_bool, of_int, of_string, of_double}

  -- A callback that the caller passes; `none` is an empty one.
  abbrev pub UserCb : Type 0
  UserCb = Option ℕ

  abbrev pub to_response : UserCb → Option ResponseCb
  to_response none = none
  to_response (some u) = some (ResponseCb.user u)

  unfoldable pub info_async : UserCb → M (Unit {0})
  info_async cb = execute (request_doc Verb.info null) (to_response cb)

  unfoldable pub config_async : String → Bool → UserCb → M (Unit {0})
  config_async name debug cb =
      let params = set (set null Key.name (of_string name)) Key.dbg (of_bool debug) in
      execute (request_doc Verb.config params) (to_response cb)

  unfoldable pub authenticate_async : String → String → UserCb → M (Unit {0})
  authenticate_async user password cb =
      let params = set (set null Key.user (of_string user)) Key.password (of_string password) in
      execute (request_doc Verb.authenticate params) (to_response cb)

  -- The parameters of the overloads with and without a timeout.
  abbrev pub timeout_params : Option Double → Value
  timeout_params none = null
  timeout_params (some timeout_s) = set null Key.timeout (of_double timeout_s)

  abbrev append_groups : List String → Value → Value
  append_groups [] groups = groups
  append_groups (g ∷ rest) groups = append_groups rest (append groups (of_string g))

  -- params[ACCESS][key] = groups, unless there are none
  abbrev pub add_groups : String → List String → Value → Value
  add_groups key groups params =
      if is_empty groups
      then params
      else set_in params Key.access key (append_groups groups empty_array)

  unfoldable pub call_params : String → Value → Value → Value
  call_params path args params =
      let p = set params Key.path (of_string path) in
      if is_null args then p else set p Key.args args

  -- callMethodAsync, both overloads, and callMethodAsyncPrivate
  unfoldable pub call_method_async : String → Value → Option Double → UserCb → M (Unit {0})
  unfolding call_params
  call_method_async path args timeout_s cb =
      execute (request_doc Verb.call (call_params path args (timeout_params timeout_s)))
        (to_response cb)

  abbrev pub execute_wrapped : Value → Option ResponseCb → M (Unit {0})
  execute_wrapped doc none = execute_no_response doc
  execute_wrapped doc (some cb) = execute doc (some cb)

  abbrev pub method_wrapper : String → UserCb → Option ResponseCb
  method_wrapper path none = none
  method_wrapper path (some u) = some (ResponseCb.method_added path u)

  abbrev pub state_wrapper : String → UserCb → Option ResponseCb
  state_wrapper path none = none
  state_wrapper path (some u) = some (ResponseCb.state_added path u)

  abbrev pub fetch_wrapper : ℤ → UserCb → Option ResponseCb
  fetch_wrapper id none = none
  fetch_wrapper id (some u) = some (ResponseCb.fetch_added id u)

  unfoldable pub add_method_async_private : String → Value → UserCb → MethodCb → M (Unit {0})
  add_method_async_private path params cb callback = do
    register_method path callback
    execute_wrapped (request_doc Verb.add (set params Key.path (of_string path)))
        (method_wrapper path cb)

  -- addMethodAsync without and with a timeout
  unfoldable pub add_method_async : String → Option Double → UserCb → MethodCb → M (Unit {0})
  unfolding add_method_async_private
  add_method_async path timeout_s cb callback =
      add_method_async_private path (timeout_params timeout_s) cb callback

  -- addMethodAsync with user groups
  unfoldable pub add_method_with_groups :
      String → List String → List String → MethodCb → Double → UserCb → M (Unit {0})
  unfolding add_method_async_private
  add_method_with_groups path fetch_groups call_groups callback timeout_s cb =
      let p1 = add_groups Key.fetch_groups fetch_groups (timeout_params (some timeout_s)) in
      let p2 = add_groups Key.call_groups call_groups p1 in
      add_method_async_private path p2 cb callback

  unfoldable pub remove_method_async : String → UserCb → M (Unit {0})
  remove_method_async path cb = if str_empty path then pure tt else (do
    unregister_method path
    execute (request_doc Verb.remove (set null Key.path (of_string path))) (to_response cb))

  -- A state without a callback can only be fetched.
  abbrev pub add_state_params : String → Value → Value → Option StateCb → Value
  add_state_params path value params (some callback) =
      set (set params Key.path (of_string path)) Key.value value
  add_state_params path value params none =
      set (set (set params Key.path (of_string path)) Key.value value) Key.fetch_only (of_bool true)

  unfoldable pub add_state_async_private :
      String → Value → Value → UserCb → Option StateCb → M (Unit {0})
  add_state_async_private path value params cb callback = do
    register_state path callback
    execute_wrapped (request_doc Verb.add (add_state_params path value params callback))
        (state_wrapper path cb)

  -- addStateAsync without and with a timeout
  unfoldable pub add_state_async :
      String → Value → Option Double → UserCb → Option StateCb → M (Unit {0})
  unfolding add_state_async_private
  add_state_async path value timeout_s cb callback =
      add_state_async_private path value (timeout_params timeout_s) cb callback

  -- addStateAsync with user groups
  unfoldable pub add_state_with_groups :
      String → List String → List String → Value → Double → UserCb → Option StateCb → M (Unit {0})
  unfolding add_state_async_private
  add_state_with_groups path fetch_groups set_groups value timeout_s cb callback =
      let p1 = add_groups Key.fetch_groups fetch_groups (timeout_params (some timeout_s)) in
      let p2 = add_groups Key.set_groups set_groups p1 in
      add_state_async_private path value p2 cb callback

  unfoldable pub remove_state_async : String → UserCb → M (Unit {0})
  remove_state_async path cb = if str_empty path then pure tt else (do
    unregister_state path
    execute (request_doc Verb.remove (set null Key.path (of_string path))) (to_response cb))

  -- setStateValueAsync, both overloads, and setStateValueAsyncPrivate
  unfoldable pub set_state_value_async : String → Value → Option Double → UserCb → M (Unit {0})
  set_state_value_async path value timeout_s cb =
      let params = set (set (timeout_params timeout_s) Key.path (of_string path)) Key.value value in
      execute (request_doc Verb.set params) (to_response cb)

  unfoldable pub get_async : Matcher → UserCb → M (Unit {0})
  get_async match cb =
      execute (request_doc Verb.get (add_path_information null match)) (to_response cb)

  abbrev pub fetch_params : ℤ → Matcher → Value
  fetch_params id match = add_path_information (set null Rpc.id (of_int id)) match

  unfoldable pub add_fetch_async : Matcher → Option ℕ → UserCb → M ℤ
  add_fetch_async match callback cb = do
    id ← create_fetch_id
    register_fetch id (record { callback = callback; matcher = match })
    execute_wrapped (request_doc Verb.fetch (fetch_params id match)) (fetch_wrapper id cb)
    pure id

  -- The request that restoreFetch repeats for a fetch that is known.
  abbrev pub fetch_doc : ℤ → Matcher → Value
  fetch_doc id match = request_doc Verb.fetch (fetch_params id match)

  unfoldable pub restore_fetch : Matcher → ℤ → M (Unit {0})
  restore_fetch match id = execute (fetch_doc id match) none

  unfoldable pub remove_fetch_async : ℤ → UserCb → M (Unit {0})
  remove_fetch_async id cb = do
    unregister_fetch id
    execute (request_doc Verb.unfetch (set null Rpc.id (of_int id))) (to_response cb)
