-- ===== src/Peer/Dispatch/Shapes.antt =====
-- The responses of PeerAsync::handleMessage are responses of JSON-RPC: an error or a result, never
-- both, and the id of the request.
use jetpeer_cpp.Base.{
  ℤ, String, some, Bool, true, false, ◌≡◌, ◌∙◌, ap, refl, ◌==◌, string_eq, int_eq, not, if-cases,
}
use jetpeer_cpp.Platform.{Platform, Value, indexable, at, set_in}
use jetpeer_cpp.Platform.Laws.{JsonLaws}
use jetpeer_cpp.Platform.Objects.{
  indexable-null, indexable-set, indexable-set_in, member-set_self, member-set_ne,
  is_member-set_self, is_member-set_ne, at-set_in, at-null, at-set_ne,
}
use jetpeer_cpp.Defines.{SetStateCbResult, SetStateResult, warn_none}
use jetpeer_cpp.Defines.Failure.{Failure, JsoncppRpcException, Outcome, ok, raised}
use jetpeer_cpp.Defines.Rpc
use jetpeer_cpp.Peer.Dispatch.{code_message, json, failure_response, state_result}
use jetpeer_cpp.Peer.Dispatch.Replies.{state_outcome_reply}
use jetpeer_cpp.Peer.Dispatch.Calls.{method_reply}

module _ ⦃P : Platform⦄ (laws : JsonLaws) where
  open P use {null, set, kind, member, is_member, of_int, of_string, empty_object, internal_error}

  -- An object with an error and no result, or with a result and no error.
  pub record IsResponse (failed : Bool) (v : Value) : Type 0 where
    pub is_object : indexable (kind v) ≡ true
    pub has_error : is_member v Rpc.err ≡ failed
    pub has_result : is_member v Rpc.result ≡ not failed

  -- The code that a failure is reported with, and its message.
  abbrev pub code_of : Failure → ℤ
  code_of (Failure.jsonrpc_exception code message) = code
  code_of (Failure.jsoncpprpc_exception e) = e.code
  code_of (Failure.std_exception what) = internal_error
  code_of Failure.other = internal_error

  abbrev pub message_of : Failure → String
  message_of (Failure.jsonrpc_exception code message) = message
  message_of (Failure.jsoncpprpc_exception e) = e.message
  message_of (Failure.std_exception what) = what
  message_of Failure.other = "caught exception!"

  -- The error object of a response.
  pub record HasError (code : ℤ) (message : String) (v : Value) : Type 0 where
    pub error_object : indexable (kind (at v Rpc.err)) ≡ true
    pub error_code : member (at v Rpc.err) Rpc.code ≡ some (of_int code)
    pub error_message : member (at v Rpc.err) Rpc.message ≡ some (of_string message)

  module _ (code : ℤ) (message : String) where
    abbrev with_code : Value
    with_code = set_in null Rpc.err Rpc.code (of_int code)

    with_code-object : indexable (kind with_code) ≡ true
    with_code-object =
        indexable-set_in laws null (of_int code) Rpc.err Rpc.code (indexable-null laws)

    at-with_code : at with_code Rpc.err ≡ set null Rpc.code (of_int code)
    at-with_code =
        at-set_in laws null (of_int code) Rpc.err Rpc.code (indexable-null laws)
        ∙ ap (λ v. set v Rpc.code (of_int code)) (at-null laws Rpc.err)

    pub code_message-IsResponse : IsResponse true (code_message code message)
    unfolding code_message
    code_message-IsResponse = record {
      is_object =
          indexable-set_in laws with_code (of_string message) Rpc.err Rpc.message with_code-object;
      has_error = is_member-set_self laws with_code _ Rpc.err with_code-object;
      has_result =
          is_member-set_ne laws with_code _ Rpc.err Rpc.result with_code-object refl
          ∙ is_member-set_ne laws null _ Rpc.err Rpc.result (indexable-null laws) refl
          ∙ laws.is_member-null Rpc.result;
    }

    pub code_message-HasError : HasError code message (code_message code message)
    unfolding code_message
    code_message-HasError =
        let object : at (code_message code message) Rpc.err
            ≡ set (set null Rpc.code (of_int code)) Rpc.message (of_string message) =
          at-set_in laws with_code (of_string message) Rpc.err Rpc.message with_code-object
          ∙ ap (λ v. set v Rpc.message (of_string message)) at-with_code in
        let inner = indexable-set laws null (of_int code) Rpc.code (indexable-null laws) in
        record {
          error_object =
              ap (λ v. indexable (kind v)) object ∙ indexable-set laws _ _ Rpc.message inner;
          error_code =
              ap (λ v. member v Rpc.code) object
              ∙ member-set_ne laws _ _ Rpc.message Rpc.code inner refl
              ∙ member-set_self laws null _ Rpc.code (indexable-null laws);
          error_message =
              ap (λ v. member v Rpc.message) object ∙ member-set_self laws _ _ Rpc.message inner;
        }

  -- jsoncpprpcException::json adds the detail to such an object.
  module _ (e : JsoncppRpcException) where
    pub json-code_message :
        json e ≡ set_in (code_message e.code e.message) Rpc.err Rpc.detail e.data_obj
    unfolding json code_message
    json-code_message = refl

    json-IsResponse : IsResponse true (json e)
    json-IsResponse =
        let o = code_message-IsResponse e.code e.message in
        rw json-code_message (record {
          is_object = indexable-set_in laws _ _ Rpc.err Rpc.detail o.is_object;
          has_error = is_member-set_self laws _ _ Rpc.err o.is_object;
          has_result = is_member-set_ne laws _ _ Rpc.err Rpc.result o.is_object refl ∙ o.has_result;
        })

    json-HasError : HasError e.code e.message (json e)
    json-HasError =
        let o = code_message-IsResponse e.code e.message in
        let h = code_message-HasError e.code e.message in
        let object =
          ap (λ v. at v Rpc.err) json-code_message
          ∙ at-set_in laws (code_message e.code e.message) e.data_obj Rpc.err Rpc.detail
              o.is_object in
        record {
          error_object =
              ap (λ v. indexable (kind v)) object
              ∙ indexable-set laws _ _ Rpc.detail h.error_object;
          error_code =
              ap (λ v. member v Rpc.code) object
              ∙ member-set_ne laws _ _ Rpc.detail Rpc.code h.error_object refl
              ∙ h.error_code;
          error_message =
              ap (λ v. member v Rpc.message) object
              ∙ member-set_ne laws _ _ Rpc.detail Rpc.message h.error_object refl
              ∙ h.error_message;
        }

  failure_response-IsResponse : (e : Failure) → IsResponse true (failure_response e)
  unfolding failure_response
  failure_response-IsResponse (Failure.jsonrpc_exception code message) =
      code_message-IsResponse code message
  failure_response-IsResponse (Failure.jsoncpprpc_exception e) = json-IsResponse e
  failure_response-IsResponse (Failure.std_exception what) =
      code_message-IsResponse internal_error what
  failure_response-IsResponse Failure.other = code_message-IsResponse internal_error _

  failure_response-HasError :
      (e : Failure) → HasError (code_of e) (message_of e) (failure_response e)
  unfolding failure_response
  failure_response-HasError (Failure.jsonrpc_exception code message) =
      code_message-HasError code message
  failure_response-HasError (Failure.jsoncpprpc_exception e) = json-HasError e
  failure_response-HasError (Failure.std_exception what) = code_message-HasError internal_error what
  failure_response-HasError Failure.other = code_message-HasError internal_error _

  result-IsResponse : (v : Value) → IsResponse false (set null Rpc.result v)
  result-IsResponse v = record {
    is_object = indexable-set laws null v Rpc.result (indexable-null laws);
    has_error =
        is_member-set_ne laws null v Rpc.result Rpc.err (indexable-null laws) refl
        ∙ laws.is_member-null Rpc.err;
    has_result = is_member-set_self laws null v Rpc.result (indexable-null laws);
  }

  pub state_result-IsResponse : (r : SetStateResult) → IsResponse false (state_result r)
  unfolding state_result
  state_result-IsResponse r =
      if-cases (IsResponse false) (r.code == warn_none) (λ _. result-IsResponse empty_object)
        (λ _. result-IsResponse _)

  -- The id is added to a response and takes nothing from it.
  IsResponse-with_id :
      (failed : Bool) (v id_node : Value)
      → IsResponse failed v
      → IsResponse failed (set v Rpc.id id_node)
  IsResponse-with_id failed v id_node h = record {
    is_object = indexable-set laws v id_node Rpc.id h.is_object;
    has_error = is_member-set_ne laws v id_node Rpc.id Rpc.err h.is_object refl ∙ h.has_error;
    has_result = is_member-set_ne laws v id_node Rpc.id Rpc.result h.is_object refl ∙ h.has_result;
  }

  HasError-with_id :
      (code : ℤ) (message : String) (v id_node : Value)
      → IsResponse true v
      → HasError code message v
      → HasError code message (set v Rpc.id id_node)
  HasError-with_id code message v id_node o h =
      let same : at (set v Rpc.id id_node) Rpc.err ≡ at v Rpc.err =
        at-set_ne laws v id_node Rpc.id Rpc.err o.is_object refl in
      record {
        error_object = ap (λ u. indexable (kind u)) same ∙ h.error_object;
        error_code = ap (λ u. member u Rpc.code) same ∙ h.error_code;
        error_message = ap (λ u. member u Rpc.message) same ∙ h.error_message;
      }

  -- What a response to a callback that ends in this way must be: it carries the id, and a result if
  -- the callback returned, or an error with the code and the message of what it threw.
  abbrev pub IsAnswer : {A : Type 0} → Outcome A → Value → Value → Type 0
  IsAnswer (ok _) id_node v = IsResponse false v × (member v Rpc.id ≡ some id_node)
  IsAnswer (raised e) id_node v =
      IsResponse true v × (member v Rpc.id ≡ some id_node) × HasError (code_of e) (message_of e) v

  pub failure-IsAnswer :
      (e : Failure) (id_node : Value)
      → let v = set (failure_response e) Rpc.id id_node in
        IsResponse true v × (member v Rpc.id ≡ some id_node) × HasError (code_of e) (message_of e) v
  failure-IsAnswer e id_node =
      let o = failure_response-IsResponse e in
      (
        IsResponse-with_id true _ id_node o,
        member-set_self laws _ id_node Rpc.id o.is_object,
        HasError-with_id _ _ _ id_node o (failure_response-HasError e),
      )

  returned-IsAnswer :
      (v id_node : Value)
      → IsResponse false v
      → IsResponse false (set v Rpc.id id_node)
        × (member (set v Rpc.id id_node) Rpc.id ≡ some id_node)
  returned-IsAnswer v id_node h =
      (IsResponse-with_id false v id_node h, member-set_self laws v id_node Rpc.id h.is_object)

  -- The response that is made of a set request, by what the request came to.
  pub state_outcome_reply-IsAnswer :
      (o : Outcome SetStateCbResult) (id_node : Value)
      → IsAnswer o id_node (set (state_outcome_reply o) Rpc.id id_node)
  state_outcome_reply-IsAnswer (ok r) id_node =
      returned-IsAnswer _ id_node (state_result-IsResponse r.result)
  state_outcome_reply-IsAnswer (raised e) id_node = failure-IsAnswer e id_node

  -- The response that is sent after a method callback carries the id of the request, and is a
  -- result and no error if the callback returned, or an error and no result, with the code and the
  -- message of what it threw.
  pub method_reply-IsAnswer :
      (o : Outcome Value) (id_node : Value)
      → IsAnswer o id_node (set (method_reply o) Rpc.id id_node)
  method_reply-IsAnswer (ok v) id_node = returned-IsAnswer _ id_node (result-IsResponse v)
  method_reply-IsAnswer (raised e) id_node = failure-IsAnswer e id_node
