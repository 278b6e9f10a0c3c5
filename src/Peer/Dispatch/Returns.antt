-- ===== src/Peer/Dispatch/Returns.antt =====
-- jsoncpprpcException: what its constructor reads from the response that `json` wrote.
use jetpeer_cpp.Base.{ℕ, ℤ, String, ◌≡◌, ◌∙◌, ap, refl, true, some, string_eq}
use jetpeer_cpp.Platform.{Platform, Value, at, indexable, set_in}
use jetpeer_cpp.Platform.Laws.{JsonLaws}
use jetpeer_cpp.Platform.Objects.{
  member-set_self, member-set_ne, member-set_in_self, indexable-set, indexable-set_in,
  indexable-null, at-set_in, at-set_ne, at-null, is_member-set_self,
}
use jetpeer_cpp.Defines.Errors.{of_response, with_detail}
use jetpeer_cpp.Defines.Failure.{Failure, JsoncppRpcException}
use jetpeer_cpp.Defines.Rpc
use jetpeer_cpp.Peer.Dispatch.{code_message, json, failure_response}
use jetpeer_cpp.Peer.Request.{error_response}
use jetpeer_cpp.Peer.Dispatch.Shapes.{
  code_message-IsResponse, code_message-HasError, json-code_message, code_of, message_of,
}

module _ ⦃P : Platform⦄ (laws : JsonLaws) where
  open P use {of_uint, is_member, null, internal_error, set, member, kind, of_int, of_string}

  module _ (e : JsoncppRpcException) (id_node : Value) where
    -- The response that is sent for the exception.
    abbrev written : Value
    written = set (json e) Rpc.id id_node

    -- Its error object.
    abbrev error_of : Value
    error_of = set (at (code_message e.code e.message) Rpc.err) Rpc.detail e.data_obj

    member-written : member written Rpc.err ≡ some error_of
    member-written =
        let o = code_message-IsResponse laws e.code e.message in
        let same = json-code_message laws e in
        let object : indexable (kind (json e)) ≡ true =
          ap (λ v. indexable (kind v)) same
          ∙ indexable-set_in laws _ e.data_obj Rpc.err Rpc.detail o.is_object in
        member-set_ne laws (json e) id_node Rpc.id Rpc.err object refl
        ∙ ap (λ v. member v Rpc.err) same
        ∙ member-set_in_self laws _ e.data_obj Rpc.err Rpc.detail o.is_object

    member-code : member error_of Rpc.code ≡ some (of_int e.code)
    member-code =
        let h = code_message-HasError laws e.code e.message in
        member-set_ne laws _ e.data_obj Rpc.detail Rpc.code h.error_object refl ∙ h.error_code

    member-message : member error_of Rpc.message ≡ some (of_string e.message)
    member-message =
        let h = code_message-HasError laws e.code e.message in
        member-set_ne laws _ e.data_obj Rpc.detail Rpc.message h.error_object refl ∙ h.error_message

    member-detail : member error_of Rpc.detail ≡ some e.data_obj
    member-detail =
        let h = code_message-HasError laws e.code e.message in
        member-set_self laws _ e.data_obj Rpc.detail h.error_object

    -- An exception that a callback throws is read back by the peer that asked: the response that is
    -- sent for it, with whatever id, gives an exception with the same code, message and data.
    pub of_response-json :
        of_response (set (json e) Rpc.id id_node) ≡ some (with_detail e.code e.message e.data_obj)
    unfolding of_response
    of_response-json = rw (
      member-written,
      member-code,
      member-message,
      member-detail,
      laws.as_int-of_int e.code,
      laws.as_string-of_string e.message,
    )

  -- The data that a failure is reported with.
  abbrev pub detail_of : Failure → Value
  detail_of (Failure.jsoncpprpc_exception e) = e.data_obj
  detail_of _ = null

  module _ (code : ℤ) (message : String) where
    -- An error object with no more than a code and a message.
    abbrev plain_error : Value
    plain_error = set (set null Rpc.code (of_int code)) Rpc.message (of_string message)

    of_response-plain :
        (response : Value)
        → member response Rpc.err ≡ some plain_error
        → of_response response ≡ some (with_detail code message null)
    unfolding of_response
    of_response-plain response found =
        let i0 = indexable-null laws in
        let i1 = indexable-set laws null (of_int code) Rpc.code i0 in
        let c : member plain_error Rpc.code ≡ some (of_int code) =
          member-set_ne laws _ (of_string message) Rpc.message Rpc.code i1 refl
          ∙ member-set_self laws null (of_int code) Rpc.code i0 in
        let m : member plain_error Rpc.message ≡ some (of_string message) =
          member-set_self laws _ (of_string message) Rpc.message i1 in
        let d : member plain_error Rpc.detail ≡ some null =
          member-set_ne laws _ (of_string message) Rpc.message Rpc.detail i1 refl
          ∙ member-set_ne laws null (of_int code) Rpc.code Rpc.detail i0 refl
          ∙ laws.member-null Rpc.detail in
        rw (found, c, m, d, laws.as_int-of_int code, laws.as_string-of_string message)

    -- Writing the code and the message to a response that has no error yet.
    member-plain :
        (o : Value)
        → indexable (kind o) ≡ true
        → at o Rpc.err ≡ null
        → member
            (set_in
              (set_in o Rpc.err Rpc.code (of_int code))
              Rpc.err
              Rpc.message
              (of_string message))
            Rpc.err
          ≡ some plain_error
    member-plain o i0 empty =
        let i1 = indexable-set_in laws o (of_int code) Rpc.err Rpc.code i0 in
        member-set_in_self laws _ (of_string message) Rpc.err Rpc.message i1
        ∙ ap (λ x. some (set x Rpc.message (of_string message)))
            (at-set_in laws o (of_int code) Rpc.err Rpc.code i0
              ∙ ap (λ x. set x Rpc.code (of_int code)) empty)

    of_response-code_message :
        (id_node : Value)
        → of_response (set (code_message code message) Rpc.id id_node)
          ≡ some (with_detail code message null)
    unfolding code_message
    of_response-code_message id_node = of_response-plain _ (
        member-set_ne laws _ id_node Rpc.id Rpc.err
          (code_message-IsResponse laws code message).is_object refl
        ∙ member-plain null (indexable-null laws) (at-null laws Rpc.err))

    -- The error that AsyncRequest makes for a request itself.
    pub of_response-error_response :
        (id : ℕ)
        → of_response (error_response id code message) ≡ some (with_detail code message null)
    unfolding error_response
    of_response-error_response id =
        let i0 = indexable-null laws in
        of_response-plain _ (
          member-plain (set null Rpc.id (of_uint id))
            (indexable-set laws null (of_uint id) Rpc.id i0)
            (at-set_ne laws null (of_uint id) Rpc.id Rpc.err i0 refl ∙ at-null laws Rpc.err))

    pub is_member-error_response :
        (id : ℕ) → is_member (error_response id code message) Rpc.err ≡ true
    unfolding error_response
    is_member-error_response id = is_member-set_self laws _ _ Rpc.err (
        indexable-set_in laws _ (of_int code) Rpc.err Rpc.code
          (indexable-set laws null (of_uint id) Rpc.id (indexable-null laws)))

  -- The response that is sent for what a callback throws, with whatever id, is read back by the
  -- constructor of jsoncpprpcException: it gives an exception with the code and the message that
  -- the failure is reported with, and with the data of a jsoncpprpcException, or no data.
  pub of_response-failure :
      (e : Failure) (id_node : Value)
      → of_response (set (failure_response e) Rpc.id id_node)
        ≡ some (with_detail (code_of laws e) (message_of laws e) (detail_of e))
  unfolding failure_response
  of_response-failure (Failure.jsonrpc_exception code message) id_node =
      of_response-code_message code message id_node
  of_response-failure (Failure.jsoncpprpc_exception e) id_node = of_response-json e id_node
  of_response-failure (Failure.std_exception what) id_node =
      of_response-code_message internal_error what id_node
  of_response-failure Failure.other id_node = of_response-code_message internal_error _ id_node
