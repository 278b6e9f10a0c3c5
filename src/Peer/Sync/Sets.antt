-- ===== src/Peer/Sync/Sets.antt =====
-- Peer::setStateValue: what the caller gets of the response to its request.
use jetpeer_cpp.Base.{
  ℕ, ℤ, String, str_empty, Option, none, some, ◌≡◌, ◌∙◌, ap, sym, refl, nat_eq, int_eq, string_eq,
  next_uint32, if◌then◌else◌, if-cases, ◌==◌, Bool-cases, inl, inr,
}
use jetpeer_cpp.Base.Table.{find, erase, find-erase_self}
use jetpeer_cpp.Platform.{Platform, Value, Double}
use jetpeer_cpp.Platform.Laws.{JsonLaws, IntLaws, FitsInt}
use jetpeer_cpp.Platform.Objects.{indexable-null, indexable-set, member-set_self, member-set_ne}
use jetpeer_cpp.Defines.{SetStateResult, SetStateCbResult, warn_none, no_warning}
use jetpeer_cpp.Defines.Errors.{with_detail}
use jetpeer_cpp.Defines.Failure.{Failure, Outcome, ok, raised}
use jetpeer_cpp.Defines.Key
use jetpeer_cpp.Defines.Rpc
use jetpeer_cpp.Defines.Verb
use jetpeer_cpp.Peer.Dispatch.{state_result}
use jetpeer_cpp.Peer.Dispatch.Replies.{state_outcome_reply}
use jetpeer_cpp.Peer.Dispatch.Returns.{detail_of, of_response-failure}
use jetpeer_cpp.Peer.Dispatch.Shapes.{
  state_outcome_reply-IsAnswer, failure-IsAnswer, code_of, message_of,
}
use jetpeer_cpp.Peer.Methods.{timeout_params}
use jetpeer_cpp.Peer.Request.{request_doc}
use jetpeer_cpp.Peer.State.{World}
use jetpeer_cpp.Peer.Sync.{Ending, checked, warning_of, scoped, set_state_value}
use jetpeer_cpp.Peer.Sync.Waits.{receiving, woken, execute_sync_lem}

module _ ⦃P : Platform⦄ (laws : JsonLaws) (ints : IntLaws) where
  open P use {null, empty_object, set, member, is_int, as_int, of_int, of_uint, of_string}

  -- The code of the warning arrives, its message does not.
  abbrev pub state_relayed : Outcome SetStateCbResult → Outcome SetStateResult
  state_relayed (ok r) = ok (record { code = r.result.code; message = "" })
  state_relayed (raised e) = raised (
      Failure.jsoncpprpc_exception
        (with_detail (code_of laws e) (message_of laws e) (detail_of laws e)))

  -- The codes are values of the type int.
  abbrev pub HasIntCode : Outcome SetStateCbResult → Type 0
  HasIntCode (ok r) = FitsInt r.result.code
  HasIntCode (raised e) = Unit

  -- A result that has this member `result`, and what the warning in it says.
  warning_of-plain :
      (v : Value) (w : World)
      → member v Rpc.result ≡ some empty_object
      → warning_of v w ≡ (ok no_warning, w)
  warning_of-plain v w e =
      rw (e, laws.member-empty_object Key.warning, laws.member-null Rpc.code, ints.is_int-null) refl

  warning_of-code :
      (v warning : Value) (code : ℤ) (w : World)
      → member v Rpc.result ≡ some (set null Key.warning warning)
      → member warning Rpc.code ≡ some (of_int code)
      → FitsInt code
      → warning_of v w ≡ (ok (record { code = code; message = "" }), w)
  warning_of-code v warning code w e has_code fits =
      rw
        (
          e,
          member-set_self laws null warning Key.warning (indexable-null laws),
          has_code,
          ints.is_int-of_int code fits,
          laws.as_int-of_int code,
        )
        refl

  -- The code in a warning, with or without a message behind it.
  warning_code :
      (r : SetStateResult)
      → let w1 = set null Rpc.code (of_int r.code) in
        member
          (if str_empty r.message then w1 else set w1 Rpc.message (of_string r.message))
          Rpc.code
        ≡ some (of_int r.code)
  warning_code r =
      let i = indexable-null laws in
      let w1 = set null Rpc.code (of_int r.code) in
      let plain = member-set_self laws null (of_int r.code) Rpc.code i in
      if-cases (λ v. member v Rpc.code ≡ some (of_int r.code)) (str_empty r.message) (λ _. plain)
        (λ _.
          member-set_ne laws w1 (of_string r.message) Rpc.message Rpc.code
            (indexable-set laws null (of_int r.code) Rpc.code i) refl
          ∙ plain)

  warning_of-state_result :
      (r : SetStateResult) (id_node : Value) (w : World)
      → FitsInt r.code
      → warning_of (set (state_result r) Rpc.id id_node) w
        ≡ (ok (record { code = r.code; message = "" }), w)
  unfolding state_result
  warning_of-state_result r id_node w fits =
      let i = indexable-null laws in
      let w1 = set null Rpc.code (of_int r.code) in
      let warning = if str_empty r.message then w1 else set w1 Rpc.message (of_string r.message) in
      let shown : (x : Value)
          → member (set (set null Rpc.result x) Rpc.id id_node) Rpc.result ≡ some x =
        λ x.
          member-set_ne laws (set null Rpc.result x) id_node Rpc.id Rpc.result
            (indexable-set laws null x Rpc.result i) refl
          ∙ member-set_self laws null x Rpc.result i in
      elim (Bool-cases (r.code == warn_none)) [
        | inl none_given ↦
            let zero = (int_eq.equals_iff r.code warn_none).0 none_given in
            rw none_given (
              warning_of-plain (set (set null Rpc.result empty_object) Rpc.id id_node) w
                (shown empty_object)
              ∙ ap (λ c. (ok (record { code = c; message = "" }), w)) (sym zero))
        | inr given ↦ rw given (
            warning_of-code
              (set (set null Rpc.result (set null Key.warning warning)) Rpc.id id_node) warning
              r.code w (shown (set null Key.warning warning)) (warning_code r) fits)
      ]

  state_relayed_lem :
      (o : Outcome SetStateCbResult) (id_node : Value) (w : World)
      → HasIntCode o
      → checked warning_of (set (state_outcome_reply o) Rpc.id id_node) w
        ≡ Ending.done (state_relayed o, w)
  state_relayed_lem (ok r) id_node w fits =
      rw ((state_outcome_reply-IsAnswer laws (ok r) id_node).0.has_error)
        (ap Ending.done (warning_of-state_result r.result id_node w fits))
  state_relayed_lem (raised e) id_node w fits =
      rw ((failure-IsAnswer laws e id_node).0.has_error, of_response-failure laws e id_node)

  reply_id :
      (o : Outcome SetStateCbResult) (id_node : Value)
      → member (set (state_outcome_reply o) Rpc.id id_node) Rpc.id ≡ some id_node
  reply_id (ok r) id_node = (state_outcome_reply-IsAnswer laws (ok r) id_node).1
  reply_id (raised e) id_node = (failure-IsAnswer laws e id_node).1

  -- A synchronous `setStateValue` whose request is answered with the response to this outcome.
  pub set_state_value_relays :
      (p : ℕ) (path : String) (value : Value) (timeout_s : Option Double)
      (o : Outcome SetStateCbResult) (w : World)
      → HasIntCode o
      → let id = next_uint32 w.sid in
        let v = set (state_outcome_reply o) Rpc.id (of_uint id) in
        (u : World) × (set_state_value p (receiving v) path value timeout_s w
          ≡ Ending.done (state_relayed o, u))
        × (find id u.open_requests ≡ none)
  unfolding set_state_value
  set_state_value_relays p path value timeout_s o w fits =
      let id = next_uint32 w.sid in
      let v = set (state_outcome_reply o) Rpc.id (of_uint id) in
      let params = set (set (timeout_params timeout_s) Key.path (of_string path)) Key.value value in
      let doc = request_doc Verb.set params in
      let has_id = reply_id o (of_uint id) in
      let is_id = laws.as_uint-of_uint id in
      let u = woken p v (of_uint id) doc w has_id is_id in
      (
        record u { open_requests = erase id u.open_requests },
        execute_sync_lem p v (of_uint id) doc w has_id is_id (checked warning_of)
            ∙ ap (scoped id) (state_relayed_lem o (of_uint id) u fits),
        find-erase_self id u.open_requests,
      )
