-- ===== src/Peer/Sync/Owners.antt =====
-- Peer::setStateValue against the peer that owns the state.
use jetpeer_cpp.Base.{ℕ, String, Option, none, ◌≡◌, ◌∙◌, sym, next_uint32, nat_eq}
use jetpeer_cpp.Base.Table.{find}
use jetpeer_cpp.Platform.{Platform, Value, Double}
use jetpeer_cpp.Platform.Laws.{JsonLaws, IntLaws}
use jetpeer_cpp.Defines.Failure.{ok}
use jetpeer_cpp.Defines.Rpc
use jetpeer_cpp.Peer.Dispatch.{state_response}
use jetpeer_cpp.Peer.Dispatch.Outcomes.{set_outcome, state_response_reply}
use jetpeer_cpp.Peer.Dispatch.Replies.{state_outcome_reply}
use jetpeer_cpp.Peer.State.{World, StateCb}
use jetpeer_cpp.Peer.Sync.{Ending, set_state_value}
use jetpeer_cpp.Peer.Sync.Sets.{state_relayed, HasIntCode, set_state_value_relays}
use jetpeer_cpp.Peer.Sync.Waits.{receiving}

module _ ⦃P : Platform⦄ (laws : JsonLaws) (ints : IntLaws) where
  open P use {set, of_uint}

  -- A synchronous `setStateValue` whose request is answered with the response that the owner of the
  -- state makes when it handles a request to set the state `state` to `asked`. If the callback of the
  -- state returned and its change, if any, was sent, the call returns the code of the warning that the
  -- callback reported, or 0 for none, and an empty message: the message of the warning is lost. If the
  -- callback threw, or its change could not be sent, or the state is read only, the call throws an
  -- exception with the code, the message and the data of that failure. Its request is closed. The code
  -- of the warning must be an int.
  pub set_state_value_by_owner :
      (owner : World) (cb : Option StateCb) (state : String) (asked reply : Value) (p : ℕ)
      (path : String) (value : Value) (timeout_s : Option Double) (w : World)
      → (state_response cb state asked owner).0 ≡ ok reply
      → HasIntCode laws ints (set_outcome cb state asked owner)
      → let id = next_uint32 w.sid in
        (u : World) × (set_state_value p
            (receiving (set reply Rpc.id (of_uint id)))
            path
            value
            timeout_s
            w
          ≡ Ending.done (state_relayed laws ints (set_outcome cb state asked owner), u))
        × (find id u.open_requests ≡ none)
  set_state_value_by_owner owner cb state asked reply p path value timeout_s w answers fits =
      let o = set_outcome cb state asked owner in
      let same : ok (state_outcome_reply o) ≡ ok reply =
        sym (state_response_reply cb state asked owner) ∙ answers in
      let is_reply : state_outcome_reply o ≡ reply = cc in
      rw (sym is_reply) (set_state_value_relays laws ints p path value timeout_s o w fits)
