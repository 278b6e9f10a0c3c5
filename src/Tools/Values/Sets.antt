-- ===== src/Tools/Values/Sets.antt =====
-- tool/jetset.cpp against the owner of the state.
use jetpeer_cpp.Base.{
  ℕ, ℤ, String, List, none, some, ◌≡◌, ◌∙◌, ap, refl, ◌⊎◌, inl, inr, next_uint32, nat_eq,
}
use jetpeer_cpp.Base.Table.{find}
use jetpeer_cpp.Platform.{Platform, Value, Double}
use jetpeer_cpp.Platform.Laws.{JsonLaws, IntLaws}
use jetpeer_cpp.Defines.{SetStateResult, SetStateCbResult}
use jetpeer_cpp.Defines.Failure.{Outcome, ok, raised}
use jetpeer_cpp.Defines.Rpc
use jetpeer_cpp.Peer.Dispatch.Replies.{state_outcome_reply}
use jetpeer_cpp.Peer.State.{World}
use jetpeer_cpp.Peer.Sync.{Ending}
use jetpeer_cpp.Peer.Sync.Sets.{state_relayed, HasIntCode, set_state_value_relays}
use jetpeer_cpp.Peer.Sync.Waits.{receiving}
use jetpeer_cpp.Tools.Values.{
  Exit, jetstate_value, jetset, returned, ends, either, set_value, values_alike,
}

module _ ⦃P : Platform⦄ (laws : JsonLaws) (ints : IntLaws) (atoi : String → ℤ)
    (strtod : String → Double) (bytes_of : String → List ℕ) where
  open P use {set, of_uint}

  -- The status of main, or the exception that its handler prints.
  abbrev pub status_of : Outcome SetStateResult → Outcome Exit
  status_of (ok _) = ok Exit.exit_success
  status_of (raised e) = raised e

  -- How jetset ends, by what it reads in the command line and what the owner of the state does.
  abbrev pub EndsWith : Exit ⊎ Value → Outcome SetStateCbResult → World → Ending Exit → Type 0
  EndsWith (inl status) o w e = e ≡ Ending.done (ok status, w)
  EndsWith (inr v) o w e =
      (u : World) × (e ≡ Ending.done (status_of (state_relayed laws ints o), u))
      × (find (next_uint32 w.sid) u.open_requests ≡ none)

  returned_lem :
      (r : Outcome SetStateResult) (u : World)
      → returned (Ending.done (r, u)) ≡ Ending.done (status_of r, u)
  returned_lem (ok r) u = refl
  returned_lem (raised e) u = refl

  module _ (p : ℕ) (timeout_s : Double) (path : String) (o : Outcome SetStateCbResult) (w : World)
      (fits : HasIntCode laws ints o) where
    abbrev reply : Value
    reply = set (state_outcome_reply o) Rpc.id (of_uint (next_uint32 w.sid))

    -- What was read, taken to the peer.
    reading_lem :
        (reading : Exit ⊎ Value)
        → EndsWith reading o w (
            either ends
              (set_value atoi strtod bytes_of p (receiving reply) timeout_s path)
              reading
              w)
    reading_lem (inl status) = refl
    reading_lem (inr v) =
        let (u, ended, closed) =
          set_state_value_relays laws ints p path v (some timeout_s) o w fits in
        (u, ap returned ended ∙ returned_lem (state_relayed laws ints o) u, closed)

    pub jetset_relays :
        (type text : String)
        → EndsWith
            (jetstate_value atoi strtod bytes_of type text)
            o
            w
            (jetset atoi strtod bytes_of p (receiving reply) timeout_s path type text w)
    jetset_relays type text =
        let same =
          (values_alike atoi strtod bytes_of p (receiving reply) timeout_s path 0 type text).0 in
        rw (ap (λ f. f w) same) (reading_lem (jetstate_value atoi strtod bytes_of type text))
