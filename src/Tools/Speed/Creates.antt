-- ===== src/Tools/Speed/Creates.antt =====
-- tool/measureSpeed.cpp: measureCreateStates, up to the destructor of its peer. The value that it
-- builds for each state is never used.
use jetpeer_cpp.Base.{
  ℕ, zero, suc, String, none, some, true, false, ◌≡◌, ◌∙◌, ap, refl, next_uint32, nat_eq, string_eq,
}
use jetpeer_cpp.Base.Table.{find}
use jetpeer_cpp.Platform.{Platform, Socket}
use jetpeer_cpp.Platform.Laws.{JsonLaws}
use jetpeer_cpp.Defines.{no_warning}
use jetpeer_cpp.Defines.Failure.{ok, raised}
use jetpeer_cpp.Defines.Rpc
use jetpeer_cpp.Peer.Dispatch.{state_result}
use jetpeer_cpp.Peer.Dispatch.Shapes.{state_outcome_reply-IsAnswer}
use jetpeer_cpp.Peer.Lifecycle.{construct}
use jetpeer_cpp.Peer.Registry.{register_state}
use jetpeer_cpp.Peer.State.{World}
use jetpeer_cpp.Peer.Sync.{Ending, Loop, add_state, add_state_private}
use jetpeer_cpp.Peer.Sync.Waits.{add_state_accepted}
use jetpeer_cpp.Tools.Speed.{path_of, state_cb, remove_states, is_created}
use jetpeer_cpp.Tools.Speed.Balance.{remove_states_lem}
use jetpeer_cpp.Tools.Speed.Fetches.{tried, fetching}
use jetpeer_cpp.Tools.Speed.Sets.{acknowledging, acknowledging_lem, tried_ending}

module _ ⦃P : Platform⦄ where
  open P use {null, set, of_uint}

  abbrev and_next : (World → Ending (Unit {0})) → Ending (Unit {0}) → Ending (Unit {0})
  and_next rest (Ending.done (ok _, w)) = rest w
  and_next rest (Ending.done (raised e, w)) = Ending.done (raised e, w)
  and_next rest (Ending.waits w) = Ending.waits w
  and_next rest (Ending.terminated w) = Ending.terminated w

  -- The loop that adds states and waits for each; the index also names the promise of its request.
  unfoldable pub create_waiting : Loop → ℕ → ℕ → World → Ending (Unit {0})
  create_waiting loop zero index w = Ending.done (ok tt, w)
  create_waiting loop (suc rest) index w =
      and_next (create_waiting loop rest (suc index))
        (add_state index loop (path_of index) null none (some state_cb) w)

  unfoldable pub measure_create_states : Loop → ℕ → Socket → String → ℕ → World → Ending (Unit {0})
  measure_create_states loop states socket address port w =
      fetching
        (λ w0.
          and_next (λ u. Ending.done (tried (remove_states states 0 u)))
            (tried_ending (create_waiting loop states 0 w0)))
        (construct socket address port "" false w)

  module _ (laws : JsonLaws) where
    create_turn :
        (p : ℕ) (path : String) (w : World)
        → (u : World) × (add_state p acknowledging path null none (some state_cb) w
            ≡ Ending.done (ok tt, u))
    unfolding add_state add_state_private register_state
    create_turn p path w =
        let id_node = of_uint (next_uint32 w.sid) in
        let v = set (state_result no_warning) Rpc.id id_node in
        let answer =
          state_outcome_reply-IsAnswer laws (ok (record { value = null; result = no_warning }))
            id_node in
        let (u, ended, _, _) =
          add_state_accepted p v id_node path null null (some state_cb) w answer.1
            (laws.as_uint-of_uint (next_uint32 w.sid)) answer.0.has_error in
        (u, acknowledging_lem p _ _ _ ∙ ended)

    create_waiting-ends :
        (n index : ℕ) (w : World)
        → (u : World) × (create_waiting acknowledging n index w ≡ Ending.done (ok tt, u))
    unfolding create_waiting
    create_waiting-ends zero index w = (w, refl)
    create_waiting-ends (suc n) index w =
        let (u, turn) = create_turn index (path_of index) w in
        let (end, rest) = create_waiting-ends n (suc index) u in
        (end, ap (and_next (create_waiting acknowledging n (suc index))) turn ∙ rest)

    -- If the peer of measureCreateStates can be constructed, and the event loop gives each request to
    -- add a state a response that is no error, measureCreateStates comes to its end without an
    -- exception, and none of its states is entered then. jsoncpp must keep its laws.
    pub measure_create_states_ends :
        (states : ℕ) (socket : Socket) (address : String) (port : ℕ) (w : World)
        → (construct socket address port "" false w).0 ≡ ok tt
        → (u : World) × (measure_create_states acknowledging states socket address port w
            ≡ Ending.done (ok tt, u))
          × ((path : String) → is_created states 0 path ≡ true → find path u.state_callbacks ≡ none)
    unfolding measure_create_states
    measure_create_states_ends states socket address port w made =
        let w0 = (construct socket address port "" false w).1 in
        let (w1, created) = create_waiting-ends states 0 w0 in
        let (removed, gone) = remove_states_lem states 0 w1 in
        (
          (remove_states states 0 w1).1,
          rw (made, created, removed) refl,
          λ path is_one. gone path ∙ rw is_one refl,
        )
