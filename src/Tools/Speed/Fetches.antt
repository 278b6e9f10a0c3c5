-- ===== src/Tools/Speed/Fetches.antt =====
-- tool/measureSpeed.cpp: measureFetch, up to the destructor of its peer.
use jetpeer_cpp.Base.{
  ℕ, zero, suc, ℤ, String, none, some, List, [], ◌∷◌, Bool, true, false, if◌then◌else◌, ◌==◌,
  int_eq, string_eq, str_empty, ◌≡◌, ◌∙◌, ap, refl, arith, inl, inr,
}
use jetpeer_cpp.Base.Table.{find, erase, find-erase}
use jetpeer_cpp.Platform.{Platform, Value, Socket}
use jetpeer_cpp.Defines.{default_matcher}
use jetpeer_cpp.Defines.Failure.{Failure, Outcome, ok, raised}
use jetpeer_cpp.Peer.Lifecycle.{construct}
use jetpeer_cpp.Peer.Methods.{remove_fetch_async, remove_state_async}
use jetpeer_cpp.Peer.Registry.{unregister_fetch, unregister_state}
use jetpeer_cpp.Peer.Request.{execute}
use jetpeer_cpp.Peer.Send.Results.{send_message_cases}
use jetpeer_cpp.Peer.State.{World, M, pure, ◌>>◌}
use jetpeer_cpp.Peer.Sync.{Ending, Loop, add_fetch}
use jetpeer_cpp.Tools.Speed.{path_of, create_states, remove_states, is_created, state_cb}
use jetpeer_cpp.Tools.Speed.Balance.{
  path_of-nonempty, remove_turn, execute-none, states_come_and_go, create_states_lem,
}

-- One of these ids.
abbrev pub is_one_of : List ℤ → ℤ → Bool
is_one_of [] j = false
is_one_of (id ∷ rest) j = if id == j then true else is_one_of rest j

module _ ⦃P : Platform⦄ where
  abbrev with_id : ℤ → Ending (List ℤ) → Ending (List ℤ)
  with_id id (Ending.done (ok ids, w)) = Ending.done (ok (id ∷ ids), w)
  with_id id (Ending.done (raised e, w)) = Ending.done (raised e, w)
  with_id id (Ending.waits w) = Ending.waits w
  with_id id (Ending.terminated w) = Ending.terminated w

  abbrev next_fetch : (World → Ending (List ℤ)) → Ending ℤ → Ending (List ℤ)
  next_fetch rest (Ending.done (ok id, w)) = with_id id (rest w)
  next_fetch rest (Ending.done (raised e, w)) = Ending.done (raised e, w)
  next_fetch rest (Ending.waits w) = Ending.waits w
  next_fetch rest (Ending.terminated w) = Ending.terminated w

  -- The loops of measureFetch over the fetches; `p` names the promise of the next request, and the
  -- callback 0 is fetchCb.
  unfoldable pub add_fetches : Loop → ℕ → ℕ → World → Ending (List ℤ)
  add_fetches loop zero p w = Ending.done (ok [], w)
  add_fetches loop (suc rest) p w =
      next_fetch (add_fetches loop rest (suc p)) (add_fetch p loop default_matcher (some 0) w)

  unfoldable pub remove_fetches : List ℤ → M (Unit {0})
  remove_fetches [] = pure tt
  remove_fetches (id ∷ rest) = do remove_fetch_async id none; remove_fetches rest

  -- `catch (const std::runtime_error &e)`, which prints.
  abbrev pub tried : Outcome (Unit {0}) × World → Outcome (Unit {0}) × World
  tried (ok _, w) = (ok tt, w)
  tried (raised (Failure.jsonrpc_exception code message), w) = (ok tt, w)
  tried (raised (Failure.jsoncpprpc_exception j), w) = (ok tt, w)
  tried (raised (Failure.std_exception what), w) = (raised (Failure.std_exception what), w)
  tried (raised Failure.other, w) = (raised Failure.other, w)

  abbrev removing : ℕ → Ending (List ℤ) → Ending (Unit {0})
  removing states (Ending.done (ok ids, w)) =
      Ending.done ((do remove_fetches ids; λ u. tried (remove_states states 0 u)) w)
  removing states (Ending.done (raised e, w)) = Ending.done (raised e, w)
  removing states (Ending.waits w) = Ending.waits w
  removing states (Ending.terminated w) = Ending.terminated w

  abbrev pub fetching : (World → Ending (Unit {0})) → Outcome (Unit {0}) × World → Ending (Unit {0})
  fetching rest (ok _, w) = rest w
  fetching rest (raised e, w) = Ending.done (raised e, w)

  unfoldable pub measure_fetch : Loop → ℕ → ℕ → ℕ → Socket → String → ℕ → World → Ending (Unit {0})
  measure_fetch loop p states fetches socket address port w =
      fetching
        (λ w0.
          fetching (λ w1. removing states (add_fetches loop fetches p w1))
            (tried (create_states states 0 w0)))
        (construct socket address port "" false w)

  execute-fetchers : (doc : Value) (w : World) → (execute doc none w).1.fetchers ≡ w.fetchers
  unfolding execute
  execute-fetchers doc w = elim (send_message_cases doc w) [
    | inl e ↦ rw e refl
    | inr (message, s, n, e) ↦ rw e refl
  ]

  remove_fetch_turn :
      (id : ℤ) (w : World)
      → ((remove_fetch_async id none w).0 ≡ ok tt)
        × ((remove_fetch_async id none w).1.state_callbacks ≡ w.state_callbacks)
        × ((remove_fetch_async id none w).1.fetchers ≡ erase id w.fetchers)
  unfolding remove_fetch_async unregister_fetch
  remove_fetch_turn id w = let sent = execute-none _ _ in (sent.0, sent.1, execute-fetchers _ _)

  removed-fetchers :
      (path : String) (w : World)
      → str_empty path ≡ false
      → (remove_state_async path none w).1.fetchers ≡ w.fetchers
  unfolding remove_state_async unregister_state
  removed-fetchers path w named = rw named (execute-fetchers _ _)

  remove_fetches_lem :
      (ids : List ℤ) (w : World)
      → ((remove_fetches ids w).0 ≡ ok tt)
        × ((remove_fetches ids w).1.state_callbacks ≡ w.state_callbacks)
        × ((j : ℤ)
            → find j (remove_fetches ids w).1.fetchers
              ≡ (if is_one_of ids j then none else find j w.fetchers))
  unfolding remove_fetches
  remove_fetches_lem [] w = (refl, refl, λ j. refl)
  remove_fetches_lem (id ∷ rest) w =
      let (went, same, removed) = remove_fetch_turn id w in
      let (done, still, later) = remove_fetches_lem rest (remove_fetch_async id none w).1 in
      rw went (
        done,
        still ∙ same,
        λ j. later j ∙ ground (arith, ap (find j) removed, find-erase id j w.fetchers),
      )

  remove_states-fetchers :
      (n index : ℕ) (w : World) → (remove_states n index w).1.fetchers ≡ w.fetchers
  unfolding remove_states remove_state_async unregister_state
  remove_states-fetchers zero index w = refl
  remove_states-fetchers (suc n) index w =
      rw (remove_turn (path_of index) w (path_of-nonempty index)).0 (
        remove_states-fetchers n (suc index) _
        ∙ removed-fetchers (path_of index) w (path_of-nonempty index))

  -- If the peer of measureFetch can be constructed, and each of its fetches is accepted, which
  -- must leave the entered states alone, measureFetch comes to its end without an exception,
  -- whether its other messages can be sent or not. Before the fetches each of its states is
  -- entered with the callback, and in the end none of its states and none of its fetches is
  -- entered. All other states are as in the new peer, both times, and all other fetches as they
  -- are behind the last fetch.
  pub measure_fetch_clears :
      (loop : Loop) (p states fetches : ℕ) (socket : Socket) (address : String) (port : ℕ)
      (ids : List ℤ) (w w2 : World)
      → let w0 = (construct socket address port "" false w).1 in
        let w1 = (create_states states 0 w0).1 in
        (construct socket address port "" false w).0 ≡ ok tt
        → add_fetches loop fetches p w1 ≡ Ending.done (ok ids, w2)
        → w2.state_callbacks ≡ w1.state_callbacks
        → (u : World) × (measure_fetch loop p states fetches socket address port w
            ≡ Ending.done (ok tt, u))
          × ((path : String)
              → find path w1.state_callbacks ≡ (
                  if is_created states 0 path
                  then some (some state_cb)
                  else find path w0.state_callbacks))
          × ((path : String)
              → find path u.state_callbacks
                ≡ (if is_created states 0 path then none else find path w0.state_callbacks))
          × ((j : ℤ) → find j u.fetchers ≡ (if is_one_of ids j then none else find j w2.fetchers))
  unfolding measure_fetch
  measure_fetch_clears loop p states fetches socket address port ids w w2 made added same =
      let w0 = (construct socket address port "" false w).1 in
      let w3 = (remove_fetches ids w2).1 in
      let (created, entered) = create_states_lem states 0 w0 in
      let (unfetched, still, gone) = remove_fetches_lem ids w2 in
      let (_, removed, _, cleared) = states_come_and_go states (λ _. w3) w0 (still ∙ same) in
      (
        (remove_states states 0 w3).1,
        rw (made, created, added, unfetched, removed) refl,
        entered,
        cleared,
        λ j. ap (find j) (remove_states-fetchers states 0 w3) ∙ gone j,
      )
