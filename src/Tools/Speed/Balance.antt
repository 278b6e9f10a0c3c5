-- ===== src/Tools/Speed/Balance.antt =====
-- tool/measureSpeed.cpp: the states that measureFetch creates are there, and are gone in the end.
use text.Mathlib.TextLemmas.{append-eq-nil_iff}
use jetpeer_cpp.Base.{
  ℕ, zero, suc, String, Option, none, some, false, if◌then◌else◌, to_string, str_empty, string_eq,
  ◌≡◌, ◌∙◌, refl, ap, arith, inl, inr, Bool-cases,
}
use jetpeer_cpp.Base.Table.{find, put, erase, find-put, find-erase}
use jetpeer_cpp.Platform.{Platform, Value}
use jetpeer_cpp.Defines.Failure.{ok}
use jetpeer_cpp.Peer.Methods.{add_state_async, add_state_async_private, remove_state_async}
use jetpeer_cpp.Peer.Registry.{register_state, unregister_state}
use jetpeer_cpp.Peer.Request.{execute, execute_no_response}
use jetpeer_cpp.Peer.Send.{send_message}
use jetpeer_cpp.Peer.Send.Results.{send_message_cases}
use jetpeer_cpp.Peer.State.{World, StateCb}
use jetpeer_cpp.Tools.Speed.{
  path_of, state_path, state_cb, create_states, remove_states, is_created,
}

pub path_of-nonempty : (index : ℕ) → str_empty (path_of index) ≡ false
path_of-nonempty index = elim (Bool-cases (str_empty (path_of index))) [
  | inl empty ↦ absurd (
      cc (
        ap str_empty
          ((append-eq-nil_iff {p = state_path} {q = to_string index}).0
            ((string_eq.equals_iff (path_of index) "").0 empty)).0))
  | inr some_text ↦ some_text
]

module _ ⦃P : Platform⦄ where
  open P use {null}

  send_message-states :
      (v : Value) (w : World) → (send_message v w).1.state_callbacks ≡ w.state_callbacks
  send_message-states v w = elim (send_message_cases v w) [
    | inl e ↦ rw e refl
    | inr (message, s, n, e) ↦ rw e refl
  ]

  pub execute-none :
      (doc : Value) (w : World)
      → ((execute doc none w).0 ≡ ok tt)
        × ((execute doc none w).1.state_callbacks ≡ w.state_callbacks)
  unfolding execute
  execute-none doc w = elim (send_message_cases doc w) [
    | inl e ↦ rw e (refl, refl)
    | inr (message, s, n, e) ↦ rw e (refl, refl)
  ]

  -- One turn of each loop.
  pub add_turn :
      (path : String) (value : Value) (cb : Option StateCb) (w : World)
      → ((add_state_async path value none none cb w).0 ≡ ok tt)
        × ((add_state_async path value none none cb w).1.state_callbacks
            ≡ put path cb w.state_callbacks)
  unfolding add_state_async add_state_async_private register_state execute_no_response
  add_turn path value cb w = (refl, send_message-states _ _)

  pub remove_turn :
      (path : String) (w : World)
      → str_empty path ≡ false
      → ((remove_state_async path none w).0 ≡ ok tt)
        × ((remove_state_async path none w).1.state_callbacks ≡ erase path w.state_callbacks)
  unfolding remove_state_async unregister_state
  remove_turn path w named = rw named (execute-none _ _)

  pub create_states_lem :
      (n index : ℕ) (w : World)
      → ((create_states n index w).0 ≡ ok tt)
        × ((path : String)
            → find path (create_states n index w).1.state_callbacks ≡ (
                if is_created n index path
                then some (some state_cb)
                else find path w.state_callbacks))
  unfolding create_states
  create_states_lem zero index w = (refl, λ path. refl)
  create_states_lem (suc n) index w =
      let (went, added) = add_turn (path_of index) null (some state_cb) w in
      let next = (add_state_async (path_of index) null none none (some state_cb) w).1 in
      let (done, later) = create_states_lem n (suc index) next in
      rw went (
        done,
        λ path.
            later path
            ∙ ground (
              arith,
              ap (find path) added,
              find-put (path_of index) path (some state_cb) w.state_callbacks,
            ),
      )

  pub remove_states_lem :
      (n index : ℕ) (w : World)
      → ((remove_states n index w).0 ≡ ok tt)
        × ((path : String)
            → find path (remove_states n index w).1.state_callbacks
              ≡ (if is_created n index path then none else find path w.state_callbacks))
  unfolding remove_states
  remove_states_lem zero index w = (refl, λ path. refl)
  remove_states_lem (suc n) index w =
      let (went, removed) = remove_turn (path_of index) w (path_of-nonempty index) in
      let next = (remove_state_async (path_of index) none w).1 in
      let (done, later) = remove_states_lem n (suc index) next in
      rw went (
        done,
        λ path.
            later path
            ∙ ground
                (arith, ap (find path) removed, find-erase (path_of index) path w.state_callbacks),
      )

  -- measureFetch creates its states and later removes them. Whether messages can be sent or not, both
  -- loops go to their end. After the first, each of the paths has the callback, and after the second
  -- none of them is entered. All other states are as before, both times. What is done in between,
  -- such as the fetches, must leave the entered states alone.
  pub states_come_and_go :
      (n : ℕ) (between : World → World) (w : World)
      → let w1 = (create_states n 0 w).1 in
        let w2 = (remove_states n 0 (between w1)).1 in
        (between w1).state_callbacks ≡ w1.state_callbacks
        → ((create_states n 0 w).0 ≡ ok tt)
          × ((remove_states n 0 (between w1)).0 ≡ ok tt)
          × ((path : String)
              → find path w1.state_callbacks ≡ (
                  if is_created n 0 path
                  then some (some state_cb)
                  else find path w.state_callbacks))
          × ((path : String)
              → find path w2.state_callbacks
                ≡ (if is_created n 0 path then none else find path w.state_callbacks))
  states_come_and_go n between w same =
      let w1 = (create_states n 0 w).1 in
      let (created, there) = create_states_lem n 0 w in
      let (removed, gone) = remove_states_lem n 0 (between w1) in
      (created, removed, there, λ path. gone path ∙ ground (arith, ap (find path) same, there path))
