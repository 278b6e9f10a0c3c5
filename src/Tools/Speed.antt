-- ===== src/Tools/Speed.antt =====
-- tool/measureSpeed.cpp: the loops over its states, and the values that it notifies. Each of its three
-- measurements is in a module below. The clock, what is printed, and main are left out.
pub mod Balance
pub mod Notifies
pub mod Fetches
pub mod Sets
pub mod Creates
use jetpeer_cpp.Base.{
  ℕ, zero, suc, String, ◌<>◌, Option, none, some, Bool, false, true, if◌then◌else◌, ◌==◌, to_string,
  str_empty, string_eq, ◌≡◌, ◌∙◌, refl, ap, arith,
}
use jetpeer_cpp.Base.Table.{Table, find, find-put, find-erase}
use jetpeer_cpp.Platform.{Platform, Value}
use jetpeer_cpp.Defines.{no_warning}
use jetpeer_cpp.Defines.Failure.{ok}
use jetpeer_cpp.Peer.Methods.{add_state_async, remove_state_async}
use jetpeer_cpp.Peer.Send.{notify_state}
use jetpeer_cpp.Peer.State.{World, M, StateCb, pure, ◌>>=◌, ◌>>◌}

abbrev pub state_path : String
state_path = "testSpeed/value"

abbrev pub path_of : ℕ → String
path_of index = state_path <> to_string index

module _ ⦃P : Platform⦄ where
  open P use {null, of_uint}

  abbrev pub state_cb : StateCb
  state_cb value path = ok (record { value = value; result = no_warning })

  -- The loops of measureFetch over the states; `rest` turns are left, and `index` is the next one.
  unfoldable pub create_states : ℕ → ℕ → M (Unit {0})
  create_states zero index = pure tt
  create_states (suc rest) index = do
    add_state_async (path_of index) null none none (some state_cb)
    create_states rest (suc index)

  unfoldable pub remove_states : ℕ → ℕ → M (Unit {0})
  remove_states zero index = pure tt
  remove_states (suc rest) index = do
    remove_state_async (path_of index) none
    remove_states rest (suc index)

  -- The loop of measureSetNotify that notifies; the result of notifyState is not looked at.
  unfoldable pub notify_cycles : ℕ → ℕ → M (Unit {0})
  notify_cycles zero cycle = pure tt
  notify_cycles (suc rest) cycle = do
    _ ← notify_state state_path (of_uint cycle)
    notify_cycles rest (suc cycle)

  -- A path of these states.
  abbrev pub is_created : ℕ → ℕ → String → Bool
  is_created zero index path = false
  is_created (suc rest) index path =
      if path_of index == path then true else is_created rest (suc index) path
