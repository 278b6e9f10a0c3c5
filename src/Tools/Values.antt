-- ===== src/Tools/Values.antt =====
-- tool/jetset.cpp, tool/jetsetasync.cpp and tool/jetstate.cpp: the value that the command line gives,
-- with its type.
pub mod Sets
use jetpeer_cpp.Base.{
  ℕ, ℤ, String, Option, none, some, List, true, false, ◌≡◌, refl, ap, if◌then◌else◌, ◌==◌,
  string_eq, ◌⊎◌, inl, inr, Bool-cases, Option-cases, arith,
}
use jetpeer_cpp.Platform.{Platform, Value, Double}
use jetpeer_cpp.Defines.{SetStateResult}
use jetpeer_cpp.Defines.Failure.{Outcome, ok, raised}
use jetpeer_cpp.Peer.Methods.{set_state_value_async}
use jetpeer_cpp.Peer.State.{World, M, ◌>>=◌, ◌>>◌, pure}
use jetpeer_cpp.Peer.Sync.{Ending, Loop, set_state_value}

-- EXIT_SUCCESS and EXIT_FAILURE
pub data Exit : Type 0 where
  exit_success exit_failure : Exit

module _ ⦃P : Platform⦄ where
  abbrev pub returned : Ending SetStateResult → Ending Exit
  returned (Ending.done (ok _, w)) = Ending.done (ok Exit.exit_success, w)
  returned (Ending.done (raised e, w)) = Ending.done (raised e, w)
  returned (Ending.waits w) = Ending.waits w
  returned (Ending.terminated w) = Ending.terminated w

  abbrev pub ends : Exit → World → Ending Exit
  ends status w = Ending.done (ok status, w)

  abbrev pub leaves : Exit → M (Option Exit)
  leaves status = pure (some status)

  -- What one does with a value, or with the status with which main ends.
  abbrev pub either : {A : Type 0} → (Exit → A) → (Value → A) → Exit ⊎ Value → A
  either f g (inl status) = f status
  either f g (inr v) = g v

module _ ⦃P : Platform⦄ (atoi : String → ℤ) (strtod : String → Double)
    (bytes_of : String → List ℕ) where
  open P use {of_bool, of_int, of_double, of_string, parse}

  -- jetstate: main ends at once, or goes on with this value of the static variable `value`.
  abbrev stated_json : Option Value → Exit ⊎ Value
  stated_json (some v) = inr v
  stated_json none = inl Exit.exit_failure

  unfoldable pub jetstate_value : String → String → Exit ⊎ Value
  jetstate_value type text =
      if type == "bool"
      then (if text == "false"
          then inr (of_bool false)
          else if text == "true"
          then inr (of_bool true)
          else inl Exit.exit_failure)
      else if type == "int"
      then inr (of_int (atoi text))
      else if type == "double"
      then inr (of_double (strtod text))
      else if type == "string"
      then inr (of_string text)
      else if type == "json"
      then stated_json (parse (bytes_of text))
      else inl Exit.exit_success

  -- jetset: the value goes to setStateValue; what that throws is thrown on.
  module _ (p : ℕ) (loop : Loop) (timeout_s : Double) (path : String) where
    abbrev pub set_value : Value → World → Ending Exit
    set_value value w = returned (set_state_value p loop path value (some timeout_s) w)

    abbrev set_json : Option Value → World → Ending Exit
    set_json (some params) = set_value params
    set_json none = ends Exit.exit_failure

    unfoldable pub jetset : String → String → World → Ending Exit
    jetset type text =
        if type == "bool"
        then (if text == "false"
            then set_value (of_bool false)
            else if text == "true"
            then set_value (of_bool true)
            else ends Exit.exit_failure)
        else if type == "int"
        then set_value (of_int (atoi text))
        else if type == "double"
        then set_value (of_double (strtod text))
        else if type == "string"
        then set_value (of_string text)
        else if type == "json"
        then set_json (parse (bytes_of text))
        else ends Exit.exit_success

  -- jetsetasync: main ends at once, or goes on to the event loop (`none`).
  module _ (timeout_s : Double) (response_cb : ℕ) (path : String) where
    abbrev pub set_async : Value → M (Option Exit)
    set_async value = do
      set_state_value_async path value (some timeout_s) (some response_cb)
      pure none

    abbrev set_async_json : Option Value → M (Option Exit)
    set_async_json (some params) = set_async params
    set_async_json none = leaves Exit.exit_failure

    unfoldable pub jetsetasync : String → String → M (Option Exit)
    jetsetasync type text =
        if type == "bool"
        then (if text == "false"
            then set_async (of_bool false)
            else if text == "true"
            then set_async (of_bool true)
            else leaves Exit.exit_failure)
        else if type == "int"
        then set_async (of_int (atoi text))
        else if type == "double"
        then set_async (of_double (strtod text))
        else if type == "string"
        then set_async (of_string text)
        else if type == "json"
        then set_async_json (parse (bytes_of text))
        else leaves Exit.exit_success

  module _ (p : ℕ) (loop : Loop) (timeout_s : Double) (path : String) (response_cb : ℕ) where
    json_alike :
        (o : Option Value)
        → (set_json p loop timeout_s path o
            ≡ either ends (set_value p loop timeout_s path) (stated_json o))
          × (set_async_json timeout_s response_cb path o
              ≡ either leaves (set_async timeout_s response_cb path) (stated_json o))
    json_alike none = (refl, refl)
    json_alike (some v) = (refl, refl)

    -- For every type and text of the command line, jetset and jetsetasync send the value that
    -- jetstate would give its state, or end with the status with which jetstate would end, having
    -- done nothing with the peer.
    pub values_alike :
        (type text : String)
        → (jetset p loop timeout_s path type text
            ≡ either ends (set_value p loop timeout_s path) (jetstate_value type text))
          × (jetsetasync timeout_s response_cb path type text
              ≡ either leaves (set_async timeout_s response_cb path) (jetstate_value type text))
    unfolding jetset jetsetasync jetstate_value
    values_alike type text = ground (arith, json_alike (parse (bytes_of text)))
