-- ===== src/Routing/Callbacks.antt =====
-- tool/qxrouting: the callbacks of Device and RoutedDevice that read what a fetch reports.
use jetpeer_cpp.Base.{
  ℕ, ℤ, pos, negsuc, String, str_empty, Option, none, some, List, [], ◌∷◌, Bool, true, false, ◌||◌,
  if◌then◌else◌, ◌==◌, string_eq, nat_eq, int_eq, minus_one,
}
use jetpeer_cpp.Base.Table.{find, erase}
use jetpeer_cpp.Platform.{Platform, Value, Kind}
use jetpeer_cpp.Defines.Failure.{Failure, Outcome, ok, raised}
use jetpeer_cpp.Defines.Key
use jetpeer_cpp.Defines.Rpc
use jetpeer_cpp.Defines.Verb
use jetpeer_cpp.Peer.State.{json_error}
use jetpeer_cpp.Routing.{Bench, service_cb, appear}

module _ ⦃P : Platform⦄ where
  open P use {member, elements, as_string, as_uint, as_int, kind}

  infixl 5 ◌>>=◌
  abbrev ◌>>=◌ : {A B : Type 0} → Option A → (A → Option B) → Option B
  none >>= f = none
  some a >>= f = f a

  -- The reads of an announcement: the event and the uuid; `none` where one throws.
  unfoldable pub read_announcement : Value → Option (Value × (String × String))
  read_announcement notification = do
    announcement ← member notification Key.value
    event_node ← member notification Key.event
    event ← as_string event_node
    device ← member announcement "device"
    uuid_node ← member device "uuid"
    uuid ← as_string uuid_node
    some (announcement, (event, uuid))

  -- The port of the first service of type jetd, 0 if there is none.
  unfoldable pub find_port : List Value → Option ℕ
  find_port [] = some 0
  find_port (entry ∷ rest) = do
    type_node ← member entry "type"
    type_name ← as_string type_node
    let others = find_port rest
    if type_name == "jetd" then (do port_node ← member entry "port"; as_uint port_node) else others

  unfoldable pub services_port : Value → Option ℕ
  unfolding find_port
  services_port announcement = do
    services ← member announcement "services"
    find_port (elements services)

  abbrev pub connected : Option Failure → String → ℕ → Bench → Outcome (Unit {0}) × Bench
  connected none uuid port b = (ok tt, appear uuid port b)
  connected (some e) uuid port b = (raised e, b)

  -- A new RoutedDevice connects; `connects` gives what its constructor throws, if it throws.
  abbrev pub emplace : (ℕ → Option Failure) → String → Option ℕ → Bench → Outcome (Unit {0}) × Bench
  emplace connects uuid none b = (raised json_error, b)
  emplace connects uuid (some port) b =
      if port == 0 then (ok tt, b) else connected (connects port) uuid port b

  abbrev pub is_known : Option ℕ → Bool
  is_known none = false
  is_known (some port) = true

  abbrev pub on_announcement :
      (ℕ → Option Failure) → Option (Value × (String × String)) → Bench → Outcome (Unit {0}) × Bench
  on_announcement connects none b = (raised json_error, b)
  on_announcement connects (some (announcement, (event, uuid))) b =
      if event == Verb.add || event == Verb.change
      then (if str_empty uuid || is_known (find uuid b.routed)
          then (ok tt, b)
          else emplace connects uuid (services_port announcement) b)
      else if event == Verb.remove
      then (ok tt, record b { routed = erase uuid b.routed })
      else (ok tt, b)

  -- Device::fetchRoutedCb. A device that is removed reports nothing more: its destructor empties
  -- m_serviceCb.
  unfoldable pub fetch_routed_cb :
      (ℕ → Option Failure) → Value → ℤ → Bench → Outcome (Unit {0}) × Bench
  unfolding services_port
  fetch_routed_cb connects notification status b =
      if status == minus_one
      then (ok tt, b)
      else on_announcement connects (read_announcement notification) b

  abbrev pub on_service : String → String → Option String → ℕ → Bench → Outcome (Unit {0}) × Bench
  on_service uuid name none now b = (raised json_error, b)
  on_service uuid name (some event) now b =
      if event == Verb.add
      then (ok tt, service_cb name true uuid now b)
      else if event == Verb.remove
      then (ok tt, service_cb name false uuid now b)
      else (ok tt, b)

  abbrev pub string_of : Value → String → Option String
  string_of v key = member v key >>= as_string

  -- A path of three parts names a service by the last one.
  abbrev pub on_tokens : String → List String → Value → ℕ → Bench → Outcome (Unit {0}) × Bench
  on_tokens uuid (first ∷ second ∷ name ∷ []) notification now b =
      on_service uuid name (string_of notification Key.event) now b
  on_tokens uuid _ notification now b = (ok tt, b)

  abbrev pub on_path :
      (String → List String)
      → String
      → Option String
      → Value
      → ℕ
      → Bench
      → Outcome (Unit {0}) × Bench
  on_path split uuid none notification now b = (raised json_error, b)
  on_path split uuid (some path) notification now b = on_tokens uuid (split path) notification now b

  -- RoutedDevice::fetchServicesCb of the device `uuid`; `split` is hbk::string::split at '/'.
  unfoldable pub fetch_services_cb :
      (String → List String) → String → Value → ℤ → ℕ → Bench → Outcome (Unit {0}) × Bench
  unfolding service_cb
  fetch_services_cb split uuid notification (negsuc n) now b =
      (ok tt, service_cb "" false uuid now b)
  fetch_services_cb split uuid notification (pos n) now b =
      on_path split uuid (string_of notification Key.path) notification now b

  -- What printing the error of a response reads.
  abbrev pub read_error : Value → Option (Unit {0})
  read_error error = do
    code_node ← member error Rpc.code
    code ← as_int code_node
    message_node ← member error Rpc.message
    message ← as_string message_node
    some tt

  abbrev pub error_printed : Value → Kind → Option (Unit {0})
  error_printed error Kind.object_value = read_error error
  error_printed error _ = some tt

  abbrev pub done_if : Option (Unit {0}) → Bench → Outcome (Unit {0}) × Bench
  done_if none b = (raised json_error, b)
  done_if (some _) b = (ok tt, record b { fetch_done = true })

  abbrev pub response_read : Value → Option (Unit {0})
  response_read result = member result Rpc.err >>= λ error. error_printed error (kind error)

  -- Device::fetchResponseCb, for which the constructor of Device waits.
  unfoldable pub fetch_response_cb : Value → Bench → Outcome (Unit {0}) × Bench
  fetch_response_cb result b = done_if (response_read result) b
