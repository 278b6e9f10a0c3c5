-- ===== src/Tests/Data.antt =====
-- The states and messages at which the theorems are applied.
use jetpeer_cpp.Base.{ℕ, ℤ, pos, Bool, String, List, [], ◌∷◌, none, some, true, false}
use jetpeer_cpp.Base.Table.{Table}
use jetpeer_cpp.Platform.{Platform}
use jetpeer_cpp.Defines.{Fetcher, default_matcher}
use jetpeer_cpp.Defines.Failure.{Failure, ok, raised}
use jetpeer_cpp.Peer.State.{World, StateCb, MethodCb, Request, ResponseCb}
use jetpeer_cpp.Tests.Toy.{Json, Fields, Wire, platform}

abbrev pub object1 : String → Json → Json
object1 k x = Json.object (Fields.field k x Fields.no_field)

abbrev pub object2 : String → Json → String → Json → Json
object2 k x j y = Json.object (Fields.field k x (Fields.field j y Fields.no_field))

abbrev pub object3 : String → Json → String → Json → String → Json → Json
object3 k x j y i z =
    Json.object (Fields.field k x (Fields.field j y (Fields.field i z Fields.no_field)))

-- {"id": 7, "result": null}
abbrev pub response7 : Json
response7 = object2 "id" (Json.int (pos 7)) "result" Json.nil

-- A response whose id is a text.
abbrev pub bad_response : Json
bad_response = object1 "id" (Json.text "x")

-- {"method": 3, "params": 1}
abbrev pub note3 : Json
note3 = object2 "method" (Json.int (pos 3)) "params" (Json.int (pos 1))

abbrev pub value_of : Json → Json
value_of v = object1 "value" v

-- {"id": 5, "method": "lamp", "params": {"value": 2}}
abbrev pub set_lamp : Json → Json
set_lamp v = object3 "id" (Json.int (pos 5)) "method" (Json.text "lamp") "params" (value_of v)

abbrev pub call_blink : Json
call_blink =
    object3 "id" (Json.int (pos 6)) "method" (Json.text "blink") "params" (Json.int (pos 4))

abbrev pub set_other : Json
set_other =
    object3 "id" (Json.int (pos 8)) "method" (Json.text "door") "params"
      (value_of (Json.int (pos 1)))

-- The first value that measureSpeed notifies, as it is read.
abbrev pub cycle0 : Json
cycle0 =
    object2 "method" (Json.text "change") "params"
      (object2 "path" (Json.text "testSpeed/value") "value" (Json.int (pos 0)))

abbrev pub known : List Json
known = note3 ∷ response7 ∷ bad_response ∷ cycle0 ∷ []

instance abbrev pub toy : Platform
toy = platform true known

-- It has the same values, and a socket that refuses.
abbrev pub refusing : Platform
refusing = platform false known

-- The lamp takes each value and reports it; a warning comes with it.
abbrev pub lamp : StateCb
lamp value path =
    ok (record { value = value; result = record { code = pos 2; message = "dimmed" } })

abbrev pub blink : MethodCb
blink params = raised (Failure.std_exception "broken")

abbrev pub open7 : Request
open7 = record { response_callback = some (ResponseCb.user 1); error_notifier = none }

abbrev pub fetch3 : Table ℤ Fetcher
fetch3 = (pos 3, record { callback = some 9; matcher = default_matcher }) ∷ []

abbrev pub wire : List ℕ → Wire
wire held = record { connects = true; piece = 2; held = held }

abbrev pub home : (takes : Bool) → Wire → World ⦃P = platform takes known⦄
home takes socket = record {
  address = "localhost";
  port = 11122;
  name = "peer";
  debug = false;
  socket = socket;
  stopped = false;
  length_buffer = [];
  data_size = 0;
  data_buffer = [];
  state_callbacks = [];
  method_callbacks = [];
  fetchers = fetch3;
  sid = 7;
  open_requests = (7, open7) ∷ [];
  sfetch_id = pos 3;
  trace = [];
}

abbrev pub idle : World
idle = record (home true (wire [])) {
  state_callbacks = ("lamp", some lamp) ∷ [];
  method_callbacks = ("blink", blink) ∷ [];
}

-- A peer whose socket refuses to send, without states and methods.
abbrev pub stuck : World ⦃P = refusing⦄
stuck = home false (wire [])
