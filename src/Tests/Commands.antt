-- ===== src/Tests/Commands.antt =====
-- The theorems on the tools, applied.
use jetpeer_cpp.Base.{
  ℕ, ℤ, pos, String, none, some, List, [], ◌∷◌, true, false, ◌≡◌, refl, arith, nat_eq, int_eq,
  string_eq, int_to_string, to_string,
}
use jetpeer_cpp.Base.Table.{find}
use jetpeer_cpp.Cache.{Cache, Notice, read_notice}
use jetpeer_cpp.Defines.{default_matcher}
use jetpeer_cpp.Defines.Failure.{ok}
use jetpeer_cpp.Notifier.{Notifier}
use jetpeer_cpp.Peer.Dispatch.{handle_message}
use jetpeer_cpp.Peer.Dispatch.Replies.{state_outcome_reply, send_all, told}
use jetpeer_cpp.Peer.Frame.{frame}
use jetpeer_cpp.Peer.Lifecycle.Start.{config_doc}
use jetpeer_cpp.Peer.Methods.{fetch_doc}
use jetpeer_cpp.Peer.Request.{request_doc, handle_result}
use jetpeer_cpp.Defines.Matching.{add_path_information}
use jetpeer_cpp.Peer.State.{World, Effect}
use jetpeer_cpp.Peer.Sync.{Ending}
use jetpeer_cpp.Peer.Sync.Waits.{receiving}
use jetpeer_cpp.Tests.Data.{toy, known, wire, idle, lamp, object2, object3}
use jetpeer_cpp.Tests.Toy.{Json}
use jetpeer_cpp.Tests.Toy.Holds.{json_laws, int_laws, reliable}
use jetpeer_cpp.Tools.Arguments.{Arguments}
use jetpeer_cpp.Tools.Call.Serves.{jetmethod_serves}
use jetpeer_cpp.Tools.Call.{jetmethod}
use jetpeer_cpp.Tools.Cat.{printed, tell_all, cat_prints}
use jetpeer_cpp.Tools.Programs.{cat}
use jetpeer_cpp.Tools.Programs.Starts.{cat_fetches}
use jetpeer_cpp.Tools.Values.{
  Exit, jetstate_value, jetset, jetsetasync, ends, leaves, either, set_value, set_async,
  values_alike,
}
use jetpeer_cpp.Tools.Values.Sets.{jetset_relays}

-- Functions that stand for those of the C library.
abbrev seven : String → ℤ
seven text = pos 7

abbrev double : String → ℕ
double text = 2

abbrev no_bytes : String → List ℕ
no_bytes text = []

values_alike_example :
    (jetset seven double no_bytes 1 (λ w. w) 3 "lamp" "int" "7"
      ≡ either ends
          (set_value seven double no_bytes 1 (λ w. w) 3 "lamp")
          (jetstate_value seven double no_bytes "int" "7"))
    × (jetsetasync seven double no_bytes 3 4 "lamp" "int" "7"
        ≡ either leaves
            (set_async seven double no_bytes 3 4 "lamp")
            (jetstate_value seven double no_bytes "int" "7"))
values_alike_example = values_alike seven double no_bytes 1 (λ w. w) 3 "lamp" 4 "int" "7"

jetset_relays_example :
    let v = toy.set (state_outcome_reply (lamp (Json.uint 2) "lamp")) "id" (Json.uint 8) in
    (u : World) × (jetset seven double no_bytes 1 (receiving v) 3 "lamp" "int" "7" idle
      ≡ Ending.done (ok Exit.exit_success, u))
    × (find 8 u.open_requests ≡ none)
unfolding jetstate_value
jetset_relays_example =
    jetset_relays (json_laws true known) (int_laws true known) seven double no_bytes 1 3 "lamp"
      (lamp (Json.uint 2) "lamp") idle (omega arith) "int" "7"

abbrev line : Arguments
line = record { address = "localhost"; port = 11122; program = "jetcat"; match = default_matcher }

abbrev printing : Notifier
printing = record {
  fetch_id = pos 0;
  add_cb = some 0;
  change_cb = some 1;
  remove_cb = some 2;
  calls = [];
}

cat_fetches_example :
    (u : World) × (cat (wire []) line printing idle
      ≡ ((ok tt, record printing { fetch_id = pos 4 }), u))
    × (u.fetchers ≡ (pos 4, record { callback = some 0; matcher = default_matcher }) ∷ [])
    × (u.trace
        ≡ Effect.wrote (frame (fetch_doc (pos 4) default_matcher))
          ∷ Effect.wrote (frame (config_doc "jetcat" false))
          ∷ [])
unfolding request_doc add_path_information int_to_string to_string
cat_fetches_example =
    cat_fetches (wire []) line idle (reliable known) printing refl (omega arith, (omega arith, tt))

abbrev nothing_yet : Cache
nothing_yet = record { entries = []; add_cb = none; change_cb = none; remove_cb = none; calls = [] }

abbrev shown : Json → String
shown v = "value"

abbrev told_as : String → Json
told_as event = object3 "event" (Json.text event) "path" (Json.text "lamp") "value" (Json.uint 1)

abbrev notice : String → Notice
notice event = record { event = event; path = "lamp"; value = Json.uint 1 }

cat_prints_example :
    printed shown (tell_all shown (told_as "add" ∷ told_as "remove" ∷ []) printing).calls
    ≡ "state 'lamp' added" ∷ "value" ∷ "state 'lamp' removed" ∷ "value" ∷ []
unfolding read_notice printed
cat_prints_example =
    cat_prints shown (told_as "add" ∷ told_as "remove" ∷ []) (notice "add" ∷ notice "remove" ∷ [])
      printing (record { adds = refl; changes = refl; removes = refl })
      (refl, refl, (refl, refl, tt))

-- {"id": 8, "result": null}
abbrev added : Json
added = object2 "id" (Json.uint 8) "result" Json.nil

abbrev call : Json
call = object3 "id" (Json.int (pos 6)) "method" (Json.text "theMethod") "params" (Json.int (pos 4))

jetmethod_serves_example :
    let u = (handle_result added (jetmethod (wire []) 3 idle).1).1 in
    handle_message call u ≡ (
      ok tt,
      send_all
          (object2 "result" (Json.int (pos 4)) "id" (Json.int (pos 6)) ∷ [])
          (told (Effect.method_called "theMethod" (Json.int (pos 4)) ∷ []) u),
    )
unfolding request_doc int_to_string to_string
jetmethod_serves_example =
    jetmethod_serves (wire []) 3 idle (reliable known) added (Json.uint 8) call
      (Json.text "theMethod") (Json.int (pos 6)) (Json.int (pos 4)) refl (omega arith, tt) refl refl
      refl refl refl refl refl refl (omega arith, tt)
