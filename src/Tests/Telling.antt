-- ===== src/Tests/Telling.antt =====
-- The theorems on the notifier, on jetstate and on the simulated library, applied.
use mathlib.Core.List.{reverse}
use jetpeer_cpp.Base.{
  Bool, true, false, nat_eq, ◌==◌, pos, none, some, List, [], ◌∷◌, ◌≡◌, refl, int_eq,
}
use jetpeer_cpp.Cache.{Cache}
use jetpeer_cpp.Cache as Cache
use jetpeer_cpp.Defines.{default_matcher}
use jetpeer_cpp.Defines.Failure.{ok}
use jetpeer_cpp.Jetstate.{stored_after}
use jetpeer_cpp.Jetstate.Followers.{follow, notified, followers_agree}
use jetpeer_cpp.Notifier.{Notifier, fetch_cb}
use jetpeer_cpp.Notifier.Follows.{Agree, notifier_like_cache}
use jetpeer_cpp.Simulation.{Simulated, Call, perform_all}
use jetpeer_cpp.Simulation.StandIn.{real_all, answers_to, stands_in}
use jetpeer_cpp.Tests.Data.{toy, known, idle, object3}
use jetpeer_cpp.Tests.Toy.Holds.{json_laws}
use jetpeer_cpp.Tests.Toy.{Json}

abbrev listener : Notifier
listener = record {
  fetch_id = pos 4;
  add_cb = some 1;
  change_cb = some 2;
  remove_cb = some 3;
  calls = [];
}

abbrev store : Cache
store = record { entries = []; add_cb = some 1; change_cb = some 2; remove_cb = some 3; calls = [] }

abbrev added : Json
added = object3 "event" (Json.text "add") "path" (Json.text "lamp") "value" (Json.uint 1)

notifier_like_cache_example :
    Agree (fetch_cb added (pos 0) listener) (Cache.fetch_cb added (pos 0) store)
notifier_like_cache_example = notifier_like_cache added (pos 0) listener store (record {
  adds = (1, refl, refl);
  changes = (2, refl, refl);
  removes = (3, refl, refl);
  same_calls = refl;
})

abbrev calls : List Call
calls =
    Call.set_state_value "lamp" (Json.uint 1) (some 8)
    ∷ Call.add_fetch default_matcher (some 5) (some 9)
    ∷ Call.restore default_matcher (pos 1)
    ∷ Call.add_fetch default_matcher (some 6) none
    ∷ []

abbrev simulated : Simulated
simulated = record { sfetch_id = pos 3; answers = [] }

stands_in_example :
    ((real_all calls idle).0 ≡ ok (perform_all calls simulated).0)
    × (reverse (perform_all calls simulated).1.answers ≡ answers_to calls)
stands_in_example = stands_in calls idle simulated refl

abbrev same_number : Json → Json → Bool
same_number (Json.uint a) (Json.uint b) = a == b
same_number _ _ = false

abbrev requests : List Json
requests = Json.uint 1 ∷ Json.uint 2 ∷ Json.uint 2 ∷ Json.uint 5 ∷ []

followers_agree_example :
    follow (Json.uint 1) (notified same_number "lamp" (Json.uint 1) requests)
    ≡ stored_after same_number (Json.uint 1) requests
followers_agree_example =
    followers_agree same_number "lamp" (json_laws true known) (Json.uint 1) requests
      (refl, (refl, (refl, (refl, tt))))
