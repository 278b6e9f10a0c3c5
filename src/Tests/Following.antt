-- ===== src/Tests/Following.antt =====
-- The theorem on the cache, applied: a lamp is added, changed and removed, and a door stays.
use jetpeer_cpp.Base.{ℕ, String, none, some, List, [], ◌∷◌, ◌≡◌, refl, string_eq}
use jetpeer_cpp.Cache.{Cache, Notice, get_entry, read_notice}
use jetpeer_cpp.Cache.Replay.{deliver_all, get_entry-deliver_all}
use jetpeer_cpp.Tests.Toy.{Json}
use jetpeer_cpp.Tests.Data.{toy, object3}

abbrev notice : String → String → ℕ → Notice
notice event path n = record { event = event; path = path; value = Json.uint n }

abbrev told_as : String → String → ℕ → Json
told_as event path n =
    object3 "event" (Json.text event) "path" (Json.text path) "value" (Json.uint n)

abbrev nothing_yet : Cache
nothing_yet = record {
  entries = [];
  add_cb = some 1;
  change_cb = none;
  remove_cb = some 3;
  calls = [];
}

abbrev messages : List Json
messages =
    told_as "add" "lamp" 1
    ∷ told_as "add" "door" 7
    ∷ told_as "change" "lamp" 2
    ∷ told_as "remove" "lamp" 2
    ∷ []

get_entry-deliver_all_example : get_entry "door" (deliver_all messages nothing_yet) ≡ Json.uint 7
unfolding read_notice
get_entry-deliver_all_example =
    get_entry-deliver_all messages
      (notice "add" "lamp" 1
        ∷ notice "add" "door" 7
        ∷ notice "change" "lamp" 2
        ∷ notice "remove" "lamp" 2
        ∷ [])
      nothing_yet "door" (refl, refl, (refl, refl, (refl, refl, (refl, refl, tt))))
