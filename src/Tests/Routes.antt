-- ===== src/Tests/Routes.antt =====
-- The theorems on the test bench, applied.
use jetpeer_cpp.Base.{pos, none, true, false, [], ◌∷◌, refl, arith, string_eq}
use jetpeer_cpp.Base.Table.{find, put}
use jetpeer_cpp.Routing.{
  Bench, new_info, service_cb, all_available, restart_complete_cb, check_and_reboot, check_counts,
  restart_all,
}
use jetpeer_cpp.Routing.Callbacks.{fetch_routed_cb}
use jetpeer_cpp.Routing.Known.{IsTracked, History, Happens, History-IsTracked}
use jetpeer_cpp.Routing.Restarts.{BeginsRound}
use jetpeer_cpp.Routing.Rounds.{IsLast, OthersBack, round_needs_all, last_device-BeginsRound}
use jetpeer_cpp.Tests.Data.{toy, object1, object2}
use jetpeer_cpp.Tests.Toy.{Json, Items}

abbrev empty_bench : Bench
empty_bench = record { routed = []; infos = []; fetch_done = false; cycle = 0; deeds = [] }

-- {"event": "add", "value": {"device": {"uuid": "amp"}, "services": [{"type": "jetd", "port": 9}]}}
abbrev announcement : Json
announcement = object2 "event" (Json.text "add") "value" (
    object2 "device" (object1 "uuid" (Json.text "amp")) "services" (
      Json.array
        (Items.item (object2 "type" (Json.text "jetd") "port" (Json.uint 9)) Items.no_item)))

abbrev after_announcement : Bench
after_announcement = (fetch_routed_cb (λ _. none) announcement (pos 0) empty_bench).1

empty-IsTracked : IsTracked empty_bench
unfolding find
empty-IsTracked = record { tracked = λ uuid port found. ground (arith, found); unique = tt }

History-IsTracked_example : IsTracked after_announcement
History-IsTracked_example =
    History-IsTracked
      (History.next History.here (Happens.announced (λ _. none) announcement (pos 0)))
      empty-IsTracked

-- Two devices in the second round; the first was shut down and is not back, the other is.
abbrev waiting_bench : Bench
waiting_bench = record {
  routed = ("amp", 9) ∷ ("dac", 10) ∷ [];
  infos =
      ("amp", record new_info { count = 1; restarted = 2; disappeared = 3 })
      ∷ ("dac", record new_info { count = 1; restarted = 2; disappeared = 3; available = true })
      ∷ [];
  fetch_done = true;
  cycle = 1;
  deeds = [];
}

dac-OthersBack : OthersBack "amp" waiting_bench
unfolding find
dac-OthersBack j i other found = ground (arith, found, other, string_eq.equals_iff "amp" j)

round_needs_all_example : IsLast "hbkProtocol" true "amp" waiting_bench
unfolding service_cb find put all_available restart_complete_cb check_and_reboot check_counts
    restart_all
round_needs_all_example = round_needs_all "hbkProtocol" true "amp" 5 waiting_bench (omega arith)

last_device-BeginsRound_example :
    BeginsRound 5 waiting_bench (service_cb "hbkProtocol" true "amp" 5 waiting_bench)
unfolding find
last_device-BeginsRound_example =
    last_device-BeginsRound "amp" 5 waiting_bench (refl, (refl, tt)) dac-OthersBack (omega arith)
