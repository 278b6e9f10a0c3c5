-- ===== src/Routing.antt =====
-- tool/qxrouting: a test bench that restarts the devices behind a router again and again. Device
-- follows the announcements of routed devices, each RoutedDevice follows the services of one of them,
-- and Routing.cpp begins the next round when all are back. The clock counts nanoseconds.
pub mod Callbacks
pub mod Grows
pub mod Known
pub mod Restarts
pub mod Rounds
use jetpeer_cpp.Base.{
  ℕ, ◌+◌, ◌-◌, ◌/◌, ◌%◌, ◌^◌, ℤ, pos, negsuc, String, str_empty, Option, none, some, List, [], ◌∷◌,
  Bool, true, false, ◌||◌, not, if◌then◌else◌, ◌==◌, string_eq, nat_eq, int_eq, next_uint32,
  minus_one,
}
use jetpeer_cpp.Base.Table.{Table, find, put, erase}
use jetpeer_cpp.Platform.{Platform, Value, Kind}
use jetpeer_cpp.Defines.Failure.{Failure, Outcome, ok, raised}
use jetpeer_cpp.Defines.Key
use jetpeer_cpp.Defines.Rpc
use jetpeer_cpp.Defines.Verb
use jetpeer_cpp.Peer.State.{json_error}

-- Device::appearanceInfo_t; the time 0 is `time_point()`.
pub record Info : Type 0 where
  pub count : ℕ
  pub appeared : ℕ
  pub restarted : ℕ
  pub disappeared : ℕ
  pub available : Bool

abbrev pub new_info : Info
new_info = record { count = 0; appeared = 0; restarted = 0; disappeared = 0; available = false }

-- What the bench does to the routed devices, and what it prints.
pub data Deed : Type 0 where
  -- RoutedDevice::RoutedDevice, and the fetch of setServiceCb
  connects_to : String → ℕ → Deed
  follows : String → Deed
  -- callMethodAsync("system/restart")
  restarts : String → Deed
  -- "service jetd appeared", "service HBK Protocol appeared", "disappeared", "until shutdown"
  jetd_back : String → ℕ → Deed
  protocol_back : String → ℕ → ℕ → Deed
  protocol_gone : String → ℕ → Deed
  going_down : String → ℕ → Deed
  -- "all routed devices have completed restart", "not all devices came up in time!"
  complete late : Deed
  -- "was not restarted as expected"
  unexpected : String → Deed
  -- s_timer.set
  timer_set : ℕ → Deed

-- The members of Device, and the static variables of Routing.cpp. A routed device is its port.
pub record Bench : Type 0 where
  pub routed : Table String ℕ
  pub infos : Table String Info
  pub fetch_done : Bool
  pub cycle : ℕ
  -- newest first
  pub deeds : List Deed

abbrev pub tell : Deed → Bench → Bench
tell d b = record b { deeds = d ∷ b.deeds }

abbrev pub info_of : Option Info → Info
info_of none = new_info
info_of (some i) = i

-- m_appearanceInfos[uuid], which makes an entry for a new uuid, and a change of it.
abbrev pub update : String → (Info → Info) → Bench → Bench
update uuid f b = record b { infos = put uuid (f (info_of (find uuid b.infos))) b.infos }

-- duration_cast and the conversion to `unsigned int`; the steady clock does not go back.
abbrev pub seconds : ℕ → ℕ → ℕ
seconds now before = (now - before) / 10 ^ 9 % 2 ^ 32

abbrev pub milliseconds : ℕ → ℕ → ℕ
milliseconds now before = (now - before) / 10 ^ 6 % 2 ^ 32

-- Device::restartRoutedDevices
unfoldable pub restart_all : ℕ → Table String ℕ → Bench → Bench
restart_all now [] b = b
restart_all now ((uuid, port) ∷ rest) b =
    restart_all now rest (tell (restarts uuid) (update uuid (λ i. record i { restarted = now }) b))

-- The check of the appearance counts.
unfoldable pub check_counts : ℕ → Table String Info → Bench → Bench
check_counts expected [] b = b
check_counts expected ((uuid, i) ∷ rest) b =
    check_counts expected rest (if i.count == expected then b else tell (unexpected uuid) b)

-- checkAndReboot; the timer fires after 120 seconds.
unfoldable pub check_and_reboot : ℕ → Bench → Bench
unfolding check_counts restart_all
check_and_reboot now b =
    let b1 = check_counts (next_uint32 b.cycle) b.infos b in
    let b2 = tell (timer_set 120000) (record b1 { cycle = next_uint32 b1.cycle }) in
    restart_all now b2.routed b2

unfoldable pub restart_timer_cb : Bool → ℕ → Bench → Bench
restart_timer_cb fired now b = if fired then check_and_reboot now (tell late b) else b

unfoldable pub restart_complete_cb : ℕ → Bench → Bench
restart_complete_cb now b = check_and_reboot now (tell complete b)

unfoldable pub all_available : Table String Info → Bool
all_available [] = true
all_available ((_, i) ∷ rest) =
    let others = all_available rest in if i.available then others else false

abbrev pub at_info : String → Bench → Info
at_info uuid b = info_of (find uuid b.infos)

abbrev pub jetd_appeared : String → ℕ → Bench → Bench
jetd_appeared uuid now b =
    let b1 = update uuid (λ i. record i { appeared = now }) b in
    let i = at_info uuid b1 in
    if i.disappeared == 0 then b1 else tell (jetd_back uuid (seconds now i.restarted)) b1

abbrev pub protocol_appeared : String → ℕ → Bench → Bench
protocol_appeared uuid now b =
    let b1 = update uuid (λ i. record i { available = true }) b in
    let i = at_info uuid b1 in
    if i.disappeared == 0
    then b1
    else let b2 =
        tell (protocol_back uuid (seconds now i.restarted) (milliseconds now i.appeared)) b1 in
      if all_available b2.infos then restart_complete_cb now b2 else b2

abbrev pub protocol_disappeared : String → ℕ → Bench → Bench
protocol_disappeared uuid now b =
    let b1 = update uuid (λ i. record i { available = false }) b in
    tell (protocol_gone uuid (milliseconds now (at_info uuid b1).restarted)) b1

-- The entry is made by the first access, before the time of the end is written.
abbrev pub shutting_down : String → ℕ → Bench → Bench
shutting_down uuid now b =
    update uuid (λ i. record i { disappeared = now })
      (tell (going_down uuid (seconds now (at_info uuid b).restarted)) b)

-- Device::serviceCb
unfoldable pub service_cb : String → Bool → String → ℕ → Bench → Bench
unfolding all_available restart_complete_cb
service_cb name appears uuid now b =
    if name == "jetd"
    then (if appears then jetd_appeared uuid now b else b)
    else if name == "hbkProtocol"
    then (if appears then protocol_appeared uuid now b else protocol_disappeared uuid now b)
    else if str_empty name
    then shutting_down uuid now b
    else b

-- How often the device has appeared.
abbrev pub counted : Option Info → Info
counted none = record new_info { count = 1 }
counted (some i) = record i { count = next_uint32 i.count }

abbrev pub appear : String → ℕ → Bench → Bench
appear uuid port b =
    let b1 = record b { routed = put uuid port b.routed } in
    let b2 = tell (follows uuid) (tell (connects_to uuid port) b1) in
    record b2 { infos = put uuid (counted (find uuid b2.infos)) b2.infos }
