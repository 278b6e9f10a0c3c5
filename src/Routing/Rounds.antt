-- ===== src/Routing/Rounds.antt =====
-- When the next round begins: Device::serviceCb.
use jetpeer_cpp.Base.{
  ℕ, String, str_empty, some, [], ◌∷◌, Bool, true, ◌≡◌, ◌≢◌, ◌∙◌, ap, sym, refl, arith,
  if◌then◌else◌, if-cases, ◌==◌, string_eq, nat_eq, inl, inr, Bool-cases, ==_refl,
}
use jetpeer_cpp.Base.Table.{Table, find, put, find-put, find-put_self, find-put_ne}
use jetpeer_cpp.Base.Table.Unique.{IsUnique, put-IsUnique}
use jetpeer_cpp.Routing.{
  Info, Bench, tell, update, info_of, at_info, complete, protocol_back, seconds, milliseconds,
  restart_complete_cb, all_available, protocol_appeared, service_cb,
}
use jetpeer_cpp.Routing.Restarts.{BeginsRound, restarted_at, check_and_reboot-BeginsRound}

all_available_sound :
    (t : Table String Info) (j : String) (i : Info)
    → all_available t ≡ true
    → find j t ≡ some i
    → i.available ≡ true
unfolding all_available find
all_available_sound [] j i all found = ground (arith, found)
all_available_sound ((k, h) ∷ t) j i all found =
    ground (arith, all, found, all_available_sound t j i)

all_available_complete :
    (t : Table String Info)
    → IsUnique t
    → ((j : String) (i : Info) → find j t ≡ some i → i.available ≡ true)
    → all_available t ≡ true
unfolding all_available find
all_available_complete [] u each = refl
all_available_complete ((k, h) ∷ t) (fresh, u) each =
    let head : h.available ≡ true =
      each k h (ap (λ x. if x then some h else find k t) (==_refl k)) in
    let tail = all_available_complete t u (λ j i found. each j i (
      if-cases (λ o. o ≡ some i) (k == j)
        (λ same. absurd (ground (arith, same, string_eq.equals_iff k j, fresh, found)))
        (λ _. found))) in
    ground (arith, head, tail)

-- All known devices but this one offer their protocol.
abbrev pub OthersBack : String → Bench → Type 0
OthersBack uuid b =
    (j : String) (i : Info) → uuid ≢ j → find j b.infos ≡ some i → i.available ≡ true

-- What follows when a round has begun.
abbrev Begun : Bench → Type 0 → Bench → Type 0
Begun b R c = c.cycle ≢ b.cycle → R

-- Whether it was a round that began, the name and the others tell.
abbrev pub IsLast : String → Bool → String → Bench → Type 0
IsLast name appears uuid b =
    (name ≡ "hbkProtocol")
    × (appears ≡ true)
    × ((at_info uuid b).disappeared ≢ 0)
    × OthersBack uuid b

available-others :
    (uuid : String) (i : Info) (b : Bench)
    → all_available (put uuid i b.infos) ≡ true
    → OthersBack uuid b
available-others uuid i b all j k other found =
    all_available_sound (put uuid i b.infos) j k all (find-put_ne uuid j i b.infos other ∙ found)

others-available :
    (uuid : String) (i : Info) (b : Bench)
    → IsUnique b.infos
    → i.available ≡ true
    → OthersBack uuid b
    → all_available (put uuid i b.infos) ≡ true
others-available uuid i b unique this others =
    all_available_complete (put uuid i b.infos) (put-IsUnique uuid i b.infos unique)
      (λ j k found. of_option j k (sym (find-put uuid j i b.infos) ∙ found))
  where
    of_option :
        (j : String) (k : Info)
        → (if uuid == j then some i else find j b.infos) ≡ some k
        → k.available ≡ true
    of_option j k e = elim (Bool-cases (uuid == j)) [
      | inl same ↦
          let ik : some i ≡ some k =
            sym (ap (λ x. if x then some i else find j b.infos) same) ∙ e in
          ap (λ o. (info_of o).available) (sym ik) ∙ this
      | inr other ↦
          others j k (ground (arith, other, string_eq.equals_iff uuid j))
            (sym (ap (λ x. if x then some i else find j b.infos) other) ∙ e)
    ]

-- That its protocol is there does not change when a device was shut down.
disappeared-update :
    (uuid : String) (b : Bench)
    → (at_info uuid (update uuid (λ i. record i { available = true }) b)).disappeared
      ≡ (at_info uuid b).disappeared
disappeared-update uuid b = ap (λ o. (info_of o).disappeared) (find-put_self uuid _ b.infos)

protocol_appeared-round :
    (uuid : String) (now : ℕ) (b : Bench)
    → (protocol_appeared uuid now b).cycle ≢ b.cycle
    → ((at_info uuid b).disappeared ≢ 0) × OthersBack uuid b
protocol_appeared-round uuid now b =
    let b1 = update uuid (λ i. record i { available = true }) b in
    if-cases (Begun b (((at_info uuid b).disappeared ≢ 0) × OthersBack uuid b))
      ((at_info uuid b1).disappeared == 0) (λ _ moved. absurd (moved refl))
      (λ gone.
        if-cases (Begun b (((at_info uuid b).disappeared ≢ 0) × OthersBack uuid b))
          (all_available b1.infos)
          (λ all _.
            (ground (arith, gone, disappeared-update uuid b), available-others uuid _ b all))
          (λ _ moved. absurd (moved refl)))

-- If what a routed device reports begins a new round of restarts, then it reports its protocol, it
-- had been shut down before, and all other devices that are known offer their protocol.
pub round_needs_all :
    (name : String) (appears : Bool) (uuid : String) (now : ℕ) (b : Bench)
    → (service_cb name appears uuid now b).cycle ≢ b.cycle
    → IsLast name appears uuid b
unfolding service_cb
round_needs_all name appears uuid now b =
    let R = IsLast name appears uuid b in
    if-cases (Begun b R) (name == "jetd")
      (λ _.
        if-cases (Begun b R) appears
          (λ _.
            if-cases (Begun b R)
              ((at_info uuid (update uuid (λ i. record i { appeared = now }) b)).disappeared == 0)
              (λ _ moved. absurd (moved refl)) (λ _ moved. absurd (moved refl)))
          (λ _ moved. absurd (moved refl)))
      (λ _.
        if-cases (Begun b R) (name == "hbkProtocol")
          (λ named.
            if-cases (Begun b R) appears
              (λ there moved.
                let (gone, others) = protocol_appeared-round uuid now b moved in
                ((string_eq.equals_iff name "hbkProtocol").0 named, there, gone, others))
              (λ _ moved. absurd (moved refl)))
          (λ _.
            if-cases (Begun b R) (str_empty name) (λ _ moved. absurd (moved refl))
              (λ _ moved. absurd (moved refl))))

-- When a device that was shut down reports its protocol, and all others that are known offer
-- theirs, the next round begins: it is counted, and every routed device is told to restart and has
-- that time as the time of its restart. No device may stand twice in the table of infos.
pub last_device-BeginsRound :
    (uuid : String) (now : ℕ) (b : Bench)
    → IsUnique b.infos
    → OthersBack uuid b
    → (at_info uuid b).disappeared ≢ 0
    → BeginsRound now b (service_cb "hbkProtocol" true uuid now b)
unfolding service_cb restart_complete_cb
last_device-BeginsRound uuid now b unique others gone =
    let b1 = update uuid (λ i. record i { available = true }) b in
    let b2 =
      tell
        (protocol_back uuid (seconds now (restarted_at uuid b1))
          (milliseconds now (at_info uuid b1).appeared))
        b1 in
    if-cases (BeginsRound now b) ((at_info uuid b1).disappeared == 0)
      (λ zero. absurd (ground (arith, zero, gone, disappeared-update uuid b)))
      (λ _.
        if-cases (BeginsRound now b) (all_available b1.infos)
          (λ _.
            let r = check_and_reboot-BeginsRound now (tell complete b2) in
            record { counted_on = r.counted_on; all_restarted = r.all_restarted })
          (λ some_missing.
            let all : all_available b1.infos ≡ true =
              others-available uuid (record (at_info uuid b) { available = true }) b unique refl
                others in
            absurd (ground (arith, some_missing, all))))
