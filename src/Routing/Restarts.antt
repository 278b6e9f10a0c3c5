-- ===== src/Routing/Restarts.antt =====
-- checkAndReboot and Device::restartRoutedDevices: what the beginning of a round does.
use jetpeer_cpp.Base.{
  ℕ, String, some, [], ◌∷◌, ◌≡◌, ◌∙◌, ap, sym, refl, arith, if◌then◌else◌, if-cases, ◌==◌,
  string_eq, nat_eq, next_uint32, inl, inr, Bool-cases,
}
use mathlib.Core.List.{Memᴰ}
use jetpeer_cpp.Base.Table.{Table, find, find-put}
use jetpeer_cpp.Routing.{
  Info, Deed, Bench, tell, update, info_of, at_info, restarts, timer_set, restart_all, check_counts,
  check_and_reboot,
}

-- What printing changes.
record Calm (b c : Bench) : Type 0 where
  same_cycle : c.cycle ≡ b.cycle
  same_routed : c.routed ≡ b.routed
  same_infos : c.infos ≡ b.infos

check_counts-Calm :
    (n : ℕ) (t : Table String Info) (b c : Bench) → Calm b c → Calm b (check_counts n t c)
unfolding check_counts
check_counts-Calm n [] b c p = p
check_counts-Calm n ((uuid, i) ∷ rest) b c p = check_counts-Calm n rest b _ (
    if-cases (Calm b) (i.count == n) (λ _. p)
      (λ _. record {
        same_cycle = p.same_cycle;
        same_routed = p.same_routed;
        same_infos = p.same_infos;
      }))

restart_all-cycle :
    (now : ℕ) (t : Table String ℕ) (b : Bench) → (restart_all now t b).cycle ≡ b.cycle
unfolding restart_all
restart_all-cycle now [] b = refl
restart_all-cycle now ((uuid, port) ∷ rest) b = restart_all-cycle now rest _

-- The time at which the device was restarted last.
abbrev pub restarted_at : String → Bench → ℕ
restarted_at uuid b = (at_info uuid b).restarted

restarted-update :
    (now : ℕ) (uuid j : String) (b : Bench)
    → restarted_at j (update uuid (λ i. record i { restarted = now }) b)
      ≡ (if uuid == j then now else restarted_at j b)
restarted-update now uuid j b =
    ap (λ o. (info_of o).restarted) (find-put uuid j _ b.infos)
    ∙ if-cases (λ o. (info_of o).restarted ≡ (if uuid == j then now else restarted_at j b))
        (uuid == j) (λ same. sym (ap (λ x. if x then now else restarted_at j b) same))
        (λ other. sym (ap (λ x. if x then now else restarted_at j b) other))

restart_all-keeps :
    (now : ℕ) (t : Table String ℕ) (b : Bench) (j : String)
    → restarted_at j b ≡ now
    → restarted_at j (restart_all now t b) ≡ now
unfolding restart_all
restart_all-keeps now [] b j h = h
restart_all-keeps now ((uuid, port) ∷ rest) b j h =
    restart_all-keeps now rest _ j
      (restarted-update now uuid j b ∙ if-cases (λ x. x ≡ now) (uuid == j) (λ _. refl) (λ _. h))

restart_all-reaches :
    (now : ℕ) (t : Table String ℕ) (b : Bench) (j : String) (q : ℕ)
    → find j t ≡ some q
    → restarted_at j (restart_all now t b) ≡ now
unfolding restart_all find
restart_all-reaches now [] b j q found = ground (arith, found)
restart_all-reaches now ((uuid, port) ∷ rest) b j q found =
    let b1 = tell (restarts uuid) (update uuid (λ i. record i { restarted = now }) b) in
    elim (Bool-cases (uuid == j)) [
      | inl same ↦
          restart_all-keeps now rest b1 j
            (restarted-update now uuid j b ∙ ap (λ x. if x then now else restarted_at j b) same)
      | inr other ↦
          restart_all-reaches now rest b1 j q
            (sym (ap (λ x. if x then some port else find j rest) other) ∙ found)
    ]

restart_all-sent :
    (now : ℕ) (t : Table String ℕ) (b : Bench) (d : Deed)
    → Memᴰ d b.deeds
    → Memᴰ d (restart_all now t b).deeds
unfolding restart_all
restart_all-sent now [] b d h = h
restart_all-sent now ((uuid, port) ∷ rest) b d h = restart_all-sent now rest _ d (Memᴰ.tail h)

restart_all-sends :
    (now : ℕ) (t : Table String ℕ) (b : Bench) (j : String) (q : ℕ)
    → find j t ≡ some q
    → Memᴰ (restarts j) (restart_all now t b).deeds
unfolding restart_all find
restart_all-sends now [] b j q found = ground (arith, found)
restart_all-sends now ((uuid, port) ∷ rest) b j q found =
    let b1 = tell (restarts uuid) (update uuid (λ i. record i { restarted = now }) b) in
    elim (Bool-cases (uuid == j)) [
      | inl same ↦
          restart_all-sent now rest b1 (restarts j)
            (Memᴰ.head (ap restarts (sym ((string_eq.equals_iff uuid j).0 same))))
      | inr other ↦
          restart_all-sends now rest b1 j q
            (sym (ap (λ x. if x then some port else find j rest) other) ∙ found)
    ]

-- What a new round does.
pub record BeginsRound (now : ℕ) (b c : Bench) : Type 0 where
  pub counted_on : c.cycle ≡ next_uint32 b.cycle
  pub all_restarted :
      (j : String) (q : ℕ)
      → find j b.routed ≡ some q
      → (restarted_at j c ≡ now) × Memᴰ (restarts j) c.deeds

pub check_and_reboot-BeginsRound :
    (now : ℕ) (b : Bench) → BeginsRound now b (check_and_reboot now b)
unfolding check_and_reboot
check_and_reboot-BeginsRound now b =
    let b1 = check_counts (next_uint32 b.cycle) b.infos b in
    let calm =
      check_counts-Calm (next_uint32 b.cycle) b.infos b b
        (record { same_cycle = refl; same_routed = refl; same_infos = refl }) in
    let b2 = tell (timer_set 120000) (record b1 { cycle = next_uint32 b1.cycle }) in
    record {
      counted_on = restart_all-cycle now b2.routed b2 ∙ ap next_uint32 calm.same_cycle;
      all_restarted = λ j q found.
          let there = ap (find j) calm.same_routed ∙ found in
          (
            restart_all-reaches now b2.routed b2 j q there,
            restart_all-sends now b2.routed b2 j q there,
          );
    }
