-- ===== src/Routing/Grows.antt =====
-- What the timers and the services of the bench leave as it is: the routed devices and their infos.
use jetpeer_cpp.Base.{
  ℕ, String, some, [], ◌∷◌, Bool, true, false, ◌≡◌, ◌∙◌, refl, if◌then◌else◌, if-cases, ◌==◌,
  string_eq, nat_eq, int_eq, next_uint32,
}
use jetpeer_cpp.Base.Table.{Table, find, put, find-put}
use jetpeer_cpp.Base.Table.Unique.{IsUnique, put-IsUnique}
use jetpeer_cpp.Routing.{
  Info, Deed, timer_set, going_down, at_info, jetd_appeared, protocol_appeared,
  protocol_disappeared, shutting_down, Bench, tell, restarts, info_of, update, restart_all,
  check_counts, check_and_reboot, restart_timer_cb, restart_complete_cb, service_cb, seconds,
}

abbrev pub HasInfo : String → Bench → Type 0
HasInfo uuid b = (i : Info) × (find uuid b.infos ≡ some i)

-- An operation that leaves the routed devices alone and forgets no info.
pub record Grows (b c : Bench) : Type 0 where
  pub same_routed : c.routed ≡ b.routed
  pub keeps : (uuid : String) → HasInfo uuid b → HasInfo uuid c
  pub stays_unique : IsUnique b.infos → IsUnique c.infos

pub Grows-refl : (b : Bench) → Grows b b
Grows-refl b = record { same_routed = refl; keeps = λ uuid h. h; stays_unique = λ u. u }

Grows-trans : {b c d : Bench} → Grows b c → Grows c d → Grows b d
Grows-trans p q = record {
  same_routed = q.same_routed ∙ p.same_routed;
  keeps = λ uuid h. q.keeps uuid (p.keeps uuid h);
  stays_unique = λ u. q.stays_unique (p.stays_unique u);
}

Grows-tell : (b c : Bench) (d : Deed) → Grows b c → Grows b (tell d c)
Grows-tell b c d p = record {
  same_routed = p.same_routed;
  keeps = p.keeps;
  stays_unique = p.stays_unique;
}

pub find-put-some :
    (uuid j : String) (i : Info) (t : Table String Info)
    → ((k : Info) × (find j t ≡ some k))
    → (k : Info) × (find j (put uuid i t) ≡ some k)
find-put-some uuid j i t (k, h) =
    let (x, e) =
      if-cases (λ o. (x : Info) × (o ≡ some x)) (uuid == j) {x = some i} {y = find j t}
        (λ _. (i, refl)) (λ _. (k, h)) in
    (x, find-put uuid j i t ∙ e)

Grows-put :
    (b c : Bench) (uuid : String) (i : Info)
    → Grows b c
    → Grows b (record c { infos = put uuid i c.infos })
Grows-put b c uuid i p = record {
  same_routed = p.same_routed;
  keeps = λ j h. find-put-some uuid j i c.infos (p.keeps j h);
  stays_unique = λ u. put-IsUnique uuid i c.infos (p.stays_unique u);
}

Grows-if :
    (b : Bench) (t : Bool) (c d : Bench) → Grows b c → Grows b d → Grows b (if t then c else d)
Grows-if b true c d p q = p
Grows-if b false c d p q = q

ruleset grows_rules = (Grows-refl, Grows-tell, Grows-put, Grows-if)

restart_all-Grows :
    (now : ℕ) (t : Table String ℕ) (b c : Bench) → Grows b c → Grows b (restart_all now t c)
unfolding restart_all
restart_all-Grows now [] b c p = p
restart_all-Grows now ((uuid, port) ∷ rest) b c p =
    restart_all-Grows now rest b _ (Grows-tell b _ (restarts uuid) (Grows-put b c uuid _ p))

check_counts-Grows :
    (n : ℕ) (t : Table String Info) (b c : Bench) → Grows b c → Grows b (check_counts n t c)
unfolding check_counts
check_counts-Grows n [] b c p = p
check_counts-Grows n ((uuid, i) ∷ rest) b c p =
    check_counts-Grows n rest b _ (Grows-if b (i.count == n) c _ p (Grows-tell b c _ p))

Grows-cycle : (b c : Bench) (n : ℕ) → Grows b c → Grows b (record c { cycle = n })
Grows-cycle b c n p = record {
  same_routed = p.same_routed;
  keeps = p.keeps;
  stays_unique = p.stays_unique;
}

pub check_and_reboot-Grows : (now : ℕ) (b c : Bench) → Grows b c → Grows b (check_and_reboot now c)
unfolding check_and_reboot
check_and_reboot-Grows now b c p =
    let b1 = check_counts (next_uint32 c.cycle) c.infos c in
    let b2 = record b1 { cycle = next_uint32 b1.cycle } in
    restart_all-Grows now b1.routed b (tell (timer_set 120000) b2) (
      Grows-tell b b2 (timer_set 120000) (
        Grows-cycle b b1 (next_uint32 b1.cycle)
          (check_counts-Grows (next_uint32 c.cycle) c.infos b c p)))

pub restart_timer_cb-Grows :
    (fired : Bool) (now : ℕ) (b : Bench) → Grows b (restart_timer_cb fired now b)
unfolding restart_timer_cb
restart_timer_cb-Grows fired now b =
    Grows-if b fired _ b (check_and_reboot-Grows now b _ (Grows-tell b b _ (Grows-refl b)))
      (Grows-refl b)

restart_complete_cb-Grows :
    (now : ℕ) (b c : Bench) → Grows b c → Grows b (restart_complete_cb now c)
unfolding restart_complete_cb
restart_complete_cb-Grows now b c p = check_and_reboot-Grows now b _ (Grows-tell b c _ p)

Grows-update : (b : Bench) (uuid : String) (f : Info → Info) → Grows b (update uuid f b)
Grows-update b uuid f = Grows-put b b uuid (f (info_of (find uuid b.infos))) (Grows-refl b)

jetd_appeared-Grows : (uuid : String) (now : ℕ) (b : Bench) → Grows b (jetd_appeared uuid now b)
jetd_appeared-Grows uuid now b =
    let g = Grows-update b uuid (λ i. record i { appeared = now }) in
    Grows-if b _ _ _ g (Grows-tell b _ _ g)

protocol_appeared-Grows :
    (uuid : String) (now : ℕ) (b : Bench) → Grows b (protocol_appeared uuid now b)
protocol_appeared-Grows uuid now b =
    let g = Grows-update b uuid (λ i. record i { available = true }) in
    let told = Grows-tell b _ _ g in
    Grows-if b _ _ _ g (Grows-if b _ _ _ (restart_complete_cb-Grows now b _ told) told)

protocol_disappeared-Grows :
    (uuid : String) (now : ℕ) (b : Bench) → Grows b (protocol_disappeared uuid now b)
protocol_disappeared-Grows uuid now b =
    Grows-tell b _ _ (Grows-update b uuid (λ i. record i { available = false }))

shutting_down-Grows : (uuid : String) (now : ℕ) (b : Bench) → Grows b (shutting_down uuid now b)
shutting_down-Grows uuid now b =
    Grows-put b (tell (going_down uuid (seconds now (at_info uuid b).restarted)) b) uuid _
      (Grows-tell b b _ (Grows-refl b))

pub service_cb-Grows :
    (name : String) (appears : Bool) (uuid : String) (now : ℕ) (b : Bench)
    → Grows b (service_cb name appears uuid now b)
unfolding service_cb
service_cb-Grows name appears uuid now b =
    search
      (
        Grows-refl, Grows-if, jetd_appeared-Grows, protocol_appeared-Grows,
        protocol_disappeared-Grows, shutting_down-Grows,
      )
      depth 10
