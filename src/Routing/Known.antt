-- ===== src/Routing/Known.antt =====
-- Every routed device of the bench has an appearance info, a name and a port, in every history.
use jetpeer_cpp.Base.{
  ℕ, ℤ, pos, negsuc, String, str_empty, Option, none, some, List, [], ◌∷◌, Bool, true, false, ◌||◌,
  ◌≡◌, ◌≢◌, ◌∙◌, ap, sym, arith, if◌then◌else◌, if-cases, ◌==◌, string_eq, nat_eq, int_eq, inl, inr,
  minus_one, Bool-cases,
}
use jetpeer_cpp.Base.Table.{find, put, erase, find-put, find-erase}
use jetpeer_cpp.Platform.{Platform, Value}
use jetpeer_cpp.Defines.Failure.{Failure, Outcome}
use jetpeer_cpp.Defines.Key
use jetpeer_cpp.Defines.Verb
use jetpeer_cpp.Base.Table.Unique.{IsUnique, put-IsUnique}
use jetpeer_cpp.Routing.{Bench, check_and_reboot, restart_timer_cb, appear, counted}
use jetpeer_cpp.Routing.Callbacks.{
  read_announcement, services_port, emplace, connected, on_announcement, fetch_routed_cb,
  on_service, on_tokens, on_path, fetch_services_cb, fetch_response_cb, is_known, done_if,
  string_of, response_read,
}
use jetpeer_cpp.Routing.Grows.{
  HasInfo, Grows, Grows-refl, service_cb-Grows, check_and_reboot-Grows, restart_timer_cb-Grows,
  find-put-some,
}

-- The invariant.
pub record IsTracked (b : Bench) : Type 0 where
  pub tracked :
      (uuid : String) (port : ℕ)
      → find uuid b.routed ≡ some port
      → (uuid ≢ "") × (port ≢ 0) × HasInfo uuid b
  pub unique : IsUnique b.infos

Grows-IsTracked : (b c : Bench) → Grows b c → IsTracked b → IsTracked c
Grows-IsTracked b c g h = record {
  unique = g.stays_unique h.unique;
  tracked = λ uuid port found.
      let (named, ported, info) =
        h.tracked uuid port (sym (ap (find uuid) g.same_routed) ∙ found) in
      (named, ported, g.keeps uuid info);
}

appear-IsTracked :
    (uuid : String) (port : ℕ) (b : Bench)
    → uuid ≢ ""
    → port ≢ 0
    → IsTracked b
    → IsTracked (appear uuid port b)
appear-IsTracked uuid port b named ported h = record {
  tracked = of_new;
  unique = put-IsUnique uuid (counted (find uuid b.infos)) b.infos h.unique;
}
  where
    of_new :
        (j : String) (q : ℕ)
        → find j (put uuid port b.routed) ≡ some q
        → (j ≢ "") × (q ≢ 0) × HasInfo j (appear uuid port b)
    of_new j q found = elim (Bool-cases (uuid == j)) [
      | inl same ↦
          let uj : uuid ≡ j = (string_eq.equals_iff uuid j).0 same in
          let pq : port ≡ q = cc (
            found,
            find-put uuid j port b.routed,
            ap (λ t. if t then some port else find j b.routed) same,
          ) in
          (
            λ e. named (uj ∙ e),
            λ e. ported (pq ∙ e),
            (
              counted (find uuid b.infos),
              find-put uuid j (counted (find uuid b.infos)) b.infos
                  ∙ ap (λ t. if t then some (counted (find uuid b.infos)) else find j b.infos) same,
            ),
          )
      | inr other ↦
          let old : find j b.routed ≡ some q = cc (
            found,
            find-put uuid j port b.routed,
            ap (λ t. if t then some port else find j b.routed) other,
          ) in
          let (n, p, info) = h.tracked j q old in
          (n, p, find-put-some uuid j (counted (find uuid b.infos)) b.infos info)
    ]

forget-IsTracked :
    (uuid : String) (b : Bench)
    → IsTracked b
    → IsTracked (record b { routed = erase uuid b.routed })
forget-IsTracked uuid b h = record {
  unique = h.unique;
  tracked = λ j q found. h.tracked j q (ground (arith, find-erase uuid j b.routed, found));
}

module _ ⦃P : Platform⦄ where
  -- The bench that a callback leaves.
  abbrev Tracks : Outcome (Unit {0}) × Bench → Type 0
  Tracks r = IsTracked r.1

  connected-IsTracked :
      (o : Option Failure) (uuid : String) (port : ℕ) (b : Bench)
      → uuid ≢ ""
      → port ≢ 0
      → IsTracked b
      → IsTracked (connected o uuid port b).1
  connected-IsTracked none uuid port b named ported h = appear-IsTracked uuid port b named ported h
  connected-IsTracked (some e) uuid port b named ported h = h

  emplace-IsTracked :
      (connects : ℕ → Option Failure) (uuid : String) (o : Option ℕ) (b : Bench)
      → uuid ≢ ""
      → IsTracked b
      → IsTracked (emplace connects uuid o b).1
  emplace-IsTracked connects uuid none b named h = h
  emplace-IsTracked connects uuid (some port) b named h =
      if-cases Tracks (port == 0) (λ _. h)
        (λ other. connected-IsTracked (connects port) uuid port b named (ground (arith, other)) h)

  on_announcement-IsTracked :
      (connects : ℕ → Option Failure) (o : Option (Value × (String × String))) (b : Bench)
      → IsTracked b
      → IsTracked (on_announcement connects o b).1
  on_announcement-IsTracked connects none b h = h
  on_announcement-IsTracked connects (some (announcement, (event, uuid))) b h =
      if-cases Tracks (event == Verb.add || event == Verb.change)
        (λ _.
          if-cases Tracks (str_empty uuid || is_known (find uuid b.routed)) (λ _. h)
            (λ named.
              emplace-IsTracked connects uuid (services_port announcement) b
                (ground (arith, named, string_eq.equals_iff uuid "")) h))
        (λ _. if-cases Tracks (event == Verb.remove) (λ _. forget-IsTracked uuid b h) (λ _. h))

  service-IsTracked :
      (uuid name : String) (o : Option String) (now : ℕ) (b : Bench)
      → IsTracked b
      → IsTracked (on_service uuid name o now b).1
  service-IsTracked uuid name none now b h = h
  service-IsTracked uuid name (some event) now b h =
      if-cases Tracks (event == Verb.add)
        (λ _. Grows-IsTracked b _ (service_cb-Grows name true uuid now b) h)
        (λ _.
          if-cases Tracks (event == Verb.remove)
            (λ _. Grows-IsTracked b _ (service_cb-Grows name false uuid now b) h) (λ _. h))

  tokens-IsTracked :
      (uuid : String) (tokens : List String) (n : Value) (now : ℕ) (b : Bench)
      → IsTracked b
      → IsTracked (on_tokens uuid tokens n now b).1
  tokens-IsTracked uuid [] n now b h = h
  tokens-IsTracked uuid (x ∷ []) n now b h = h
  tokens-IsTracked uuid (x ∷ y ∷ []) n now b h = h
  tokens-IsTracked uuid (x ∷ y ∷ name ∷ []) n now b h =
      service-IsTracked uuid name (string_of n Key.event) now b h
  tokens-IsTracked uuid (x ∷ y ∷ z ∷ w ∷ r) n now b h = h

  path-IsTracked :
      (split : String → List String) (uuid : String) (o : Option String) (n : Value) (now : ℕ)
      (b : Bench)
      → IsTracked b
      → IsTracked (on_path split uuid o n now b).1
  path-IsTracked split uuid none n now b h = h
  path-IsTracked split uuid (some path) n now b h = tokens-IsTracked uuid (split path) n now b h

  done_if-IsTracked : (o : Option (Unit {0})) (b : Bench) → IsTracked b → IsTracked (done_if o b).1
  done_if-IsTracked none b h = h
  done_if-IsTracked (some _) b h = record { tracked = h.tracked; unique = h.unique }

  -- What happens to the bench, from outside, in any order.
  pub data Happens (b : Bench) : Bench → Type 0 where
    announced :
        (connects : ℕ → Option Failure) (n : Value) (status : ℤ)
        → Happens b (fetch_routed_cb connects n status b).1
    served :
        (split : String → List String) (uuid : String) (n : Value) (status : ℤ) (now : ℕ)
        → Happens b (fetch_services_cb split uuid n status now b).1
    answered : (result : Value) → Happens b (fetch_response_cb result b).1
    timed : (fired : Bool) (now : ℕ) → Happens b (restart_timer_cb fired now b)
    begun : (now : ℕ) → Happens b (check_and_reboot now b)

  pub data History (b : Bench) : Bench → Type 0 where
    here : History b b
    next : {c d : Bench} → History b c → Happens c d → History b d

  Happens-IsTracked : {b c : Bench} → Happens b c → IsTracked b → IsTracked c
  unfolding fetch_routed_cb fetch_services_cb fetch_response_cb
  Happens-IsTracked {b} (announced connects n status) h =
      if-cases Tracks (status == minus_one) (λ _. h)
        (λ _. on_announcement-IsTracked connects (read_announcement n) b h)
  Happens-IsTracked {b} (served split uuid n (pos k) now) h =
      path-IsTracked split uuid (string_of n Key.path) n now b h
  Happens-IsTracked {b} (served split uuid n (negsuc k) now) h =
      Grows-IsTracked b _ (service_cb-Grows "" false uuid now b) h
  Happens-IsTracked {b} (answered result) h = done_if-IsTracked (response_read result) b h
  Happens-IsTracked {b} (timed fired now) h =
      Grows-IsTracked b _ (restart_timer_cb-Grows fired now b) h
  Happens-IsTracked {b} (begun now) h =
      Grows-IsTracked b _ (check_and_reboot-Grows now b b (Grows-refl b)) h

  -- In every history of the bench, whatever is announced, served, answered and timed, every routed
  -- device has a name, a port that is not 0 and an appearance info, and no device stands twice in
  -- the table of infos, if this is so at the start.
  pub History-IsTracked : {b c : Bench} → History b c → IsTracked b → IsTracked c
  History-IsTracked here h = h
  History-IsTracked (next p e) h = Happens-IsTracked e (History-IsTracked p h)
