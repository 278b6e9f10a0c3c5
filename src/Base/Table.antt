-- ===== src/Base/Table.antt =====
-- `std::unordered_map`: an association list. Its iteration order is the order of the list, and a
-- new key goes to the end.
pub mod Unique
use Prim.Native.Nat.{◌+◌, ◌≤◌}
use mathlib.Core.Path.{◌≡◌, refl}
use mathlib.Core.Logic.{◌≢◌}
use mathlib.Core.Option.{Option, none, some}
use mathlib.Core.List.{List, [], ◌∷◌}
use native.Mathlib.Omega.{arith}
use jetpeer_cpp.Base.Tests.{HasEq, ◌==◌, if◌then◌else◌}
use jetpeer_cpp.Base.Lists.{length}

abbrev pub Table {ℓ κ} : Type ℓ → Type κ → Type (ℓ ⊔ κ)
Table K V = List (K × V)

module _ {ℓ κ} {K : Type ℓ} {V : Type κ} ⦃e : HasEq K⦄ where
  unfoldable pub find : K → Table K V → Option V
  find k [] = none
  find k ((j, v) ∷ t) = if j == k then some v else find k t

  -- t[k] = v
  unfoldable pub put : K → V → Table K V → Table K V
  put k v [] = (k, v) ∷ []
  put k v ((j, u) ∷ t) = if j == k then (k, v) ∷ t else (j, u) ∷ put k v t

  -- t.erase(k)
  unfoldable pub erase : K → Table K V → Table K V
  erase k [] = []
  erase k ((j, u) ∷ t) = let rest = erase k t in if j == k then rest else (j, u) ∷ rest

  pub find-put :
      (k j : K) (v : V) (t : Table K V) → find j (put k v t) ≡ (if k == j then some v else find j t)
  unfolding find put
  find-put k j v [] = refl
  find-put k j v ((i, u) ∷ t) =
      ground (arith, e.equals_iff i k, e.equals_iff i j, e.equals_iff k j, find-put k j v t)

  pub find-erase :
      (k j : K) (t : Table K V) → find j (erase k t) ≡ (if k == j then none else find j t)
  unfolding find erase
  find-erase k j [] = ground arith
  find-erase k j ((i, u) ∷ t) =
      ground (arith, e.equals_iff i k, e.equals_iff i j, e.equals_iff k j, find-erase k j t)

  pub erase-put :
      (k : K) (v : V) (t : Table K V) → find k t ≡ none → erase k (put k v t) ≡ erase k t
  unfolding find put erase
  erase-put k v [] h = ground (arith, e.equals_iff k k)
  erase-put k v ((i, u) ∷ t) h = ground (arith, e.equals_iff k k, e.equals_iff i k, erase-put k v t)

  pub length-erase : (k : K) (t : Table K V) → length (erase k t) ≤ length t
  unfolding erase
  length-erase k [] = omega arith
  length-erase k ((i, u) ∷ t) = ground (arith, length-erase k t)

  pub length-put : (k : K) (v : V) (t : Table K V) → length (put k v t) ≤ length t + 1
  unfolding put
  length-put k v [] = omega arith
  length-put k v ((i, u) ∷ t) = ground (arith, length-put k v t)

pub ruleset table_laws = (find-put, find-erase)

module _ {ℓ κ} {K : Type ℓ} {V : Type κ} ⦃e : HasEq K⦄ where
  pub find-erase_self : (k : K) (t : Table K V) → find k (erase k t) ≡ none
  find-erase_self k t = ground (arith, find-erase k k t, e.equals_iff k k)

  pub find-erase_ne : (k j : K) (t : Table K V) → k ≢ j → find j (erase k t) ≡ find j t
  find-erase_ne k j t h = ground (arith, find-erase k j t, e.equals_iff k j)

  pub find-put_self : (k : K) (v : V) (t : Table K V) → find k (put k v t) ≡ some v
  find-put_self k v t = ground (arith, find-put k k v t, e.equals_iff k k)

  pub find-put_ne : (k j : K) (v : V) (t : Table K V) → k ≢ j → find j (put k v t) ≡ find j t
  find-put_ne k j v t h = ground (arith, find-put k j v t, e.equals_iff k j)
