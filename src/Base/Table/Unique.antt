-- ===== src/Base/Table/Unique.antt =====
-- Tables in which no key stands twice, as in `std::unordered_map`.
use mathlib.Core.Path.{◌≡◌, refl}
use mathlib.Core.Option.{none}
use mathlib.Core.List.{[], ◌∷◌}
use native.Mathlib.Omega.{arith}
use jetpeer_cpp.Base.Tests.{HasEq, ◌==◌, if-cases}
use jetpeer_cpp.Base.Table.{Table, find, put, erase, find-put, find-erase}

module _ {ℓ κ} {K : Type ℓ} {V : Type κ} ⦃e : HasEq K⦄ where
  abbrev pub IsUnique : Table K V → Type κ
  IsUnique [] = Unit
  IsUnique ((k, v) ∷ t) = (find k t ≡ none) × IsUnique t

  pub erase-absent : (k : K) (t : Table K V) → find k t ≡ none → erase k t ≡ t
  unfolding find erase
  erase-absent k [] h = refl
  erase-absent k ((j, v) ∷ t) h = ground (arith, erase-absent k t)

  pub erase-IsUnique : (k : K) (t : Table K V) → IsUnique t → IsUnique (erase k t)
  unfolding erase
  erase-IsUnique k [] u = u
  erase-IsUnique k ((j, v) ∷ t) (fresh, u) =
      if-cases IsUnique (j == k) (λ _. erase-IsUnique k t u)
        (λ _. (ground (arith, find-erase k j t, fresh), erase-IsUnique k t u))

  pub put-IsUnique : (k : K) (v : V) (t : Table K V) → IsUnique t → IsUnique (put k v t)
  unfolding find put
  put-IsUnique k v [] u = (refl, tt)
  put-IsUnique k v ((j, w) ∷ t) (fresh, u) =
      if-cases IsUnique (j == k)
        (λ same. let jk : j ≡ k = (e.equals_iff j k).0 same in (rw (← jk) fresh, u))
        (λ other. (
          ground (arith, find-put k j v t, fresh, e.equals_iff j k, e.equals_iff k j),
          put-IsUnique k v t u,
        ))

  pub put-put : (k : K) (u v : V) (t : Table K V) → put k v (put k u t) ≡ put k v t
  unfolding put
  put-put k u v [] = ground (arith, e.equals_iff k k)
  put-put k u v ((j, w) ∷ t) = ground (arith, e.equals_iff k k, e.equals_iff j k, put-put k u v t)

  module _ {μ} (Q : K → Type μ) where
    abbrev pub AllKeys : Table K V → Type μ
    AllKeys [] = Unit
    AllKeys ((k, v) ∷ t) = Q k × AllKeys t

    pub erase-AllKeys : (k : K) (t : Table K V) → AllKeys t → AllKeys (erase k t)
    unfolding erase
    erase-AllKeys k [] a = a
    erase-AllKeys k ((j, v) ∷ t) (q, a) =
        if-cases AllKeys (j == k) (λ _. erase-AllKeys k t a) (λ _. (q, erase-AllKeys k t a))

    pub put-AllKeys : (k : K) (v : V) (t : Table K V) → Q k → AllKeys t → AllKeys (put k v t)
    unfolding put
    put-AllKeys k v [] qk a = (qk, tt)
    put-AllKeys k v ((j, w) ∷ t) qk (q, a) =
        if-cases AllKeys (j == k) (λ _. (qk, a)) (λ _. (q, put-AllKeys k v t qk a))
