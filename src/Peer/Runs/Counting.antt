-- ===== src/Peer/Runs/Counting.antt =====
-- Counting the calls of a response callback, and the open requests that will still call it.
use mathlib.Core.List.{reverse, reverse-cons}
use jetpeer_cpp.Base.{
  ℕ, ◌+◌, Option, none, some, List, [], ◌∷◌, ◌++◌, ◌≡◌, ◌∙◌, ap, refl, arith, inl, inr, Bool-cases,
  ◌==◌, nat_eq, if◌then◌else◌,
}
use jetpeer_cpp.Base.Table.{Table, find, put, erase}
use jetpeer_cpp.Base.Table.Unique.{IsUnique, erase-absent}
use jetpeer_cpp.Platform.{Platform, Value}
use jetpeer_cpp.Peer.Send.{part}
use jetpeer_cpp.Peer.State.{Effect, Request, ResponseCb}
use jetpeer_cpp.Peer.Request.{cancelled}
use jetpeer_cpp.Peer.Request.Responses.{seen_all, cancellations}
use jetpeer_cpp.Peer.Runs.{user_of, one_if}

module _ ⦃P : Platform⦄ (u : ℕ) where
  -- How often the callback u was called.
  unfoldable pub calls : List Effect → ℕ
  calls [] = 0
  calls (Effect.response_called v x ∷ t) = one_if u (some v) + calls t
  calls (e ∷ t) = calls t

  -- How many open requests have it.
  unfoldable pub owed : Table ℕ Request → ℕ
  owed [] = 0
  owed ((id, r) ∷ t) = one_if u (user_of r.response_callback) + owed t

  pub calls-append : (s t : List Effect) → calls (s ++ t) ≡ calls s + calls t
  unfolding calls
  calls-append [] t = omega arith
  calls-append (Effect.response_called v x ∷ s) t = omega (arith, calls-append s t)
  calls-append (Effect.wrote b ∷ s) t = calls-append s t
  calls-append (Effect.cut_off b ∷ s) t = calls-append s t
  calls-append (Effect.dispatched v ∷ s) t = calls-append s t
  calls-append (Effect.fetch_called c v z ∷ s) t = calls-append s t
  calls-append (Effect.state_called p v ∷ s) t = calls-append s t
  calls-append (Effect.method_called p v ∷ s) t = calls-append s t
  calls-append (Effect.promise_set p v ∷ s) t = calls-append s t

  calls-cons : (e : Effect) (t : List Effect) → calls (e ∷ t) ≡ calls (e ∷ []) + calls t
  calls-cons e t = calls-append (e ∷ []) t

  pub calls-reverse : (t : List Effect) → calls (reverse t) ≡ calls t
  calls-reverse [] = refl
  calls-reverse (e ∷ t) =
      ap calls (reverse-cons e t)
      ∙ omega (arith, calls-append (reverse t) (e ∷ []), calls-reverse t, calls-cons e t)

  pub calls-seen_all :
      (cb : Option ResponseCb) (v : Value) → calls (seen_all cb v) ≡ one_if u (user_of cb)
  unfolding calls
  calls-seen_all none v = refl
  calls-seen_all (some (ResponseCb.user n)) v = omega arith
  calls-seen_all (some (ResponseCb.method_added p n)) v = omega arith
  calls-seen_all (some (ResponseCb.state_added p n)) v = omega arith
  calls-seen_all (some (ResponseCb.fetch_added i n)) v = omega arith
  calls-seen_all (some (ResponseCb.fulfils p)) v = refl

  pub calls-part : (bytes : List ℕ) (t : List Effect) → calls (part bytes t) ≡ calls t
  unfolding calls
  calls-part [] t = refl
  calls-part (b ∷ bytes) t = refl

  -- Cancelling a table calls its callbacks as often as they stand in it.
  pub calls-cancellations : (t : Table ℕ Request) → calls (cancellations t) ≡ owed t
  unfolding owed calls
  calls-cancellations [] = refl
  calls-cancellations ((id, r) ∷ t) = omega (
    arith,
    calls-append (seen_all r.response_callback (cancelled id)) (cancellations t),
    calls-seen_all r.response_callback (cancelled id),
    calls-cancellations t,
  )

  pub owed-erase :
      (id : ℕ) (r : Request) (t : Table ℕ Request)
      → IsUnique t
      → find id t ≡ some r
      → owed (erase id t) + one_if u (user_of r.response_callback) ≡ owed t
  unfolding owed find erase
  owed-erase id r [] unique h = absurd (cc h)
  owed-erase id r ((j, q) ∷ t) (fresh, unique) h = elim (Bool-cases (j == id)) [
    | inl same ↦
        let jd : j ≡ id = (nat_eq.equals_iff j id).0 same in
        let qr : q ≡ r = cc (h, ap (λ b. if b then some q else find id t) same) in
        let gone : erase id t ≡ t = erase-absent id t (rw (← jd) fresh) in
        rw (same, gone, qr) (omega arith)
    | inr other ↦
        let rest : find id t ≡ some r = cc h in
        rw other (omega (arith, owed-erase id r t unique rest))
  ]

  pub owed-put_new :
      (id : ℕ) (r : Request) (t : Table ℕ Request)
      → find id t ≡ none
      → owed (put id r t) ≡ owed t + one_if u (user_of r.response_callback)
  unfolding owed find put
  owed-put_new id r [] h = omega arith
  owed-put_new id r ((j, q) ∷ t) h = ground (arith, owed-put_new id r t)

  -- A new entry in place of one with the same callback.
  pub owed-put_same :
      (id : ℕ) (q r : Request) (t : Table ℕ Request)
      → find id t ≡ some q
      → q.response_callback ≡ r.response_callback
      → owed (put id r t) ≡ owed t
  unfolding owed find put
  owed-put_same id q r [] h same = absurd (cc h)
  owed-put_same id q r ((j, p) ∷ t) h same = elim (Bool-cases (j == id)) [
    | inl here ↦
        let pq : p ≡ q = cc (h, ap (λ b. if b then some p else find id t) here) in
        rw (here, pq, same) refl
    | inr other ↦
        let rest : find id t ≡ some q = cc h in
        rw other (omega (arith, owed-put_same id q r t rest same))
  ]
