-- ===== src/Peer/Runs/Cuts.antt =====
-- The messages that the socket cut off, and the effects that cut off none.
use mathlib.Core.List.{reverse, reverse-cons}
use jetpeer_cpp.Base.{ℕ, suc, ◌+◌, ℤ, Option, none, some, List, [], ◌∷◌, ◌++◌, ◌≡◌, ap, refl, arith}
use jetpeer_cpp.Base.Table.{Table}
use jetpeer_cpp.Platform.{Platform, Value}
use jetpeer_cpp.Defines.{Fetcher}
use jetpeer_cpp.Peer.Lifecycle.Stop.{losses}
use jetpeer_cpp.Peer.Request.{cancelled}
use jetpeer_cpp.Peer.Request.Responses.{seen_all, cancellations}
use jetpeer_cpp.Peer.State.{Effect, Request, ResponseCb}

module _ ⦃P : Platform⦄ where
  -- How many messages were cut off: the socket took a beginning of them and failed.
  unfoldable pub cuts : List Effect → ℕ
  cuts [] = 0
  cuts (Effect.cut_off bytes ∷ t) = suc (cuts t)
  cuts (e ∷ t) = cuts t

  pub cuts-append : (s t : List Effect) → cuts (s ++ t) ≡ cuts s + cuts t
  unfolding cuts
  cuts-append [] t = omega arith
  cuts-append (Effect.cut_off b ∷ s) t = omega (arith, cuts-append s t)
  cuts-append (Effect.wrote b ∷ s) t = cuts-append s t
  cuts-append (Effect.response_called v x ∷ s) t = cuts-append s t
  cuts-append (Effect.dispatched v ∷ s) t = cuts-append s t
  cuts-append (Effect.fetch_called c v z ∷ s) t = cuts-append s t
  cuts-append (Effect.state_called p v ∷ s) t = cuts-append s t
  cuts-append (Effect.method_called p v ∷ s) t = cuts-append s t
  cuts-append (Effect.promise_set p v ∷ s) t = cuts-append s t

  pub cuts-reverse : (t : List Effect) → cuts (reverse t) ≡ cuts t
  cuts-reverse [] = refl
  cuts-reverse (a ∷ t) = omega (
    arith,
    ap cuts (reverse-cons a t),
    cuts-append (reverse t) (a ∷ []),
    cuts-append (a ∷ []) t,
    cuts-reverse t,
  )

  pub cuts-seen_all : (cb : Option ResponseCb) (v : Value) → cuts (seen_all cb v) ≡ 0
  unfolding cuts
  cuts-seen_all none v = refl
  cuts-seen_all (some (ResponseCb.user n)) v = refl
  cuts-seen_all (some (ResponseCb.method_added p n)) v = refl
  cuts-seen_all (some (ResponseCb.state_added p n)) v = refl
  cuts-seen_all (some (ResponseCb.fetch_added i n)) v = refl
  cuts-seen_all (some (ResponseCb.fulfils p)) v = refl

  pub cuts-cancellations : (t : Table ℕ Request) → cuts (cancellations t) ≡ 0
  unfolding cuts
  cuts-cancellations [] = refl
  cuts-cancellations ((id, r) ∷ t) = omega (
    arith,
    cuts-append (seen_all r.response_callback (cancelled id)) (cancellations t),
    cuts-seen_all r.response_callback (cancelled id),
    cuts-cancellations t,
  )

  pub cuts-losses : (t : Table ℤ Fetcher) → cuts (losses t) ≡ 0
  unfolding cuts
  cuts-losses [] = refl
  cuts-losses ((id, fetcher) ∷ t) = cuts-losses t
