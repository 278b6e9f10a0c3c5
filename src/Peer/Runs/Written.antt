-- ===== src/Peer/Runs/Written.antt =====
-- The bytes that a socket took, and the effects that write none.
use mathlib.Core.List.{reverse, reverse-cons}
use jetpeer_cpp.Base.{
  ℕ, ℤ, Option, none, some, List, [], ◌∷◌, ◌++◌, ◌≡◌, ◌∙◌, ap, sym, refl, arith, length,
  append_assoc, append-nil, length-append, eq-nil_of_length, nat_eq,
}
use jetpeer_cpp.Base.Table.{Table}
use jetpeer_cpp.Platform.{Platform, Value}
use jetpeer_cpp.Defines.{Fetcher}
use jetpeer_cpp.Peer.Lifecycle.Stop.{losses}
use jetpeer_cpp.Peer.Request.{cancelled}
use jetpeer_cpp.Peer.Request.Responses.{seen_all, cancellations}
use jetpeer_cpp.Peer.State.{Effect, Request, ResponseCb}

module _ ⦃P : Platform⦄ where
  -- All the bytes that the socket took, oldest first.
  unfoldable pub written : List Effect → List ℕ
  written [] = []
  written (Effect.wrote bytes ∷ t) = written t ++ bytes
  written (Effect.cut_off bytes ∷ t) = written t ++ bytes
  written (e ∷ t) = written t

  pub written-append : (s t : List Effect) → written (s ++ t) ≡ written t ++ written s
  unfolding written
  written-append [] t = sym (append-nil (written t))
  written-append (Effect.wrote b ∷ s) t =
      ap (λ x. x ++ b) (written-append s t) ∙ append_assoc (written t) (written s) b
  written-append (Effect.cut_off b ∷ s) t =
      ap (λ x. x ++ b) (written-append s t) ∙ append_assoc (written t) (written s) b
  written-append (Effect.response_called v x ∷ s) t = written-append s t
  written-append (Effect.dispatched v ∷ s) t = written-append s t
  written-append (Effect.fetch_called c v z ∷ s) t = written-append s t
  written-append (Effect.state_called p v ∷ s) t = written-append s t
  written-append (Effect.method_called p v ∷ s) t = written-append s t
  written-append (Effect.promise_set p v ∷ s) t = written-append s t

  -- Behind effects that write nothing.
  pub written-behind : (s t : List Effect) → written s ≡ [] → written (s ++ t) ≡ written t
  written-behind s t none_written =
      written-append s t ∙ ap (λ x. written t ++ x) none_written ∙ append-nil (written t)

  length-written-reverse : (t : List Effect) → length (written (reverse t)) ≡ length (written t)
  length-written-reverse [] = refl
  length-written-reverse (a ∷ t) = omega (
    arith,
    ap (λ x. length (written x)) (reverse-cons a t),
    ap length (written-append (reverse t) (a ∷ [])),
    length-append (written (a ∷ [])) (written (reverse t)),
    ap length (written-append (a ∷ []) t),
    length-append (written t) (written (a ∷ [])),
    length-written-reverse t,
  )

  pub written-reverse : (t : List Effect) → written t ≡ [] → written (reverse t) ≡ []
  written-reverse t e =
      eq-nil_of_length (written (reverse t)) (length-written-reverse t ∙ ap length e)

  pub written-seen_all : (cb : Option ResponseCb) (v : Value) → written (seen_all cb v) ≡ []
  unfolding written
  written-seen_all none v = refl
  written-seen_all (some (ResponseCb.user n)) v = refl
  written-seen_all (some (ResponseCb.method_added p n)) v = refl
  written-seen_all (some (ResponseCb.state_added p n)) v = refl
  written-seen_all (some (ResponseCb.fetch_added i n)) v = refl
  written-seen_all (some (ResponseCb.fulfils p)) v = refl

  pub written-cancellations : (t : Table ℕ Request) → written (cancellations t) ≡ []
  unfolding written
  written-cancellations [] = refl
  written-cancellations ((id, r) ∷ t) =
      written-append (seen_all r.response_callback (cancelled id)) (cancellations t)
      ∙ rw (written-cancellations t, written-seen_all r.response_callback (cancelled id)) refl

  pub written-losses : (t : Table ℤ Fetcher) → written (losses t) ≡ []
  unfolding written
  written-losses [] = refl
  written-losses ((id, fetcher) ∷ t) = written-losses t
