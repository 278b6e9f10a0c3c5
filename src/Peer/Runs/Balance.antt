-- ===== src/Peer/Runs/Balance.antt =====
-- Every event keeps the balance of a response callback: what was asked with it, what it was called
-- with, and what is still open.
use jetpeer_cpp.Base.{
  ℕ, take, ◌+◌, ◌<◌, ◌≤◌, Option, none, some, [], ◌∷◌, ◌≡◌, ◌∙◌, refl, arith, inl, inr, nat_eq,
}
use jetpeer_cpp.Base.Table.{Table, find, erase}
use jetpeer_cpp.Base.Table.Unique.{IsUnique, AllKeys, erase-IsUnique, erase-AllKeys}
use jetpeer_cpp.Platform.{Platform, Value}
use jetpeer_cpp.Peer.Dispatch.Acts.{
  Act, sends, calls_state, calls_method, calls_fetch, responds, Acts, here, next,
}
use jetpeer_cpp.Peer.Request.{call_response, call_optional}
use jetpeer_cpp.Peer.Request.Responses.{call_optional_effect, seen_all}
use jetpeer_cpp.Peer.Send.{send_message}
use jetpeer_cpp.Peer.Frame.{frame}
use jetpeer_cpp.Peer.Send.Results.{send_message_cases}
use jetpeer_cpp.Peer.Runs.Counting.{
  calls, owed, calls-append, calls-seen_all, calls-part, owed-erase,
}
use jetpeer_cpp.Peer.State.{World, Request, ResponseCb}

module _ ⦃P : Platform⦄ where
  -- The ids of the open requests are distinct, and none is above the last id that was given.
  pub record IsFresh (w : World) : Type 0 where
    pub unique : IsUnique w.open_requests
    pub below : AllKeys (λ id. id ≤ w.sid) w.open_requests

  pub find-above :
      (n k : ℕ) (t : Table ℕ Request) → AllKeys (λ id. id ≤ n) t → n < k → find k t ≡ none
  unfolding find
  find-above n k [] a h = refl
  find-above n k ((j, r) ∷ t) (le, a) h = ground (arith, find-above n k t a h)

  pub AllKeys-le :
      (m n : ℕ) (t : Table ℕ Request) → m ≤ n → AllKeys (λ id. id ≤ m) t → AllKeys (λ id. id ≤ n) t
  AllKeys-le m n [] h a = tt
  AllKeys-le m n ((j, r) ∷ t) h (le, a) = (omega arith, AllKeys-le m n t h a)

  module _ (u : ℕ) where
    -- The calls of the callback u so far, and those that are still to come.
    abbrev pub balance : World → ℕ
    balance w = calls u w.trace + owed u w.open_requests

    -- A step that opens no request.
    pub record Settles (w v : World) : Type 0 where
      pub same_sid : v.sid ≡ w.sid
      pub fresh : IsFresh w → IsFresh v
      pub balanced : IsFresh w → balance v ≡ balance w

    Settles-refl : (w : World) → Settles w w
    Settles-refl w = record { same_sid = refl; fresh = λ f. f; balanced = λ f. refl }

    Settles-trans : {w v x : World} → Settles w v → Settles v x → Settles w x
    Settles-trans p q = record {
      same_sid = q.same_sid ∙ p.same_sid;
      fresh = λ f. q.fresh (p.fresh f);
      balanced = λ f. q.balanced (p.fresh f) ∙ p.balanced f;
    }

    -- A step that leaves the requests alone and calls no response callback.
    Settles-quiet :
        (w v : World)
        → v.sid ≡ w.sid
        → v.open_requests ≡ w.open_requests
        → calls u v.trace ≡ calls u w.trace
        → Settles w v
    Settles-quiet w v s o c = record {
      same_sid = s;
      fresh = λ f. record { unique = rw o f.unique; below = rw (o, s) f.below };
      balanced = λ f. rw o (omega (arith, c));
    }

    pub send_message-Settles : (v : Value) (w : World) → Settles w (send_message v w).1
    unfolding calls
    send_message-Settles v w = elim (send_message_cases v w) [
      | inl e ↦ rw e (Settles-quiet w _ refl refl refl)
      | inr (message, s, n, e) ↦
          rw e (Settles-quiet w _ refl refl (calls-part u (take n (frame v)) w.trace))
    ]

    pub sid-call_optional :
        (cb : Option ResponseCb) (v : Value) (w : World) → (call_optional cb v w).sid ≡ w.sid
    unfolding call_response
    sid-call_optional none v w = refl
    sid-call_optional (some (ResponseCb.user n)) v w = refl
    sid-call_optional (some (ResponseCb.method_added path n)) v w = ground arith
    sid-call_optional (some (ResponseCb.state_added path n)) v w = ground arith
    sid-call_optional (some (ResponseCb.fetch_added id n)) v w = ground arith
    sid-call_optional (some (ResponseCb.fulfils p)) v w = refl

    respond-Settles :
        (w : World) (id : ℕ) (v : Value) (r : Request)
        → find id w.open_requests ≡ some r
        → Settles w (
            call_optional r.response_callback v
              (record w { open_requests = erase id w.open_requests }))
    respond-Settles w id v r found =
        let w1 = record w { open_requests = erase id w.open_requests } in
        let (shown, table) = call_optional_effect r.response_callback v w1 in
        let same = sid-call_optional r.response_callback v w1 in
        record {
          same_sid = same;
          fresh = λ f. record {
            unique = rw table (erase-IsUnique id w.open_requests f.unique);
            below = rw (table, same) (erase-AllKeys (λ k. k ≤ w.sid) id w.open_requests f.below);
          };
          balanced = λ f.
              rw (shown, table)
                (omega (
                  arith,
                  calls-append u (seen_all r.response_callback v) w.trace,
                  calls-seen_all u r.response_callback v,
                  owed-erase u id r w.open_requests f.unique found,
                ));
        }

    Act-Settles : {w v : World} → Act w v → Settles w v
    unfolding calls
    Act-Settles (sends w v) = send_message-Settles v w
    Act-Settles (calls_state w path v) = Settles-quiet w _ refl refl refl
    Act-Settles (calls_method w path v) = Settles-quiet w _ refl refl refl
    Act-Settles (calls_fetch w cb v) = Settles-quiet w _ refl refl refl
    Act-Settles (responds w id v none e) = Settles-refl w
    Act-Settles (responds w id v (some r) e) = respond-Settles w id v r e

    pub Acts-Settles : {w v : World} → Acts w v → Settles w v
    Acts-Settles here = Settles-refl _
    Acts-Settles (next p a) = Settles-trans (Acts-Settles p) (Act-Settles a)
