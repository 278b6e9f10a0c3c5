-- ===== src/Peer/Runs/Steps.antt =====
-- Each event opens as many requests as it says, and so a run does: by induction on its events.
use mathlib.Core.List.{reverse}
use jetpeer_cpp.Base.{
  ℕ, take, ℤ, ◌+◌, ◌<◌, ◌≤◌, ◌^◌, none, some, List, [], ◌∷◌, ◌++◌, ◌≡◌, ◌∙◌, ap, sym, refl, arith,
  inl, inr, nat_eq, next_uint32, minus_one,
}
use jetpeer_cpp.Base.Table.{Table, find, put, find-put_self}
use jetpeer_cpp.Base.Table.Unique.{IsUnique, AllKeys, put-IsUnique, put-AllKeys}
use jetpeer_cpp.Platform.{Platform, Value}
use jetpeer_cpp.Defines.{Fetcher}
use jetpeer_cpp.Peer.Dispatch.Acts.{handle_result-HasActs, receive_callback-HasActs}
use jetpeer_cpp.Peer.Lifecycle.{stop}
use jetpeer_cpp.Peer.Lifecycle.Stop.{stop_lem, stop-clear, stopping, losses}
use jetpeer_cpp.Peer.Request.{
  execute, execute_no_response, cancel_all, clear, callback_of, notifier_of, cancelled,
  caught_sending,
}
use jetpeer_cpp.Peer.Request.Responses.{cancellations}
use jetpeer_cpp.Peer.Request.Sending.{execute_cases, opened, failed, request_message}
use jetpeer_cpp.Peer.Frame.{frame}
use jetpeer_cpp.Peer.Send.{send_message}
use jetpeer_cpp.Peer.Send.Results.{send_message_cases}
use jetpeer_cpp.Peer.Runs.{
  Event, executes, announces, receives, reports, stops, step, run, user_of, one_if, asked,
  opened_by,
}
use jetpeer_cpp.Peer.Runs.Counting.{
  calls, owed, calls-part, calls-append, calls-reverse, calls-cancellations, owed-put_new,
  owed-put_same,
}
use jetpeer_cpp.Peer.State.{World, Request, ResponseCb}
use jetpeer_cpp.Peer.Runs.Balance.{
  IsFresh, find-above, AllKeys-le, balance, Settles, send_message-Settles, Acts-Settles,
  sid-call_optional,
}

module _ ⦃P : Platform⦄ where
  opened-cons :
      (e : Event) (es : List Event) → opened_by (e ∷ es) ≡ opened_by (e ∷ []) + opened_by es
  opened-cons (executes doc none) es = omega arith
  opened-cons (executes doc (some cb)) es = omega arith
  opened-cons (announces doc) es = omega arith
  opened-cons (receives v) es = omega arith
  opened-cons (reports v) es = omega arith
  opened-cons stops es = omega arith

  -- A request without a callback is only sent.
  pub silent : (doc : Value) (w : World) → (execute doc none w).1 ≡ (send_message doc w).1
  unfolding execute
  silent doc w = elim (send_message_cases doc w) [
    | inl e ↦ cc (ap (λ r. (caught_sending r (λ _ x. x)).1) e, ap (λ r. r.1) e)
    | inr (message, s, n, e) ↦ cc (ap (λ r. (caught_sending r (λ _ x. x)).1) e, ap (λ r. r.1) e)
  ]

  module _ (u : ℕ) where
    -- What an event does: it opens as many requests as it says, and the callback u is then called or
    -- owed as often more as it was asked for.
    record Balances (e : Event) (w : World) : Type 0 where
      counts : (step e w).sid ≡ w.sid + opened_by (e ∷ [])
      stays : IsFresh (step e w)
      adds : balance u (step e w) ≡ balance u w + asked u (e ∷ [])

    settled :
        (e : Event) (w : World)
        → IsFresh w
        → Settles u w (step e w)
        → opened_by (e ∷ []) ≡ 0
        → asked u (e ∷ []) ≡ 0
        → Balances e w
    settled e w f s none_opened none_asked = record {
      counts = omega (arith, s.same_sid, none_opened);
      stays = s.fresh f;
      adds = omega (arith, s.balanced f, none_asked);
    }

    -- A new request is entered under an id that no open one has.
    module _ (doc : Value) (cb : ResponseCb) (w : World) (f : IsFresh w)
        (room : w.sid + 1 < 2 ^ 32) where
      next_id : next_uint32 w.sid ≡ w.sid + 1
      next_id = omega arith

      absent : find (next_uint32 w.sid) w.open_requests ≡ none
      absent = find-above w.sid (next_uint32 w.sid) w.open_requests f.below (omega arith)

      put-IsFresh :
          (r : Request) (t : Table ℕ Request) (v : World)
          → IsUnique t
          → AllKeys (λ id. id ≤ next_uint32 w.sid) t
          → v.sid ≡ next_uint32 w.sid
          → v.open_requests ≡ put (next_uint32 w.sid) r t
          → IsFresh v
      put-IsFresh r t v unique below s o = record {
        unique = rw o (put-IsUnique (next_uint32 w.sid) r t unique);
        below =
            rw (o, s)
              (put-AllKeys (λ id. id ≤ next_uint32 w.sid) (next_uint32 w.sid) r t (omega arith)
                below);
      }

      -- What the state in which `execute` ends must be like.
      ends_in :
          (v : World)
          → (execute doc (some cb) w).1 ≡ v
          → v.sid ≡ next_uint32 w.sid
          → IsFresh v
          → balance u v ≡ balance u w + one_if u (user_of (some cb))
          → Balances (executes doc (some cb)) w
      ends_in v e s fresh b = record {
        counts = rw e (omega (arith, s, next_id));
        stays = rw e fresh;
        adds = rw e (omega (arith, b));
      }

      entered : Request
      entered = record {
        response_callback = some cb;
        error_notifier = notifier_of (find (next_uint32 w.sid) w.open_requests);
      }

      opened-IsFresh : IsFresh (opened doc cb w)
      unfolding entered
      opened-IsFresh =
          put-IsFresh entered w.open_requests (opened doc cb w) f.unique
            (AllKeys-le w.sid (next_uint32 w.sid) w.open_requests (omega (arith, next_id)) f.below)
            refl refl

      owed-opened :
          owed u (opened doc cb w).open_requests
          ≡ owed u w.open_requests + one_if u (user_of (some cb))
      owed-opened = owed-put_new u (next_uint32 w.sid) _ w.open_requests absent

      executes-Balances : Balances (executes doc (some cb)) w
      unfolding calls
      executes-Balances =
          let w1 = opened doc cb w in
          let id = next_uint32 w.sid in
          elim (execute_cases doc cb w) [
            | inl (_, e) ↦
                ends_in _ (ap (λ r. r.1) e) refl
                  (record { unique = opened-IsFresh.unique; below = opened-IsFresh.below })
                  (omega (arith, owed-opened))
            | inr (message, s, n, _, e) ↦
                let noted : Request = record {
                  response_callback = callback_of (find id w1.open_requests);
                  error_notifier = some (minus_one, message);
                } in
                let same =
                  owed-put_same u id _ noted w1.open_requests (find-put_self id _ w.open_requests)
                    (sym (ap callback_of (find-put_self id _ w.open_requests))) in
                ends_in (failed doc cb w message s n) (ap (λ r. r.1) e) refl
                  (put-IsFresh _ w1.open_requests _ opened-IsFresh.unique opened-IsFresh.below refl
                    refl)
                  (omega (
                    arith,
                    same,
                    owed-opened,
                    calls-part u (take n (frame (request_message doc cb w))) w.trace,
                  ))
          ]

    clear_sid : (t : Table ℕ Request) (w : World) → (cancel_all t w).sid ≡ w.sid
    unfolding cancel_all
    clear_sid [] w = refl
    clear_sid ((id, r) ∷ t) w =
        clear_sid t _ ∙ sid-call_optional u r.response_callback (cancelled id) w

    calls-losses : (t : Table ℤ Fetcher) → calls u (losses t) ≡ 0
    unfolding calls
    calls-losses [] = refl
    calls-losses ((id, fetcher) ∷ t) = calls-losses t

    pub stop-Settles : (w : World) → Settles u w (stop w)
    unfolding clear owed
    stop-Settles w =
        let (_, _, none_open, _, _, shown) = stop_lem w in
        let same : (stop w).sid ≡ w.sid =
          ap (λ v. v.sid) (stop-clear w) ∙ clear_sid w.open_requests (stopping w) in
        record {
          same_sid = same;
          fresh = λ f. record { unique = rw none_open tt; below = rw none_open tt };
          balanced = λ f.
              rw (none_open, shown)
                (omega (
                  arith,
                  calls-append u (reverse (cancellations w.open_requests))
                      (reverse (losses w.fetchers) ++ w.trace),
                  calls-append u (reverse (losses w.fetchers)) w.trace,
                  calls-reverse u (cancellations w.open_requests),
                  calls-reverse u (losses w.fetchers),
                  calls-cancellations u w.open_requests,
                  calls-losses w.fetchers,
                ));
        }

    step-Balances :
        (e : Event) (w : World) → IsFresh w → w.sid + opened_by (e ∷ []) < 2 ^ 32 → Balances e w
    unfolding execute execute_no_response
    step-Balances (executes doc none) w f room =
        settled (executes doc none) w f (rw (silent doc w) (send_message-Settles u doc w)) refl refl
    step-Balances (executes doc (some cb)) w f room = executes-Balances doc cb w f (omega arith)
    step-Balances (announces doc) w f room =
        settled (announces doc) w f (send_message-Settles u doc w) refl refl
    step-Balances (receives v) w f room =
        settled (receives v) w f (Acts-Settles u (receive_callback-HasActs v w)) refl refl
    step-Balances (reports v) w f room =
        settled (reports v) w f (Acts-Settles u ((handle_result-HasActs v).run w)) refl refl
    step-Balances stops w f room = settled stops w f (stop-Settles w) refl refl

    asked-cons : (e : Event) (es : List Event) → asked u (e ∷ es) ≡ asked u (e ∷ []) + asked u es
    asked-cons (executes doc cb) es = omega arith
    asked-cons (announces doc) es = omega arith
    asked-cons (receives v) es = omega arith
    asked-cons (reports v) es = omega arith
    asked-cons stops es = omega arith

    -- In every run of a peer whose open requests have distinct ids, none above the last id given, and
    -- in which the ids do not wrap, the calls of a response callback and the open requests that have
    -- it grow by just the number of requests that are executed with it.
    pub run_balance :
        (es : List Event) (w : World)
        → IsFresh w
        → w.sid + opened_by es < 2 ^ 32
        → (balance u (run es w) ≡ balance u w + asked u es) × IsFresh (run es w)
    unfolding run
    run_balance [] w f room = (omega arith, f)
    run_balance (e ∷ es) w f room =
        let b = step-Balances e w f (omega (arith, opened-cons e es)) in
        let (rest, fresh) =
          run_balance es (step e w) b.stays (omega (arith, b.counts, opened-cons e es)) in
        (omega (arith, rest, b.adds, asked-cons e es), fresh)
