-- ===== src/Peer/Dispatch/Acts.antt =====
-- What handling a message can do to the state, as a step relation: it sends messages, calls callbacks
-- and answers open requests, and does nothing else.
use jetpeer_cpp.Base.{
  ℕ, ℤ, pos, String, Option, none, some, List, [], ◌∷◌, if◌then◌else◌, Bool, true, false, ◌≡◌, refl,
  int_eq, nat_eq, string_eq, arith,
}
use jetpeer_cpp.Base.Table.{find}
use jetpeer_cpp.Platform.{Platform, Value, Kind}
use jetpeer_cpp.Defines.{Fetcher}
use jetpeer_cpp.Defines.Failure.{Outcome, ok, raised}
use jetpeer_cpp.Peer.Send.{send_message}
use jetpeer_cpp.Peer.Request.{handle_result, respond}
use jetpeer_cpp.Peer.Dispatch.{
  caught, state_response, send_response, answer, handle_state, handle_method, handle_request,
  dispatch_state, dispatch_method, notify_fetcher, handle_notification, handle_kind, handle_message,
  handle_batch, receive_kind, receive_callback,
}
use jetpeer_cpp.Peer.State.{
  World, Request, Effect, M, modify, emit, or_throw, continue, StateCb, MethodCb, ◌>>=◌,
}

module _ ⦃P : Platform⦄ where
  open P use {member, kind, as_int, as_uint, as_string, elements}

  pub data Act : World → World → Type 0 where
    sends : (w : World) (v : Value) → Act w (send_message v w).1
    calls_state :
        (w : World) (path : String) (v : Value) → Act w (emit (Effect.state_called path v) w).1
    calls_method :
        (w : World) (path : String) (v : Value) → Act w (emit (Effect.method_called path v) w).1
    calls_fetch :
        (w : World) (cb : Option ℕ) (v : Value)
        → Act w (emit (Effect.fetch_called cb v (pos 0)) w).1
    responds :
        (w : World) (id : ℕ) (v : Value) (o : Option Request)
        → find id w.open_requests ≡ o
        → Act w (respond id v o w)

  pub data Acts (w : World) : World → Type 0 where
    here : Acts w w
    next : {u v : World} → Acts w u → Act u v → Acts w v

  Acts-trans : {u v w : World} → Acts u v → Acts v w → Acts u w
  Acts-trans p here = p
  Acts-trans p (next q a) = next (Acts-trans p q) a

  -- `m` does only such steps, whether it returns or throws.
  pub record HasActs {A : Type 0} (m : M A) : Type 0 where
    pub run : (w : World) → Acts w (m w).1

  HasActs-pure : {A : Type 0} (r : Outcome A) → HasActs (λ w. (r, w))
  HasActs-pure r = record { run = λ w. here }

  HasActs-continue :
      {A B : Type 0} (r : Outcome A) (f : A → M B) (w : World)
      → ((a : A) → HasActs (f a))
      → Acts w (continue r f w).1
  HasActs-continue (ok a) f w h = (h a).run w
  HasActs-continue (raised e) f w h = here

  HasActs-bind :
      {A B : Type 0} (m : M A) (f : A → M B)
      → HasActs m
      → ((a : A) → HasActs (f a))
      → HasActs (m >>= f)
  HasActs-bind m f hm hf = record {
    run = λ w. Acts-trans (hm.run w) (HasActs-continue (m w).0 f (m w).1 hf);
  }

  HasActs-or_throw : {A : Type 0} (o : Option A) → HasActs (or_throw o)
  HasActs-or_throw none = record { run = λ w. here }
  HasActs-or_throw (some a) = record { run = λ w. here }

  HasActs-if :
      {A : Type 0} (b : Bool) (m n : M A) → HasActs m → HasActs n → HasActs (if b then m else n)
  HasActs-if true m n hm hn = hm
  HasActs-if false m n hm hn = hn

  world-caught : (m : M Value) (w : World) → (caught m w).1 ≡ (m w).1
  world-caught m w = ground arith

  world-send_response : (v : Value) (w : World) → (send_response v w).1 ≡ (send_message v w).1
  world-send_response v w = ground arith

  HasActs-caught : (m : M Value) → HasActs m → HasActs (caught m)
  HasActs-caught m h = record { run = λ w. rw (world-caught m w) (h.run w) }

  HasActs-send : (v : Value) → HasActs (send_message v)
  HasActs-send v = record { run = λ w. next here (sends w v) }

  send_response-HasActs : (v : Value) → HasActs (send_response v)
  send_response-HasActs v = record {
    run = λ w. rw (world-send_response v w) ((HasActs-send v).run w);
  }

  state_called-HasActs : (path : String) (v : Value) → HasActs (emit (Effect.state_called path v))
  state_called-HasActs path v = record { run = λ w. next here (calls_state w path v) }

  method_called-HasActs : (path : String) (v : Value) → HasActs (emit (Effect.method_called path v))
  method_called-HasActs path v = record { run = λ w. next here (calls_method w path v) }

  fetch_called-HasActs :
      (cb : Option ℕ) (v : Value) → HasActs (emit (Effect.fetch_called cb v (pos 0)))
  fetch_called-HasActs cb v = record { run = λ w. next here (calls_fetch w cb v) }

  ruleset acts_rules = (
    HasActs-pure, HasActs-bind, HasActs-or_throw, HasActs-if, HasActs-caught, HasActs-send,
    send_response-HasActs, state_called-HasActs, method_called-HasActs, fetch_called-HasActs,
  )

  answer-HasActs : (msg response : Value) → HasActs (answer msg response)
  unfolding answer
  answer-HasActs msg response = search acts_rules

  state_response-HasActs :
      (cb : Option StateCb) (path : String) (v : Value) → HasActs (state_response cb path v)
  unfolding state_response
  state_response-HasActs none path v = search acts_rules
  state_response-HasActs (some cb) path v = search acts_rules depth 12

  handle_state-HasActs :
      (msg : Value) (path : String) (cb : Option StateCb) → HasActs (handle_state msg path cb)
  unfolding handle_state
  handle_state-HasActs msg path cb =
      search (acts_rules, answer-HasActs, state_response-HasActs) depth 12

  handle_method-HasActs :
      (msg : Value) (path : String) (cb : MethodCb) → HasActs (handle_method msg path cb)
  unfolding handle_method
  handle_method-HasActs msg path cb = search (acts_rules, answer-HasActs) depth 12

  dispatch_method-HasActs :
      (msg : Value) (path : String) (o : Option MethodCb) → HasActs (dispatch_method msg path o)
  dispatch_method-HasActs msg path (some cb) = handle_method-HasActs msg path cb
  dispatch_method-HasActs msg path none = search acts_rules

  dispatch_state-HasActs :
      (msg : Value) (path : String) (o : Option (Option StateCb))
      → HasActs (dispatch_state msg path o)
  dispatch_state-HasActs msg path (some cb) = handle_state-HasActs msg path cb
  dispatch_state-HasActs msg path none = record {
    run = λ w. (dispatch_method-HasActs msg path (find path w.method_callbacks)).run w;
  }

  notify_fetcher-HasActs : (msg : Value) (o : Option Fetcher) → HasActs (notify_fetcher msg o)
  notify_fetcher-HasActs msg none = search acts_rules
  notify_fetcher-HasActs msg (some fetcher) = search acts_rules depth 12

  respond-HasActs :
      (id : ℕ) (msg : Value) → HasActs (modify (λ w. respond id msg (find id w.open_requests) w))
  respond-HasActs id msg = record {
    run = λ w. next here (responds w id msg (find id w.open_requests) refl);
  }

  pub handle_result-HasActs : (msg : Value) → HasActs (handle_result msg)
  unfolding handle_result
  handle_result-HasActs msg = search (acts_rules, respond-HasActs) depth 12

  handle_notification-HasActs : (msg : Value) (id : ℤ) → HasActs (handle_notification msg id)
  unfolding handle_notification
  handle_notification-HasActs msg id = record {
    run = λ w. (notify_fetcher-HasActs msg (find id w.fetchers)).run w;
  }

  handle_request-HasActs : (msg : Value) (path : String) → HasActs (handle_request msg path)
  unfolding handle_request
  handle_request-HasActs msg path = record {
    run = λ w. (dispatch_state-HasActs msg path (find path w.state_callbacks)).run w;
  }

  handle_kind-HasActs : (msg node : Value) (k : Kind) → HasActs (handle_kind msg node k)
  unfolding handle_kind
  handle_kind-HasActs msg node Kind.null_value = handle_result-HasActs msg
  handle_kind-HasActs msg node Kind.int_value = search (acts_rules, handle_notification-HasActs)
  handle_kind-HasActs msg node Kind.string_value = search (acts_rules, handle_request-HasActs)
  handle_kind-HasActs msg node _ = search acts_rules

  handle_message-HasActs : (msg : Value) → HasActs (handle_message msg)
  unfolding handle_message
  handle_message-HasActs msg = search (acts_rules, handle_kind-HasActs)

  handle_batch-HasActs : (msgs : List Value) → HasActs (handle_batch msgs)
  unfolding handle_batch
  handle_batch-HasActs [] = search acts_rules
  handle_batch-HasActs (msg ∷ rest) =
      let ih = handle_batch-HasActs rest in
      HasActs-bind (handle_message msg) _ (handle_message-HasActs msg) (λ _. ih)

  receive_kind-HasActs : (msg : Value) (k : Kind) → HasActs (receive_kind msg k)
  unfolding receive_kind
  receive_kind-HasActs msg Kind.array_value = handle_batch-HasActs (elements msg)
  receive_kind-HasActs msg Kind.object_value = handle_message-HasActs msg
  receive_kind-HasActs msg _ = search acts_rules

  -- Dispatching a message, also if it throws, is a sequence of such steps.
  pub receive_callback-HasActs : (msg : Value) (w : World) → Acts w (receive_callback msg w).1
  unfolding receive_callback
  receive_callback-HasActs msg = (receive_kind-HasActs msg (kind msg)).run
