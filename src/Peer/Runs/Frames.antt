-- ===== src/Peer/Runs/Frames.antt =====
-- What a peer writes in its whole life: frames of messages that fit, one behind the other.
use mathlib.Core.List.{reverse}
use jetpeer_cpp.Base.{
  ℕ, take, ◌≤◌, Option, none, some, List, [], ◌∷◌, ◌++◌, ◌≡◌, ◌∙◌, ap, sym, refl, arith, inl, inr,
  length, append_assoc, append-nil, next_uint32, ltb, Bool-cases, Option-cases, All, nat_eq,
}
use jetpeer_cpp.Base.Table.{erase}
use jetpeer_cpp.Platform.{Platform, Value}
use jetpeer_cpp.Defines.{max_message_size}
use jetpeer_cpp.Defines.Failure.{Failure, Outcome, ok, raised}
use jetpeer_cpp.Peer.Dispatch.Acts.{
  Act, sends, calls_state, calls_method, calls_fetch, responds, Acts, here, next,
  handle_result-HasActs, receive_callback-HasActs,
}
use jetpeer_cpp.Peer.Frame.{frame}
use jetpeer_cpp.Peer.Lifecycle.{stop}
use jetpeer_cpp.Peer.Lifecycle.Stop.{stop_lem, losses}
use jetpeer_cpp.Peer.Receive.Stream.{stream}
use jetpeer_cpp.Peer.Request.{
  call_optional, execute, execute_no_response, caught_sending, set_notifier,
}
use jetpeer_cpp.Peer.Request.Responses.{seen_all, call_optional_effect, cancellations}
use jetpeer_cpp.Peer.Request.Sending.{request_message, opened}
use jetpeer_cpp.Peer.Send.{send_message, part}
use jetpeer_cpp.Peer.Send.Results.{send_message_ok, send_message_too_large, send_message_refused}
use jetpeer_cpp.Peer.Runs.{Event, executes, announces, receives, reports, stops, step, run}
use jetpeer_cpp.Peer.Runs.Steps.{silent}
use jetpeer_cpp.Peer.State.{World, ResponseCb, Effect}
use jetpeer_cpp.Peer.Runs.Cuts.{
  cuts, cuts-append, cuts-reverse, cuts-seen_all, cuts-cancellations, cuts-losses,
}
use jetpeer_cpp.Peer.Runs.Written.{
  written, written-behind, written-reverse, written-seen_all, written-cancellations, written-losses,
}

module _ ⦃P : Platform⦄ where
  open P use {write, send_blocks, took}

  abbrev pub Fits : Value → Type 0
  Fits v = length (write v) ≤ max_message_size

  stream-append : (xs ys : List Value) → stream (xs ++ ys) ≡ stream xs ++ stream ys
  stream-append [] ys = refl
  stream-append (x ∷ xs) ys =
      ap (λ s. frame x ++ s) (stream-append xs ys)
      ∙ sym (append_assoc (frame x) (stream xs) (stream ys))

  All-append : (Q : Value → Type 0) (xs ys : List Value) → All Q xs → All Q ys → All Q (xs ++ ys)
  All-append Q [] ys p q = q
  All-append Q (x ∷ xs) ys (p, ps) q = (p, All-append Q xs ys ps q)

  -- What a step writes is a stream of frames that fit, unless it cuts one off.
  pub record Framed (w v : World) : Type 0 where
    pub messages : List Value
    pub fit : All Fits messages
    pub grows : cuts w.trace ≤ cuts v.trace
    pub adds : cuts v.trace ≡ cuts w.trace → written v.trace ≡ written w.trace ++ stream messages

  Framed-quiet :
      (w v : World) → written v.trace ≡ written w.trace → cuts v.trace ≡ cuts w.trace → Framed w v
  Framed-quiet w v same uncut = record {
    messages = [];
    fit = tt;
    grows = omega (arith, uncut);
    adds = λ _. same ∙ sym (append-nil (written w.trace));
  }

  Framed-trans : {w v x : World} → Framed w v → Framed v x → Framed w x
  Framed-trans {w} {v} {x} p q = record {
    messages = p.messages ++ q.messages;
    fit = All-append Fits p.messages q.messages p.fit q.fit;
    grows = omega (arith, p.grows, q.grows);
    adds = λ uncut.
        q.adds (omega (arith, p.grows, q.grows, uncut))
        ∙ ap (λ s. s ++ stream q.messages) (p.adds (omega (arith, p.grows, q.grows, uncut)))
        ∙ append_assoc (written w.trace) (stream p.messages) (stream q.messages)
        ∙ ap (λ s. written w.trace ++ s) (sym (stream-append p.messages q.messages));
  }

  part-cuts : (bytes : List ℕ) (t : List Effect) → cuts (part bytes t) ≡ cuts t → part bytes t ≡ t
  unfolding cuts
  part-cuts [] t uncut = refl
  part-cuts (b ∷ bytes) t uncut = absurd (omega (arith, uncut))

  part-grows : (bytes : List ℕ) (t : List Effect) → cuts t ≤ cuts (part bytes t)
  unfolding cuts
  part-grows [] t = omega arith
  part-grows (b ∷ bytes) t = omega arith

  send_message-Framed : (v : Value) (w : World) → Framed w (send_message v w).1
  unfolding written cuts
  send_message-Framed v w = elim (Bool-cases (ltb max_message_size (length (write v)))) [
    | inl large ↦ rw (send_message_too_large v w (ground arith)) (Framed-quiet w w refl refl)
    | inr fits ↦ elim (Option-cases (send_blocks w.socket (frame v)).0) [
      | inl taken ↦ rw (send_message_ok v w (ground arith) taken) (record {
        messages = v ∷ [];
        fit = (ground arith, tt);
        grows = omega arith;
        adds = λ _. ap (λ s. written w.trace ++ s) (sym (append-nil (frame v)));
      })
      | inr (e, refused) ↦
          let bytes = take (took w.socket (frame v)) (frame v) in
          rw (send_message_refused v w e (ground arith) refused) (record {
            messages = [];
            fit = tt;
            grows = part-grows bytes w.trace;
            adds = λ uncut.
                ap written (part-cuts bytes w.trace uncut) ∙ sym (append-nil (written w.trace));
          })
    ]
  ]

  call_optional-Framed :
      (cb : Option ResponseCb) (v : Value) (w : World) → Framed w (call_optional cb v w)
  call_optional-Framed cb v w =
      let shown = (call_optional_effect cb v w).0 in
      Framed-quiet w _
        (ap written shown ∙ written-behind (seen_all cb v) w.trace (written-seen_all cb v))
        (omega (arith, ap cuts shown, cuts-append (seen_all cb v) w.trace, cuts-seen_all cb v))

  Act-Framed : {w v : World} → Act w v → Framed w v
  unfolding written cuts
  Act-Framed (sends w v) = send_message-Framed v w
  Act-Framed (calls_state w path v) = Framed-quiet w _ refl refl
  Act-Framed (calls_method w path v) = Framed-quiet w _ refl refl
  Act-Framed (calls_fetch w cb v) = Framed-quiet w _ refl refl
  Act-Framed (responds w id v none e) = Framed-quiet w w refl refl
  Act-Framed (responds w id v (some r) e) =
      Framed-trans
        (Framed-quiet w (record w { open_requests = erase id w.open_requests }) refl refl)
        (call_optional-Framed r.response_callback v _)

  Acts-Framed : {w v : World} → Acts w v → Framed w v
  Acts-Framed here = Framed-quiet _ _ refl refl
  Acts-Framed (next p a) = Framed-trans (Acts-Framed p) (Act-Framed a)

  trace-caught_sending :
      (id : ℕ) (r : Outcome (Unit {0}) × World)
      → (caught_sending r (set_notifier id)).1.trace ≡ r.1.trace
  trace-caught_sending id (ok _, w) = refl
  trace-caught_sending id (raised (Failure.jsonrpc_exception code message), w) = refl
  trace-caught_sending id (raised (Failure.jsoncpprpc_exception j), w) = refl
  trace-caught_sending id (raised (Failure.std_exception what), w) = refl
  trace-caught_sending id (raised Failure.other, w) = refl

  execute-Framed :
      (doc : Value) (cb : ResponseCb) (w : World) → Framed w (execute doc (some cb) w).1
  unfolding execute
  execute-Framed doc cb w =
      let same =
        trace-caught_sending (next_uint32 w.sid)
          (send_message (request_message doc cb w) (opened doc cb w)) in
      Framed-trans (Framed-quiet w (opened doc cb w) refl refl) (
        Framed-trans (send_message-Framed (request_message doc cb w) (opened doc cb w))
          (Framed-quiet _ _ (ap written same) (ap cuts same)))

  stop-Framed : (w : World) → Framed w (stop w)
  stop-Framed w =
      let (_, _, _, _, _, shown) = stop_lem w in
      let told = reverse (cancellations w.open_requests) in
      let lost = reverse (losses w.fetchers) in
      Framed-quiet w (stop w)
        (ap written shown
          ∙ written-behind told _ (
              written-reverse (cancellations w.open_requests)
                (written-cancellations w.open_requests))
          ∙ written-behind lost w.trace
              (written-reverse (losses w.fetchers) (written-losses w.fetchers)))
        (omega (
          arith,
          ap cuts shown,
          cuts-append told (lost ++ w.trace),
          cuts-append lost w.trace,
          cuts-reverse (cancellations w.open_requests),
          cuts-reverse (losses w.fetchers),
          cuts-cancellations w.open_requests,
          cuts-losses w.fetchers,
        ))

  step-Framed : (e : Event) (w : World) → Framed w (step e w)
  unfolding execute_no_response
  step-Framed (executes doc none) w = rw (silent doc w) (send_message-Framed doc w)
  step-Framed (executes doc (some cb)) w = execute-Framed doc cb w
  step-Framed (announces doc) w = send_message-Framed doc w
  step-Framed (receives v) w = Acts-Framed (receive_callback-HasActs v w)
  step-Framed (reports v) w = Acts-Framed ((handle_result-HasActs v).run w)
  step-Framed stops w = stop-Framed w

  run-Framed : (es : List Event) (w : World) → Framed w (run es w)
  unfolding run
  run-Framed [] w = Framed-quiet w w refl refl
  run-Framed (e ∷ es) w = Framed-trans (step-Framed e w) (run-Framed es (step e w))

  -- Whatever requests are executed, messages arrive, failures are reported and stops happen, in any
  -- order: if the socket meanwhile never takes a beginning of a message and then fails, the bytes that
  -- it takes are the frames of a list of messages, one behind the other, and none of the messages is
  -- longer than the largest size. It may refuse messages of which it takes nothing.
  pub run_frames :
      (es : List Event) (w : World)
      → cuts (run es w).trace ≡ cuts w.trace
      → (msgs : List Value) × All Fits msgs
        × (written (run es w).trace ≡ written w.trace ++ stream msgs)
  run_frames es w uncut = let f = run-Framed es w in (f.messages, f.fit, f.adds uncut)
