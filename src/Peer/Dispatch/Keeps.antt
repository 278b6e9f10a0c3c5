-- ===== src/Peer/Dispatch/Keeps.antt =====
-- What handling a message leaves alone: the buffers of the reader, the bytes that are still to be
-- read, the fetchers, and that the peer runs.
use jetpeer_cpp.Base.{ℕ, take, Option, none, some, List, [], ◌∷◌, ◌≡◌, refl, ◌∙◌, arith, nat_eq}
use jetpeer_cpp.Base.Table.{erase}
use jetpeer_cpp.Platform.{Platform, Value}
use jetpeer_cpp.Platform.Laws.{SocketLaws}
use jetpeer_cpp.Peer.Frame.{frame}
use jetpeer_cpp.Peer.Send.{send_message, part}
use jetpeer_cpp.Peer.Request.{call_response, call_optional}
use jetpeer_cpp.Peer.Dispatch.{receive_callback}
use jetpeer_cpp.Peer.Dispatch.Acts.{
  Act, sends, calls_state, calls_method, calls_fetch, responds, Acts, here, next,
  receive_callback-HasActs,
}
use jetpeer_cpp.Peer.State.{World, ResponseCb, Effect}

module _ ⦃P : Platform⦄ where
  open P use {send_blocks, took}

  -- The messages that were dispatched, newest first.
  unfoldable pub dispatched : List Effect → List Value
  dispatched [] = []
  dispatched (Effect.dispatched v ∷ t) = v ∷ dispatched t
  dispatched (e ∷ t) = dispatched t

  pub record SameReader (w u : World) : Type 0 where
    pub same_length_buffer : u.length_buffer ≡ w.length_buffer
    pub same_data_size : u.data_size ≡ w.data_size
    pub same_data_buffer : u.data_buffer ≡ w.data_buffer
    pub same_dispatched : dispatched u.trace ≡ dispatched w.trace
    pub same_stopped : u.stopped ≡ w.stopped

  SameReader-refl : (w : World) → SameReader w w
  SameReader-refl w = record {
    same_length_buffer = refl;
    same_data_size = refl;
    same_data_buffer = refl;
    same_dispatched = refl;
    same_stopped = refl;
  }

  SameReader-trans : {u v w : World} → SameReader u v → SameReader v w → SameReader u w
  SameReader-trans p q = record {
    same_length_buffer = q.same_length_buffer ∙ p.same_length_buffer;
    same_data_size = q.same_data_size ∙ p.same_data_size;
    same_data_buffer = q.same_data_buffer ∙ p.same_data_buffer;
    same_dispatched = q.same_dispatched ∙ p.same_dispatched;
    same_stopped = q.same_stopped ∙ p.same_stopped;
  }

  call_response-SameReader :
      (cb : ResponseCb) (v : Value) (w : World) → SameReader w (call_response cb v w)
  unfolding call_response dispatched
  call_response-SameReader (ResponseCb.user u) v w = ground arith
  call_response-SameReader (ResponseCb.method_added path u) v w = ground arith
  call_response-SameReader (ResponseCb.state_added path u) v w = ground arith
  call_response-SameReader (ResponseCb.fetch_added id u) v w = ground arith
  call_response-SameReader (ResponseCb.fulfils p) v w = ground arith

  call_optional-SameReader :
      (cb : Option ResponseCb) (v : Value) (w : World) → SameReader w (call_optional cb v w)
  call_optional-SameReader none v w = SameReader-refl w
  call_optional-SameReader (some cb) v w = call_response-SameReader cb v w

  dispatched-part : (bytes : List ℕ) (t : List Effect) → dispatched (part bytes t) ≡ dispatched t
  unfolding dispatched
  dispatched-part [] t = refl
  dispatched-part (b ∷ bytes) t = refl

  Act-SameReader : {w u : World} → Act w u → SameReader w u
  unfolding dispatched send_message
  Act-SameReader (sends w v) =
      ground (arith, dispatched-part (take (took w.socket (frame v)) (frame v)) w.trace)
  Act-SameReader (calls_state w path v) = ground arith
  Act-SameReader (calls_method w path v) = ground arith
  Act-SameReader (calls_fetch w cb v) = ground arith
  Act-SameReader (responds w id v none _) = SameReader-refl w
  Act-SameReader (responds w id v (some r) _) =
      let q =
        call_optional-SameReader r.response_callback v
          (record w { open_requests = erase id w.open_requests }) in
      record {
        same_length_buffer = q.same_length_buffer;
        same_data_size = q.same_data_size;
        same_data_buffer = q.same_data_buffer;
        same_dispatched = q.same_dispatched;
        same_stopped = q.same_stopped;
      }

  Acts-SameReader : {w u : World} → Acts w u → SameReader w u
  Acts-SameReader here = SameReader-refl _
  Acts-SameReader (next p a) = SameReader-trans (Acts-SameReader p) (Act-SameReader a)

  pub receive_callback-SameReader : (v : Value) (w : World) → SameReader w (receive_callback v w).1
  receive_callback-SameReader v w = Acts-SameReader (receive_callback-HasActs v w)

  module _ (laws : SocketLaws) where
    open laws use {pending, pending-send_blocks}

    pending-call_response :
        (cb : ResponseCb) (v : Value) (w : World)
        → pending (call_response cb v w).socket ≡ pending w.socket
    unfolding call_response
    pending-call_response (ResponseCb.user u) v w = refl
    pending-call_response (ResponseCb.method_added path u) v w = ground arith
    pending-call_response (ResponseCb.state_added path u) v w = ground arith
    pending-call_response (ResponseCb.fetch_added id u) v w = ground arith
    pending-call_response (ResponseCb.fulfils p) v w = refl

    pending-call_optional :
        (cb : Option ResponseCb) (v : Value) (w : World)
        → pending (call_optional cb v w).socket ≡ pending w.socket
    pending-call_optional none v w = refl
    pending-call_optional (some cb) v w = pending-call_response cb v w

    pending-Act : {w u : World} → Act w u → pending u.socket ≡ pending w.socket
    unfolding send_message
    pending-Act (sends w v) = ground (arith, pending-send_blocks w.socket (frame v))
    pending-Act (calls_state w path v) = refl
    pending-Act (calls_method w path v) = refl
    pending-Act (calls_fetch w cb v) = refl
    pending-Act (responds w id v none _) = refl
    pending-Act (responds w id v (some r) _) =
        pending-call_optional r.response_callback v
          (record w { open_requests = erase id w.open_requests })

    pending-Acts : {w u : World} → Acts w u → pending u.socket ≡ pending w.socket
    pending-Acts here = refl
    pending-Acts (next p a) = pending-Act a ∙ pending-Acts p

    pub pending-receive_callback :
        (v : Value) (w : World) → pending (receive_callback v w).1.socket ≡ pending w.socket
    pending-receive_callback v w = pending-Acts (receive_callback-HasActs v w)
