-- ===== src/Peer/Send/Results.antt =====
-- The three ends of PeerAsync::sendMessage.
use jetpeer_cpp.Base.{
  ℕ, String, ◌<>◌, none, some, ◌∷◌, ◌≡◌, ◌≤◌, ◌<◌, ◌⊎◌, inl, inr, arith, length, minus_one, ltb,
  Bool-cases, Option-cases,
}
use jetpeer_cpp.Platform.{Platform, Value, Socket}
use jetpeer_cpp.Defines.{max_message_size}
use jetpeer_cpp.Defines.Failure.{Failure, ok, raised}
use jetpeer_cpp.Peer.Frame.{frame}
use jetpeer_cpp.Peer.Send.{send_message, size_error, cut}
use jetpeer_cpp.Peer.State.{World, Effect}

module _ ⦃P : Platform⦄ where
  open P use {write, send_blocks, took}

  -- The state after the socket took the frame of a message.
  abbrev pub after_send : Value → World → World
  after_send v w = record w {
    socket = (send_blocks w.socket (frame v)).1;
    trace = Effect.wrote (frame v) ∷ w.trace;
  }

  pub send_message_ok :
      (v : Value) (w : World)
      → length (write v) ≤ max_message_size
      → (send_blocks w.socket (frame v)).0 ≡ none
      → send_message v w ≡ (ok tt, after_send v w)
  unfolding send_message
  send_message_ok v w fits taken = ground arith

  pub send_message_too_large :
      (v : Value) (w : World)
      → max_message_size < length (write v)
      → send_message v w
        ≡ (raised (Failure.jsonrpc_exception minus_one (size_error (length (write v)))), w)
  unfolding send_message
  send_message_too_large v w large = ground arith

  pub send_message_refused :
      (v : Value) (w : World) (e : String)
      → length (write v) ≤ max_message_size
      → (send_blocks w.socket (frame v)).0 ≡ some e
      → send_message v w ≡ (
        raised (Failure.jsonrpc_exception minus_one ("could not send message: '" <> (e <> "'"))),
        cut v (took w.socket (frame v)) (record w { socket = (send_blocks w.socket (frame v)).1 }),
      )
  unfolding send_message
  send_message_refused v w e fits refused = ground arith

  -- A message that is handed over, or an exception of class jsonrpcException with code -1, and n bytes
  -- of its frame written, none where the message is too large.
  pub send_message_cases :
      (v : Value) (w : World)
      → (send_message v w ≡ (ok tt, after_send v w))
        ⊎ ((message : String) × (s : Socket) × (n : ℕ) × (send_message v w ≡ (
          raised (Failure.jsonrpc_exception minus_one message),
          cut v n (record w { socket = s }),
        )))
  send_message_cases v w = elim (Bool-cases (ltb max_message_size (length (write v)))) [
    | inl large ↦
        inr (size_error (length (write v)), w.socket, 0, send_message_too_large v w (ground arith))
    | inr fits ↦ elim (Option-cases (send_blocks w.socket (frame v)).0) [
      | inl taken ↦ inl (send_message_ok v w (ground arith) taken)
      | inr (e, refused) ↦ inr (_, _, _, send_message_refused v w e (ground arith) refused)
    ]
  ]
