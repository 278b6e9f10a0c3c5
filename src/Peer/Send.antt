-- ===== src/Peer/Send.antt =====
-- PeerAsync::sendMessage and PeerAsync::notifyState.
pub mod Results
use jetpeer_cpp.Base.{
  ℕ, ℤ, pos, String, List, [], ◌∷◌, take, ◌<>◌, Option, none, some, length, ltb, if◌then◌else◌,
  to_string, minus_one,
}
use jetpeer_cpp.Platform.{Platform, Value}
use jetpeer_cpp.Defines.{max_message_size}
use jetpeer_cpp.Defines.Failure.{Failure, ok, raised}
use jetpeer_cpp.Defines.Key
use jetpeer_cpp.Defines.Rpc
use jetpeer_cpp.Defines.Verb
use jetpeer_cpp.Peer.Frame.{frame}
use jetpeer_cpp.Peer.State.{World, Effect, M, throw, emit}

module _ ⦃P : Platform⦄ where
  open P use {null, set, of_string, write, send_blocks, took}

  -- What the socket took of a frame before it failed, if it took anything.
  abbrev pub part : List ℕ → List Effect → List Effect
  part [] t = t
  part (b ∷ bytes) t = Effect.cut_off (b ∷ bytes) ∷ t

  -- The state after the socket took n bytes of the frame, which need not be the whole of it.
  abbrev pub cut : Value → ℕ → World → World
  cut value n w = record w { trace = part (take n (frame value)) w.trace }

  -- The result of sendBlocks, which may fail after it has taken n bytes.
  abbrev pub sent : Value → ℕ → Option String → M (Unit {0})
  sent value n none w = emit (Effect.wrote (frame value)) w
  sent value n (some e) w =
      throw (Failure.jsonrpc_exception minus_one ("could not send message: '" <> (e <> "'")))
        (cut value n w)

  abbrev pub send_frame : Value → M (Unit {0})
  send_frame value w =
      let (result, s) = send_blocks w.socket (frame value) in
      sent value (took w.socket (frame value)) result (record w { socket = s })

  abbrev pub size_error : ℕ → String
  size_error len =
      "Message size "
      <> (to_string len
          <> (" exceeds maximum message size ("
              <> (to_string max_message_size <> ") and will not be send!")))

  unfoldable pub send_message : Value → M (Unit {0})
  send_message value =
      let len = length (write value) in
      if ltb max_message_size len
      then throw (Failure.jsonrpc_exception minus_one (size_error len))
      else send_frame value

  -- A message that says that a state has changed; handleMessage builds the same one.
  abbrev pub change_message : String → Value → Value
  change_message path value =
      let sendata = set null Rpc.method (of_string Verb.change) in
      let dataparams = set (set null Key.path (of_string path)) Key.value value in
      set sendata Rpc.params dataparams

  abbrev pub caught_all : M (Unit {0}) → M ℤ
  caught_all m w =
      let (r, w') = m w in elim r [ ok _ ↦ (ok (pos 0), w') | raised _ ↦ (ok minus_one, w') ]

  unfoldable pub notify_state : String → Value → M ℤ
  notify_state path value = caught_all (send_message (change_message path value))
