-- ===== src/Tools/Call.antt =====
-- tool/exec.cpp, which calls a method, and tool/jetmethod.cpp, which has one.
pub mod Serves
use jetpeer_cpp.Base.{
  ℕ, String, Option, none, some, List, ◌≡◌, ◌∙◌, ap, ◌==◌, nat_eq, if◌then◌else◌, length,
  next_uint32, false, string_eq,
}
use jetpeer_cpp.Base.Table.{find}
use jetpeer_cpp.Platform.{Platform, Value, Double, Socket}
use jetpeer_cpp.Platform.Laws.{JsonLaws}
use jetpeer_cpp.Defines.Failure.{Outcome, ok, raised}
use jetpeer_cpp.Defines.Rpc
use jetpeer_cpp.Peer.Dispatch.Calls.{method_reply}
use jetpeer_cpp.Peer.Lifecycle.{construct}
use jetpeer_cpp.Peer.Methods.{add_method_async, remove_method_async}
use jetpeer_cpp.Peer.State.{World, MethodCb, M, ◌>>◌}
use jetpeer_cpp.Peer.Sync.{Ending, Loop, call_method}
use jetpeer_cpp.Peer.Sync.Waits.{receiving, call_method_relays}
use jetpeer_cpp.Tools.Arguments.{tcp_port}

module _ ⦃P : Platform⦄ where
  open P use {null, set, of_uint, parse}

  -- jetmethod: methodCb, which gives its parameters back
  abbrev pub method_cb : MethodCb
  method_cb value = ok value

  abbrev pub method_name : String
  method_name = "theMethod"

  -- Up to the event loop; the callback 0 is resultCb.
  unfoldable pub jetmethod : Socket → Double → M (Unit {0})
  jetmethod socket timeout_s = do
    construct socket "::1" tcp_port "" false
    add_method_async method_name (some timeout_s) (some 0) method_cb

  -- Behind the event loop.
  unfoldable pub jetmethod_end : M (Unit {0})
  jetmethod_end = remove_method_async method_name none

  -- jetexec: the parameters; `none` where they cannot be parsed, which ends main with EXIT_FAILURE.
  module _ (bytes_of : String → List ℕ) where
    abbrev text_params : List ℕ → Option Value
    text_params bytes = if length bytes == 0 then some null else parse bytes

    unfoldable pub exec_params : Option String → Option Value
    exec_params none = some null
    exec_params (some text) = text_params (bytes_of text)

    -- What is printed as the result, or `none` where there is no call.
    abbrev shown_result : Outcome Value → Outcome (Option Value)
    shown_result (ok result) = ok (some result)
    shown_result (raised e) = raised e

    abbrev pub with_call : Ending Value → Ending (Option Value)
    with_call (Ending.done (r, w)) = Ending.done (shown_result r, w)
    with_call (Ending.waits w) = Ending.waits w
    with_call (Ending.terminated w) = Ending.terminated w

    abbrev call_with : (Value → World → Ending Value) → Option Value → World → Ending (Option Value)
    call_with call none w = Ending.done (ok none, w)
    call_with call (some params) w = with_call (call params w)

    -- Between the constructor of the peer and the handler.
    unfoldable pub exec : ℕ → Loop → Double → String → Option String → World → Ending (Option Value)
    unfolding exec_params
    exec p loop timeout_s path text w =
        call_with (λ params. call_method p loop path params (some timeout_s)) (exec_params text) w

    -- If the response that jetexec waits for is the one that a peer with the callback of jetmethod
    -- gives to its parameters, jetexec prints just these parameters, and its request is closed. The
    -- parameters of the command line must be empty, or JSON. jsoncpp must keep its laws.
    pub exec_prints_params :
        (laws : JsonLaws) (p : ℕ) (timeout_s : Double) (path : String) (text : Option String)
        (params : Value) (w : World)
        → exec_params text ≡ some params
        → let id = next_uint32 w.sid in
          let v = set (method_reply (method_cb params)) Rpc.id (of_uint id) in
          (u : World) × (exec p (receiving v) timeout_s path text w
            ≡ Ending.done (ok (some params), u))
          × (find id u.open_requests ≡ none)
    unfolding exec exec_params
    exec_prints_params laws p timeout_s path text params w given =
        let v = set (method_reply (method_cb params)) Rpc.id (of_uint (next_uint32 w.sid)) in
        let (u, ended, closed) =
          call_method_relays laws p path params (some timeout_s) (ok params) w in
        (
          u,
          ap (λ o. call_with (λ x. call_method p (receiving v) path x (some timeout_s)) o w) given
              ∙ ap with_call ended,
          closed,
        )
