-- ===== src/Notifier.antt =====
-- The class notifier of tool/notifier.cpp: a fetch whose notifications go to one callback for each
-- event. Its callbacks are numbers that name them, `none` is an empty one.
pub mod Follows
use jetpeer_cpp.Base.{
  ℕ, ℤ, pos, negsuc, String, Option, none, some, List, ◌∷◌, if◌then◌else◌, ◌==◌, string_eq,
}
use jetpeer_cpp.Platform.{Platform, Value, Kind}
use jetpeer_cpp.Cache.{Notice, read_notice}
use jetpeer_cpp.Defines.{Matcher}
use jetpeer_cpp.Defines.Failure.{Failure, Outcome, ok, raised}
use jetpeer_cpp.Defines.Verb
use jetpeer_cpp.Peer.Methods.{add_fetch_async, remove_fetch_async}
use jetpeer_cpp.Peer.State.{World, M, json_error}

module _ ⦃P : Platform⦄ where
  open P use {kind}

  pub record Notifier : Type 0 where
    -- not initialised by the constructor
    pub fetch_id : ℤ
    pub add_cb : Option ℕ
    pub change_cb : Option ℕ
    pub remove_cb : Option ℕ
    -- the calls of the callbacks, newest first: which one, the path and the value
    pub calls : List (ℕ × (String × Value))

  -- The callbacks are there before the fetch is added.
  abbrev pub set_cbs : Option ℕ → Option ℕ → Option ℕ → Notifier → Notifier
  set_cbs add change remove n = record n { add_cb = add; change_cb = change; remove_cb = remove }

  abbrev pub started : Notifier → Outcome ℤ × World → (Outcome (Unit {0}) × Notifier) × World
  started n (ok id, w) = ((ok tt, record n { fetch_id = id }), w)
  started n (raised e, w) = ((raised e, n), w)

  -- start; `self` names fetchCb of this object. The complaint about empty callbacks is only printed.
  unfoldable pub start :
      ℕ
      → Option ℕ
      → Option ℕ
      → Option ℕ
      → Matcher
      → Notifier
      → World
      → (Outcome (Unit {0}) × Notifier) × World
  start self add change remove match n w =
      started (set_cbs add change remove n) (add_fetch_async match (some self) none w)

  -- stop, and the destructor
  unfoldable pub stop : Notifier → M (Unit {0})
  stop n = remove_fetch_async n.fetch_id none

  -- An empty std::function throws when it is called.
  abbrev pub bad_call : Failure
  bad_call = Failure.std_exception "bad_function_call"

  abbrev pub call_cb : Option ℕ → String → Value → Notifier → Outcome (Unit {0}) × Notifier
  call_cb none path value n = (raised bad_call, n)
  call_cb (some cb) path value n = (ok tt, record n { calls = (cb, (path, value)) ∷ n.calls })

  abbrev pub on_notice : Notice → Notifier → Outcome (Unit {0}) × Notifier
  on_notice m n =
      if m.event == Verb.change
      then call_cb n.change_cb m.path m.value n
      else if m.event == Verb.add
      then call_cb n.add_cb m.path m.value n
      else if m.event == Verb.remove
      then call_cb n.remove_cb m.path m.value n
      else (ok tt, n)

  abbrev pub noticed : Option Notice → Notifier → Outcome (Unit {0}) × Notifier
  noticed none n = (raised json_error, n)
  noticed (some m) n = on_notice m n

  abbrev pub on_object : Value → Kind → Notifier → Outcome (Unit {0}) × Notifier
  on_object params Kind.object_value n = noticed (read_notice params) n
  on_object params _ n = (ok tt, n)

  -- fetchCb
  unfoldable pub fetch_cb : Value → ℤ → Notifier → Outcome (Unit {0}) × Notifier
  fetch_cb params (negsuc k) n = (ok tt, n)
  fetch_cb params (pos k) n = on_object params (kind params) n
