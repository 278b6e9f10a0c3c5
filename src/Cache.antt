-- ===== src/Cache.antt =====
-- The class cache of tool/cache.cpp: the values of fetched states, kept up to date by the
-- notifications of a fetch. Its callbacks are numbers that name them.
pub mod Replay
use jetpeer_cpp.Base.{
  ℕ, ℤ, pos, negsuc, String, Option, none, some, List, [], ◌∷◌, if◌then◌else◌, ◌==◌, string_eq,
}
use jetpeer_cpp.Base.Table.{Table, find, put, erase}
use jetpeer_cpp.Platform.{Platform, Value, Kind, or_null}
use jetpeer_cpp.Defines.{Matcher}
use jetpeer_cpp.Defines.Failure.{Outcome, ok, raised}
use jetpeer_cpp.Defines.Key
use jetpeer_cpp.Defines.Verb
use jetpeer_cpp.Peer.State.{M, json_error}
use jetpeer_cpp.Peer.Methods.{add_fetch_async, remove_fetch_async}

module _ ⦃P : Platform⦄ where
  open P use {kind, member, as_string}

  pub record Cache : Type 0 where
    pub entries : Table String Value
    pub add_cb : Option ℕ
    pub change_cb : Option ℕ
    pub remove_cb : Option ℕ
    -- the calls of the callbacks, newest first: which one, the path and the value
    pub calls : List (ℕ × (String × Value))

  -- The constructor, which keeps the id of its fetch, and the destructor; `self` names fetchCb.
  abbrev pub open_cache : ℕ → Matcher → M ℤ
  open_cache self match = add_fetch_async match (some self) none

  abbrev pub close_cache : ℤ → M (Unit {0})
  close_cache fetch_id = remove_fetch_async fetch_id none

  -- setCbs
  abbrev pub set_cbs : Option ℕ → Option ℕ → Option ℕ → Cache → Cache
  set_cbs add change remove c = record c { add_cb = add; change_cb = change; remove_cb = remove }

  -- getEntry
  unfoldable pub get_entry : String → Cache → Value
  get_entry path c = or_null (find path c.entries)

  -- A callback that is set is called.
  abbrev pub call_cb : Option ℕ → String → Value → Cache → Cache
  call_cb none path value c = c
  call_cb (some cb) path value c = record c { calls = (cb, (path, value)) ∷ c.calls }

  -- What a notification says.
  pub record Notice : Type 0 where
    pub event : String
    pub path : String
    pub value : Value

  infixl 5 ◌>>=◌
  abbrev ◌>>=◌ : {A B : Type 0} → Option A → (A → Option B) → Option B
  none >>= f = none
  some a >>= f = f a

  -- The reads of a notification, in their order; `none` where one throws.
  unfoldable pub read_notice : Value → Option Notice
  read_notice params = do
    event_node ← member params Key.event
    event ← as_string event_node
    path_node ← member params Key.path
    path ← as_string path_node
    value ← member params Key.value
    some (record { event = event; path = path; value = value })

  -- The branches on the event; other events are ignored.
  unfoldable pub on_notice : Notice → Cache → Cache
  on_notice n c =
      if n.event == Verb.change
      then call_cb c.change_cb n.path n.value (record c { entries = put n.path n.value c.entries })
      else if n.event == Verb.add
      then call_cb c.add_cb n.path n.value (record c { entries = put n.path n.value c.entries })
      else if n.event == Verb.remove
      then call_cb c.remove_cb n.path n.value (record c { entries = erase n.path c.entries })
      else c

  abbrev pub noticed : Option Notice → Cache → Outcome (Unit {0}) × Cache
  noticed none c = (raised json_error, c)
  noticed (some n) c = (ok tt, on_notice n c)

  abbrev pub on_object : Value → Kind → Cache → Outcome (Unit {0}) × Cache
  on_object params Kind.object_value c = noticed (read_notice params) c
  on_object params _ c = (ok tt, c)

  -- fetchCb: a negative status says that the connection is lost.
  unfoldable pub fetch_cb : Value → ℤ → Cache → Outcome (Unit {0}) × Cache
  fetch_cb params (negsuc n) c = (ok tt, c)
  fetch_cb params (pos n) c = on_object params (kind params) c
