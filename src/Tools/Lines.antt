-- ===== src/Tools/Lines.antt =====
-- What the callbacks of tool/catsync.cpp, tool/get.cpp, tool/cache.cpp and tool/jetmethod.cpp print.
-- `shown` is the text of a value, as jsoncpp prints it.
use jetpeer_cpp.Base.{
  ℤ, pos, negsuc, String, ◌<>◌, Option, none, some, List, [], ◌∷◌, ◌++◌, Bool, true, false,
  if◌then◌else◌, string_eq, str_empty,
}
use jetpeer_cpp.Defines.Key
use jetpeer_cpp.Defines.Rpc
use jetpeer_cpp.Platform.{Platform, Value, Kind}

module _ ⦃P : Platform⦄ (shown : Value → String) where
  open P use {kind, member, is_member, as_string, elements}

  infixl 5 ◌>>=◌
  abbrev ◌>>=◌ : {A B : Type 0} → Option A → (A → Option B) → Option B
  none >>= f = none
  some a >>= f = f a

  -- jetcatsync: fetchCb; `none` where an access of jsoncpp throws.
  abbrev event_lines : Value → Option (List String)
  event_lines params = do
    event_node ← member params Key.event
    event ← as_string event_node
    path_node ← member params Key.path
    path ← as_string path_node
    if str_empty event
        then some []
        else if is_member params Key.value
        then (if str_empty path then some [] else (do
          value ← member params Key.value
          some ((path <> (" " <> (event <> ": "))) ∷ shown value ∷ [])))
        else some []

  abbrev of_kind : Value → Kind → Option (List String)
  of_kind params Kind.object_value = event_lines params
  of_kind params _ = some []

  unfoldable pub catsync_lines : Value → ℤ → Option (List String)
  catsync_lines params (negsuc status) = some ("Lost connection to jet daemon!" ∷ [])
  catsync_lines params (pos status) = of_kind params (kind params)

  -- jetget: responseCb. What it prints, and whether it comes to stop the event loop.
  abbrev before : List String → List String × Bool → List String × Bool
  before lines (rest, stops) = (lines ++ rest, stops)

  -- The turn for an item, by what the accesses of its path and its value give, and the turns behind.
  abbrev item_lines : Option Value → Option Value → List String × Bool → List String × Bool
  item_lines none value rest = ([], false)
  item_lines (some path) none rest = (("path " <> shown path) ∷ [], false)
  item_lines (some path) (some value) rest =
      before (("path " <> shown path) ∷ ("value " <> shown value) ∷ []) rest

  abbrev items_lines : List Value → List String × Bool
  items_lines [] = ([], true)
  items_lines (item ∷ rest) =
      item_lines (member item Key.path) (member item Key.value) (items_lines rest)

  abbrev result_lines : Option Value → List String × Bool
  result_lines none = ([], false)
  result_lines (some result) = items_lines (elements result)

  unfoldable pub get_lines : Value → List String × Bool
  get_lines value = result_lines (member value Rpc.result)

  -- jetcache: print
  unfoldable pub cache_line : String → Value → String → List String
  cache_line path value description = ("state '" <> (path <> ("' " <> description))) ∷ []

  -- jetmethod: resultCb
  unfoldable pub added_line : Value → String
  added_line result =
      if is_member result Rpc.err
      then "adding method failed!"
      else if is_member result Rpc.result
      then "added method"
      else "unexpected response"
