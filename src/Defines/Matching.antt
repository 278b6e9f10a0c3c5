-- ===== src/Defines/Matching.antt =====
-- matcher_t: its text (include/jet/defines.h), and the parameters that it adds to a request
-- (PeerAsync::addPathInformation of lib/peerasync.cpp).
use jetpeer_cpp.Base.{String, ◌<>◌, str_empty, List, [], ◌∷◌, true, if◌then◌else◌, is_empty}
use jetpeer_cpp.Platform.{Platform, Value, at, set_in}
use jetpeer_cpp.Defines.{Matcher}
use jetpeer_cpp.Defines.Key

-- One `key=text` of the description, behind a comma if there is something before it.
pub print_rule : String → String → String → String
print_rule key text msg =
    if str_empty text
    then msg
    else (if str_empty msg then msg else msg <> ", ") <> (key <> "=" <> text)

-- The texts with ", " between them: each is followed by ", ", and two characters are popped.
unfoldable pub print_all : List String → String
print_all [] = ""
print_all (s ∷ []) = s
print_all (s ∷ t ∷ r) = s <> ", " <> print_all (t ∷ r)

print_contains_all_of : List String → String → String
print_contains_all_of texts msg =
    if is_empty texts
    then msg
    else (if str_empty msg then msg else msg <> ", ")
      <> (Key.contains_all_of <> "=[" <> print_all texts <> "]")

-- matcher_t::print
unfoldable pub print : Matcher → String
unfolding print_rule print_contains_all_of
print m =
    let m0 : String = if m.case_insensitive then Key.case_insensitive else "" in
    let m1 = print_rule Key.contains m.contains m0 in
    let m2 = print_rule Key.starts_with m.starts_with m1 in
    let m3 = print_rule Key.ends_with m.ends_with m2 in
    let m4 = print_rule Key.equals m.equals m3 in
    let m5 = print_rule Key.equals_not m.equals_not m4 in print_contains_all_of m.contains_all_of m5

module _ ⦃P : Platform⦄ where
  open P use {of_bool, of_string, append}

  -- params[PATH][key] = text, unless the text is empty
  pub add_rule : String → String → Value → Value
  add_rule key text params =
      if str_empty text then params else set_in params Key.path key (of_string text)

  append_texts : List String → Value → Value
  append_texts [] v = v
  append_texts (s ∷ r) v = append_texts r (append v (of_string s))

  add_all_of : List String → Value → Value
  add_all_of texts params =
      if is_empty texts
      then params
      else set_in params Key.path Key.contains_all_of
          (append_texts texts (at (at params Key.path) Key.contains_all_of))

  -- PeerAsync::addPathInformation
  unfoldable pub add_path_information : Value → Matcher → Value
  unfolding add_rule add_all_of append_texts
  add_path_information params m =
      let p1 = add_rule Key.contains m.contains params in
      let p2 = add_rule Key.starts_with m.starts_with p1 in
      let p3 = add_rule Key.ends_with m.ends_with p2 in
      let p4 = add_rule Key.equals m.equals p3 in
      let p5 = add_rule Key.equals_not m.equals_not p4 in
      let p6 = add_all_of m.contains_all_of p5 in
      if m.case_insensitive then set_in p6 Key.path Key.case_insensitive (of_bool true) else p6
