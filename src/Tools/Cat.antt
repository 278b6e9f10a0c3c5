-- ===== src/Tools/Cat.antt =====
-- tool/cat.cpp and tool/catsync.cpp: what is printed of the notifications. `shown` is the text of a
-- value, as jsoncpp prints it.
use jetpeer_cpp.Base.{
  ℕ, pos, String, ◌<>◌, Option, some, List, [], ◌∷◌, ◌++◌, map, concat, if◌then◌else◌, ◌==◌, nat_eq,
  string_eq, ◌≡◌, ◌∙◌, ap, sym, refl, append_assoc, append-nil, Bool-cases, inl, inr,
}
use jetpeer_cpp.Cache.{Notice, read_notice}
use jetpeer_cpp.Cache.Replay.{Say}
use jetpeer_cpp.Defines.Verb
use jetpeer_cpp.Notifier.{Notifier, fetch_cb, on_notice, call_cb}
use jetpeer_cpp.Defines.Failure.{ok}
use jetpeer_cpp.Platform.{Platform, Value, Kind, is_null}

module _ ⦃P : Platform⦄ (shown : Value → String) where
  open P use {kind, member, is_member, as_string}

  -- print, line by line
  abbrev pub print_lines : String → Value → String → List String
  print_lines path value description =
      if is_null value
      then ("method '" <> (path <> ("' " <> description))) ∷ []
      else ("state '" <> (path <> ("' " <> description))) ∷ shown value ∷ []

  -- The descriptions that main binds to the three callbacks.
  abbrev pub description : ℕ → String
  description cb = if cb == 0 then "added" else if cb == 1 then "changed" else "removed"

  -- What the calls of the callbacks, newest first, have printed.
  unfoldable pub printed : List (ℕ × (String × Value)) → List String
  printed [] = []
  printed ((cb, (path, value)) ∷ rest) = printed rest ++ print_lines path value (description cb)

  -- The notifications go to the notifier, one after the other; PeerAsync drops what they throw.
  unfoldable pub tell_all : List Value → Notifier → Notifier
  tell_all [] n = n
  tell_all (v ∷ rest) n = tell_all rest (fetch_cb v (pos 0) n).1

  -- What a notice is to print.
  abbrev pub lines_of : Notice → List String
  lines_of m =
      if m.event == Verb.add
      then print_lines m.path m.value "added"
      else if m.event == Verb.change
      then print_lines m.path m.value "changed"
      else if m.event == Verb.remove
      then print_lines m.path m.value "removed"
      else []

  -- The callbacks that main sets.
  pub record HasPrinters (n : Notifier) : Type 0 where
    pub adds : n.add_cb ≡ some 0
    pub changes : n.change_cb ≡ some 1
    pub removes : n.remove_cb ≡ some 2

  called :
      (o : Option ℕ) (cb : ℕ) (path : String) (value : Value) (n : Notifier)
      → o ≡ some cb
      → call_cb o path value n ≡ (ok tt, record n { calls = (cb, (path, value)) ∷ n.calls })
  called o cb path value n e = ap (λ c. call_cb c path value n) e

  kept :
      (n : Notifier)
      → HasPrinters n
      → (calls : List (ℕ × (String × Value))) → HasPrinters (record n { calls = calls })
  kept n h calls = record { adds = h.adds; changes = h.changes; removes = h.removes }

  on_notice_prints :
      (m : Notice) (n : Notifier)
      → HasPrinters n
      → HasPrinters (on_notice m n).1
        × (printed (on_notice m n).1.calls ≡ printed n.calls ++ lines_of m)
  unfolding printed
  on_notice_prints m n h =
      let same = string_eq.equals_iff in
      elim (Bool-cases (m.event == Verb.change)) [
        | inl e ↦
            rw ((same m.event Verb.change).0 e, called n.change_cb 1 m.path m.value n h.changes)
              (kept n h _, refl)
        | inr not_change ↦ elim (Bool-cases (m.event == Verb.add)) [
          | inl e ↦
              rw ((same m.event Verb.add).0 e, called n.add_cb 0 m.path m.value n h.adds)
                (kept n h _, refl)
          | inr not_add ↦ elim (Bool-cases (m.event == Verb.remove)) [
            | inl e ↦
                rw ((same m.event Verb.remove).0 e, called n.remove_cb 2 m.path m.value n h.removes)
                  (kept n h _, refl)
            | inr not_remove ↦
                rw (not_change, not_add, not_remove) (h, sym (append-nil (printed n.calls)))
          ]
        ]
      ]

  fetch_cb_prints :
      (v : Value) (m : Notice) (n : Notifier)
      → HasPrinters n
      → kind v ≡ Kind.object_value
      → read_notice v ≡ some m
      → HasPrinters (fetch_cb v (pos 0) n).1
        × (printed (fetch_cb v (pos 0) n).1.calls ≡ printed n.calls ++ lines_of m)
  unfolding fetch_cb printed
  fetch_cb_prints v m n h is_object reads = rw (is_object, reads) (on_notice_prints m n h)

  -- jetcat prints the notices of its fetch, each as its event says and in their order: a value that
  -- is not null as a state, with the value, and null as a method. An event of another name prints
  -- nothing. The notifications must be objects that say these notices, and the callbacks those that main sets.
  pub cat_prints :
      (vs : List Value) (ms : List Notice) (n : Notifier)
      → HasPrinters n
      → Say vs ms
      → printed (tell_all vs n).calls ≡ printed n.calls ++ concat (map lines_of ms)
  unfolding tell_all
  cat_prints [] [] n h says = sym (append-nil (printed n.calls))
  cat_prints (v ∷ vs) (m ∷ ms) n h (is_object, reads, rest) =
      let (still, first) = fetch_cb_prints v m n h is_object reads in
      cat_prints vs ms (fetch_cb v (pos 0) n).1 still rest
      ∙ ap (λ x. x ++ concat (map lines_of ms)) first
      ∙ append_assoc (printed n.calls) (lines_of m) (concat (map lines_of ms))
  cat_prints [] (m ∷ ms) n h says = absurd says
  cat_prints (v ∷ vs) [] n h says = absurd says
