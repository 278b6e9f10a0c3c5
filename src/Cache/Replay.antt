-- ===== src/Cache/Replay.antt =====
-- cache: after any notifications, an entry is what the last notification of its path says.
use jetpeer_cpp.Base.{
  ℕ, pos, String, Bool, true, false, Option, none, some, List, [], ◌∷◌, ◌≡◌, ◌∙◌, ap, refl, arith,
  if◌then◌else◌, ◌==◌, string_eq,
}
use jetpeer_cpp.Base.Table.{find, put, erase, find-put, find-erase}
use jetpeer_cpp.Platform.{Platform, Value, Kind, or_null}
use jetpeer_cpp.Defines.Failure.{ok}
use jetpeer_cpp.Defines.Verb
use jetpeer_cpp.Cache.{Cache, Notice, get_entry, call_cb, read_notice, on_notice, fetch_cb}

module _ ⦃P : Platform⦄ where
  open P use {null, kind}

  -- The values of the states, as the notifications tell them: a function of the path, with null for
  -- a state that is not there.
  abbrev pub View : Type 0
  View = String → Value

  abbrev pub follow : Notice → View → View
  follow n view j =
      if n.path == j
      then if n.event == Verb.change
        then n.value
        else if n.event == Verb.add
        then n.value
        else if n.event == Verb.remove
        then null
        else view j
      else view j

  abbrev pub follow_all : List Notice → View → View
  follow_all [] view = view
  follow_all (n ∷ rest) view = follow_all rest (follow n view)

  -- The notifications reach the cache one after the other.
  abbrev pub deliver_all : List Value → Cache → Cache
  deliver_all [] c = c
  deliver_all (v ∷ rest) c = deliver_all rest (fetch_cb v (pos 0) c).1

  -- These values are the notifications that say this.
  abbrev pub Say : List Value → List Notice → Type 0
  Say [] [] = Unit
  Say (v ∷ vs) (n ∷ ns) = (kind v ≡ Kind.object_value) × (read_notice v ≡ some n) × Say vs ns
  Say _ _ = ⊥

  entries-call_cb :
      (cb : Option ℕ) (path : String) (value : Value) (c : Cache)
      → (call_cb cb path value c).entries ≡ c.entries
  entries-call_cb none path value c = refl
  entries-call_cb (some n) path value c = refl

  get_entry-call_cb :
      (j : String) (cb : Option ℕ) (path : String) (value : Value) (c : Cache)
      → get_entry j (call_cb cb path value c) ≡ get_entry j c
  unfolding get_entry
  get_entry-call_cb j cb path value c =
      ap (λ t. or_null (find j t)) (entries-call_cb cb path value c)

  or_null-if :
      (b : Bool) (o p : Option Value)
      → or_null (if b then o else p) ≡ (if b then or_null o else or_null p)
  or_null-if true o p = refl
  or_null-if false o p = refl

  get_entry-put :
      (j k : String) (v : Value) (c : Cache)
      → get_entry j (record c { entries = put k v c.entries })
        ≡ (if k == j then v else get_entry j c)
  unfolding get_entry
  get_entry-put j k v c = ap or_null (find-put k j v c.entries) ∙ or_null-if (k == j) _ _

  get_entry-erase :
      (j k : String) (c : Cache)
      → get_entry j (record c { entries = erase k c.entries })
        ≡ (if k == j then null else get_entry j c)
  unfolding get_entry
  get_entry-erase j k c = ap or_null (find-erase k j c.entries) ∙ or_null-if (k == j) _ _

  get_entry-on_notice :
      (n : Notice) (c : Cache) (j : String)
      → get_entry j (on_notice n c) ≡ follow n (λ k. get_entry k c) j
  unfolding on_notice
  get_entry-on_notice n c j = ground (
    arith,
    get_entry-call_cb j c.change_cb n.path n.value
        (record c { entries = put n.path n.value c.entries }),
    get_entry-call_cb j c.add_cb n.path n.value
        (record c { entries = put n.path n.value c.entries }),
    get_entry-call_cb j c.remove_cb n.path n.value (record c { entries = erase n.path c.entries }),
    get_entry-put j n.path n.value c,
    get_entry-erase j n.path c,
  )

  fetch_cb_lem :
      (v : Value) (n : Notice) (c : Cache)
      → kind v ≡ Kind.object_value
      → read_notice v ≡ some n
      → fetch_cb v (pos 0) c ≡ (ok tt, on_notice n c)
  unfolding fetch_cb
  fetch_cb_lem v n c is_object reads = rw (is_object, reads)

  follow_all-cong :
      (ns : List Notice) (f g : View) (j : String)
      → ((k : String) → f k ≡ g k)
      → follow_all ns f j ≡ follow_all ns g j
  follow_all-cong [] f g j h = h j
  follow_all-cong (n ∷ rest) f g j h =
      follow_all-cong rest (follow n f) (follow n g) j (λ k. ground (arith, h k))

  -- After any notifications that can be read, `getEntry` gives for every path what one gets by
  -- following them from what it gave before: the value of the last one that adds or changes the
  -- state, and null behind one that removes it.
  pub get_entry-deliver_all :
      (vs : List Value) (ns : List Notice) (c : Cache) (j : String)
      → Say vs ns
      → get_entry j (deliver_all vs c) ≡ follow_all ns (λ k. get_entry k c) j
  get_entry-deliver_all [] [] c j says = refl
  get_entry-deliver_all [] (n ∷ ns) c j says = absurd says
  get_entry-deliver_all (v ∷ vs) [] c j says = absurd says
  get_entry-deliver_all (v ∷ vs) (n ∷ ns) c j (is_object, reads, says) =
      ap (λ r. get_entry j (deliver_all vs r.1)) (fetch_cb_lem v n c is_object reads)
      ∙ get_entry-deliver_all vs ns (on_notice n c) j says
      ∙ follow_all-cong ns (λ k. get_entry k (on_notice n c)) (follow n (λ k. get_entry k c)) j
          (λ k. get_entry-on_notice n c k)
