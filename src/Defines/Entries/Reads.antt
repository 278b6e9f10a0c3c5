-- ===== src/Defines/Entries/Reads.antt =====
-- jsoncpprpcException: dataEntries reads what the constructor wrote.
use jetpeer_cpp.Base.{
  String, Option, none, some, List, [], ◌∷◌, Bool, true, false, ◌≡◌, ◌∙◌, ap, sym, refl, arith,
  if◌then◌else◌, ◌==◌, string_eq, if-cases, ==_refl,
}
use jetpeer_cpp.Base.Table.{find, put, find-put}
use jetpeer_cpp.Base.Table.Unique.{IsUnique}
use jetpeer_cpp.Platform.{Platform, Value, indexable}
use jetpeer_cpp.Platform.Laws.{JsonLaws, ObjectLaws}
use jetpeer_cpp.Platform.Objects.{
  indexable-null, indexable-set, member-set_self, member-set_ne, is_member-set_self,
  is_member-set_ne,
}
use jetpeer_cpp.Defines.Entries.{
  DataEntry, DataEntries, item_of, set_entries, of_entries, read_entry, read_entries, data_entries,
}
use jetpeer_cpp.Defines.Rpc

module _ ⦃P : Platform⦄ (laws : JsonLaws) where
  open P use {null, of_int, of_string, set, kind, member, members, is_member, as_int, as_string}

  -- What is written of an entry can be read.
  read_entry-item_of : (e : DataEntry) → read_entry (item_of e) ≡ some e
  unfolding read_entry
  read_entry-item_of e =
      let v = set null Rpc.code (of_int e.code) in
      let i : indexable (kind v) ≡ true =
        indexable-set laws null (of_int e.code) Rpc.code (indexable-null laws) in
      let code : member (item_of e) Rpc.code ≡ some (of_int e.code) =
        member-set_ne laws v (of_string e.message) Rpc.message Rpc.code i refl
        ∙ member-set_self laws null (of_int e.code) Rpc.code (indexable-null laws) in
      let message : member (item_of e) Rpc.message ≡ some (of_string e.message) =
        member-set_self laws v (of_string e.message) Rpc.message i in
      rw (code, laws.as_int-of_int e.code, message, laws.as_string-of_string e.message)

  -- The data object has just the entries as members, next to what it had before.
  abbrev Writes : Value → DataEntries → String → Option DataEntry → Type 0
  Writes v t j none =
      (member (set_entries t v) j ≡ member v j) × (is_member (set_entries t v) j ≡ is_member v j)
  Writes v t j (some e) =
      (member (set_entries t v) j ≡ some (item_of e)) × (is_member (set_entries t v) j ≡ true)

  indexable-set_entries :
      (t : DataEntries) (v : Value)
      → indexable (kind v) ≡ true
      → indexable (kind (set_entries t v)) ≡ true
  unfolding set_entries
  indexable-set_entries [] v i = i
  indexable-set_entries ((k, e) ∷ t) v i =
      indexable-set_entries t _ (indexable-set laws v (item_of e) k i)

  Writes-cons :
      (k j : String) (e : DataEntry) (t : DataEntries) (v : Value) (b : Bool) (o : Option DataEntry)
      → indexable (kind v) ≡ true
      → (k == j) ≡ b
      → (b ≡ true → o ≡ none)
      → Writes (set v k (item_of e)) t j o
      → Writes v ((k, e) ∷ t) j (if b then some e else o)
  unfolding set_entries
  Writes-cons k j e t v true none i same h (m, p) =
      let kj : k ≡ j = (string_eq.equals_iff k j).0 same in
      (
        m ∙ ap (member (set v k (item_of e))) (sym kj) ∙ member-set_self laws v (item_of e) k i,
        p
            ∙ ap (is_member (set v k (item_of e))) (sym kj)
            ∙ is_member-set_self laws v (item_of e) k i,
      )
  Writes-cons k j e t v true (some x) i same h w = absurd (cc (h refl))
  Writes-cons k j e t v false none i other h (m, p) = (
    m ∙ member-set_ne laws v (item_of e) k j i other,
    p ∙ is_member-set_ne laws v (item_of e) k j i other,
  )
  Writes-cons k j e t v false (some x) i other h w = w

  set_entries-Writes :
      (t : DataEntries) (v : Value) (j : String)
      → IsUnique t
      → indexable (kind v) ≡ true
      → Writes v t j (find j t)
  unfolding set_entries find
  set_entries-Writes [] v j u i = (refl, refl)
  set_entries-Writes ((k, e) ∷ t) v j (fresh, u) i =
      Writes-cons k j e t v (k == j) (find j t) i refl
        (λ same. rw (← (string_eq.equals_iff k j).0 same) fresh)
        (set_entries-Writes t (set v k (item_of e)) j u (indexable-set laws v (item_of e) k i))

  -- What is read: of the members the entries that they say, and else what was there.
  abbrev kept : Option Value → Option DataEntry → Option DataEntry → Option DataEntry
  kept none said before = before
  kept (some node) said before = said

  abbrev Reads : List (String × Value) → DataEntries → DataEntries → Type 0
  Reads ms t before =
      (r : DataEntries) × (read_entries ms before ≡ some r)
      × ((j : String) → find j r ≡ kept (find j ms) (find j t) (find j before))

  read_entries-Reads :
      (ms : List (String × Value)) (t before : DataEntries)
      → IsUnique ms
      → ((j : String) (x : Value)
          → find j ms ≡ some x
          → (e : DataEntry) × (x ≡ item_of e) × (find j t ≡ some e))
      → Reads ms t before
  unfolding read_entries find
  read_entries-Reads [] t before u each = (before, refl, λ j. refl)
  read_entries-Reads ((k, x) ∷ ms) t before (fresh, u) each =
      let (e, written, said) = each k x (ap (λ b. if b then some x else find k ms) (==_refl k)) in
      let (r, read, reads) = read_entries-Reads ms t (put k e before) u (λ j y found. each j y (
        if-cases (λ o. o ≡ some y) (k == j)
          (λ same. absurd (ground (arith, same, string_eq.equals_iff k j, fresh, found)))
          (λ _. found))) in
      (
        r,
        rw (ap read_entry written ∙ read_entry-item_of e) read,
        λ j. reads j ∙ ground (arith, find-put k j e before, fresh, said, string_eq.equals_iff k j),
      )

  abbrev node_of : Option DataEntry → Option Value
  node_of none = none
  node_of (some e) = some (item_of e)

  node-Writes :
      (t : DataEntries) (j : String) (o : Option DataEntry)
      → Writes null t j o
      → (if is_member (set_entries t null) j then member (set_entries t null) j else none)
        ≡ node_of o
  node-Writes t j none (m, p) = rw (p, laws.is_member-null j) refl
  node-Writes t j (some e) (m, p) = rw (p, m) refl

  entry_at :
      (j : String) (x : Value) (t : DataEntries) (o : Option DataEntry)
      → find j t ≡ o
      → node_of o ≡ some x
      → (e : DataEntry) × (x ≡ item_of e) × (find j t ≡ some e)
  entry_at j x t none said e = absurd (cc e)
  entry_at j x t (some d) said e = (d, cc e, said)

  kept-node_of : (o : Option DataEntry) → kept (node_of o) o none ≡ o
  kept-node_of none = refl
  kept-node_of (some e) = refl

  -- An exception that is made of entries, of which no two have one name, gives them back:
  -- dataEntries does not terminate the program, and finds for each name the entry that was given
  -- for it, and no other. jsoncpp must keep its laws on values and on the members of objects.
  pub data_entries-of_entries :
      (objects : ObjectLaws) (t : DataEntries)
      → IsUnique t
      → (r : DataEntries) × (data_entries (of_entries t) ≡ some r)
        × ((j : String) → find j r ≡ find j t)
  unfolding data_entries of_entries find
  data_entries-of_entries objects t u =
      let v = set_entries t null in
      let i = indexable-set_entries t null (indexable-null laws) in
      let nodes : (j : String) → find j (members v) ≡ node_of (find j t) = λ j.
        objects.find-members v j i
        ∙ node-Writes t j (find j t) (set_entries-Writes t null j u (indexable-null laws)) in
      let (r, read, reads) =
        read_entries-Reads (members v) t [] (objects.members-IsUnique v i)
          (λ j x found. entry_at j x t (find j t) refl (sym (nodes j) ∙ found)) in
      (r, read, λ j. reads j ∙ ap (λ o. kept o (find j t) none) (nodes j) ∙ kept-node_of (find j t))
