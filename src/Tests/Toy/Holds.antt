-- ===== src/Tests/Toy/Holds.antt =====
-- The platform of the tests keeps the laws that the theorems rely on.
use jetpeer_cpp.Base.{
  ℕ, zero, suc, ◌≤◌, ◌<◌, String, List, [], ◌∷◌, ◌++◌, Option, none, some, Bool, true, ◌≡◌, ◌≢◌,
  ◌∙◌, ap, refl, arith, if◌then◌else◌, ◌==◌, string_eq, nat_eq, length, min,
}
use jetpeer_cpp.Platform.{Kind, Reply, indexable}
use jetpeer_cpp.Base.Table.{find, find-erase, find-erase_self}
use jetpeer_cpp.Base.Table.Unique.{IsUnique, erase-IsUnique}
use jetpeer_cpp.Platform.Laws.{JsonLaws, IntLaws, ObjectLaws, SocketLaws, IsSteady, IsReliable}
use jetpeer_cpp.Tests.Toy.{
  Json, Fields, nil, int, uint, text, bool, object, array, no_field, field, kind_of, lookup,
  put_field, fields_of, members_of, is_some, or_nil, member_of, has_member, set_member, Wire, take,
  drop, deliver, platform,
}

length-take : (n : ℕ) (xs : List ℕ) → length (take n xs) ≤ n
length-take zero xs = omega arith
length-take (suc n) [] = omega arith
length-take (suc n) (x ∷ xs) = omega (arith, length-take n xs)

take-drop : (n : ℕ) (xs : List ℕ) → xs ≡ take n xs ++ drop n xs
take-drop zero xs = refl
take-drop (suc n) [] = refl
take-drop (suc n) (x ∷ xs) = cc (take-drop n xs)

take-positive : (n : ℕ) (x : ℕ) (xs : List ℕ) → 0 < n → 0 < length (take n (x ∷ xs))
take-positive zero x xs h = absurd (omega arith)
take-positive (suc n) x xs h = omega arith

kind-set_lem :
    (v x : Json) (k : String)
    → indexable (kind_of v) ≡ true
    → kind_of (set_member v k x) ≡ Kind.object_value
kind-set_lem nil x k h = refl
kind-set_lem (object fs) x k h = refl
kind-set_lem (int z) x k h = absurd (cc h)
kind-set_lem (uint n) x k h = absurd (cc h)
kind-set_lem (text s) x k h = absurd (cc h)
kind-set_lem (bool b) x k h = absurd (cc h)
kind-set_lem (array r) x k h = absurd (cc h)

lookup-put_field :
    (k j : String) (x : Json) (fs : Fields)
    → lookup j (put_field k x fs) ≡ (if k == j then some x else lookup j fs)
lookup-put_field k j x no_field = refl
lookup-put_field k j x (field i y fs) = ground (
  arith,
  string_eq.equals_iff i k,
  string_eq.equals_iff i j,
  string_eq.equals_iff k j,
  lookup-put_field k j x fs,
)

member_put :
    (k j : String) (x : Json) (fs : Fields)
    → some (or_nil (lookup j (put_field k x fs)))
      ≡ (if k == j then some x else some (or_nil (lookup j fs)))
member_put k j x fs = ground (arith, lookup-put_field k j x fs)

member-set_lem :
    (v x : Json) (k j : String)
    → indexable (kind_of v) ≡ true
    → member_of (set_member v k x) j ≡ (if k == j then some x else member_of v j)
member-set_lem nil x k j h = ground arith
member-set_lem (object fs) x k j h = member_put k j x fs
member-set_lem (int z) x k j h = absurd (cc h)
member-set_lem (uint n) x k j h = absurd (cc h)
member-set_lem (text s) x k j h = absurd (cc h)
member-set_lem (bool b) x k j h = absurd (cc h)
member-set_lem (array r) x k j h = absurd (cc h)

has_member-set_lem :
    (v x : Json) (k j : String)
    → indexable (kind_of v) ≡ true
    → has_member (set_member v k x) j ≡ (if k == j then true else has_member v j)
has_member-set_lem nil x k j h = ground arith
has_member-set_lem (object fs) x k j h = ground (arith, lookup-put_field k j x fs)
has_member-set_lem (int z) x k j h = absurd (cc h)
has_member-set_lem (uint n) x k j h = absurd (cc h)
has_member-set_lem (text s) x k j h = absurd (cc h)
has_member-set_lem (bool b) x k j h = absurd (cc h)
has_member-set_lem (array r) x k j h = absurd (cc h)

pub json_laws : (takes : Bool) (known : List Json) → JsonLaws ⦃P = platform takes known⦄
json_laws takes known = record {
  kind-null = refl;
  kind-of_int = λ z. refl;
  kind-of_uint = λ n. refl;
  kind-of_string = λ s. refl;
  kind-empty_object = refl;
  kind-set = kind-set_lem;
  member-null = λ k. refl;
  member-empty_object = λ k. refl;
  member-set = member-set_lem;
  is_member-null = λ k. refl;
  is_member-set = has_member-set_lem;
  as_int-of_int = λ z. refl;
  as_uint-of_uint = λ n. refl;
  as_string-of_string = λ s. refl;
}

pub int_laws : (takes : Bool) (known : List Json) → IntLaws ⦃P = platform takes known⦄
int_laws takes known = record { is_int-null = refl; is_int-of_int = λ z fits. refl }

fields_of-IsUnique : (fs : Fields) → IsUnique (fields_of fs)
fields_of-IsUnique no_field = tt
fields_of-IsUnique (field k x rest) = (
  find-erase_self k (fields_of rest),
  erase-IsUnique k (fields_of rest) (fields_of-IsUnique rest),
)

find-fields_of : (fs : Fields) (k : String) → find k (fields_of fs) ≡ lookup k fs
unfolding find
find-fields_of no_field k = refl
find-fields_of (field j x rest) k =
    ground (arith, find-erase j k (fields_of rest), find-fields_of rest k, string_eq.equals_iff j k)

members_of-IsUnique : (v : Json) → indexable (kind_of v) ≡ true → IsUnique (members_of v)
members_of-IsUnique nil h = tt
members_of-IsUnique (object fs) h = fields_of-IsUnique fs
members_of-IsUnique (int z) h = absurd (cc h)
members_of-IsUnique (uint n) h = absurd (cc h)
members_of-IsUnique (text s) h = absurd (cc h)
members_of-IsUnique (bool b) h = absurd (cc h)
members_of-IsUnique (array r) h = absurd (cc h)

where_some : (o : Option Json) → o ≡ (if is_some o then some (or_nil o) else none)
where_some none = refl
where_some (some x) = refl

find-members_of :
    (v : Json) (k : String)
    → indexable (kind_of v) ≡ true
    → find k (members_of v) ≡ (if has_member v k then member_of v k else none)
unfolding find
find-members_of nil k h = refl
find-members_of (object fs) k h = find-fields_of fs k ∙ where_some (lookup k fs)
find-members_of (int z) k h = absurd (cc h)
find-members_of (uint n) k h = absurd (cc h)
find-members_of (text s) k h = absurd (cc h)
find-members_of (bool b) k h = absurd (cc h)
find-members_of (array r) k h = absurd (cc h)

pub object_laws : (takes : Bool) (known : List Json) → ObjectLaws ⦃P = platform takes known⦄
object_laws takes known = record {
  members-IsUnique = members_of-IsUnique;
  find-members = find-members_of;
}

pub deliver-got :
    (held : List ℕ) (s t : Wire) (n : ℕ) (bytes : List ℕ)
    → 0 < n
    → s.held ≡ held
    → deliver n held s ≡ (Reply.got bytes, t)
    → (0 < length bytes) × (length bytes ≤ n) × (s.held ≡ bytes ++ t.held)
deliver-got [] s t n bytes h same e = absurd (cc e)
deliver-got (b ∷ bs) s t n bytes h same e =
    let k = min n (suc s.piece) in
    let taken : take k (b ∷ bs) ≡ bytes = cc e in
    let left : drop k (b ∷ bs) ≡ t.held = cc e in
    (
      rw (← taken) (take-positive k b bs (omega arith)),
      rw (← taken) (omega (arith, length-take k (b ∷ bs))),
      same ∙ take-drop k (b ∷ bs) ∙ cc (taken, left),
    )

pub deliver-blocks :
    (held : List ℕ) (s t : Wire) (n : ℕ)
    → s.held ≡ held
    → deliver n held s ≡ (Reply.would_block, t)
    → (length held ≡ 0) × (length t.held ≡ 0)
deliver-blocks [] s t n same e = let st : s ≡ t = cc e in (refl, rw (← st) (ap length same))
deliver-blocks (b ∷ bs) s t n same e = absurd (cc e)

deliver-goes_on :
    (held : List ℕ) (s : Wire) (n : ℕ)
    → ((deliver n held s).0 ≢ Reply.closed) × ((deliver n held s).0 ≢ Reply.failed)
deliver-goes_on [] s n = (λ e. cc e, λ e. cc e)
deliver-goes_on (b ∷ bs) s n = (λ e. cc e, λ e. cc e)

unfoldable pub socket_laws :
    (takes : Bool) (known : List Json) → SocketLaws ⦃P = platform takes known⦄
socket_laws takes known = record {
  pending = λ s. s.held;
  receive-got = λ s t n bytes h e. deliver-got s.held s t n bytes h refl e;
  receive-would_block = λ s t n e. deliver-blocks s.held s t n refl e;
  pending-send_blocks = λ s bytes. refl;
}

pub steady : (takes : Bool) (known : List Json) → IsSteady ⦃P = platform takes known⦄
steady takes known = record {
  never_closed = λ s n. (deliver-goes_on s.held s n).0;
  never_failed = λ s n. (deliver-goes_on s.held s n).1;
}

pub reliable : (known : List Json) → IsReliable ⦃P = platform true known⦄
reliable known = record { never_refused = λ s bytes. refl }
