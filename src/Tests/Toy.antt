-- ===== src/Tests/Toy.antt =====
-- A platform that runs: values of JSON with members in a list, and a socket that delivers the bytes
-- that it holds in pieces. It stands for no code of the repository.
pub mod Holds
use Prim.Native.Char.{code}
use Prim.Native.String.{[] as empty_text, ◌∷◌ as ◌∷ₛ◌}
use jetpeer_cpp.Base.{
  ℕ, zero, suc, ◌≤◌, ◌<◌, ℤ, pos, negsuc, String, ◌<>◌, to_string, int_to_string, List, [], ◌∷◌,
  ◌++◌, Option, none, some, Bool, true, false, ◌≡◌, ◌≢◌, ◌∙◌, refl, arith, if◌then◌else◌, ◌==◌,
  string_eq, nat_eq, length, min,
}
use jetpeer_cpp.Base.Table.{Table, erase}
use jetpeer_cpp.Platform.{Platform, Kind, Reply, indexable}
use jetpeer_cpp.Platform.Laws.{JsonLaws, SocketLaws, IsSteady, IsReliable}

mutual
  pub data Json : Type 0 where
    nil : Json
    int : ℤ → Json
    uint : ℕ → Json
    text : String → Json
    bool : Bool → Json
    object : Fields → Json
    array : Items → Json

  pub data Fields : Type 0 where
    no_field : Fields
    field : String → Json → Fields → Fields

  pub data Items : Type 0 where
    no_item : Items
    item : Json → Items → Items

abbrev kind_of : Json → Kind
kind_of nil = Kind.null_value
kind_of (int _) = Kind.int_value
kind_of (uint _) = Kind.uint_value
kind_of (text _) = Kind.string_value
kind_of (bool _) = Kind.boolean_value
kind_of (object _) = Kind.object_value
kind_of (array _) = Kind.array_value

abbrev pub lookup : String → Fields → Option Json
lookup k no_field = none
lookup k (field j x fs) = if j == k then some x else lookup k fs

abbrev put_field : String → Json → Fields → Fields
put_field k x no_field = field k x no_field
put_field k x (field j y fs) = if j == k then field k x fs else field j y (put_field k x fs)

abbrev pub or_nil : Option Json → Json
or_nil none = nil
or_nil (some x) = x

abbrev pub is_some : Option Json → Bool
is_some none = false
is_some (some x) = true

abbrev member_of : Json → String → Option Json
member_of nil k = some nil
member_of (object fs) k = some (or_nil (lookup k fs))
member_of _ k = none

abbrev has_member : Json → String → Bool
has_member (object fs) k = is_some (lookup k fs)
has_member _ k = false

abbrev set_member : Json → String → Json → Json
set_member nil k x = object (field k x no_field)
set_member (object fs) k x = object (put_field k x fs)
set_member v k x = v

abbrev add_item : Json → Items → Items
add_item x no_item = item x no_item
add_item x (item y r) = item y (add_item x r)

abbrev append_to : Json → Json → Json
append_to nil x = array (item x no_item)
append_to (array r) x = array (add_item x r)
append_to v x = v

abbrev items_of : Items → List Json
items_of no_item = []
items_of (item x r) = x ∷ items_of r

abbrev elements_of : Json → List Json
elements_of (array r) = items_of r
elements_of _ = []

-- Of two fields with one key the first counts.
abbrev pub fields_of : Fields → Table String Json
fields_of no_field = []
fields_of (field k x rest) = (k, x) ∷ erase k (fields_of rest)

abbrev pub members_of : Json → Table String Json
members_of (object fs) = fields_of fs
members_of _ = []

abbrev as_int_of : Json → Option ℤ
as_int_of (int z) = some z
as_int_of (uint n) = some (pos n)
as_int_of _ = none

abbrev as_uint_of : Json → Option ℕ
as_uint_of (int (pos n)) = some n
as_uint_of (uint n) = some n
as_uint_of nil = some 0
as_uint_of _ = none

abbrev as_string_of : Json → Option String
as_string_of (text s) = some s
as_string_of nil = some ""
as_string_of _ = none

abbrev is_int_of : Json → Bool
is_int_of (int _) = true
is_int_of (uint _) = true
is_int_of _ = false

abbrev quoted : String → String
quoted s = "\"" <> (s <> "\"")

abbrev mutual
  show : Json → String
  show nil = "null"
  show (int z) = int_to_string z
  show (uint n) = to_string n
  show (text s) = quoted s
  show (bool true) = "true"
  show (bool false) = "false"
  show (object fs) = "{" <> show_fields fs
  show (array r) = "[" <> show_items r

  show_fields : Fields → String
  show_fields no_field = "}"
  show_fields (field k x fs) = quoted k <> (":" <> (show x <> ("," <> show_fields fs)))

  show_items : Items → String
  show_items no_item = "]"
  show_items (item x r) = show x <> ("," <> show_items r)

abbrev bytes_of : String → List ℕ
bytes_of empty_text = []
bytes_of (c ∷ₛ s) = code c ∷ bytes_of s

pub record Wire : Type 0 where
  pub connects : Bool
  pub piece : ℕ
  pub held : List ℕ

abbrev pub take : ℕ → List ℕ → List ℕ
take zero xs = []
take (suc n) [] = []
take (suc n) (x ∷ xs) = x ∷ take n xs

abbrev pub drop : ℕ → List ℕ → List ℕ
drop zero xs = xs
drop (suc n) [] = []
drop (suc n) (x ∷ xs) = drop n xs

abbrev deliver : ℕ → List ℕ → Wire → Reply × Wire
deliver n [] s = (Reply.would_block, s)
deliver n (b ∷ bs) s =
    let k = min n (suc s.piece) in
    (Reply.got (take k (b ∷ bs)), record s { held = drop k (b ∷ bs) })

abbrev same_bytes : List ℕ → List ℕ → Bool
same_bytes [] [] = true
same_bytes (x ∷ xs) (y ∷ ys) = if x == y then same_bytes xs ys else false
same_bytes _ _ = false

-- The reader knows the texts of these values.
abbrev read : List Json → List ℕ → Option Json
read [] bytes = none
read (v ∷ rest) bytes = if same_bytes (bytes_of (show v)) bytes then some v else read rest bytes

-- A socket refuses to send where `takes` is false.
abbrev pub platform : Bool → List Json → Platform
platform takes known = record {
  Value = Json;
  Double = ℕ;
  null = nil;
  of_int = int;
  of_uint = uint;
  of_double = uint;
  of_string = text;
  of_bool = bool;
  empty_object = object no_field;
  empty_array = array no_item;
  kind = kind_of;
  member = member_of;
  set = set_member;
  is_member = has_member;
  append = append_to;
  elements = elements_of;
  members = members_of;
  as_int = as_int_of;
  as_uint = as_uint_of;
  as_string = as_string_of;
  is_int = is_int_of;
  styled = show;
  write = λ v. bytes_of (show v);
  parse = read known;
  internal_error = negsuc 32602;
  Socket = Wire;
  connect_tcp = λ s address port. (s.connects, s);
  connect_unix = λ s address. (s.connects, s);
  disconnect = λ s. record s { held = [] };
  receive = λ s n. deliver n s.held s;
  send_blocks = λ s bytes. (if takes then none else some "Broken pipe", s);
  took = λ s bytes. 2;
}
