-- ===== src/Platform/Laws.antt =====
-- What the development relies on of jsoncpp and of the socket, as they document it. A theorem that
-- needs a law takes the record as a hypothesis.
use jetpeer_cpp.Base.{
  ℕ, ℤ, pos, negsuc, ◌^◌, ◌<◌, ◌≤◌, String, List, ◌++◌, none, some, true, false, ◌≡◌, ◌≢◌, ◌==◌,
  if◌then◌else◌, length, string_eq,
}
use jetpeer_cpp.Base.Table.{find}
use jetpeer_cpp.Base.Table.Unique.{IsUnique}
use jetpeer_cpp.Platform.{Platform, Value, Socket, Kind, Reply, indexable}

-- The range of int.
abbrev pub FitsInt : ℤ → Type 0
FitsInt (pos n) = n < 2 ^ 31
FitsInt (negsuc n) = n < 2 ^ 31

module _ ⦃P : Platform⦄ where
  open P use {
    is_int, null, of_int, of_uint, of_string, of_bool, empty_object, kind, member, set, is_member,
    as_int, as_uint, as_string, members, receive, send_blocks,
  }

  -- Json::Value
  pub record JsonLaws : Type 0 where
    pub kind-null : kind null ≡ Kind.null_value
    pub kind-of_int : (z : ℤ) → kind (of_int z) ≡ Kind.int_value
    pub kind-of_uint : (n : ℕ) → kind (of_uint n) ≡ Kind.uint_value
    pub kind-of_string : (s : String) → kind (of_string s) ≡ Kind.string_value
    pub kind-empty_object : kind empty_object ≡ Kind.object_value
    pub kind-set :
        (v x : Value) (k : String)
        → indexable (kind v) ≡ true
        → kind (set v k x) ≡ Kind.object_value
    pub member-null : (k : String) → member null k ≡ some null
    pub member-empty_object : (k : String) → member empty_object k ≡ some null
    pub member-set :
        (v x : Value) (k j : String)
        → indexable (kind v) ≡ true
        → member (set v k x) j ≡ (if k == j then some x else member v j)
    pub is_member-null : (k : String) → is_member null k ≡ false
    pub is_member-set :
        (v x : Value) (k j : String)
        → indexable (kind v) ≡ true
        → is_member (set v k x) j ≡ (if k == j then true else is_member v j)
    pub as_int-of_int : (z : ℤ) → as_int (of_int z) ≡ some z
    pub as_uint-of_uint : (n : ℕ) → as_uint (of_uint n) ≡ some n
    pub as_string-of_string : (s : String) → as_string (of_string s) ≡ some s

  -- Json::Value::isInt: a whole number within the range of int.
  pub record IntLaws : Type 0 where
    pub is_int-null : is_int null ≡ false
    pub is_int-of_int : (z : ℤ) → FitsInt z → is_int (of_int z) ≡ true

  -- Json::ValueConstIterator visits each member of an object once.
  pub record ObjectLaws : Type 0 where
    pub members-IsUnique : (v : Value) → indexable (kind v) ≡ true → IsUnique (members v)
    pub find-members :
        (v : Value) (k : String)
        → indexable (kind v) ≡ true
        → find k (members v) ≡ (if is_member v k then member v k else none)

  -- A stream socket. `pending` are the bytes that arrive before the next call that would block.
  pub record SocketLaws : Type 0 where
    pub pending : Socket → List ℕ
    pub receive-got :
        (s t : Socket) (n : ℕ) (bytes : List ℕ)
        → 0 < n
        → receive s n ≡ (Reply.got bytes, t)
        → (0 < length bytes) × (length bytes ≤ n) × (pending s ≡ bytes ++ pending t)
    pub receive-would_block :
        (s t : Socket) (n : ℕ)
        → receive s n ≡ (Reply.would_block, t)
        → (length (pending s) ≡ 0) × (length (pending t) ≡ 0)
    pub pending-send_blocks :
        (s : Socket) (bytes : List ℕ) → pending (send_blocks s bytes).1 ≡ pending s

  -- Bytes that come in later.
  pub record ArrivalLaws (laws : SocketLaws) (arrive : List ℕ → Socket → Socket) : Type 0 where
    pub pending-arrive :
        (bytes : List ℕ) (s : Socket) → laws.pending (arrive bytes s) ≡ laws.pending s ++ bytes

  -- A connection that the other side neither closes nor breaks.
  pub record IsSteady : Type 0 where
    pub never_closed : (s : Socket) (n : ℕ) → (receive s n).0 ≢ Reply.closed
    pub never_failed : (s : Socket) (n : ℕ) → (receive s n).0 ≢ Reply.failed

  -- A socket that takes all that it is given.
  pub record IsReliable : Type 0 where
    pub never_refused : (s : Socket) (bytes : List ℕ) → (send_blocks s bytes).0 ≡ none
