-- ===== src/Platform.antt =====
-- What the peer uses and the repository does not implement: jsoncpp's `Json::Value`, its reader and
-- writer, and libhbk's `SocketNonblocking`. They are the fields of a record, which the whole model
-- takes as an instance argument. `Platform/Laws.antt` states what is relied on.
pub mod Laws
pub mod Objects
use jetpeer_cpp.Base.{ℕ, ℤ, String, List, Option, none, some, Bool, true, false}

-- Json::ValueType
pub data Kind : Type 0 where
  null_value int_value uint_value real_value string_value : Kind
  boolean_value array_value object_value : Kind

-- What one call of `SocketNonblocking::receive` gives: bytes, `EWOULDBLOCK`, 0, or another error.
pub data Reply : Type 0 where
  got : List ℕ → Reply
  would_block closed failed : Reply

pub record Platform : Type 1 where
  pub Value : Type 0
  pub Double : Type 0
  -- Json::Value()
  pub null : Value
  pub of_int : ℤ → Value
  pub of_uint : ℕ → Value
  pub of_double : Double → Value
  pub of_string : String → Value
  pub of_bool : Bool → Value
  -- Json::Value(Json::objectValue), Json::Value(Json::arrayValue)
  pub empty_object : Value
  pub empty_array : Value
  -- v.type()
  pub kind : Value → Kind
  -- v[key] of a constant value; `none` is the exception Json::LogicError
  pub member : Value → String → Option Value
  -- v[key] = x
  pub set : Value → String → Value → Value
  pub is_member : Value → String → Bool
  pub append : Value → Value → Value
  -- the elements that a range-based `for` visits
  pub elements : Value → List Value
  -- the keys, as `iter.key().asString()` gives them, and the values that a ValueConstIterator visits
  pub members : Value → List (String × Value)
  -- `none` is the exception Json::LogicError
  pub as_int : Value → Option ℤ
  pub as_uint : Value → Option ℕ
  pub as_string : Value → Option String
  pub is_int : Value → Bool
  -- v.toStyledString()
  pub styled : Value → String
  -- Json::writeString without indentation, as bytes
  pub write : Value → List ℕ
  -- CharReader::parse; `none` where it returns false
  pub parse : List ℕ → Option Value
  -- hbk::jsonrpc::internalError
  pub internal_error : ℤ
  -- SocketNonblocking
  pub Socket : Type 0
  pub connect_tcp : Socket → String → ℕ → Bool × Socket
  pub connect_unix : Socket → String → Bool × Socket
  pub disconnect : Socket → Socket
  pub receive : Socket → ℕ → Reply × Socket
  -- sendBlocks: `some e` where it fails with the message e of `errno`
  pub send_blocks : Socket → List ℕ → Option String × Socket
  -- how many of the bytes were taken before sendBlocks failed
  pub took : Socket → List ℕ → ℕ

abbrev pub Value : ⦃P : Platform⦄ → Type 0
Value ⦃P⦄ = P.Value

abbrev pub Double : ⦃P : Platform⦄ → Type 0
Double ⦃P⦄ = P.Double

abbrev pub Socket : ⦃P : Platform⦄ → Type 0
Socket ⦃P⦄ = P.Socket

-- Const access by a key is defined on these two kinds; on others it throws.
abbrev pub indexable : Kind → Bool
indexable Kind.null_value = true
indexable Kind.object_value = true
indexable _ = false

module _ ⦃P : Platform⦄ where
  open P use {null, kind, member, set}

  -- v.isNull(), and the negation of `if (v)`
  abbrev pub is_null : Value → Bool
  is_null v = elim (kind v) [ Kind.null_value ↦ true | _ ↦ false ]

  abbrev pub or_null : Option Value → Value
  or_null none = null
  or_null (some x) = x

  -- v[key] of a value that was built as null or an object: missing members read as null.
  abbrev pub at : Value → String → Value
  at v key = or_null (member v key)

  -- v[key1][key2] = x
  abbrev pub set_in : Value → String → String → Value → Value
  set_in v key1 key2 x = set v key1 (set (at v key1) key2 x)
