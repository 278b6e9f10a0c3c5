-- ===== src/Defines/Entries.antt =====
-- The entries of jsoncpprpcException (lib/jsoncpprpc_exception.cpp): an error for each item, which
-- stands in the data object under the name of the item.
pub mod Reads
use jetpeer_cpp.Base.{ℤ, String, Option, none, some, List, [], ◌∷◌, minus_one, string_eq}
use jetpeer_cpp.Base.Table.{Table, put}
use jetpeer_cpp.Platform.{Platform, Value}
use jetpeer_cpp.Defines.Failure.{JsoncppRpcException}
use jetpeer_cpp.Defines.Rpc

pub record DataEntry : Type 0 where
  pub code : ℤ
  pub message : String

abbrev pub DataEntries : Type 0
DataEntries = Table String DataEntry

module _ ⦃P : Platform⦄ where
  open P use {null, of_int, of_string, set, member, members, as_int, as_string}

  abbrev pub item_of : DataEntry → Value
  item_of e = set (set null Rpc.code (of_int e.code)) Rpc.message (of_string e.message)

  unfoldable pub set_entries : DataEntries → Value → Value
  set_entries [] v = v
  set_entries ((name, entry) ∷ rest) v = set_entries rest (set v name (item_of entry))

  -- jsoncpprpcException(data); it leaves m_what empty.
  unfoldable pub of_entries : DataEntries → JsoncppRpcException
  unfolding set_entries
  of_entries data_entries = record {
    code = minus_one;
    message = "see data object for details";
    what = "";
    data_obj = set_entries data_entries null;
  }

  infixl 5 ◌>>=◌
  abbrev ◌>>=◌ : {A B : Type 0} → Option A → (A → Option B) → Option B
  none >>= f = none
  some a >>= f = f a

  unfoldable pub read_entry : Value → Option DataEntry
  read_entry entry_node = do
    code_node ← member entry_node Rpc.code
    code ← as_int code_node
    message_node ← member entry_node Rpc.message
    message ← as_string message_node
    some (record { code = code; message = message })

  unfoldable pub read_entries : List (String × Value) → DataEntries → Option DataEntries
  unfolding read_entry
  read_entries [] entries = some entries
  read_entries ((name, node) ∷ rest) entries = do
    entry ← read_entry node
    read_entries rest (put name entry entries)

  -- dataEntries; it is `noexcept`, and `none` is that the program is terminated.
  unfoldable pub data_entries : JsoncppRpcException → Option DataEntries
  unfolding read_entries
  data_entries e = read_entries (members e.data_obj) []
