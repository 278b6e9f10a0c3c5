-- ===== src/Defines.antt =====
-- include/jet/defines.h: the names of the protocol, results of callbacks, matchers and fetchers,
-- and the exceptions of lib/jsoncpprpc_exception.cpp. The keys of hbk::jsonrpc are spelled as in the
-- messages that defines.h shows.
pub mod Key
pub mod Verb
pub mod Rpc
pub mod Failure
pub mod Matching
pub mod Entries
pub mod Errors
use jetpeer_cpp.Base.{ℕ, ℤ, pos, String, List, [], Bool, false, Option, none}
use jetpeer_cpp.Platform.{Platform, Value}

-- MAX_MESSAGE_SIZE
abbrev pub max_message_size : ℕ
max_message_size = 262144

-- WARN_NONE
abbrev pub warn_none : ℤ
warn_none = pos 0

pub record SetStateResult : Type 0 where
  pub code : ℤ
  pub message : String

abbrev pub no_warning : SetStateResult
no_warning = record { code = warn_none; message = "" }

module _ ⦃P : Platform⦄ where
  pub record SetStateCbResult : Type 0 where
    pub value : Value
    pub result : SetStateResult

pub record Matcher : Type 0 where
  pub case_insensitive : Bool
  pub contains : String
  pub starts_with : String
  pub ends_with : String
  pub equals : String
  pub equals_not : String
  pub contains_all_of : List String

abbrev pub default_matcher : Matcher
default_matcher = record {
  case_insensitive = false;
  contains = "";
  starts_with = "";
  ends_with = "";
  equals = "";
  equals_not = "";
  contains_all_of = [];
}

-- A fetch callback is a number that names it; `none` is an empty std::function.
pub record Fetcher : Type 0 where
  pub callback : Option ℕ
  pub matcher : Matcher

abbrev pub default_fetcher : Fetcher
default_fetcher = record { callback = none; matcher = default_matcher }
