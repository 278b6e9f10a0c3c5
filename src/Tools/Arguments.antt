-- ===== src/Tools/Arguments.antt =====
-- The beginning of main in the tools: the address, the port, and what a path must contain.
use jetpeer_cpp.Base.{
  ℕ, zero, suc, ◌-◌, ◌%◌, ◌^◌, ℤ, pos, negsuc, String, Option, none, some, List, [], ◌∷◌, Bool,
  false, if◌then◌else◌, ◌==◌, nat_eq, string_eq, length,
}
use jetpeer_cpp.Defines.{Matcher, default_matcher}

pub record Arguments : Type 0 where
  pub address : String
  pub port : ℕ
  -- basename(argv[0]); the branch without Windows
  pub program : String
  pub match : Matcher

-- JETD_TCP_PORT, JET_UNIX_DOMAIN_SOCKET_NAME, and the address of this machine
abbrev pub tcp_port : ℕ
tcp_port = 11122

abbrev pub socket_name : String
socket_name = "/var/run/jet.socket"

abbrev pub local_address : String
local_address = "127.0.0.1"

-- argv[k], where argc is above k
abbrev pub argument : ℕ → List String → Option String
argument k [] = none
argument zero (a ∷ rest) = some a
argument (suc k) (a ∷ rest) = argument k rest

-- An int as an unsigned int.
abbrev pub to_unsigned : ℤ → ℕ
to_unsigned (pos n) = n % 2 ^ 32
to_unsigned (negsuc n) = 2 ^ 32 - 1 - n % 2 ^ 32

abbrev pub or_default : {A : Type 0} → A → Option A → A
or_default d none = d
or_default d (some a) = a

abbrev pub is_help : Option String → Bool
is_help none = false
is_help (some a) = a == "-h"

-- argc==2, and argv[1] is "-h"
abbrev pub asks_help : List String → Bool
asks_help argv = if length argv == 2 then is_help (argument 1 argv) else false

abbrev pub containing : Option String → Matcher
containing none = default_matcher
containing (some text) = record default_matcher { contains = text }

module _ (atoi : String → ℤ) (basename : String → String) where
  abbrev port_of : Option String → Option ℕ
  port_of none = none
  port_of (some text) = some (to_unsigned (atoi text))

  -- `none` where the syntax is printed.
  abbrev read_arguments : String → ℕ → List String → Option Arguments
  read_arguments address port argv =
      if asks_help argv
      then none
      else some (record {
        address = or_default address (argument 1 argv);
        port = or_default port (port_of (argument 2 argv));
        program = basename (or_default "" (argument 0 argv));
        match = containing (argument 3 argv);
      })

  unfoldable pub cat_arguments : List String → Option Arguments
  cat_arguments = read_arguments socket_name 0

  unfoldable pub external_arguments : List String → Option Arguments
  external_arguments = read_arguments socket_name 0

  unfoldable pub cache_arguments : List String → Option Arguments
  cache_arguments = read_arguments socket_name 0

  unfoldable pub catsync_arguments : List String → Option Arguments
  catsync_arguments = read_arguments local_address tcp_port

  unfoldable pub get_arguments : List String → Option Arguments
  get_arguments = read_arguments local_address tcp_port

  -- info declares a matcher too, and never sets it.
  unfoldable pub info_arguments : List String → Option Arguments
  info_arguments argv =
      if asks_help argv
      then none
      else some (record {
        address = or_default socket_name (argument 1 argv);
        port = or_default 0 (port_of (argument 2 argv));
        program = basename (or_default "" (argument 0 argv));
        match = default_matcher;
      })
