-- ===== src/Base/Text.antt =====
-- `std::string`: joining texts, and `std::to_string` of a number.
use Prim.Native.Nat.{ℕ, zero, suc, ◌/◌, ◌%◌}
use Prim.Native.String.{String}
use Prim.Native.String
use mathlib.Core.Bool.{Bool}
use jetpeer_cpp.Base.Tests.{◌==◌, nat_eq, string_eq, if◌then◌else◌, ltb}
use jetpeer_cpp.Base.Int.{ℤ, pos, negsuc}

infixr 65 ◌<>◌
abbrev pub ◌<>◌ : String → String → String
a <> b = String.◌++◌ a b

abbrev pub str_empty : String → Bool
str_empty s = s == ""

abbrev digit : ℕ → String
digit n =
    if n == 0
    then "0"
    else if n == 1
    then "1"
    else if n == 2
    then "2"
    else if n == 3
    then "3"
    else if n == 4
    then "4"
    else if n == 5
    then "5"
    else if n == 6
    then "6"
    else if n == 7
    then "7"
    else if n == 8
    then "8"
    else "9"

-- A number is shorter than itself in digits, so `suc n` rounds are enough.
digits : ℕ → ℕ → String
digits zero n = ""
digits (suc f) n =
    let rest = digits f (n / 10) in if ltb n 10 then digit n else rest <> digit (n % 10)

unfoldable pub to_string : ℕ → String
unfolding digits
to_string n = digits (suc n) n

unfoldable pub int_to_string : ℤ → String
unfolding to_string
int_to_string (pos n) = to_string n
int_to_string (negsuc n) = "-" <> to_string (suc n)
