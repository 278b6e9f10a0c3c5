-- ===== src/Base/Int.antt =====
-- `int` as a signed number, and the wrap of `++` on a 32-bit counter.
use Prim.Native.Nat.{ℕ, ◌+◌, ◌-◌, ◌%◌, ◌^◌}
use mathlib.Core.Path.{◌≡◌}
use mathlib.Core.Logic.{◌↔◌}
use mathlib.Core.Bool.{Bool, true, false}
use native.Mathlib.Omega.{arith}
use jetpeer_cpp.Base.Tests.{HasEq, nat_eq, ◌==◌, if◌then◌else◌}

-- `negsuc n` is -(n + 1).
pub data ℤ : Type 0 where
  pos : ℕ → ℤ
  negsuc : ℕ → ℤ

abbrev int_beq : ℤ → ℤ → Bool
int_beq (pos a) (pos b) = a == b
int_beq (negsuc a) (negsuc b) = a == b
int_beq _ _ = false

pub int_beq_iff : (a b : ℤ) → (int_beq a b ≡ true) ↔ (a ≡ b)
int_beq_iff (pos a) (pos b) = ground arith
int_beq_iff (negsuc a) (negsuc b) = ground arith
int_beq_iff (pos a) (negsuc b) = (λ h. cc, λ h. cc)
int_beq_iff (negsuc a) (pos b) = (λ h. cc, λ h. cc)

instance abbrev pub int_eq : HasEq ℤ
int_eq = record { equals = int_beq; equals_iff = int_beq_iff }

abbrev pub minus_one : ℤ
minus_one = negsuc 0

-- `++` of an `unsigned int`.
abbrev pub next_uint32 : ℕ → ℕ
next_uint32 n = (n + 1) % 2 ^ 32

-- `++` of a `std::atomic<int>`, which wraps from INT_MAX to INT_MIN.
abbrev pub next_int32 : ℤ → ℤ
next_int32 (pos n) = if n == 2 ^ 31 - 1 then negsuc (2 ^ 31 - 1) else pos (n + 1)
next_int32 (negsuc n) = if n == 0 then pos 0 else negsuc (n - 1)
