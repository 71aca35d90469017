-- ===== src/Prelude/Int.antt =====
-- The C++ `int`: signed integers over the native numbers, with the tests that the program makes and
-- an increment that wraps at INT_MAX the way a 32-bit two's complement machine does.
use Prim.Native.Nat.{ℕ, zero, suc, ◌+◌, ◌<◌}
use mathlib.Core.Path.{◌≡◌}
use mathlib.Core.Logic.{◌↔◌, ◌≢◌}
use mathlib.Core.Bool.{Bool, true, false}
use native.Mathlib.Omega.{arith}
use distributed_memory.Prelude.Tests.{ltb, nat_beq, if◌then◌else◌}

-- `negsuc n` is -(n + 1).
pub data ℤ : Type 0 where
  pos : ℕ → ℤ
  negsuc : ℕ → ℤ

abbrev pub int_beq : ℤ → ℤ → Bool
int_beq (pos m) (pos n) = nat_beq m n
int_beq (negsuc m) (negsuc n) = nat_beq m n
int_beq _ _ = false

abbrev pub ltb_ℤ : ℤ → ℤ → Bool
ltb_ℤ (pos m) (pos n) = ltb m n
ltb_ℤ (negsuc m) (negsuc n) = ltb n m
ltb_ℤ (negsuc _) (pos _) = true
ltb_ℤ (pos _) (negsuc _) = false

abbrev pub int_max : ℕ
int_max = 2147483647

-- `i + 1` for an `int`.
abbrev pub add_one : ℤ → ℤ
add_one (pos n) = if nat_beq n int_max then negsuc int_max else pos (n + 1)
add_one (negsuc zero) = pos 0
add_one (negsuc (suc n)) = negsuc n

pub int_beq_iff : (a b : ℤ) → (int_beq a b ≡ true) ↔ (a ≡ b)
int_beq_iff (pos m) (pos n) = ground arith
int_beq_iff (pos m) (negsuc n) = ground arith
int_beq_iff (negsuc m) (pos n) = ground arith
int_beq_iff (negsuc m) (negsuc n) = ground arith

pub add_one-pos : (n : ℕ) → n < int_max → add_one (pos n) ≡ pos (n + 1)
add_one-pos n h = ground arith

-- An increment is seen: the new number differs from the old one, also where it wraps.
pub add_one-ne : (a : ℤ) → add_one a ≢ a
add_one-ne (pos n) = ground arith
add_one-ne (negsuc zero) = λ e. cc
add_one-ne (negsuc (suc n)) = ground arith

pub ltb_ℤ-ne : (a b : ℤ) → ltb_ℤ a b ≡ true → a ≢ b
ltb_ℤ-ne (pos m) (pos n) h = ground arith
ltb_ℤ-ne (negsuc m) (negsuc n) h = ground arith
ltb_ℤ-ne (negsuc m) (pos n) h = λ e. cc
ltb_ℤ-ne (pos m) (negsuc n) h = λ e. cc
