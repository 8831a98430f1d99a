-- ===== src/Prelude/Int.antt =====
-- Go's signed integers, over the native numbers: `negsuc n` is -(n + 1). `inc64` is `x++` on an
-- `int` of 64 bits, with its wrap-around. A 64-bit sum that only adds (a byte counter) is kept as
-- its bit pattern, `add64`.
use Prim.Native.Nat.{ℕ, zero, suc, ◌+◌, ◌%◌}
use mathlib.Core.Path.{◌≡◌}
use mathlib.Core.Bool.{Bool}
use native.Mathlib.Omega.{arith}
use newt.Prelude.Tests.{ltb, leb, if◌then◌else◌}

pub data ℤ : Type 0 where
  pos : ℕ → ℤ
  negsuc : ℕ → ℤ

abbrev pub pos_part : ℤ → ℕ
pos_part (pos n) = n
pos_part (negsuc n) = 0

abbrev pub neg_part : ℤ → ℕ
neg_part (pos n) = 0
neg_part (negsuc n) = suc n

abbrev pub ltb_ℤ : ℤ → ℤ → Bool
ltb_ℤ a b = ltb (pos_part a + neg_part b) (pos_part b + neg_part a)

abbrev pub leb_ℤ : ℤ → ℤ → Bool
leb_ℤ a b = leb (pos_part a + neg_part b) (pos_part b + neg_part a)

-- The largest `int`, 2^63 - 1.
abbrev pub max_int : ℕ
max_int = 9223372036854775807

-- `x++`: the largest value wraps to the smallest.
abbrev pub inc64 : ℤ → ℤ
inc64 (pos n) = if ltb n max_int then pos (suc n) else negsuc max_int
inc64 (negsuc zero) = pos 0
inc64 (negsuc (suc n)) = negsuc n

abbrev pub u64_mod : ℕ
u64_mod = 18446744073709551616

-- `a + b` on 64-bit words, as bit patterns.
abbrev pub add64 : ℕ → ℕ → ℕ
add64 a b = (a + b) % u64_mod

pub add64_assoc : (a b c : ℕ) → add64 (add64 a b) c ≡ add64 a (add64 b c)
add64_assoc a b c = omega arith

pub add64_comm : (a b : ℕ) → add64 a b ≡ add64 b a
add64_comm a b = omega arith
