-- ===== src/Prelude/Words.antt =====
-- Go's signed machine words: two's complement wrap-around of an integer.
use nut_operator.Prelude.Int.{ℤ, pos, negsuc, pos_part, neg_part, sub_ℕ, ◌≤ℤ◌, ◌+ℤ◌}
use nut_operator.Prelude.Tests.{ltb, if◌then◌else◌}
use Prim.Native.Nat.{ℕ, ◌-◌, ◌*◌, ◌%◌, ◌≤◌, ◌<◌}
use mathlib.Core.Path.{◌≡◌, refl}
use native.Mathlib.Omega.{arith}

-- The bit pattern of an integer in a word of `m` values, and the signed reading of a pattern.
pub pattern_of : ℕ → ℤ → ℕ
pattern_of m (pos n) = n % m
pattern_of m (negsuc n) = m - 1 - n % m

pub signed_of : ℕ → ℕ → ℤ
signed_of m w = if ltb (2 * w) m then pos w else sub_ℕ w m

abbrev pub two_32 : ℕ
two_32 = 4294967296

abbrev pub two_64 : ℕ
two_64 = 18446744073709551616

unfoldable pub wrap32 : ℤ → ℤ
unfolding pattern_of signed_of
wrap32 z = signed_of two_32 (pattern_of two_32 z)

unfoldable pub wrap64 : ℤ → ℤ
unfolding pattern_of signed_of
wrap64 z = signed_of two_64 (pattern_of two_64 z)

-- The range of an int32 and of an int64.
abbrev pub IsInt32 : ℤ → Type 0
IsInt32 z = (pos_part z < 2147483648) × (neg_part z ≤ 2147483648)

abbrev pub IsInt64 : ℤ → Type 0
IsInt64 z = (pos_part z < 9223372036854775808) × (neg_part z ≤ 9223372036854775808)

pub wrap32_lem : (z : ℤ) → IsInt32 z → wrap32 z ≡ z
unfolding wrap32
wrap32_lem (pos n) h = ground arith
wrap32_lem (negsuc n) h = ground arith

pub wrap64_lem : (z : ℤ) → IsInt64 z → wrap64 z ≡ z
unfolding wrap64
wrap64_lem (pos n) h = ground arith
wrap64_lem (negsuc n) h = ground arith

-- A wrapped word is in range, and an increment that wraps falls.
pub wrap64-IsInt64 : (z : ℤ) → IsInt64 (wrap64 z)
unfolding wrap64
wrap64-IsInt64 (pos n) = ground arith
wrap64-IsInt64 (negsuc n) = ground arith

pub wrap64_succ_le : (z : ℤ) → IsInt64 z → wrap64 (z +ℤ pos 1) ≤ℤ z +ℤ pos 1
unfolding wrap64 ◌+ℤ◌
wrap64_succ_le (pos n) h = ground arith
wrap64_succ_le (negsuc n) h = ground arith

overflow_64 : wrap64 (pos 9223372036854775808) ≡ negsuc 9223372036854775807
unfolding wrap64
overflow_64 = refl
