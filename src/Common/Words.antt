-- ===== src/Common/Words.antt =====
-- Go's `int32` and `int64` (also `int`): integers with two's-complement wrap-around.
use spotalis.Common.{
  ℕ, ◌+◌, ◌-◌, ◌%◌, ◌^◌, ◌≤◌, ◌<◌, ◌≡◌, arith, ltb, if◌then◌else◌, ℤ, pos, negsuc, pos_part,
  neg_part, ◌+ℤ◌, ◌-ℤ◌,
}

-- The bit pattern of an integer, for the modulus m, and the integer of a pattern below m = 2 * h.
bits : ℕ → ℤ → ℕ
bits m (pos n) = n % m
bits m (negsuc n) = m - 1 - n % m

of_bits : ℕ → ℕ → ℤ
of_bits h b = if ltb b h then pos b else negsuc (h + h - 1 - b)

unfoldable pub wrap32 : ℤ → ℤ
unfolding bits of_bits
wrap32 z = of_bits (2 ^ 31) (bits (2 ^ 32) z)

unfoldable pub wrap64 : ℤ → ℤ
unfolding bits of_bits
wrap64 z = of_bits (2 ^ 63) (bits (2 ^ 64) z)

-- The values that the type holds.
abbrev pub IsI32 : ℤ → Type 0
IsI32 z = (pos_part z < 2 ^ 31) × (neg_part z ≤ 2 ^ 31)

abbrev pub IsI64 : ℤ → Type 0
IsI64 z = (pos_part z < 2 ^ 63) × (neg_part z ≤ 2 ^ 63)

pub wrap32_id : (z : ℤ) → IsI32 z → wrap32 z ≡ z
unfolding wrap32
wrap32_id z h = ground arith

pub wrap64_id : (z : ℤ) → IsI64 z → wrap64 z ≡ z
unfolding wrap64
wrap64_id z h = ground arith

pub wrap32-IsI32 : (z : ℤ) → IsI32 (wrap32 z)
unfolding wrap32
wrap32-IsI32 z = ground arith

infixl 65 ◌+i32◌ ◌-i32◌
abbrev pub ◌+i32◌ : ℤ → ℤ → ℤ
a +i32 b = wrap32 (a +ℤ b)

abbrev pub ◌-i32◌ : ℤ → ℤ → ℤ
a -i32 b = wrap32 (a -ℤ b)

infixl 65 ◌+i64◌ ◌-i64◌
abbrev pub ◌+i64◌ : ℤ → ℤ → ℤ
a +i64 b = wrap64 (a +ℤ b)

abbrev pub ◌-i64◌ : ℤ → ℤ → ℤ
a -i64 b = wrap64 (a -ℤ b)
