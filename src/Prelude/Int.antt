-- ===== src/Prelude/Int.antt =====
-- Signed integers and the casts between them and unsigned words.
use haproxy_spoa_firehol_mmd.Prelude.{
  ℕ, suc, ◌+◌, ◌-◌, ◌%◌, ◌^◌, ◌<◌, ◌≡◌, arith, ltb, if◌then◌else◌,
}

-- `negsuc n` is -(n + 1).
pub data ℤ : Type 0 where
  pos : ℕ → ℤ
  negsuc : ℕ → ℤ

-- The difference of two naturals, and the sum of two integers.
infixl 60 ◌⊖◌ ◌+ℤ◌
unfoldable pub ◌⊖◌ : ℕ → ℕ → ℤ
m ⊖ n = if ltb m n then negsuc (n - suc m) else pos (m - n)

unfoldable pub ◌+ℤ◌ : ℤ → ℤ → ℤ
pos m +ℤ pos n = pos (m + n)
pos m +ℤ negsuc n = m ⊖ suc n
negsuc m +ℤ pos n = n ⊖ suc m
negsuc m +ℤ negsuc n = negsuc (suc (m + n))

-- The integers of a two's complement word of `w + 1` bits.
abbrev pub IsSigned : ℕ → ℤ → Type 0
IsSigned w (pos n) = n < 2 ^ w
IsSigned w (negsuc n) = n < 2 ^ w

-- `static_cast<uint64_t>` of a signed integer.
unfoldable pub to_u64 : ℤ → ℕ
to_u64 (pos n) = n % 2 ^ 64
to_u64 (negsuc n) = 2 ^ 64 - 1 - n % 2 ^ 64

-- `static_cast<int32_t>` and `static_cast<int64_t>` of an unsigned integer.
unfoldable pub to_i32 : ℕ → ℤ
to_i32 v = let w = v % 2 ^ 32 in if ltb w (2 ^ 31) then pos w else negsuc (2 ^ 32 - 1 - w)

unfoldable pub to_i64 : ℕ → ℤ
to_i64 v = let w = v % 2 ^ 64 in if ltb w (2 ^ 63) then pos w else negsuc (2 ^ 64 - 1 - w)

pub to_u64-lt : (z : ℤ) → to_u64 z < 2 ^ 64
unfolding to_u64
to_u64-lt (pos n) = omega arith
to_u64-lt (negsuc n) = omega arith

-- Sign extension to 64 bits and truncation back to 32 keep an int32_t.
pub to_i32-to_u64 : (z : ℤ) → IsSigned 31 z → to_i32 (to_u64 z) ≡ z
unfolding to_i32 to_u64
to_i32-to_u64 (pos n) h = ground arith
to_i32-to_u64 (negsuc n) h = ground arith

pub to_i64-to_u64 : (z : ℤ) → IsSigned 63 z → to_i64 (to_u64 z) ≡ z
unfolding to_i64 to_u64
to_i64-to_u64 (pos n) h = ground arith
to_i64-to_u64 (negsuc n) h = ground arith
