-- ===== src/Base/Machine.antt =====
-- Go's fixed-width integers. A signed value is a `ℤ` and an unsigned one a `ℕ`; each operation
-- that can leave the range wraps, as written here.
use Prim.Native.Nat.{ℕ, ◌+◌, ◌-◌, ◌%◌, ◌≤◌, ◌<◌}
use mathlib.Core.Path.{◌≡◌}
use native.Mathlib.Omega.{arith}
use beta.Base.Tests.{ltb, if◌then◌else◌}
use beta.Base.Int.{ℤ, pos, negsuc, pos_part, neg_part}

-- The signed reading of a pattern below `2 * half`.
abbrev pub signed : ℕ → ℕ → ℤ
signed half u = if ltb u half then pos u else negsuc (half + half - 1 - u)

-- The bit pattern of an integer, modulo `m`.
abbrev pub pattern_of : ℕ → ℤ → ℕ
pattern_of m (pos n) = n % m
pattern_of m (negsuc n) = m - 1 - n % m

abbrev pub half32 : ℕ
half32 = 2147483648

abbrev pub half64 : ℕ
half64 = 9223372036854775808

unfoldable pub i32 : ℤ → ℤ
i32 z = signed half32 (pattern_of (half32 + half32) z)

unfoldable pub i64 : ℤ → ℤ
i64 z = signed half64 (pattern_of (half64 + half64) z)

abbrev pub u32 : ℕ → ℕ
u32 n = n % 4294967296

abbrev pub u64 : ℕ → ℕ
u64 n = n % 18446744073709551616

-- `a - b` of two uint32 values.
abbrev pub sub_u32 : ℕ → ℕ → ℕ
sub_u32 a b = u32 (a + 4294967296 - u32 b)

abbrev pub InI32 : ℤ → Type 0
InI32 z = (pos_part z < half32) × (neg_part z ≤ half32)

abbrev pub InI64 : ℤ → Type 0
InI64 z = (pos_part z < half64) × (neg_part z ≤ half64)

abbrev pub InU32 : ℕ → Type 0
InU32 n = n < 4294967296

-- In range, nothing wraps.
pub i64_id : (z : ℤ) → InI64 z → i64 z ≡ z
unfolding i64
i64_id (pos n) h = ground arith
i64_id (negsuc n) h = ground arith

pub i32_id : (z : ℤ) → InI32 z → i32 z ≡ z
unfolding i32
i32_id (pos n) h = ground arith
i32_id (negsuc n) h = ground arith

pub i64-InI64 : (z : ℤ) → InI64 (i64 z)
unfolding i64
i64-InI64 (pos n) = ground arith
i64-InI64 (negsuc n) = ground arith
