-- ===== src/Base/Int.antt =====
-- Signed integers over the native numbers, and their two's complement patterns.
use Prim.Native.Nat.{ℕ, ◌+◌, ◌-◌, ◌^◌, ◌<◌, ◌%◌}
use mathlib.Core.Path.{◌≡◌}
use native.Mathlib.Omega.{arith}
use apple_platform_rs.Base.Tests.{ltb, if◌then◌else◌}

-- `negsuc n` is -(n + 1).
pub data ℤ : Type 0 where
  pos : ℕ → ℤ
  negsuc : ℕ → ℤ

-- Bounds of an integer of `half` as its least negative number, `half = 2 ^ (w - 1)`.
abbrev pub IsSigned : ℕ → ℤ → Type 0
IsSigned half (pos n) = n < half
IsSigned half (negsuc n) = n < half

abbrev pub IsI32 : ℤ → Type 0
IsI32 = IsSigned (2 ^ 31)

abbrev pub IsI64 : ℤ → Type 0
IsI64 = IsSigned (2 ^ 63)

-- `x as u32` and `w as i32`.
unfoldable pub i32_pattern : ℤ → ℕ
i32_pattern (pos n) = n
i32_pattern (negsuc n) = 2 ^ 32 - (n + 1)

unfoldable pub i32_of_pattern : ℕ → ℤ
i32_of_pattern w = if ltb w (2 ^ 31) then pos w else negsuc (2 ^ 32 - w - 1)

unfoldable pub i64_pattern : ℤ → ℕ
i64_pattern (pos n) = n
i64_pattern (negsuc n) = 2 ^ 64 - (n + 1)

unfoldable pub i64_of_pattern : ℕ → ℤ
i64_of_pattern w = if ltb w (2 ^ 63) then pos w else negsuc (2 ^ 64 - w - 1)

pub i32_of_pattern-i32_pattern : (z : ℤ) → IsI32 z → i32_of_pattern (i32_pattern z % 2 ^ 32) ≡ z
unfolding i32_of_pattern i32_pattern
i32_of_pattern-i32_pattern (pos n) h = ground arith
i32_of_pattern-i32_pattern (negsuc n) h = ground arith

pub i64_of_pattern-i64_pattern : (z : ℤ) → IsI64 z → i64_of_pattern (i64_pattern z % 2 ^ 64) ≡ z
unfolding i64_of_pattern i64_pattern
i64_of_pattern-i64_pattern (pos n) h = ground arith
i64_of_pattern-i64_pattern (negsuc n) h = ground arith

pub i32_of_pattern-IsI32 : (w : ℕ) → w < 2 ^ 32 → IsI32 (i32_of_pattern w)
unfolding i32_of_pattern
i32_of_pattern-IsI32 w h = ground arith

pub i64_of_pattern-IsI64 : (w : ℕ) → w < 2 ^ 64 → IsI64 (i64_of_pattern w)
unfolding i64_of_pattern
i64_of_pattern-IsI64 w h = ground arith
