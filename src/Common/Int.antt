-- ===== src/Common/Int.antt =====
-- Go's `int`, and its conversions to `uint32` and to a duration.
use Prim.Native.Nat.{ℕ, ◌+◌, ◌-◌, ◌*◌, ◌%◌, ◌^◌, ◌<◌}
use mathlib.Core.Path.{◌≡◌}
use native.Mathlib.Omega.{arith}
use gitstafette.Common.Lists.{ltb, if◌then◌else◌}

-- `negsuc n` is -(n + 1).
pub data ℤ : Type 0 where
  pos : ℕ → ℤ
  negsuc : ℕ → ℤ

-- `uint32(x)`
unfoldable pub to_uint32 : ℤ → ℕ
to_uint32 (pos n) = n % 2 ^ 32
to_uint32 (negsuc n) = 2 ^ 32 - 1 - n % 2 ^ 32

-- The value of the 64-bit word `n`.
abbrev pub of_word64 : ℕ → ℤ
of_word64 n = if ltb n (2 ^ 63) then pos n else negsuc (2 ^ 64 - 1 - n)

-- `time.Second * time.Duration(x)`, a product of 64 bits.
unfoldable pub seconds : ℤ → ℤ
seconds (pos n) = of_word64 (1_000_000_000 * n % 2 ^ 64)
seconds (negsuc n) = of_word64 ((2 ^ 64 - 1_000_000_000 * (n + 1) % 2 ^ 64) % 2 ^ 64)

-- `Add` of a time, which is counted from 0 and stops there.
unfoldable pub add_duration : ℕ → ℤ → ℕ
add_duration now (pos d) = now + d
add_duration now (negsuc d) = now - (d + 1)

pub to_uint32_bound : (x : ℤ) → to_uint32 x < 2 ^ 32
unfolding to_uint32
to_uint32_bound (pos n) = omega arith
to_uint32_bound (negsuc n) = omega arith

pub to_uint32_small : (n : ℕ) → n < 2 ^ 32 → to_uint32 (pos n) ≡ n
unfolding to_uint32
to_uint32_small n h = omega arith

pub seconds_small : (n : ℕ) → n < 2 ^ 32 → seconds (pos n) ≡ pos (1_000_000_000 * n)
unfolding seconds
seconds_small n h =
    let e : 1_000_000_000 * n % 2 ^ 64 ≡ 1_000_000_000 * n = omega arith in rw e (ground arith)
