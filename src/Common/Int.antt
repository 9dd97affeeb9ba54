-- ===== src/Common/Int.antt =====
-- Signed 64-bit values, Go's `int` and `time.Duration`, read from their bit patterns.
use cluster_api_provider_nvi.Common.Tests.{ltb, if◌then◌else◌}
use Prim.Native.Nat.{ℕ, ◌-◌, ◌^◌}
use mathlib.Core.Bool.{Bool, false}

-- `negsuc n` is -(n + 1).
pub data ℤ : Type 0 where
  pos : ℕ → ℤ
  negsuc : ℕ → ℤ

-- The integer that a 64-bit pattern stands for.
unfoldable pub signed_64 : ℕ → ℤ
signed_64 b = if ltb b (2 ^ 63) then pos b else negsuc (2 ^ 64 - b - 1)

-- `a > b` for a bound b that is not negative.
unfoldable pub above : ℤ → ℕ → Bool
above (pos a) b = ltb b a
above (negsuc a) b = false
