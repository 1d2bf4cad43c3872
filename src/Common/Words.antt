-- ===== src/Common/Words.antt =====
-- 32-bit words as the machine stores them: four bytes, the low byte first, and `std::int32_t` as the
-- two's complement reading of a word.
use rmp_proximity_sensor.Common.Bools.{ltb, if◌then◌else◌}
use Prim.Native.Nat.{ℕ, ◌+◌, ◌-◌, ◌*◌, ◌/◌, ◌%◌, ◌^◌, ◌<◌}
use mathlib.Core.Path.{◌≡◌}
use native.Mathlib.Omega.{arith}

-- `negsuc n` is -(n + 1).
pub data ℤ : Type 0 where
  pos : ℕ → ℤ
  negsuc : ℕ → ℤ

-- The number that a bit pattern below 2 ^ 32 stands for.
abbrev pub signed32 : ℕ → ℤ
signed32 w = if ltb w (2 ^ 31) then pos w else negsuc (2 ^ 32 - w - 1)

abbrev pub of_bytes : ℕ → ℕ → ℕ → ℕ → ℕ
of_bytes b0 b1 b2 b3 = b0 + 256 * b1 + 65536 * b2 + 16777216 * b3

-- Byte `k` of a word.
abbrev pub byte0 : ℕ → ℕ
byte0 w = w % 256

abbrev pub byte1 : ℕ → ℕ
byte1 w = w / 256 % 256

abbrev pub byte2 : ℕ → ℕ
byte2 w = w / 65536 % 256

abbrev pub byte3 : ℕ → ℕ
byte3 w = w / 16777216 % 256

pub of_bytes-bytes : (w : ℕ) → w < 2 ^ 32 → of_bytes (byte0 w) (byte1 w) (byte2 w) (byte3 w) ≡ w
of_bytes-bytes w h = omega arith
