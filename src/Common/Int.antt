-- ===== src/Common/Int.antt =====
-- Signed integers over the native numbers: `negsuc n` is -(n + 1).
use Prim.Native.Nat.{ℕ, ◌-◌, ◌%◌, ◌<◌}
use mathlib.Core.Path.{◌≡◌}
use mathlib.Core.Bool.{Bool, true, false}
use native.Mathlib.Omega.{arith}
use lucidac_firmware.Common.Tests.{ltb, ◌==◌, if◌then◌else◌}

pub data ℤ : Type 0 where
  pos : ℕ → ℤ
  negsuc : ℕ → ℤ

-- The value of an `int8_t` that a `uint8_t` is assigned to.
abbrev pub int8 : ℕ → ℤ
int8 n = if ltb (n % 256) 128 then pos (n % 256) else negsuc (255 - n % 256)

abbrev pub nonneg : ℤ → Bool
nonneg (pos n) = true
nonneg (negsuc n) = false

-- The C comparison `z == n` of a signed with an unsigned small number, both promoted to `int`.
abbrev pub eq_ℕ : ℤ → ℕ → Bool
eq_ℕ (pos m) n = m == n
eq_ℕ (negsuc m) n = false

pub int8_small : (n : ℕ) → n < 128 → int8 n ≡ pos n
int8_small n h = ground arith
