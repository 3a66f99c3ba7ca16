-- ===== src/Chips/Ad5452.antt =====
-- The 14-bit DAC of one coefficient: lib/hal-lucidac/src/chips/AD5452.cpp.
use lucidac_firmware.Common.{ℕ, ◌∷◌, if◌then◌else◌, pos, negsuc}
use lucidac_firmware.Float.{FloatApi, le_float}
use lucidac_firmware.Bus.Functions.{Bus, word16, transfer}

abbrev pub raw_min : ℕ
raw_min = 0

abbrev pub raw_zero : ℕ
raw_zero = 8192

abbrev pub raw_max : ℕ
raw_max = 16383

abbrev pub raw_delta_one : ℕ
raw_delta_one = 7447

unfoldable pub set_scale_raw : ℕ → ℕ → Bus (Unit {0})
set_scale_raw address scale_raw log = (tt, transfer address 15 (word16 scale_raw) ∷ log)

module _ {F : Type 0} (fl : FloatApi F) where
  unfoldable pub float_to_raw : F → ℕ
  float_to_raw scale =
      if le_float fl scale (fl.lit (negsuc 10) 1)
      then raw_min
      else if le_float fl (fl.lit (pos 11) 1) scale
      then raw_max
      else fl.to_uint16
          (fl.add (fl.mul scale (fl.lit (pos raw_delta_one) 0)) (fl.lit (pos raw_zero) 0))

  unfoldable pub set_scale : ℕ → F → Bus (Unit {0})
  unfolding float_to_raw set_scale_raw
  set_scale address scale = set_scale_raw address (float_to_raw scale)
