-- ===== src/MMulBlock/Tests.antt =====
-- Runs of a multiplier block, and the theorems about it at these.
use lucidac_firmware.Common.{
  ℕ, ◌+◌, ◌≡◌, refl, ltb, Bool, true, false, if◌then◌else◌, List, [], Option, some, length, arith,
  ℤ, pos, negsuc,
}
use lucidac_firmware.Status.{Status}
use lucidac_firmware.Samples.{
  Value, real, array, object, entry, done, item, end, thousandths, plain,
}
use lucidac_firmware.Bus.Functions.{Env, Call}
use lucidac_firmware.MIntBlock.Written.{register_word}
use lucidac_firmware.MMulBlock.{MMulBlock, init, f_calibration_dac_0}
use lucidac_firmware.MMulBlock.Config.{config_elements_from_json}
use lucidac_firmware.MMulBlock.Search.{search_offset_x}
use lucidac_firmware.MMulBlock.Ends.{Settled, offset_word}
use lucidac_firmware.MMulBlock.Settled.{search_offset_x-Settled}

abbrev plain_env : Env
plain_env = record { pedantic = false; miso = λ log. 0; miso_bytes = λ log. [] }

-- The measured products become zero once the log has seven calls.
abbrev measured : List Call → ℕ → ℤ
measured log channel = if ltb (length log) 7 then negsuc 0 else pos 0

abbrev found : Option (ℤ × Bool) × List Call
found = search_offset_x thousandths plain_env 0x000C measured 2 22 []

-- Two rounds: -80 thousandths are recorded.
found_lem : found.0 ≡ some (negsuc 79, true)
unfolding search_offset_x
found_lem = refl

search_offset_x-Settled_example :
    Settled thousandths 21
      (register_word (f_calibration_dac_0 0x000C) (8 + 5))
      (offset_word thousandths)
      found
search_offset_x-Settled_example =
    search_offset_x-Settled thousandths plain_env refl 0x000C 2 (omega arith) measured 21 [] refl

abbrev four : ℤ → ℤ → Value
four first others =
    array (item (real first) (item (real others) (item (real others) (item (real others) end))))

-- The first offset_z is too large.
abbrev too_much : Value
too_much = object (
    entry "offset_x" (four (pos 10) (pos 20))
      (entry "offset_y" (four (pos 30) (pos 40)) (entry "offset_z" (four (pos 101) (pos 0)) done)))

abbrev configured : (MMulBlock ℤ × Status) × List Call
configured =
    config_elements_from_json thousandths plain plain_env 0x000C (init thousandths) too_much []
