-- ===== src/MIntBlock/Tests.antt =====
-- Runs of an integrator block, and the theorems about it at these.
use Prim.Native.String.{String}
use lucidac_firmware.Common.{
  ℕ, ◌+◌, ◌≡◌, refl, ◌==◌, false, not, List, [], ◌∷◌, some, bit, get_or, arith, ℤ, pos,
}
use lucidac_firmware.Status.{success}
use lucidac_firmware.Json.{ok}
use lucidac_firmware.Samples.{
  Value, nothing, number, array, object, entry, done, item, end, thousandths, plain, plain-JsonLaws,
}
use lucidac_firmware.Bus.Functions.{Env, Call}
use lucidac_firmware.Chips.Dac60508
use lucidac_firmware.MIntBlock.{
  MIntBlock, v_1_0_x, init, set_time_factor, ic_voltage, f_ic_dac, f_time_factor,
  f_time_factor_sync, write_to_hardware, default_time_factor,
}
use lucidac_firmware.MIntBlock.Config.{config_self_from_json, config_self_to_json}
use lucidac_firmware.MIntBlock.Valid.{IsValid}
use lucidac_firmware.MIntBlock.Range.{
  Reachable, started, factor_set, configured, reachable_integrators-IsValid,
}
use lucidac_firmware.MIntBlock.Written.{register_word, latched_byte, write_to_hardware-integrators}
use lucidac_firmware.MIntBlock.RoundTrip.{config_self-to_json_integrators}

abbrev plain_env : Env
plain_env = record { pedantic = false; miso = λ log. 0; miso_bytes = λ log. [] }

-- The third element has no "ic", so that the configuration is refused after two elements were set.
abbrev refused : List (String × Value)
refused =
    (
      "elements",
      array (
          item (object (entry "ic" (number 1) (entry "k" (number 100) done))) (
            item (object (entry "ic" (number 0) done)) (
              item nothing
                (item nothing (item nothing (item nothing (item nothing (item nothing end)))))))),
    )
    ∷ []

abbrev sample : MIntBlock ℤ
sample =
    (config_self_from_json thousandths plain (set_time_factor (init thousandths) 5 100).0 refused).0

sample-Reachable : Reachable thousandths plain sample
sample-Reachable = configured refused (factor_set 5 100 started)

reachable_integrators-IsValid_example : IsValid thousandths sample
reachable_integrators-IsValid_example =
    reachable_integrators-IsValid thousandths plain (refl, refl) sample sample-Reachable

abbrev written : List Call
written = (write_to_hardware thousandths plain_env (v_1_0_x 0x0009) sample []).1

write_to_hardware-integrators_example :
    ((write_to_hardware thousandths plain_env (v_1_0_x 0x0009) sample []).0 ≡ success)
    × (register_word (f_ic_dac 0x0009) (8 + 5) written
        ≡ some (
            Dac60508.float_to_raw thousandths
              (ic_voltage thousandths plain_env (get_or sample.ic_values 5 (pos 0)))))
    × ((byte : ℕ) × (latched_byte (f_time_factor 0x0009) (f_time_factor_sync 0x0009) written
          ≡ some byte)
        × ((j : ℕ)
            → bit byte j
              ≡ not (get_or sample.time_factors j default_time_factor == default_time_factor)))
write_to_hardware-integrators_example =
    write_to_hardware-integrators thousandths plain_env refl 0x0009 sample [] 5 (omega arith)

config_self-to_json_integrators_example :
    config_self_from_json thousandths plain
      (init thousandths)
      (config_self_to_json thousandths plain sample)
    ≡ (sample, ok)
config_self-to_json_integrators_example =
    config_self-to_json_integrators thousandths plain plain-JsonLaws sample
      (reachable_integrators-IsValid thousandths plain (refl, refl) sample sample-Reachable)
      (init thousandths)
      (reachable_integrators-IsValid thousandths plain (refl, refl) (init thousandths) started)
