-- ===== src/CBlock/Tests.antt =====
-- Runs of a C-block, and the theorems about it at these.
use Prim.Native.String.{String}
use lucidac_firmware.Common.{◌≡◌, refl, arith, true, List, [], ◌∷◌, All-replicate}
use lucidac_firmware.Float.{one_float}
use lucidac_firmware.Status.{success}
use lucidac_firmware.Samples.{Value, number, object, entry, done, thousandths, plain}
use lucidac_firmware.Chips.Ad5452
use lucidac_firmware.Bus.Functions.{word16}
use lucidac_firmware.CBlock.{init, coeff_address, effective_factor, write_to_hardware}
use lucidac_firmware.CBlock.Coefficients.{sent_to, layer, table, write_to_hardware_lem}
use lucidac_firmware.CBlock.Config.{config_self_from_json}
use lucidac_firmware.CBlock.Range.{InRange, IsInRange, config_self_from_json-IsInRange}

write_to_hardware_lem_example :
    ((write_to_hardware thousandths (layer true 0x0009) (init thousandths) []).0 ≡ success)
    × (sent_to
          (coeff_address (table true) 0x0009 31)
          (write_to_hardware thousandths (layer true 0x0009) (init thousandths) []).1
        ≡ word16
            (Ad5452.float_to_raw thousandths (effective_factor thousandths (init thousandths) 31))
          ∷ sent_to (coeff_address (table true) 0x0009 31) [])
write_to_hardware_lem_example =
    write_to_hardware_lem thousandths (init thousandths) true 0x0009 [] 31 (omega arith)

init-IsInRange : IsInRange thousandths plain (init thousandths)
unfolding init
init-IsInRange = All-replicate (InRange thousandths plain) 32 (one_float thousandths) (refl, refl)

abbrev config : List (String × Value)
config = ("elements", object (entry "7" (number 5) done)) ∷ []

config_self_from_json-IsInRange_example :
    IsInRange thousandths plain
      (config_self_from_json thousandths plain (init thousandths) config).0
config_self_from_json-IsInRange_example =
    config_self_from_json-IsInRange thousandths plain (init thousandths) config init-IsInRange
