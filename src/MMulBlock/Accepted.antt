-- ===== src/MMulBlock/Accepted.antt =====
-- Which calibrations a multiplier block accepts.
use lucidac_firmware.Common.{ℕ, Bool, true, not, ◌&&◌, ◌||◌, List, [], ◌∷◌, map, index_range}
use lucidac_firmware.Float.{FloatApi}
use lucidac_firmware.Status.{Status}
use Prim.Native.String.{String}
use lucidac_firmware.Json.{JsonApi, is_some, or_else}
use lucidac_firmware.Bus.Functions.{Bus}
use lucidac_firmware.Chips.Dac60508
use lucidac_firmware.MMulBlock.{MultiplierCalibration, MMulBlock, num_multipliers, too_large}
use lucidac_firmware.MMulBlock.Config.{at_name, at_index, well_sized}

module _ {F V : Type 0} (fl : FloatApi F) (js : JsonApi F V) where
  -- All three offsets are within the supported range.
  abbrev pub fits : MultiplierCalibration F → Bool
  fits c = not (too_large fl c.offset_x || too_large fl c.offset_y) && not (too_large fl c.offset_z)

  abbrev pub all_fit : List (MultiplierCalibration F) → Bool
  all_fit [] = true
  all_fit (c ∷ cs) = fits c && all_fit cs

  -- The i-th value of a member, as a float.
  abbrev pub value_of : String → V → ℕ → F
  value_of name cfg i = js.to_float (at_index fl js (or_else (at_name fl js name cfg) js.null) i)

  -- The offsets that a calibration asks for.
  abbrev pub offsets_of : V → List (MultiplierCalibration F)
  offsets_of cfg =
      map
        (λ i. record {
          offset_x = value_of "offset_x" cfg i;
          offset_y = value_of "offset_y" cfg i;
          offset_z = value_of "offset_z" cfg i;
        })
        (index_range num_multipliers)

  -- A calibration that is accepted: the three members have four entries each, there is no member
  -- "write_eeprom", and all offsets fit.
  abbrev pub is_acceptable : V → Bool
  is_acceptable cfg =
      well_sized fl js "offset_x" cfg
      && (well_sized fl js "offset_y" cfg
          && (well_sized fl js "offset_z" cfg
              && (all_fit (offsets_of cfg) && not (is_some (at_name fl js "write_eeprom" cfg)))))
