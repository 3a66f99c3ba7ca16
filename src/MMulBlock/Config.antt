-- ===== src/MMulBlock/Config.antt =====
-- Reading and writing the calibration of a multiplier block: mblock_mul.cpp, for a build without
-- ANABRID_WRITE_EEPROM. The key "read_calibration_from_eeprom" is left out.
use Prim.Native.String.{String}
use lucidac_firmware.Common.{
  ℕ, ◌==◌, Bool, false, not, if◌then◌else◌, List, [], ◌∷◌, map, Option, none, some, length,
  index_range, get_or, set,
}
use lucidac_firmware.Float.{FloatApi}
use lucidac_firmware.Status.{Status, is_ok}
use lucidac_firmware.Json.{JsonApi, is_some, or_else}
use lucidac_firmware.CBlock.Config.{member}
use lucidac_firmware.Bus.Functions.{Env, Bus, ◌>>=◌, pure}
use lucidac_firmware.MMulBlock.{
  MultiplierCalibration, MMulBlock, num_multipliers, uncalibrated, refused,
  write_calibration_to_hardware,
}

module _ {F V : Type 0} (fl : FloatApi F) (js : JsonApi F V) where
  open js use {array?, object?, to_float, null, of_float, of_array, of_object}

  -- `map[name]` on a value, which is null where there is no such member.
  abbrev pub at_name : String → V → Option V
  at_name name cfg = elim (object? cfg) [ none ↦ none | some es ↦ member name es ]

  -- `size()` of a member: the entries of an array or an object.
  abbrev pub size : V → ℕ
  size value = elim (array? value) [
    | some vs ↦ length vs
    | none ↦ elim (object? value) [ none ↦ 0 | some es ↦ length es ]
  ]

  -- `value[i]`, which is null on what is not an array.
  abbrev pub at_index : V → ℕ → V
  at_index value i = elim (array? value) [ none ↦ null | some vs ↦ get_or vs i null ]

  abbrev pub well_sized : String → V → Bool
  well_sized name cfg = elim (at_name name cfg) [
    | none ↦ false
    | some value ↦ size value == num_multipliers
  ]

  abbrev pub offset_at : String → V → ℕ → F
  offset_at name cfg i = to_float (at_index (or_else (at_name name cfg) null) i)

  abbrev pub read_offsets : V → ℕ → MultiplierCalibration F
  read_offsets cfg i = record {
    offset_x = offset_at "offset_x" cfg i;
    offset_y = offset_at "offset_y" cfg i;
    offset_z = offset_at "offset_z" cfg i;
  }

  -- The loop over the indices that are left.
  abbrev pub read_all : V → List ℕ → MMulBlock F → MMulBlock F
  read_all cfg [] b = b
  read_all cfg (i ∷ is) b =
      read_all cfg is (record b { calibration = set b.calibration i (read_offsets cfg i) })

  abbrev pub written_status : V → Status → Status
  written_status cfg status =
      if not (is_ok status)
      then status
      else if is_some (at_name "write_eeprom" cfg)
      then refused 775
      else status

  module _ (env : Env) (block : ℕ) where
    abbrev pub accept : V → MMulBlock F → Bus (MMulBlock F × Status)
    accept cfg b = do
      status ← write_calibration_to_hardware fl env block b
      pure (b, written_status cfg status)

    unfoldable pub config_elements_from_json : MMulBlock F → V → Bus (MMulBlock F × Status)
    unfolding write_calibration_to_hardware
    config_elements_from_json b cfg =
        if not (well_sized "offset_x" cfg)
        then pure (b, refused 772)
        else if not (well_sized "offset_y" cfg)
        then pure (b, refused 773)
        else if not (well_sized "offset_z" cfg)
        then pure (b, refused 774)
        else accept cfg (read_all cfg (index_range num_multipliers) b)

  abbrev pub offsets : (MultiplierCalibration F → F) → MMulBlock F → V
  offsets field b = of_array (
      map (λ i. of_float (field (get_or b.calibration i (uncalibrated fl))))
        (index_range num_multipliers))

  unfoldable pub config_self_to_json : MMulBlock F → List (String × V)
  config_self_to_json b =
      (
        "calibration",
        of_object (
            ("offset_x", offsets (λ c. c.offset_x) b)
            ∷ ("offset_y", offsets (λ c. c.offset_y) b)
            ∷ ("offset_z", offsets (λ c. c.offset_z) b)
            ∷ []),
      )
      ∷ []
