-- ===== src/MMulBlock.antt =====
-- The M-block with four multipliers: its calibration values, its hardware layer and its factory in
-- lib/platform-lucidac/src/block/mblock.h, mblock.cpp and mblock_mul.cpp. The copy of the values
-- in the EEPROM is left out.
pub mod Config
pub mod Search
pub mod Ends
pub mod Settled
pub mod Accepted
mod Tests
use lucidac_firmware.Common.{
  ℕ, ◌+◌, ◌*◌, ◌%◌, ◌^◌, ◌==◌, leb, Bool, true, false, not, ◌&&◌, ◌||◌, if◌then◌else◌, List, [],
  ◌∷◌, Option, none, some, pos, negsuc, get_or, set, replicate, index_range,
}
use lucidac_firmware.Float.{FloatApi, zero_float}
use lucidac_firmware.Status.{Status, success, is_ok}
use lucidac_firmware.Entity.{
  has, calibration_reset, overload_reset, EntityClassifier, EntityClass, class_code, classifier_set,
  default_, version_lt, v,
}
use lucidac_firmware.Bus.{address_from_tuple, replace_function_idx}
use lucidac_firmware.Bus.Functions.{Env, Bus, ◌>>=◌, ◌>>◌, pure, fire}
use lucidac_firmware.Chips.Sr74Hc16x
use lucidac_firmware.Chips.Dac60508
use lucidac_firmware.MIntBlock
use lucidac_firmware.MIntBlock.{MIntBlockHal}

pub record MultiplierCalibration (F : Type 0) : Type 0 where
  pub offset_x : F
  pub offset_y : F
  pub offset_z : F

pub record MMulBlock (F : Type 0) : Type 0 where
  pub calibration : List (MultiplierCalibration F)

abbrev pub num_multipliers : ℕ
num_multipliers = 4

-- `MMulBlockHAL_V_1_0_X`, the only hardware layer, is told apart by the address of its block.
abbrev pub f_overload_flags_reset : ℕ → ℕ
f_overload_flags_reset block = address_from_tuple block 3

abbrev pub f_overload_flags : ℕ → ℕ
f_overload_flags block = replace_function_idx block 2

abbrev pub f_calibration_dac_0 : ℕ → ℕ
f_calibration_dac_0 block = address_from_tuple block 4

abbrev pub f_calibration_dac_1 : ℕ → ℕ
f_calibration_dac_1 block = address_from_tuple block 5

-- The factory's result: the address of the layer, or `none` for the null pointer.
unfoldable pub from_entity_classifier : EntityClassifier → ℕ → Option ℕ
unfolding classifier_set version_lt
from_entity_classifier c block_address =
    if not (classifier_set c)
      || (not (c.class_ == class_code EntityClass.m_block) || not (c.type == 2))
    then none
    else if not (c.variant == default_)
    then none
    else if version_lt c.version (v 1 0)
    then none
    else if version_lt c.version (v 1 1)
    then some block_address
    else none

-- The two kinds of blocks that `MBlock::from_entity_classifier` makes.
pub data MBlock : Type 0 where
  integrators : MIntBlockHal → MBlock
  multipliers : ℕ → MBlock

unfoldable pub m_block_of : EntityClassifier → ℕ → Option MBlock
unfolding classifier_set from_entity_classifier MIntBlock.from_entity_classifier
m_block_of c block_address =
    if not (classifier_set c) || not (c.class_ == class_code EntityClass.m_block)
    then none
    else if c.type == 2
    then elim (from_entity_classifier c block_address) [
      | none ↦ none
      | some block ↦ some (multipliers block)
    ]
    else if c.type == 1
    then elim (MIntBlock.from_entity_classifier c block_address) [
      | none ↦ none
      | some hardware ↦ some (integrators hardware)
    ]
    else none

-- The slot of a block's address, and the lane of one of its inputs or outputs.
pub data Slot : Type 0 where
  m0 m1 : Slot

unfoldable pub slot_of : ℕ → Slot
slot_of block_address = if block_address % 8 == 4 then m0 else m1

unfoldable pub slot_to_global_io_index : Slot → ℕ → ℕ
slot_to_global_io_index m0 local = local
slot_to_global_io_index m1 local = (local + 8) % 2 ^ 8

abbrev pub refused : ℕ → Status
refused code = record { code = pos code }

module _ {F : Type 0} (fl : FloatApi F) where
  abbrev pub uncalibrated : MultiplierCalibration F
  uncalibrated = record {
    offset_x = zero_float fl;
    offset_y = zero_float fl;
    offset_z = zero_float fl;
  }

  unfoldable pub init : MMulBlock F
  init = record { calibration = replicate num_multipliers uncalibrated }

  unfoldable pub get_calibration : MMulBlock F → ℕ → MultiplierCalibration F
  get_calibration b mul_idx =
      if leb num_multipliers mul_idx
      then uncalibrated
      else get_or b.calibration mul_idx uncalibrated

  unfoldable pub reset : MMulBlock F → ℕ → ℕ → Bus (MMulBlock F)
  unfolding has
  reset b block action =
      let b' =
        if has action calibration_reset
        then record b { calibration = replicate num_multipliers uncalibrated }
        else b in
      if has action overload_reset
      then (do fire (f_overload_flags_reset block); pure b')
      else pure b'

  -- What a DAC is asked for to make an offset.
  abbrev pub offset_voltage : F → F
  offset_voltage offset = fl.mul (fl.sub offset (fl.lit (pos 1) 1)) (fl.lit (negsuc 124) 1)

  abbrev pub too_large : F → Bool
  too_large offset = fl.lt (fl.lit (pos 1) 1) (fl.fabs offset)

  module _ (env : Env) (block : ℕ) where
    abbrev pub set_y : ℕ → F → Bus Bool
    set_y idx offset_y =
        Dac60508.set_channel fl env (f_calibration_dac_0 block) (idx * 2 % 2 ^ 8)
          (offset_voltage offset_y)

    abbrev pub set_x : ℕ → F → Bus Bool
    set_x idx offset_x =
        Dac60508.set_channel fl env (f_calibration_dac_0 block) ((idx * 2 + 1) % 2 ^ 8)
          (offset_voltage offset_x)

    abbrev pub set_inputs : ℕ → F → F → Bus Bool
    set_inputs idx offset_x offset_y = do
      written ← set_x idx offset_x
      if written then set_y idx offset_y else pure false

    unfoldable pub write_calibration_input_offsets : ℕ → F → F → Bus Bool
    unfolding Dac60508.set_channel
    write_calibration_input_offsets idx offset_x offset_y =
        if too_large offset_x || too_large offset_y
        then pure false
        else set_inputs idx offset_x offset_y

    unfoldable pub write_calibration_output_offset : ℕ → F → Bus Bool
    unfolding Dac60508.set_channel
    write_calibration_output_offset idx offset_z =
        if too_large offset_z
        then pure false
        else Dac60508.set_channel fl env (f_calibration_dac_1 block) idx (offset_voltage offset_z)

    -- The loops over the indices that are left.
    unfoldable pub reset_calibration_input_offsets : List ℕ → Bus Bool
    unfolding write_calibration_input_offsets
    reset_calibration_input_offsets [] = pure true
    reset_calibration_input_offsets (i ∷ is) = do
      written ← write_calibration_input_offsets i (zero_float fl) (zero_float fl)
      if written then reset_calibration_input_offsets is else pure false

    unfoldable pub reset_calibration_output_offsets : List ℕ → Bus Bool
    unfolding write_calibration_output_offset
    reset_calibration_output_offsets [] = pure true
    reset_calibration_output_offsets (i ∷ is) = do
      written ← write_calibration_output_offset i (zero_float fl)
      if written then reset_calibration_output_offsets is else pure false

    -- `init` of `MMulBlockHAL`, with that of `MBlockHAL`.
    unfoldable pub init_offsets : Bus Bool
    unfolding reset_calibration_input_offsets reset_calibration_output_offsets
    init_offsets = do
      fire (f_overload_flags_reset block)
      inputs ← reset_calibration_input_offsets (index_range num_multipliers)
      let all = index_range num_multipliers
      if inputs then reset_calibration_output_offsets all else pure false

    -- Every step is made, whatever the earlier ones gave.
    unfoldable pub init_dac : ℕ → Bus Bool
    unfolding Dac60508.init Dac60508.set_external_reference Dac60508.set_double_gain
    init_dac dac = do
      ready ← Dac60508.init env dac
      external ← Dac60508.set_external_reference env dac true
      double ← Dac60508.set_double_gain env dac true
      pure (ready && (external && double))

    unfoldable pub init_hardware : Bus Bool
    unfolding init_dac init_offsets
    init_hardware = do
      first ← init_dac (f_calibration_dac_0 block)
      second ← init_dac (f_calibration_dac_1 block)
      offsets ← init_offsets
      pure (first && (second && offsets))

    unfoldable pub read_overload_flags : Bus ℕ
    unfolding Sr74Hc16x.read8
    read_overload_flags = Sr74Hc16x.read8 env (f_overload_flags block)

    unfoldable pub write_calibration : MultiplierCalibration F → ℕ → Bus Status
    unfolding write_calibration_input_offsets write_calibration_output_offset
    write_calibration cal i = do
      inputs ← write_calibration_input_offsets i cal.offset_x cal.offset_y
      output ← if inputs then write_calibration_output_offset i cal.offset_z else pure true
      pure (if not inputs then refused 775 else if not output then refused 776 else success)

    unfoldable pub write_calibration_from : MMulBlock F → List ℕ → Bus Status
    unfolding write_calibration
    write_calibration_from b [] = pure success
    write_calibration_from b (i ∷ is) = do
      status ← write_calibration (get_or b.calibration i uncalibrated) i
      if is_ok status then write_calibration_from b is else pure status

    unfoldable pub write_calibration_to_hardware : MMulBlock F → Bus Status
    unfolding write_calibration_from
    write_calibration_to_hardware b = write_calibration_from b (index_range num_multipliers)
