-- ===== src/CBlock.antt =====
-- The C-block's state, its methods and its hardware layers:
-- lib/platform-lucidac/src/block/cblock.h and cblock.cpp.
pub mod Config
pub mod Range
pub mod Coefficients
mod Tests
use lucidac_firmware.Common.{
  ℕ, zero, suc, ◌*◌, ◌==◌, ltb, leb, Bool, true, false, not, ◌||◌, if◌then◌else◌, List, [], ◌∷◌,
  ◌++◌, Option, none, some, pos, negsuc, get_or, set, replicate, count_from, index_range,
}
use lucidac_firmware.Float.{FloatApi, zero_float, one_float}
use lucidac_firmware.Status.{Status, success, failure}
use lucidac_firmware.Entity.{
  has, circuit_reset, calibration_reset, EntityClassifier, EntityClass, class_code, classifier_set,
  version_lt, v,
}
use lucidac_firmware.Bus.{replace_function_idx}
use lucidac_firmware.Bus.Functions.{Bus, ◌>>=◌, ◌>>◌, pure}
use lucidac_firmware.Chips.Ad5452

pub record CBlock (F : Type 0) : Type 0 where
  pub factors : List F
  pub gain_corrections : List F

abbrev pub num_coeff : ℕ
num_coeff = 32

-- The hardware layer: `CBlockHALDummy`, or the layer of a version at a block address.
pub data CBlockHal : Type 0 where
  dummy : CBlockHal
  v_1_0 : ℕ → CBlockHal
  v_1_1 : ℕ → CBlockHal

abbrev pub f_coeffs_cs_1_1 : List ℕ
f_coeffs_cs_1_1 = count_from 1 32

abbrev pub f_coeffs_cs_1_0 : List ℕ
f_coeffs_cs_1_0 = count_from 1 15 ++ (count_from 32 16 ++ (16 ∷ []))

-- `f_coeffs[idx].address`.
abbrev pub coeff_address : List ℕ → ℕ → ℕ → ℕ
coeff_address f_coeffs_cs block_address idx =
    replace_function_idx block_address (get_or f_coeffs_cs idx 0)

-- The factory's result: `none` for its null pointer.
unfoldable pub from_entity_classifier : EntityClassifier → ℕ → Option CBlockHal
unfolding classifier_set version_lt
from_entity_classifier c block_address =
    if not (classifier_set c)
      || (not (c.class_ == class_code EntityClass.c_block) || not (c.type == 1))
    then none
    else if version_lt c.version (v 1 0)
    then none
    else if version_lt c.version (v 1 1)
    then some (v_1_0 block_address)
    else if version_lt c.version (v 1 2)
    then some (v_1_1 block_address)
    else none

module _ {F : Type 0} (fl : FloatApi F) where
  abbrev pub min_factor : F
  min_factor = fl.lit (negsuc 100) 2

  abbrev pub max_factor : F
  max_factor = fl.lit (pos 101) 2

  abbrev pub max_gain_correction_abs : F
  max_gain_correction_abs = fl.lit (pos 1) 1

  unfoldable pub init : CBlock F
  init = record {
    factors = replicate num_coeff (one_float fl);
    gain_corrections = replicate num_coeff (one_float fl);
  }

  unfoldable pub get_factor : CBlock F → ℕ → F
  get_factor c idx =
      if leb num_coeff idx then zero_float fl else get_or c.factors idx (zero_float fl)

  unfoldable pub set_factor : CBlock F → ℕ → F → CBlock F × Bool
  set_factor c idx factor =
      if leb num_coeff idx
      then (c, false)
      else if fl.lt max_factor factor || fl.lt factor min_factor
      then (c, false)
      else (record c { factors = set c.factors idx factor }, true)

  unfoldable pub set_factors : CBlock F → List F → CBlock F
  set_factors c factors = record c { factors = factors }

  -- The test lets 32 through; a read there, behind the array, is taken to give 0.
  unfoldable pub get_gain_correction : CBlock F → ℕ → F
  get_gain_correction c idx =
      if ltb num_coeff idx
      then fl.lit (negsuc 1) 0
      else get_or c.gain_corrections idx (zero_float fl)

  -- The test lets 32 through; the write there, behind the array, is taken to change no member.
  unfoldable pub set_gain_correction : CBlock F → ℕ → F → CBlock F × Bool
  set_gain_correction c coeff_idx correction =
      if ltb num_coeff coeff_idx
      then (c, false)
      else if fl.lt max_gain_correction_abs (fl.fabs (fl.sub (one_float fl) correction))
      then (c, false)
      else (record c { gain_corrections = set c.gain_corrections coeff_idx correction }, true)

  unfoldable pub set_gain_corrections : CBlock F → List F → CBlock F
  set_gain_corrections c corrections = record c { gain_corrections = corrections }

  unfoldable pub reset_gain_corrections : CBlock F → CBlock F
  reset_gain_corrections c = record c { gain_corrections = replicate num_coeff (one_float fl) }

  abbrev pub reset_factors : CBlock F → List ℕ → CBlock F
  reset_factors c [] = c
  reset_factors c (i ∷ is) = reset_factors ((set_factor c i (one_float fl)).0) is

  unfoldable pub reset : CBlock F → ℕ → CBlock F
  unfolding set_factor reset_gain_corrections has
  reset c action =
      let c' = if has action circuit_reset then reset_factors c (index_range num_coeff) else c in
      if has action calibration_reset then reset_gain_corrections c' else c'

  abbrev pub write_coeff : List ℕ → ℕ → ℕ → F → Bus Bool
  write_coeff f_coeffs_cs block_address idx value =
      if leb 32 idx
      then pure false
      else (do Ad5452.set_scale fl (coeff_address f_coeffs_cs block_address idx) value; pure true)

  unfoldable pub write_factor : CBlockHal → ℕ → F → Bus Bool
  unfolding Ad5452.set_scale
  write_factor dummy idx value = pure true
  write_factor (v_1_0 block) idx value = write_coeff f_coeffs_cs_1_0 block idx value
  write_factor (v_1_1 block) idx value = write_coeff f_coeffs_cs_1_1 block idx value

  abbrev pub effective_factor : CBlock F → ℕ → F
  effective_factor c i =
      fl.mul (get_or c.factors i (zero_float fl)) (get_or c.gain_corrections i (zero_float fl))

  -- The loop over the indices that are left.
  unfoldable pub write_factors_from : CBlockHal → CBlock F → List ℕ → Bus Bool
  unfolding write_factor
  write_factors_from hardware c [] = pure true
  write_factors_from hardware c (i ∷ is) = do
    written ← write_factor hardware i (effective_factor c i)
    if written then write_factors_from hardware c is else pure false

  unfoldable pub write_factors_to_hardware : CBlockHal → CBlock F → Bus Bool
  unfolding write_factors_from
  write_factors_to_hardware hardware c = write_factors_from hardware c (index_range num_coeff)

  unfoldable pub write_to_hardware : CBlockHal → CBlock F → Bus Status
  unfolding write_factors_to_hardware
  write_to_hardware hardware c = do
    written ← write_factors_to_hardware hardware c
    pure (if not written then failure else success)
