-- ===== src/MIntBlock.antt =====
-- The M-block with eight integrators, its methods and its hardware layers:
-- lib/platform-lucidac/src/block/mblock.h, mblock.cpp and mblock_int.cpp.
pub mod Config
pub mod Valid
pub mod Range
pub mod Written
pub mod RoundTrip
mod Tests
use lucidac_firmware.Common.{
  ℕ, ◌+◌, ◌^◌, ◌==◌, leb, Bool, true, false, not, ◌||◌, if◌then◌else◌, List, [], ◌∷◌, Option, none,
  some, pos, negsuc, get_or, set, replicate, index_range,
}
use lucidac_firmware.Float.{FloatApi, zero_float, one_float}
use lucidac_firmware.Status.{Status, success, failure}
use lucidac_firmware.Entity.{
  has, circuit_reset, overload_reset, EntityClassifier, EntityClass, class_code, classifier_set,
  default_, version_lt, v,
}
use lucidac_firmware.Bus.{replace_function_idx}
use lucidac_firmware.Bus.Functions.{Env, Bus, ◌>>=◌, ◌>>◌, pure, fire}
use lucidac_firmware.Chips.Sr74Hct595
use lucidac_firmware.Chips.Sr74Hc16x
use lucidac_firmware.Chips.Dac60508

pub record MIntBlock (F : Type 0) : Type 0 where
  pub ic_values : List F
  pub time_factors : List ℕ

abbrev pub num_integrators : ℕ
num_integrators = 8

abbrev pub default_time_factor : ℕ
default_time_factor = 10000

-- The hardware layer: `MIntBlockHAL_Dummy`, or the layer of a version at a block address.
pub data MIntBlockHal : Type 0 where
  dummy : MIntBlockHal
  v_1_0_x : ℕ → MIntBlockHal

abbrev pub f_ic_dac : ℕ → ℕ
f_ic_dac block = replace_function_idx block 4

abbrev pub f_time_factor : ℕ → ℕ
f_time_factor block = replace_function_idx block 5

abbrev pub f_time_factor_sync : ℕ → ℕ
f_time_factor_sync block = replace_function_idx block 6

abbrev pub f_overload_flags : ℕ → ℕ
f_overload_flags block = replace_function_idx block 2

abbrev pub f_overload_flags_reset : ℕ → ℕ
f_overload_flags_reset block = replace_function_idx block 3

-- The factory's result: `none` for its null pointer.
unfoldable pub from_entity_classifier : EntityClassifier → ℕ → Option MIntBlockHal
unfolding classifier_set version_lt
from_entity_classifier c block_address =
    if not (classifier_set c)
      || (not (c.class_ == class_code EntityClass.m_block) || not (c.type == 1))
    then none
    else if not (c.variant == default_)
    then none
    else if version_lt c.version (v 1 0)
    then none
    else if version_lt c.version (v 1 1)
    then some (v_1_0_x block_address)
    else none

-- What a reset asks of `mode::RealManualControl`.
pub data ManualCall : Type 0 where
  enable to_ic : ManualCall

unfoldable pub set_time_factor : {F : Type 0} → MIntBlock F → ℕ → ℕ → MIntBlock F × Bool
set_time_factor b int_idx k =
    if not (k == 100 || k == 10000)
    then (b, false)
    else if leb num_integrators int_idx
    then (b, false)
    else (record b { time_factors = set b.time_factors int_idx k }, true)

unfoldable pub reset_time_factors : {F : Type 0} → MIntBlock F → MIntBlock F
reset_time_factors b = record b { time_factors = replicate num_integrators default_time_factor }

unfoldable pub get_time_factor : {F : Type 0} → MIntBlock F → ℕ → ℕ
get_time_factor b idx = if leb num_integrators idx then 0 else get_or b.time_factors idx 0

-- Both overloads of `set_time_factors`, with the factors that are left; one factor for all is a
-- list of eight.
abbrev pub set_time_factors : {F : Type 0} → MIntBlock F → ℕ → List ℕ → MIntBlock F × Bool
set_time_factors b idx [] = (b, true)
set_time_factors b idx (k ∷ ks) =
    let (b', done) = set_time_factor b idx k in
    if done then set_time_factors b' (idx + 1) ks else (b', false)

module _ {F : Type 0} (fl : FloatApi F) where
  unfoldable pub init : MIntBlock F
  init = record {
    ic_values = replicate num_integrators (zero_float fl);
    time_factors = replicate num_integrators default_time_factor;
  }

  unfoldable pub get_ic_value : MIntBlock F → ℕ → F
  get_ic_value b idx =
      if leb num_integrators idx then zero_float fl else get_or b.ic_values idx (zero_float fl)

  unfoldable pub set_ic_value : MIntBlock F → ℕ → F → MIntBlock F × Bool
  set_ic_value b idx value =
      if leb num_integrators idx
      then (b, false)
      else if fl.lt (one_float fl) value || fl.lt value (fl.lit (negsuc 0) 0)
      then (b, false)
      else (record b { ic_values = set b.ic_values idx value }, true)

  -- Both overloads of `set_ic_values`, with the values that are left.
  abbrev pub set_ic_values : MIntBlock F → ℕ → List F → MIntBlock F × Bool
  set_ic_values b idx [] = (b, true)
  set_ic_values b idx (x ∷ xs) =
      let (b', done) = set_ic_value b idx x in
      if done then set_ic_values b' (idx + 1) xs else (b', false)

  unfoldable pub reset_ic_values : MIntBlock F → MIntBlock F
  reset_ic_values b = record b { ic_values = replicate num_integrators (zero_float fl) }

  -- The block, and what is asked of the mode control, first call first.
  unfoldable pub reset : MIntBlock F → ℕ → MIntBlock F × List ManualCall
  unfolding has reset_ic_values reset_time_factors
  reset b action = (
    if has action circuit_reset then reset_time_factors (reset_ic_values b) else b,
    if has action overload_reset then enable ∷ to_ic ∷ [] else [],
  )

module _ (env : Env) where
  unfoldable pub write_time_factor_switches : MIntBlockHal → ℕ → Bus Bool
  unfolding Sr74Hct595.transfer8
  write_time_factor_switches dummy switches = pure true
  write_time_factor_switches (v_1_0_x block) switches = do
    (written, back) ← Sr74Hct595.transfer8 env (f_time_factor block) switches
    if written then (do fire (f_time_factor_sync block); pure true) else pure false

  unfoldable pub read_overload_flags : MIntBlockHal → Bus ℕ
  unfolding Sr74Hc16x.read8
  read_overload_flags dummy = pure 0
  read_overload_flags (v_1_0_x block) = Sr74Hc16x.read8 env (f_overload_flags block)

  unfoldable pub reset_overload_flags : MIntBlockHal → Bus (Unit {0})
  reset_overload_flags dummy = pure tt
  reset_overload_flags (v_1_0_x block) = fire (f_overload_flags_reset block)

  -- `MIntBlock::init` with `MBlockHAL::init` and the layer's own.
  unfoldable pub init_hardware : MIntBlockHal → Bus Bool
  unfolding reset_overload_flags Dac60508.init Dac60508.set_external_reference
      Dac60508.set_double_gain
  init_hardware dummy = pure true
  init_hardware (v_1_0_x block) = do
    fire (f_overload_flags_reset block)
    ready ← Dac60508.init env (f_ic_dac block)
    external ←
        if ready then Dac60508.set_external_reference env (f_ic_dac block) true else pure false
    if external then Dac60508.set_double_gain env (f_ic_dac block) true else pure false

-- The bits of the switches whose integrators are left: one for each factor that is not the default.
abbrev pub switch_bits : List ℕ → ℕ → ℕ
switch_bits [] idx = 0
switch_bits (k ∷ ks) idx =
    let later = switch_bits ks (idx + 1) in
    if not (k == default_time_factor) then 2 ^ idx + later else later

module _ {F : Type 0} (fl : FloatApi F) (env : Env) where
  -- The voltage that the DAC is asked for.
  abbrev pub ic_voltage : F → F
  ic_voltage ic = fl.mul (fl.add ic (one_float fl)) (fl.lit (pos 125) 2)

  unfoldable pub write_ic : MIntBlockHal → ℕ → F → Bus Bool
  unfolding Dac60508.set_channel
  write_ic dummy idx ic = pure true
  write_ic (v_1_0_x block) idx ic =
      if leb num_integrators idx
      then pure false
      else Dac60508.set_channel fl env (f_ic_dac block) idx (ic_voltage ic)

  -- The loop over the indices that are left.
  unfoldable pub write_ics_from : MIntBlockHal → MIntBlock F → List ℕ → Bus Bool
  unfolding write_ic
  write_ics_from hardware b [] = pure true
  write_ics_from hardware b (i ∷ is) = do
    written ← write_ic hardware i (get_or b.ic_values i (zero_float fl))
    if written then write_ics_from hardware b is else pure false

  abbrev pub finish : MIntBlockHal → MIntBlock F → Bus Status
  finish hardware b = do
    switched ← write_time_factor_switches env hardware (switch_bits b.time_factors 0)
    pure (if switched then success else failure)

  unfoldable pub write_to_hardware : MIntBlockHal → MIntBlock F → Bus Status
  unfolding write_ics_from write_time_factor_switches
  write_to_hardware hardware b = do
    written ← write_ics_from hardware b (index_range num_integrators)
    if written then finish hardware b else pure failure
