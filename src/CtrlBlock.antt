-- ===== src/CtrlBlock.antt =====
-- The control block, which routes the ADC bus: lib/platform-lucidac/src/block/ctrlblock.h and .cpp.
use lucidac_firmware.Common.{
  ℕ, ◌*◌, ◌^◌, ◌==◌, ltb, leb, bit_or, Bool, true, false, not, ◌||◌, if◌then◌else◌, Option, none,
  some,
}
use lucidac_firmware.Status.{Status, of_bool}
use lucidac_firmware.Entity.{
  has, circuit_reset, EntityClassifier, EntityClass, class_code, classifier_set,
}
use lucidac_firmware.Bus.{address_from_tuple}
use lucidac_firmware.Bus.Functions.{Env, Bus, ◌>>=◌, ◌>>◌, pure, fire, exchange, word16}
use lucidac_firmware.Chips.Sr74Hct595

pub data AdcBus : Type 0 where
  cl0_gain cl1_gain cl2_gain adc : AdcBus

abbrev pub adc_bus_code : AdcBus → ℕ
adc_bus_code cl0_gain = 0
adc_bus_code cl1_gain = 1
adc_bus_code cl2_gain = 2
adc_bus_code adc = 3

unfoldable pub write_adc_bus_muxers : Env → AdcBus → Bus Bool
unfolding Sr74Hct595.transfer8
write_adc_bus_muxers env adc_bus = do
  r ← Sr74Hct595.transfer8 env (address_from_tuple 1 2) (adc_bus_code adc_bus)
  if not (r.0) then pure false else (do fire (address_from_tuple 1 3); pure true)

-- The word on the wire for an id.
abbrev pub sync_word : ℕ → ℕ
sync_word id = bit_or (id * 2 ^ 1) 0b1000_0001

unfoldable pub write_sync_id : Env → ℕ → Bus Bool
write_sync_id env id =
    if ltb 0b0011_1111 id
    then pure false
    else (do exchange env (address_from_tuple 1 4) (word16 (sync_word id)); pure true)

unfoldable pub write_to_hardware : Env → AdcBus → Bus Status
unfolding write_adc_bus_muxers
write_to_hardware env adc_bus = do
  written ← write_adc_bus_muxers env adc_bus
  pure (of_bool written)

-- `FunctionBlock::init` is that of every entity, and returns true.
unfoldable pub init : Env → AdcBus → Bus Bool
unfolding write_adc_bus_muxers
init env adc_bus = write_adc_bus_muxers env adc_bus

-- `set_adc_bus_to_cluster_gain`: the state afterwards, and whether the index was accepted.
unfoldable pub set_adc_bus_to_cluster_gain : AdcBus → ℕ → AdcBus × Bool
set_adc_bus_to_cluster_gain adc_bus cluster_idx =
    if leb 3 cluster_idx
    then (adc_bus, false)
    else if cluster_idx == 0
    then (cl0_gain, true)
    else if cluster_idx == 1
    then (cl1_gain, true)
    else (cl2_gain, true)

unfoldable pub reset : AdcBus → ℕ → AdcBus
reset adc_bus action = if has action circuit_reset then adc else adc_bus

-- The factory's result, the new block's state.
unfoldable pub from_entity_classifier : EntityClassifier → Option AdcBus
unfolding classifier_set
from_entity_classifier c =
    if not (classifier_set c)
      || (not (c.class_ == class_code EntityClass.ctrl_block) || not (c.type == 1))
    then none
    else some adc
