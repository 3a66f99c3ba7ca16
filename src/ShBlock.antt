-- ===== src/ShBlock.antt =====
-- The SH-block (track and hold, gain): lib/platform-lucidac/src/block/shblock.h and shblock.cpp.
use Prim.Native.String.{String}
use text.Mathlib.Text.{◌==◌ as str_eq}
use lucidac_firmware.Common.{ℕ, ◌*◌, ◌==◌, not, ◌||◌, if◌then◌else◌, List, Option, none, some}
use lucidac_firmware.Status.{Status, success, message}
use lucidac_firmware.Json.{JsonApi, Outcome, returned, ok}
use lucidac_firmware.Entity.{
  has, circuit_reset, EntityClassifier, EntityClass, class_code, classifier_set, default_,
  version_lt,
}
use lucidac_firmware.Bus.{address_from_tuple, block_baddr, block_idx, BlockIdx}
use lucidac_firmware.Bus.Functions.{Bus, ◌>>◌, pure, fire, pause}
use lucidac_firmware.CBlock.Config.{member}

pub data State : Type 0 where
  track track_at_ic inject gain_zero_to_seven gain_eight_to_fifteen : State

-- The block's functions stand at fixed addresses of cluster 0.
abbrev pub sh_function : ℕ → ℕ
sh_function faddr = address_from_tuple (block_baddr 0 (block_idx BlockIdx.sh_block)) faddr

unfoldable pub reset : State → ℕ → State
reset state action = if has action circuit_reset then inject else state

unfoldable pub write_to_hardware : State → Bus Status
write_to_hardware track = do fire (sh_function 2); pure success
write_to_hardware track_at_ic = do fire (sh_function 3); pure success
write_to_hardware inject = do fire (sh_function 7); pure success
write_to_hardware gain_zero_to_seven = do fire (sh_function 4); fire (sh_function 5); pure success
write_to_hardware gain_eight_to_fifteen = do
  fire (sh_function 4)
  fire (sh_function 6)
  pure success

-- The times are microseconds. The result is the block's state afterwards.
unfoldable pub compensate_hardware_offsets : ℕ → ℕ → Bus State
compensate_hardware_offsets track_time inject_time = do
  fire (sh_function 2)
  pause (track_time * 1000)
  fire (sh_function 7)
  pause (inject_time * 1000)
  pure inject

abbrev pub default_track_time : ℕ
default_track_time = 10000

abbrev pub default_inject_time : ℕ
default_inject_time = 5000

abbrev pub named_state : String → Option State
named_state text =
    if str_eq text "TRACK"
    then some track
    else if str_eq text "TRACK_AT_IC"
    then some track_at_ic
    else if str_eq text "INJECT"
    then some inject
    else if str_eq text "GAIN_ZERO_TO_SEVEN"
    then some gain_zero_to_seven
    else if str_eq text "GAIN_EIGHT_TO_FIFTEEN"
    then some gain_eight_to_fifteen
    else none

-- A value that is no text is equal to none of the five.
module _ {F V : Type 0} (js : JsonApi F V) where
  unfoldable pub config_self_from_json : State → List (String × V) → State × Outcome
  config_self_from_json state cfg = elim (member "state" cfg) [
    | none ↦ (state, ok)
    | some value ↦ elim (js.text? value) [
      | none ↦ (state, returned message)
      | some text ↦ elim (named_state text) [
        | none ↦ (state, returned message)
        | some target ↦ (target, ok)
      ]
    ]
  ]

-- Whether the factory makes a block.
unfoldable pub from_entity_classifier : EntityClassifier → Option State
unfolding classifier_set version_lt
from_entity_classifier c =
    if not (classifier_set c) || not (c.class_ == class_code EntityClass.sh_block)
    then none
    else if not (c.variant == default_)
    then none
    else if version_lt c.version (record { major = 0; minor = 1; patch = 0 })
    then none
    else if version_lt c.version (record { major = 0; minor = 2; patch = 0 })
    then some inject
    else none
