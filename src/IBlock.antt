-- ===== src/IBlock.antt =====
-- The I-block's state and its methods: lib/platform-lucidac/src/block/iblock.h and iblock.cpp.
-- `outputs` holds for each of the 16 outputs a `uint32_t` with a bit for each of the 32 inputs.
pub mod Connections
pub mod Invariant
pub mod Reachable
pub mod Config
pub mod Configured
pub mod Hardware
pub mod Switches
pub mod ChipStep
pub mod SwitchMatrix
pub mod Written
mod Tests
use lucidac_firmware.Common.{
  ℕ, ◌%◌, ◌^◌, ◌==◌, ltb, leb, bit_and, bit_or, bit_not, Bool, true, false, not, ◌&&◌, ◌||◌,
  if◌then◌else◌, List, get_or, set, replicate, any, index_range,
}
use lucidac_firmware.Entity.{has, circuit_reset}

pub record IBlock : Type 0 where
  pub outputs : List ℕ
  pub scaling_factors : List Bool

abbrev pub num_inputs : ℕ
num_inputs = 32

abbrev pub num_outputs : ℕ
num_outputs = 16

abbrev pub input_bitmask : ℕ → ℕ
input_bitmask input_idx = 2 ^ input_idx

abbrev pub row : IBlock → ℕ → ℕ
row b output = get_or b.outputs output 0

-- The members with a leading underscore in the source carry `unchecked` here.
unfoldable pub is_connected_unchecked : IBlock → ℕ → ℕ → Bool
is_connected_unchecked b input output = not (bit_and (row b output) (input_bitmask input) == 0)

unfoldable pub is_output_connected_unchecked : IBlock → ℕ → Bool
is_output_connected_unchecked b output = not (row b output == 0)

unfoldable pub is_connected : IBlock → ℕ → ℕ → Bool
unfolding is_connected_unchecked
is_connected b input output =
    if leb num_outputs output || leb num_inputs input
    then false
    else is_connected_unchecked b input output

-- The loop binds an element of `outputs` and passes it on as an index, narrowed to a `uint8_t`. An
-- index out of range is taken to read 0.
unfoldable pub is_anything_connected : IBlock → Bool
unfolding is_output_connected_unchecked
is_anything_connected b = any (λ output. is_output_connected_unchecked b (output % 2 ^ 8)) b.outputs

abbrev pub connected_elsewhere : IBlock → ℕ → ℕ → Bool
connected_elsewhere b input output =
    any (λ other. not (output == other) && is_connected b input other) (index_range num_outputs)

unfoldable pub connect : IBlock → ℕ → ℕ → Bool → Bool → IBlock × Bool
connect b input output exclusive allow_input_splitting =
    if leb num_outputs output || leb num_inputs input
    then (b, false)
    else if not allow_input_splitting && connected_elsewhere b input output
    then (b, false)
    else if exclusive
    then (record b { outputs = set b.outputs output (input_bitmask input) }, true)
    else (
      record b { outputs = set b.outputs output (bit_or (row b output) (input_bitmask input)) },
      true,
    )

unfoldable pub reset_outputs : IBlock → IBlock
reset_outputs b = record b { outputs = replicate num_outputs 0 }

unfoldable pub reset_upscaling : IBlock → IBlock
reset_upscaling b = record b { scaling_factors = replicate num_inputs false }

unfoldable pub init : IBlock
init = record { outputs = replicate num_outputs 0; scaling_factors = replicate num_inputs false }

unfoldable pub reset : IBlock → ℕ → IBlock
unfolding reset_outputs reset_upscaling
reset b action = if has action circuit_reset then reset_upscaling (reset_outputs b) else b

-- `disconnect(input, output)`.
unfoldable pub disconnect_input : IBlock → ℕ → ℕ → IBlock × Bool
disconnect_input b input output = if not (is_connected b input output) then (b, false) else (
  record b {
    outputs = set b.outputs output (bit_and (row b output) (bit_not 32 (input_bitmask input)));
  },
  true,
)

-- `disconnect(output)`.
unfoldable pub disconnect : IBlock → ℕ → IBlock × Bool
disconnect b output =
    if leb num_outputs output
    then (b, false)
    else (record b { outputs = set b.outputs output 0 }, true)

-- `set_upscaling(input, upscale)`.
unfoldable pub set_upscaling : IBlock → ℕ → Bool → IBlock × Bool
set_upscaling b input upscale =
    if leb num_inputs input
    then (b, false)
    else (record b { scaling_factors = set b.scaling_factors input upscale }, true)

-- `set_upscaling(scales)`.
unfoldable pub set_all_upscaling : IBlock → List Bool → IBlock
set_all_upscaling b scales = record b { scaling_factors = scales }

-- The guard lets 32 through; the bit read there, outside the set of 32, is taken to be false.
unfoldable pub get_upscaling : IBlock → ℕ → Bool
get_upscaling b output = if ltb 32 output then false else get_or b.scaling_factors output false

unfoldable pub set_outputs : IBlock → List ℕ → IBlock
set_outputs b outputs = record b { outputs = outputs }
