-- ===== src/IBlock/Hardware.antt =====
-- How an I-block reaches its chips: `chip_cmd_word` and the hardware layers of
-- lib/platform-lucidac/src/block/iblock.h and iblock.cpp.
use lucidac_firmware.Common.{
  ℕ, ◌+◌, ◌*◌, ◌^◌, ◌==◌, bit_and, bit_or, Bool, true, false, not, ◌&&◌, ◌||◌, if◌then◌else◌, List,
  [], ◌∷◌, get_or, index_range,
}
use lucidac_firmware.Status.{Status, of_bool, is_ok}
use lucidac_firmware.Bus.{replace_function_idx}
use lucidac_firmware.Bus.Functions.{Env, Bus, ◌>>=◌, ◌>>◌, pure, fire, pause}
use lucidac_firmware.Chips.Sr74Hct595
use lucidac_firmware.IBlock.{IBlock, input_bitmask}

unfoldable pub chip_cmd_word : ℕ → ℕ → Bool → ℕ
chip_cmd_word chip_input_idx chip_output_idx connect =
    bit_or (bit_or (if connect then 0b1000_0000 else 0) (bit_and chip_output_idx 0x7 * 2 ^ 4))
      (bit_and chip_input_idx 0xF)

-- Bit by bit, the number of a set of bits: `to_ulong`.
abbrev pub to_ulong : List Bool → ℕ
to_ulong [] = 0
to_ulong (b ∷ bs) = (if b then 1 else 0) + 2 * to_ulong bs

-- The hardware layer that a block holds: `IBlockHALDummy`, or `IBlockHAL_V_1_2_X` at an address.
pub data IBlockHal : Type 0 where
  dummy : IBlockHal
  v_1_2 : ℕ → IBlockHal

abbrev pub f_cmd : ℕ → ℕ
f_cmd block_address = replace_function_idx block_address 2

abbrev pub f_imatrix_reset : ℕ → ℕ
f_imatrix_reset block_address = replace_function_idx block_address 4

abbrev pub f_imatrix_sync : ℕ → ℕ
f_imatrix_sync block_address = replace_function_idx block_address 3

abbrev pub scaling_register : ℕ → ℕ
scaling_register block_address = replace_function_idx block_address 5

abbrev pub scaling_register_sync : ℕ → ℕ
scaling_register_sync block_address = replace_function_idx block_address 6

-- Whether the switch between an input and an output is to be closed.
abbrev pub wanted : List ℕ → ℕ → ℕ → Bool
wanted outputs input output = not (bit_and (get_or outputs output 0) (input_bitmask input) == 0)

-- The byte of one chip in the command, at its place: a new one, or the one that was sent last.
abbrev pub chip_byte : List ℕ → ℕ → ℕ → ℕ → ℕ → ℕ
chip_byte outputs remembered place input output =
    if wanted outputs input output
    then chip_cmd_word input output true * 2 ^ (8 * place)
    else bit_and remembered (0xFF * 2 ^ (8 * place))

-- The chips one and two serve the outputs 0 to 7, three and four the outputs 8 to 15; one and three
-- serve the inputs 0 to 15, two and four the inputs 16 to 31.
unfoldable pub command_word : List ℕ → ℕ → ℕ → ℕ → ℕ
unfolding chip_cmd_word
command_word outputs remembered o i =
    bit_or
      (bit_or
        (bit_or (chip_byte outputs remembered 0 i o) (chip_byte outputs remembered 1 (i + 16) o))
        (chip_byte outputs remembered 2 i (o + 8)))
      (chip_byte outputs remembered 3 (i + 16) (o + 8))

abbrev pub actual_data : List ℕ → ℕ → ℕ → Bool
actual_data outputs o i =
    wanted outputs i o
    || (wanted outputs (i + 16) o || (wanted outputs i (o + 8) || wanted outputs (i + 16) (o + 8)))

-- One round of the inner loop: the command remembered afterwards, and whether to go on.
unfoldable pub write_switches : Env → ℕ → List ℕ → ℕ → ℕ → ℕ → Bus (ℕ × Bool)
unfolding command_word Sr74Hct595.transfer32
write_switches env block outputs o i remembered =
    if actual_data outputs o i
    then (do
      r ← Sr74Hct595.transfer32 env (f_cmd block) (command_word outputs remembered o i)
      if not (r.0)
          then pure (command_word outputs remembered o i, false)
          else (do fire (f_imatrix_sync block); pure (command_word outputs remembered o i, true)))
    else pure (remembered, true)

unfoldable pub write_inputs : Env → ℕ → List ℕ → ℕ → List ℕ → ℕ → Bus (ℕ × Bool)
unfolding write_switches
write_inputs env block outputs o [] remembered = pure (remembered, true)
write_inputs env block outputs o (i ∷ is) remembered = do
  r ← write_switches env block outputs o i remembered
  if r.1 then write_inputs env block outputs o is (r.0) else pure r

unfoldable pub write_rows : Env → ℕ → List ℕ → List ℕ → ℕ → Bus (ℕ × Bool)
unfolding write_inputs
write_rows env block outputs [] remembered = pure (remembered, true)
write_rows env block outputs (o ∷ os) remembered =
    if get_or outputs o 0 == 0 && get_or outputs (o + 8) 0 == 0
    then write_rows env block outputs os remembered
    else (do
      r ← write_inputs env block outputs o (index_range 16) remembered
      if r.1 then write_rows env block outputs os (r.0) else pure r)

unfoldable pub write_outputs : Env → IBlockHal → List ℕ → Bus Bool
unfolding write_rows
write_outputs env dummy outputs = pure true
write_outputs env (v_1_2 block) outputs = do
  fire (f_imatrix_reset block)
  pause 420
  r ← write_rows env block outputs (index_range 8) 0
  pure (r.1)

unfoldable pub write_upscaling : Env → IBlockHal → List Bool → Bus Bool
unfolding Sr74Hct595.transfer32
write_upscaling env dummy upscaling = pure true
write_upscaling env (v_1_2 block) upscaling = do
  r ← Sr74Hct595.transfer32 env (scaling_register block) (to_ulong upscaling)
  if not (r.0) then pure false else (do fire (scaling_register_sync block); pure true)

unfoldable pub write_to_hardware : Env → IBlockHal → IBlock → Bus Status
unfolding write_upscaling write_outputs
write_to_hardware env hardware b = do
  upscaling_written ← write_upscaling env hardware b.scaling_factors
  if upscaling_written
      then (do written ← write_outputs env hardware b.outputs; pure (of_bool written))
      else pure (of_bool false)

-- The matrix keeps its state over a power cycle, so it is written at the start. The call of
-- `FunctionBlock::init` before is `Entity::init`, which does nothing and returns true.
unfoldable pub init : Env → IBlockHal → IBlock → Bus Bool
unfolding write_to_hardware
init env hardware b = do status ← write_to_hardware env hardware b; pure (is_ok status)
