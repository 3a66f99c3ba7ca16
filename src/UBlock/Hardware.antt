-- ===== src/UBlock/Hardware.antt =====
-- How a U-block reaches its chips: `shift_5_left`, `UMatrixFunction::transfer` and the hardware
-- layers of lib/platform-lucidac/src/block/ublock.h, ublock.tpl.h and ublock.cpp.
use lucidac_firmware.Common.{
  ℕ, zero, suc, ◌*◌, ◌/◌, ◌%◌, ◌^◌, ◌==◌, ltb, bit_and, bit_or, Bool, true, false, not, ◌&&◌, ◌||◌,
  if◌then◌else◌, List, [], ◌∷◌, Option, none, some, ℤ, pos, negsuc, get_or, replicate,
}
use lucidac_firmware.Entity.{
  EntityClassifier, EntityClass, class_code, classifier_set, version_lt, v,
}
use lucidac_firmware.Status.{Status, success, failure}
use lucidac_firmware.Bus.{replace_function_idx}
use lucidac_firmware.Bus.Functions.{Env, Bus, ◌>>=◌, ◌>>◌, pure, fire, exchange_bytes}
use lucidac_firmware.Chips.Sr74Hct595
use lucidac_firmware.UBlock.{
  UBlock, TransmissionMode, ReferenceMagnitude, mode_code, magnitude_code, disconnected,
}

-- In place from the front: byte idx is written after byte idx + 1 was read and before it is written.
unfoldable pub shift_5_left : List ℕ → List ℕ
shift_5_left [] = []
shift_5_left (b ∷ []) = (b * 2 ^ 5 % 2 ^ 8) ∷ []
shift_5_left (b ∷ next ∷ rest) =
    bit_or (b * 2 ^ 5 % 2 ^ 8) (bit_and (next / 2 ^ 3) 0x1F) ∷ shift_5_left (next ∷ rest)

-- `buffer[sizeof(buffer) - 1] |= x`.
unfoldable pub or_last : ℕ → List ℕ → List ℕ
or_last x [] = []
or_last x (b ∷ []) = bit_or b x ∷ []
or_last x (b ∷ next ∷ rest) = b ∷ or_last x (next ∷ rest)

unfoldable pub put_selected : ℤ → List ℕ → List ℕ
unfolding or_last
put_selected (pos n) buffer = or_last (bit_and n 0x0F) (or_last 0b0001_0000 buffer)
put_selected (negsuc n) buffer = buffer

-- The loop over idx, down to 1; `suc k` is idx.
unfoldable pub fill : List ℤ → ℕ → List ℕ → List ℕ
unfolding put_selected shift_5_left
fill outputs zero buffer = buffer
fill outputs (suc k) buffer =
    let filled = put_selected (get_or outputs k disconnected) buffer in
    fill outputs k (if ltb 1 (suc k) then shift_5_left filled else filled)

-- The 20 bytes for the 32 outputs.
unfoldable pub matrix_bytes : List ℤ → List ℕ
unfolding fill
matrix_bytes outputs = fill outputs 32 (replicate 20 0)

-- `memcmp(a, b, n) == 0`.
abbrev pub same_bytes : List ℕ → List ℕ → Bool
same_bytes [] [] = true
same_bytes [] (y ∷ ys) = false
same_bytes (x ∷ xs) [] = false
same_bytes (x ∷ xs) (y ∷ ys) = x == y && same_bytes xs ys

unfoldable pub umatrix_transfer : Env → ℕ → List ℤ → Bus Bool
unfolding matrix_bytes
umatrix_transfer env address outputs = do
  exchange_bytes env address (matrix_bytes outputs)
  if env.pedantic
      then (do
        read_buffer ← exchange_bytes env address (matrix_bytes outputs)
        pure (same_bytes (matrix_bytes outputs) read_buffer))
      else pure true

-- The hardware layer that a block holds: `UBlockHAL_Dummy`, or `UBlockHAL_V_1_2_X` at an address.
pub data UBlockHal : Type 0 where
  dummy : UBlockHal
  v_1_2 : ℕ → UBlockHal

abbrev pub f_umatrix : ℕ → ℕ
f_umatrix block_address = replace_function_idx block_address 5

abbrev pub f_umatrix_sync : ℕ → ℕ
f_umatrix_sync block_address = replace_function_idx block_address 6

abbrev pub f_transmission_mode_register : ℕ → ℕ
f_transmission_mode_register block_address = replace_function_idx block_address 2

abbrev pub f_transmission_mode_sync : ℕ → ℕ
f_transmission_mode_sync block_address = replace_function_idx block_address 3

abbrev pub f_transmission_mode_reset : ℕ → ℕ
f_transmission_mode_reset block_address = replace_function_idx block_address 4

unfoldable pub write_outputs : Env → UBlockHal → List ℤ → Bus Bool
write_outputs env dummy outputs = pure true
write_outputs env (v_1_2 block) outputs = do
  done ← umatrix_transfer env (f_umatrix block) outputs
  if not done then pure false else (do fire (f_umatrix_sync block); pure true)

unfoldable pub mode_byte : TransmissionMode × TransmissionMode → ReferenceMagnitude → ℕ
mode_byte modes ref =
    bit_or (bit_or (magnitude_code ref) (mode_code modes.0 * 2 ^ 1)) (mode_code modes.1 * 2 ^ 3)

unfoldable pub write_transmission_modes_and_ref :
    Env → UBlockHal → TransmissionMode × TransmissionMode → ReferenceMagnitude → Bus Bool
unfolding mode_byte Sr74Hct595.transfer8
write_transmission_modes_and_ref env dummy modes ref = pure true
write_transmission_modes_and_ref env (v_1_2 block) modes ref = do
  r ← Sr74Hct595.transfer8 env (f_transmission_mode_register block) (mode_byte modes ref)
  if not (r.0) then pure false else (do fire (f_transmission_mode_sync block); pure true)

unfoldable pub reset_transmission_modes_and_ref : UBlockHal → Bus (Unit {0})
reset_transmission_modes_and_ref dummy = pure tt
reset_transmission_modes_and_ref (v_1_2 block) = fire (f_transmission_mode_reset block)

-- The second write is made only if the first succeeded.
unfoldable pub write_to_hardware : Env → UBlockHal → UBlock → Bus Status
unfolding write_outputs write_transmission_modes_and_ref
write_to_hardware env hardware u = do
  outputs_written ← write_outputs env hardware u.output_input_map
  if not outputs_written then pure failure else (do
    modes_written ←
        write_transmission_modes_and_ref env hardware (u.a_side_mode, u.b_side_mode) u.ref_magnitude
    pure (if not modes_written then failure else success))

-- The hardware layer of the block that the factory makes; `none` for its null pointer.
unfoldable pub from_entity_classifier : EntityClassifier → ℕ → Option UBlockHal
unfolding classifier_set version_lt
from_entity_classifier c block_address =
    if not (classifier_set c)
      || (not (c.class_ == class_code EntityClass.u_block) || not (c.type == 1))
    then none
    else if version_lt c.version (v 1 2)
    then none
    else if version_lt c.version (v 1 3)
    then some (v_1_2 block_address)
    else none
