-- ===== src/UBlock.antt =====
-- The U-block's state and its methods: lib/platform-lucidac/src/block/ublock.h and ublock.cpp.
-- `output_input_map` holds an `int8_t` per output, -1 where the output is not connected. A method
-- takes the block and returns the block after it with its result.
pub mod Invariant
pub mod Connect
pub mod Signals
pub mod Hardware
pub mod Bytes
pub mod Matrix
pub mod Config
pub mod RoundTrip
pub mod Constants
pub mod Reachable
mod Tests
use lucidac_firmware.Common.{
  ℕ, ◌-◌, ◌==◌, ltb, Bool, true, false, not, ◌&&◌, ◌||◌, if◌then◌else◌, List, ℤ, negsuc, int8,
  nonneg, eq_ℕ, get_or, set, replicate, any, index_range,
}
use lucidac_firmware.Entity.{has, circuit_reset}

pub data ReferenceMagnitude : Type 0 where
  one one_tenth : ReferenceMagnitude

abbrev pub magnitude_code : ReferenceMagnitude → ℕ
magnitude_code one = 0
magnitude_code one_tenth = 1

pub data TransmissionMode : Type 0 where
  analog_input pos_ref neg_ref ground : TransmissionMode

abbrev pub mode_code : TransmissionMode → ℕ
mode_code analog_input = 0b00
mode_code pos_ref = 0b01
mode_code neg_ref = 0b10
mode_code TransmissionMode.ground = 0b11

abbrev pub same_mode : TransmissionMode → TransmissionMode → Bool
same_mode m n = mode_code m == mode_code n

abbrev pub same_magnitude : ReferenceMagnitude → ReferenceMagnitude → Bool
same_magnitude r s = magnitude_code r == magnitude_code s

pub record UBlock : Type 0 where
  pub output_input_map : List ℤ
  pub ref_magnitude : ReferenceMagnitude
  pub a_side_mode : TransmissionMode
  pub b_side_mode : TransmissionMode

abbrev pub num_of_inputs : ℕ
num_of_inputs = 16

abbrev pub num_of_outputs : ℕ
num_of_outputs = 32

abbrev pub disconnected : ℤ
disconnected = negsuc 0

abbrev pub entry : UBlock → ℕ → ℤ
entry u output = get_or u.output_input_map output disconnected

unfoldable pub i_sanity_check : ℕ → Bool
i_sanity_check input = ltb input num_of_inputs

unfoldable pub o_sanity_check : ℕ → Bool
o_sanity_check output = ltb output num_of_outputs

unfoldable pub io_sanity_check : ℕ → ℕ → Bool
unfolding i_sanity_check o_sanity_check
io_sanity_check input output = i_sanity_check input && o_sanity_check output

-- The members with a leading underscore in the source carry `unchecked` here.
unfoldable pub connect_unchecked : UBlock → ℕ → ℕ → UBlock
connect_unchecked u input output = record u {
  output_input_map = set u.output_input_map output (int8 input);
}

unfoldable pub disconnect_unchecked : UBlock → ℕ → UBlock
disconnect_unchecked u output = record u {
  output_input_map = set u.output_input_map output disconnected;
}

unfoldable pub is_connected_unchecked : UBlock → ℕ → ℕ → Bool
is_connected_unchecked u input output = eq_ℕ (entry u output) input

unfoldable pub is_output_connected_unchecked : UBlock → ℕ → Bool
is_output_connected_unchecked u output = nonneg (entry u output)

unfoldable pub is_input_connected_unchecked : UBlock → ℕ → Bool
is_input_connected_unchecked u input = any (λ z. eq_ℕ z input) u.output_input_map

unfoldable pub is_connected : UBlock → ℕ → ℕ → Bool
unfolding io_sanity_check is_connected_unchecked
is_connected u input output =
    if not (io_sanity_check input output) then false else is_connected_unchecked u input output

unfoldable pub is_output_connected : UBlock → ℕ → Bool
unfolding o_sanity_check is_output_connected_unchecked
is_output_connected u output =
    if not (o_sanity_check output) then false else is_output_connected_unchecked u output

unfoldable pub is_input_connected : UBlock → ℕ → Bool
unfolding i_sanity_check is_input_connected_unchecked
is_input_connected u input =
    if not (i_sanity_check input) then false else is_input_connected_unchecked u input

unfoldable pub is_anything_connected : UBlock → Bool
unfolding is_output_connected_unchecked
is_anything_connected u = any (is_output_connected_unchecked u) (index_range num_of_outputs)

unfoldable pub change_a_side_transmission_mode : UBlock → TransmissionMode → UBlock
change_a_side_transmission_mode u mode = record u { a_side_mode = mode }

unfoldable pub change_b_side_transmission_mode : UBlock → TransmissionMode → UBlock
change_b_side_transmission_mode u mode = record u { b_side_mode = mode }

unfoldable pub change_all_transmission_modes : UBlock → TransmissionMode × TransmissionMode → UBlock
unfolding change_a_side_transmission_mode change_b_side_transmission_mode
change_all_transmission_modes u (a, b) =
    change_b_side_transmission_mode (change_a_side_transmission_mode u a) b

unfoldable pub get_all_transmission_modes : UBlock → TransmissionMode × TransmissionMode
get_all_transmission_modes u = (u.a_side_mode, u.b_side_mode)

unfoldable pub get_reference_magnitude : UBlock → ReferenceMagnitude
get_reference_magnitude u = u.ref_magnitude

unfoldable pub change_reference_magnitude : UBlock → ReferenceMagnitude → UBlock
change_reference_magnitude u ref = record u { ref_magnitude = ref }

unfoldable pub reset_reference_magnitude : UBlock → UBlock
reset_reference_magnitude u = record u { ref_magnitude = one }

unfoldable pub reset_connections : UBlock → UBlock
reset_connections u = record u { output_input_map = replicate num_of_outputs disconnected }

-- The constructor: default members, then `reset_connections`.
unfoldable pub init : UBlock
unfolding reset_connections
init = record {
  output_input_map = replicate num_of_outputs disconnected;
  ref_magnitude = one;
  a_side_mode = analog_input;
  b_side_mode = analog_input;
}

unfoldable pub reset : UBlock → ℕ → UBlock
unfolding change_all_transmission_modes reset_connections reset_reference_magnitude has
reset u action =
    if has action circuit_reset
    then reset_reference_magnitude
        (reset_connections (change_all_transmission_modes u (analog_input, analog_input)))
    else u

-- The inputs that reach an output through the b-side switches: 15 for the lower sixteen outputs,
-- 14 for the upper.
abbrev pub b_side : ℕ → ℕ → Bool
b_side input output = ltb output 16 && input == 15 || not (ltb output 16) && input == 14

abbrev pub a_side : ℕ → ℕ → Bool
a_side input output = ltb output 16 && not (input == 15) || not (ltb output 16) && not (input == 14)

-- The second mode check of `connect`, and what follows it.
unfoldable pub connect_b : UBlock → ℕ → ℕ → Bool → UBlock × Bool
connect_b u input output force =
    if not (same_mode u.b_side_mode analog_input) && b_side input output
    then (if not force && is_input_connected u input then (u, false) else (
      connect_unchecked (change_b_side_transmission_mode u analog_input) input output,
      true,
    ))
    else (connect_unchecked u input output, true)

unfoldable pub connect : UBlock → ℕ → ℕ → Bool → UBlock × Bool
connect u input output force =
    if not (io_sanity_check input output)
    then (u, false)
    else if not force && is_output_connected_unchecked u output
    then (u, false)
    else if not (same_mode u.a_side_mode analog_input) && a_side input output
    then (if not force && is_input_connected u input
        then (u, false)
        else connect_b (change_a_side_transmission_mode u analog_input) input output force)
    else connect_b u input output force

-- The input that `connect_alternative` picks for an output.
unfoldable pub alternative_input : ℕ → Bool → ℕ
alternative_input output use_a_side =
    if use_a_side
    then (if ltb output 15
        then output
        else if output == 15
        then 0
        else if output == 30
        then 0
        else output - 16)
    else if ltb output 16
    then 15
    else 14

unfoldable pub connect_alternative : UBlock → TransmissionMode → ℕ → Bool → Bool → UBlock × Bool
connect_alternative u signal_mode output force use_a_side =
    if not (o_sanity_check output)
    then (u, false)
    else if same_mode signal_mode analog_input
    then (u, false)
    else if (same_mode signal_mode pos_ref || same_mode signal_mode neg_ref)
        && (not (same_magnitude u.ref_magnitude one) && not force)
    then (u, false)
    else if not force && is_output_connected_unchecked u output
    then (u, false)
    else if not (same_mode u.a_side_mode signal_mode) && use_a_side
    then (if not force then (u, false) else (
      connect_unchecked (change_a_side_transmission_mode u signal_mode)
          (alternative_input output use_a_side) output,
      true,
    ))
    else if not (same_mode u.b_side_mode signal_mode) && not use_a_side
    then (if not force && (is_input_connected u 14 || is_input_connected u 15)
        then (u, false)
        else (
          connect_unchecked (change_b_side_transmission_mode u signal_mode)
              (alternative_input output use_a_side) output,
          true,
        ))
    else (connect_unchecked u (alternative_input output use_a_side) output, true)

-- `disconnect(input, output)`.
unfoldable pub disconnect_input : UBlock → ℕ → ℕ → UBlock × Bool
disconnect_input u input output =
    if not (io_sanity_check input output)
    then (u, false)
    else if is_connected_unchecked u input output
    then (disconnect_unchecked u output, true)
    else (u, false)

-- `disconnect(output)`.
unfoldable pub disconnect : UBlock → ℕ → UBlock × Bool
disconnect u output =
    if not (o_sanity_check output) then (u, false) else (disconnect_unchecked u output, true)
