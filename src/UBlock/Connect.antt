-- ===== src/UBlock/Connect.antt =====
-- `connect` and `connect_alternative` of the U-block in closed form.
use lucidac_firmware.Common.{ℕ, ◌≡◌, Bool, true, false, not, ◌&&◌, ◌||◌, if◌then◌else◌, arith}
use lucidac_firmware.UBlock.{
  UBlock, TransmissionMode, analog_input, pos_ref, neg_ref, one, same_mode, same_magnitude, a_side,
  b_side, io_sanity_check, o_sanity_check, connect_unchecked, connect, connect_b,
  connect_alternative, alternative_input, is_output_connected_unchecked, is_input_connected,
  change_a_side_transmission_mode, change_b_side_transmission_mode,
}

-- The mode of the side over which an input reaches an output.
abbrev pub side_mode : UBlock → ℕ → ℕ → TransmissionMode
side_mode u input output = if b_side input output then u.b_side_mode else u.a_side_mode

-- What `connect` has to find before it changes anything.
abbrev pub may_connect : UBlock → ℕ → ℕ → Bool → Bool
may_connect u input output force =
    io_sanity_check input output
    && (force
        || not (is_output_connected_unchecked u output)
          && (same_mode (side_mode u input output) analog_input
              || not (is_input_connected u input)))

-- The block with the mode of that side set.
abbrev pub with_side_mode : UBlock → ℕ → ℕ → TransmissionMode → UBlock
with_side_mode u input output mode =
    if b_side input output then record u { b_side_mode = mode } else record u { a_side_mode = mode }

sides : (input output : ℕ) → a_side input output ≡ not (b_side input output)
sides input output = ground arith

pub connect_lem :
    (u : UBlock) (input output : ℕ) (force : Bool)
    → connect u input output force ≡ (
        if may_connect u input output force
        then (connect_unchecked (with_side_mode u input output analog_input) input output, true)
        else (u, false))
unfolding connect connect_b change_a_side_transmission_mode change_b_side_transmission_mode
connect_lem u input output force = rw sides (ground arith)

abbrev pub is_reference : TransmissionMode → Bool
is_reference mode = same_mode mode pos_ref || same_mode mode neg_ref

abbrev pub may_connect_alternative : UBlock → TransmissionMode → ℕ → Bool → Bool → Bool
may_connect_alternative u mode output force use_a_side =
    o_sanity_check output
    && (not (same_mode mode analog_input)
        && (force
            || not (is_reference mode && not (same_magnitude u.ref_magnitude one))
              && (not (is_output_connected_unchecked u output)
                  && (if use_a_side
                      then same_mode u.a_side_mode mode
                      else same_mode u.b_side_mode mode
                        || not (is_input_connected u 14 || is_input_connected u 15)))))

abbrev pub with_mode : UBlock → Bool → TransmissionMode → UBlock
with_mode u use_a_side mode =
    if use_a_side then record u { a_side_mode = mode } else record u { b_side_mode = mode }

pub connect_alternative_lem :
    (u : UBlock) (mode : TransmissionMode) (output : ℕ) (force use_a_side : Bool)
    → connect_alternative u mode output force use_a_side ≡ (
        if may_connect_alternative u mode output force use_a_side
        then (
          connect_unchecked
              (with_mode u use_a_side mode)
              (alternative_input output use_a_side)
              output,
          true,
        )
        else (u, false))
unfolding connect_alternative change_a_side_transmission_mode change_b_side_transmission_mode
connect_alternative_lem u mode output true true = ground arith
connect_alternative_lem u mode output true false = ground arith
connect_alternative_lem u mode output false true = ground arith
connect_alternative_lem u mode output false false = ground arith
