-- ===== src/UBlock/Constants.antt =====
-- Constants on the b side of a U-block beside inputs that are connected later.
use lucidac_firmware.Common.{
  ℕ, ◌+◌, ◌<◌, ◌≡◌, refl, ◌==◌, Bool, true, false, ◌&&◌, arith, and_true, all_below,
  all_below_sound,
}
use lucidac_firmware.UBlock.{
  UBlock, TransmissionMode, pos_ref, neg_ref, same_mode, init, connect, connect_alternative,
  io_sanity_check, o_sanity_check, is_output_connected_unchecked, is_input_connected,
  connect_unchecked, connect_b, change_b_side_transmission_mode, alternative_input,
}
use lucidac_firmware.UBlock.Signals.{Signal, input, alternative, signal}

abbrev carries_alternative : TransmissionMode → Signal → Bool
carries_alternative m (alternative n) = same_mode n m
carries_alternative m _ = false

abbrev carries_input : ℕ → Signal → Bool
carries_input i (input j) = j == i
carries_input i _ = false

-- A constant on output 16 + k over the b side, then an input on output o below 16 over the same side.
abbrev pub with_constant : TransmissionMode → ℕ → UBlock × Bool
with_constant m k = connect_alternative init m (16 + k) false false

abbrev pub then_input : TransmissionMode → ℕ → ℕ → UBlock × Bool
then_input m k o = connect (with_constant m k).0 15 o false

abbrev disturbed : TransmissionMode → ℕ → ℕ → Bool
disturbed m k o =
    ((with_constant m k).1 && (then_input m k o).1)
    && (carries_alternative m (signal (with_constant m k).0 (16 + k))
        && carries_input 14 (signal (then_input m k o).0 (16 + k)))

abbrev pub reference : Bool → TransmissionMode
reference true = pos_ref
reference false = neg_ref

table :
    (positive : Bool) → all_below 16 (λ k. all_below 16 (disturbed (reference positive) k)) ≡ true
unfolding connect connect_b connect_alternative init o_sanity_check io_sanity_check
    connect_unchecked is_output_connected_unchecked is_input_connected
    change_b_side_transmission_mode alternative_input
table true = refl
table false = refl

of_alternative :
    (m : TransmissionMode) (s : Signal) → carries_alternative m s ≡ true → s ≡ alternative m
of_alternative m s h = ground arith

of_input : (i : ℕ) (s : Signal) → carries_input i s ≡ true → s ≡ input i
of_input i s h = ground arith

-- On a new U-block, put a reference on one of the outputs 16 to 31, then connect input 15 to one of
-- the outputs 0 to 15, neither by force. Both calls succeed, and the second one has replaced the
-- reference on the first output by the analog input 14.
pub connect-drops_constant :
    (positive : Bool) (k o : ℕ)
    → k < 16
    → o < 16
    → ((with_constant (reference positive) k).1 ≡ true)
      × (signal (with_constant (reference positive) k).0 (16 + k)
          ≡ alternative (reference positive))
      × ((then_input (reference positive) k o).1 ≡ true)
      × (signal (then_input (reference positive) k o).0 (16 + k) ≡ input 14)
connect-drops_constant positive k o hk ho =
    let m = reference positive in
    let row = all_below_sound 16 (λ j. all_below 16 (disturbed m j)) k (table positive) hk in
    let (calls, signals) = and_true _ _ (all_below_sound 16 (disturbed m k) o row ho) in
    let (first, second) = and_true _ _ calls in
    let (before, after) = and_true _ _ signals in
    (first, of_alternative m _ before, second, of_input 14 _ after)
