-- ===== src/UBlock/Signals.antt =====
-- The U-block seen from its outputs: which signal each output carries. An output takes its signal
-- over one of two groups of switches (sides); the mode of a side replaces all its inputs at once.
use lucidac_firmware.Common.{
  Bool-cases, inl, inr, ℕ, ◌<◌, ◌≡◌, ◌≢◌, ◌∙◌, refl, sym, ap, Bool, true, false, if◌then◌else◌, ℤ,
  pos, negsuc, int8, int8_small, arith, get_or-set_self, get_or-set_ne,
}
use lucidac_firmware.UBlock.Connect.{side_mode, with_side_mode, may_connect, connect_lem}
use lucidac_firmware.UBlock.Invariant.{IsValid}
use lucidac_firmware.UBlock.{
  UBlock, TransmissionMode, analog_input, same_mode, entry, disconnected, io_sanity_check,
  i_sanity_check, o_sanity_check, connect_unchecked, connect,
}

pub data Signal : Type 0 where
  unconnected : Signal
  input : ℕ → Signal
  alternative : TransmissionMode → Signal

abbrev pub through : TransmissionMode → ℕ → Signal
through mode i = if same_mode mode analog_input then input i else alternative mode

abbrev pub signal_of : UBlock → ℤ → ℕ → Signal
signal_of u (pos i) output = through (side_mode u i output) i
signal_of u (negsuc n) output = unconnected

abbrev pub signal : UBlock → ℕ → Signal
signal u output = signal_of u (entry u output) output

entry-connect_self :
    (u : UBlock) (i o : ℕ) → IsValid u → i < 16 → o < 32 → entry (connect_unchecked u i o) o ≡ pos i
unfolding connect_unchecked
entry-connect_self u i o w hi ho =
    get_or-set_self u.output_input_map o (int8 i) disconnected (omega (arith, w.size))
    ∙ int8_small i (omega arith)

entry-connect_ne : (u : UBlock) (i o p : ℕ) → p ≢ o → entry (connect_unchecked u i o) p ≡ entry u p
unfolding connect_unchecked
entry-connect_ne u i o p ne =
    get_or-set_ne u.output_input_map o p (int8 i) disconnected (λ e. ne (sym e))

-- `connect_unchecked` leaves the modes alone.
signal_of-connect :
    (u : UBlock) (i o : ℕ) (z : ℤ) (p : ℕ)
    → signal_of (connect_unchecked u i o) z p ≡ signal_of u z p
unfolding connect_unchecked
signal_of-connect u i o (pos n) p = refl
signal_of-connect u i o (negsuc n) p = refl

signal-connect_self :
    (u : UBlock) (i o : ℕ)
    → IsValid u
    → i < 16
    → o < 32
    → signal (connect_unchecked u i o) o ≡ through (side_mode u i o) i
signal-connect_self u i o w hi ho =
    rw (entry-connect_self u i o w hi ho) (signal_of-connect u i o (pos i) o)

signal-connect_ne :
    (u : UBlock) (i o p : ℕ) → p ≢ o → signal (connect_unchecked u i o) p ≡ signal u p
signal-connect_ne u i o p ne =
    rw (entry-connect_ne u i o p ne) (signal_of-connect u i o (entry u p) p)

with_side_mode-IsValid :
    (u : UBlock) (i o : ℕ) (m : TransmissionMode) → IsValid u → IsValid (with_side_mode u i o m)
with_side_mode-IsValid u i o m w = ground arith

side_mode-with_side_mode :
    (u : UBlock) (i o : ℕ) (m : TransmissionMode) → side_mode (with_side_mode u i o m) i o ≡ m
side_mode-with_side_mode u i o m = ground arith

-- Setting a side to the mode that it has changes no signal.
signal-with_side_mode :
    (u : UBlock) (i o p : ℕ) → signal (with_side_mode u i o (side_mode u i o)) p ≡ signal u p
signal-with_side_mode u i o p = ground arith

module _ (u : UBlock) (i o : ℕ) (force : Bool) where
  -- `connect` that refuses has changed nothing, the modes included.
  pub connect_refused : (connect u i o force).1 ≡ false → (connect u i o force).0 ≡ u
  connect_refused h = ground (arith, connect_lem u i o force)

  connect_accepted :
      (connect u i o force).1 ≡ true
      → (may_connect u i o force ≡ true)
        × ((connect u i o force).0 ≡ connect_unchecked (with_side_mode u i o analog_input) i o)
  connect_accepted h = ground (arith, connect_lem u i o force)

  pub connect-in_range : (connect u i o force).1 ≡ true → (i < 16) × (o < 32)
  unfolding io_sanity_check i_sanity_check o_sanity_check
  connect-in_range h = ground (arith, connect_accepted h)

  -- On a valid block, `connect` that reports success has put the analog input onto the output,
  -- whatever mode its side was in and whatever the output was connected to.
  pub signal-connect :
      IsValid u → (connect u i o force).1 ≡ true → signal (connect u i o force).0 o ≡ input i
  signal-connect w h =
      let range = connect-in_range h in
      let v = with_side_mode u i o analog_input in
      rw ((connect_accepted h).1) (
        signal-connect_self v i o (with_side_mode-IsValid u i o analog_input w) range.0 range.1
        ∙ ap (λ (m : TransmissionMode). through m i) (side_mode-with_side_mode u i o analog_input))

  -- If the side over which the input reaches the output was in analog mode already, `connect` leaves
  -- the signal of every other output as it was, whether it succeeds or not.
  signal-connect_others :
      (p : ℕ)
      → side_mode u i o ≡ analog_input
      → p ≢ o
      → signal (connect u i o force).0 p ≡ signal u p
  signal-connect_others p e ne = elim (Bool-cases (connect u i o force).1) [
    | inl h ↦
        let v = with_side_mode u i o analog_input in
        rw ((connect_accepted h).1) (
          signal-connect_ne v i o p ne
          ∙ (ap (λ (m : TransmissionMode). signal (with_side_mode u i o m) p) (sym e)
              ∙ signal-with_side_mode u i o p))
    | inr h ↦ rw (connect_refused h)
  ]
