-- ===== src/Chips/Dac60508.antt =====
-- The 12-bit DAC with eight channels: lib/hal-lucidac/src/chips/DAC60508.h and DAC60508.cpp.
use lucidac_firmware.Common.{
  ℕ, ◌+◌, ◌*◌, ◌%◌, ◌^◌, ◌==◌, leb, bit_and, bit_or, bit_not, Bool, true, false, if◌then◌else◌, pos,
}
use lucidac_firmware.Float.{FloatApi, le_float, zero_float}
use lucidac_firmware.Bus.Functions.{Env, Bus, ◌>>=◌, ◌>>◌, pure, exchange, command}

abbrev pub reg_config : ℕ
reg_config = 3

abbrev pub reg_gain : ℕ
reg_gain = 4

-- The sum is a `uint8_t`.
abbrev pub reg_dac : ℕ → ℕ
reg_dac i = (8 + i) % 2 ^ 8

abbrev pub raw_zero : ℕ
raw_zero = 0x0

abbrev pub raw_two_five : ℕ
raw_two_five = 0xFFF0

module _ (env : Env) (dac : ℕ) where
  unfoldable pub read_register : ℕ → Bus ℕ
  read_register address = do
    exchange env dac (command (bit_or (bit_and address 0x0F) 0x80) 0)
    exchange env dac (command 0 0)

  -- The comparison made with ANABRID_PEDANTIC.
  unfoldable pub confirmed : ℕ → ℕ → Bool → Bus Bool
  unfolding read_register
  confirmed address data_ true = do read ← read_register address; pure (data_ == read)
  confirmed address data_ false = pure true

  unfoldable pub write_register : ℕ → ℕ → Bus Bool
  unfolding confirmed
  write_register address data_ = do
    exchange env dac (command (bit_and address 0x0F) data_)
    confirmed address data_ env.pedantic

  unfoldable pub set_channel_raw : ℕ → ℕ → Bus Bool
  unfolding write_register
  set_channel_raw idx value = write_register (reg_dac idx) value

  unfoldable pub init : Bus Bool
  unfolding write_register
  init = do
    configured ← write_register reg_config 0
    if configured then write_register reg_gain 0 else pure false

  unfoldable pub set_external_reference : Bool → Bus Bool
  unfolding read_register write_register
  set_external_reference set = do
    config ← read_register reg_config
    write_register reg_config
        (if set then bit_or config 0x0100 else bit_and config (bit_not 16 0x0100))

  unfoldable pub set_double_gain_of : ℕ → Bool → Bus Bool
  unfolding read_register write_register
  set_double_gain_of idx set = if leb 8 idx then pure false else (do
    gain ← read_register reg_gain
    write_register reg_gain
        (if set then bit_or gain (2 ^ idx) else bit_and gain (bit_not 16 (2 ^ idx))))

  unfoldable pub set_double_gain : Bool → Bus Bool
  unfolding read_register write_register
  set_double_gain set = do
    gain ← read_register reg_gain
    write_register reg_gain (if set then bit_or gain 0x00FF else bit_and gain (bit_not 16 0x00FF))

module _ {F : Type 0} (fl : FloatApi F) where
  -- The shift is made on `int` and its result put into a `uint16_t`.
  unfoldable pub float_to_raw : F → ℕ
  float_to_raw value =
      if le_float fl value (zero_float fl)
      then raw_zero
      else if le_float fl (fl.lit (pos 25) 1) value
      then raw_two_five
      else fl.to_uint16 (fl.mul (fl.div value (fl.lit (pos 25) 1)) (fl.lit (pos 0x0FFF) 0))
        * 2 ^ 4
        % 2 ^ 16

  unfoldable pub set_channel : Env → ℕ → ℕ → F → Bus Bool
  unfolding write_register float_to_raw
  set_channel env dac idx value = write_register env dac (reg_dac idx) (float_to_raw value)
