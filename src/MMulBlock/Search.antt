-- ===== src/MMulBlock/Search.antt =====
-- The search for the input offsets in `MMulBlock::calibrate` of mblock_mul.cpp: from -0.1 upwards
-- in steps of 0.01, until the measured product is not negative or the hardware layer refuses.
-- What `daq_->sample(mul_idx)` measures after the calls of a log is a parameter.
use lucidac_firmware.Common.{
  ℕ, zero, suc, Bool, true, false, not, ◌&&◌, if◌then◌else◌, List, Option, none, some, pos, negsuc,
}
use lucidac_firmware.Float.{FloatApi, zero_float}
use lucidac_firmware.Bus.Functions.{Env, Bus, ◌>>=◌, ◌>>◌, pure, pause, Call}
use lucidac_firmware.MMulBlock.{write_calibration_input_offsets}

-- `delay(7)`, in nanoseconds.
abbrev pub seven_milliseconds : ℕ
seven_milliseconds = 7000000

module _ {F : Type 0} (fl : FloatApi F) where
  abbrev pub first_offset : F
  first_offset = fl.lit (negsuc 0) 1

  abbrev pub next_offset : F → F
  next_offset offset = fl.add offset (fl.lit (pos 1) 2)

  -- The `while` loop on fuel: `none` when the fuel is used up, else the offset that is recorded and
  -- whether every write was accepted.
  module _ (write : F → Bus Bool) (sample : List Call → F) where
    abbrev pub seen_negative : Bus Bool
    seen_negative log = (fl.lt (sample log) (zero_float fl), log)

    unfoldable pub raise : ℕ → F → Bus (Option (F × Bool))
    raise zero offset = do
      negative ← seen_negative
      pure (if negative then none else some (offset, true))
    raise (suc fuel) offset = do
      negative ← seen_negative
      written ← if negative then write offset else pure false
      if written then pause seven_milliseconds else pure tt
      if written then raise fuel (next_offset offset) else pure (some (offset, not negative))

    abbrev pub both : Bool → Option (F × Bool) → Option (F × Bool)
    both first none = none
    both first (some (offset, rest)) = some (offset, first && rest)

    -- The first write, whose refusal does not stop the search, and the loop.
    unfoldable pub search : ℕ → Bus (Option (F × Bool))
    unfolding raise
    search fuel = do
      first ← write first_offset
      found ← raise fuel first_offset
      pure (both first found)

  module _ (env : Env) (block : ℕ) (sample : List Call → ℕ → F) where
    unfoldable pub search_offset_x : ℕ → ℕ → Bus (Option (F × Bool))
    unfolding search write_calibration_input_offsets
    search_offset_x mul_idx =
        search
          (λ offset_x.
            write_calibration_input_offsets fl env block mul_idx offset_x (zero_float fl))
          (λ log. sample log mul_idx)

    unfoldable pub search_offset_y : ℕ → F → ℕ → Bus (Option (F × Bool))
    unfolding search write_calibration_input_offsets
    search_offset_y mul_idx offset_x =
        search (λ offset_y. write_calibration_input_offsets fl env block mul_idx offset_x offset_y)
          (λ log. sample log mul_idx)
