-- ===== src/Chips/Sr74Hct595.antt =====
-- The shift register of lib/hal-lucidac/src/chips/SR74HCT595.cpp, at an address.
use lucidac_firmware.Common.{ℕ, ◌^◌, ◌%◌, ◌==◌, Bool, true, if◌then◌else◌}
use lucidac_firmware.Bus.Functions.{
  Env, Bus, ◌>>=◌, ◌>>◌, pure, exchange, Payload, word8, word16, word32,
}

-- The body that the three transfers share, for words of w bits: `*data_out` is the second result.
abbrev pub checked_transfer : Env → (ℕ → Payload) → ℕ → ℕ → ℕ → Bus (Bool × ℕ)
checked_transfer env word w address data_in =
    if env.pedantic
    then (do
      exchange env address (word data_in)
      written_data ← exchange env address (word data_in)
      pure (written_data % 2 ^ w == data_in, written_data % 2 ^ w))
    else (do ret ← exchange env address (word data_in); pure (true, ret % 2 ^ w))

unfoldable pub transfer8 : Env → ℕ → ℕ → Bus (Bool × ℕ)
transfer8 env = checked_transfer env word8 8

unfoldable pub transfer16 : Env → ℕ → ℕ → Bus (Bool × ℕ)
transfer16 env = checked_transfer env word16 16

unfoldable pub transfer32 : Env → ℕ → ℕ → Bus (Bool × ℕ)
transfer32 env = checked_transfer env word32 32
