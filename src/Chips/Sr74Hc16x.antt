-- ===== src/Chips/Sr74Hc16x.antt =====
-- The input register of lib/hal-lucidac/src/chips/SR74HC16X.cpp.
use lucidac_firmware.Common.{ℕ}
use lucidac_firmware.Bus.Functions.{Env, Bus, exchange, word8}

unfoldable pub read8 : Env → ℕ → Bus ℕ
read8 env address = exchange env address (word8 0)
