-- ===== src/Chips.antt =====
-- Drivers of chips behind the digital bus: lib/hal-lucidac/src/chips.
pub mod Sr74Hct595
pub mod Ad5452
pub mod Dac60508
pub mod Sr74Hc16x
