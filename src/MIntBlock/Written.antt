-- ===== src/MIntBlock/Written.antt =====
-- What a written integrator block leaves in its DAC and in its switches.
use lucidac_firmware.Common.{
  ℕ, zero, suc, ◌+◌, ◌*◌, ◌/◌, ◌<◌, ◌≤◌, ◌≡◌, refl, ◌==◌, ==_refl, le→leb_false, bit, bit-zero,
  bit_and, Bool, true, false, not, ◌&&◌, if◌then◌else◌, List, [], ◌∷◌, Option, none, some, arith,
  get_or, count_from,
}
use native.Mathlib.Nat.{pow-suc}
use native.Mathlib.Decide.{ℕ_discrete}
use lucidac_firmware.Float.{FloatApi, zero_float}
use lucidac_firmware.Status.{Status, success, failure}
use lucidac_firmware.Bus.Functions.{
  Env, pure, Call, trigger, transfer, wait, word8, word16, word32, command, bytes,
}
use lucidac_firmware.Chips.Sr74Hct595
use lucidac_firmware.Chips.Dac60508
use lucidac_firmware.MIntBlock.{
  MIntBlock, v_1_0_x, default_time_factor, switch_bits, f_ic_dac, f_time_factor, f_time_factor_sync,
  ic_voltage, finish, write_ic, write_ics_from, write_time_factor_switches, write_to_hardware,
}

-- The word that the DAC at an address was sent last for a register, newest call first.
abbrev pub register_word : ℕ → ℕ → List Call → Option ℕ
register_word dac r [] = none
register_word dac r (transfer a d (command c w) ∷ log) =
    if dac == a && c == r then some w else register_word dac r log
register_word dac r (transfer a d (word8 w) ∷ log) = register_word dac r log
register_word dac r (transfer a d (word16 w) ∷ log) = register_word dac r log
register_word dac r (transfer a d (word32 w) ∷ log) = register_word dac r log
register_word dac r (transfer a d (bytes w) ∷ log) = register_word dac r log
register_word dac r (trigger a ∷ log) = register_word dac r log
register_word dac r (wait ns ∷ log) = register_word dac r log

-- The byte in a shift register.
abbrev shifted_byte : ℕ → List Call → Option ℕ
shifted_byte f [] = none
shifted_byte f (transfer a d (word8 w) ∷ log) = if f == a then some w else shifted_byte f log
shifted_byte f (transfer a d (command c w) ∷ log) = shifted_byte f log
shifted_byte f (transfer a d (word16 w) ∷ log) = shifted_byte f log
shifted_byte f (transfer a d (word32 w) ∷ log) = shifted_byte f log
shifted_byte f (transfer a d (bytes w) ∷ log) = shifted_byte f log
shifted_byte f (trigger a ∷ log) = shifted_byte f log
shifted_byte f (wait ns ∷ log) = shifted_byte f log

-- The byte that the last trigger of `sync` took over from the shift register.
abbrev pub latched_byte : ℕ → ℕ → List Call → Option ℕ
latched_byte f sync [] = none
latched_byte f sync (trigger a ∷ log) =
    if sync == a then shifted_byte f log else latched_byte f sync log
latched_byte f sync (transfer a d p ∷ log) = latched_byte f sync log
latched_byte f sync (wait ns ∷ log) = latched_byte f sync log

switch_bits_double : (ks : List ℕ) (idx : ℕ) → switch_bits ks (suc idx) ≡ 2 * switch_bits ks idx
switch_bits_double [] idx = refl
switch_bits_double (k ∷ ks) idx = ground (arith, switch_bits_double ks (idx + 1), pow-suc 2 idx)

pub bit-switch_bits :
    (ks : List ℕ) (j : ℕ)
    → bit (switch_bits ks 0) j ≡ not (get_or ks j default_time_factor == default_time_factor)
bit-switch_bits [] j = bit-zero j
bit-switch_bits (k ∷ ks) zero = ground (arith, switch_bits_double ks 0)
bit-switch_bits (k ∷ ks) (suc j) =
    let half : switch_bits (k ∷ ks) 0 / 2 ≡ switch_bits ks 0 =
      ground (arith, switch_bits_double ks 0) in
    rw half (bit-switch_bits ks j)

pub command_byte : (k : ℕ) → k < 8 → bit_and (Dac60508.reg_dac k) 0x0F ≡ 8 + k
command_byte zero h = refl
command_byte (suc zero) h = refl
command_byte (suc (suc zero)) h = refl
command_byte (suc (suc (suc zero))) h = refl
command_byte (suc (suc (suc (suc zero)))) h = refl
command_byte (suc (suc (suc (suc (suc zero))))) h = refl
command_byte (suc (suc (suc (suc (suc (suc zero)))))) h = refl
command_byte (suc (suc (suc (suc (suc (suc (suc zero))))))) h = refl
command_byte (suc (suc (suc (suc (suc (suc (suc (suc k)))))))) h = absurd (omega arith)

module _ {F : Type 0} (fl : FloatApi F) (env : Env) (plain_build : env.pedantic ≡ false) (block : ℕ)
    (b : MIntBlock F) where
  abbrev raw : ℕ → ℕ
  raw k = Dac60508.float_to_raw fl (ic_voltage fl env (get_or b.ic_values k (zero_float fl)))

  write_ic_lem :
      (k : ℕ) (log : List Call)
      → k < 8
      → write_ic fl env (v_1_0_x block) k (get_or b.ic_values k (zero_float fl)) log
        ≡ (true, transfer (f_ic_dac block) 0 (command (8 + k) (raw k)) ∷ log)
  unfolding write_ic Dac60508.set_channel Dac60508.write_register Dac60508.confirmed
  write_ic_lem k log h = rw (le→leb_false 8 k h, plain_build, command_byte k h) refl

  write_ics_lem :
      (n k : ℕ) (log : List Call)
      → k + suc n ≤ 8
      → write_ics_from fl env (v_1_0_x block) b (count_from k (suc n)) log
        ≡ write_ics_from fl env
            (v_1_0_x block)
            b
            (count_from (suc k) n)
            (transfer (f_ic_dac block) 0 (command (8 + k) (raw k)) ∷ log)
  unfolding write_ics_from
  write_ics_lem n k log l = rw (write_ic_lem k log (omega arith)) refl

  all_written :
      (n k : ℕ) (log : List Call)
      → k + n ≤ 8
      → (write_ics_from fl env (v_1_0_x block) b (count_from k n) log).0 ≡ true
  unfolding write_ics_from
  all_written zero k log l = refl
  all_written (suc n) k log l = rw (write_ics_lem n k log l) (all_written n (suc k) _ (omega arith))

  older :
      (n k i : ℕ) (log : List Call)
      → i < k
      → k + n ≤ 8
      → register_word
          (f_ic_dac block)
          (8 + i)
          (write_ics_from fl env (v_1_0_x block) b (count_from k n) log).1
        ≡ register_word (f_ic_dac block) (8 + i) log
  unfolding write_ics_from
  older zero k i log h l = refl
  older (suc n) k i log h l =
      let other : (f_ic_dac block == f_ic_dac block && 8 + k == 8 + i) ≡ false = ground arith in
      rw
        (
          write_ics_lem n k log l,
          older n (suc k) i (transfer (f_ic_dac block) 0 (command (8 + k) (raw k)) ∷ log)
              (omega arith) (omega arith),
          other,
        )
        refl

  newest :
      (n k i : ℕ) (log : List Call)
      → k ≤ i
      → i < k + n
      → k + n ≤ 8
      → register_word
          (f_ic_dac block)
          (8 + i)
          (write_ics_from fl env (v_1_0_x block) b (count_from k n) log).1
        ≡ some (raw i)
  newest zero k i log lo hi l = absurd (omega arith)
  newest (suc n) k i log lo hi l = rw (write_ics_lem n k log l) (elim (ℕ_discrete k i) [
    | yes e ↦ rw (← e) (
        rw
          (
            older n (suc k) k (transfer (f_ic_dac block) 0 (command (8 + k) (raw k)) ∷ log)
                (omega arith) (omega arith),
            ==_refl (f_ic_dac block),
            ==_refl (8 + k),
          )
          refl)
    | no ne ↦ newest n (suc k) i _ (omega arith) (omega arith) (omega arith)
  ])

  -- What `write_to_hardware` does after the loop.
  abbrev finish_ics : Bool × List Call → Status × List Call
  finish_ics (written, log) =
      (if written then finish fl env (v_1_0_x block) b else pure failure) log

  -- The last two calls, behind the values of the indices.
  written_lem :
      (is : List ℕ) (log : List Call)
      → (write_ics_from fl env (v_1_0_x block) b is log).0 ≡ true
      → finish_ics (write_ics_from fl env (v_1_0_x block) b is log) ≡ (
        success,
        trigger (f_time_factor_sync block)
            ∷ transfer (f_time_factor block) 0 (word8 (switch_bits b.time_factors 0))
            ∷ (write_ics_from fl env (v_1_0_x block) b is log).1,
      )
  unfolding write_time_factor_switches Sr74Hct595.transfer8
  written_lem is log e = rw (e, plain_build) refl

  write_to_hardware-calls :
      (log : List Call)
      → write_to_hardware fl env (v_1_0_x block) b log ≡ (
        success,
        trigger (f_time_factor_sync block)
            ∷ transfer (f_time_factor block) 0 (word8 (switch_bits b.time_factors 0))
            ∷ (write_ics_from fl env (v_1_0_x block) b (count_from 0 8) log).1,
      )
  unfolding write_to_hardware
  write_to_hardware-calls log = written_lem (count_from 0 8) log (all_written 8 0 log (omega arith))

  -- In a build without ANABRID_PEDANTIC, writing an integrator block succeeds. Then the word that
  -- register 8 + i of its DAC received last is the raw value of (ic + 1) * 1.25 for the initial
  -- value of integrator i, and the byte that its switch register was last told to take over has a
  -- one at exactly the integrators whose time factor is not the default 10000.
  pub write_to_hardware-integrators :
      (log : List Call) (i : ℕ)
      → i < 8
      → ((write_to_hardware fl env (v_1_0_x block) b log).0 ≡ success)
        × (register_word (f_ic_dac block) (8 + i) (write_to_hardware fl env (v_1_0_x block) b log).1
            ≡ some (raw i))
        × ((byte : ℕ) × (latched_byte
                (f_time_factor block)
                (f_time_factor_sync block)
                (write_to_hardware fl env (v_1_0_x block) b log).1
              ≡ some byte)
            × ((j : ℕ)
                → bit byte j
                  ≡ not (get_or b.time_factors j default_time_factor == default_time_factor)))
  write_to_hardware-integrators log i h = rw (write_to_hardware-calls log) (
    refl,
    newest 8 0 i log (omega arith) (omega arith) (omega arith),
    (
      switch_bits b.time_factors 0,
      rw (==_refl (f_time_factor_sync block), ==_refl (f_time_factor block)) refl,
      bit-switch_bits b.time_factors,
    ),
  )
