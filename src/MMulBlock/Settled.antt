-- ===== src/MMulBlock/Settled.antt =====
-- How the search for the input offsets ends, and what the DAC holds then.
use lucidac_firmware.Common.{
  ℕ, suc, ◌+◌, ◌*◌, ◌%◌, ◌^◌, ◌<◌, ◌≡◌, refl, Bool, true, false, ◌||◌, List, ◌∷◌, Option, some,
  Bool-cases, inl, inr, arith, sym, ◌==◌, ==_refl, ◌∙◌,
}
use mathlib.Core.Bool.{false≢true}
use lucidac_firmware.Float.{FloatApi, zero_float}
use lucidac_firmware.Bus.Functions.{Env, Call, transfer, command}
use lucidac_firmware.Chips.Dac60508
use lucidac_firmware.MIntBlock.Written.{register_word, command_byte}
use lucidac_firmware.MMulBlock.{f_calibration_dac_0, too_large, write_calibration_input_offsets}
use lucidac_firmware.MMulBlock.Search.{search_offset_x, search_offset_y}
use lucidac_firmware.MMulBlock.Ends.{offset_word, offset_after, Settled, search-Settled}

or_true : (b : Bool) → (b || true) ≡ true
or_true true = refl
or_true false = refl

module _ {F : Type 0} (fl : FloatApi F) where
  module _ (env : Env) (plain_build : env.pedantic ≡ false) (block mul_idx : ℕ)
      (h : mul_idx < 4) where
    abbrev write : F → F → List Call → Bool × List Call
    write = write_calibration_input_offsets fl env block mul_idx

    accepted_lem :
        (x y : F) (log : List Call)
        → (too_large fl x || too_large fl y) ≡ false
        → write x y log ≡ (
          true,
          transfer (f_calibration_dac_0 block) 0 (command (8 + mul_idx * 2) (offset_word fl y))
              ∷ transfer
                  (f_calibration_dac_0 block)
                  0
                  (command (8 + (mul_idx * 2 + 1)) (offset_word fl x))
              ∷ log,
        )
    unfolding write_calibration_input_offsets Dac60508.set_channel Dac60508.write_register
        Dac60508.confirmed
    accepted_lem x y log e =
        let odd : (mul_idx * 2 + 1) % 2 ^ 8 ≡ mul_idx * 2 + 1 = omega arith in
        let even : mul_idx * 2 % 2 ^ 8 ≡ mul_idx * 2 = omega arith in
        rw
          (
            e,
            odd,
            even,
            plain_build,
            command_byte (mul_idx * 2 + 1) (omega arith),
            command_byte (mul_idx * 2) (omega arith),
          )
          refl

    refused_lem :
        (x y : F) (log : List Call)
        → (too_large fl x || too_large fl y) ≡ true
        → (write x y log).0 ≡ false
    unfolding write_calibration_input_offsets
    refused_lem x y log e = rw e refl

    not_refused :
        (x y : F) (log : List Call)
        → (write x y log).0 ≡ true
        → (too_large fl x || too_large fl y) ≡ false
    not_refused x y log w = elim (Bool-cases (too_large fl x || too_large fl y)) [
      | inl large ↦ absurd (false≢true (sym (refused_lem x y log large) ∙ w))
      | inr fits ↦ fits
    ]

    abbrev dac_word : ℕ → List Call → Option ℕ
    dac_word channel = register_word (f_calibration_dac_0 block) (8 + channel)

    sent_x :
        (x y : F) (log : List Call)
        → (write x y log).0 ≡ true
        → dac_word (mul_idx * 2 + 1) (write x y log).1 ≡ some (offset_word fl x)
    sent_x x y log w =
        let other : (8 + mul_idx * 2 == 8 + (mul_idx * 2 + 1)) ≡ false = ground arith in
        rw
          (
            accepted_lem x y log (not_refused x y log w),
            ==_refl (f_calibration_dac_0 block),
            other,
            ==_refl (8 + (mul_idx * 2 + 1)),
          )
          refl

    sent_y :
        (x y : F) (log : List Call)
        → (write x y log).0 ≡ true
        → dac_word (mul_idx * 2) (write x y log).1 ≡ some (offset_word fl y)
    sent_y x y log w =
        rw
          (
            accepted_lem x y log (not_refused x y log w),
            ==_refl (f_calibration_dac_0 block),
            ==_refl (8 + mul_idx * 2),
          )
          refl

    -- In a build without ANABRID_PEDANTIC, and for one of the four multipliers: if the offset after
    -- n steps of 0.01 from -0.1 has an absolute value above 0.1, then the search for offset_x ends
    -- within n + 1 rounds, whatever is measured, with the offset after some k steps, k not above n.
    -- If no write was refused, the DAC's word for that offset is the one of the offset after k - 1
    -- steps, or after none for k = 0: a step behind the value that is recorded.
    pub search_offset_x-Settled :
        (sample : List Call → ℕ → F) (n : ℕ) (log : List Call)
        → too_large fl (offset_after fl n) ≡ true
        → Settled fl n
            (dac_word (mul_idx * 2 + 1))
            (offset_word fl)
            (search_offset_x fl env block sample mul_idx (suc n) log)
    unfolding search_offset_x
    search_offset_x-Settled sample n log beyond =
        search-Settled fl (λ x. write x (zero_float fl)) (λ log'. sample log' mul_idx)
          (dac_word (mul_idx * 2 + 1)) (offset_word fl) n
          (λ log'. refused_lem (offset_after fl n) (zero_float fl) log' (rw beyond refl))
          (λ x. sent_x x (zero_float fl)) (λ log'. refl) log

    -- The same for offset_y, beside an offset_x that stays.
    pub search_offset_y-Settled :
        (sample : List Call → ℕ → F) (offset_x : F) (n : ℕ) (log : List Call)
        → too_large fl (offset_after fl n) ≡ true
        → Settled fl n
            (dac_word (mul_idx * 2))
            (offset_word fl)
            (search_offset_y fl env block sample mul_idx offset_x (suc n) log)
    unfolding search_offset_y
    search_offset_y-Settled sample offset_x n log beyond =
        search-Settled fl (λ y. write offset_x y) (λ log'. sample log' mul_idx)
          (dac_word (mul_idx * 2)) (offset_word fl) n
          (λ log'.
            refused_lem offset_x (offset_after fl n) log'
              (rw (beyond, or_true (too_large fl offset_x)) refl))
          (sent_y offset_x) (λ log'. refl) log
