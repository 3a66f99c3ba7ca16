-- ===== src/IBlock/SwitchMatrix.antt =====
-- What one command word, and one row of them, adds to the closed switches of a chip.
use lucidac_firmware.Common.{
  ℕ, zero, suc, ◌+◌, ◌<◌, ◌≤◌, ◌≡◌, refl, sym, ap, subst, ◌==◌, ltb, leb, Bool, true, false, ◌&&◌,
  ◌||◌, List, ◌∷◌, count_from, arith, Bool-cases, inl, inr, ◌∙◌,
}
use lucidac_firmware.Bus.Functions.{Env, Call, trigger, transfer, word32}
use lucidac_firmware.Chips.Sr74Hct595
use lucidac_firmware.IBlock.Hardware.{
  command_word, actual_data, write_switches, write_inputs, f_cmd, f_imatrix_sync,
}
use lucidac_firmware.IBlock.Switches.{Matrices, byte_of, apply_byte, matrices, Remembered}
use lucidac_firmware.IBlock.ChipStep.{
  applied, command_byte, next_in_range, no_more, not_wanted, sent, wanted_at,
}

module _ (env : Env) (block : ℕ) (outputs : List ℕ) (m : Matrices) (quiet : env.pedantic ≡ false)
    (chip : ℕ) (hc : chip < 4) where
  -- The chip's switches after the calls.
  abbrev pub at_chip : List Call → ℕ → ℕ → Bool
  at_chip log = (matrices block m log).closed_at chip

  -- A last byte and switches after the chosen ones among the wanted were added.
  abbrev pub After : List Call → (ℕ → ℕ → Bool) → ℕ → (ℕ → ℕ → Bool) → Type 0
  After log chosen b on =
      Remembered b on
      × ((i o : ℕ)
          → i < 16
          → o < 8
          → on i o ≡ (at_chip log i o || (wanted_at outputs chip i o && chosen i o)))

  abbrev pub Adds : ℕ → List Call → ℕ → List Call → (ℕ → ℕ → Bool) → Type 0
  Adds r log r' log' chosen =
      Remembered (byte_of r chip) (at_chip log) → After log chosen (byte_of r' chip) (at_chip log')

  abbrev round_at : ℕ → ℕ → ℕ → List Call → Bool → (ℕ × Bool) × List Call
  round_at y x r log true = (
    (command_word outputs r y x, true),
    trigger (f_imatrix_sync block)
        ∷ transfer (f_cmd block) 0 (word32 (command_word outputs r y x))
        ∷ log,
  )
  round_at y x r log false = ((r, true), log)

  switches_lem :
      (y x r : ℕ) (log : List Call)
      → write_switches env block outputs y x r log ≡ round_at y x r log (actual_data outputs y x)
  unfolding write_switches Sr74Hct595.transfer32
  switches_lem y x r log = elim (Bool-cases (actual_data outputs y x)) [
    | inl e ↦ rw (e, quiet) refl
    | inr e ↦ rw e refl
  ]

  command_sent :
      (y x r : ℕ) (log : List Call)
      → x < 16
      → y < 8
      → Adds r log
          (command_word outputs r y x)
          (trigger (f_imatrix_sync block)
            ∷ transfer (f_cmd block) 0 (word32 (command_word outputs r y x))
            ∷ log)
          (λ i o. x == i && y == o)
  command_sent y x r log hx hy held =
      subst (After log (λ i o. x == i && y == o) (byte_of (command_word outputs r y x) chip))
        (sym (ap (λ t. t.closed_at chip) (sent block m log (command_word outputs r y x))))
        (subst (λ b. After log (λ i o. x == i && y == o) b (apply_byte b (at_chip log)))
          (sym (command_byte outputs r x y chip hc hx hy))
          (applied (wanted_at outputs chip) (at_chip log) (byte_of r chip) x y hx hy held))

  switch_written :
      (y x r : ℕ) (log : List Call)
      → x < 16
      → y < 8
      → let res = write_switches env block outputs y x r log in
        (res.0.1 ≡ true) × Adds r log res.0.0 res.1 (λ i o. x == i && y == o)
  switch_written y x r log hx hy =
      subst (λ res. (res.0.1 ≡ true) × Adds r log res.0.0 res.1 (λ i o. x == i && y == o))
        (sym (switches_lem y x r log)) (by_case (actual_data outputs y x) refl)
    where
      by_case :
          (a : Bool)
          → actual_data outputs y x ≡ a
          → let res = round_at y x r log a in
            (res.0.1 ≡ true) × Adds r log res.0.0 res.1 (λ i o. x == i && y == o)
      by_case true e = (refl, command_sent y x r log hx hy)
      by_case false e = (
        refl,
        λ held. (
          held,
          λ i o hi ho.
              no_more (wanted_at outputs chip) (at_chip log) x y (not_wanted outputs chip y x hc e)
                i o,
        ),
      )

  pub inputs_written :
      (y n k r : ℕ) (log : List Call)
      → k + n ≤ 16
      → y < 8
      → let res = write_inputs env block outputs y (count_from k n) r log in
        (res.0.1 ≡ true) × Adds r log res.0.0 res.1 (λ i o. (leb k i && ltb i (k + n)) && y == o)
  unfolding write_inputs
  inputs_written y zero k r log h hy = (refl, λ held. (held, λ i o hi ho. ground arith))
  inputs_written y (suc n) k r log h hy =
      let res = write_switches env block outputs y k r log in
      let (more, first) = switch_written y k r log (omega arith) hy in
      let (done, rest) = inputs_written y n (suc k) res.0.0 res.1 (omega arith) hy in
      rw more (
        done,
        λ held.
            let (held', e) = first held in
            let (held'', f) = rest held' in
            (
              held'',
              λ i o hi ho.
                  f i o hi ho
                  ∙ (ap
                        (λ t.
                          t
                          || (wanted_at outputs chip i o
                              && ((leb (suc k) i && ltb i (suc k + n)) && y == o)))
                        (e i o hi ho)
                      ∙ next_in_range k n i (at_chip log i o) (wanted_at outputs chip i o)
                          (y == o)),
            ),
      )
