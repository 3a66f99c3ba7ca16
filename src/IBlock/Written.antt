-- ===== src/IBlock/Written.antt =====
-- Writing an I-block closes the switches of its connections and opens all others.
use lucidac_firmware.Common.{
  ℕ, zero, suc, ◌+◌, ◌*◌, ◌/◌, ◌%◌, ◌^◌, ◌<◌, ◌≤◌, ◌≡◌, refl, sym, ap, subst, ◌==◌, ==_iff, ==_refl,
  ltb, leb, Bool, true, false, ◌&&◌, ◌||◌, List, ◌∷◌, get_or, count_from, index_range, arith,
  Bool-cases, inl, inr, ◌∙◌,
}
use native.Mathlib.Nat.{zero-div}
use lucidac_firmware.Bus.Functions.{Env, Call, trigger, wait}
use lucidac_firmware.IBlock.{IBlock, is_connected_unchecked}
use lucidac_firmware.IBlock.Connections.{closed, is_connected_unchecked-closed}
use lucidac_firmware.IBlock.Hardware.{
  wanted, write_inputs, write_rows, write_outputs, v_1_2, f_imatrix_reset,
}
use lucidac_firmware.IBlock.Switches.{Matrices, matrices}
use lucidac_firmware.IBlock.ChipStep.{wanted_at, empty_row, in_range_suc}
use lucidac_firmware.IBlock.SwitchMatrix.{inputs_written, Adds, at_chip}

-- The switch between an input and an output of the block.
abbrev pub switch : Matrices → ℕ → ℕ → Bool
switch m input output = m.closed_at (input / 16 + 2 * (output / 8)) (input % 16) (output % 8)

next_row :
    (k n o : ℕ) (a w : Bool)
    → (a || (w && (k == o)) || (w && (leb (suc k) o && ltb o (suc k + n))))
      ≡ (a || (w && (leb k o && ltb o (k + suc n))))
next_row k n o a w =
    rw (sym (in_range_suc k n o)) (boolean a w (k == o) (leb (suc k) o && ltb o (suc k + n)))
  where
    boolean : (a w p q : Bool) → (a || (w && p) || (w && q)) ≡ (a || (w && (p || q)))
    boolean a w p q = ground arith

module _ (env : Env) (block : ℕ) (outputs : List ℕ) (m : Matrices) (quiet : env.pedantic ≡ false)
    (chip : ℕ) (hc : chip < 4) where
  row_written :
      (y r : ℕ) (log : List Call)
      → y < 8
      → let res = write_inputs env block outputs y (index_range 16) r log in
        (res.0.1 ≡ true)
        × Adds env block outputs m quiet chip hc r log res.0.0 res.1 (λ i o. y == o)
  row_written y r log hy =
      let (done, adds) =
        inputs_written env block outputs m quiet chip hc y 16 0 r log (omega arith) hy in
      (
        done,
        λ held.
            let (held', e) = adds held in
            (
              held',
              λ i o hi ho.
                  e i o hi ho
                  ∙ all_inputs (at_chip env block outputs m quiet chip hc log i o)
                      (wanted_at outputs chip i o) (y == o) i hi,
            ),
      )
    where
      all_inputs :
          (a w v : Bool) (i : ℕ)
          → i < 16
          → (a || (w && ((leb 0 i && ltb i (0 + 16)) && v))) ≡ (a || (w && v))
      all_inputs a w v i hi = ground arith

  no_row :
      (y i o : ℕ) (a : Bool)
      → (get_or outputs y 0 == 0 && get_or outputs (y + 8) 0 == 0) ≡ true
      → a ≡ (a || (wanted_at outputs chip i o && (y == o)))
  no_row y i o a e = elim (Bool-cases (y == o)) [
    | inl h ↦
        let off : wanted_at outputs chip i o ≡ false =
          subst (λ t. wanted_at outputs chip i t ≡ false) ((==_iff y o).0 h)
            (empty_row outputs chip y i hc e) in
        rw (h, off) (ground arith)
    | inr h ↦ rw h (ground arith)
  ]

  rows_written :
      (n k r : ℕ) (log : List Call)
      → k + n ≤ 8
      → let res = write_rows env block outputs (count_from k n) r log in
        (res.0.1 ≡ true)
        × Adds env block outputs m quiet chip hc r log res.0.0 res.1
            (λ i o. leb k o && ltb o (k + n))
  unfolding write_rows
  rows_written zero k r log h = (refl, λ held. (held, λ i o hi ho. ground arith))
  rows_written (suc n) k r log h =
      elim (Bool-cases (get_or outputs k 0 == 0 && get_or outputs (k + 8) 0 == 0)) [
        | inl e ↦
            let (done, rest) = rows_written n (suc k) r log (omega arith) in
            rw e (
              done,
              λ held.
                  let (held', f) = rest held in
                  (
                    held',
                    λ i o hi ho.
                        f i o hi ho
                        ∙ (ap
                              (λ t.
                                t
                                || (wanted_at outputs chip i o
                                    && (leb (suc k) o && ltb o (suc k + n))))
                              (no_row k i o (at_chip env block outputs m quiet chip hc log i o) e)
                            ∙ next_row k n o (at_chip env block outputs m quiet chip hc log i o)
                                (wanted_at outputs chip i o)),
                  ),
            )
        | inr e ↦
            let res = write_inputs env block outputs k (index_range 16) r log in
            let (more, first) = row_written k r log (omega arith) in
            let (done, rest) = rows_written n (suc k) res.0.0 res.1 (omega arith) in
            rw (e, more)
              (
                done,
                λ held.
                    let (held', g) = first held in
                    let (held'', f) = rest held' in
                    (
                      held'',
                      λ i o hi ho.
                          f i o hi ho
                          ∙ (ap
                                (λ t.
                                  t
                                  || (wanted_at outputs chip i o
                                      && (leb (suc k) o && ltb o (suc k + n))))
                                (g i o hi ho)
                              ∙ next_row k n o (at_chip env block outputs m quiet chip hc log i o)
                                  (wanted_at outputs chip i o)),
                    ),
              )
      ]

started :
    (block : ℕ) (m : Matrices) (log : List Call) (chip i o : ℕ)
    → (matrices block m (wait 420 ∷ trigger (f_imatrix_reset block) ∷ log)).closed_at chip i o
      ≡ false
started block m log chip i o = rw (==_refl (f_imatrix_reset block)) refl

plus_zero : (x : ℕ) → x + 0 ≡ x
plus_zero x = omega arith

chip_switch :
    (outputs : List ℕ) (x y high lift : ℕ)
    → high < 2
    → lift < 2
    → wanted_at outputs (high + 2 * lift) x y ≡ wanted outputs (x + 16 * high) (y + 8 * lift)
chip_switch outputs x y zero zero hh hl = rw (plus_zero x, plus_zero y) refl
chip_switch outputs x y (suc zero) zero hh hl = rw (plus_zero y) refl
chip_switch outputs x y zero (suc zero) hh hl = rw (plus_zero x) refl
chip_switch outputs x y (suc zero) (suc zero) hh hl = refl
chip_switch outputs x y (suc (suc k)) lift hh hl = absurd (omega arith)
chip_switch outputs x y zero (suc (suc k)) hh hl = absurd (omega arith)
chip_switch outputs x y (suc zero) (suc (suc k)) hh hl = absurd (omega arith)

wanted_switch :
    (b : IBlock) (i o : ℕ)
    → i < 32
    → o < 16
    → wanted_at b.outputs (i / 16 + 2 * (o / 8)) (i % 16) (o % 8) ≡ closed b i o
unfolding is_connected_unchecked
wanted_switch b i o hi ho =
    let ei : i % 16 + 16 * (i / 16) ≡ i = omega arith in
    let eo : o % 8 + 8 * (o / 8) ≡ o = omega arith in
    chip_switch b.outputs (i % 16) (o % 8) (i / 16) (o / 8) (omega arith) (omega arith)
    ∙ (ap (λ t. wanted b.outputs t (o % 8 + 8 * (o / 8))) ei
        ∙ (ap (wanted b.outputs i) eo ∙ is_connected_unchecked-closed b i o))

all_rows : (a w : Bool) (y : ℕ) → a ≡ false → y < 8 → (a || (w && (leb 0 y && ltb y (0 + 8)))) ≡ w
all_rows a w y e h = ground arith

-- Where registers are not read back, writing the connections of an I-block to the hardware succeeds,
-- and whatever the four switch matrices held and were sent before, afterwards the switch between an
-- input and an output is closed exactly if the block connects them.
pub write_outputs_lem :
    (env : Env) (block : ℕ) (b : IBlock) (m : Matrices) (log : List Call) (i o : ℕ)
    → env.pedantic ≡ false
    → i < 32
    → o < 16
    → ((write_outputs env (v_1_2 block) b.outputs log).0 ≡ true)
      × (switch (matrices block m (write_outputs env (v_1_2 block) b.outputs log).1) i o
          ≡ closed b i o)
unfolding write_outputs
write_outputs_lem env block b m log i o quiet hi ho =
    let chip = i / 16 + 2 * (o / 8) in
    let hc : i / 16 + 2 * (o / 8) < 4 = omega arith in
    let start = wait 420 ∷ trigger (f_imatrix_reset block) ∷ log in
    let (done, adds) = rows_written env block b.outputs m quiet chip hc 8 0 0 start (omega arith) in
    let none_ = λ (x y : ℕ). started block m log chip x y in
    let (_, e) = adds (inl (rw (zero-div (2 ^ (8 * chip))) refl, λ x y hx hy. none_ x y)) in
    (
      done,
      e (i % 16) (o % 8) (omega arith) (omega arith)
          ∙ (all_rows _ _ (o % 8) (none_ (i % 16) (o % 8)) (omega arith)
              ∙ wanted_switch b i o hi ho),
    )
