-- ===== src/Cluster/Steps.antt =====
-- Steps of the calibration that go on and end in a given state, and the four blocks' writes, which
-- all succeed where no register is read back.
use lucidac_firmware.Common.{
  ℕ, ◌+◌, ◌==◌, ◌&&◌, get_or, ◌≡◌, refl, Bool, true, false, arith, Bool-cases, inl, inr, List, [],
  ◌∷◌, index_range,
}
use lucidac_firmware.Float.{FloatApi}
use lucidac_firmware.Status.{success, is_ok}
use lucidac_firmware.Bus.Functions.{Call, Env}
use lucidac_firmware.Chips.Sr74Hct595
use lucidac_firmware.Chips.Ad5452
use lucidac_firmware.UBlock
use lucidac_firmware.UBlock.Hardware as UHardware
use lucidac_firmware.CBlock
use lucidac_firmware.CBlock.{CBlockHal, v_1_0, v_1_1}
use lucidac_firmware.CBlock.Coefficients.{write_to_hardware_lem}
use lucidac_firmware.IBlock
use lucidac_firmware.IBlock.Hardware as IHardware
use lucidac_firmware.ShBlock
use lucidac_firmware.ShBlock.{State, inject}
use lucidac_firmware.Cluster.Calibration.{Step, ◌⨟◌, update, steps}

-- From a state with P, the step goes on and ends in a state with Q.
pub record Goes {S : Type 0} (P : S → Type 0) (f : Step S) (Q : S → Type 0) : Type 0 where
  pub runs : (s : S) (log : List Call) → P s → ((f s log).0.1 ≡ true) × Q ((f s log).0.0)

module _ {S : Type 0} where
  infixr 4 ◌⨾◌
  pub ◌⨾◌ : {P Q R : S → Type 0} {f g : Step S} → Goes P f Q → Goes Q g R → Goes P (f ⨟ g) R
  unfolding ◌⨟◌
  ◌⨾◌ {f = f} p q = record {
    runs =
        λ s log h. let (e, h') = p.runs s log h in rw e (q.runs ((f s log).0.0) ((f s log).1) h');
  }

  pub goes-update : (P Q : S → Type 0) (f : S → S) → ((s : S) → P s → Q (f s)) → Goes P (update f) Q
  unfolding update
  goes-update P Q f h = record { runs = λ s log p. (refl, h s p) }

  pub goes-steps :
      (P : S → Type 0) (f : ℕ → Step S)
      → ((i : ℕ) → Goes P (f i) P)
      → (is : List ℕ) → Goes P (steps f is) P
  unfolding steps
  goes-steps P f h [] = goes-update P P (λ s. s) (λ s p. p)
  goes-steps P f h (i ∷ is) = h i ⨾ goes-steps P f h is

  -- A step that passes the state on and always succeeds.
  pub goes-pass :
      (P : S → Type 0) (f : Step S)
      → ((s : S) (log : List Call) → (f s log).0 ≡ (s, true))
      → Goes P f P
  goes-pass P f h = record { runs = λ s log p. rw (h s log) (refl, p) }

pub u_written :
    (env : Env) (hardware : UHardware.UBlockHal) (u : UBlock.UBlock) (log : List Call)
    → env.pedantic ≡ false
    → (UHardware.write_to_hardware env hardware u log).0 ≡ success
unfolding UHardware.write_to_hardware UHardware.write_outputs
    UHardware.write_transmission_modes_and_ref UHardware.umatrix_transfer Sr74Hct595.transfer8
u_written env UHardware.UBlockHal.dummy u log h = refl
u_written env (UHardware.UBlockHal.v_1_2 block) u log h = rw h refl

module _ (env : Env) (block : ℕ) (outputs : List ℕ) (h : env.pedantic ≡ false) where
  switches_written :
      (o i remembered : ℕ) (log : List Call)
      → (IHardware.write_switches env block outputs o i remembered log).0.1 ≡ true
  unfolding IHardware.write_switches Sr74Hct595.transfer32
  switches_written o i remembered log = elim (Bool-cases (IHardware.actual_data outputs o i)) [
    | inl e ↦ rw (e, h) refl
    | inr e ↦ rw e refl
  ]

  inputs_written :
      (o : ℕ) (is : List ℕ) (remembered : ℕ) (log : List Call)
      → (IHardware.write_inputs env block outputs o is remembered log).0.1 ≡ true
  unfolding IHardware.write_inputs
  inputs_written o [] remembered log = refl
  inputs_written o (i ∷ is) remembered log =
      rw (switches_written o i remembered log) (inputs_written o is _ _)

  rows_written :
      (os : List ℕ) (remembered : ℕ) (log : List Call)
      → (IHardware.write_rows env block outputs os remembered log).0.1 ≡ true
  unfolding IHardware.write_rows
  rows_written [] remembered log = refl
  rows_written (o ∷ os) remembered log =
      elim (Bool-cases (get_or outputs o 0 == 0 && get_or outputs (o + 8) 0 == 0)) [
        | inl e ↦ rw e (rows_written os remembered log)
        | inr e ↦ rw (e, inputs_written o (index_range 16) remembered log) (rows_written os _ _)
      ]

outputs_written :
    (env : Env) (hardware : IHardware.IBlockHal) (outputs : List ℕ) (log : List Call)
    → env.pedantic ≡ false
    → (IHardware.write_outputs env hardware outputs log).0 ≡ true
unfolding IHardware.write_outputs
outputs_written env IHardware.IBlockHal.dummy outputs log h = refl
outputs_written env (IHardware.IBlockHal.v_1_2 block) outputs log h =
    rows_written env block outputs h (index_range 8) 0 _

upscaling_written :
    (env : Env) (hardware : IHardware.IBlockHal) (upscaling : List Bool) (log : List Call)
    → env.pedantic ≡ false
    → (IHardware.write_upscaling env hardware upscaling log).0 ≡ true
unfolding IHardware.write_upscaling Sr74Hct595.transfer32
upscaling_written env IHardware.IBlockHal.dummy upscaling log h = refl
upscaling_written env (IHardware.IBlockHal.v_1_2 block) upscaling log h = rw h refl

pub i_written :
    (env : Env) (hardware : IHardware.IBlockHal) (b : IBlock.IBlock) (log : List Call)
    → env.pedantic ≡ false
    → is_ok (IHardware.write_to_hardware env hardware b log).0 ≡ true
unfolding IHardware.write_to_hardware
i_written env hardware b log h =
    rw
      (
        upscaling_written env hardware b.scaling_factors log h,
        outputs_written env hardware b.outputs
            ((IHardware.write_upscaling env hardware b.scaling_factors log).1) h,
      )
      refl

pub sh_written :
    (state : State) (log : List Call) → (ShBlock.write_to_hardware state log).0 ≡ success
unfolding ShBlock.write_to_hardware
sh_written ShBlock.track log = refl
sh_written ShBlock.track_at_ic log = refl
sh_written inject log = refl
sh_written ShBlock.gain_zero_to_seven log = refl
sh_written ShBlock.gain_eight_to_fifteen log = refl

pub c_written :
    {F : Type 0} (fl : FloatApi F) (hardware : CBlockHal) (c : CBlock.CBlock F) (log : List Call)
    → (CBlock.write_to_hardware fl hardware c log).0 ≡ success
unfolding CBlock.write_to_hardware CBlock.write_factors_to_hardware CBlock.write_factors_from
    CBlock.write_factor Ad5452.set_scale
c_written fl CBlockHal.dummy c log = refl
c_written fl (v_1_0 block) c log = (write_to_hardware_lem fl c false block log 0 (omega arith)).0
c_written fl (v_1_1 block) c log = (write_to_hardware_lem fl c true block log 0 (omega arith)).0
