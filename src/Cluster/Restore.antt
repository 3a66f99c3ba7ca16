-- ===== src/Cluster/Restore.antt =====
-- What the calibration of the routes leaves behind, where no register is read back.
use lucidac_firmware.Common.{
  ℕ, ◌%◌, ◌≡◌, refl, ap, Bool, true, false, Bool-cases, inl, inr, List, index_range,
}
use lucidac_firmware.Float.{FloatApi, zero_float, one_float}
use lucidac_firmware.Bus.Functions.{Call, Env}
use lucidac_firmware.UBlock
use lucidac_firmware.CBlock
use lucidac_firmware.CBlock.{CBlockHal, v_1_0, v_1_1}
use lucidac_firmware.IBlock
use lucidac_firmware.ShBlock
use lucidac_firmware.ShBlock.{State, inject}
use lucidac_firmware.Cluster.{Cluster}
use lucidac_firmware.Cluster.Calibration.{
  Step, update, lift, ClusterHal, write_ublock, write_cblock, write_iblock, write_shblock,
  wait_a_bit, compensate, set_modes, calibrate_offsets, apply_reference, full_scale, gain_mode,
  measure, set_lane_factor, calibrate_lane, calibrate_connected, calibrate_lanes, restore_routes,
  prepare_routes, calibrate_routes, calibrated, apply_measured, clear_factors, clear_upscaling,
  restore_factors, restore_ublock, restore_upscaling, to_inject,
}
use lucidac_firmware.Cluster.Steps.{
  Goes, ◌⨾◌, goes-update, goes-steps, goes-pass, u_written, i_written, sh_written, c_written,
}

-- What every lane's calibration keeps.
abbrev Held : {F : Type 0} → Cluster F → Cluster F → Type 0
Held old c =
    (c.ublock.output_input_map ≡ old.ublock.output_input_map)
    × (c.iblock ≡ IBlock.reset_upscaling old.iblock)

module _ {F : Type 0} (fl : FloatApi F) (env : Env) (hal : ClusterHal)
    (h : env.pedantic ≡ false) where
  u_goes : (P : Cluster F → Type 0) → Goes P (write_ublock fl env hal) P
  unfolding write_ublock
  u_goes P =
      goes-pass P (write_ublock fl env hal)
        (λ c log. rw (u_written env hal.u_hardware c.ublock log h) refl)

  c_goes : (P : Cluster F → Type 0) → Goes P (write_cblock fl env hal) P
  unfolding write_cblock
  c_goes P =
      goes-pass P (write_cblock fl env hal)
        (λ c log. rw (c_written fl hal.c_hardware c.cblock log) refl)

  i_goes : (P : Cluster F → Type 0) → Goes P (write_iblock fl env hal) P
  unfolding write_iblock
  i_goes P =
      goes-pass P (write_iblock fl env hal)
        (λ c log. rw (i_written env hal.i_hardware c.iblock log h) refl)

  sh_goes : (P : Cluster F → Type 0) → Goes P (write_shblock fl env hal) P
  unfolding write_shblock
  sh_goes P = goes-pass P (write_shblock fl env hal) (λ c log. rw (sh_written c.shblock log) refl)

  lifted :
      (P Q : Cluster F → Type 0) (f : Step (Cluster F))
      → Goes P f Q
      → Goes (λ s. P s.0) (lift fl env hal f) (λ s. Q s.0)
  unfolding lift
  lifted P Q f g = record { runs = λ s log p. g.runs s.0 log p }

  changed :
      (P Q : Cluster F → Type 0) (f : Cluster F → Cluster F)
      → ((c : Cluster F) → P c → Q (f c))
      → Goes (λ s. P s.0) (lift fl env hal (update f)) (λ s. Q s.0)
  changed P Q f k = lifted P Q (update f) (goes-update P Q f k)

  module _ (P : Cluster F → Type 0)
      (modes_keep : (m : UBlock.TransmissionMode × UBlock.TransmissionMode) (c : Cluster F)
        → P c
        → P (set_modes fl env hal m c))
      (state_keeps : (t : State) (c : Cluster F) → P c → P (record c { shblock = t })) where
    waits : Goes P (wait_a_bit fl env hal) P
    unfolding wait_a_bit
    waits = record { runs = λ c log p. (refl, p) }

    compensates : Goes P (compensate fl env hal) P
    unfolding compensate ShBlock.compensate_hardware_offsets
    compensates = record { runs = λ c log p. (refl, state_keeps inject c p) }

    offsets_go : Goes P (calibrate_offsets fl env hal) P
    unfolding calibrate_offsets
    offsets_go = record {
      runs = λ c log p.
          let old = UBlock.get_all_transmission_modes c.ublock in
          (goes-update P P (set_modes fl env hal (UBlock.ground, UBlock.ground)) (modes_keep _)
              ⨾ u_goes P
              ⨾ waits
              ⨾ compensates
              ⨾ goes-update P P (set_modes fl env hal old) (modes_keep old)
              ⨾ u_goes P).runs
            c log p;
    }

  module _ (sample_avg : List Call → ℕ → F) (old : Cluster F) where
    -- What the calibration of a lane keeps.
    abbrev HeldStep : Cluster F × Bool → Type 0
    HeldStep s = Held old s.0

    Held-apply_measured :
        (i : ℕ) (x : F) (s : Cluster F × Bool)
        → HeldStep s
        → HeldStep (apply_measured fl env hal sample_avg i x s)
    Held-apply_measured i x (c, flag) p =
        elim (Bool-cases (calibrated fl env hal c i (fl.div (one_float fl) x)).1) [
          | inl e ↦ rw e p
          | inr e ↦ rw e p
        ]

    measures : (i_out i_in : ℕ) → Goes HeldStep (measure fl env hal sample_avg i_out i_in) HeldStep
    unfolding measure
    measures i_out i_in = record {
      runs = λ s log p. (refl, Held-apply_measured i_in (sample_avg log (i_out % 8)) s p);
    }

    lane_goes :
        (i_out i_in : ℕ) → Goes HeldStep (calibrate_lane fl env hal sample_avg i_out i_in) HeldStep
    unfolding calibrate_lane UBlock.change_reference_magnitude UBlock.change_all_transmission_modes
    lane_goes i_out i_in =
        let H = Held old in
        changed H H (apply_reference fl env hal i_in) (λ c p. p)
        ⨾ lifted H H _ (u_goes H)
        ⨾ changed H H (full_scale fl env hal i_in) (λ c p. p)
        ⨾ lifted H H _ (c_goes H)
        ⨾ lifted H H _ (offsets_go H (λ m c p. p) (λ t c p. p))
        ⨾ changed H H (gain_mode fl env hal i_out) (λ c p. p)
        ⨾ lifted H H _ (sh_goes H)
        ⨾ lifted H H _ (waits H (λ m c p. p) (λ t c p. p))
        ⨾ measures i_out i_in
        ⨾ changed H H (set_lane_factor fl env hal i_in (zero_float fl)) (λ c p. p)
        ⨾ lifted H H _ (c_goes H)

    connected_goes :
        (i_out i_in : ℕ)
        → Goes HeldStep (calibrate_connected fl env hal sample_avg i_out i_in) HeldStep
    unfolding calibrate_connected
    connected_goes i_out i_in = record {
      runs = λ s log p. elim (Bool-cases (IBlock.is_connected s.0.iblock i_in i_out)) [
        | inr e ↦ rw e (refl, p)
        | inl e ↦ rw e (elim (Bool-cases (UBlock.is_output_connected s.0.ublock i_in)) [
          | inr f ↦ rw f (refl, p)
          | inl f ↦ rw f ((lane_goes i_out i_in).runs s log p)
        ])
      ];
    }

    lanes_go : Goes HeldStep (calibrate_lanes fl env hal sample_avg) HeldStep
    unfolding calibrate_lanes
    lanes_go =
        goes-steps HeldStep _
          (λ i_out. goes-steps HeldStep _ (connected_goes i_out) (index_range 32)) (index_range 16)

    -- The blocks come back one after another.
    abbrev Factors : Cluster F → Type 0
    Factors c = Held old c × (c.cblock.factors ≡ old.cblock.factors)

    abbrev Ublock : Cluster F → Type 0
    Ublock c =
        (c.ublock ≡ old.ublock)
        × ((c.cblock.factors ≡ old.cblock.factors) × (c.iblock ≡ IBlock.reset_upscaling old.iblock))

    abbrev Blocks : Cluster F → Type 0
    Blocks c =
        (c.ublock ≡ old.ublock)
        × ((c.cblock.factors ≡ old.cblock.factors) × (c.iblock ≡ old.iblock))

    abbrev Restored : Cluster F → Type 0
    Restored c = Blocks c × (c.shblock ≡ inject)

    prepared : Goes (λ s. s.0 ≡ old) (prepare_routes fl env hal sample_avg) HeldStep
    prepared =
        let P = λ (c : Cluster F). c ≡ old in
        let Q = λ (c : Cluster F).
          (c.ublock.output_input_map ≡ old.ublock.output_input_map) × (c.iblock ≡ old.iblock) in
        let H = Held old in
        changed P Q (clear_factors fl env hal sample_avg)
          (λ c p. (ap (λ t. t.ublock.output_input_map) p, ap (λ t. t.iblock) p))
        ⨾ lifted Q Q _ (c_goes Q)
        ⨾ changed Q H (clear_upscaling fl env hal sample_avg)
            (λ c p. (p.0, ap IBlock.reset_upscaling p.1))
        ⨾ lifted H H _ (i_goes H)

    restored : Goes HeldStep (restore_routes fl env hal sample_avg old) (λ s. Restored s.0)
    unfolding UBlock.change_reference_magnitude UBlock.change_all_transmission_modes
        UBlock.get_all_transmission_modes UBlock.get_reference_magnitude CBlock.set_factors
        IBlock.set_all_upscaling IBlock.reset_upscaling UBlock.change_a_side_transmission_mode
        UBlock.change_b_side_transmission_mode
    restored =
        let H = Held old in
        changed H Factors (restore_factors fl env hal sample_avg old) (λ c p. (p, refl))
        ⨾ lifted Factors Factors _ (c_goes Factors)
        ⨾ lifted Factors Factors _ (offsets_go Factors (λ m c p. p) (λ t c p. p))
        ⨾ changed Factors Ublock (restore_ublock fl env hal sample_avg old)
            (λ c p. (ap (λ m. record old.ublock { output_input_map = m }) p.0.0, (p.1, p.0.1)))
        ⨾ lifted Ublock Ublock _ (u_goes Ublock)
        ⨾ changed Ublock Blocks (restore_upscaling fl env hal sample_avg old) (λ c p.
          (p.0, (p.1.0, ap (λ b. IBlock.set_all_upscaling b old.iblock.scaling_factors) p.1.1)))
        ⨾ lifted Blocks Blocks _ (i_goes Blocks)
        ⨾ changed Blocks Restored (to_inject fl env hal sample_avg) (λ c p. (p, refl))
        ⨾ lifted Restored Restored _ (sh_goes Restored)

-- The three blocks and the factors of the fourth are as before, and the SH-block injects.
abbrev pub IsRestored : {F : Type 0} → Cluster F → Cluster F → Type 0
IsRestored old c =
    (c.ublock ≡ old.ublock)
    × ((c.cblock.factors ≡ old.cblock.factors) × ((c.iblock ≡ old.iblock) × (c.shblock ≡ inject)))

-- Where the read-back of registers is not compiled in, calibrating the routes leaves the U-block,
-- the factors of the C-block and the I-block as they were, and the SH-block in inject mode, whatever
-- was measured and whether or not it reports success.
pub calibrate_routes-IsRestored :
    {F : Type 0} (fl : FloatApi F) (env : Env) (hal : ClusterHal) (sample_avg : List Call → ℕ → F)
    (c : Cluster F) (log : List Call)
    → env.pedantic ≡ false
    → IsRestored c (calibrate_routes fl env hal sample_avg c log).0.0
unfolding calibrate_routes
calibrate_routes-IsRestored fl env hal sample_avg c log h =
    let ((u, (x, i)), s) =
      ((prepared fl env hal h sample_avg c
          ⨾ lanes_go fl env hal h sample_avg c
          ⨾ restored fl env hal h sample_avg c).runs
        (c, true) log refl).1 in
    (u, (x, (i, s)))
