-- ===== src/Cluster/Calibration.antt =====
-- The calibration of a cluster: `calibrate_offsets` and `calibrate_routes` of
-- lib/platform-lucidac/src/carrier/cluster.cpp. The measurements are a parameter, since the code
-- has them from an abstract `BaseDAQ`.
use lucidac_firmware.Common.{
  ℕ, ◌%◌, ltb, Bool, true, false, not, if◌then◌else◌, List, [], ◌∷◌, replicate, index_range,
}
use lucidac_firmware.Float.{FloatApi, zero_float, one_float}
use lucidac_firmware.Status.{is_ok}
use lucidac_firmware.Bus.Functions.{Call, Env, Bus, ◌>>=◌, ◌>>◌, pure, pause}
use lucidac_firmware.UBlock
use lucidac_firmware.UBlock.{UBlock, TransmissionMode, ReferenceMagnitude, pos_ref, one, one_tenth}
use lucidac_firmware.UBlock.Hardware as UHardware
use lucidac_firmware.UBlock.Hardware.{UBlockHal}
use lucidac_firmware.CBlock
use lucidac_firmware.CBlock.{CBlockHal, num_coeff}
use lucidac_firmware.IBlock
use lucidac_firmware.IBlock.{num_inputs, num_outputs}
use lucidac_firmware.IBlock.Hardware as IHardware
use lucidac_firmware.IBlock.Hardware.{IBlockHal}
use lucidac_firmware.ShBlock
use lucidac_firmware.ShBlock.{
  State, inject, gain_zero_to_seven, gain_eight_to_fifteen, default_track_time, default_inject_time,
}
use lucidac_firmware.Cluster.{Cluster}

-- A stretch of code that changes a state and tells whether to go on; `⨟` returns early if not.
abbrev pub Step {ℓ} : Type ℓ → Type ℓ
Step S = S → Bus (S × Bool)

infixr 4 ◌⨟◌
unfoldable pub ◌⨟◌ {ℓ} : {S : Type ℓ} → Step S → Step S → Step S
(f ⨟ g) s = f s >>= λ r. if r.1 then g (r.0) else pure r

unfoldable pub update {ℓ} : {S : Type ℓ} → (S → S) → Step S
update f s = pure (f s, true)

unfoldable pub steps {ℓ} : {S : Type ℓ} → (ℕ → Step S) → List ℕ → Step S
steps f [] = update (λ s. s)
steps f (i ∷ is) = f i ⨟ steps f is

pub record ClusterHal : Type 0 where
  pub u_hardware : UBlockHal
  pub c_hardware : CBlockHal
  pub i_hardware : IBlockHal

-- `delay(10)`, in nanoseconds.
abbrev pub ten_milliseconds : ℕ
ten_milliseconds = 10000000

module _ {F : Type 0} (fl : FloatApi F) (env : Env) (hal : ClusterHal) where
  unfoldable pub write_ublock : Step (Cluster F)
  write_ublock c = do
    status ← UHardware.write_to_hardware env hal.u_hardware c.ublock
    pure (c, is_ok status)

  unfoldable pub write_cblock : Step (Cluster F)
  write_cblock c = do
    status ← CBlock.write_to_hardware fl hal.c_hardware c.cblock
    pure (c, is_ok status)

  unfoldable pub write_iblock : Step (Cluster F)
  write_iblock c = do
    status ← IHardware.write_to_hardware env hal.i_hardware c.iblock
    pure (c, is_ok status)

  unfoldable pub write_shblock : Step (Cluster F)
  write_shblock c = do status ← ShBlock.write_to_hardware c.shblock; pure (c, is_ok status)

  unfoldable pub wait_a_bit : Step (Cluster F)
  wait_a_bit c = do pause ten_milliseconds; pure (c, true)

  unfoldable pub compensate : Step (Cluster F)
  compensate c = do
    state ← ShBlock.compensate_hardware_offsets default_track_time default_inject_time
    pure (record c { shblock = state }, true)

  abbrev pub set_modes : TransmissionMode × TransmissionMode → Cluster F → Cluster F
  set_modes modes c = record c { ublock = UBlock.change_all_transmission_modes c.ublock modes }

  unfoldable pub calibrate_offsets : Step (Cluster F)
  calibrate_offsets c =
      let old = UBlock.get_all_transmission_modes c.ublock in
      (update (set_modes (TransmissionMode.ground, TransmissionMode.ground))
          ⨟ write_ublock
          ⨟ wait_a_bit
          ⨟ compensate
          ⨟ update (set_modes old)
          ⨟ write_ublock)
        c

  abbrev pub calibrated : Cluster F → ℕ → F → Cluster F × Bool
  calibrated c idx correction =
      let (cblock', done) = CBlock.set_gain_correction fl c.cblock idx correction in
      (record c { cblock = cblock' }, done)

  abbrev pub set_lane_factor : ℕ → F → Cluster F → Cluster F
  set_lane_factor idx factor c = record c { cblock = (CBlock.set_factor fl c.cblock idx factor).0 }

  -- The reference is chosen by the upscaling that is set now.
  abbrev pub apply_reference : ℕ → Cluster F → Cluster F
  apply_reference i_in c = record c {
    ublock =
        UBlock.change_reference_magnitude
          (UBlock.change_all_transmission_modes c.ublock (pos_ref, pos_ref))
          (if IBlock.get_upscaling c.iblock i_in then one_tenth else one);
  }

  abbrev pub full_scale : ℕ → Cluster F → Cluster F
  full_scale i_in c = (calibrated (set_lane_factor i_in (one_float fl) c) i_in (one_float fl)).0

  abbrev pub gain_mode : ℕ → Cluster F → Cluster F
  gain_mode i_out c = record c {
    shblock = if ltb i_out 8 then gain_zero_to_seven else gain_eight_to_fifteen;
  }

  -- From here on the state carries the flag `success` as well.
  unfoldable pub lift : Step (Cluster F) → Step (Cluster F × Bool)
  lift f (c, success) = do r ← f c; pure ((r.0, success), r.1)

  -- `sample_avg log channel` is the channel's mean that `daq->sample_avg(4, 10)` returns after the
  -- calls in the log.
  module _ (sample_avg : List Call → ℕ → F) where
    abbrev pub apply_measured : ℕ → F → Cluster F × Bool → Cluster F × Bool
    apply_measured i_in m_adc (c, success) =
        let (c₁, done) = calibrated c i_in (fl.div (one_float fl) m_adc) in
        if done then (c₁, success) else ((calibrated c₁ i_in (one_float fl)).0, false)

    unfoldable pub measure : ℕ → ℕ → Step (Cluster F × Bool)
    measure i_out i_in s log = ((apply_measured i_in (sample_avg log (i_out % 8)) s, true), log)

    -- One round of the two loops, for a lane that is connected on both sides.
    unfoldable pub calibrate_lane : ℕ → ℕ → Step (Cluster F × Bool)
    calibrate_lane i_out i_in =
        lift (update (apply_reference i_in))
        ⨟ lift write_ublock
        ⨟ lift (update (full_scale i_in))
        ⨟ lift write_cblock
        ⨟ lift calibrate_offsets
        ⨟ lift (update (gain_mode i_out))
        ⨟ lift write_shblock
        ⨟ lift wait_a_bit
        ⨟ measure i_out i_in
        ⨟ lift (update (set_lane_factor i_in (zero_float fl)))
        ⨟ lift write_cblock

    unfoldable pub calibrate_connected : ℕ → ℕ → Step (Cluster F × Bool)
    calibrate_connected i_out i_in (c, success) =
        if not (IBlock.is_connected c.iblock i_in i_out)
        then pure ((c, success), true)
        else if not (UBlock.is_output_connected c.ublock i_in)
        then pure ((c, success), true)
        else calibrate_lane i_out i_in (c, success)

    unfoldable pub calibrate_lanes : Step (Cluster F × Bool)
    calibrate_lanes =
        steps (λ i_out. steps (calibrate_connected i_out) (index_range num_inputs))
          (index_range num_outputs)

    abbrev pub clear_factors : Cluster F → Cluster F
    clear_factors c = record c {
      cblock = CBlock.set_factors fl c.cblock (replicate num_coeff (zero_float fl));
    }

    abbrev pub clear_upscaling : Cluster F → Cluster F
    clear_upscaling c = record c { iblock = IBlock.reset_upscaling c.iblock }

    abbrev pub restore_factors : Cluster F → Cluster F → Cluster F
    restore_factors old c = record c { cblock = CBlock.set_factors fl c.cblock old.cblock.factors }

    abbrev pub restore_ublock : Cluster F → Cluster F → Cluster F
    restore_ublock old c = record c {
      ublock =
          UBlock.change_reference_magnitude
            (UBlock.change_all_transmission_modes c.ublock
              (UBlock.get_all_transmission_modes old.ublock))
            (UBlock.get_reference_magnitude old.ublock);
    }

    abbrev pub restore_upscaling : Cluster F → Cluster F → Cluster F
    restore_upscaling old c = record c {
      iblock = IBlock.set_all_upscaling c.iblock old.iblock.scaling_factors;
    }

    abbrev pub to_inject : Cluster F → Cluster F
    to_inject c = record c { shblock = inject }

    abbrev pub prepare_routes : Step (Cluster F × Bool)
    prepare_routes =
        lift (update clear_factors)
        ⨟ lift write_cblock
        ⨟ lift (update clear_upscaling)
        ⨟ lift write_iblock

    abbrev pub restore_routes : Cluster F → Step (Cluster F × Bool)
    restore_routes old =
        lift (update (restore_factors old))
        ⨟ lift write_cblock
        ⨟ lift calibrate_offsets
        ⨟ lift (update (restore_ublock old))
        ⨟ lift write_ublock
        ⨟ lift (update (restore_upscaling old))
        ⨟ lift write_iblock
        ⨟ lift (update to_inject)
        ⨟ lift write_shblock

    -- An early return gives `false`, else the flag is the result.
    unfoldable pub calibrate_routes : Step (Cluster F)
    calibrate_routes c = do
      r ← (prepare_routes ⨟ calibrate_lanes ⨟ restore_routes c) (c, true)
      pure (r.0.0, if r.1 then r.0.1 else false)
