-- ===== src/Cluster.antt =====
-- A cluster, the U-, C-, I- and SH-block between which signals are routed:
-- lib/platform-lucidac/src/carrier/cluster.h and cluster.cpp. All four blocks are taken to be
-- present, so tests for null pointers have no place here; the M-blocks are left out.
pub mod Routes
pub mod Calibration
pub mod Steps
pub mod Restore
mod Tests
use lucidac_firmware.Common.{ℕ, ◌+◌, ltb, Bool, true, false, if◌then◌else◌, pos}
use lucidac_firmware.Float.{FloatApi, one_float}
use lucidac_firmware.UBlock
use lucidac_firmware.UBlock.{UBlock, TransmissionMode}
use lucidac_firmware.CBlock
use lucidac_firmware.CBlock.{CBlock}
use lucidac_firmware.IBlock
use lucidac_firmware.IBlock.{IBlock}
use lucidac_firmware.ShBlock
use lucidac_firmware.ShBlock.{State}

pub record Cluster (F : Type 0) : Type 0 where
  pub ublock : UBlock
  pub cblock : CBlock F
  pub iblock : IBlock
  pub shblock : State

module _ {F : Type 0} (fl : FloatApi F) where
  -- Factors beyond 1 are scaled by a tenth, and the I-block scales the lane up again.
  abbrev pub is_large : F → Bool
  is_large c_factor = fl.lt (one_float fl) (fl.fabs c_factor)

  abbrev pub lane_factor : F → F
  lane_factor c_factor = if is_large c_factor then fl.mul c_factor (fl.lit (pos 1) 1) else c_factor

  -- The three steps of a route behind the U-block.
  abbrev pub route_behind : Cluster F → ℕ → F → ℕ → Cluster F × Bool
  route_behind c u_out factor i_out =
      let (cblock', factor_set) = CBlock.set_factor fl c.cblock u_out factor in
      let c₂ = record c { cblock = cblock' } in
      if factor_set
      then (let (iblock', joined) = IBlock.connect c.iblock u_out i_out false false in
          (record c₂ { iblock = iblock' }, joined))
      else (c₂, false)

  unfoldable pub route : Cluster F → ℕ → ℕ → F → ℕ → Cluster F × Bool
  route c u_in u_out c_factor i_out =
      let c₁ = record c { iblock = (IBlock.set_upscaling c.iblock u_out (is_large c_factor)).0 } in
      let (ublock', connected) = UBlock.connect c₁.ublock u_in u_out false in
      let c₂ = record c₁ { ublock = ublock' } in
      if connected then route_behind c₂ u_out (lane_factor c_factor) i_out else (c₂, false)

  unfoldable pub add_constant : Cluster F → TransmissionMode → ℕ → F → ℕ → Cluster F × Bool
  add_constant c signal_type u_out c_factor i_out =
      let c₁ = record c { iblock = (IBlock.set_upscaling c.iblock u_out (is_large c_factor)).0 } in
      let (ublock', connected) =
        UBlock.connect_alternative c₁.ublock signal_type u_out false false in
      let c₂ = record c₁ { ublock = ublock' } in
      if connected then route_behind c₂ u_out (lane_factor c_factor) i_out else (c₂, false)

  unfoldable pub route_in_external : Cluster F → ℕ → ℕ → Cluster F × Bool
  route_in_external c input i_out =
      if ltb 7 input
      then (c, false)
      else let (iblock', joined) = IBlock.connect c.iblock (input + 24) i_out false false in
        (record c { iblock = iblock' }, joined)

  unfoldable pub route_out_external : Cluster F → ℕ → ℕ → F → Cluster F × Bool
  route_out_external c u_in out c_factor =
      if ltb 7 out
      then (c, false)
      else let (ublock', connected) = UBlock.connect c.ublock u_in (out + 24) false in
        let c₂ = record c { ublock = ublock' } in
        if connected
        then (let (cblock', factor_set) = CBlock.set_factor fl c.cblock (out + 24) c_factor in
            (record c₂ { cblock = cblock' }, factor_set))
        else (c₂, false)

  unfoldable pub reset : Cluster F → ℕ → Cluster F
  reset c action = record {
    ublock = UBlock.reset c.ublock action;
    cblock = CBlock.reset fl c.cblock action;
    iblock = IBlock.reset c.iblock action;
    shblock = ShBlock.reset c.shblock action;
  }
