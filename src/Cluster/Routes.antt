-- ===== src/Cluster/Routes.antt =====
-- What a route through a cluster puts together.
use lucidac_firmware.Common.{
  ℕ, ◌<◌, ◌≡◌, ◌∙◌, ap, true, false, arith, length, get_or, set, get_or-set_self, le→leb_false,
  length-set,
}
use lucidac_firmware.Float.{FloatApi, zero_float}
use lucidac_firmware.UBlock
use lucidac_firmware.UBlock.{UBlock, TransmissionMode}
use lucidac_firmware.UBlock.Signals.{signal, input, signal-connect}
use lucidac_firmware.UBlock.Invariant as UValid
use lucidac_firmware.CBlock
use lucidac_firmware.CBlock.{CBlock}
use lucidac_firmware.IBlock
use lucidac_firmware.IBlock.{IBlock}
use lucidac_firmware.IBlock.Connections.{closed, closed-connect, connect_accepted}
use lucidac_firmware.Cluster.{Cluster, is_large, lane_factor, route}

module _ {F : Type 0} (fl : FloatApi F) where
  pub record IsValid (c : Cluster F) : Type 0 where
    pub u_valid : UBlock.Invariant.IsValid c.ublock
    pub i_valid : IBlock.Connections.IsValid c.iblock
    pub c_size : length c.cblock.factors ≡ 32

  set_factor_accepted :
      (c : CBlock F) (i : ℕ) (x : F)
      → (CBlock.set_factor fl c i x).1 ≡ true
      → (i < 32) × ((CBlock.set_factor fl c i x).0 ≡ record c { factors = set c.factors i x })
  unfolding CBlock.set_factor
  set_factor_accepted c i x h = ground arith

  module _ (c : Cluster F) (u_in u_out : ℕ) (factor : F) (i_out : ℕ) where
    abbrev scaled : IBlock
    scaled = (IBlock.set_upscaling c.iblock u_out (is_large fl factor)).0

    route_accepted :
        (route fl c u_in u_out factor i_out).1 ≡ true
        → ((UBlock.connect c.ublock u_in u_out false).1 ≡ true)
          × ((CBlock.set_factor fl c.cblock u_out (lane_factor fl factor)).1 ≡ true)
          × ((IBlock.connect scaled u_out i_out false false).1 ≡ true)
          × ((route fl c u_in u_out factor i_out).0 ≡ record c {
            ublock = (UBlock.connect c.ublock u_in u_out false).0;
            cblock = (CBlock.set_factor fl c.cblock u_out (lane_factor fl factor)).0;
            iblock = (IBlock.connect scaled u_out i_out false false).0;
          })
    unfolding route
    route_accepted h = ground arith

    scaled-IsValid : IsValid c → IBlock.Connections.IsValid scaled
    unfolding IBlock.set_upscaling
    scaled-IsValid v =
        ground (arith, v.i_valid, length-set c.iblock.scaling_factors u_out (is_large fl factor))

    scaling-scaled :
        IsValid c → u_out < 32 → get_or scaled.scaling_factors u_out false ≡ is_large fl factor
    unfolding IBlock.set_upscaling
    scaling-scaled v h =
        rw (le→leb_false 32 u_out h, get_or)
          (get_or-set_self c.iblock.scaling_factors u_out (is_large fl factor) false
            (omega (arith, v.i_valid)))

    scaling_factors-connect :
        (b : IBlock)
        → (IBlock.connect b u_out i_out false false).0.scaling_factors ≡ b.scaling_factors
    unfolding IBlock.connect
    scaling_factors-connect b = ground arith

    -- On a valid cluster a route that is reported as made is there from end to end: the U-block's
    -- output carries the chosen input, the coefficient of that lane is the factor (a tenth of it if
    -- its amount is more than 1), the I-block scales the lane up exactly in that case, and the I-block
    -- joins the lane to the chosen output.
    pub route_lem :
        IsValid c
        → (route fl c u_in u_out factor i_out).1 ≡ true
        → let after = (route fl c u_in u_out factor i_out).0 in
          (signal after.ublock u_out ≡ input u_in)
          × (get_or after.cblock.factors u_out (zero_float fl) ≡ lane_factor fl factor)
          × (get_or after.iblock.scaling_factors u_out false ≡ is_large fl factor)
          × (closed after.iblock u_out i_out ≡ true)
    route_lem v h =
        let (u_done, c_done, i_done, e) = route_accepted h in
        let (in_range, c_after) =
          set_factor_accepted c.cblock u_out (lane_factor fl factor) c_done in
        rw e (
          signal-connect c.ublock u_in u_out false v.u_valid u_done,
          rw c_after (
              get_or-set_self c.cblock.factors u_out (lane_factor fl factor) (zero_float fl)
                (omega (arith, v.c_size))),
          ap (λ t. get_or t u_out false) (scaling_factors-connect scaled)
              ∙ scaling-scaled v in_range,
          closed-connect scaled u_out i_out false false (scaled-IsValid v) i_done u_out i_out
              ∙ ground arith,
        )
