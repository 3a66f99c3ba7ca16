-- ===== src/Cluster/Tests.antt =====
-- A route through a cluster, and the theorem about routes at it.
use lucidac_firmware.Common.{◌≡◌, refl, true, false, [], ℤ, pos, get_or}
use lucidac_firmware.Float.{zero_float}
use lucidac_firmware.Samples.{thousandths, plain}
use lucidac_firmware.UBlock
use lucidac_firmware.UBlock.Signals.{signal, input}
use lucidac_firmware.CBlock
use lucidac_firmware.IBlock
use lucidac_firmware.IBlock.Connections.{closed}
use lucidac_firmware.IBlock.Reachable
use lucidac_firmware.UBlock.Reachable as UReached
use lucidac_firmware.ShBlock.{inject}
use lucidac_firmware.Cluster.{Cluster, is_large, lane_factor, route}
use lucidac_firmware.Bus.Functions.{Env}
use lucidac_firmware.UBlock.Hardware.{UBlockHal}
use lucidac_firmware.CBlock.{CBlockHal}
use lucidac_firmware.IBlock.Hardware.{IBlockHal}
use lucidac_firmware.Cluster.Calibration.{ClusterHal, calibrate_routes}
use lucidac_firmware.Cluster.Restore.{IsRestored, calibrate_routes-IsRestored}
use lucidac_firmware.Cluster.Routes.{IsValid, route_lem}

abbrev fresh : Cluster ℤ
fresh = record {
  ublock = UBlock.init;
  cblock = CBlock.init thousandths;
  iblock = IBlock.init;
  shblock = inject;
}

fresh-IsValid : IsValid thousandths fresh
fresh-IsValid = record {
  u_valid = UReached.reachable-IsValid thousandths plain [];
  i_valid = Reachable.reachable_words-IsValid plain [];
  c_size = unfold CBlock.init in refl;
}

-- Factor 5 is beyond 1.
made : (route thousandths fresh 3 8 (pos 5000) 2).1 ≡ true
unfolding route UBlock.connect UBlock.init CBlock.set_factor IBlock.connect IBlock.init
    UBlock.io_sanity_check UBlock.is_output_connected_unchecked UBlock.connect_b IBlock.is_connected
    IBlock.set_upscaling
made = refl

route_lem_example :
    (signal (route thousandths fresh 3 8 (pos 5000) 2).0.ublock 8 ≡ input 3)
    × (get_or (route thousandths fresh 3 8 (pos 5000) 2).0.cblock.factors 8 (zero_float thousandths)
        ≡ lane_factor thousandths (pos 5000))
    × (get_or (route thousandths fresh 3 8 (pos 5000) 2).0.iblock.scaling_factors 8 false
        ≡ is_large thousandths (pos 5000))
    × (closed (route thousandths fresh 3 8 (pos 5000) 2).0.iblock 8 2 ≡ true)
route_lem_example = route_lem thousandths fresh 3 8 (pos 5000) 2 fresh-IsValid made

-- A build without read-back, a mean of one half on every channel.
abbrev quiet : Env
quiet = record { pedantic = false; miso = λ log. 0; miso_bytes = λ log. [] }

abbrev hal : ClusterHal
hal = record {
  u_hardware = UBlockHal.v_1_2 0;
  c_hardware = CBlockHal.v_1_1 0;
  i_hardware = IBlockHal.v_1_2 0;
}

abbrev routed : Cluster ℤ
routed = (route thousandths fresh 3 8 (pos 5000) 2).0

calibrate_routes-IsRestored_example :
    IsRestored routed
      (calibrate_routes thousandths quiet hal (λ log channel. pos 500) routed []).0.0
calibrate_routes-IsRestored_example =
    calibrate_routes-IsRestored thousandths quiet hal (λ log channel. pos 500) routed [] refl
