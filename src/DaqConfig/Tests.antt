-- ===== src/DaqConfig/Tests.antt =====
-- A request whose product of rate and channels wraps to zero.
use lucidac_firmware.Common.{◌*◌, ◌%◌, ◌^◌, ◌≡◌, refl, leb, true, ◌&&◌, arith}
use lucidac_firmware.DaqConfig.{DaqConfig, is_valid}
use lucidac_firmware.DaqConfig.Valid.{is_accepted, is_valid_lem}

abbrev wrapping : DaqConfig
wrapping = record {
  num_channels = 128;
  sample_rate = 33554432;
  sample_op = true;
  sample_op_end = true;
}

wrapping_accepted : is_valid wrapping ≡ true
unfolding is_valid
wrapping_accepted = refl

is_valid_lem_example : is_valid wrapping ≡ (
    (leb (wrapping.sample_rate * wrapping.num_channels % 2 ^ 32) 1000000
      && leb 32 wrapping.sample_rate)
    && is_accepted wrapping.num_channels)
is_valid_lem_example = is_valid_lem wrapping (omega arith)
