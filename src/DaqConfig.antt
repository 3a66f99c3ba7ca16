-- ===== src/DaqConfig.antt =====
-- The request for data acquisition: lib/computation/src/daq/base.h and base.cpp.
use Prim.Native.String.{String}
use lucidac_firmware.Common.{
  ℕ, ◌*◌, ◌-◌, ◌%◌, ◌^◌, ◌==◌, ltb, bit_and, Bool, true, false, not, ◌&&◌, ◌||◌, if◌then◌else◌,
  List, Option, none, some,
}
use lucidac_firmware.Json.{JsonApi, is_some, or_else}
use lucidac_firmware.CBlock.Config.{member}
mod Valid
mod Tests

abbrev pub daq_channels : ℕ
daq_channels = 8

abbrev pub default_sample_rate : ℕ
default_sample_rate = 400000

pub record DaqConfig : Type 0 where
  pub num_channels : ℕ
  pub sample_rate : ℕ
  pub sample_op : Bool
  pub sample_op_end : Bool

abbrev pub default_daq_config : DaqConfig
default_daq_config = record {
  num_channels = daq_channels;
  sample_rate = default_sample_rate;
  sample_op = true;
  sample_op_end = true;
}

-- The product is of 32 bits, and `num_channels` is a `uint8_t` promoted to `int` in the last test.
unfoldable pub is_valid : DaqConfig → Bool
is_valid c =
    if ltb 1000000 (c.sample_rate * c.num_channels % 2 ^ 32) || ltb c.sample_rate 32
    then false
    else if ltb 0 c.num_channels && not (bit_and c.num_channels (c.num_channels - 1) == 0)
    then false
    else true

-- `operator bool`.
unfoldable pub samples_anything : DaqConfig → Bool
samples_anything c = not (c.num_channels == 0) && (c.sample_op || c.sample_op_end)

module _ {F V : Type 0} (js : JsonApi F V) where
  open js use {is_null, uint?, uint8?, bool?, object?}

  -- A member that is neither missing nor null nor of another type.
  abbrev pub given {ℓ} : {A : Type ℓ} → (V → Option A) → String → List (String × V) → Option V
  given read key es = elim (member key es) [
    | none ↦ none
    | some v ↦ if not (is_null v) && is_some (read v) then some v else none
  ]

  -- `as<uint8_t>()`, which is 0 for a number that does not fit.
  abbrev pub to_uint8 : V → ℕ
  to_uint8 v = or_else (uint8? v) 0

  abbrev pub replaced {ℓ} : {A : Type ℓ} → Option V → (V → A) → A → A
  replaced none read a = a
  replaced (some v) read a = read v

  abbrev pub config_from_entries : List (String × V) → DaqConfig
  config_from_entries es = record {
    num_channels = replaced (given uint? "num_channels" es) to_uint8 daq_channels;
    sample_rate =
        replaced (given uint? "sample_rate" es) (λ v. or_else (uint? v) 0) default_sample_rate;
    sample_op = replaced (given bool? "sample_op" es) (λ v. or_else (bool? v) false) true;
    sample_op_end = replaced (given bool? "sample_op_end" es) (λ v. or_else (bool? v) false) true;
  }

  -- The argument is `none` where the JSON object is null.
  unfoldable pub from_json : Option (List (String × V)) → DaqConfig
  from_json none = default_daq_config
  from_json (some es) = config_from_entries es
