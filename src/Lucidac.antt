-- ===== src/Lucidac.antt =====
-- The channels of the ADC bus and the inputs from outside: carrier.h and carrier.cpp of
-- lib/platform-lucidac/src/carrier, and lucidac.h and lucidac.cpp of lib/platform-lucidac/src/lucidac.
-- The clusters and the control block, which a carrier writes to the hardware as well, are given by
-- their drivers.
pub mod Config
pub mod Channels
pub mod Mux
mod Tests
use Prim.Native.String.{String, ◌++◌}
use lucidac_firmware.Common.{
  ℕ, zero, suc, ◌+◌, ◌*◌, ◌^◌, ◌==◌, ltb, leb, bit_or, Bool, true, false, not, ◌&&◌, ◌||◌,
  if◌then◌else◌, List, [], ◌∷◌, Option, none, some, ℤ, pos, negsuc, nonneg, get_or, set, replicate,
  any, index_range,
}
use lucidac_firmware.Entity.{has, circuit_reset}
use lucidac_firmware.Bus.{address_from_tuple}
use lucidac_firmware.Bus.Functions.{Env, Bus, ◌>>=◌, ◌>>◌, pure, fire, pause}
use lucidac_firmware.Chips.Sr74Hct595
use lucidac_firmware.IBlock.Hardware.{chip_cmd_word}

pub data Acl : Type 0 where
  internal external : Acl

pub record Lucidac : Type 0 where
  pub adc_channels : List ℤ
  pub acl_select : List Acl

abbrev pub adc_channel_disabled : ℤ
adc_channel_disabled = negsuc 0

abbrev pub eq_channel : ℤ → ℤ → Bool
eq_channel (pos m) (pos n) = m == n
eq_channel (negsuc m) (negsuc n) = m == n
eq_channel (pos m) (negsuc n) = false
eq_channel (negsuc m) (pos n) = false

abbrev pub above_15 : ℤ → Bool
above_15 (pos n) = ltb 15 n
above_15 (negsuc n) = false

abbrev pub channel_at : List ℤ → ℕ → ℤ
channel_at channels i = get_or channels i adc_channel_disabled

-- Whether another place than i has the channel.
abbrev pub used_elsewhere : List ℤ → ℕ → ℤ → Bool
used_elsewhere channels i channel =
    any (λ j. not (i == j) && eq_channel (channel_at channels j) channel) (index_range 8)

abbrev pub used_twice : List ℤ → ℕ → Bool
used_twice channels i =
    nonneg (channel_at channels i) && used_elsewhere channels i (channel_at channels i)

unfoldable pub init : Lucidac
init = record { adc_channels = replicate 8 adc_channel_disabled; acl_select = replicate 8 internal }

unfoldable pub set_adc_channels : Lucidac → List ℤ → Lucidac × Bool
set_adc_channels l channels =
    if any above_15 channels
    then (l, false)
    else if any (used_twice channels) (index_range 8)
    then (l, false)
    else (record l { adc_channels = channels }, true)

-- Any negative channel becomes the disabled one.
abbrev pub normalised : ℤ → ℤ
normalised (pos n) = pos n
normalised (negsuc n) = adc_channel_disabled

unfoldable pub set_adc_channel : Lucidac → ℕ → ℤ → Lucidac × Bool
set_adc_channel l idx adc_channel =
    let channel = normalised adc_channel in
    if leb 8 idx
    then (l, false)
    else if not (eq_channel channel adc_channel_disabled)
        && used_elsewhere l.adc_channels idx channel
    then (l, false)
    else (record l { adc_channels = set l.adc_channels idx channel }, true)

unfoldable pub reset_adc_channels : Lucidac → Lucidac
reset_adc_channels l = record l { adc_channels = replicate 8 adc_channel_disabled }

unfoldable pub reset_acl_select : Lucidac → Lucidac
reset_acl_select l = record l { acl_select = replicate 8 internal }

unfoldable pub set_acl_select : Lucidac → ℕ → Acl → Lucidac × Bool
set_acl_select l idx acl =
    if leb 8 idx then (l, false) else (record l { acl_select = set l.acl_select idx acl }, true)

-- What `Carrier::reset` and `LUCIDAC::reset` do to these members.
unfoldable pub reset : Lucidac → ℕ → Lucidac
unfolding reset_adc_channels reset_acl_select has
reset l action =
    let l' = reset_adc_channels l in
    if has action circuit_reset then reset_adc_channels (reset_acl_select l') else l'

abbrev pub carrier_maddr : ℕ
carrier_maddr = 5

abbrev pub f_adc_switcher_prg : ℕ
f_adc_switcher_prg = address_from_tuple carrier_maddr 2

abbrev pub f_adc_switcher_matrix_reset : ℕ
f_adc_switcher_matrix_reset = address_from_tuple carrier_maddr 3

abbrev pub f_adc_switcher_sync : ℕ
f_adc_switcher_sync = address_from_tuple carrier_maddr 5

abbrev pub f_acl_prg : ℕ
f_acl_prg = address_from_tuple carrier_maddr 6

abbrev pub f_acl_upd : ℕ
f_acl_upd = address_from_tuple carrier_maddr 7

-- The bits of the inputs that are left, from an index on.
abbrev pub acl_bits : List Acl → ℕ → ℕ
acl_bits [] idx = 0
acl_bits (internal ∷ acl) idx = acl_bits acl (idx + 1)
acl_bits (external ∷ acl) idx = 2 ^ idx + acl_bits acl (idx + 1)

-- The code and the text of a `utils::status`; no error has a text, too.
pub record CarrierStatus : Type 0 where
  pub code : ℕ
  pub msg : String

abbrev pub no_error : CarrierStatus
no_error = record { code = 0; msg = "success" }

abbrev pub ctrl_error : Bool → CarrierStatus → CarrierStatus
ctrl_error true error = error
ctrl_error false error = record {
  code = bit_or error.code 0x4;
  msg = error.msg ++ "CTRL Block write failed.";
}

abbrev pub mux_error : Bool → CarrierStatus → CarrierStatus
mux_error true error = error
mux_error false error = record {
  code = bit_or error.code 0x8;
  msg = error.msg ++ "ADC Bus write failed.";
}

module _ (env : Env) where
  unfoldable pub write_acl : List Acl → Bus Bool
  unfolding Sr74Hct595.transfer8
  write_acl acl = do
    (written, back) ← Sr74Hct595.transfer8 env f_acl_prg (acl_bits acl 0)
    if written then (do fire f_acl_upd; pure true) else pure false

  -- The loop over the outputs that are left.
  unfoldable pub write_mux_from : List ℤ → ℕ → Bus Bool
  unfolding Sr74Hct595.transfer8 chip_cmd_word
  write_mux_from [] o = pure true
  write_mux_from (negsuc n ∷ channels) o = write_mux_from channels (o + 1)
  write_mux_from (pos i ∷ channels) o = do
    (written, back) ← Sr74Hct595.transfer8 env f_adc_switcher_prg (chip_cmd_word i o true)
    if written then (do fire f_adc_switcher_sync; write_mux_from channels (o + 1)) else pure false

  unfoldable pub write_adc_bus_mux : List ℤ → Bus Bool
  unfolding write_mux_from
  write_adc_bus_mux channels = do
    fire f_adc_switcher_matrix_reset
    pause 420
    write_mux_from channels 0

  -- The status that the clusters which are left make of one: each failure adds the cluster's index.
  unfoldable pub write_clusters : List (Bus Bool) → ℕ → CarrierStatus → Bus CarrierStatus
  write_clusters [] index error = pure error
  write_clusters (cluster ∷ clusters) index error = do
    written ← cluster
    write_clusters clusters (index + 1) (
        if written
        then error
        else record { code = error.code + index; msg = error.msg ++ "Cluster write failed." })

  -- What is written behind the clusters.
  unfoldable pub write_others : Bus Bool → Lucidac → CarrierStatus → Bus CarrierStatus
  unfolding write_adc_bus_mux
  write_others ctrl_block l error = do
    ctrl_written ← ctrl_block
    mux_written ← write_adc_bus_mux l.adc_channels
    pure (mux_error mux_written (ctrl_error ctrl_written error))

  -- `Carrier::write_to_hardware`. A carrier without a control block is given `pure true` as its
  -- driver.
  unfoldable pub write_to_hardware : List (Bus Bool) → Bus Bool → Lucidac → Bus CarrierStatus
  unfolding write_clusters write_others
  write_to_hardware clusters ctrl_block l = do
    error ← write_clusters clusters 0 no_error
    write_others ctrl_block l error
