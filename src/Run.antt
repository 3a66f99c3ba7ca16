-- ===== src/Run.antt =====
-- Runs and how they are read from a message: lib/computation/src/run/run.h and run.cpp. The history
-- that a run declares is used by no function.
use Prim.Native.String.{String, len}
use lucidac_firmware.Common.{
  ℕ, ◌+◌, ◌*◌, ◌%◌, ◌^◌, ◌==◌, Bool, true, false, not, if◌then◌else◌, List, [], none, some,
}
use lucidac_firmware.Json.{JsonApi, or_else}
use lucidac_firmware.CBlock.Config.{member}
use lucidac_firmware.DaqConfig.{DaqConfig, default_daq_config}
use lucidac_firmware.DaqConfig

pub data RunState : Type 0 where
  new error done queued take_off ic op op_end tmp_halt : RunState

pub record RunStateChange : Type 0 where
  pub t : ℕ
  pub old : RunState
  pub new_ : RunState

pub record RunConfig : Type 0 where
  pub ic_time : ℕ
  pub op_time : ℕ
  pub halt_on_overload : Bool
  pub streaming : Bool
  pub repetitive : Bool
  pub write_run_state_changes : Bool
  pub calibrate : Bool

-- The default member initialisers.
abbrev pub default_run_config : RunConfig
default_run_config = record {
  ic_time = 100000;
  op_time = 500000000;
  halt_on_overload = false;
  streaming = false;
  repetitive = false;
  write_run_state_changes = true;
  calibrate = false;
}

pub record Run : Type 0 where
  pub id : String
  pub config : RunConfig
  pub state : RunState
  pub daq_config : DaqConfig

-- `Run(id, config)`, and `Run(id, config, daq_config)`.
abbrev pub run_of : String → RunConfig → DaqConfig → Run
run_of id config daq_config = record {
  id = id;
  config = config;
  state = new;
  daq_config = daq_config;
}

-- The run in its new state, and the change with the time as an `unsigned int`.
unfoldable pub to : Run → RunState → ℕ → Run × RunStateChange
to run new_state t =
    (record run { state = new_state }, record { t = t % 2 ^ 32; old = run.state; new_ = new_state })

abbrev pub us : ℕ
us = 1000

abbrev pub ms : ℕ
ms = 1000000

-- The sum of the four units of a time, on `uint64_t`.
unfoldable pub total_time : ℕ → ℕ → ℕ → ℕ → ℕ
total_time def_ ns_ us_ ms_ = (def_ + ns_ + us * us_ + ms * ms_) % 2 ^ 64

module _ {F V : Type 0} (js : JsonApi F V) where
  open js use {to_uint64, to_bool, to_text, text?, object?, null}

  -- `json[key]`, which is null for a missing key.
  abbrev pub field : String → List (String × V) → V
  field key es = or_else (member key es) null

  -- `as<JsonObjectConst>()`, whose members are none for a value that is no object.
  abbrev pub as_object : V → List (String × V)
  as_object v = or_else (object? v) []

  abbrev pub flag : String → Bool → List (String × V) → Bool
  flag key default_ es = elim (member key es) [ none ↦ default_ | some v ↦ to_bool v ]

  unfoldable pub run_config_from_json : List (String × V) → RunConfig
  unfolding total_time
  run_config_from_json json = record {
    ic_time =
        total_time (to_uint64 (field "ic_time" json)) (to_uint64 (field "ic_time_ns" json))
          (to_uint64 (field "ic_time_us" json)) (to_uint64 (field "ic_time_ms" json));
    op_time =
        total_time (to_uint64 (field "op_time" json)) (to_uint64 (field "op_time_ns" json))
          (to_uint64 (field "op_time_us" json)) (to_uint64 (field "op_time_ms" json));
    halt_on_overload = flag "halt_on_overload" false json;
    streaming = flag "streaming" false json;
    repetitive = flag "repetitive" false json;
    write_run_state_changes = flag "write_run_state_changes" true json;
    calibrate = flag "calibrate" false json;
  }

  abbrev pub placeholder_id : String
  placeholder_id = "xxxxxxxx-xxxx-xxxx-xxxx-xxxxxxxxxxxx"

  abbrev pub checked_id : String → String
  checked_id id = if not (len id == 32 + 4) then placeholder_id else id

  unfoldable pub from_json : List (String × V) → Run
  unfolding run_config_from_json DaqConfig.from_json
  from_json json =
      run_of (checked_id (to_text (field "id" json)))
        (run_config_from_json (as_object (field "config" json)))
        (DaqConfig.from_json js (object? (field "daq_config" json)))
