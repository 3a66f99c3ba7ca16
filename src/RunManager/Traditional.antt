-- ===== src/RunManager/Traditional.antt =====
-- `run_next_traditional` of lib/computation/src/run/run_manager.cpp, and what runs ask of the machine.
use Prim.Native.String.{String}
use lucidac_firmware.Common.{
  ℕ, zero, suc, ◌+◌, ◌-◌, ◌*◌, ◌/◌, ◌%◌, ◌^◌, ◌==◌, ltb, Bool, not, ◌&&◌, if◌then◌else◌, List, [],
  ◌∷◌, ◌++◌, Option, none, some,
}
use lucidac_firmware.Run.{Run, RunStateChange, error, done, to}
use lucidac_firmware.DaqConfig.{daq_channels}

-- What a run does outside its own variables. `sample_raw` writes one entry of the buffer for each of
-- the eight channels, from an offset on; a measured sample writes no buffer.
pub data Action : Type 0 where
  calibrate_routes prepare daq_reset control_reset daq_init measured_sample manual_enable : Action
  control_init : ℕ → ℕ → Bool → Action
  manual_to_ic manual_to_op manual_to_halt handler_init daq_enable force_start stream : Action
  control_to_end last_stream finalize increase_run : Action
  allocate : ℕ → Action
  delay_ms delay_us delay_ns : ℕ → Action
  sample_raw : ℕ → Action
  handle_data : ℕ → ℕ → Action
  free : Action
  perf_ic perf_op : ℕ → Action
  state_change : String → RunStateChange → Action

-- What the machine answers during one run: measured times, whether memory is allocated, and, for a
-- run with FlexIO, the results of the calls, those in the loop by its round.
pub record Machine : Type 0 where
  pub sampling_time_us : ℕ
  pub allocated : Bool
  pub actual_op_time_us : ℕ
  pub control_ready : Bool
  pub daq_ready : Bool
  pub is_done : ℕ → Bool
  pub streamed : ℕ → Bool
  pub last_streamed : Bool
  pub finalized : Bool
  pub actual_op_time : ℕ

abbrev pub max_num_samples : ℕ
max_num_samples = 16384

pub record Schedule : Type 0 where
  pub sampling_sleep_us : ℕ
  pub num_samples : ℕ
  pub optime_left_us : ℕ

-- The waiting time after one sample.
unfoldable pub sleep_us : ℕ → ℕ → ℕ
sleep_us optime_us sampling_time_us =
    let sampling_total_us = optime_us / max_num_samples in
    if ltb sampling_total_us sampling_time_us then 0 else sampling_total_us - sampling_time_us

-- The four quantities on `uint32_t`; `none` where the division is by zero.
unfoldable pub schedule : ℕ → ℕ → Option Schedule
unfolding sleep_us
schedule optime_us sampling_time_us =
    let sampling_sleep_us = sleep_us optime_us sampling_time_us in
    let period = (sampling_sleep_us + sampling_time_us) % 2 ^ 32 in
    if period == 0
    then none
    else some record {
      sampling_sleep_us = sampling_sleep_us;
      num_samples =
          if ltb max_num_samples (optime_us / period) then max_num_samples else optime_us / period;
      optime_left_us = optime_us % period;
    }

-- The entries of the buffer, padding included.
abbrev pub buffer_entries : Schedule → ℕ → ℕ
buffer_entries s num_channels = s.num_samples * num_channels + daq_channels

-- A delay in milliseconds, microseconds or nanoseconds, by the size of a time in nanoseconds; the
-- arguments are `uint32_t`.
unfoldable pub wait_for : ℕ → Action
wait_for t =
    if ltb 100000000 t
    then delay_ms (t / 1000000 % 2 ^ 32)
    else if ltb 65000 t
    then delay_us (t / 1000 % 2 ^ 32)
    else delay_ns (t % 2 ^ 32)

-- The loop with so many samples left, from a sample on.
unfoldable pub sample_loop : ℕ → ℕ → ℕ → ℕ → List Action
sample_loop num_channels sleep sample zero = []
sample_loop num_channels sleep sample (suc left) =
    sample_raw (sample * num_channels)
    ∷ ((if not (sleep == 0) then delay_us sleep ∷ [] else [])
        ++ sample_loop num_channels sleep (sample + 1) left)

unfoldable pub op_phase : Run → Schedule → Bool → List Action
unfolding wait_for sample_loop
op_phase run s buffer =
    if buffer
    then sample_loop run.daq_config.num_channels s.sampling_sleep_us 0 s.num_samples
      ++ (if not (s.optime_left_us == 0) then delay_us s.optime_left_us ∷ [] else [])
    else wait_for run.config.op_time ∷ []

abbrev pub optime_us_of : Run → ℕ
optime_us_of run = run.config.op_time / 1000 % 2 ^ 32

-- The time of one sample: 0 where no channel is asked for.
abbrev pub time_of_sample : Run → Machine → ℕ
time_of_sample run m = if run.daq_config.num_channels == 0 then 0 else m.sampling_time_us

unfoldable pub scheduled_run : Run → Machine → Schedule → List Action
unfolding op_phase wait_for to
scheduled_run run m s =
    let num_channels = run.daq_config.num_channels in
    let wanted = not (num_channels == 0) in
    let buffer = wanted && m.allocated in
    let (run', result) =
      to run (if wanted && not buffer then error else done) (m.actual_op_time_us * 1000) in
    (if wanted then daq_init ∷ measured_sample ∷ [] else [])
    ++ ((if wanted then allocate (buffer_entries s num_channels * 2) ∷ [] else [])
        ++ ((manual_enable ∷ manual_to_ic ∷ wait_for run.config.ic_time ∷ manual_to_op ∷ [])
            ++ (op_phase run s buffer
                ++ ((manual_to_halt ∷ [])
                    ++ ((if buffer then handle_data s.num_samples num_channels ∷ free ∷ [] else [])
                        ++ (if run.config.write_run_state_changes
                            then state_change run.id result ∷ []
                            else []))))))

unfoldable pub run_next_traditional : Run → Machine → Option (List Action)
unfolding schedule scheduled_run
run_next_traditional run m = elim (schedule (optime_us_of run) (time_of_sample run m)) [
  | none ↦ none
  | some s ↦ some (scheduled_run run m s)
]
