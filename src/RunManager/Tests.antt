-- ===== src/RunManager/Tests.antt =====
-- Runs of the run manager, and the theorems about it at these.
use Prim.Native.String.{String}
use lucidac_firmware.Common.{
  ℕ, ◌≤◌, none, ◌/◌, ◌≤◌, ◌<◌, ◌≡◌, ◌⊎◌, refl, true, List, [], ◌∷◌, some, arith, inl, inr, All, not,
  ◌&&◌, ◌==◌, ltb,
}
use lucidac_firmware.Json.{is_some}
use lucidac_firmware.Samples.{Value, number, text, truth, object, entry, done, plain}
use lucidac_firmware.DaqConfig.{default_daq_config}
use lucidac_firmware.Run.{Run, run_of, default_run_config}
use lucidac_firmware.RunManager.{start_run}
use lucidac_firmware.RunManager.Traditional.{
  Machine, Schedule, schedule, max_num_samples, run_next_traditional, time_of_sample, optime_us_of,
  scheduled_run,
}
use lucidac_firmware.RunManager.Timing.{
  period, scheduled_time, schedule_lem, run_next_traditional-undefined,
}
use lucidac_firmware.RunManager.Memory.{IsSafe, run_next_traditional-IsSafe}
use lucidac_firmware.RunManager.Termination.{GoesOn, IsLeft, stream_loop-terminates}
use lucidac_firmware.RunManager.Liveness.{IsServed, serve, serve-drains}
use lucidac_firmware.RunManager.Invariant.{IsQueued, empty, message, reachable_queue-IsQueued}

-- The default operation time of half a second and the 15 microseconds that a sample takes: the
-- number of samples is cut.
schedule_lem_example :
    (s : Schedule) × (schedule 500000 15 ≡ some s)
    × (s.num_samples ≤ max_num_samples)
    × (((500000 / period 500000 15 ≤ max_num_samples)
          × (scheduled_time s (period 500000 15) ≡ 500000))
        ⊎ ((max_num_samples < 500000 / period 500000 15)
            × (scheduled_time s (period 500000 15) < 500000)))
schedule_lem_example = schedule_lem 500000 15 (omega arith) (omega arith) positive
  where
    positive : 0 < period 500000 15
    positive = omega arith

abbrev machine : Machine
machine = record {
  sampling_time_us = 15;
  allocated = true;
  actual_op_time_us = 40;
  control_ready = true;
  daq_ready = true;
  is_done = λ i. i == 2;
  streamed = λ i. true;
  last_streamed = true;
  finalized = true;
  actual_op_time = 40000;
}

abbrev short_run : Run
short_run =
    run_of "01234567-89ab-cdef-0123-456789abcdef" (record default_run_config { op_time = 40000 })
      default_daq_config

abbrev short_schedule : Schedule
short_schedule = record { sampling_sleep_us = 0; num_samples = 2; optime_left_us = 10 }

short_run_lem :
    run_next_traditional short_run machine ≡ some (scheduled_run short_run machine short_schedule)
unfolding run_next_traditional schedule
short_run_lem = refl

run_next_traditional-IsSafe_example :
    IsSafe machine.allocated none (scheduled_run short_run machine short_schedule)
run_next_traditional-IsSafe_example =
    run_next_traditional-IsSafe short_run machine (scheduled_run short_run machine short_schedule)
      short_run_lem

run_next_traditional-undefined_example :
    is_some (run_next_traditional short_run machine)
    ≡ not (time_of_sample short_run machine == 0 && ltb (optime_us_of short_run) 16384)
run_next_traditional-undefined_example =
    run_next_traditional-undefined short_run machine (omega arith)

stream_loop-terminates_example : (k : ℕ) × (k ≤ 2) × GoesOn machine 0 k × IsLeft machine 5 0 k
stream_loop-terminates_example = stream_loop-terminates machine 2 5 refl (omega arith)

short_run-IsServed : IsServed 5 short_run machine
unfolding schedule
short_run-IsServed = inr (refl, (short_schedule, refl))

abbrev streaming_run : Run
streaming_run = record short_run { config = record short_run.config { streaming = true } }

serve-drains_example :
    serve 5 (short_run ∷ streaming_run ∷ short_run ∷ []) (machine ∷ machine ∷ [])
    ≡ some (short_run ∷ [])
serve-drains_example =
    serve-drains 5 ((short_run, machine) ∷ (streaming_run, machine) ∷ []) (short_run ∷ [])
      ((short_run-IsServed, refl), ((inl (refl, (2, omega arith, refl)), refl), tt))

abbrev start_message : List (String × Value)
start_message =
    ("id", text "short")
    ∷ ("config", object (entry "op_time_us" (number 40) (entry "repetitive" (truth true) done)))
    ∷ ("clear_queue", truth true)
    ∷ []

reachable_queue-IsQueued_example : All IsQueued (start_run plain [] start_message).0
reachable_queue-IsQueued_example =
    reachable_queue-IsQueued plain (start_run plain [] start_message).0
      (message start_message empty)
