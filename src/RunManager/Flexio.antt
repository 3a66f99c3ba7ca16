-- ===== src/RunManager/Flexio.antt =====
-- `run_next_flexio` of lib/computation/src/run/run_manager.cpp.
use lucidac_firmware.Common.{
  ℕ, zero, suc, ◌+◌, ◌/◌, Bool, true, false, not, ◌||◌, if◌then◌else◌, List, [], ◌∷◌, ◌++◌, Option,
  none, some,
}
use lucidac_firmware.Run.{Run, error, done, to}
use lucidac_firmware.RunManager.Traditional.{
  Action, Machine, prepare, daq_reset, control_reset, control_init, daq_init, handler_init,
  daq_enable, force_start, delay_us, stream, control_to_end, last_stream, finalize, perf_ic,
  perf_op, increase_run, state_change,
}

-- The loop from a round on: whether it was left by an error, and what it did. `none` when the fuel
-- is used up.
unfoldable pub stream_loop : Machine → ℕ → ℕ → Option (Bool × List Action)
stream_loop m zero i = none
stream_loop m (suc fuel) i =
    let rest = stream_loop m fuel (i + 1) in
    if m.is_done i
    then some (false, [])
    else if not (m.streamed i)
    then some (true, stream ∷ [])
    else elim rest [ none ↦ none | some r ↦ some (r.0, stream ∷ r.1) ]

abbrev pub after_loop : Run → Machine → Bool → List Action
unfolding to
after_loop run m loop_error =
    let daq_error = loop_error || (not m.last_streamed || not m.finalized) in
    control_to_end
    ∷ delay_us 20
    ∷ last_stream
    ∷ perf_ic (run.config.ic_time / 1000)
    ∷ perf_op (m.actual_op_time / 1000)
    ∷ increase_run
    ∷ finalize
    ∷ state_change run.id (to run (if daq_error then error else done) m.actual_op_time).1
    ∷ []

abbrev pub before_init : Run → List Action
before_init run =
    prepare
    ∷ daq_reset
    ∷ control_reset
    ∷ control_init run.config.ic_time run.config.op_time run.config.halt_on_overload
    ∷ []

unfoldable pub run_next_flexio : ℕ → Run → Machine → Option (List Action)
unfolding stream_loop after_loop to
run_next_flexio fuel run m =
    let looped = stream_loop m fuel 0 in
    if not m.control_ready
    then some (before_init run ++ (state_change run.id (to run error 0).1 ∷ []))
    else if not m.daq_ready
    then some (before_init run ++ (daq_init ∷ state_change run.id (to run error 0).1 ∷ []))
    else elim looped [
      | none ↦ none
      | some r ↦ some (
          before_init run
          ++ (daq_init
              ∷ handler_init
              ∷ daq_enable
              ∷ force_start
              ∷ delay_us 1
              ∷ (r.1 ++ after_loop run m r.0)))
    ]
