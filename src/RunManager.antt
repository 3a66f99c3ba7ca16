-- ===== src/RunManager.antt =====
-- The queue of runs and their execution: lib/computation/src/run/run_manager.h and run_manager.cpp.
-- What a run asks of the machine is a list of actions, and what the machine answers is a `Machine`.
-- Log messages are left out.
pub mod Traditional
pub mod Flexio
pub mod Timing
pub mod Memory
pub mod Termination
pub mod Liveness
pub mod Invariant
mod Tests
use Prim.Native.String.{String}
use lucidac_firmware.Common.{
  ℕ, Bool, true, false, not, if◌then◌else◌, List, [], ◌∷◌, ◌++◌, Option, none, some,
}
use lucidac_firmware.Json.{JsonApi, is_some, or_else}
use lucidac_firmware.CBlock.Config.{member}
use lucidac_firmware.Run.{Run, RunConfig, from_json}
use lucidac_firmware.RunManager.Traditional.{
  Action, Machine, daq_init, calibrate_routes, run_next_traditional,
}
use lucidac_firmware.RunManager.Flexio.{run_next_flexio}

-- The front of the queue first.
abbrev pub Queue : Type 0
Queue = List Run

unfoldable pub end_repetitive_runs : Queue → Queue × Bool
end_repetitive_runs [] = ([], false)
end_repetitive_runs (run ∷ queue) =
    (record run { config = record run.config { repetitive = false } } ∷ queue, true)

unfoldable pub clear_queue : Queue → Queue
clear_queue queue = []

-- `push` puts a run at the back.
abbrev pub push : Queue → Run → Queue
push queue run = queue ++ (run ∷ [])

-- The run in front, with `none` where its execution divides by zero or does not end within the fuel.
unfoldable pub execute : ℕ → Run → Machine → Option (List Action)
unfolding run_next_traditional run_next_flexio
execute fuel run m =
    let calibration = if run.config.calibrate then daq_init ∷ calibrate_routes ∷ [] else [] in
    let executed =
      if run.config.streaming then run_next_flexio fuel run m else run_next_traditional run m in
    elim executed [ none ↦ none | some actions ↦ some (calibration ++ actions) ]

-- `none` for an empty queue, too, of which `front` is undefined. The run that is executed is a copy:
-- the one in the queue keeps its state.
unfoldable pub run_next : ℕ → Queue → Machine → Option (Queue × List Action)
unfolding execute
run_next fuel [] m = none
run_next fuel (run ∷ queue) m = elim (execute fuel run m) [
  | none ↦ none
  | some actions ↦ some (if not run.config.repetitive then queue else run ∷ queue, actions)
]

-- `JsonLinesProtocol::process_out_of_band_handlers` of lib/communication/src/protocol/protocol.cpp.
unfoldable pub process_out_of_band_handlers : ℕ → Queue → Machine → Option (Queue × List Action)
unfolding run_next
process_out_of_band_handlers fuel [] m = some ([], [])
process_out_of_band_handlers fuel (run ∷ queue) m = run_next fuel (run ∷ queue) m

module _ {F V : Type 0} (js : JsonApi F V) where
  -- `containsKey(key) && [key].as<bool>()`.
  abbrev pub asks : String → List (String × V) → Bool
  asks key msg_in = elim (member key msg_in) [ none ↦ false | some v ↦ js.to_bool v ]

  abbrev pub has_text : Option V → Bool
  has_text none = false
  has_text (some v) = is_some (js.text? v)

  unfoldable pub start_run : Queue → List (String × V) → Queue × ℕ
  unfolding end_repetitive_runs clear_queue from_json
  start_run queue msg_in =
      if not (has_text (member "id" msg_in))
      then (queue, 1)
      else let ended =
          if asks "end_repetitive" msg_in then (end_repetitive_runs queue).0 else queue in
        let cleared = if asks "clear_queue" msg_in then clear_queue ended else ended in
        (push cleared (from_json js msg_in), 0)
