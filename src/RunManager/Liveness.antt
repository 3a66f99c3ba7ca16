-- ===== src/RunManager/Liveness.antt =====
-- Runs that are queued are executed, in the order in which they were queued.
use lucidac_firmware.Common.{
  ℕ, ◌<◌, ◌≡◌, ◌⊎◌, refl, ap, ◌∙◌, Bool, true, false, not, if◌then◌else◌, List, [], ◌∷◌, ◌++◌,
  Option, none, some, arith, Bool-cases, Option-cases, inl, inr, map, All,
}
use mathlib.Core.Option.{some-ne-none}
use lucidac_firmware.Json.{is_some}
use lucidac_firmware.Run.{Run}
use lucidac_firmware.RunManager.{
  Queue, execute, run_next, process_out_of_band_handlers, end_repetitive_runs,
}
use lucidac_firmware.RunManager.Traditional.{
  Action, Machine, Schedule, schedule, optime_us_of, time_of_sample, run_next_traditional, daq_init,
  calibrate_routes,
}
use lucidac_firmware.RunManager.Flexio.{run_next_flexio}
use lucidac_firmware.RunManager.Termination.{result_of}

-- What a run needs to come to an end: with FlexIO, that the control reports its end in a round that
-- the fuel allows; else a time between samples that is not zero.
abbrev pub IsServed : ℕ → Run → Machine → Type 0
IsServed fuel run m =
    ((run.config.streaming ≡ true) × ((k : ℕ) × (k < fuel) × (m.is_done k ≡ true)))
    ⊎ ((run.config.streaming ≡ false)
        × ((s : Schedule) × (schedule (optime_us_of run) (time_of_sample run m) ≡ some s)))

flexio_ends :
    (fuel k : ℕ) (run : Run) (m : Machine)
    → k < fuel
    → m.is_done k ≡ true
    → is_some (run_next_flexio fuel run m) ≡ true
unfolding run_next_flexio
flexio_ends fuel k run m h d = elim (Bool-cases m.control_ready) [
  | inr e ↦ rw e refl
  | inl e ↦ elim (Bool-cases m.daq_ready) [
    | inr f ↦ rw (e, f) refl
    | inl f ↦ let (r, g) = result_of m k fuel d h in rw (e, f, g) refl
  ]
]

traditional_ends :
    (run : Run) (m : Machine) (s : Schedule)
    → schedule (optime_us_of run) (time_of_sample run m) ≡ some s
    → is_some (run_next_traditional run m) ≡ true
unfolding run_next_traditional
traditional_ends run m s e = rw (run_next_traditional, e) refl

some_kept :
    (before : List Action) (o : Option (List Action))
    → is_some o ≡ true
    → is_some
        (elim o as (λ x. Option (List Action)) [ none ↦ none | some xs ↦ some (before ++ xs) ])
      ≡ true
some_kept before none e = e
some_kept before (some xs) e = refl

execute_ends :
    (fuel : ℕ) (run : Run) (m : Machine) → IsServed fuel run m → is_some (execute fuel run m) ≡ true
unfolding execute
execute_ends fuel run m served =
    some_kept (if run.config.calibrate then daq_init ∷ calibrate_routes ∷ [] else [])
      (chosen run.config.streaming) (ends served)
  where
    chosen : Bool → Option (List Action)
    chosen b = if b then run_next_flexio fuel run m else run_next_traditional run m

    ends : IsServed fuel run m → is_some (chosen run.config.streaming) ≡ true
    ends (inl (streams, (k, h, d))) =
        ap (λ b. is_some (chosen b)) streams ∙ flexio_ends fuel k run m h d
    ends (inr (samples, (s, e))) = ap (λ b. is_some (chosen b)) samples ∙ traditional_ends run m s e

-- The queue after a call, of a run that ends.
run_next_lem :
    (fuel : ℕ) (run : Run) (queue : Queue) (m : Machine)
    → IsServed fuel run m
    → (actions : List Action) × (run_next fuel (run ∷ queue) m
        ≡ some (if not run.config.repetitive then queue else run ∷ queue, actions))
unfolding run_next
run_next_lem fuel run queue m h = elim (Option-cases (execute fuel run m)) [
  | inr (actions, e) ↦ (actions, rw (run_next, e) refl)
  | inl e ↦ absurd (is_none (execute fuel run m) (execute_ends fuel run m h) e)
]
  where
    is_none : (o : Option (List Action)) → is_some o ≡ true → o ≡ none → ⊥
    is_none none p q = ground arith
    is_none (some xs) p q = some-ne-none xs q

-- `process_out_of_band_handlers`, called once for each answer of the machine.
unfoldable pub serve : ℕ → Queue → List Machine → Option Queue
unfolding process_out_of_band_handlers
serve fuel queue [] = some queue
serve fuel queue (m ∷ ms) = elim (process_out_of_band_handlers fuel queue m) [
  | none ↦ none
  | some r ↦ serve fuel r.0 ms
]

serve_step :
    (fuel : ℕ) (run : Run) (queue : Queue) (m : Machine) (ms : List Machine)
    → IsServed fuel run m
    → serve fuel (run ∷ queue) (m ∷ ms)
      ≡ serve fuel (if not run.config.repetitive then queue else run ∷ queue) ms
unfolding process_out_of_band_handlers serve
serve_step fuel run queue m ms h =
    let (actions, e) = run_next_lem fuel run queue m h in rw (serve, e) refl

-- Calls of `process_out_of_band_handlers` take runs that are not repetitive off the queue from the
-- front, one with each call: a queue that starts with as many of them as there are calls is left
-- with exactly the rest. Each of these runs must end, as `IsServed` says.
pub serve-drains :
    (fuel : ℕ) (served : List (Run × Machine)) (rest : Queue)
    → All (λ p. IsServed fuel p.0 p.1 × (p.0.config.repetitive ≡ false)) served
    → serve fuel (map (λ p. p.0) served ++ rest) (map (λ p. p.1) served) ≡ some rest
unfolding serve
serve-drains fuel [] rest h = refl
serve-drains fuel ((run, m) ∷ served) rest ((ends, once), h) =
    serve_step fuel run (map (λ p. p.0) served ++ rest) m (map (λ p. p.1) served) ends
    ∙ rw once (serve-drains fuel served rest h)

repeats :
    (fuel : ℕ) (run : Run) (rest : Queue) (ms : List Machine)
    → run.config.repetitive ≡ true
    → All (IsServed fuel run) ms
    → serve fuel (run ∷ rest) ms ≡ some (run ∷ rest)
unfolding serve
repeats fuel run rest [] again h = refl
repeats fuel run rest (m ∷ ms) again (ends, h) =
    serve_step fuel run rest m ms ends
    ∙ (ap (λ b. serve fuel (if not b then rest else run ∷ rest) ms) again
        ∙ repeats fuel run rest ms again h)

-- A repetitive run in front stays there, however many calls execute it, and the runs behind it wait.
-- After `end_repetitive_runs` the next call that executes it takes it off the queue.
serve-repetitive :
    (fuel : ℕ) (run : Run) (rest : Queue) (ms : List Machine) (m : Machine)
    → run.config.repetitive ≡ true
    → All (IsServed fuel run) ms
    → IsServed fuel run m
    → (serve fuel (run ∷ rest) ms ≡ some (run ∷ rest))
      × (serve fuel (end_repetitive_runs (run ∷ rest)).0 (m ∷ []) ≡ some rest)
unfolding end_repetitive_runs serve
serve-repetitive fuel run rest ms m again h ends = (
  repeats fuel run rest ms again h,
  serve_step fuel (record run { config = record run.config { repetitive = false } }) rest m [] ends,
)
