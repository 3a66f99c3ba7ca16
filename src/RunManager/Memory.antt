-- ===== src/RunManager/Memory.antt =====
-- The buffer of a traditional run is large enough for what the run does with it.
use lucidac_firmware.Common.{
  ℕ, zero, suc, ◌+◌, ◌*◌, ◌/◌, ◌≤◌, ◌≡◌, refl, ◌==◌, not, Bool, true, false, ◌&&◌, if◌then◌else◌,
  List, [], ◌∷◌, ◌++◌, Option, none, some, arith, All, ap, sym, subst, ltb, Bool-cases, inl, inr,
}
use mathlib.Core.Option.{some-injective, some-ne-none}
use native.Mathlib.Nat.{suc-mul, add-mul}
use Prim.Native.String.{String}
use lucidac_firmware.Run.{Run, RunStateChange}
use lucidac_firmware.RunManager.Traditional.{
  Action, Machine, Schedule, allocate, sample_raw, handle_data, free, buffer_entries, delay_us,
  wait_for, manual_enable, manual_to_ic, manual_to_op, manual_to_halt, daq_init, measured_sample,
  state_change, sample_loop, op_phase, schedule, optime_us_of, time_of_sample, scheduled_run,
  run_next_traditional,
}

-- The entries of two bytes that the buffer has after an action, given those before, or `none` while
-- there is no buffer. An allocation that the machine refuses gives none.
abbrev pub capacity_after : Bool → Option ℕ → Action → Option ℕ
capacity_after allocated cap (allocate n) = if allocated then some (n / 2) else none
capacity_after allocated cap free = none
capacity_after allocated cap _ = cap

-- A buffer of so many entries at least.
abbrev pub Holds : Option ℕ → ℕ → Type 0
Holds none n = ⊥
Holds (some cap) n = n ≤ cap

-- What an action needs: the eight entries that a sample writes lie inside the buffer, and so do the
-- entries that are handed on; there is a buffer to free; and none is lost by an allocation.
abbrev pub Fits : Option ℕ → Action → Type 0
Fits cap (sample_raw offset) = Holds cap (offset + 8)
Fits cap (handle_data samples channels) = Holds cap (samples * channels)
Fits cap free = Holds cap 0
Fits cap (allocate n) = cap ≡ none
Fits cap _ = Unit

abbrev pub IsSafe : Bool → Option ℕ → List Action → Type 0
IsSafe allocated cap [] = Unit
IsSafe allocated cap (a ∷ xs) = Fits cap a × IsSafe allocated (capacity_after allocated cap a) xs

module _ (allocated : Bool) where
  -- Actions that fit and leave the buffer as it is.
  abbrev Keeps : Option ℕ → Action → Type 0
  Keeps cap a = Fits cap a × (capacity_after allocated cap a ≡ cap)

  append-Keeps :
      (cap : Option ℕ) (xs ys : List Action)
      → All (Keeps cap) xs
      → IsSafe allocated cap ys
      → IsSafe allocated cap (xs ++ ys)
  append-Keeps cap [] ys k s = s
  append-Keeps cap (a ∷ xs) ys ((fits, same), k) s = (fits, rw same (append-Keeps cap xs ys k s))

  all-append :
      (cap : Option ℕ) (xs ys : List Action)
      → All (Keeps cap) xs
      → All (Keeps cap) ys
      → All (Keeps cap) (xs ++ ys)
  all-append cap [] ys k l = l
  all-append cap (a ∷ xs) ys (h, k) l = (h, all-append cap xs ys k l)

  optional :
      (b : Bool) (cap : Option ℕ) (a : Action)
      → Keeps cap a
      → All (Keeps cap) (if b then a ∷ [] else [])
  optional true cap a k = (k, tt)
  optional false cap a k = tt

  wait_for-Keeps : (cap : Option ℕ) (t : ℕ) → Keeps cap (wait_for t)
  unfolding wait_for
  wait_for-Keeps cap t = elim (Bool-cases (ltb 100000000 t)) [
    | inl e ↦ rw e (tt, refl)
    | inr e ↦
        rw e (elim (Bool-cases (ltb 65000 t)) [ inl f ↦ rw f (tt, refl) | inr f ↦ rw f (tt, refl) ])
  ]

  sample_loop-Keeps :
      (cap nc sleep sample left : ℕ)
      → (sample + left) * nc + 8 ≤ cap
      → All (Keeps (some cap)) (sample_loop nc sleep sample left)
  unfolding sample_loop
  sample_loop-Keeps cap nc sleep sample zero h = tt
  sample_loop-Keeps cap nc sleep sample (suc left) h = (
    (omega (arith, add-mul sample (suc left) nc, suc-mul left nc), refl),
    all-append (some cap) (if not (sleep == 0) then delay_us sleep ∷ [] else [])
        (sample_loop nc sleep (sample + 1) left)
        (optional (not (sleep == 0)) (some cap) (delay_us sleep) (tt, refl))
        (sample_loop-Keeps cap nc sleep (sample + 1) left
          (omega (arith, h, ap (λ n. n * nc) (reorder sample left)))),
  )
    where
      reorder : (m n : ℕ) → m + suc n ≡ m + 1 + n
      reorder m n = omega arith

  op_phase-Keeps :
      (run : Run) (s : Schedule) (buffer : Bool) (cap : Option ℕ)
      → (buffer ≡ true → Holds cap (s.num_samples * run.daq_config.num_channels + 8))
      → All (Keeps cap) (op_phase run s buffer)
  unfolding op_phase
  op_phase-Keeps run s true (some cap) h =
      all-append (some cap)
        (sample_loop run.daq_config.num_channels s.sampling_sleep_us 0 s.num_samples) _
        (sample_loop-Keeps cap run.daq_config.num_channels s.sampling_sleep_us 0 s.num_samples
          (omega (arith, h refl)))
        (optional (not (s.optime_left_us == 0)) (some cap) (delay_us s.optime_left_us) (tt, refl))
  op_phase-Keeps run s true none h = absurd (h refl)
  op_phase-Keeps run s false cap h = (wait_for-Keeps cap run.config.op_time, tt)

  -- What comes behind the allocation.
  abbrev behind : Run → Schedule → Bool → List Action → List Action
  behind run s buffer report =
      (manual_enable ∷ manual_to_ic ∷ wait_for run.config.ic_time ∷ manual_to_op ∷ [])
      ++ (op_phase run s buffer
          ++ ((manual_to_halt ∷ [])
              ++ ((if buffer
                    then handle_data s.num_samples run.daq_config.num_channels ∷ free ∷ []
                    else [])
                  ++ report)))

  reported-IsSafe :
      (b : Bool) (cap : Option ℕ) (id : String) (c : RunStateChange)
      → IsSafe allocated cap (if b then state_change id c ∷ [] else [])
  reported-IsSafe true cap id c = (tt, tt)
  reported-IsSafe false cap id c = tt

  handed-IsSafe :
      (buffer : Bool) (cap : Option ℕ) (n c : ℕ) (report : List Action)
      → (buffer ≡ true → Holds cap (n * c + 8))
      → ((cap' : Option ℕ) → IsSafe allocated cap' report)
      → IsSafe allocated cap ((if buffer then handle_data n c ∷ free ∷ [] else []) ++ report)
  handed-IsSafe true (some cap) n c report h r = (omega (arith, h refl), (omega arith, r none))
  handed-IsSafe true none n c report h r = absurd (h refl)
  handed-IsSafe false cap n c report h r = r cap

  behind-IsSafe :
      (run : Run) (s : Schedule) (buffer : Bool) (report : List Action) (cap : Option ℕ)
      → (buffer ≡ true → Holds cap (s.num_samples * run.daq_config.num_channels + 8))
      → ((cap' : Option ℕ) → IsSafe allocated cap' report)
      → IsSafe allocated cap (behind run s buffer report)
  behind-IsSafe run s buffer report cap h r =
      append-Keeps cap
        (manual_enable ∷ manual_to_ic ∷ wait_for run.config.ic_time ∷ manual_to_op ∷ []) _
        ((tt, refl), ((tt, refl), (wait_for-Keeps cap run.config.ic_time, ((tt, refl), tt))))
        (append-Keeps cap (op_phase run s buffer) _ (op_phase-Keeps run s buffer cap h)
          (tt, handed-IsSafe buffer cap s.num_samples run.daq_config.num_channels report h r))

obtained :
    (allocated : Bool) (n : ℕ)
    → allocated ≡ true
    → Holds (if allocated then some (n * 2 / 2) else none) n
obtained true n e = omega arith
obtained false n e = ground arith

wanted-IsSafe :
    (run : Run) (m : Machine) (s : Schedule) (wanted : Bool) (report : List Action)
    → ((cap' : Option ℕ) → IsSafe m.allocated cap' report)
    → IsSafe m.allocated none (
        (if wanted then daq_init ∷ measured_sample ∷ [] else [])
        ++ ((if wanted
              then allocate (buffer_entries s run.daq_config.num_channels * 2) ∷ []
              else [])
            ++ behind m.allocated run s (wanted && m.allocated) report))
wanted-IsSafe run m s true report r = (
  tt,
  (
    tt,
    (
      refl,
      behind-IsSafe m.allocated run s m.allocated report _
          (obtained m.allocated (buffer_entries s run.daq_config.num_channels)) r,
    ),
  ),
)
wanted-IsSafe run m s false report r =
    behind-IsSafe m.allocated run s false report none (λ e. ground arith) r

scheduled-IsSafe :
    (run : Run) (m : Machine) (s : Schedule) → IsSafe m.allocated none (scheduled_run run m s)
unfolding scheduled_run
scheduled-IsSafe run m s =
    wanted-IsSafe run m s (not (run.daq_config.num_channels == 0)) _
      (λ cap'. reported-IsSafe m.allocated run.config.write_run_state_changes cap' run.id _)

-- Whatever a traditional run is asked for and whatever the machine answers, all that its samples
-- write and all that is handed on lies inside the buffer that was allocated for it, and nothing is
-- written, handed on or freed before the allocation, without one, after one that the machine refused,
-- or after the buffer was freed; no second buffer is allocated while there is one.
pub run_next_traditional-IsSafe :
    (run : Run) (m : Machine) (actions : List Action)
    → run_next_traditional run m ≡ some actions
    → IsSafe m.allocated none actions
unfolding run_next_traditional
run_next_traditional-IsSafe run m actions e =
    of_schedule (schedule (optime_us_of run) (time_of_sample run m)) e
  where
    of_schedule :
        (o : Option Schedule)
        → elim o as (λ x. Option (List Action)) [
          | none ↦ none
          | some s ↦ some (scheduled_run run m s)
        ]
          ≡ some actions
        → IsSafe m.allocated none actions
    of_schedule none e = absurd (some-ne-none actions (sym e))
    of_schedule (some s) e =
        subst (IsSafe m.allocated none) (some-injective (scheduled_run run m s) actions e)
          (scheduled-IsSafe run m s)
