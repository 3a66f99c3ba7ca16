-- ===== src/RunManager/Timing.antt =====
-- How long the sampling of a traditional run takes.
use lucidac_firmware.Json.{is_some}
use lucidac_firmware.Run.{Run}
use lucidac_firmware.Common.{
  ℕ, ◌+◌, ◌*◌, ◌/◌, ◌%◌, ◌^◌, ◌<◌, ◌≤◌, ◌≡◌, ◌⊎◌, refl, ◌==◌, ltb, ltb→lt, false, if◌then◌else◌,
  some, arith, Bool-cases, inl, inr, ◌&&◌, not, ap, ◌∙◌, Bool, true, none, Option, List,
}
use native.Mathlib.Nat.{div-add-mod, mul-lt-mul_of_pos_right, mul_comm}
use lucidac_firmware.RunManager.Traditional.{
  Schedule, max_num_samples, sleep_us, schedule, Action, Machine, run_next_traditional,
  time_of_sample, optime_us_of, scheduled_run,
}

-- The time between the starts of two samples.
abbrev pub period : ℕ → ℕ → ℕ
period optime_us sampling_time_us = sleep_us optime_us sampling_time_us + sampling_time_us

-- The longer of the time of a sample and the time that 16384 samples leave for one.
pub period_lem :
    (optime_us sampling_time_us : ℕ)
    → period optime_us sampling_time_us ≡ (
        if ltb (optime_us / max_num_samples) sampling_time_us
        then sampling_time_us
        else optime_us / max_num_samples)
unfolding sleep_us
period_lem optime_us sampling_time_us = ground arith

-- The samples with the sleeps behind them, and the rest.
abbrev pub scheduled_time : Schedule → ℕ → ℕ
scheduled_time s p = s.num_samples * p + s.optime_left_us

module _ (t time : ℕ) (ht : t < 2 ^ 32) (htime : time < 2 ^ 32) (positive : 0 < period t time) where
  bounded : period t time % 2 ^ 32 ≡ period t time
  bounded = ground (arith, period_lem t time)

  abbrev scheduled : Schedule
  scheduled = record {
    sampling_sleep_us = sleep_us t time;
    num_samples =
        if ltb max_num_samples (t / period t time) then max_num_samples else t / period t time;
    optime_left_us = t % period t time;
  }

  schedule-scheduled : schedule t time ≡ some scheduled
  unfolding schedule
  schedule-scheduled = rw (bounded, nonzero) refl
    where
      nonzero : (period t time == 0) ≡ false
      nonzero = ground arith

  -- A sampling time and an operation time of 32 bits, not both so short that the period is zero,
  -- give a schedule of at most 16384 samples. If the operation time has room for no more than 16384
  -- periods, samples and rest take exactly the operation time; if it has room for more, which
  -- happens, they take less, since the rest is computed before the number of samples is cut.
  pub schedule_lem :
      (s : Schedule) × (schedule t time ≡ some s)
      × (s.num_samples ≤ max_num_samples)
      × (((t / period t time ≤ max_num_samples) × (scheduled_time s (period t time) ≡ t))
          ⊎ ((max_num_samples < t / period t time) × (scheduled_time s (period t time) < t)))
  schedule_lem = (scheduled, schedule-scheduled, few, time_taken)
    where
      few : scheduled.num_samples ≤ max_num_samples
      few = ground arith

      whole : t / period t time * period t time + t % period t time ≡ t
      whole =
          omega (arith, div-add-mod t (period t time), mul_comm (period t time) (t / period t time))

      time_taken :
          ((t / period t time ≤ max_num_samples) × (scheduled_time scheduled (period t time) ≡ t))
          ⊎ ((max_num_samples < t / period t time) × (scheduled_time scheduled (period t time) < t))
      time_taken = elim (Bool-cases (ltb max_num_samples (t / period t time))) [
        | inr fits ↦ inl (ground arith, rw fits whole)
        | inl cut ↦ inr (
          ltb→lt max_num_samples (t / period t time) cut,
          rw cut (
              omega (
                arith,
                whole,
                mul-lt-mul_of_pos_right (ltb→lt max_num_samples (t / period t time) cut) positive,
              )),
        )
      ]

period_zero :
    (t time : ℕ)
    → t < 2 ^ 32
    → time < 2 ^ 32
    → (period t time % 2 ^ 32 == 0) ≡ (time == 0 && ltb t 16384)
period_zero t time ht htime = ground (arith, period_lem t time)

is_some-schedule :
    (t time : ℕ)
    → t < 2 ^ 32
    → time < 2 ^ 32
    → is_some (schedule t time) ≡ not (time == 0 && ltb t 16384)
unfolding schedule
is_some-schedule t time ht htime =
    either (period t time % 2 ^ 32 == 0) _ ∙ ap not (period_zero t time ht htime)
  where
    either : (b : Bool) (s : Schedule) → is_some (if b then none else some s) ≡ not b
    either true s = refl
    either false s = refl

-- A traditional run is executed to its end unless the time of a sample, which counts as 0 where no
-- channel is asked for, is 0 and the operation time in whole microseconds, taken modulo 2^32, is less
-- than 16384: in that case its execution divides by zero.
pub run_next_traditional-undefined :
    (run : Run) (m : Machine)
    → m.sampling_time_us < 2 ^ 32
    → is_some (run_next_traditional run m)
      ≡ not (time_of_sample run m == 0 && ltb (optime_us_of run) 16384)
unfolding run_next_traditional
run_next_traditional-undefined run m h =
    kept (schedule (optime_us_of run) (time_of_sample run m))
    ∙ is_some-schedule (optime_us_of run) (time_of_sample run m) (omega arith) (ground arith)
  where
    kept :
        (o : Option Schedule)
        → is_some (elim o as (λ x. Option (List Action)) [
          | none ↦ none
          | some s ↦ some (scheduled_run run m s)
        ])
          ≡ is_some o
    kept none = refl
    kept (some s) = refl
