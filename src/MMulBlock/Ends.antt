-- ===== src/MMulBlock/Ends.antt =====
-- How the search for an offset ends, for any way to write it and to observe what was written.
use lucidac_firmware.Common.{
  ℕ, zero, suc, ◌+◌, ◌<◌, ◌≤◌, ◌≡◌, refl, Bool, true, false, ◌&&◌, List, ◌∷◌, Option, some,
  Bool-cases, inl, inr, arith, sym, subst, ◌∙◌,
}
use native.Mathlib.Decide.{ℕ_discrete}
use mathlib.Core.Bool.{false≢true}
use lucidac_firmware.Float.{FloatApi, zero_float}
use lucidac_firmware.Bus.Functions.{Bus, Call, wait}
use lucidac_firmware.Chips.Dac60508
use lucidac_firmware.MMulBlock.{offset_voltage}
use lucidac_firmware.MMulBlock.Search.{
  first_offset, next_offset, both, raise, search, seven_milliseconds,
}

left_true : (a b : Bool) → (a && b) ≡ true → a ≡ true
left_true true b e = refl
left_true false b e = e

right_true : (a b : Bool) → (a && b) ≡ true → b ≡ true
right_true true b e = e
right_true false b e = absurd (false≢true e)

module _ {F : Type 0} (fl : FloatApi F) where
  -- The word that a DAC gets for an offset.
  abbrev pub offset_word : F → ℕ
  offset_word offset = Dac60508.float_to_raw fl (offset_voltage fl offset)

  -- The offset after a number of steps.
  abbrev pub offset_after : ℕ → F
  offset_after zero = first_offset fl
  offset_after (suc k) = next_offset fl (offset_after k)

  -- The offset that is written last where a search takes a number of steps.
  abbrev pub written_after : ℕ → F
  written_after zero = first_offset fl
  written_after (suc k) = offset_after k

  -- A search that ended: after k steps, and all its writes were accepted if `done`.
  abbrev pub Settled : ℕ → (List Call → Option ℕ) → (F → ℕ) → Option (F × Bool) × List Call → Type 0
  Settled n observe raw r =
      (k : ℕ) × (done : Bool) × (k ≤ n)
      × (r.0 ≡ some (offset_after k, done))
      × (done ≡ true → observe (r.1) ≡ some (raw (written_after k)))

  module _ (write : F → Bus Bool) (sample : List Call → F) where
    abbrev raised : ℕ → F → List Call → Option (F × Bool) × List Call
    raised = raise fl write sample

    raise_stops :
        (fuel : ℕ) (x : F) (log : List Call)
        → fl.lt (sample log) (zero_float fl) ≡ false
        → raised (suc fuel) x log ≡ (some (x, true), log)
    unfolding raise
    raise_stops fuel x log e = rw e refl

    raise_gives_up :
        (fuel : ℕ) (x : F) (log : List Call)
        → fl.lt (sample log) (zero_float fl) ≡ true
        → (write x log).0 ≡ false
        → raised (suc fuel) x log ≡ (some (x, false), (write x log).1)
    unfolding raise
    raise_gives_up fuel x log e w = rw (e, w) refl

    raise_goes_on :
        (fuel : ℕ) (x : F) (log : List Call)
        → fl.lt (sample log) (zero_float fl) ≡ true
        → (write x log).0 ≡ true
        → raised (suc fuel) x log
          ≡ raised fuel (next_offset fl x) (wait seven_milliseconds ∷ (write x log).1)
    unfolding raise
    raise_goes_on fuel x log e w = rw (e, w) refl

    module _ (observe : List Call → Option ℕ) (raw : F → ℕ) (n : ℕ)
        (refused_at : (log : List Call) → (write (offset_after n) log).0 ≡ false)
        (sent : (x : F) (log : List Call)
          → (write x log).0 ≡ true
          → observe (write x log).1 ≡ some (raw x))
        (waiting : (log : List Call) → observe (wait seven_milliseconds ∷ log) ≡ observe log) where
      abbrev Ends : Bool → Option (F × Bool) × List Call → Type 0
      Ends first r = Settled n observe raw (both fl write sample first (r.0), r.1)

      below : (j : ℕ) (log : List Call) → j ≤ n → (write (offset_after j) log).0 ≡ true → j < n
      below j log l accepted = elim (ℕ_discrete j n) [
        | yes e ↦ absurd (
            false≢true (
              sym (refused_at log) ∙ subst (λ k. (write (offset_after k) log).0 ≡ true) e accepted))
        | no ne ↦ omega arith
      ]

      raise-Ends :
          (fuel j : ℕ) (first : Bool) (log : List Call)
          → j + fuel ≡ suc n
          → j ≤ n
          → (first ≡ true → observe log ≡ some (raw (written_after j)))
          → Ends first (raised fuel (offset_after j) log)
      raise-Ends zero j first log e l h = absurd (omega arith)
      raise-Ends (suc fuel) j first log e l h =
          elim (Bool-cases (fl.lt (sample log) (zero_float fl))) [
            | inr nonneg ↦
                rw (raise_stops fuel (offset_after j) log nonneg)
                  (j, first && true, l, refl, λ d. h (left_true first true d))
            | inl neg ↦ elim (Bool-cases (write (offset_after j) log).0) [
              | inr refused ↦
                  rw (raise_gives_up fuel (offset_after j) log neg refused) (
                    j,
                    first && false,
                    l,
                    refl,
                    λ d. absurd (false≢true (right_true first false d)),
                  )
              | inl accepted ↦ rw (raise_goes_on fuel (offset_after j) log neg accepted) (
                  raise-Ends fuel (suc j) first _ (omega arith) (below j log l accepted)
                    (λ d. waiting _ ∙ sent (offset_after j) log accepted))
            ]
          ]

      pub search-Settled :
          (log : List Call) → Settled n observe raw (search fl write sample (suc n) log)
      unfolding search
      search-Settled log =
          raise-Ends (suc n) 0 (write (first_offset fl) log).0 (write (first_offset fl) log).1
            (omega arith) (omega arith) (sent (first_offset fl) log)
