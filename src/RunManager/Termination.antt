-- ===== src/RunManager/Termination.antt =====
-- The loop that streams the data of a run ends, and how.
use lucidac_firmware.Common.{
  Bool, List, ℕ, zero, suc, ◌+◌, ◌<◌, ◌≤◌, ◌≡◌, ◌⊎◌, refl, ap, ◌∙◌, true, false, replicate, some,
  arith, Bool-cases, inl, inr,
}
use lucidac_firmware.RunManager.Traditional.{Action, Machine, stream}
use lucidac_firmware.RunManager.Flexio.{stream_loop}

module _ (m : Machine) where
  -- The rounds from i on before round i + k neither end the run nor fail.
  abbrev pub GoesOn : ℕ → ℕ → Type 0
  GoesOn i k = (j : ℕ) → j < k → (m.is_done (i + j) ≡ false) × (m.streamed (i + j) ≡ true)

  -- How a loop that starts at round i is left in round i + k: by the end of the run, without an
  -- error and after k calls of `stream`, or by the next call, which fails.
  abbrev pub IsLeft : ℕ → ℕ → ℕ → Type 0
  IsLeft fuel i k =
      ((m.is_done (i + k) ≡ true) × (stream_loop m fuel i ≡ some (false, replicate k stream)))
      ⊎ ((m.is_done (i + k) ≡ false)
          × (m.streamed (i + k) ≡ false)
          × (stream_loop m fuel i ≡ some (true, replicate (suc k) stream)))

  abbrev Ends : ℕ → ℕ → ℕ → Type 0
  Ends fuel i d = (k : ℕ) × (k ≤ d) × GoesOn i k × IsLeft fuel i k

  IsLeft-now : (fuel i : ℕ) → m.is_done i ≡ true → IsLeft (suc fuel) i 0
  unfolding stream_loop
  IsLeft-now fuel i h = inl (ap m.is_done (omega arith) ∙ h, rw h refl)

  IsLeft-failing : (fuel i : ℕ) → m.is_done i ≡ false → m.streamed i ≡ false → IsLeft (suc fuel) i 0
  unfolding stream_loop
  IsLeft-failing fuel i h f =
      inr (ap m.is_done (omega arith) ∙ h, ap m.streamed (omega arith) ∙ f, rw (h, f) refl)

  IsLeft-later :
      (fuel i k : ℕ)
      → m.is_done i ≡ false
      → m.streamed i ≡ true
      → IsLeft fuel (i + 1) k
      → IsLeft (suc fuel) i (suc k)
  unfolding stream_loop
  IsLeft-later fuel i k h g (inl (d, e)) = inl (ap m.is_done (omega arith) ∙ d, rw (h, g, e) refl)
  IsLeft-later fuel i k h g (inr (d, f, e)) =
      inr (ap m.is_done (omega arith) ∙ d, ap m.streamed (omega arith) ∙ f, rw (h, g, e) refl)

  GoesOn-later :
      (i k : ℕ) → m.is_done i ≡ false → m.streamed i ≡ true → GoesOn (i + 1) k → GoesOn i (suc k)
  GoesOn-later i k h g later zero lt =
      (ap m.is_done (omega arith) ∙ h, ap m.streamed (omega arith) ∙ g)
  GoesOn-later i k h g later (suc j) lt =
      let (d, s) = later j (omega arith) in
      (ap m.is_done (omega arith) ∙ d, ap m.streamed (omega arith) ∙ s)

  loop-Ends : (d i fuel : ℕ) → m.is_done (i + d) ≡ true → d < fuel → Ends fuel i d
  loop-Ends d i zero e h = absurd (omega arith)
  loop-Ends zero i (suc fuel) e h = (
    0,
    omega arith,
    (λ j lt. absurd (omega arith)),
    IsLeft-now fuel i (ap m.is_done (omega arith) ∙ e),
  )
  loop-Ends (suc d) i (suc fuel) e h = elim (Bool-cases (m.is_done i)) [
    | inl now ↦ (0, omega arith, (λ j lt. absurd (omega arith)), IsLeft-now fuel i now)
    | inr on ↦ elim (Bool-cases (m.streamed i)) [
      | inr fails ↦ (0, omega arith, (λ j lt. absurd (omega arith)), IsLeft-failing fuel i on fails)
      | inl goes ↦
          (let (k, le, before, left) =
              loop-Ends d (i + 1) fuel (ap m.is_done (omega arith) ∙ e) (omega arith) in
            (
              suc k,
              omega arith,
              GoesOn-later i k on goes before,
              IsLeft-later fuel i k on goes left,
            ))
    ]
  ]

  -- If FlexIO reports in round d that the run is done, then on any fuel above d the loop that streams
  -- the data is left in the first round k, at most d, in which the run is done or `stream` fails: in
  -- the first case without an error and after exactly k successful calls of `stream`, in the second
  -- with an error, after the k successful calls and the one that failed.
  pub stream_loop-terminates :
      (d fuel : ℕ)
      → m.is_done d ≡ true
      → d < fuel
      → (k : ℕ) × (k ≤ d) × GoesOn 0 k × IsLeft fuel 0 k
  stream_loop-terminates d fuel e h = loop-Ends d 0 fuel (ap m.is_done (omega arith) ∙ e) h

  pub result_of :
      (d fuel : ℕ)
      → m.is_done d ≡ true
      → d < fuel
      → (r : Bool × List Action) × (stream_loop m fuel 0 ≡ some r)
  result_of d fuel e h =
      let (k, le, before, left) = stream_loop-terminates d fuel e h in
      elim left [
        | inl (done_, g) ↦ ((false, replicate k stream), g)
        | inr (on, fails, g) ↦ ((true, replicate (suc k) stream), g)
      ]
