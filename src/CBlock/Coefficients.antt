-- ===== src/CBlock/Coefficients.antt =====
-- Which function of the bus each coefficient has.
use lucidac_firmware.Common.{
  ℕ, ◌<◌, ◌≡◌, refl, ◌==◌, ==_iff, Bool, true, not, ◌&&◌, ◌||◌, List, get_or, arith, ◌+◌, ◌*◌, ◌%◌,
  ◌≤◌, zero, suc, sym, ap, ◌∙◌, [], ◌∷◌, if◌then◌else◌, count_from, Bool-cases, inl, inr, false,
  ◌≢◌, le→leb_false, ==_refl, index_range, all_below, all_below_sound, ltb, leb,
}
use lucidac_firmware.Bus.Addressing.{replace_function_idx_lem}
use lucidac_firmware.Bus.Functions.{Bus, pure, Call, Payload, transfer, trigger, wait, word16}
use native.Mathlib.Decide.{ℕ_discrete}
use lucidac_firmware.Status.{success, failure}
use lucidac_firmware.Float.{FloatApi}
use lucidac_firmware.Chips.Ad5452
use lucidac_firmware.CBlock.{
  CBlock, CBlockHal, v_1_0, v_1_1, f_coeffs_cs_1_0, f_coeffs_cs_1_1, coeff_address, write_coeff,
  effective_factor, write_factors_from, write_factors_to_hardware, write_to_hardware,
}

-- The table of a version: below 64, not the metadata function 0, and no two alike.
abbrev separate : List ℕ → ℕ → ℕ → Bool
separate cs i j =
    (ltb (get_or cs i 0) 64 && leb 1 (get_or cs i 0))
    && (i == j || not (get_or cs i 0 == get_or cs j 0))

abbrev IsSeparate : List ℕ → Type 0
IsSeparate cs = all_below 32 (λ i. all_below 32 (separate cs i)) ≡ true

separate_1_0 : IsSeparate f_coeffs_cs_1_0
separate_1_0 = refl

separate_1_1 : IsSeparate f_coeffs_cs_1_1
separate_1_1 = refl

distinct :
    (i j x y b : ℕ)
    → ((ltb x 64 && leb 1 x) && (i == j || not (x == y))) ≡ true
    → ((ltb y 64 && leb 1 y) && (j == i || not (y == x))) ≡ true
    → x % 64 * 256 + b % 256 ≡ y % 64 * 256 + b % 256
    → i ≡ j
distinct i j x y b p q e = let f : x % 64 ≡ y % 64 = omega arith in ground arith

module _ (cs : List ℕ) (s : IsSeparate cs) (block : ℕ) where
  entry_separate : (i j : ℕ) → i < 32 → j < 32 → separate cs i j ≡ true
  entry_separate i j hi hj =
      all_below_sound 32 (separate cs i) j
        (all_below_sound 32 (λ k. all_below 32 (separate cs k)) i s hi) hj

  coeff_address-injective :
      (i j : ℕ) → i < 32 → j < 32 → coeff_address cs block i ≡ coeff_address cs block j → i ≡ j
  coeff_address-injective i j hi hj e =
      distinct i j (get_or cs i 0) (get_or cs j 0) block (entry_separate i j hi hj)
        (entry_separate j i hj hi)
        (sym (replace_function_idx_lem block (get_or cs i 0))
          ∙ (e ∙ replace_function_idx_lem block (get_or cs j 0)))

-- What was sent to a function, given the calls; both newest first.
abbrev pub sent_to : ℕ → List Call → List Payload
sent_to a [] = []
sent_to a (transfer b d p ∷ log) = if a == b then p ∷ sent_to a log else sent_to a log
sent_to a (trigger b ∷ log) = sent_to a log
sent_to a (wait n ∷ log) = sent_to a log

-- The two hardware layers, and the table of each.
abbrev pub layer : Bool → ℕ → CBlockHal
layer true block = v_1_1 block
layer false block = v_1_0 block

abbrev pub table : Bool → List ℕ
table true = f_coeffs_cs_1_1
table false = f_coeffs_cs_1_0

table-IsSeparate : (newer : Bool) → IsSeparate (table newer)
table-IsSeparate true = separate_1_1
table-IsSeparate false = separate_1_0

module _ {F : Type 0} (fl : FloatApi F) (c : CBlock F) (cs : List ℕ) (s : IsSeparate cs)
    (block : ℕ) where
  -- `write_factors_from` of a layer with a table.
  abbrev written : List ℕ → List Call → Bool × List Call
  written [] log = (true, log)
  written (i ∷ is) log =
      let (done, log') = write_coeff fl cs block i (effective_factor fl c i) log in
      if done then written is log' else (false, log')

  write_coeff_lem :
      (k : ℕ) (log : List Call)
      → k < 32
      → write_coeff fl cs block k (effective_factor fl c k) log ≡ (
        true,
        transfer
              (coeff_address cs block k)
              15
              (word16 (Ad5452.float_to_raw fl (effective_factor fl c k)))
            ∷ log,
      )
  unfolding Ad5452.set_scale Ad5452.set_scale_raw
  write_coeff_lem k log h = rw (le→leb_false 32 k h)

  other_address :
      (i j : ℕ)
      → i < 32
      → j < 32
      → i ≢ j
      → (coeff_address cs block i == coeff_address cs block j) ≡ false
  other_address i j hi hj ne =
      elim (Bool-cases (coeff_address cs block i == coeff_address cs block j)) [
        | inr no_ ↦ no_
        | inl same ↦
            absurd (ne (coeff_address-injective cs s block i j hi hj ((==_iff _ _).0 same)))
      ]

  -- The calls after one coefficient more.
  abbrev after : ℕ → List Call → List Call
  after k log =
      transfer (coeff_address cs block k) 15
        (word16 (Ad5452.float_to_raw fl (effective_factor fl c k)))
      ∷ log

  passed_over :
      (i k : ℕ) (log : List Call)
      → (coeff_address cs block i == coeff_address cs block k) ≡ false
      → sent_to (coeff_address cs block i) (after k log) ≡ sent_to (coeff_address cs block i) log
  passed_over i k log other = rw other refl

  older :
      (n k i : ℕ) (log : List Call)
      → i < k
      → k + n ≤ 32
      → sent_to (coeff_address cs block i) (written (count_from k n) log).1
        ≡ sent_to (coeff_address cs block i) log
  older zero k i log h l = refl
  older (suc n) k i log h l = rw (
    write_coeff_lem k log (omega arith),
    older n (suc k) i
        (transfer (coeff_address cs block k) 15
            (word16 (Ad5452.float_to_raw fl (effective_factor fl c k)))
          ∷ log)
        (omega arith) (omega arith),
    other_address i k (omega arith) (omega arith) (omega arith),
  )

  newest :
      (n k i : ℕ) (log : List Call)
      → k ≤ i
      → i < k + n
      → k + n ≤ 32
      → sent_to (coeff_address cs block i) (written (count_from k n) log).1
        ≡ word16 (Ad5452.float_to_raw fl (effective_factor fl c i))
          ∷ sent_to (coeff_address cs block i) log
  newest zero k i log lo hi l = absurd (omega arith)
  newest (suc n) k i log lo hi l = rw (write_coeff_lem k log (omega arith)) (elim (ℕ_discrete k i) [
    | yes e ↦ rw (← e) (
        rw (
          older n (suc k) k
              (transfer (coeff_address cs block k) 15
                  (word16 (Ad5452.float_to_raw fl (effective_factor fl c k)))
                ∷ log)
              (omega arith) (omega arith),
          ==_refl (coeff_address cs block k),
        ))
    | no ne ↦
        newest n (suc k) i (after k log) (omega arith) (omega arith) (omega arith)
        ∙ ap (λ ps. word16 (Ad5452.float_to_raw fl (effective_factor fl c i)) ∷ ps)
            (passed_over i k log (other_address i k (omega arith) (omega arith) (λ e. ne (sym e))))
  ])

  all_written : (n k : ℕ) (log : List Call) → k + n ≤ 32 → (written (count_from k n) log).0 ≡ true
  all_written zero k log l = refl
  all_written (suc n) k log l =
      rw (write_coeff_lem k log (omega arith)) (all_written n (suc k) _ (omega arith))

same_step :
    (done : Bool) (f : Bus Bool) (after : Bool × List Call) (log : List Call)
    → f log ≡ after
    → (if done then f else pure false) log ≡ (if done then after else (false, log))
same_step true f after log h = h
same_step false f after log h = refl

module _ {F : Type 0} (fl : FloatApi F) (c : CBlock F) where
  write_factors_from_lem :
      (newer : Bool) (block : ℕ) (is : List ℕ) (log : List Call)
      → write_factors_from fl (layer newer block) c is log
        ≡ written fl c (table newer) (table-IsSeparate newer) block is log
  unfolding write_factors_from
  write_factors_from_lem newer block [] log = refl
  write_factors_from_lem true block (i ∷ is) log =
      let r = write_coeff fl f_coeffs_cs_1_1 block i (effective_factor fl c i) log in
      same_step r.0 (write_factors_from fl (layer true block) c is) _ r.1
        (write_factors_from_lem true block is r.1)
  write_factors_from_lem false block (i ∷ is) log =
      let r = write_coeff fl f_coeffs_cs_1_0 block i (effective_factor fl c i) log in
      same_step r.0 (write_factors_from fl (layer false block) c is) _ r.1
        (write_factors_from_lem false block is r.1)

  -- With either hardware layer, writing a C-block succeeds, and of the 32 converters each is sent
  -- exactly one word more than before: the raw value of its own coefficient's factor times its gain
  -- correction.
  pub write_to_hardware_lem :
      (newer : Bool) (block : ℕ) (log : List Call) (i : ℕ)
      → i < 32
      → ((write_to_hardware fl (layer newer block) c log).0 ≡ success)
        × (sent_to
              (coeff_address (table newer) block i)
              (write_to_hardware fl (layer newer block) c log).1
            ≡ word16 (Ad5452.float_to_raw fl (effective_factor fl c i))
              ∷ sent_to (coeff_address (table newer) block i) log)
  unfolding write_to_hardware write_factors_to_hardware
  write_to_hardware_lem newer block log i h =
      rw (write_factors_from_lem newer block (index_range 32) log) (
        ap (λ t. if not t then failure else success)
            (all_written fl c (table newer) (table-IsSeparate newer) block 32 0 log (omega arith)),
        newest fl c (table newer) (table-IsSeparate newer) block 32 0 i log (omega arith)
            (omega arith) (omega arith),
      )
