-- ===== src/MIntBlock/Valid.antt =====
-- Valid states of an integrator block, and its setters and resets.
use lucidac_firmware.Common.{
  ℕ, ◌≡◌, refl, ◌==◌, leb, length, length-set, Bool, true, false, ◌||◌, arith, All, All-set,
  All-replicate, Bool-cases, inl, inr, ◌⊎◌, negsuc,
}
use lucidac_firmware.Float.{FloatApi, zero_float, one_float}
use lucidac_firmware.Entity.{has, circuit_reset}
use lucidac_firmware.MIntBlock.{
  MIntBlock, init, set_ic_value, set_time_factor, reset, reset_ic_values, reset_time_factors,
}

abbrev pub IsTimeFactor : ℕ → Type 0
IsTimeFactor k = (k ≡ 100) ⊎ (k ≡ 10000)

module _ {F : Type 0} (fl : FloatApi F) where
  abbrev pub IsIc : F → Type 0
  IsIc x = (fl.lt (one_float fl) x ≡ false) × (fl.lt x (fl.lit (negsuc 0) 0) ≡ false)

  pub record IsValid (b : MIntBlock F) : Type 0 where
    pub ics : All IsIc b.ic_values
    pub factors : All IsTimeFactor b.time_factors
    pub ics_length : length b.ic_values ≡ 8
    pub factors_length : length b.time_factors ≡ 8

  pub set_ic_value-IsValid :
      (b : MIntBlock F) (i : ℕ) (x : F) → IsValid b → IsValid (set_ic_value fl b i x).0
  unfolding set_ic_value
  set_ic_value-IsValid b i x h = elim (Bool-cases (leb 8 i)) [
    | inl out ↦ rw out h
    | inr within ↦
        rw within (elim (Bool-cases (fl.lt (one_float fl) x || fl.lt x (fl.lit (negsuc 0) 0))) [
          | inl bad ↦ rw bad h
          | inr good ↦ rw good record {
            ics = All-set IsIc b.ic_values i x (neither _ _ good) h.ics;
            factors = h.factors;
            ics_length = omega (arith, length-set b.ic_values i x, h.ics_length);
            factors_length = h.factors_length;
          }
        ])
  ]
    where
      neither : (p q : Bool) → (p || q) ≡ false → (p ≡ false) × (q ≡ false)
      neither p q e = (ground arith, ground arith)

  pub set_time_factor-IsValid :
      (b : MIntBlock F) (i k : ℕ) → IsValid b → IsValid (set_time_factor b i k).0
  unfolding set_time_factor
  set_time_factor-IsValid b i k h = elim (Bool-cases (k == 100 || k == 10000)) [
    | inr bad ↦ rw bad h
    | inl good ↦ rw good (elim (Bool-cases (leb 8 i)) [
      | inl out ↦ rw out h
      | inr within ↦ rw within record {
        ics = h.ics;
        factors = All-set IsTimeFactor b.time_factors i k (one_of good) h.factors;
        ics_length = h.ics_length;
        factors_length = omega (arith, length-set b.time_factors i k, h.factors_length);
      }
    ])
  ]
    where
      one_of : (k == 100 || k == 10000) ≡ true → IsTimeFactor k
      one_of e = elim (Bool-cases (k == 100)) [
        | inl a ↦ inl (ground arith)
        | inr a ↦ inr (ground arith)
      ]

  -- The float zero lies between -1 and 1.
  module _ (zero_ic : IsIc (zero_float fl)) where
    pub init-IsValid : IsValid (init fl)
    unfolding init
    init-IsValid = record {
      ics = All-replicate IsIc 8 (zero_float fl) zero_ic;
      factors = All-replicate IsTimeFactor 8 10000 (inr refl);
      ics_length = refl;
      factors_length = refl;
    }

    pub reset-IsValid : (b : MIntBlock F) (action : ℕ) → IsValid b → IsValid (reset fl b action).0
    unfolding reset reset_ic_values reset_time_factors
    reset-IsValid b action h = elim (Bool-cases (has action circuit_reset)) [
      | inl e ↦ rw e record {
        ics = All-replicate IsIc 8 (zero_float fl) zero_ic;
        factors = All-replicate IsTimeFactor 8 10000 (inr refl);
        ics_length = refl;
        factors_length = refl;
      }
      | inr e ↦ rw e h
    ]
