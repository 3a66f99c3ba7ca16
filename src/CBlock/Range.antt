-- ===== src/CBlock/Range.antt =====
-- The factors of a C-block stay within the limits that `set_factor` checks.
use Prim.Native.String.{String}
use text.Mathlib.Text.{◌==◌ as str_eq}
use lucidac_firmware.Common.{
  ℕ, ◌≡◌, Bool, false, ◌||◌, List, arith, All, All-set, Bool-cases, Option-cases, inl, inr, leb,
  length, ◌==◌, ◌%◌, ◌^◌,
}
use lucidac_firmware.Float.{FloatApi}
use lucidac_firmware.Json.{JsonApi, is_some, for_each_inv}
use lucidac_firmware.CBlock.{CBlock, min_factor, max_factor, set_factor}
use lucidac_firmware.CBlock.Config.{
  config_element, config_named_element, config_elements_from_json, config_entry,
  config_self_from_json, factor_member,
}

module _ {F V : Type 0} (fl : FloatApi F) (js : JsonApi F V) where
  abbrev pub InRange : F → Type 0
  InRange x = (fl.lt (max_factor fl) x ≡ false) × (fl.lt x (min_factor fl) ≡ false)

  abbrev pub IsInRange : CBlock F → Type 0
  IsInRange c = All InRange c.factors

  pub set_factor-IsInRange :
      (c : CBlock F) (idx : ℕ) (factor : F) → IsInRange c → IsInRange (set_factor fl c idx factor).0
  unfolding set_factor
  set_factor-IsInRange c idx factor h = elim (Bool-cases (leb 32 idx)) [
    | inl out ↦ rw out h
    | inr ok_ ↦
        rw ok_ (elim (Bool-cases (fl.lt (max_factor fl) factor || fl.lt factor (min_factor fl))) [
          | inl bad ↦ rw bad h
          | inr good ↦ rw good (All-set InRange c.factors idx factor (within _ _ good) h)
        ])
  ]
    where
      within : (a b : Bool) → (a || b) ≡ false → (a ≡ false) × (b ≡ false)
      within a b e = (ground arith, ground arith)

  element-IsInRange :
      (v : V) (s : CBlock F × ℕ) → IsInRange s.0 → IsInRange ((config_element fl js v s).0).0
  unfolding config_element
  element-IsInRange v (c, idx) h = elim (Bool-cases (is_some (js.float? v))) [
    | inl real ↦ rw real (set_factor-IsInRange c idx (js.to_float v) h)
    | inr other ↦ rw other h
  ]

  named-IsInRange :
      (kv : String × V) (c : CBlock F) → IsInRange c → IsInRange (config_named_element fl js kv c).0
  unfolding config_named_element
  named-IsInRange (key, value) c h = elim (Option-cases (js.stoul key)) [
    | inl e ↦ rw (e, config_named_element) h
    | inr (idx, e) ↦
        rw (e, config_named_element)
          (elim (Option-cases (factor_member fl js value)) [
            | inr (factor, f) ↦ rw f (set_factor-IsInRange c (idx % 2 ^ 8) (js.to_float factor) h)
            | inl f ↦ rw f (elim (Bool-cases (is_some (js.float? value))) [
              | inl real ↦ rw real (set_factor-IsInRange c (idx % 2 ^ 8) (js.to_float value) h)
              | inr other ↦ rw other h
            ])
          ])
  ]

  elements-IsInRange :
      (c : CBlock F) (cfg : V) → IsInRange c → IsInRange (config_elements_from_json fl js c cfg).0
  unfolding config_elements_from_json
  elements-IsInRange c cfg h = elim (Option-cases (js.array? cfg)) [
    | inr (factors, e) ↦
        rw (e, config_elements_from_json)
          (elim (Bool-cases (length factors == 32)) [
            | inl full ↦ rw full (
                for_each_inv (λ s. IsInRange s.0) (config_element fl js) element-IsInRange factors
                  (c, 0) h)
            | inr short ↦ rw short h
          ])
    | inl e ↦
        rw (e, config_elements_from_json)
          (elim (Option-cases (js.object? cfg)) [
            | inr (entries, f) ↦
                rw f
                  (for_each_inv IsInRange (config_named_element fl js) named-IsInRange entries c h)
            | inl f ↦ rw f h
          ])
  ]

  entry-IsInRange :
      (kv : String × V) (c : CBlock F) → IsInRange c → IsInRange (config_entry fl js kv c).0
  unfolding config_entry
  entry-IsInRange (key, value) c h = elim (Bool-cases (str_eq key "elements")) [
    | inl e ↦ rw e (elements-IsInRange c value h)
    | inr e ↦ rw e h
  ]

  -- Whatever configuration a C-block reads, and whether reading ends with success, with an error or
  -- with an exception, factors that were all within the limits of `set_factor` still are.
  pub config_self_from_json-IsInRange :
      (c : CBlock F) (cfg : List (String × V))
      → IsInRange c
      → IsInRange (config_self_from_json fl js c cfg).0
  unfolding config_self_from_json
  config_self_from_json-IsInRange c cfg h =
      for_each_inv IsInRange (config_entry fl js) entry-IsInRange cfg c h
