-- ===== src/CBlock/Config.antt =====
-- Reading and writing the configuration of a C-block: cblock.cpp. The debugging print of the object
-- is left out.
use Prim.Native.String.{String}
use text.Mathlib.Text.{◌==◌ as str_eq}
use lucidac_firmware.Common.{
  ℕ, ◌+◌, ◌^◌, ◌%◌, ◌==◌, not, if◌then◌else◌, List, [], ◌∷◌, map, Option, none, some, length,
  index_range,
}
use lucidac_firmware.Float.{FloatApi}
use lucidac_firmware.Status.{message, formatted}
use lucidac_firmware.Json.{JsonApi, Outcome, returned, thrown, ok, is_some, for_each}
use lucidac_firmware.CBlock.{CBlock, num_coeff, set_factor, get_factor}

-- `containsKey(k)` and `[k]` on an object.
abbrev pub member {ℓ} : {V : Type ℓ} → String → List (String × V) → Option V
member k [] = none
member k ((j, v) ∷ es) = if str_eq j k then some v else member k es

module _ {F V : Type 0} (fl : FloatApi F) (js : JsonApi F V) where
  open js use {float?, to_float, array?, object?, stoul, of_float, of_array}

  -- One round of the loop over an array: the block with the next index, a `uint8_t`.
  unfoldable pub config_element : V → CBlock F × ℕ → (CBlock F × ℕ) × Outcome
  config_element factor (c, idx) =
      if not (is_some (float? factor))
      then ((c, idx), returned formatted)
      else let (c', done) = set_factor fl c idx (to_float factor) in
        ((c', (idx + 1) % 2 ^ 8), if done then ok else returned formatted)

  abbrev pub config_factor : CBlock F → ℕ → F → CBlock F × Outcome
  config_factor c idx factor =
      let (c', done) = set_factor fl c (idx % 2 ^ 8) factor in
      (c', if done then ok else returned message)

  -- The value's member "factor", if the value is an object that has one.
  abbrev pub factor_member : V → Option V
  factor_member value = elim (object? value) [ none ↦ none | some es ↦ member "factor" es ]

  unfoldable pub config_named_element : String × V → CBlock F → CBlock F × Outcome
  config_named_element (key, value) c = elim (stoul key) [
    | none ↦ (c, thrown)
    | some idx ↦ elim (factor_member value) [
      | some factor ↦ config_factor c idx (to_float factor)
      | none ↦
          if is_some (float? value)
          then config_factor c idx (to_float value)
          else (c, returned message)
    ]
  ]

  unfoldable pub config_elements_from_json : CBlock F → V → CBlock F × Outcome
  unfolding config_element config_named_element
  config_elements_from_json c cfg = elim (array? cfg) [
    | some factors ↦
        if not (length factors == num_coeff)
        then (c, returned formatted)
        else (let ((c', idx), o) = for_each config_element factors (c, 0) in (c', o))
    | none ↦ elim (object? cfg) [
      | some entries ↦ for_each config_named_element entries c
      | none ↦ (c, returned message)
    ]
  ]

  unfoldable pub config_entry : String × V → CBlock F → CBlock F × Outcome
  unfolding config_elements_from_json
  config_entry (key, value) c =
      if str_eq key "elements" then config_elements_from_json c value else (c, returned message)

  unfoldable pub config_self_from_json : CBlock F → List (String × V) → CBlock F × Outcome
  unfolding config_entry
  config_self_from_json c cfg = for_each config_entry cfg c

  unfoldable pub config_self_to_json : CBlock F → List (String × V)
  unfolding get_factor
  config_self_to_json c =
      ("elements", of_array (map (λ idx. of_float (get_factor fl c idx)) (index_range num_coeff)))
      ∷ []
