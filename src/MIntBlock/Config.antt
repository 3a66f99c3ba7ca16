-- ===== src/MIntBlock/Config.antt =====
-- Reading and writing the configuration of an integrator block: mblock_int.cpp. The debugging print
-- is left out.
use Prim.Native.String.{String}
use text.Mathlib.Text.{◌==◌ as str_eq}
use lucidac_firmware.Common.{
  ℕ, ◌+◌, ◌==◌, leb, Bool, not, if◌then◌else◌, List, [], ◌∷◌, map, Option, none, some, length,
  index_range, get_or,
}
use lucidac_firmware.Float.{FloatApi, zero_float}
use lucidac_firmware.Status.{message, formatted}
use lucidac_firmware.Json.{JsonApi, Outcome, returned, thrown, ok, for_each, and_then}
use lucidac_firmware.CBlock.Config.{member}
use lucidac_firmware.MIntBlock.{MIntBlock, num_integrators, set_ic_value, set_time_factor}

module _ {F V : Type 0} (fl : FloatApi F) (js : JsonApi F V) where
  open js use {uint?, float?, array?, object?, stoul, of_uint, of_float, of_array, of_object}

  -- A value's member, if the value is an object that has one of that name.
  abbrev pub member_of : String → V → Option V
  member_of name value = elim (object? value) [ none ↦ none | some es ↦ member name es ]

  -- A setter's refusal is an error with the offending value in its text.
  abbrev pub accepted : MIntBlock F × Bool → MIntBlock F × Outcome
  accepted (b, done) = (b, if done then ok else returned formatted)

  unfoldable pub config_ic : MIntBlock F → ℕ → V → MIntBlock F × Outcome
  config_ic b i value = elim (float? value) [
    | none ↦ (b, returned formatted)
    | some ic ↦ accepted (set_ic_value fl b i ic)
  ]

  unfoldable pub config_k : MIntBlock F → ℕ → V → MIntBlock F × Outcome
  config_k b i value = elim (uint? value) [
    | none ↦ (b, returned formatted)
    | some k ↦ accepted (set_time_factor b i k)
  ]

  -- A key that may be missing.
  abbrev pub config_optional :
      Option V → (V → MIntBlock F × Outcome) → MIntBlock F → MIntBlock F × Outcome
  config_optional none set_it b = (b, ok)
  config_optional (some value) set_it b = set_it value

  abbrev pub config_optional_k : V → ℕ → MIntBlock F → MIntBlock F × Outcome
  config_optional_k element i b = config_optional (member_of "k" element) (config_k b i) b

  -- One round of the loop over an array: the block with the next index.
  unfoldable pub config_element : V → MIntBlock F × ℕ → (MIntBlock F × ℕ) × Outcome
  unfolding config_ic config_k
  config_element element (b, i) = elim (member_of "ic" element) [
    | none ↦ ((b, i), returned formatted)
    | some ic ↦
        let (b', o) = and_then (config_ic b i ic) (config_optional_k element i) in ((b', i + 1), o)
  ]

  abbrev pub config_members : List (String × V) → ℕ → MIntBlock F → MIntBlock F × Outcome
  config_members es i b =
      and_then (config_optional (member "ic" es) (config_ic b i) b)
        (λ b'. config_optional (member "k" es) (config_k b' i) b')

  unfoldable pub config_named_element : String × V → MIntBlock F → MIntBlock F × Outcome
  unfolding config_ic config_k
  config_named_element (key, value) b = elim (object? value) [
    | none ↦ (b, returned message)
    | some es ↦ elim (stoul key) [
      | none ↦ (b, thrown)
      | some i ↦ if leb num_integrators i then (b, returned formatted) else config_members es i b
    ]
  ]

  unfoldable pub config_elements_from_json : MIntBlock F → V → MIntBlock F × Outcome
  unfolding config_element config_named_element
  config_elements_from_json b cfg = elim (array? cfg) [
    | some elements ↦
        if not (length elements == num_integrators)
        then (b, returned formatted)
        else (let ((b', i), o) = for_each config_element elements (b, 0) in (b', o))
    | none ↦ elim (object? cfg) [
      | some entries ↦ for_each config_named_element entries b
      | none ↦ (b, returned message)
    ]
  ]

  unfoldable pub config_entry : String × V → MIntBlock F → MIntBlock F × Outcome
  unfolding config_elements_from_json
  config_entry (key, value) b =
      if str_eq key "elements" then config_elements_from_json b value else (b, returned message)

  unfoldable pub config_self_from_json : MIntBlock F → List (String × V) → MIntBlock F × Outcome
  unfolding config_entry
  config_self_from_json b cfg = for_each config_entry cfg b

  unfoldable pub element_to_json : MIntBlock F → ℕ → V
  element_to_json b i = of_object (
      ("ic", of_float (get_or b.ic_values i (zero_float fl)))
      ∷ ("k", of_uint (get_or b.time_factors i 0))
      ∷ [])

  unfoldable pub config_self_to_json : MIntBlock F → List (String × V)
  unfolding element_to_json
  config_self_to_json b =
      ("elements", of_array (map (element_to_json b) (index_range num_integrators))) ∷ []
