-- ===== src/UBlock/Config.antt =====
-- Reading and writing the configuration of a U-block: `config_self_from_json`, its two helpers and
-- `config_self_to_json` of lib/platform-lucidac/src/block/ublock.cpp.
use Prim.Native.String.{String}
use text.Mathlib.Text.{◌==◌ as str_eq}
use lucidac_firmware.Common.{
  ℕ, ◌+◌, ◌^◌, ◌%◌, ◌==◌, false, not, ◌||◌, if◌then◌else◌, List, [], ◌∷◌, map, none, some, ℤ, pos,
  negsuc, length,
}
use lucidac_firmware.Float.{FloatApi, zero_float, one_float}
use lucidac_firmware.Status.{message, formatted}
use lucidac_firmware.Json.{
  JsonApi, Outcome, returned, thrown, ok, is_some, or_else, for_each, and_then,
}
use lucidac_firmware.UBlock.{
  UBlock, TransmissionMode, analog_input, pos_ref, neg_ref, one, one_tenth, num_of_outputs, connect,
  disconnect, reset_connections, change_b_side_transmission_mode, change_reference_magnitude,
  reset_reference_magnitude,
}

module _ {F V : Type 0} (fl : FloatApi F) (js : JsonApi F V) where
  open js use {
    is_null, uint8?, bool?, to_float, array?, object?, stoul, null, of_uint8, of_bool, of_float,
    of_array,
  }

  -- One round of the loop over an array: the block with the next output's index, a `uint8_t`.
  unfoldable pub config_output : V → UBlock × ℕ → (UBlock × ℕ) × Outcome
  config_output input (u, idx) =
      if is_null input
      then ((u, (idx + 1) % 2 ^ 8), ok)
      else if not (is_some (uint8? input))
      then ((u, idx), returned message)
      else let (u', done) = connect u (or_else (uint8? input) 0) idx false in
        ((u', (idx + 1) % 2 ^ 8), if done then ok else returned message)

  unfoldable pub config_outputs_array : UBlock → List V → UBlock × Outcome
  unfolding config_output
  config_outputs_array u outputs =
      if not (length outputs == num_of_outputs)
      then (u, returned formatted)
      else let ((u', idx), o) = for_each config_output outputs (reset_connections u, 0) in (u', o)

  -- The first loop over an object clears the outputs that it names. A key is narrowed to `uint8_t`.
  unfoldable pub clear_output : String × V → UBlock → UBlock × Outcome
  clear_output (key, value) u =
      if not (is_some (uint8? value) || is_null value)
      then (u, returned formatted)
      else elim (stoul key) [
        | none ↦ (u, thrown)
        | some output ↦ ((disconnect u (output % 2 ^ 8)).0, ok)
      ]

  unfoldable pub set_output : String × V → UBlock → UBlock × Outcome
  set_output (key, value) u = elim (stoul key) [
    | none ↦ (u, thrown)
    | some output ↦
        if is_null value
        then (u, ok)
        else (let (u', done) = connect u (or_else (uint8? value) 0) (output % 2 ^ 8) false in
            (u', if done then ok else returned formatted))
  ]

  unfoldable pub config_outputs_object : UBlock → List (String × V) → UBlock × Outcome
  unfolding clear_output set_output
  config_outputs_object u entries =
      and_then (for_each clear_output entries u) (λ u'. for_each set_output entries u')

  unfoldable pub config_outputs_from_json : UBlock → V → UBlock × Outcome
  unfolding config_outputs_array config_outputs_object
  config_outputs_from_json u cfg = elim (array? cfg) [
    | some outputs ↦ config_outputs_array u outputs
    | none ↦ elim (object? cfg) [
      | some entries ↦ config_outputs_object u entries
      | none ↦ (u, returned message)
    ]
  ]

  abbrev pub constant_of : V → F
  constant_of cfg = if is_null cfg then zero_float fl else elim (bool? cfg) [
    | some b ↦ if b then one_float fl else zero_float fl
    | none ↦ to_float cfg
  ]

  -- The branch for 0 builds a success and drops it, so the function goes on.
  unfoldable pub config_constants_from_json : UBlock → V → UBlock × Outcome
  config_constants_from_json u cfg =
      let constant = constant_of cfg in
      let u₁ =
        if fl.eq constant (zero_float fl)
        then reset_reference_magnitude (change_b_side_transmission_mode u analog_input)
        else u in
      let u₂ =
        if fl.lt (zero_float fl) constant then change_b_side_transmission_mode u₁ pos_ref else u₁ in
      let u₃ =
        if fl.lt constant (zero_float fl) then change_b_side_transmission_mode u₂ neg_ref else u₂ in
      if fl.eq (fl.fabs constant) (fl.lit (pos 1) 1)
      then (change_reference_magnitude u₃ one_tenth, ok)
      else if fl.eq (fl.fabs constant) (one_float fl)
      then (change_reference_magnitude u₃ one, ok)
      else (u₃, returned message)

  unfoldable pub config_entry : String × V → UBlock → UBlock × Outcome
  unfolding config_outputs_from_json config_constants_from_json
  config_entry (key, value) u =
      if str_eq key "outputs"
      then config_outputs_from_json u value
      else if str_eq key "constant"
      then config_constants_from_json u value
      else (u, returned message)

  unfoldable pub config_self_from_json : UBlock → List (String × V) → UBlock × Outcome
  unfolding config_entry
  config_self_from_json u cfg = for_each config_entry cfg u

  abbrev pub output_to_json : ℤ → V
  output_to_json (pos n) = of_uint8 n
  output_to_json (negsuc n) = null

  abbrev pub reference_value : TransmissionMode → F
  reference_value analog_input = fl.lit (negsuc 122) 0
  reference_value pos_ref = fl.lit (pos 1) 0
  reference_value neg_ref = fl.lit (negsuc 0) 0
  reference_value TransmissionMode.ground = zero_float fl

  abbrev pub constant_to_json : UBlock → V
  constant_to_json u = elim u.b_side_mode [
    | analog_input ↦ of_bool false
    | _ ↦ of_float (elim u.ref_magnitude [
      | one ↦ reference_value u.b_side_mode
      | one_tenth ↦ fl.mul (reference_value u.b_side_mode) (fl.lit (pos 1) 1)
    ])
  ]

  -- The entries that are added to the object.
  unfoldable pub config_self_to_json : UBlock → List (String × V)
  config_self_to_json u =
      ("outputs", of_array (map output_to_json u.output_input_map))
      ∷ ("constant", constant_to_json u)
      ∷ []
