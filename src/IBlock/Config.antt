-- ===== src/IBlock/Config.antt =====
-- Reading and writing the configuration of an I-block: `config_self_from_json`, its helpers,
-- `config_self_to_json` and the factory of lib/platform-lucidac/src/block/iblock.cpp.
use Prim.Native.String.{String}
use text.Mathlib.Text.{◌==◌ as str_eq}
use lucidac_firmware.Common.{
  ℕ, ◌+◌, ◌^◌, ◌%◌, ◌==◌, ltb, false, not, ◌||◌, if◌then◌else◌, List, [], ◌∷◌, map, Option, none,
  some, length, get_or, index_range,
}
use lucidac_firmware.Status.{message, formatted}
use lucidac_firmware.Entity.{
  EntityClassifier, EntityClass, class_code, classifier_set, version_lt, v, default_,
}
use lucidac_firmware.IsNumber.{is_number}
use lucidac_firmware.Json.{JsonApi, Outcome, returned, thrown, ok, is_some, or_else, for_each}
use lucidac_firmware.IBlock.{
  IBlock, num_inputs, num_outputs, row, is_connected_unchecked, connect, disconnect, reset_outputs,
  set_upscaling,
}

-- The inputs that `_is_connected` to an output, in order.
abbrev pub inputs_of : IBlock → ℕ → List ℕ → List ℕ
inputs_of b output [] = []
inputs_of b output (i ∷ is) =
    if is_connected_unchecked b i output then i ∷ inputs_of b output is else inputs_of b output is

module _ {F V : Type 0} (js : JsonApi F V) where
  open js use {is_null, uint8?, bool?, array?, object?, stoul, null, of_uint8, of_bool, of_array}

  -- One round of the loop over the inputs of an output.
  unfoldable pub connect_element : ℕ → V → IBlock → IBlock × Outcome
  connect_element output input b =
      if not (is_some (uint8? input))
      then (b, returned message)
      else let (b', done) = connect b (or_else (uint8? input) 0) output false false in
        (b', if done then ok else returned formatted)

  unfoldable pub connect_from_json : IBlock → V → ℕ → IBlock × Outcome
  unfolding connect_element
  connect_from_json b input_spec output =
      if is_null input_spec then (b, ok) else elim (array? input_spec) [
        | some inputs ↦ for_each (connect_element output) inputs b
        | none ↦ elim (uint8? input_spec) [
          | some input ↦
              let (b', done) = connect b input output false false in
              (b', if done then ok else returned formatted)
          | none ↦ (b, returned message)
        ]
      ]

  -- One round over an object. The key is narrowed to a `uint8_t` by the two calls.
  unfoldable pub config_output_named : String × V → IBlock → IBlock × Outcome
  unfolding is_number connect_from_json
  config_output_named (key, value) b =
      if not (is_number key) then (b, returned formatted) else elim (stoul key) [
        | none ↦ (b, thrown)
        | some output ↦
            let (b', done) = disconnect b (output % 2 ^ 8) in
            if done then connect_from_json b' value (output % 2 ^ 8) else (b', returned formatted)
      ]

  -- One round over an array: the block with the next output's index, a `uint8_t`.
  unfoldable pub config_output : V → IBlock × ℕ → (IBlock × ℕ) × Outcome
  unfolding connect_from_json
  config_output input_spec (b, idx) =
      let (b', o) = connect_from_json b input_spec idx in ((b', (idx + 1) % 2 ^ 8), o)

  unfoldable pub config_outputs_array : IBlock → List V → IBlock × Outcome
  unfolding config_output reset_outputs
  config_outputs_array b outputs =
      if not (length outputs == num_outputs)
      then (b, returned formatted)
      else let ((b', idx), o) = for_each config_output outputs (reset_outputs b, 0) in (b', o)

  unfoldable pub config_outputs_from_json : IBlock → V → IBlock × Outcome
  unfolding config_output_named config_outputs_array
  config_outputs_from_json b cfg = elim (object? cfg) [
    | some entries ↦ for_each config_output_named entries b
    | none ↦ elim (array? cfg) [
      | some outputs ↦ config_outputs_array b outputs
      | none ↦ (b, returned message)
    ]
  ]

  -- The loop over an object returns in its first round; an empty object falls through to the error.
  unfoldable pub config_upscaling_named : IBlock → List (String × V) → IBlock × Outcome
  unfolding set_upscaling
  config_upscaling_named b [] = (b, returned message)
  config_upscaling_named b ((key, value) ∷ es) = elim (bool? value) [
    | none ↦ (b, returned message)
    | some upscale ↦ elim (stoul key) [
      | none ↦ (b, thrown)
      | some input ↦
          if ltb num_inputs input
          then (b, returned message)
          else ((set_upscaling b (input % 2 ^ 8) upscale).0, ok)
    ]
  ]

  unfoldable pub config_scale : V → IBlock × ℕ → (IBlock × ℕ) × Outcome
  unfolding set_upscaling
  config_scale upscale (b, input) = elim (bool? upscale) [
    | none ↦ ((b, input), returned message)
    | some x ↦ (((set_upscaling b input x).0, (input + 1) % 2 ^ 8), ok)
  ]

  unfoldable pub config_upscaling_array : IBlock → List V → IBlock × Outcome
  unfolding config_scale
  config_upscaling_array b scales =
      if not (length scales == num_inputs)
      then (b, returned message)
      else let ((b', input), o) = for_each config_scale scales (b, 0) in (b', o)

  unfoldable pub config_upscaling_from_json : IBlock → V → IBlock × Outcome
  unfolding config_upscaling_named config_upscaling_array
  config_upscaling_from_json b cfg = elim (object? cfg) [
    | some entries ↦ config_upscaling_named b entries
    | none ↦ elim (array? cfg) [
      | some scales ↦ config_upscaling_array b scales
      | none ↦ (b, returned message)
    ]
  ]

  unfoldable pub config_entry : String × V → IBlock → IBlock × Outcome
  unfolding config_outputs_from_json config_upscaling_from_json
  config_entry (key, value) b =
      if str_eq key "outputs"
      then config_outputs_from_json b value
      else if str_eq key "upscaling"
      then config_upscaling_from_json b value
      else (b, returned message)

  unfoldable pub config_self_from_json : IBlock → List (String × V) → IBlock × Outcome
  unfolding config_entry
  config_self_from_json b cfg = for_each config_entry cfg b

  abbrev pub output_to_json : IBlock → ℕ → V
  output_to_json b output =
      if row b output == 0
      then null
      else of_array (map of_uint8 (inputs_of b output (index_range num_inputs)))

  -- The entries that are added to the object.
  unfoldable pub config_self_to_json : IBlock → List (String × V)
  config_self_to_json b =
      ("outputs", of_array (map (output_to_json b) (index_range num_outputs)))
      ∷ (
        "upscaling",
        of_array (
            map (λ input. of_bool (get_or b.scaling_factors input false)) (index_range num_inputs)),
      )
      ∷ []

-- Whether the factory makes a block, and its address.
unfoldable pub from_entity_classifier : EntityClassifier → ℕ → Option ℕ
unfolding classifier_set version_lt
from_entity_classifier c block_address =
    if not (classifier_set c) || not (c.class_ == class_code EntityClass.i_block)
    then none
    else if not (c.variant == default_)
    then none
    else if version_lt c.version (v 1 2)
    then none
    else if version_lt c.version (v 1 3)
    then some block_address
    else none
