-- ===== src/UBlock/Reachable.antt =====
-- The states that a U-block reaches by calls and configurations.
use Prim.Native.String.{String}
use text.Mathlib.Text.{◌==◌ as str_eq}
use lucidac_firmware.Common.{
  ℕ, ◌%◌, ◌^◌, ◌≡◌, refl, ◌==◌, inl, inr, Bool, true, false, ◌||◌, if◌then◌else◌, List, [], ◌∷◌,
  length, ℤ, pos, Bool-cases, Option-cases,
}
use lucidac_firmware.Float.{FloatApi, zero_float, one_float}
use lucidac_firmware.Json.{JsonApi, Outcome, is_some, or_else, for_each, passed, for_each_inv}
use lucidac_firmware.UBlock.{
  analog_input, one, UBlock, TransmissionMode, ReferenceMagnitude, init, reset, connect,
  connect_alternative, disconnect, disconnect_input, change_a_side_transmission_mode,
  change_b_side_transmission_mode, change_all_transmission_modes, change_reference_magnitude,
  reset_reference_magnitude, reset_connections,
}
use lucidac_firmware.UBlock.Config.{
  constant_of, config_output, config_outputs_array, clear_output, set_output, config_outputs_object,
  config_outputs_from_json, config_constants_from_json, config_entry, config_self_from_json,
}
use lucidac_firmware.UBlock.Invariant.{
  IsValid, connect-IsValid, connect_alternative-IsValid, disconnect_input-IsValid,
  disconnect-IsValid, reset-IsValid, same_map-IsValid, cleared-IsValid,
}

-- The methods by which other code changes a U-block; the last reads a configuration.
pub data Method (V : Type 0) : Type 0 where
  connects : ℕ → ℕ → Bool → Method V
  connects_alternative : TransmissionMode → ℕ → Bool → Bool → Method V
  disconnects_input : ℕ → ℕ → Method V
  disconnects : ℕ → Method V
  resets : ℕ → Method V
  resets_connections : Method V
  changes_a_side changes_b_side : TransmissionMode → Method V
  changes_modes : TransmissionMode × TransmissionMode → Method V
  changes_magnitude : ReferenceMagnitude → Method V
  resets_magnitude : Method V
  configures : List (String × V) → Method V

reset_connections-IsValid : (u : UBlock) → IsValid (reset_connections u)
unfolding reset_connections
reset_connections-IsValid u =
    same_map-IsValid (reset_connections init) (reset_connections u) refl cleared-IsValid

kept_if :
    (b : Bool) (x y : UBlock) (map : List ℤ)
    → x.output_input_map ≡ map
    → y.output_input_map ≡ map
    → (if b then x else y).output_input_map ≡ map
kept_if true x y map h k = h
kept_if false x y map h k = k

kept_result :
    (b : Bool) (x y : UBlock × Outcome) (map : List ℤ)
    → (x.0).output_input_map ≡ map
    → (y.0).output_input_map ≡ map
    → ((if b then x else y).0).output_input_map ≡ map
kept_result true x y map h k = h
kept_result false x y map h k = k

module _ {F V : Type 0} (fl : FloatApi F) (js : JsonApi F V) where
  output-IsValid :
      (input : V) (s : UBlock × ℕ) → IsValid s.0 → IsValid (config_output fl js input s).0.0
  unfolding config_output
  output-IsValid input (u, idx) w = elim (Bool-cases (js.is_null input)) [
    | inl e ↦ rw e w
    | inr e ↦ rw e (elim (Bool-cases (is_some (js.uint8? input))) [
      | inr f ↦ rw f w
      | inl f ↦ rw f (connect-IsValid u (or_else (js.uint8? input) 0) idx false w)
    ])
  ]

  array-IsValid :
      (u : UBlock) (outputs : List V) → IsValid u → IsValid (config_outputs_array fl js u outputs).0
  unfolding config_outputs_array
  array-IsValid u outputs w = elim (Bool-cases (length outputs == 32)) [
    | inr e ↦ rw e w
    | inl e ↦ rw e (
        for_each_inv (λ s. IsValid s.0) (config_output fl js) output-IsValid outputs
          (reset_connections u, 0) (reset_connections-IsValid u))
  ]

  clear-IsValid : (kv : String × V) (u : UBlock) → IsValid u → IsValid (clear_output fl js kv u).0
  unfolding clear_output
  clear-IsValid (key, value) u w =
      elim (Bool-cases (is_some (js.uint8? value) || js.is_null value)) [
        | inr e ↦ rw e w
        | inl e ↦ rw e (elim (Option-cases (js.stoul key)) [
          | inl f ↦ rw f w
          | inr (output, f) ↦ rw f (disconnect-IsValid u (output % 2 ^ 8) w)
        ])
      ]

  set-IsValid : (kv : String × V) (u : UBlock) → IsValid u → IsValid (set_output fl js kv u).0
  unfolding set_output
  set-IsValid (key, value) u w = elim (Option-cases (js.stoul key)) [
    | inl f ↦ rw (f, set_output) w
    | inr (output, f) ↦
        rw (f, set_output)
          (elim (Bool-cases (js.is_null value)) [
            | inl e ↦ rw e w
            | inr e ↦
                rw e (connect-IsValid u (or_else (js.uint8? value) 0) (output % 2 ^ 8) false w)
          ])
  ]

  object-IsValid :
      (u : UBlock) (entries : List (String × V))
      → IsValid u
      → IsValid (config_outputs_object fl js u entries).0
  unfolding config_outputs_object
  object-IsValid u entries w =
      let cleared : IsValid (for_each (clear_output fl js) entries u).0 =
        for_each_inv IsValid (clear_output fl js) clear-IsValid entries u w in
      elim (Bool-cases (passed (for_each (clear_output fl js) entries u).1)) [
        | inr e ↦ rw e cleared
        | inl e ↦ rw e (for_each_inv IsValid (set_output fl js) set-IsValid entries _ cleared)
      ]

  outputs-IsValid :
      (u : UBlock) (cfg : V) → IsValid u → IsValid (config_outputs_from_json fl js u cfg).0
  unfolding config_outputs_from_json
  outputs-IsValid u cfg w = elim (Option-cases (js.array? cfg)) [
    | inr (outputs, e) ↦ rw (e, config_outputs_from_json) (array-IsValid u outputs w)
    | inl e ↦
        rw (e, config_outputs_from_json)
          (elim (Option-cases (js.object? cfg)) [
            | inr (entries, f) ↦ rw f (object-IsValid u entries w)
            | inl f ↦ rw f w
          ])
  ]

  -- A constant changes modes and magnitude alone.
  constants-keeps_map :
      (u : UBlock) (cfg : V)
      → (config_constants_from_json fl js u cfg).0.output_input_map ≡ u.output_input_map
  unfolding config_constants_from_json change_b_side_transmission_mode change_reference_magnitude
      reset_reference_magnitude
  constants-keeps_map u cfg =
      let x : F = constant_of fl js cfg in
      let first =
        kept_if (fl.eq x (zero_float fl))
          (record u { b_side_mode = analog_input; ref_magnitude = one }) u u.output_input_map refl
          refl in
      let second = kept_if (fl.lt (zero_float fl) x) _ _ u.output_input_map first first in
      let third = kept_if (fl.lt x (zero_float fl)) _ _ u.output_input_map second second in
      kept_result (fl.eq (fl.fabs x) (fl.lit (pos 1) 1)) _ _ u.output_input_map third
        (kept_result (fl.eq (fl.fabs x) (one_float fl)) _ _ u.output_input_map third third)

  constants-IsValid :
      (u : UBlock) (cfg : V) → IsValid u → IsValid (config_constants_from_json fl js u cfg).0
  constants-IsValid u cfg w = same_map-IsValid u _ (constants-keeps_map u cfg) w

  entry-IsValid : (kv : String × V) (u : UBlock) → IsValid u → IsValid (config_entry fl js kv u).0
  unfolding config_entry
  entry-IsValid (key, value) u w = elim (Bool-cases (str_eq key "outputs")) [
    | inl e ↦ rw e (outputs-IsValid u value w)
    | inr e ↦ rw e (elim (Bool-cases (str_eq key "constant")) [
      | inl f ↦ rw f (constants-IsValid u value w)
      | inr f ↦ rw f w
    ])
  ]

  config-IsValid :
      (u : UBlock) (cfg : List (String × V))
      → IsValid u
      → IsValid (config_self_from_json fl js u cfg).0
  unfolding config_self_from_json
  config-IsValid u cfg w = for_each_inv IsValid (config_entry fl js) entry-IsValid cfg u w

  abbrev pub perform : UBlock → Method V → UBlock
  perform u (connects input output force) = (connect u input output force).0
  perform u (connects_alternative mode output force a) =
      (connect_alternative u mode output force a).0
  perform u (disconnects_input input output) = (disconnect_input u input output).0
  perform u (disconnects output) = (disconnect u output).0
  perform u (resets action) = reset u action
  perform u resets_connections = reset_connections u
  perform u (changes_a_side mode) = change_a_side_transmission_mode u mode
  perform u (changes_b_side mode) = change_b_side_transmission_mode u mode
  perform u (changes_modes modes) = change_all_transmission_modes u modes
  perform u (changes_magnitude ref) = change_reference_magnitude u ref
  perform u resets_magnitude = reset_reference_magnitude u
  perform u (configures cfg) = (config_self_from_json fl js u cfg).0

  abbrev pub perform_all : UBlock → List (Method V) → UBlock
  perform_all u [] = u
  perform_all u (m ∷ ms) = perform_all (perform u m) ms

  perform-IsValid : (u : UBlock) (m : Method V) → IsValid u → IsValid (perform u m)
  unfolding change_all_transmission_modes change_reference_magnitude change_a_side_transmission_mode
      change_b_side_transmission_mode reset_reference_magnitude
  perform-IsValid u (connects i o f) w = connect-IsValid u i o f w
  perform-IsValid u (connects_alternative m o f a) w = connect_alternative-IsValid u m o f a w
  perform-IsValid u (disconnects_input i o) w = disconnect_input-IsValid u i o w
  perform-IsValid u (disconnects o) w = disconnect-IsValid u o w
  perform-IsValid u (resets action) w = reset-IsValid u action w
  perform-IsValid u resets_connections w = reset_connections-IsValid u
  perform-IsValid u (changes_a_side mode) w = same_map-IsValid u _ refl w
  perform-IsValid u (changes_b_side mode) w = same_map-IsValid u _ refl w
  perform-IsValid u (changes_modes modes) w = same_map-IsValid u _ refl w
  perform-IsValid u (changes_magnitude ref) w = same_map-IsValid u _ refl w
  perform-IsValid u resets_magnitude w = same_map-IsValid u _ refl w
  perform-IsValid u (configures cfg) w = config-IsValid u cfg w

  perform_all-IsValid : (u : UBlock) (ms : List (Method V)) → IsValid u → IsValid (perform_all u ms)
  perform_all-IsValid u [] w = w
  perform_all-IsValid u (m ∷ ms) w = perform_all-IsValid (perform u m) ms (perform-IsValid u m w)

  -- After any sequence of calls on a new U-block of the methods that connect, disconnect, reset,
  -- reset the connections, change or reset modes and magnitude, or read a configuration, with any
  -- arguments, the map has 32 entries, each -1 or one of the 16 inputs. Configurations may be
  -- malformed, and may end with an error or an exception.
  pub reachable-IsValid : (ms : List (Method V)) → IsValid (perform_all init ms)
  reachable-IsValid ms =
      perform_all-IsValid init ms
        (same_map-IsValid (reset_connections init) init initial cleared-IsValid)
    where
      initial : init.output_input_map ≡ (reset_connections init).output_input_map
      initial = unfold init reset_connections in refl
