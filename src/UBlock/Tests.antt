-- ===== src/UBlock/Tests.antt =====
-- Runs of a U-block, and the theorems about it at these.
use lucidac_firmware.Common.{
  ◌/◌, ◌%◌, ◌^◌, ◌≡◌, refl, arith, true, false, List, [], ◌∷◌, map, ℤ, pos, length, get_or,
  replicate, ◌++◌,
}
use lucidac_firmware.Json.{ok, passed}
use lucidac_firmware.Samples.{
  object, entry, done, number, Value, thousandths, plain, plain-JsonLaws,
}
use lucidac_firmware.UBlock.{
  init, connect, pos_ref, disconnected, connect_b, io_sanity_check, is_output_connected_unchecked,
}
use lucidac_firmware.UBlock.Signals.{signal, input, alternative, signal-connect}
use lucidac_firmware.UBlock.Invariant.{IsValid}
use lucidac_firmware.UBlock.Reachable.{Method, configures, connects, perform_all, reachable-IsValid}
use lucidac_firmware.UBlock.Hardware.{matrix_bytes}
use lucidac_firmware.UBlock.Bytes.{value, field}
use lucidac_firmware.UBlock.Matrix.{matrix_bytes_lem}
use lucidac_firmware.UBlock.Config.{
  config_outputs_from_json, config_self_from_json, config_self_to_json, output_to_json,
}
use lucidac_firmware.UBlock.RoundTrip.{config_outputs-to_json, config_self-to_json_refused}
use lucidac_firmware.UBlock.Constants.{with_constant, then_input, reference, connect-drops_constant}

abbrev joined : List (Method Value)
joined = connects 3 5 false ∷ connects 15 0 false ∷ []

-- The configuration is refused at its second entry.
abbrev configured : List (Method Value)
configured =
    connects 15 0 false
    ∷ configures (("outputs", object (entry "4" (number 9) done)) ∷ ("gain", number 1) ∷ [])
    ∷ []

reachable-IsValid_example : IsValid (perform_all thousandths plain init configured)
reachable-IsValid_example = reachable-IsValid thousandths plain configured

init-IsValid : IsValid init
init-IsValid = reachable-IsValid thousandths plain []

connects_3_5 : (connect init 3 5 false).1 ≡ true
unfolding connect connect_b init io_sanity_check is_output_connected_unchecked
connects_3_5 = refl

signal-connect_example : signal (connect init 3 5 false).0 5 ≡ input 3
signal-connect_example = signal-connect init 3 5 false init-IsValid connects_3_5

abbrev entries : List ℤ
entries = pos 5 ∷ (replicate 30 disconnected ++ (pos 15 ∷ []))

matrix_bytes_lem_example :
    (length (matrix_bytes entries) ≡ 20)
    × (value (matrix_bytes entries) / 32 ^ 31 % 32 ≡ field (get_or entries 31 disconnected))
matrix_bytes_lem_example = matrix_bytes_lem entries 31 refl

-- The last output comes first: its enable bit and input 15, five bits of ones.
matrix_bytes_first : get_or (matrix_bytes entries) 0 0 ≡ 0b1111_1000
unfolding matrix_bytes
matrix_bytes_first = refl

config_outputs-to_json_example :
    config_outputs_from_json thousandths plain init (
      plain.of_array (
        map
          (output_to_json thousandths plain)
          (perform_all thousandths plain init joined).output_input_map))
    ≡ (
      record init {
        output_input_map = (perform_all thousandths plain init joined).output_input_map;
      },
      ok,
    )
unfolding init
config_outputs-to_json_example =
    config_outputs-to_json thousandths plain plain-JsonLaws
      (perform_all thousandths plain init joined) init (reachable-IsValid thousandths plain joined)
      refl refl

config_self-to_json_refused_example :
    passed
      (config_self_from_json thousandths plain init (config_self_to_json thousandths plain init)).1
    ≡ false
unfolding init
config_self-to_json_refused_example =
    config_self-to_json_refused thousandths plain plain-JsonLaws init init refl refl refl

connect-drops_constant_example :
    ((with_constant (reference true) 4).1 ≡ true)
    × (signal (with_constant (reference true) 4).0 20 ≡ alternative pos_ref)
    × ((then_input (reference true) 4 3).1 ≡ true)
    × (signal (then_input (reference true) 4 3).0 20 ≡ input 14)
connect-drops_constant_example = connect-drops_constant true 4 3 (omega arith) (omega arith)
