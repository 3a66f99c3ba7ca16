-- ===== src/IBlock/Tests.antt =====
-- Runs of an I-block, and the theorems about it at these.
use lucidac_firmware.Common.{ℕ, ◌≡◌, refl, arith, true, false, List, [], ◌∷◌}
use lucidac_firmware.Samples.{Value, number, plain}
use lucidac_firmware.IBlock.{init, connect, is_connected, is_anything_connected}
use lucidac_firmware.IBlock.Config.{config_self_from_json, config_entry, config_outputs_from_json}
use lucidac_firmware.IBlock.Connections.{closed}
use lucidac_firmware.Bus.Functions.{Env}
use lucidac_firmware.IBlock.Hardware.{v_1_2, write_outputs}
use lucidac_firmware.IBlock.Switches.{Matrices, matrices}
use lucidac_firmware.IBlock.Written.{switch, write_outputs_lem}
use lucidac_firmware.IBlock.Reachable.{
  Method, connects, configures, perform_all, reachable_unsplit, single,
  is_anything_connected-misses,
}

abbrev joined : List (Method Value)
joined =
    connects 3 5 false
    ∷ connects 4 5 false
    ∷ connects 3 6 false
    ∷ configures (("outputs", number 7) ∷ [])
    ∷ []

-- The third call splits an input, and is refused.
joined_rows :
    (closed (perform_all plain init joined) 3 5 ≡ true)
    × (closed (perform_all plain init joined) 3 6 ≡ false)
unfolding init connect is_connected config_self_from_json config_entry config_outputs_from_json
joined_rows = (refl, refl)

reachable_unsplit_example : ◌≡◌ {A = ℕ} 5 5
reachable_unsplit_example =
    reachable_unsplit plain joined 3 5 5 (omega arith) (omega arith) (omega arith) joined_rows.0
      joined_rows.0

connects_3_5 : (connect init 3 5 false false).1 ≡ true
unfolding init connect is_connected
connects_3_5 = refl

is_anything_connected-misses_example :
    (is_connected (single 2 7) 10 7 ≡ true) × (is_anything_connected (single 2 7) ≡ false)
is_anything_connected-misses_example = is_anything_connected-misses 2 6 (omega arith) (omega arith)

abbrev quiet : Env
quiet = record { pedantic = false; miso = λ log. 0; miso_bytes = λ log. [] }

-- Matrices that have every switch closed before.
abbrev stuck : Matrices
stuck = record { shifted = 0; closed_at = λ chip x y. true }

write_outputs_lem_example :
    ((write_outputs quiet (v_1_2 8) (perform_all plain init joined).outputs []).0 ≡ true)
    × (switch
          (matrices 8 stuck
            (write_outputs quiet (v_1_2 8) (perform_all plain init joined).outputs []).1)
          4
          5
        ≡ closed (perform_all plain init joined) 4 5)
write_outputs_lem_example =
    write_outputs_lem quiet 8 (perform_all plain init joined) stuck [] 4 5 refl (omega arith)
      (omega arith)
