-- ===== src/PluginLoader/Tests.antt =====
-- Plugins of a few bytes, and the theorems about the loader at them.
use Prim.Native.String.{String}
use lucidac_firmware.Common.{
  ℕ, ◌+◌, ◌<◌, ◌%◌, ◌^◌, ◌≡◌, refl, ◌==◌, true, List, [], ◌∷◌, Option, none, some, length,
  replicate, arith,
}
use lucidac_firmware.Samples.{Value, number, text, plain}
use lucidac_firmware.PluginLoader.{
  SinglePluginLoader, global_plugin_loader, wrote, code_, empty_optional_used, LoaderEnv,
  load_and_execute, sha256_test_short, new_plugin, unload_message, function_of, called, none_,
}
use lucidac_firmware.PluginLoader.Bounds.{
  empty_loader, decoded, is_let_through, load_and_execute-overflows,
  load_and_execute-refuses_own_hash,
}
use lucidac_firmware.PluginLoader.Life.{Loaded, exit_calls, unload-load_and_execute}
use lucidac_firmware.PluginLoader.Valid.{
  IsValid, Reachable, start_up, load_message, reachable_loader-IsValid,
}

abbrev address? : Value → Option ℕ
address? (number n) = some n
address? _ = none

abbrev address : Value → ℕ
address (number n) = n
address _ = 0

-- The decoder fills its target.
abbrev sample : LoaderEnv Value
sample = record {
  int_addr? = address?;
  to_addr = address;
  is_addr = λ v a. address v == a;
  firmware_hash = "c0ffee";
  decode = λ s n. replicate n 7;
}

abbrev message : String → List (String × Value)
message hash =
    ("entry", number 0)
    ∷ ("load_addr", number 64)
    ∷ ("firmware_sha256", text hash)
    ∷ ("payload", text "AAAABBBB")
    ∷ []

let_through : is_let_through plain sample 64 (message "f00d") ≡ true
unfolding sha256_test_short
let_through = refl

load_and_execute-overflows_example :
    (load_and_execute plain sample (empty_loader 64 5) (message "f00d") ≡ (
      (empty_optional_used, empty_loader 64 5),
      wrote 64 (decoded plain sample (message "f00d")) ∷ [],
    ))
    × (64 + 5 < 64 + length (decoded plain sample (message "f00d")))
load_and_execute-overflows_example =
    load_and_execute-overflows plain sample 64 5 (message "f00d") let_through refl (omega arith)

load_and_execute-refuses_own_hash_example :
    ((load_and_execute plain sample (empty_loader 64 5) (message "c0ffee")).0.1 ≡ empty_loader 64 5)
    × ((load_and_execute plain sample (empty_loader 64 5) (message "c0ffee")).1 ≡ [])
    × ((load_and_execute plain sample (empty_loader 64 5) (message "c0ffee")).0.0 ≡ code_ 0 → ⊥)
load_and_execute-refuses_own_hash_example =
    load_and_execute-refuses_own_hash plain sample (empty_loader 64 5) (message "c0ffee") refl

-- With an exit at the payload's second word.
abbrev leaving : List (String × Value)
leaving = ("exit", number 4) ∷ message "f00d"

leaving_let_through :
    (is_let_through plain sample 64 leaving ≡ true)
    × ((64 + (new_plugin plain sample (empty_loader 64 8) leaving).entry.addr) % 2 ^ 32 % 4 ≡ 0)
    × (exit_calls
          (new_plugin plain sample (empty_loader 64 8) leaving)
          (new_plugin plain sample (empty_loader 64 8) leaving).exit
        ≡ called 69 none_ ∷ [])
unfolding sha256_test_short function_of
leaving_let_through = (refl, refl, refl)

unload-load_and_execute_example :
    (load_and_execute plain sample (empty_loader 64 8) leaving ≡ Loaded plain sample 64 8 leaving)
    × ((unload_message plain sample
          (load_and_execute plain sample (empty_loader 64 8) leaving).0.1).0.1
        ≡ empty_loader 64 8)
    × ((unload_message plain sample
          (load_and_execute plain sample (empty_loader 64 8) leaving).0.1).1
        ≡ exit_calls
            (new_plugin plain sample (empty_loader 64 8) leaving)
            (new_plugin plain sample (empty_loader 64 8) leaving).exit)
unload-load_and_execute_example =
    unload-load_and_execute plain sample 64 8 leaving leaving_let_through.0 refl (omega arith)
      leaving_let_through.1 refl

abbrev loaded : SinglePluginLoader
loaded = (load_and_execute plain sample (global_plugin_loader true 64) (message "f00d")).0.1

loaded-Reachable : Reachable plain sample loaded
loaded-Reachable = load_message (message "f00d") (start_up true 64)

reachable_loader-IsValid_example : IsValid loaded
reachable_loader-IsValid_example = reachable_loader-IsValid plain sample loaded loaded-Reachable
