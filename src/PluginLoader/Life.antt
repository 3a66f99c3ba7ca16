-- ===== src/PluginLoader/Life.antt =====
-- A plugin from the message that loads it to the one that unloads it.
use Prim.Native.String.{String, len}
use lucidac_firmware.Common.{
  ℕ, ◌+◌, ◌-◌, ◌*◌, ◌/◌, ◌%◌, ◌^◌, ◌<◌, ◌≤◌, ◌≡◌, refl, ◌==◌, ==_iff, bit_and, bit_and-halves,
  bit_and_mask, true, false, not, if◌then◌else◌, List, [], ◌∷◌, Option, none, some, length, arith,
  Bool-cases, inl, inr, ◌∙◌, ap, sym, subst,
}
use lucidac_firmware.Json.{JsonApi, is_some}
use lucidac_firmware.CBlock.Config.{member}
use lucidac_firmware.PluginLoader.{
  assert_callable, Function, Plugin, SinglePluginLoader, Event, wrote, called, code_, LoaderEnv,
  payload_of, new_plugin, load_and_execute, leave, unload_message, unload, Handled,
}
use lucidac_firmware.PluginLoader.Bounds.{
  empty_loader, load-fits, decoded, is_let_through, let_through-submit,
}

-- The mask that `align` applies.
bit_and_fours : (x : ℕ) → x < 2 ^ 32 → bit_and x 0xFFFFFFFC ≡ 4 * (x / 4)
bit_and_fours x h = omega (
  arith,
  bit_and-halves x 0xFFFFFFFC,
  bit_and-halves (x / 2) 0x7FFFFFFE,
  bit_and_mask 30 (x / 2 / 2) 0x3FFFFFFF refl,
)

-- The bytes up to the next address that can be called.
lost :
    (a : ℕ)
    → a < 2 ^ 32
    → ((4 * ((a + 4 - 1) % 2 ^ 32 / 4) + 2 ^ 32 - a) % 2 ^ 32 == 0) ≡ (a % 4 == 0)
lost a h = ground arith

-- Addresses that are a multiple of 4 can be called, with the lowest bit set.
assert_callable_lem :
    (a : ℕ)
    → a < 2 ^ 32
    → assert_callable a ≡ (if not (a % 4 == 0) then none else some ((a + 1) % 2 ^ 32))
unfolding assert_callable
assert_callable_lem a h =
    rw (bit_and_fours ((a + 4 - 1) % 2 ^ 32) (omega arith)) (rw (lost a h) refl)

-- The calls that unloading a plugin should make: one to its exit, if it has one that can be called.
abbrev pub exit_calls : Plugin → Option Function → List Event
exit_calls p none = []
exit_calls p (some f) =
    let there = (p.load_addr + f.addr) % 2 ^ 32 in
    if not (there % 4 == 0) then [] else called ((there + 1) % 2 ^ 32) f.ret_type ∷ []

module _ {F V : Type 0} (js : JsonApi F V) (env : LoaderEnv V) where
  leave_lem :
      (l : SinglePluginLoader) (p : Plugin) (exit : Option Function)
      → ((leave js env l p exit).0.1 ≡ unload l) × ((leave js env l p exit).1 ≡ exit_calls p exit)
  leave_lem l p none = (refl, refl)
  leave_lem l p (some f) =
      let there : ℕ = (p.load_addr + f.addr) % 2 ^ 32 in
      rw (assert_callable_lem there (omega arith)) (elim (Bool-cases (there % 4 == 0)) [
        | inl aligned ↦ rw aligned (refl, refl)
        | inr uneven ↦ rw uneven (refl, refl)
      ])

  -- The loader with a plugin, and what was done to load it.
  abbrev pub Loaded : ℕ → ℕ → List (String × V) → Handled js env
  Loaded a m msg =
      let p = new_plugin js env (empty_loader a m) msg in
      (
        (code_ 0, record { plugin = some p; load_addr = a; memsize = m }),
        wrote a (decoded js env msg)
            ∷ called ((a + p.entry.addr) % 2 ^ 32 + 1) p.entry.ret_type
            ∷ [],
      )

  load_and_execute_lem :
      (a m : ℕ) (msg : List (String × V))
      → is_let_through js env a msg ≡ true
      → length (decoded js env msg) ≡ len (payload_of js env msg) / 4 * 3
      → length (decoded js env msg) ≤ m
      → (a + (new_plugin js env (empty_loader a m) msg).entry.addr) % 2 ^ 32 % 4 ≡ 0
      → is_some (member "immediately_unload" msg) ≡ false
      → load_and_execute js env (empty_loader a m) msg ≡ Loaded a m msg
  load_and_execute_lem a m msg h full fits aligned stays =
      let p : Plugin = new_plugin js env (empty_loader a m) msg in
      let start : ℕ = (a + p.entry.addr) % 2 ^ 32 in
      let jump : assert_callable start ≡ some (start + 1) =
        assert_callable_lem start (omega arith)
        ∙ rw ((==_iff (start % 4) 0).1 aligned) (ap some (omega (arith, aligned))) in
      let_through-submit js env a m msg h
      ∙ rw
          (
            load-fits a m p (omega (arith, full)),
            (==_iff (length (decoded js env msg)) (len (payload_of js env msg) / 4 * 3)).1 full,
            jump,
            stays,
          )
          refl

  -- For a loader without a plugin and a message that it lets through, whose payload decodes to as many
  -- bytes as were computed for it and fits, whose entry point is a multiple of 4, and that does not
  -- ask for immediate unloading: the bytes are written, the entry is called (with the lowest bit of
  -- the address set) and the plugin is in the slot. Unloading it then calls its exit, if it has one
  -- that is a multiple of 4, and nothing else, and leaves the loader as it was before.
  pub unload-load_and_execute :
      (a m : ℕ) (msg : List (String × V))
      → is_let_through js env a msg ≡ true
      → length (decoded js env msg) ≡ len (payload_of js env msg) / 4 * 3
      → length (decoded js env msg) ≤ m
      → (a + (new_plugin js env (empty_loader a m) msg).entry.addr) % 2 ^ 32 % 4 ≡ 0
      → is_some (member "immediately_unload" msg) ≡ false
      → (load_and_execute js env (empty_loader a m) msg ≡ Loaded a m msg)
        × ((unload_message js env (load_and_execute js env (empty_loader a m) msg).0.1).0.1
            ≡ empty_loader a m)
        × ((unload_message js env (load_and_execute js env (empty_loader a m) msg).0.1).1
            ≡ exit_calls
                (new_plugin js env (empty_loader a m) msg)
                (new_plugin js env (empty_loader a m) msg).exit)
  unfolding unload_message unload
  unload-load_and_execute a m msg h full fits aligned stays =
      let loaded : load_and_execute js env (empty_loader a m) msg ≡ Loaded a m msg =
        load_and_execute_lem a m msg h full fits aligned stays in
      let p : Plugin = new_plugin js env (empty_loader a m) msg in
      let (left, calls) =
        subst
          (λ r.
            ((unload_message js env (r.0.1)).0.1 ≡ empty_loader a m)
            × ((unload_message js env (r.0.1)).1 ≡ exit_calls p p.exit))
          (sym loaded) (leave_lem (Loaded a m msg).0.1 p p.exit) in
      (loaded, left, calls)
