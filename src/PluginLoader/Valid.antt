-- ===== src/PluginLoader/Valid.antt =====
-- What holds of the loader's slot at any time.
use Prim.Native.String.{String}
use lucidac_firmware.Common.{
  ℕ, ◌≤◌, ◌≡◌, inl, inr, refl, ◌==◌, ltb, Bool, true, false, List, Option, none, some, length,
  arith, Bool-cases, Option-cases, if-holds,
}
use lucidac_firmware.Json.{JsonApi, is_some}
use lucidac_firmware.CBlock.Config.{member}
use lucidac_firmware.PluginLoader.{
  Plugin, SinglePluginLoader, Event, wrote, global_plugin_loader, Function, load, unload, LoaderEnv,
  new_plugin, jump_to, jump, submit, load_and_execute, leave_at, leave, unload_message,
}
use lucidac_firmware.PluginLoader.Bounds.{decoded, load-never_zero, load_and_execute-cases}

-- The comment on `plugin` in plugin.h.
abbrev pub FitsSlot : ℕ → ℕ → Option Plugin → Type 0
FitsSlot load_addr memsize none = Unit
FitsSlot load_addr memsize (some p) = (p.load_addr ≡ load_addr) × (p.size ≤ memsize)

abbrev pub IsValid : SinglePluginLoader → Type 0
IsValid l = FitsSlot l.load_addr l.memsize l.plugin

not_above : (m n : ℕ) → ltb m n ≡ false → n ≤ m
not_above m n h = ground arith

started-IsValid : (enabled : Bool) (storage : ℕ) → IsValid (global_plugin_loader enabled storage)
unfolding global_plugin_loader
started-IsValid true storage = tt
started-IsValid false storage = tt

module _ {F V : Type 0} (js : JsonApi F V) (env : LoaderEnv V) where
  load-IsValid :
      (l : SinglePluginLoader) (p : Plugin)
      → IsValid l
      → p.load_addr ≡ l.load_addr
      → IsValid (load l p).0
  unfolding load
  load-IsValid l p h here = elim (Bool-cases (is_some l.plugin)) [
    | inl e ↦ rw (load, e) h
    | inr e ↦ elim (Bool-cases (ltb l.memsize p.size)) [
      | inl f ↦ rw (load, e, f) h
      | inr f ↦ rw (load, e, f) (here, not_above l.memsize p.size f)
    ]
  ]

  jump_to-IsValid :
      (msg : List (String × V)) (l : SinglePluginLoader) (p : Plugin) (e : Event) (there : Option ℕ)
      → IsValid l
      → IsValid ((jump_to js env msg l p e there).0.1)
  unfolding unload
  jump_to-IsValid msg l p e none h = tt
  jump_to-IsValid msg l p e (some a) h =
      if-holds IsValid (is_some (member "immediately_unload" msg)) (unload l) l (λ x. tt) (λ x. h)

  jump-IsValid :
      (msg : List (String × V)) (l : SinglePluginLoader) (slot : Option Plugin) (e : Event)
      → IsValid l
      → IsValid ((jump js env msg l slot e).0.1)
  jump-IsValid msg l none e h = h
  jump-IsValid msg l (some p) e h = jump_to-IsValid msg l p e _ h

  -- The messages that a loader has handled since the start-up.
  pub data Reachable : SinglePluginLoader → Type 0 where
    start_up : (enabled : Bool) (storage : ℕ) → Reachable (global_plugin_loader enabled storage)
    load_message :
        {l : SinglePluginLoader} (msg : List (String × V))
        → Reachable l
        → Reachable (load_and_execute js env l msg).0.1
    unload_message_ :
        {l : SinglePluginLoader} → Reachable l → Reachable (unload_message js env l).0.1

  submit-IsValid :
      (l : SinglePluginLoader) (msg : List (String × V))
      → IsValid l
      → IsValid ((submit js env msg l (new_plugin js env l msg)).0.1)
  unfolding unload
  submit-IsValid l msg h =
      let p : Plugin = new_plugin js env l msg in
      rw (load-never_zero l p) (elim (Bool-cases (length (decoded js env msg) == p.size)) [
        | inl full ↦ rw full (
            jump-IsValid msg (load l p).0 _ (wrote l.load_addr (decoded js env msg))
              (load-IsValid l p h refl))
        | inr short ↦ rw short tt
      ])

  leave_at-IsValid :
      (l : SinglePluginLoader) (f : Function) (there : Option ℕ)
      → IsValid ((leave_at js env l f there).0.1)
  unfolding unload
  leave_at-IsValid l f none = tt
  leave_at-IsValid l f (some a) = tt

  leave-IsValid :
      (l : SinglePluginLoader) (p : Plugin) (f : Option Function)
      → IsValid ((leave js env l p f).0.1)
  unfolding unload
  leave-IsValid l p none = tt
  leave-IsValid l p (some f) = leave_at-IsValid l f _

  -- At any time a plugin in the slot has the loader's address and is not larger than its memory,
  -- whatever messages came.
  pub reachable_loader-IsValid : (l : SinglePluginLoader) → Reachable l → IsValid l
  unfolding unload_message
  reachable_loader-IsValid _ (start_up enabled storage) = started-IsValid enabled storage
  reachable_loader-IsValid _ (load_message {l} msg r) =
      let h : IsValid l = reachable_loader-IsValid l r in
      load_and_execute-cases js env (λ r. IsValid (r.0.1)) l msg (λ n. h)
        (λ e. submit-IsValid l msg h)
  reachable_loader-IsValid _ (unload_message_ {l} r) = elim (Option-cases l.plugin) [
    | inl e ↦ rw (unload_message, e) (reachable_loader-IsValid l r)
    | inr (p, e) ↦ rw (unload_message, e) (leave-IsValid l p p.exit)
  ]
