-- ===== src/PluginLoader/Bounds.antt =====
-- Which plugins are loaded, and where their bytes go.
use Prim.Native.String.{String, len}
use Prim.Native.Char.{code}
use lucidac_firmware.Common.{
  ℕ, ◌+◌, ◌*◌, ◌/◌, ◌<◌, ◌≤◌, ◌≡◌, inl, inr, refl, ◌==◌, ==_iff, ==_refl, ltb, Bool, true, false,
  not, ◌&&◌, lt→ltb, le→ltb, List, [], ◌∷◌, Option, none, some, length, All, arith, Bool-cases,
  lt→ltb, le→ltb, if-holds, ap, ◌∙◌,
}
use lucidac_firmware.Json.{JsonApi, is_some}
use lucidac_firmware.CBlock.Config.{member}
use lucidac_firmware.PluginLoader.{
  starts, sha256_test_short, Plugin, SinglePluginLoader, Event, wrote, called, Reply, code_,
  empty_optional_used, can_load, can_load_with, Handled, load, LoaderEnv, at, payload_of,
  new_plugin, jump_to, jump, submit, load_and_execute,
}

-- Bytes that are written lie in the loader's memory. (Jumps are not looked at.)
abbrev pub IsWithin : SinglePluginLoader → Event → Type 0
IsWithin l (wrote a bytes) = (l.load_addr ≤ a) × (a + length bytes ≤ l.load_addr + l.memsize)
IsWithin l (called a r) = Unit

number : Reply → ℕ
number (code_ n) = n
number empty_optional_used = 0

not_code : (n : ℕ) → ¬ (n ≡ 0) → code_ n ≡ code_ 0 → ⊥
unfolding number
not_code n h e = h (ap number e)

four :
    (a b c d : Bool)
    → (a && b && c && not d) ≡ true
    → (a ≡ true) × (b ≡ true) × (c ≡ true) × (d ≡ false)
four a b c d h = ground arith

starts_self : (s : String) → starts s s ≡ true
starts_self String.[] = refl
starts_self (String.◌∷◌ c s) = rw (==_refl (code c)) (starts_self s)

sha256_test_self : (s : String) → sha256_test_short s s ≡ true
unfolding sha256_test_short
sha256_test_self s = rw (le→ltb (len s) (len s) (omega arith)) (starts_self s)

pub load-never_zero : (l : SinglePluginLoader) (p : Plugin) → ((load l p).1 == 0) ≡ false
unfolding load
load-never_zero l p = elim (Bool-cases (is_some l.plugin)) [
  | inl e ↦ rw (load, e) refl
  | inr e ↦ elim (Bool-cases (ltb l.memsize p.size)) [
    | inl f ↦ rw (load, e, f) refl
    | inr f ↦ rw (load, e, f) refl
  ]
]

abbrev pub empty_loader : ℕ → ℕ → SinglePluginLoader
empty_loader load_addr memsize = record { plugin = none; load_addr = load_addr; memsize = memsize }

load-too_large :
    (a m : ℕ) (p : Plugin) → m < p.size → load (empty_loader a m) p ≡ (empty_loader a m, 2)
unfolding load
load-too_large a m p h = rw (lt→ltb m p.size h) refl

pub load-fits :
    (a m : ℕ) (p : Plugin)
    → p.size ≤ m
    → load (empty_loader a m) p ≡ (record { plugin = some p; load_addr = a; memsize = m }, 1)
unfolding load
load-fits a m p h = rw (le→ltb m p.size h) refl

module _ {F V : Type 0} (js : JsonApi F V) (env : LoaderEnv V) where
  -- The bytes that the decoder writes for a message.
  abbrev pub decoded : List (String × V) → List ℕ
  decoded msg = env.decode (payload_of js env msg) (len (payload_of js env msg) / 4 * 3)

  -- A message that an empty loader does not refuse with one of the codes 2 to 5.
  abbrev pub is_let_through : ℕ → List (String × V) → Bool
  is_let_through a msg =
      not (a == 0)
      && is_some (member "entry" msg)
      && env.is_addr (at js env "load_addr" msg) a
      && not (sha256_test_short (js.to_text (at js env "firmware_sha256" msg)) env.firmware_hash)

  pub let_through-submit :
      (a m : ℕ) (msg : List (String × V))
      → is_let_through a msg ≡ true
      → load_and_execute js env (empty_loader a m) msg
        ≡ submit js env msg (empty_loader a m) (new_plugin js env (empty_loader a m) msg)
  unfolding load_and_execute can_load
  let_through-submit a m msg h =
      let (placed, entry, here, other) =
        four (not (a == 0)) (is_some (member "entry" msg))
          (env.is_addr (at js env "load_addr" msg) a)
          (sha256_test_short (js.to_text (at js env "firmware_sha256" msg)) env.firmware_hash) h in
      rw (placed, entry, here, other) refl

  -- An empty loader with memory at an address and of a size, a message with an entry point, with this
  -- address and with a hash that is not the running firmware's, and a payload that decodes to as many
  -- bytes as were computed for it, more than the memory: the message is not refused with code 6. The
  -- bytes are written, beyond the memory's end, and the plugin is used that was not loaded.
  pub load_and_execute-overflows :
      (a m : ℕ) (msg : List (String × V))
      → is_let_through a msg ≡ true
      → length (decoded msg) ≡ len (payload_of js env msg) / 4 * 3
      → m < length (decoded msg)
      → (load_and_execute js env (empty_loader a m) msg
          ≡ ((empty_optional_used, empty_loader a m), wrote a (decoded msg) ∷ []))
        × (a + m < a + length (decoded msg))
  load_and_execute-overflows a m msg h full large = (
    let_through-submit a m msg h
        ∙ rw
            (
              load-too_large a m (new_plugin js env (empty_loader a m) msg) (omega arith),
              (==_iff (length (decoded msg)) (len (payload_of js env msg) / 4 * 3)).1 full,
            )
            refl,
    omega arith,
  )

  -- A message that names the hash of the running firmware is refused, whatever the loader: nothing
  -- is written, called or loaded.
  pub load_and_execute-refuses_own_hash :
      (l : SinglePluginLoader) (msg : List (String × V))
      → js.to_text (at js env "firmware_sha256" msg) ≡ env.firmware_hash
      → ((load_and_execute js env l msg).0.1 ≡ l)
        × ((load_and_execute js env l msg).1 ≡ [])
        × ((load_and_execute js env l msg).0.0 ≡ code_ 0 → ⊥)
  unfolding load_and_execute can_load
  load_and_execute-refuses_own_hash l msg own =
      let same : sha256_test_short (js.to_text (at js env "firmware_sha256" msg)) env.firmware_hash
          ≡ true =
        ap (λ s. sha256_test_short s env.firmware_hash) own ∙ sha256_test_self env.firmware_hash in
      elim (Bool-cases (is_some l.plugin)) [
        | inl e ↦ rw (load_and_execute, e) (refl, refl, not_code 1 (omega arith))
        | inr e₁ ↦ elim (Bool-cases (can_load_with l.plugin l.load_addr)) [
          | inr e ↦ rw (load_and_execute, e₁, e) (refl, refl, not_code 2 (omega arith))
          | inl e₂ ↦ elim (Bool-cases (is_some (member "entry" msg))) [
            | inr e ↦ rw (load_and_execute, e₁, e₂, e) (refl, refl, not_code 3 (omega arith))
            | inl e₃ ↦ elim (Bool-cases (env.is_addr (at js env "load_addr" msg) l.load_addr)) [
              | inr e ↦ rw (load_and_execute, e₁, e₂, e₃, e) (refl, refl, not_code 4 (omega arith))
              | inl e₄ ↦
                  rw (load_and_execute, e₁, e₂, e₃, e₄, same) (refl, refl, not_code 5 (omega arith))
            ]
          ]
        ]
      ]

  -- Every message ends in a refusal that changes nothing, or in a submission.
  pub load_and_execute-cases :
      (P : Handled js env → Type 0) (l : SinglePluginLoader) (msg : List (String × V))
      → ((n : ℕ) → P ((code_ n, l), []))
      → (is_some l.plugin ≡ false → P (submit js env msg l (new_plugin js env l msg)))
      → P (load_and_execute js env l msg)
  unfolding load_and_execute can_load
  load_and_execute-cases P l msg refused submitted =
      if-holds P (is_some l.plugin) _ _ (λ e. refused 1)
        (λ e₁.
          if-holds P (not (can_load_with l.plugin l.load_addr)) _ _ (λ e. refused 2)
            (λ e₂.
              if-holds P (not (is_some (member "entry" msg))) _ _ (λ e. refused 3)
                (λ e₃.
                  if-holds P (not (env.is_addr (at js env "load_addr" msg) l.load_addr)) _ _
                    (λ e. refused 4)
                    (λ e₄.
                      if-holds P
                        (sha256_test_short (js.to_text (at js env "firmware_sha256" msg))
                          env.firmware_hash)
                        _ _ (λ e. refused 5) (λ e₅. submitted e₁)))))

  jump_to-IsWithin :
      (base : SinglePluginLoader) (msg : List (String × V)) (l : SinglePluginLoader) (p : Plugin)
      (e : Event) (there : Option ℕ)
      → IsWithin base e
      → All (IsWithin base) (jump_to js env msg l p e there).1
  jump_to-IsWithin base msg l p e none h = (h, tt)
  jump_to-IsWithin base msg l p e (some a) h = (h, (tt, tt))

  jump-IsWithin :
      (base : SinglePluginLoader) (msg : List (String × V)) (l : SinglePluginLoader)
      (slot : Option Plugin) (e : Event)
      → IsWithin base e
      → All (IsWithin base) (jump js env msg l slot e).1
  jump-IsWithin base msg l none e h = (h, tt)
  jump-IsWithin base msg l (some p) e h = jump_to-IsWithin base msg l p e _ h

  -- The decoder writes at most as many bytes as its target has.
  module _ (decode_bound : (s : String) (n : ℕ) → length (env.decode s n) ≤ n) where
    submit-IsWithin :
        (a m : ℕ) (msg : List (String × V))
        → len (payload_of js env msg) / 4 * 3 ≤ m
        → All
            (IsWithin (empty_loader a m))
            (submit js env msg (empty_loader a m) (new_plugin js env (empty_loader a m) msg)).1
    submit-IsWithin a m msg fits =
        let written : IsWithin (empty_loader a m) (wrote a (decoded msg)) = (
          omega arith,
          omega (arith, decode_bound (payload_of js env msg) (len (payload_of js env msg) / 4 * 3)),
        ) in
        rw (load-never_zero (empty_loader a m) (new_plugin js env (empty_loader a m) msg))
          (elim (Bool-cases (length (decoded msg) == len (payload_of js env msg) / 4 * 3)) [
            | inl full ↦
                rw full (jump-IsWithin (empty_loader a m) msg _ _ (wrote a (decoded msg)) written)
            | inr short ↦ rw short (written, tt)
          ])

    -- A payload that is not too large for an empty loader is written into its memory, whatever else
    -- the message has. (The base64 decoder must keep to the size of its target.)
    load_and_execute-IsWithin :
        (a m : ℕ) (msg : List (String × V))
        → len (payload_of js env msg) / 4 * 3 ≤ m
        → All (IsWithin (empty_loader a m)) (load_and_execute js env (empty_loader a m) msg).1
    load_and_execute-IsWithin a m msg fits =
        load_and_execute-cases (λ r. All (IsWithin (empty_loader a m)) (r.1)) (empty_loader a m) msg
          (λ n. tt) (λ e. submit-IsWithin a m msg fits)
