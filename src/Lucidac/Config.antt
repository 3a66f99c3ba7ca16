-- ===== src/Lucidac/Config.antt =====
-- Reading and writing the configuration of a LUCIDAC: lib/platform-lucidac/src/lucidac/lucidac.cpp.
use Prim.Native.String.{String, [] as no_text, ◌∷◌ as text_cons}
use text.Mathlib.Text.{◌==◌ as str_eq}
use lucidac_firmware.Common.{
  ℕ, Bool, true, false, if◌then◌else◌, List, [], ◌∷◌, Option, none, some, ℤ,
}
use lucidac_firmware.Json.{JsonApi}
use lucidac_firmware.Bus.Functions.{Env, Bus, ◌>>=◌, pure}
use lucidac_firmware.Lucidac.{
  Lucidac, Acl, internal, external, adc_channel_disabled, write_adc_bus_mux, write_acl,
}

module _ {F V : Type 0} (js : JsonApi F V) where
  -- The loop, bounded by the eight channels as well as by the values.
  abbrev pub channels_from_json : List ℤ → List V → List ℤ
  channels_from_json [] values = []
  channels_from_json (c ∷ channels) [] = c ∷ channels
  channels_from_json (c ∷ channels) (v ∷ values) =
      (if js.is_null v then adc_channel_disabled else js.to_int8 v)
      ∷ channels_from_json channels values

  abbrev pub acl_from_text : Option String → Option Acl
  acl_from_text none = none
  acl_from_text (some t) =
      if str_eq t "internal"
      then some internal
      else if str_eq t "external"
      then some external
      else none

  -- The entries that were set, and whether all were names.
  abbrev pub acls_from_json : List Acl → List V → List Acl × Bool
  acls_from_json [] values = ([], true)
  acls_from_json (a ∷ acls) [] = (a ∷ acls, true)
  acls_from_json (a ∷ acls) (v ∷ values) =
      let (acls', ok) = acls_from_json acls values in
      elim (acl_from_text (js.text? v)) [ none ↦ (a ∷ acls, false) | some b ↦ (b ∷ acls', ok) ]

  module _ (env : Env) where
    unfoldable pub config_adc_from_json : Lucidac → V → Bus (Lucidac × Bool)
    unfolding write_adc_bus_mux
    config_adc_from_json l cfg = elim (js.array? cfg) [
      | none ↦ pure (l, false)
      | some values ↦
          let l' = record l { adc_channels = channels_from_json l.adc_channels values } in
          write_adc_bus_mux env l'.adc_channels >>= λ written. pure (l', written)
    ]

    unfoldable pub config_acl_from_json : Lucidac → V → Bus (Lucidac × Bool)
    unfolding write_acl
    config_acl_from_json l cfg = elim (js.array? cfg) [
      | none ↦ pure (l, false)
      | some values ↦
          let (acls, named) = acls_from_json l.acl_select values in
          let l' = record l { acl_select = acls } in
          if named then (write_acl env acls >>= λ written. pure (l', written)) else pure (l', false)
    ]

    -- The code of the status, and what the entries that are left do.
    abbrev pub is_sub_entity : String → Bool
    is_sub_entity no_text = false
    is_sub_entity (text_cons c rest) = str_eq (text_cons c no_text) "/"

    abbrev pub refused_or : ℕ → (Lucidac → Bus (Lucidac × ℕ)) → Lucidac × Bool → Bus (Lucidac × ℕ)
    refused_or code next (l, done) = if done then next l else pure (l, code)

    unfoldable pub config_self_from_json : Lucidac → List (String × V) → Bus (Lucidac × ℕ)
    unfolding config_adc_from_json config_acl_from_json
    config_self_from_json l [] = pure (l, 0)
    config_self_from_json l ((key, value) ∷ cfg) =
        if str_eq key "adc_channels"
        then config_adc_from_json l value >>= refused_or 530 (λ l'. config_self_from_json l' cfg)
        else if str_eq key "acl_select"
        then config_acl_from_json l value >>= refused_or 531 (λ l'. config_self_from_json l' cfg)
        else if is_sub_entity key
        then config_self_from_json l cfg
        else pure (l, 532)
