-- ===== src/IBlock/Configured.antt =====
-- Reading a configuration keeps an I-block valid and splits no input.
use Prim.Native.String.{String}
use text.Mathlib.Text.{◌==◌ as str_eq}
use lucidac_firmware.Common.{
  ℕ, ◌^◌, ◌%◌, ◌<◌, ◌≡◌, refl, subst, bit, bit-zero, ◌==◌, ltb, Bool, true, false, List, [], ◌∷◌,
  length, length-set, get_or, get_or-replicate, arith, All-replicate, Bool-cases, Option-cases, inl,
  inr,
}
use lucidac_firmware.IsNumber.{is_number}
use lucidac_firmware.Json.{JsonApi, is_some, or_else, for_each_inv}
use lucidac_firmware.IBlock.{IBlock, connect, disconnect, set_upscaling, reset_outputs}
use lucidac_firmware.IBlock.Connections.{IsValid, IsUnsplit, closed, connect-IsUnsplit}
use lucidac_firmware.IBlock.Invariant.{connect-IsValid, disconnect-IsValid, disconnect-IsUnsplit}
use lucidac_firmware.IBlock.Config.{
  connect_element, connect_from_json, config_output_named, config_output, config_outputs_array,
  config_outputs_from_json, config_upscaling_named, config_scale, config_upscaling_array,
  config_upscaling_from_json, config_entry, config_self_from_json,
}

abbrev pub IsSound : IBlock → Type 0
IsSound b = IsValid b × IsUnsplit b

pub connect-IsSound :
    (b : IBlock) (i o : ℕ) (exclusive : Bool)
    → IsSound b
    → IsSound (connect b i o exclusive false).0
connect-IsSound b i o exclusive (v, u) =
    (connect-IsValid b i o exclusive false v, connect-IsUnsplit b i o exclusive v u)

pub disconnect-IsSound : (b : IBlock) (o : ℕ) → IsSound b → IsSound (disconnect b o).0
disconnect-IsSound b o (v, u) = (disconnect-IsValid b o v, disconnect-IsUnsplit b o v u)

set_upscaling-IsValid :
    (b : IBlock) (i : ℕ) (x : Bool) → IsValid b → IsValid (set_upscaling b i x).0
unfolding set_upscaling
set_upscaling-IsValid b i x v = ground (arith, length-set b.scaling_factors i x)

outputs-set_upscaling :
    (b : IBlock) (i : ℕ) (x : Bool) → (set_upscaling b i x).0.outputs ≡ b.outputs
unfolding set_upscaling
outputs-set_upscaling b i x = ground arith

same_outputs-IsUnsplit : (b c : IBlock) → c.outputs ≡ b.outputs → IsUnsplit b → IsUnsplit c
same_outputs-IsUnsplit b c e u j p q hj hp hq cp cq =
    u j p q hj hp hq (subst (λ t. bit (get_or t p 0) j ≡ true) e cp)
      (subst (λ t. bit (get_or t q 0) j ≡ true) e cq)

pub set_upscaling-IsSound :
    (b : IBlock) (i : ℕ) (x : Bool) → IsSound b → IsSound (set_upscaling b i x).0
set_upscaling-IsSound b i x (v, u) = (
  set_upscaling-IsValid b i x v,
  same_outputs-IsUnsplit b (set_upscaling b i x).0 (outputs-set_upscaling b i x) u,
)

no_switch : (b : IBlock) (j p : ℕ) → closed (reset_outputs b) j p ≡ false
unfolding reset_outputs
no_switch b j p = rw (get_or-replicate {A = ℕ} 16 p 0) (bit-zero j)

pub reset_outputs-IsSound : (b : IBlock) → length b.scaling_factors ≡ 32 → IsSound (reset_outputs b)
unfolding reset_outputs
reset_outputs-IsSound b h = (
  record { size = refl; words = All-replicate (λ w. w < 2 ^ 32) 16 0 (omega arith); scales = h },
  λ j p q hj hp hq cp cq. absurd (cc (cp, no_switch b j p)),
)

module _ {F V : Type 0} (js : JsonApi F V) where
  element-IsSound :
      (output : ℕ) (input : V) (b : IBlock)
      → IsSound b
      → IsSound (connect_element js output input b).0
  unfolding connect_element
  element-IsSound output input b h = elim (Bool-cases (is_some (js.uint8? input))) [
    | inl e ↦ rw e (connect-IsSound b (or_else (js.uint8? input) 0) output false h)
    | inr e ↦ rw e h
  ]

  from_json-IsSound :
      (b : IBlock) (spec : V) (output : ℕ)
      → IsSound b
      → IsSound (connect_from_json js b spec output).0
  unfolding connect_from_json
  from_json-IsSound b spec output h = elim (Bool-cases (js.is_null spec)) [
    | inl e ↦ rw e h
    | inr e ↦ rw e (elim (Option-cases (js.array? spec)) [
      | inr (inputs, f) ↦
          rw f
            (for_each_inv IsSound (connect_element js output) (element-IsSound output) inputs b h)
      | inl f ↦ rw f (elim (Option-cases (js.uint8? spec)) [
        | inr (input, g) ↦ rw g (connect-IsSound b input output false h)
        | inl g ↦ rw g h
      ])
    ])
  ]

  named-IsSound :
      (kv : String × V) (b : IBlock) → IsSound b → IsSound (config_output_named js kv b).0
  unfolding config_output_named
  named-IsSound (key, value) b h = elim (Bool-cases (is_number key)) [
    | inr e ↦ rw e h
    | inl e ↦ rw e (elim (Option-cases (js.stoul key)) [
      | inl f ↦ rw f h
      | inr (output, f) ↦ rw f (elim (Bool-cases (disconnect b (output % 2 ^ 8)).1) [
        | inl g ↦ rw g (
            from_json-IsSound (disconnect b (output % 2 ^ 8)).0 value (output % 2 ^ 8)
              (disconnect-IsSound b (output % 2 ^ 8) h))
        | inr g ↦ rw g (disconnect-IsSound b (output % 2 ^ 8) h)
      ])
    ])
  ]

  output-IsSound : (spec : V) (s : IBlock × ℕ) → IsSound s.0 → IsSound (config_output js spec s).0.0
  unfolding config_output
  output-IsSound spec (b, idx) h = from_json-IsSound b spec idx h

  outputs-IsSound :
      (b : IBlock) (cfg : V) → IsSound b → IsSound (config_outputs_from_json js b cfg).0
  unfolding config_outputs_from_json config_outputs_array
  outputs-IsSound b cfg h = elim (Option-cases (js.object? cfg)) [
    | inr (entries, e) ↦
        rw (e, config_outputs_from_json)
          (for_each_inv IsSound (config_output_named js) named-IsSound entries b h)
    | inl e ↦
        rw (e, config_outputs_from_json)
          (elim (Option-cases (js.array? cfg)) [
            | inl f ↦ rw f h
            | inr (outputs, f) ↦ rw f (elim (Bool-cases (length outputs == 16)) [
              | inr g ↦ rw g h
              | inl g ↦ rw g (
                  for_each_inv (λ s. IsSound s.0) (config_output js) output-IsSound outputs
                    (reset_outputs b, 0) (reset_outputs-IsSound b h.0.scales))
            ])
          ])
  ]

  scale-IsSound : (x : V) (s : IBlock × ℕ) → IsSound s.0 → IsSound (config_scale js x s).0.0
  unfolding config_scale
  scale-IsSound x (b, input) h = elim (Option-cases (js.bool? x)) [
    | inl e ↦ rw (e, config_scale) h
    | inr (y, e) ↦ rw (e, config_scale) (set_upscaling-IsSound b input y h)
  ]

  upscaling_named-IsSound :
      (b : IBlock) (entries : List (String × V))
      → IsSound b
      → IsSound (config_upscaling_named js b entries).0
  unfolding config_upscaling_named
  upscaling_named-IsSound b [] h = h
  upscaling_named-IsSound b ((key, value) ∷ es) h = elim (Option-cases (js.bool? value)) [
    | inl e ↦ rw (e, config_upscaling_named) h
    | inr (x, e) ↦
        rw (e, config_upscaling_named)
          (elim (Option-cases (js.stoul key)) [
            | inl f ↦ rw f h
            | inr (input, f) ↦ rw f (elim (Bool-cases (ltb 32 input)) [
              | inl g ↦ rw g h
              | inr g ↦ rw g (set_upscaling-IsSound b (input % 2 ^ 8) x h)
            ])
          ])
  ]

  upscaling-IsSound :
      (b : IBlock) (cfg : V) → IsSound b → IsSound (config_upscaling_from_json js b cfg).0
  unfolding config_upscaling_from_json config_upscaling_array
  upscaling-IsSound b cfg h = elim (Option-cases (js.object? cfg)) [
    | inr (entries, e) ↦ rw (e, config_upscaling_from_json) (upscaling_named-IsSound b entries h)
    | inl e ↦
        rw (e, config_upscaling_from_json)
          (elim (Option-cases (js.array? cfg)) [
            | inl f ↦ rw f h
            | inr (scales, f) ↦ rw f (elim (Bool-cases (length scales == 32)) [
              | inr g ↦ rw g h
              | inl g ↦
                  rw g (
                    for_each_inv (λ s. IsSound s.0) (config_scale js) scale-IsSound scales (b, 0) h)
            ])
          ])
  ]

  entry-IsSound : (kv : String × V) (b : IBlock) → IsSound b → IsSound (config_entry js kv b).0
  unfolding config_entry
  entry-IsSound (key, value) b h = elim (Bool-cases (str_eq key "outputs")) [
    | inl e ↦ rw e (outputs-IsSound b value h)
    | inr e ↦ rw e (elim (Bool-cases (str_eq key "upscaling")) [
      | inl f ↦ rw f (upscaling-IsSound b value h)
      | inr f ↦ rw f h
    ])
  ]

  -- However reading ends, a sound block stays sound.
  pub config_self_from_json-IsSound :
      (b : IBlock) (cfg : List (String × V))
      → IsSound b
      → IsSound (config_self_from_json js b cfg).0
  unfolding config_self_from_json
  config_self_from_json-IsSound b cfg h =
      for_each_inv IsSound (config_entry js) entry-IsSound cfg b h
