-- ===== src/MIntBlock/Range.antt =====
-- What an integrator block holds whatever is done to it: initial values between -1 and 1, and time
-- factors that are 100 or 10000.
use Prim.Native.String.{String}
use text.Mathlib.Text.{◌==◌ as str_eq}
use lucidac_firmware.Common.{
  ℕ, ◌==◌, leb, length, List, Option, none, some, Bool-cases, Option-cases, inl, inr,
}
use lucidac_firmware.Float.{FloatApi, zero_float}
use lucidac_firmware.Json.{JsonApi, Outcome, passed, for_each_inv, and_then}
use lucidac_firmware.CBlock.Config.{member}
use lucidac_firmware.MIntBlock.{MIntBlock, init, set_ic_value, set_time_factor, reset}
use lucidac_firmware.MIntBlock.Config.{
  config_ic, config_k, config_optional, config_optional_k, config_element, config_members,
  config_named_element, config_elements_from_json, config_entry, config_self_from_json, member_of,
}
use lucidac_firmware.MIntBlock.Valid.{
  IsIc, IsValid, set_ic_value-IsValid, set_time_factor-IsValid, init-IsValid, reset-IsValid,
}

module _ {F V : Type 0} (fl : FloatApi F) (js : JsonApi F V) where
  abbrev IsValidResult : MIntBlock F × Outcome → Type 0
  IsValidResult r = IsValid fl r.0

  ic-IsValid :
      (b : MIntBlock F) (i : ℕ) (v : V) → IsValid fl b → IsValidResult (config_ic fl js b i v)
  unfolding config_ic
  ic-IsValid b i v h = elim (Option-cases (js.float? v)) [
    | inl e ↦ rw (e, config_ic) h
    | inr (x, e) ↦ rw (e, config_ic) (set_ic_value-IsValid fl b i x h)
  ]

  k-IsValid :
      (b : MIntBlock F) (i : ℕ) (v : V) → IsValid fl b → IsValidResult (config_k fl js b i v)
  unfolding config_k
  k-IsValid b i v h = elim (Option-cases (js.uint? v)) [
    | inl e ↦ rw (e, config_k) h
    | inr (k, e) ↦ rw (e, config_k) (set_time_factor-IsValid fl b i k h)
  ]

  optional-IsValid :
      (o : Option V) (f : V → MIntBlock F × Outcome) (b : MIntBlock F)
      → IsValid fl b
      → ((v : V) → IsValidResult (f v))
      → IsValidResult (config_optional fl js o f b)
  optional-IsValid none f b h g = h
  optional-IsValid (some v) f b h g = g v

  then-IsValid :
      (r : MIntBlock F × Outcome) (f : MIntBlock F → MIntBlock F × Outcome)
      → IsValidResult r
      → ((b : MIntBlock F) → IsValid fl b → IsValidResult (f b))
      → IsValidResult (and_then r f)
  then-IsValid (b, o) f h g = elim (Bool-cases (passed o)) [ inl e ↦ rw e (g b h) | inr e ↦ rw e h ]

  element-IsValid :
      (v : V) (s : MIntBlock F × ℕ) → IsValid fl s.0 → IsValid fl ((config_element fl js v s).0).0
  unfolding config_element
  element-IsValid v (b, i) h = elim (Option-cases (member_of fl js "ic" v)) [
    | inl e ↦ rw (e, config_element) h
    | inr (ic, e) ↦
        rw (e, config_element)
          (then-IsValid (config_ic fl js b i ic) (config_optional_k fl js v i) (ic-IsValid b i ic h)
            (λ b' h'.
              optional-IsValid (member_of fl js "k" v) (config_k fl js b' i) b' h'
                (λ k. k-IsValid b' i k h')))
  ]

  members-IsValid :
      (es : List (String × V)) (i : ℕ) (b : MIntBlock F)
      → IsValid fl b
      → IsValidResult (config_members fl js es i b)
  members-IsValid es i b h =
      then-IsValid (config_optional fl js (member "ic" es) (config_ic fl js b i) b)
        (λ b'. config_optional fl js (member "k" es) (config_k fl js b' i) b')
        (optional-IsValid (member "ic" es) (config_ic fl js b i) b h (λ ic. ic-IsValid b i ic h))
        (λ b' h'.
          optional-IsValid (member "k" es) (config_k fl js b' i) b' h' (λ k. k-IsValid b' i k h'))

  named-IsValid :
      (kv : String × V) (b : MIntBlock F)
      → IsValid fl b
      → IsValidResult (config_named_element fl js kv b)
  unfolding config_named_element
  named-IsValid (key, value) b h = elim (Option-cases (js.object? value)) [
    | inl e ↦ rw (e, config_named_element) h
    | inr (es, e) ↦
        rw (e, config_named_element)
          (elim (Option-cases (js.stoul key)) [
            | inl f ↦ rw f h
            | inr (i, f) ↦ rw f (elim (Bool-cases (leb 8 i)) [
              | inl out ↦ rw out h
              | inr within ↦ rw within (members-IsValid es i b h)
            ])
          ])
  ]

  elements-IsValid :
      (b : MIntBlock F) (cfg : V)
      → IsValid fl b
      → IsValidResult (config_elements_from_json fl js b cfg)
  unfolding config_elements_from_json
  elements-IsValid b cfg h = elim (Option-cases (js.array? cfg)) [
    | inr (elements, e) ↦
        rw (e, config_elements_from_json)
          (elim (Bool-cases (length elements == 8)) [
            | inl full ↦ rw full (
                for_each_inv (λ s. IsValid fl s.0) (config_element fl js) element-IsValid elements
                  (b, 0) h)
            | inr short ↦ rw short h
          ])
    | inl e ↦
        rw (e, config_elements_from_json)
          (elim (Option-cases (js.object? cfg)) [
            | inr (entries, f) ↦
                rw f
                  (for_each_inv (IsValid fl) (config_named_element fl js) named-IsValid entries b h)
            | inl f ↦ rw f h
          ])
  ]

  entry-IsValid :
      (kv : String × V) (b : MIntBlock F) → IsValid fl b → IsValidResult (config_entry fl js kv b)
  unfolding config_entry
  entry-IsValid (key, value) b h = elim (Bool-cases (str_eq key "elements")) [
    | inl e ↦ rw e (elements-IsValid b value h)
    | inr e ↦ rw e h
  ]

  config-IsValid :
      (b : MIntBlock F) (cfg : List (String × V))
      → IsValid fl b
      → IsValidResult (config_self_from_json fl js b cfg)
  unfolding config_self_from_json
  config-IsValid b cfg h = for_each_inv (IsValid fl) (config_entry fl js) entry-IsValid cfg b h

  -- The states that calls of the block's methods reach, whether these succeed or not.
  pub data Reachable : MIntBlock F → Type 0 where
    started : Reachable (init fl)
    ic_set : {b : MIntBlock F} (i : ℕ) (x : F) → Reachable b → Reachable (set_ic_value fl b i x).0
    factor_set : {b : MIntBlock F} (i k : ℕ) → Reachable b → Reachable (set_time_factor b i k).0
    was_reset : {b : MIntBlock F} (action : ℕ) → Reachable b → Reachable (reset fl b action).0
    configured :
        {b : MIntBlock F} (cfg : List (String × V))
        → Reachable b
        → Reachable (config_self_from_json fl js b cfg).0

  -- Provided that the float 0 is not above 1 and not below -1, every integrator block that setters,
  -- resets and configurations reach, refused and failed ones included, has eight initial values,
  -- none above 1 or below -1, and eight time factors, each 100 or 10000.
  pub reachable_integrators-IsValid :
      IsIc fl (zero_float fl) → (b : MIntBlock F) → Reachable b → IsValid fl b
  reachable_integrators-IsValid z _ started = init-IsValid fl z
  reachable_integrators-IsValid z _ (ic_set i x r) =
      set_ic_value-IsValid fl _ i x (reachable_integrators-IsValid z _ r)
  reachable_integrators-IsValid z _ (factor_set i k r) =
      set_time_factor-IsValid fl _ i k (reachable_integrators-IsValid z _ r)
  reachable_integrators-IsValid z _ (was_reset action r) =
      reset-IsValid fl z _ action (reachable_integrators-IsValid z _ r)
  reachable_integrators-IsValid z _ (configured cfg r) =
      config-IsValid _ cfg (reachable_integrators-IsValid z _ r)
