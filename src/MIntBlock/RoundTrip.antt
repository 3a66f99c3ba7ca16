-- ===== src/MIntBlock/RoundTrip.antt =====
-- What becomes of the configuration that an integrator block prints when another one reads it.
use Prim.Native.String.{String}
use lucidac_firmware.Common.{
  ℕ, zero, suc, ◌+◌, ◌^◌, ◌≤◌, ◌<◌, ◌≡◌, refl, le→leb_false, true, List, [], ◌∷◌, map, arith, ap,
  ap₂, some, length, length-set, get_or, set, get_or-set_self, get_or-set_ne, get_or_ext,
  All-get_or_in, count_from, inl, inr, ◌∙◌,
}
use native.Mathlib.Decide.{ℕ_discrete}
use lucidac_firmware.Float.{FloatApi, zero_float}
use lucidac_firmware.Json.{JsonApi, JsonLaws, ok, for_each}
use lucidac_firmware.MIntBlock.{MIntBlock, set_ic_value, set_time_factor}
use lucidac_firmware.MIntBlock.Valid.{IsTimeFactor, IsIc, IsValid}
use lucidac_firmware.CBlock.Config.{member}
use lucidac_firmware.MIntBlock.Config.{
  config_ic, config_k, config_element, config_elements_from_json, config_entry,
  config_self_from_json, config_self_to_json, member_of, element_to_json,
}

-- The entries of one array copied into another at the indices of a list.
module _ {A : Type 0} (source : List A) (d : A) where
  abbrev copied : List ℕ → List A → List A
  copied [] xs = xs
  copied (i ∷ is) xs = copied is (set xs i (get_or source i d))

  length-copied : (is : List ℕ) (xs : List A) → length (copied is xs) ≡ length xs
  length-copied [] xs = refl
  length-copied (i ∷ is) xs =
      omega (
        arith,
        length-copied is (set xs i (get_or source i d)),
        length-set xs i (get_or source i d),
      )

  get_or-copied_before :
      (n k j : ℕ) (xs : List A) → j < k → get_or (copied (count_from k n) xs) j d ≡ get_or xs j d
  get_or-copied_before zero k j xs h = refl
  get_or-copied_before (suc n) k j xs h =
      get_or-copied_before n (suc k) j (set xs k (get_or source k d)) (omega arith)
      ∙ get_or-set_ne xs k j (get_or source k d) d (omega arith)

  get_or-copied :
      (n k j : ℕ) (xs : List A)
      → k ≤ j
      → j < k + n
      → k + n ≤ length xs
      → get_or (copied (count_from k n) xs) j d ≡ get_or source j d
  get_or-copied zero k j xs lo hi l = absurd (omega arith)
  get_or-copied (suc n) k j xs lo hi l = elim (ℕ_discrete k j) [
    | yes e ↦ rw (← e) (
        get_or-copied_before n (suc k) k (set xs k (get_or source k d)) (omega arith)
        ∙ get_or-set_self xs k (get_or source k d) d (omega arith))
    | no ne ↦
        get_or-copied n (suc k) j (set xs k (get_or source k d)) (omega arith) (omega arith)
          (omega (arith, length-set xs k (get_or source k d)))
  ]

  copied_all :
      (n : ℕ) (xs : List A)
      → length xs ≡ n
      → length source ≡ n
      → copied (count_from 0 n) xs ≡ source
  copied_all n xs e f =
      get_or_ext d (copied (count_from 0 n) xs) source
        (omega (arith, length-copied (count_from 0 n) xs))
        (λ i h.
          get_or-copied n 0 i xs (omega arith) (omega (arith, length-copied (count_from 0 n) xs))
            (omega arith))

module _ {F : Type 0} (fl : FloatApi F) where
  set_ic_value-IsIc :
      (b : MIntBlock F) (i : ℕ) (x : F)
      → i < 8
      → IsIc fl x
      → set_ic_value fl b i x ≡ (record b { ic_values = set b.ic_values i x }, true)
  unfolding set_ic_value
  set_ic_value-IsIc b i x h (above, below) = rw (le→leb_false 8 i h, above, below) refl

set_time_factor-IsTimeFactor :
    {F : Type 0} (b : MIntBlock F) (i k : ℕ)
    → i < 8
    → IsTimeFactor k
    → set_time_factor b i k ≡ (record b { time_factors = set b.time_factors i k }, true)
unfolding set_time_factor
set_time_factor-IsTimeFactor b i k h (inl e) = rw (e, le→leb_false 8 i h) refl
set_time_factor-IsTimeFactor b i k h (inr e) = rw (e, le→leb_false 8 i h) refl

factor_bound : (k : ℕ) → IsTimeFactor k → k < 2 ^ 32
factor_bound k (inl e) = omega arith
factor_bound k (inr e) = omega arith

module _ {F V : Type 0} (fl : FloatApi F) (js : JsonApi F V) (laws : JsonLaws js) (a : MIntBlock F)
    (valid : IsValid fl a) where
  abbrev copy_to : List ℕ → MIntBlock F → MIntBlock F
  copy_to is b = record {
    ic_values = copied a.ic_values (zero_float fl) is b.ic_values;
    time_factors = copied a.time_factors 0 is b.time_factors;
  }

  member-of_object :
      (name : String) (es : List (String × V))
      → member_of fl js name (js.of_object es) ≡ member name es
  member-of_object name es = rw (member_of, laws.object-object es) refl

  read_ic :
      (b : MIntBlock F) (i : ℕ) (x : F)
      → i < 8
      → IsIc fl x
      → config_ic fl js b i (js.of_float x) ≡ (record b { ic_values = set b.ic_values i x }, ok)
  unfolding config_ic
  read_ic b i x h ic = rw (config_ic, laws.float-float x, set_ic_value-IsIc fl b i x h ic) refl

  read_k :
      (b : MIntBlock F) (i k : ℕ)
      → i < 8
      → IsTimeFactor k
      → config_k fl js b i (js.of_uint k) ≡ (record b { time_factors = set b.time_factors i k }, ok)
  unfolding config_k
  read_k b i k h is =
      rw (config_k, laws.uint-uint k (factor_bound k is), set_time_factor-IsTimeFactor b i k h is)
        refl

  read_members :
      (element : V) (b : MIntBlock F) (i : ℕ) (x : F) (k : ℕ)
      → i < 8
      → IsIc fl x
      → IsTimeFactor k
      → member_of fl js "ic" element ≡ some (js.of_float x)
      → member_of fl js "k" element ≡ some (js.of_uint k)
      → config_element fl js element (b, i) ≡ (
        (
          record b { ic_values = set b.ic_values i x; time_factors = set b.time_factors i k },
          i + 1,
        ),
        ok,
      )
  unfolding config_element
  read_members element b i x k h ic is e f =
      rw
        (
          config_element,
          e,
          read_ic b i x h ic,
          f,
          read_k (record b { ic_values = set b.ic_values i x }) i k h is,
        )
        refl

  read_element :
      (b : MIntBlock F) (i : ℕ)
      → i < 8
      → config_element fl js (element_to_json fl js a i) (b, i) ≡ ((copy_to (i ∷ []) b, suc i), ok)
  unfolding element_to_json
  read_element b i h =
      read_members (element_to_json fl js a i) b i (get_or a.ic_values i (zero_float fl))
        (get_or a.time_factors i 0) h
        (All-get_or_in (IsIc fl) a.ic_values i (zero_float fl) (omega (arith, valid.ics_length))
          valid.ics)
        (All-get_or_in IsTimeFactor a.time_factors i 0 (omega (arith, valid.factors_length))
          valid.factors)
        (member-of_object "ic" _) (member-of_object "k" _)
      ∙ ap (λ t. ((copy_to (i ∷ []) b, t), ok)) (omega arith)

  read_elements :
      (n i : ℕ) (b : MIntBlock F)
      → i + n ≤ 8
      → for_each (config_element fl js) (map (element_to_json fl js a) (count_from i n)) (b, i)
        ≡ ((copy_to (count_from i n) b, i + n), ok)
  read_elements zero i b h = ap (λ t. ((b, t), ok)) (omega arith)
  read_elements (suc n) i b h = rw (read_element b i (omega arith)) (
      read_elements n (suc i) (copy_to (i ∷ []) b) (omega arith)
      ∙ ap (λ t. ((copy_to (count_from i (suc n)) b, t), ok)) (omega arith))

  copied_back : (b : MIntBlock F) → IsValid fl b → copy_to (count_from 0 8) b ≡ a
  copied_back b valid_b =
      ap₂ (λ x y. record { ic_values = x; time_factors = y })
        (copied_all a.ic_values (zero_float fl) 8 b.ic_values valid_b.ics_length valid.ics_length)
        (copied_all a.time_factors 0 8 b.time_factors valid_b.factors_length valid.factors_length)

  read_printed :
      (b : MIntBlock F) (elements : List V)
      → elements ≡ map (element_to_json fl js a) (count_from 0 8)
      → IsValid fl b
      → config_elements_from_json fl js b (js.of_array elements) ≡ (a, ok)
  unfolding config_elements_from_json
  read_printed b elements e valid_b =
      rw
        (config_elements_from_json, laws.array-array elements, e, read_elements 8 0 b (omega arith))
        (ap (λ t. (t, ok)) (copied_back b valid_b))

  -- The configuration that a valid integrator block prints is accepted by every other one, and it
  -- then has the initial values and the time factors of the first. The JSON library has to return
  -- the arrays, objects, floats and integers that were added to it.
  pub config_self-to_json_integrators :
      (b : MIntBlock F)
      → IsValid fl b
      → config_self_from_json fl js b (config_self_to_json fl js a) ≡ (a, ok)
  unfolding config_self_from_json config_self_to_json config_entry
  config_self-to_json_integrators b valid_b =
      rw (read_printed b (map (element_to_json fl js a) (count_from 0 8)) refl valid_b) refl
