-- ===== src/Json.antt =====
-- What the firmware uses of ArduinoJson and of `std::stoul`, as a parameter of the model, and the
-- shape of the functions that read a configuration: loops that stop at the first status that is
-- not a success.
use Prim.Native.String.{String}
use lucidac_firmware.Common.{
  ℕ, ◌<◌, ◌^◌, ◌≡◌, Bool, true, false, Option, none, some, List, [], ◌∷◌, if◌then◌else◌, Bool-cases,
  inl, inr, ℤ,
}
use lucidac_firmware.Status.{Status, success, is_ok}

-- V is `JsonVariantConst`. `uint8? v` is `v.as<uint8_t>()` where `v.is<uint8_t>()`, and so on;
-- `uint?` is for
-- `unsigned int`; `to_float` is `as<float>()` on any value, and
-- so are `to_uint64`, `to_bool`, `to_int8` and `to_text` for `uint64_t`, `bool`, `int8_t` and
-- `std::string`. `stoul` is `none` where `std::stoul`
-- throws. The last seven are the values that the serialisers add.
pub record JsonApi (F V : Type 0) : Type 0 where
  pub is_null : V → Bool
  pub uint8? : V → Option ℕ
  pub uint? : V → Option ℕ
  pub bool? : V → Option Bool
  pub float? : V → Option F
  pub to_float : V → F
  pub to_uint64 : V → ℕ
  pub to_bool : V → Bool
  pub to_int8 : V → ℤ
  pub to_text : V → String
  pub text? : V → Option String
  pub array? : V → Option (List V)
  pub object? : V → Option (List (String × V))
  pub stoul : String → Option ℕ
  pub null : V
  pub of_uint8 : ℕ → V
  pub of_bool : Bool → V
  pub of_float : F → V
  pub of_array : List V → V
  pub of_uint : ℕ → V
  pub of_object : List (String × V) → V

-- The documented behaviour that the round trips rest on: what was added is what is read.
pub record JsonLaws {F V : Type 0} (js : JsonApi F V) : Type 0 where
  pub null-is_null : js.is_null js.null ≡ true
  pub uint8-is_null : (n : ℕ) → js.is_null (js.of_uint8 n) ≡ false
  pub bool-is_null : (b : Bool) → js.is_null (js.of_bool b) ≡ false
  pub array-is_null : (vs : List V) → js.is_null (js.of_array vs) ≡ false
  pub uint8-uint8 : (n : ℕ) → n < 2 ^ 8 → js.uint8? (js.of_uint8 n) ≡ some n
  pub bool-bool : (b : Bool) → js.bool? (js.of_bool b) ≡ some b
  pub array-array : (vs : List V) → js.array? (js.of_array vs) ≡ some vs
  pub array-object : (vs : List V) → js.object? (js.of_array vs) ≡ none
  pub float-float : (x : F) → js.float? (js.of_float x) ≡ some x
  pub uint-uint : (n : ℕ) → n < 2 ^ 32 → js.uint? (js.of_uint n) ≡ some n
  pub object-object : (es : List (String × V)) → js.object? (js.of_object es) ≡ some es

abbrev pub is_some {ℓ} : {A : Type ℓ} → Option A → Bool
is_some none = false
is_some (some a) = true

abbrev pub or_else {ℓ} : {A : Type ℓ} → Option A → A → A
or_else none d = d
or_else (some a) d = a

-- How a function ends: it returns a status, or an exception leaves it.
pub data Outcome : Type 0 where
  returned : Status → Outcome
  thrown : Outcome

abbrev pub passed : Outcome → Bool
passed (returned s) = is_ok s
passed thrown = false

abbrev pub ok : Outcome
ok = returned success

-- `for (x : xs) { ... return status if not ok ... } return success`.
abbrev pub for_each {ℓ κ} :
    {A : Type ℓ} {S : Type κ} → (A → S → S × Outcome) → List A → S → S × Outcome
for_each body [] s = (s, ok)
for_each body (x ∷ xs) s =
    let (s', o) = body x s in if passed o then for_each body xs s' else (s', o)

-- The shape of two consecutive steps, the second taken only after a success.
abbrev pub and_then {κ} : {S : Type κ} → S × Outcome → (S → S × Outcome) → S × Outcome
and_then (s, o) f = if passed o then f s else (s, o)

-- What every round keeps, the loop keeps, wherever it stops.
pub for_each_inv {ℓ κ ι} :
    {A : Type ℓ} {S : Type κ} (P : S → Type ι) (body : A → S → S × Outcome)
    → ((x : A) (s : S) → P s → P (body x s).0)
    → (xs : List A) (s : S) → P s
    → P (for_each body xs s).0
for_each_inv P body keep [] s h = h
for_each_inv P body keep (x ∷ xs) s h = elim (Bool-cases (passed (body x s).1)) [
  | inl more ↦ rw more (for_each_inv P body keep xs (body x s).0 (keep x s h))
  | inr stop ↦ rw stop (keep x s h)
]
