-- ===== src/Samples.antt =====
-- Concrete parameters at which the tests run: `float` as whole thousandths, and a small type of JSON
-- values for ArduinoJson.
use Prim.Native.String.{String}
use lucidac_firmware.Common.{
  ℕ, ◌+◌, ◌*◌, ◌/◌, ◌-◌, ◌^◌, ◌%◌, ◌==◌, ltb, leb, ◌≡◌, refl, ap, Bool, true, false, ◌&&◌, ◌||◌,
  not, if◌then◌else◌, arith, Option, none, some, List, [], ◌∷◌, ℤ, pos, negsuc,
}
use lucidac_firmware.Float.{FloatApi}
use lucidac_firmware.Json.{JsonApi, JsonLaws}

abbrev magnitude : ℤ → ℕ
magnitude (pos n) = n
magnitude (negsuc n) = n + 1

abbrev negative : ℤ → Bool
negative (pos n) = false
negative (negsuc n) = true

abbrev signed : Bool → ℕ → ℤ
signed s n = if s && not (n == 0) then negsuc (n - 1) else pos n

abbrev plus : ℤ → ℤ → ℤ
plus a b =
    if negative a
    then (if negative b
        then signed true (magnitude a + magnitude b)
        else if leb (magnitude a) (magnitude b)
        then pos (magnitude b - magnitude a)
        else signed true (magnitude a - magnitude b))
    else if negative b
    then (if leb (magnitude b) (magnitude a)
        then pos (magnitude a - magnitude b)
        else signed true (magnitude b - magnitude a))
    else pos (magnitude a + magnitude b)

abbrev opposite : Bool → Bool → Bool
opposite a b = (a && not b) || (not a && b)

abbrev pub thousandths : FloatApi ℤ
thousandths = record {
  lit = λ m e. signed (negative m) (magnitude m * 1000 / 10 ^ e);
  lt = λ a b.
      (negative a && not (negative b))
      || ((not (negative a) && (not (negative b) && ltb (magnitude a) (magnitude b)))
          || (negative a && (negative b && ltb (magnitude b) (magnitude a))));
  eq = λ a b. magnitude a == magnitude b && not (opposite (negative a) (negative b));
  add = plus;
  sub = λ a b. plus a (signed (not (negative b)) (magnitude b));
  mul = λ a b. signed (opposite (negative a) (negative b)) (magnitude a * magnitude b / 1000);
  div = λ a b. signed (opposite (negative a) (negative b)) (magnitude a * 1000 / magnitude b);
  fabs = λ a. pos (magnitude a);
  to_uint16 = λ a. magnitude a / 1000 % 2 ^ 16;
}

mutual
  pub data Value : Type 0 where
    nothing : Value
    number : ℕ → Value
    truth : Bool → Value
    real : ℤ → Value
    text : String → Value
    array : Values → Value
    object : Entries → Value

  pub data Values : Type 0 where
    end : Values
    item : Value → Values → Values

  pub data Entries : Type 0 where
    done : Entries
    entry : String → Value → Entries → Entries

abbrev pub values : List Value → Values
values [] = end
values (v ∷ vs) = item v (values vs)

abbrev pub entries : List (String × Value) → Entries
entries [] = done
entries ((k, v) ∷ vs) = entry k v (entries vs)

abbrev pub list : Values → List Value
list end = []
list (item v vs) = v ∷ list vs

abbrev pairs : Entries → List (String × Value)
pairs done = []
pairs (entry k v es) = (k, v) ∷ pairs es

list-values : (vs : List Value) → list (values vs) ≡ vs
list-values [] = refl
list-values (v ∷ vs) = ap (λ t. v ∷ t) (list-values vs)

pairs-entries : (es : List (String × Value)) → pairs (entries es) ≡ es
pairs-entries [] = refl
pairs-entries ((k, v) ∷ es) = ap (λ t. (k, v) ∷ t) (pairs-entries es)

abbrev as_number : Value → Option ℕ
as_number (number n) = if ltb n 256 then some n else none
as_number _ = none

abbrev as_uint : Value → Option ℕ
as_uint (number n) = if ltb n (2 ^ 32) then some n else none
as_uint _ = none

abbrev as_array : Value → Option (List Value)
as_array (array vs) = some (list vs)
as_array _ = none

abbrev as_object : Value → Option (List (String × Value))
as_object (object es) = some (pairs es)
as_object _ = none

abbrev as_truth : Value → Option Bool
as_truth (truth b) = some b
as_truth _ = none

abbrev as_real : Value → Option ℤ
as_real (real x) = some x
as_real (number n) = some (pos (n * 1000))
as_real _ = none

abbrev real_or_zero : Value → ℤ
real_or_zero (real x) = x
real_or_zero (number n) = pos (n * 1000)
real_or_zero _ = pos 0

abbrev as_text : Value → Option String
as_text (text s) = some s
as_text _ = none

abbrev number_or_zero : Value → ℕ
number_or_zero (number n) = n % 2 ^ 64
number_or_zero _ = 0

abbrev truth_or_false : Value → Bool
truth_or_false (truth b) = b
truth_or_false _ = false

abbrev small_or_zero : Value → ℤ
small_or_zero (number n) = if ltb n 128 then pos n else pos 0
small_or_zero _ = pos 0

abbrev text_or_null : Value → String
text_or_null (text s) = s
text_or_null _ = "null"

abbrev is_nothing : Value → Bool
is_nothing nothing = true
is_nothing _ = false

-- Keys are read as plain text, and no text reads as a number here.
abbrev pub plain : JsonApi ℤ Value
plain = record {
  is_null = is_nothing;
  uint8? = as_number;
  uint? = as_uint;
  bool? = as_truth;
  float? = as_real;
  to_float = real_or_zero;
  to_uint64 = number_or_zero;
  to_bool = truth_or_false;
  to_int8 = small_or_zero;
  to_text = text_or_null;
  text? = as_text;
  array? = as_array;
  object? = as_object;
  stoul = λ s. none;
  null = nothing;
  of_uint8 = number;
  of_bool = truth;
  of_float = real;
  of_array = λ vs. array (values vs);
  of_uint = number;
  of_object = λ es. object (entries es);
}

pub plain-JsonLaws : JsonLaws plain
plain-JsonLaws = record {
  null-is_null = refl;
  uint8-is_null = λ n. refl;
  bool-is_null = λ b. refl;
  array-is_null = λ vs. refl;
  uint8-uint8 = λ n h. ground arith;
  bool-bool = λ b. refl;
  array-array = λ vs. ap some (list-values vs);
  array-object = λ vs. refl;
  float-float = λ x. refl;
  uint-uint = λ n h. ground arith;
  object-object = λ es. ap some (pairs-entries es);
}
