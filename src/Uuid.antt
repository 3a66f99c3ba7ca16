-- ===== src/Uuid.antt =====
-- UUIDs: lib/controller/src/utils/uuid.h and uuid.cpp. A text is the list of its characters' codes.
pub mod RoundTrip
mod Tests
use lucidac_firmware.Json.{JsonApi, is_some, or_else}
use lucidac_firmware.Common.{
  ℕ, zero, suc, ◌+◌, ◌-◌, ◌*◌, ◌/◌, ◌%◌, ◌^◌, ◌==◌, leb, ltb, bit_or, Bool, true, false, not, ◌&&◌,
  map, if◌then◌else◌, List, [], ◌∷◌, ◌++◌, Option, none, some, length, get_or, set, replicate,
}

abbrev pub dash : ℕ
dash = b'-'

abbrev pub hex_digit : ℕ → ℕ
hex_digit n = if ltb n 10 then b'0' + n else b'a' - 10 + n

abbrev pub has_dash : ℕ → Bool
has_dash i = i % 2 == 0 && (leb 4 i && leb i 10)

-- The characters of the bytes that are left, the first of which has the index i. The low digit of a
-- byte comes first.
unfoldable pub to_chars_from : ℕ → List ℕ → List ℕ
to_chars_from i [] = []
to_chars_from i (xx ∷ ar) =
    let digits = hex_digit (xx % 16) ∷ hex_digit (xx / 16 % 16) ∷ to_chars_from (i + 1) ar in
    if has_dash i then dash ∷ digits else digits

unfoldable pub to_char_array : List ℕ → List ℕ
unfolding to_chars_from
to_char_array ar = to_chars_from 0 ar

unfoldable pub chartoi : ℕ → ℕ
chartoi x =
    if leb b'0' x && leb x b'9'
    then x - b'0'
    else if leb b'a' x && leb x b'f'
    then x - b'a' + 10
    else if leb b'A' x && leb x b'F'
    then x - b'A' + 10
    else 0

-- The state of the loop in `fromString`.
pub record Scan : Type 0 where
  pub first_digit : Bool
  pub index : ℕ
  pub ar : List ℕ

abbrev pub put_digit : Scan → ℕ → Scan
put_digit s c =
    if s.first_digit
    then record {
      first_digit = false;
      index = s.index;
      ar = set s.ar s.index (chartoi c * 2 ^ 4 % 2 ^ 8);
    }
    else record {
      first_digit = true;
      index = s.index + 1;
      ar = set s.ar s.index (bit_or (get_or s.ar s.index 0) (chartoi c));
    }

-- The loop over the characters that are left; `none` where it writes behind the 16 bytes.
unfoldable pub scan : Scan → List ℕ → Option (List ℕ)
unfolding chartoi
scan s [] = some s.ar
scan s (c ∷ cs) = elim (c == dash) [
  | true ↦ scan s cs
  | false ↦ elim (leb 16 s.index) [ true ↦ none | false ↦ scan (put_digit s c) cs ]
]

abbrev pub no_uuid : List ℕ
no_uuid = replicate 16 0

unfoldable pub from_string : List ℕ → Option (List ℕ)
unfolding scan
from_string str =
    if not (length str == 36)
    then some no_uuid
    else scan record { first_digit = true; index = 0; ar = no_uuid } str

-- `allZero`, the loop over the bytes that are left.
unfoldable pub all_zero : List ℕ → Bool
all_zero [] = true
all_zero (b ∷ ar) = b == 0 && all_zero ar

-- Reading an array or a text into a UUID: what `fromString` gives for a text is dropped.
unfoldable pub from_json : {F V : Type 0} → JsonApi F V → List ℕ → V → List ℕ
from_json js ar src = if is_some (js.text? src) then ar else elim (js.array? src) [
  | none ↦ ar
  | some vs ↦ if not (length vs == 16) then ar else map (λ v. or_else (js.uint8? v) 0) vs
]
