-- ===== src/Uuid/Tests.antt =====
-- A UUID and a text without dashes.
use lucidac_firmware.Common.{ℕ, ◌≡◌, refl, leb, List, ◌∷◌, map, some, replicate, arith}
use lucidac_firmware.Json.{is_some}
use lucidac_firmware.Uuid.{to_char_array, from_string}
use lucidac_firmware.Uuid.RoundTrip.{
  swap_digits, from_string-to_char_array, digits_of, from_string-inside,
}

abbrev sample : List ℕ
sample = 0x2D ∷ 0x2F ∷ 0x75 ∷ replicate 13 0xC5

from_string-to_char_array_example :
    from_string (to_char_array sample) ≡ some (map swap_digits sample)
from_string-to_char_array_example = from_string-to_char_array sample refl (omega arith)

from_string-inside_example :
    is_some (from_string (replicate 36 b'a')) ≡ leb (digits_of (replicate 36 b'a')) 32
from_string-inside_example = from_string-inside (replicate 36 b'a') refl
