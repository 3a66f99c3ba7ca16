-- ===== src/IsNumber.antt =====
-- Whether a text consists of digits: lib/controller/src/utils/is_number.cpp. The empty text does.
use Prim.Native.Char.{Char, code}
use Prim.Native.String.{String, [], ◌∷◌}
use lucidac_firmware.Common.{leb, Bool, true, false, ◌&&◌, if◌then◌else◌}

-- `std::isdigit`, on ASCII.
abbrev pub is_digit : Char → Bool
is_digit c = leb 48 (code c) && leb (code c) 57

unfoldable pub is_number : String → Bool
is_number [] = true
is_number (c ∷ s) = let rest = is_number s in if is_digit c then rest else false
