-- ===== src/Entity.antt =====
-- Entities: lib/platform-lucidac/src/entity/base.h and version.h.
use lucidac_firmware.Common.{ℕ, ◌==◌, ltb, bit_and, Bool, not, ◌&&◌, ◌||◌, if◌then◌else◌}

pub record Version : Type 0 where
  pub major : ℕ
  pub minor : ℕ
  pub patch : ℕ

unfoldable pub version_eq : Version → Version → Bool
version_eq l r = l.major == r.major && (l.minor == r.minor && l.patch == r.patch)

unfoldable pub version_lt : Version → Version → Bool
version_lt l r =
    if not (l.major == r.major)
    then ltb l.major r.major
    else if not (l.minor == r.minor)
    then ltb l.minor r.minor
    else ltb l.patch r.patch

unfoldable pub version_le : Version → Version → Bool
unfolding version_lt
version_le l r = not (version_lt r l)

-- `operator bool` of a version.
unfoldable pub version_set : Version → Bool
version_set v = not (v.major == 0) || (not (v.minor == 0) || not (v.patch == 0))

abbrev pub v : ℕ → ℕ → Version
v major minor = record { major = major; minor = minor; patch = 0 }

pub data EntityClass : Type 0 where
  unknown carrier cluster m_block u_block c_block i_block sh_block front_panel ctrl_block :
      EntityClass

abbrev pub class_code : EntityClass → ℕ
class_code EntityClass.unknown = 0
class_code EntityClass.carrier = 1
class_code EntityClass.cluster = 2
class_code EntityClass.m_block = 3
class_code EntityClass.u_block = 4
class_code EntityClass.c_block = 5
class_code EntityClass.i_block = 6
class_code EntityClass.sh_block = 7
class_code EntityClass.front_panel = 8
class_code EntityClass.ctrl_block = 9

-- The six bytes at the head of an entity's EEPROM. The class is kept as the byte.
pub record EntityClassifier : Type 0 where
  pub class_ : ℕ
  pub type : ℕ
  pub version : Version
  pub variant : ℕ

abbrev pub default_ : ℕ
default_ = 1

-- `operator bool` of a classifier.
unfoldable pub classifier_set : EntityClassifier → Bool
unfolding version_set
classifier_set c =
    not (c.class_ == 0) && (not (c.type == 0) && (version_set c.version && not (c.variant == 0)))

abbrev pub circuit_reset : ℕ
circuit_reset = 2

abbrev pub calibration_reset : ℕ
calibration_reset = 4

abbrev pub overload_reset : ℕ
overload_reset = 8

abbrev pub everything : ℕ
everything = 0xFF

-- `ResetAction::has`, on the action's `uint8_t`.
unfoldable pub has : ℕ → ℕ → Bool
has action other = not (bit_and other action == 0)
