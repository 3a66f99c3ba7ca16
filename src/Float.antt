-- ===== src/Float.antt =====
-- `float` and its operations, which the hardware gives: a parameter of the model. `lit m e` is the
-- float nearest to m / 10^e, as the compiler reads a literal.
use lucidac_firmware.Common.{ℕ, Bool, ◌||◌, ℤ, pos}

pub record FloatApi (F : Type 0) : Type 0 where
  pub lit : ℤ → ℕ → F
  pub lt : F → F → Bool
  pub eq : F → F → Bool
  pub add : F → F → F
  pub sub : F → F → F
  pub mul : F → F → F
  pub div : F → F → F
  pub fabs : F → F
  -- The conversion `static_cast<uint16_t>`.
  pub to_uint16 : F → ℕ

module _ {F : Type 0} (fl : FloatApi F) where
  abbrev pub zero_float : F
  zero_float = fl.lit (pos 0) 0

  abbrev pub one_float : F
  one_float = fl.lit (pos 1) 0

  abbrev pub le_float : F → F → Bool
  le_float x y = fl.lt x y || fl.eq x y
