-- ===== src/Common/Bits.antt =====
-- Bits of machine words. Facts on `bit_and` and `bit_or` go bit by bit through `bit`.
use Prim.Native.Nat.{
  ℕ, zero, suc, ◌+◌, ◌*◌, ◌/◌, ◌%◌, ◌^◌, ◌-◌, ◌≤◌, ◌<◌, min, max, bit_and, bit_or, digits,
  bit_and-bitwise, bit_or-bitwise,
}
use mathlib.Core.Path.{◌≡◌, refl, sym, ap, ◌∙◌}
use mathlib.Core.Bool.{Bool, false, not, ◌&&◌, ◌||◌}
use native.Mathlib.Omega.{arith}
use native.Mathlib.Nat.{pow-suc, div-div-eq-div-mul, div-add-mod, mul_comm}
use lucidac_firmware.Common.Tests.{◌==◌, ltb, if◌then◌else◌}

-- The value of bit i of n.
abbrev pub bit : ℕ → ℕ → Bool
bit n zero = n % 2 == 1
bit n (suc i) = bit (n / 2) i

pub bit-zero : (i : ℕ) → bit 0 i ≡ false
bit-zero zero = refl
bit-zero (suc i) = bit-zero i

-- More fuel than the first number changes nothing.
module _ (rest : ℕ → ℕ) (digit : ℕ → ℕ → ℕ) where
  fuel_irrelevant :
      (k l a b : ℕ) → a ≤ k → a ≤ l → digits rest digit k a b ≡ digits rest digit l a b
  fuel_irrelevant zero zero a b hk hl = refl
  fuel_irrelevant zero (suc l) zero b hk hl = refl
  fuel_irrelevant zero (suc l) (suc a) b hk hl = absurd (omega arith)
  fuel_irrelevant (suc k) zero zero b hk hl = refl
  fuel_irrelevant (suc k) zero (suc a) b hk hl = absurd (omega arith)
  fuel_irrelevant (suc k) (suc l) zero b hk hl = refl
  fuel_irrelevant (suc k) (suc l) (suc a) b hk hl =
      omega (arith, fuel_irrelevant k l (suc a / 2) (b / 2) (omega arith) (omega arith))

or_zero : (b : ℕ) → bit_or 0 b ≡ b
or_zero b = bit_or-bitwise 0 b

and_zero : (b : ℕ) → bit_and 0 b ≡ 0
and_zero b = bit_and-bitwise 0 b

pub bit_or-halves : (a b : ℕ) → bit_or a b ≡ 2 * bit_or (a / 2) (b / 2) + max (a % 2) (b % 2)
bit_or-halves zero b = omega (arith, or_zero b, or_zero (b / 2))
bit_or-halves (suc a) b = omega (
  arith,
  bit_or-bitwise (suc a) b,
  bit_or-bitwise (suc a / 2) (b / 2),
  fuel_irrelevant (λ y. y) max a (suc a / 2) (suc a / 2) (b / 2) (omega arith) (omega arith),
)

pub bit_and-halves : (a b : ℕ) → bit_and a b ≡ 2 * bit_and (a / 2) (b / 2) + min (a % 2) (b % 2)
bit_and-halves zero b = omega (arith, and_zero b, and_zero (b / 2))
bit_and-halves (suc a) b = omega (
  arith,
  bit_and-bitwise (suc a) b,
  bit_and-bitwise (suc a / 2) (b / 2),
  fuel_irrelevant (λ y. 0) min a (suc a / 2) (suc a / 2) (b / 2) (omega arith) (omega arith),
)

or_half : (a b : ℕ) → bit_or a b / 2 ≡ bit_or (a / 2) (b / 2)
or_half a b = omega (arith, bit_or-halves a b)

and_half : (a b : ℕ) → bit_and a b / 2 ≡ bit_and (a / 2) (b / 2)
and_half a b = omega (arith, bit_and-halves a b)

pub bit-bit_or : (a b i : ℕ) → bit (bit_or a b) i ≡ (bit a i || bit b i)
bit-bit_or a b zero = ground (arith, bit_or-halves a b)
bit-bit_or a b (suc i) = rw or_half (bit-bit_or (a / 2) (b / 2) i)

pub bit-bit_and : (a b i : ℕ) → bit (bit_and a b) i ≡ (bit a i && bit b i)
bit-bit_and a b zero = ground (arith, bit_and-halves a b)
bit-bit_and a b (suc i) = rw and_half (bit-bit_and (a / 2) (b / 2) i)

-- Strong induction by a bound, since the halves of a number need not be smaller than its fuel.
and_none : (k a : ℕ) → a ≤ k → bit_and a 0 ≡ 0
and_none k zero h = and_zero 0
and_none zero (suc a) h = absurd (omega arith)
and_none (suc k) (suc a) h =
    omega (arith, bit_and-halves (suc a) 0, and_none k (suc a / 2) (omega arith))

or_none : (k a : ℕ) → a ≤ k → bit_or a 0 ≡ a
or_none k zero h = or_zero 0
or_none zero (suc a) h = absurd (omega arith)
or_none (suc k) (suc a) h =
    omega (arith, bit_or-halves (suc a) 0, or_none k (suc a / 2) (omega arith))

double_pow : (m k : ℕ) → m * 2 ^ suc k ≡ 2 * (m * 2 ^ k)
double_pow m k = omega (arith, ap (λ (p : ℕ). m * p) (pow-suc 2 k))

div_step : (k a : ℕ) → a / 2 ^ suc k ≡ a / 2 / 2 ^ k
div_step k a = rw (pow-suc 2 k, mul_comm (2 ^ k) 2) (sym (div-div-eq-div-mul a 2 (2 ^ k)))

mod_step : (k a : ℕ) → a % 2 ^ suc k ≡ 2 * (a / 2 % 2 ^ k) + a % 2
mod_step k a = omega (
  arith,
  div_step k a,
  div-add-mod a (2 ^ suc k),
  div-add-mod (a / 2) (2 ^ k),
  ap (λ (p : ℕ). p * (a / 2 ^ suc k)) (pow-suc 2 k),
  ap (λ (q : ℕ). 2 ^ k * q) (div_step k a),
)

-- `&` with the mask of the k lowest bits is the remainder by `2 ^ k`.
pub bit_and_mask : (k a mask : ℕ) → mask + 1 ≡ 2 ^ k → bit_and a mask ≡ a % 2 ^ k
bit_and_mask zero a zero h = omega (arith, and_none a a (omega arith))
bit_and_mask zero a (suc m) h = absurd (omega arith)
bit_and_mask (suc k) a m h =
    let p = pow-suc 2 k in
    let ih = bit_and_mask k (a / 2) (m / 2) (omega (arith, p)) in
    omega (arith, bit_and-halves a m, ih, p, mod_step k a)

-- `|` of a field above bit k and a value of k bits is their sum.
pub bit_or_fields : (k m a : ℕ) → a < 2 ^ k → bit_or (m * 2 ^ k) a ≡ m * 2 ^ k + a
bit_or_fields zero m a h = ground (arith, or_none m m)
bit_or_fields (suc k) m a h =
    let p = pow-suc 2 k in
    let ih = bit_or_fields k m (a / 2) (omega (arith, p)) in
    let d = double_pow m k in ground (arith, bit_or-halves (m * 2 ^ suc k) a, ih, d)

pub bit_or_fields_comm : (k m a : ℕ) → a < 2 ^ k → bit_or a (m * 2 ^ k) ≡ a + m * 2 ^ k
bit_or_fields_comm zero m a h = ground (arith, or_zero m)
bit_or_fields_comm (suc k) m a h =
    let p = pow-suc 2 k in
    let ih = bit_or_fields_comm k m (a / 2) (omega (arith, p)) in
    let d = double_pow m k in ground (arith, bit_or-halves a (m * 2 ^ suc k), ih, d)

-- `&` with a mask above bit k reads the bits above k only.
pub bit_and_high : (k a m : ℕ) → bit_and a (m * 2 ^ k) ≡ bit_and (a / 2 ^ k) m * 2 ^ k
bit_and_high zero a m = ground arith
bit_and_high (suc k) a m =
    let ih = bit_and_high k (a / 2) m in
    let e = double_pow (bit_and (a / 2 / 2 ^ k) m) k in
    rw div_step (ground (arith, bit_and-halves a (m * 2 ^ suc k), double_pow m k, ih, e))

-- `~a` on w bits.
abbrev pub bit_not : ℕ → ℕ → ℕ
bit_not w a = 2 ^ w - 1 - a

pub bit-pow : (i j : ℕ) → bit (2 ^ i) j ≡ (i == j)
bit-pow zero zero = refl
bit-pow zero (suc j) = ground (arith, bit-zero j)
bit-pow (suc i) zero = ground (arith, pow-suc 2 i)
bit-pow (suc i) (suc j) =
    let half : 2 ^ suc i / 2 ≡ 2 ^ i = omega (arith, pow-suc 2 i) in
    rw half (bit-pow i j ∙ ground arith)

pub bit-not : (w a j : ℕ) → a < 2 ^ w → bit (bit_not w a) j ≡ (ltb j w && not (bit a j))
bit-not zero a j h = let e : bit_not 0 a ≡ 0 = omega arith in rw e (bit-zero j ∙ ground arith)
bit-not (suc w) a zero h = ground (arith, pow-suc 2 w)
bit-not (suc w) a (suc j) h =
    let half : bit_not (suc w) a / 2 ≡ bit_not w (a / 2) = omega (arith, pow-suc 2 w) in
    rw half (bit-not w (a / 2) j (omega (arith, pow-suc 2 w)) ∙ ground arith)

-- Two numbers with the same bits are equal.
pub bit_ext : (w a b : ℕ) → a < 2 ^ w → b < 2 ^ w → ((j : ℕ) → bit a j ≡ bit b j) → a ≡ b
bit_ext zero a b ha hb e = omega arith
bit_ext (suc w) a b ha hb e =
    let p = pow-suc 2 w in
    let ih = bit_ext w (a / 2) (b / 2) (omega (arith, p)) (omega (arith, p)) (λ j. e (suc j)) in
    ground (arith, e 0, ih)

pub bit_and_pow : (a i : ℕ) → bit_and a (2 ^ i) ≡ (if bit a i then 2 ^ i else 0)
bit_and_pow a zero = ground (arith, bit_and_mask 1 a 1 (omega arith))
bit_and_pow a (suc i) =
    let half : 2 ^ suc i / 2 ≡ 2 ^ i = omega (arith, pow-suc 2 i) in
    let low : 2 ^ suc i % 2 ≡ 0 = omega (arith, pow-suc 2 i) in
    rw (bit_and-halves a (2 ^ suc i), half, low, bit_and_pow (a / 2) i)
      (ground (arith, pow-suc 2 i))

pub bit_or-lt : (w a b : ℕ) → a < 2 ^ w → b < 2 ^ w → bit_or a b < 2 ^ w
bit_or-lt zero zero zero ha hb = ground (arith, or_zero 0)
bit_or-lt zero (suc a) b ha hb = absurd (omega arith)
bit_or-lt zero zero (suc b) ha hb = absurd (omega arith)
bit_or-lt (suc w) a b ha hb =
    let p = pow-suc 2 w in
    omega (
      arith,
      bit_or-halves a b,
      p,
      bit_or-lt w (a / 2) (b / 2) (omega (arith, p)) (omega (arith, p)),
    )

pub bit_and-lt : (w a b : ℕ) → a < 2 ^ w → bit_and a b < 2 ^ w
bit_and-lt zero zero b ha = ground (arith, and_zero b)
bit_and-lt zero (suc a) b ha = absurd (omega arith)
bit_and-lt (suc w) a b ha =
    let p = pow-suc 2 w in
    omega (arith, bit_and-halves a b, p, bit_and-lt w (a / 2) (b / 2) (omega (arith, p)))
