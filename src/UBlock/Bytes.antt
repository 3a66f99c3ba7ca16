-- ===== src/UBlock/Bytes.antt =====
-- Numbers spelled by bytes, and what shifting and setting their bits does to them.
use lucidac_firmware.Common.{
  ℕ, suc, ◌+◌, ◌*◌, ◌/◌, ◌%◌, ◌^◌, ◌<◌, ◌≡◌, refl, bit_and, bit_or, List, [], ◌∷◌, ℤ, pos, negsuc,
  length, All, arith, bit_and_mask, bit_or_fields, ap, ◌∙◌,
}
use lucidac_firmware.UBlock.Hardware.{shift_5_left, or_last, put_selected}

-- The number that bytes spell, the first byte the most significant, behind a number.
abbrev pub value_after : ℕ → List ℕ → ℕ
value_after acc [] = acc
value_after acc (b ∷ bs) = value_after (acc * 256 + b) bs

abbrev pub value : List ℕ → ℕ
value bs = value_after 0 bs

-- The five bits of an output: the enable bit and the input.
abbrev pub field : ℤ → ℕ
field (pos n) = 16 + n % 16
field (negsuc n) = 0

-- The number with the fields as digits in base 32, the first output the least significant.
abbrev pub fields : List ℤ → ℕ
fields [] = 0
fields (z ∷ zs) = field z + 32 * fields zs

abbrev pub IsByte : ℕ → Type 0
IsByte b = b < 256

shifted_byte :
    (b n : ℕ)
    → IsByte n
    → bit_or (b * 2 ^ 5 % 2 ^ 8) (bit_and (n / 2 ^ 3) 0x1F) ≡ b % 8 * 32 + n / 8
shifted_byte b n h =
    let e : b * 2 ^ 5 % 2 ^ 8 ≡ b % 8 * 2 ^ 5 = omega arith in
    let small : n / 2 ^ 3 < 2 ^ 5 = omega arith in
    rw (bit_and_mask 5 (n / 2 ^ 3) 0x1F (omega arith), e)
      (omega (arith, bit_or_fields 5 (b % 8) (n / 2 ^ 3 % 2 ^ 5) (omega arith)))

pub value-shift_5_left :
    (acc b : ℕ) (bs : List ℕ)
    → All IsByte bs
    → value_after (32 * acc + b / 8) (shift_5_left (b ∷ bs)) ≡ 32 * value_after acc (b ∷ bs)
unfolding shift_5_left
value-shift_5_left acc b [] h = omega arith
value-shift_5_left acc b (n ∷ r) h =
    ap (λ t. value_after t (shift_5_left (n ∷ r))) (omega (arith, shifted_byte b n h.0))
    ∙ value-shift_5_left (acc * 256 + b) n r h.1

pub shift_5_left-IsByte : (bs : List ℕ) → All IsByte bs → All IsByte (shift_5_left bs)
unfolding shift_5_left
shift_5_left-IsByte [] h = tt
shift_5_left-IsByte (b ∷ []) h = (omega arith, tt)
shift_5_left-IsByte (b ∷ n ∷ r) h =
    (omega (arith, shifted_byte b n (h.1).0, h.1), shift_5_left-IsByte (n ∷ r) h.1)

length-or_last : (x : ℕ) (bs : List ℕ) → length (or_last x bs) ≡ length bs
unfolding or_last
length-or_last x [] = refl
length-or_last x (b ∷ []) = refl
length-or_last x (b ∷ n ∷ r) = ap suc (length-or_last x (n ∷ r))

pub length-shift_5_left : (bs : List ℕ) → length (shift_5_left bs) ≡ length bs
unfolding shift_5_left
length-shift_5_left [] = refl
length-shift_5_left (b ∷ []) = refl
length-shift_5_left (b ∷ n ∷ r) = ap suc (length-shift_5_left (n ∷ r))

or_enable_select :
    (b n : ℕ) → b % 32 ≡ 0 → bit_or (bit_or b 0b0001_0000) (bit_and n 0x0F) ≡ b + (16 + n % 16)
or_enable_select b n h =
    let e : b ≡ b / 32 * 2 ^ 5 = omega arith in
    let enabled : bit_or b 16 ≡ b + 16 =
      rw (ap (λ t. bit_or t 16) e) (omega (arith, bit_or_fields 5 (b / 32) 16 (omega arith))) in
    let f : b + 16 ≡ (b / 32 * 2 + 1) * 2 ^ 4 = omega arith in
    rw (enabled, bit_and_mask 4 n 0x0F (omega arith), ap (λ t. bit_or t (n % 2 ^ 4)) f)
      (omega (arith, bit_or_fields 4 (b / 32 * 2 + 1) (n % 2 ^ 4) (omega arith)))

-- What is added to a number of bytes whose lowest five bits are 0.
pub put_last :
    (acc b : ℕ) (bs : List ℕ) (z : ℤ)
    → value_after acc (b ∷ bs) % 32 ≡ 0
    → value_after acc (put_selected z (b ∷ bs)) ≡ value_after acc (b ∷ bs) + field z
unfolding put_selected or_last
put_last acc b [] (pos n) h = omega (arith, or_enable_select b n (omega arith))
put_last acc b (c ∷ []) (pos n) h = omega (arith, or_enable_select c n (omega arith))
put_last acc b (c ∷ d ∷ r) (pos n) h = put_last (acc * 256 + b) c (d ∷ r) (pos n) h
put_last acc b bs (negsuc n) h = omega arith

pub put_last-IsByte :
    (acc b : ℕ) (bs : List ℕ) (z : ℤ)
    → value_after acc (b ∷ bs) % 32 ≡ 0
    → All IsByte (b ∷ bs)
    → All IsByte (put_selected z (b ∷ bs))
unfolding put_selected or_last
put_last-IsByte acc b [] (pos n) h a = (omega (arith, or_enable_select b n (omega arith), a.0), tt)
put_last-IsByte acc b (c ∷ []) (pos n) h a =
    (a.0, (omega (arith, or_enable_select c n (omega arith), (a.1).0), tt))
put_last-IsByte acc b (c ∷ d ∷ r) (pos n) h a =
    (a.0, put_last-IsByte (acc * 256 + b) c (d ∷ r) (pos n) h a.1)
put_last-IsByte acc b bs (negsuc n) h a = a

pub length-put_selected : (z : ℤ) (bs : List ℕ) → length (put_selected z bs) ≡ length bs
unfolding put_selected
length-put_selected (pos n) bs =
    length-or_last (bit_and n 0x0F) (or_last 0b0001_0000 bs) ∙ length-or_last 0b0001_0000 bs
length-put_selected (negsuc n) bs = refl
