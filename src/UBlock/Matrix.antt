-- ===== src/UBlock/Matrix.antt =====
-- What the bytes that a U-block sends to its crossbar chips say: five bits for each output.
use lucidac_firmware.Common.{
  ℕ, zero, suc, ◌+◌, ◌*◌, ◌/◌, ◌%◌, ◌^◌, ◌<◌, ◌≤◌, ◌≡◌, refl, List, [], ◌∷◌, ℤ, pos, negsuc, length,
  length-drop, get_or, replicate, All, arith, ap, drop, subst, ◌∙◌, sym,
}
use native.Mathlib.Nat.{pow-suc, pow-succ', zero-div, div-div-eq-div-mul}
use lucidac_firmware.UBlock.{disconnected}
use lucidac_firmware.UBlock.Hardware.{shift_5_left, put_selected, fill, matrix_bytes}
use lucidac_firmware.UBlock.Bytes.{
  value_after, value, field, fields, IsByte, value-shift_5_left, shift_5_left-IsByte,
  length-shift_5_left, put_last, put_last-IsByte, length-put_selected,
}

value-ge : (acc : ℕ) (bs : List ℕ) → acc * 256 ^ length bs ≤ value_after acc bs
value-ge acc [] = omega arith
value-ge acc (b ∷ bs) =
    omega (arith, value-ge (acc * 256 + b) bs, ap (λ (t : ℕ). acc * t) (pow-suc 256 (length bs)))

record Spells (n : ℕ) (bs : List ℕ) : Type 0 where
  size : length bs ≡ 20
  bytes : All IsByte bs
  spelled : value bs ≡ n

put_selected-Spells :
    (n : ℕ) (z : ℤ) (bs : List ℕ)
    → Spells (32 * n) bs
    → Spells (field z + 32 * n) (put_selected z bs)
put_selected-Spells n z [] s = absurd (omega (arith, s.size))
put_selected-Spells n z (b ∷ bs) s = record {
  size = length-put_selected z (b ∷ bs) ∙ s.size;
  bytes = put_last-IsByte 0 b bs z (omega (arith, s.spelled)) s.bytes;
  spelled = omega (arith, put_last 0 b bs z (omega (arith, s.spelled)), s.spelled);
}

head-lt : (n b : ℕ) (bs : List ℕ) → n < 32 ^ 31 → Spells n (b ∷ bs) → b < 8
head-lt n b bs h s = omega (
  arith,
  value-ge (0 * 256 + b) bs,
  ap (λ (t : ℕ). (0 * 256 + b) * 256 ^ t) {x = length bs} {y = 19} (omega (arith, s.size)),
  s.spelled,
)

shift_5_left-Spells :
    (n : ℕ) (bs : List ℕ) → n < 32 ^ 31 → Spells n bs → Spells (32 * n) (shift_5_left bs)
shift_5_left-Spells n [] h s = absurd (omega (arith, s.size))
shift_5_left-Spells n (b ∷ bs) h s = record {
  size = length-shift_5_left (b ∷ bs) ∙ s.size;
  bytes = shift_5_left-IsByte (b ∷ bs) s.bytes;
  spelled =
      ap (λ (t : ℕ). value_after t (shift_5_left (b ∷ bs))) (omega (arith, head-lt n b bs h s))
      ∙ (value-shift_5_left 0 b bs s.bytes.1 ∙ ap (λ (t : ℕ). 32 * t) s.spelled);
}

field-lt : (z : ℤ) → field z < 32
field-lt (pos n) = omega arith
field-lt (negsuc n) = omega arith

fields-lt : (k : ℕ) (zs : List ℤ) → length zs ≤ k → fields zs < 32 ^ k
fields-lt zero [] h = omega arith
fields-lt zero (z ∷ zs) h = absurd (omega arith)
fields-lt (suc k) [] h = omega (arith, pow-suc 32 k, fields-lt k [] (omega arith))
fields-lt (suc k) (z ∷ zs) h = omega (arith, pow-suc 32 k, fields-lt k zs (omega arith), field-lt z)

fields-drop :
    (zs : List ℤ) (k : ℕ)
    → k < length zs
    → fields (drop k zs) ≡ field (get_or zs k disconnected) + 32 * fields (drop (suc k) zs)
fields-drop [] k h = absurd (omega arith)
fields-drop (z ∷ zs) zero h = refl
fields-drop (z ∷ zs) (suc k) h = fields-drop zs k (omega arith)

-- What the buffer holds before idx is k: the fields from k on, shifted unless all are in.
abbrev pending : List ℤ → ℕ → ℕ
pending zs zero = fields zs
pending zs (suc k) = 32 * fields (drop (suc k) zs)

fill-suc :
    (zs : List ℤ) (k : ℕ) (bs : List ℕ)
    → fill zs (suc (suc k)) bs
      ≡ fill zs (suc k) (shift_5_left (put_selected (get_or zs (suc k) disconnected) bs))
unfolding fill
fill-suc zs k bs = ap (λ t. fill zs (suc k) t) (ground arith)

drop-lt : (zs : List ℤ) (k : ℕ) → length zs ≡ 32 → fields (drop (suc k) zs) < 32 ^ 31
drop-lt zs k l = fields-lt 31 (drop (suc k) zs) (omega (arith, length-drop (suc k) zs))

fill-Spells :
    (zs : List ℤ) (k : ℕ) (bs : List ℕ)
    → length zs ≡ 32
    → k ≤ 32
    → Spells (pending zs k) bs
    → Spells (fields zs) (fill zs k bs)
fill-Spells zs zero bs l h s = unfold fill in s
fill-Spells zs (suc zero) bs l h s =
    unfold fill in
    (subst (λ t. Spells t (put_selected (get_or zs 0 disconnected) bs))
      (sym (fields-drop zs 0 (omega arith)))
      (put_selected-Spells (fields (drop 1 zs)) (get_or zs 0 disconnected) bs s))
fill-Spells zs (suc (suc k)) bs l h s = rw (fill-suc zs k bs) (
    fill-Spells zs (suc k) (shift_5_left (put_selected (get_or zs (suc k) disconnected) bs)) l
      (omega arith)
      (shift_5_left-Spells (fields (drop (suc k) zs)) _ (drop-lt zs k l) (
        subst (λ t. Spells t (put_selected (get_or zs (suc k) disconnected) bs))
          (sym (fields-drop zs (suc k) (omega arith)))
          (put_selected-Spells (fields (drop (suc (suc k)) zs)) (get_or zs (suc k) disconnected) bs
            s))))

fields-div : (zs : List ℤ) (o : ℕ) → fields zs / 32 ^ o % 32 ≡ field (get_or zs o disconnected)
fields-div [] o = rw (zero-div (32 ^ o))
fields-div (z ∷ zs) zero = omega (arith, field-lt z)
fields-div (z ∷ zs) (suc o) =
    rw (pow-succ' 32 o, ← div-div-eq-div-mul (field z + 32 * fields zs) 32 (32 ^ o))
      (ap (λ (t : ℕ). t / 32 ^ o % 32) (omega (arith, field-lt z)) ∙ fields-div zs o)

blank : (zs : List ℤ) → length zs ≡ 32 → Spells (pending zs 32) (replicate 20 0)
blank zs l = record {
  size = refl;
  bytes = omega arith;
  spelled = omega (arith, fields-lt 0 (drop 32 zs) (omega (arith, length-drop 32 zs)));
}

-- The 20 bytes, read as one number with the first byte the most significant, hold for each of the 32
-- outputs the five bits from bit 5 * o on: 16 plus the input's low four bits where an input is
-- connected, and 0 where none is.
pub matrix_bytes_lem :
    (zs : List ℤ) (o : ℕ)
    → length zs ≡ 32
    → (length (matrix_bytes zs) ≡ 20)
      × (value (matrix_bytes zs) / 32 ^ o % 32 ≡ field (get_or zs o disconnected))
unfolding matrix_bytes
matrix_bytes_lem zs o l =
    let s = fill-Spells zs 32 (replicate 20 0) l (omega arith) (blank zs l) in
    (s.size, ap (λ (t : ℕ). t / 32 ^ o % 32) s.spelled ∙ fields-div zs o)
