-- ===== src/IBlock/Switches.antt =====
-- The four switch matrices that the I-block's command words set: each takes one byte of a word, of
-- which bit 7 says whether to close, bits 4 to 6 select the output and bits 0 to 3 the input.
use lucidac_firmware.Common.{
  ℕ, ◌+◌, ◌*◌, ◌/◌, ◌%◌, ◌^◌, ◌<◌, ◌≡◌, ◌⊎◌, refl, ◌==◌, leb, bit_and, bit_or, bit_and_high,
  bit_and_mask, bit_or_fields, bit_or_fields_comm, Bool, true, false, ◌&&◌, if◌then◌else◌, List, [],
  ◌∷◌, arith, Bool-cases, inl, inr,
}
use lucidac_firmware.Bus.Functions.{
  Call, trigger, transfer, wait, word8, word16, word32, command, bytes,
}
use lucidac_firmware.IBlock.Hardware.{
  chip_cmd_word, wanted, chip_byte, command_word, f_cmd, f_imatrix_reset, f_imatrix_sync,
}

-- The word in the shift register, and the closed switches by chip, input and output of the chip.
pub record Matrices : Type 0 where
  pub shifted : ℕ
  pub closed_at : ℕ → ℕ → ℕ → Bool

abbrev pub byte_of : ℕ → ℕ → ℕ
byte_of w chip = w / 2 ^ (8 * chip) % 256

-- What one chip's switches are after a byte was applied.
abbrev pub apply_byte : ℕ → (ℕ → ℕ → Bool) → ℕ → ℕ → Bool
apply_byte b on x y = if b % 16 == x && b / 16 % 8 == y then leb 128 b else on x y

abbrev pub apply_word : Matrices → Matrices
apply_word m = record m {
  closed_at = λ chip. apply_byte (byte_of m.shifted chip) (m.closed_at chip);
}

abbrev pub clear_switches : Matrices → Matrices
clear_switches m = record m { closed_at = λ chip x y. false }

-- The matrices of the block at an address after the calls, from the matrices before.
abbrev pub matrices : ℕ → Matrices → List Call → Matrices
matrices block m [] = m
matrices block m (trigger a ∷ log) =
    let before = matrices block m log in
    if a == f_imatrix_reset block
    then clear_switches before
    else if a == f_imatrix_sync block
    then apply_word before
    else before
matrices block m (transfer a d (word32 w) ∷ log) =
    let before = matrices block m log in
    if a == f_cmd block then record before { shifted = w } else before
matrices block m (transfer a d (word8 w) ∷ log) = matrices block m log
matrices block m (transfer a d (word16 w) ∷ log) = matrices block m log
matrices block m (transfer a d (command r w) ∷ log) = matrices block m log
matrices block m (transfer a d (bytes w) ∷ log) = matrices block m log
matrices block m (wait ns ∷ log) = matrices block m log

-- A byte that a chip was sent last: none yet, or one that closed a switch.
abbrev pub Remembered : ℕ → (ℕ → ℕ → Bool) → Type 0
Remembered b on =
    ((b ≡ 0) × ((x y : ℕ) → x < 16 → y < 8 → on x y ≡ false))
    ⊎ ((x : ℕ) × (y : ℕ) × (x < 16) × (y < 8) × (b ≡ 128 + 16 * y + x) × (on x y ≡ true))

-- Sending it again changes nothing.
pub again :
    (b : ℕ) (on : ℕ → ℕ → Bool)
    → Remembered b on
    → (x y : ℕ) → x < 16
    → y < 8
    → apply_byte b on x y ≡ on x y
again b on (inl (e, none_)) x y hx hy = rw e (elim (Bool-cases (0 == x && 0 == y)) [
  | inl h ↦ rw (h, none_ x y hx hy) refl
  | inr h ↦ rw h refl
])
again b on (inr (i, o, hi, ho, e, closed)) x y hx hy = elim (Bool-cases (i == x && o == y)) [
  | inl h ↦
      let ex : i ≡ x = ground arith in
      let ey : o ≡ y = ground arith in ground (arith, e, closed, ex, ey)
  | inr h ↦ ground (arith, e)
]

pub closing :
    (on : ℕ → ℕ → Bool) (i o x y : ℕ)
    → i < 16
    → o < 8
    → apply_byte (128 + 16 * o + i) on x y ≡ (if i == x && o == y then true else on x y)
closing on i o x y hi ho =
    rw (the_input, the_output)
      (elim (Bool-cases (i == x && o == y)) [ inl h ↦ rw h (ground arith) | inr h ↦ rw h refl ])
  where
    the_input : (128 + 16 * o + i) % 16 ≡ i
    the_input = omega arith

    the_output : (128 + 16 * o + i) / 16 % 8 ≡ o
    the_output = omega arith

pub chip_cmd_word_lem : (i o : ℕ) → chip_cmd_word i o true ≡ 128 + 16 * (o % 8) + i % 16
unfolding chip_cmd_word
chip_cmd_word_lem i o =
    rw (bit_and_mask 4 i 0xF (omega arith), bit_and_mask 3 o 0x7 (omega arith))
      (rw (bit_or_fields 7 1 (o % 8 * 16) (omega arith)) (
        rw (fields_at (o % 8)) (omega (arith, bit_or_fields 4 (8 + o % 8) (i % 16) (omega arith)))))
  where
    fields_at : (y : ℕ) → 1 * 2 ^ 7 + y * 16 ≡ (8 + y) * 2 ^ 4
    fields_at y = omega arith

kept_field : (r p : ℕ) → bit_and r (0xFF * 2 ^ p) ≡ r / 2 ^ p % 256 * 2 ^ p
kept_field r p = rw (bit_and_high p r 0xFF, bit_and_mask 8 (r / 2 ^ p) 0xFF (omega arith)) refl

-- The byte for a chip without its place.
abbrev pub new_byte : List ℕ → ℕ → ℕ → ℕ → ℕ → ℕ
new_byte outputs r place i o =
    if wanted outputs i o then 128 + 16 * (o % 8) + i % 16 else byte_of r place

chip_byte_lem :
    (outputs : List ℕ) (r place i o : ℕ)
    → chip_byte outputs r place i o ≡ new_byte outputs r place i o * 2 ^ (8 * place)
chip_byte_lem outputs r place i o = elim (Bool-cases (wanted outputs i o)) [
  | inl e ↦ rw e (rw (chip_cmd_word_lem i o) refl)
  | inr e ↦ rw e (kept_field r (8 * place))
]

pub new_byte-lt : (outputs : List ℕ) (r place i o : ℕ) → new_byte outputs r place i o < 256
new_byte-lt outputs r place i o = elim (Bool-cases (wanted outputs i o)) [
  | inl e ↦ rw e (omega arith)
  | inr e ↦ rw e (omega arith)
]

four_fields :
    (a b c d : ℕ)
    → a < 256
    → b < 256
    → c < 256
    → bit_or (bit_or (bit_or (a * 2 ^ 0) (b * 2 ^ 8)) (c * 2 ^ 16)) (d * 2 ^ 24)
      ≡ a + b * 2 ^ 8 + c * 2 ^ 16 + d * 2 ^ 24
four_fields a b c d ha hb hc =
    rw
      (
        bit_or_fields_comm 8 b (a * 1) (omega arith),
        bit_or_fields_comm 16 c (a * 1 + b * 2 ^ 8) (omega arith),
        bit_or_fields_comm 24 d (a * 1 + b * 2 ^ 8 + c * 2 ^ 16) (omega arith),
      )
      (omega arith)

pub command_word_lem :
    (outputs : List ℕ) (r o i : ℕ)
    → command_word outputs r o i
      ≡ new_byte outputs r 0 i o
        + new_byte outputs r 1 (i + 16) o * 2 ^ 8
        + new_byte outputs r 2 i (o + 8) * 2 ^ 16
        + new_byte outputs r 3 (i + 16) (o + 8) * 2 ^ 24
unfolding command_word
command_word_lem outputs r o i =
    rw
      (
        chip_byte_lem outputs r 0 i o,
        chip_byte_lem outputs r 1 (i + 16) o,
        chip_byte_lem outputs r 2 i (o + 8),
        chip_byte_lem outputs r 3 (i + 16) (o + 8),
      )
      (four_fields (new_byte outputs r 0 i o) (new_byte outputs r 1 (i + 16) o)
        (new_byte outputs r 2 i (o + 8)) (new_byte outputs r 3 (i + 16) (o + 8))
        (new_byte-lt outputs r 0 i o) (new_byte-lt outputs r 1 (i + 16) o)
        (new_byte-lt outputs r 2 i (o + 8)))

pub bytes_of_sum :
    (a b c d : ℕ)
    → a < 256
    → b < 256
    → c < 256
    → d < 256
    → let w = a + b * 2 ^ 8 + c * 2 ^ 16 + d * 2 ^ 24 in
      (byte_of w 0 ≡ a) × ((byte_of w 1 ≡ b) × ((byte_of w 2 ≡ c) × (byte_of w 3 ≡ d)))
bytes_of_sum a b c d ha hb hc hd = (omega arith, (omega arith, (omega arith, omega arith)))
