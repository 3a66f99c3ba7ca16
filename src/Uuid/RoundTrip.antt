-- ===== src/Uuid/RoundTrip.antt =====
-- What becomes of a UUID that is printed and read again, and which texts are read beyond the array.
use lucidac_firmware.Common.{
  ℕ, zero, suc, ◌+◌, ◌*◌, ◌/◌, ◌%◌, ◌^◌, ◌<◌, ◌≤◌, ◌≡◌, refl, ◌==◌, ==_iff, leb, bit_or, Bool, true,
  false, if◌then◌else◌, List, [], ◌∷◌, ◌++◌, map, some, length, length-set, get_or, get_or-set_self,
  set, All, all_below_sound, arith, Bool-cases, inl, inr, sym, ap, ap₂, ◌∙◌, bit_or_fields,
  set-append, length-append, le→leb_false,
}
use lucidac_firmware.Json.{is_some}
use lucidac_firmware.Uuid.{
  dash, hex_digit, has_dash, to_chars_from, to_char_array, chartoi, Scan, put_digit, scan, no_uuid,
  from_string,
}

abbrev pub swap_digits : ℕ → ℕ
swap_digits b = b % 16 * 16 + b / 16

chartoi-hex_digit : (n : ℕ) → n < 16 → chartoi (hex_digit n) ≡ n
unfolding chartoi
chartoi-hex_digit n h =
    (==_iff _ n).0 (all_below_sound 16 (λ k. chartoi (hex_digit k) == k) n refl h)

hex_digit-dash : (n : ℕ) → n < 16 → (hex_digit n == dash) ≡ false
hex_digit-dash n h = ground arith

two_digits : (h l : ℕ) → h < 16 → l < 16 → bit_or (h * 2 ^ 4 % 2 ^ 8) l ≡ h * 16 + l
two_digits h l hh hl =
    let whole : h * 2 ^ 4 % 2 ^ 8 ≡ h * 2 ^ 4 = omega arith in rw whole (bit_or_fields 4 h l hl)

set-set : {A : Type 0} (xs : List A) (i : ℕ) (v w : A) → set (set xs i v) i w ≡ set xs i w
set-set [] i v w = refl
set-set (x ∷ xs) zero v w = refl
set-set (x ∷ xs) (suc i) v w = ap (λ t. x ∷ t) (set-set xs i v w)

-- One character that is not a dash, inside the array.
scan-digit :
    (s : Scan) (c : ℕ) (cs : List ℕ)
    → (c == dash) ≡ false
    → s.index < 16
    → scan s (c ∷ cs) ≡ scan (put_digit s c) cs
unfolding scan
scan-digit s c cs other inside = rw (other, le→leb_false 16 s.index inside, scan) refl

snoc : (xs : List ℕ) (v : ℕ) (ys : List ℕ) → (xs ++ (v ∷ [])) ++ ys ≡ xs ++ (v ∷ ys)
snoc [] v ys = refl
snoc (x ∷ xs) v ys = ap (λ t. x ∷ t) (snoc xs v ys)

abbrev at_byte : ℕ → List ℕ → Scan
at_byte i ar = record { first_digit = true; index = i; ar = ar }

-- The two characters of a byte put it into the array with its digits swapped.
scan-byte :
    (i xx : ℕ) (ar cs : List ℕ)
    → xx < 256
    → i < 16
    → i < length ar
    → scan (at_byte i ar) (hex_digit (xx % 16) ∷ hex_digit (xx / 16 % 16) ∷ cs)
      ≡ scan (at_byte (i + 1) (set ar i (swap_digits xx))) cs
scan-byte i xx ar cs small inside there =
    let low : xx % 16 < 16 = omega arith in
    let high : xx / 16 % 16 < 16 = omega arith in
    let exact : xx / 16 % 16 ≡ xx / 16 = omega arith in
    let v : ℕ = chartoi (hex_digit (xx % 16)) * 2 ^ 4 % 2 ^ 8 in
    let digits : bit_or (get_or (set ar i v) i 0) (chartoi (hex_digit (xx / 16 % 16)))
        ≡ swap_digits xx =
      ap₂ bit_or
        (get_or-set_self ar i v 0 there
          ∙ ap (λ d. d * 2 ^ 4 % 2 ^ 8) (chartoi-hex_digit (xx % 16) low))
        (chartoi-hex_digit (xx / 16 % 16) high)
      ∙ two_digits (xx % 16) (xx / 16 % 16) low high
      ∙ ap (λ d. xx % 16 * 16 + d) exact in
    scan-digit (at_byte i ar) (hex_digit (xx % 16)) _ (hex_digit-dash (xx % 16) low) inside
    ∙ scan-digit (put_digit (at_byte i ar) (hex_digit (xx % 16))) (hex_digit (xx / 16 % 16)) cs
        (hex_digit-dash (xx / 16 % 16) high) inside
    ∙ ap (λ a. scan (at_byte (i + 1) a) cs) (set-set ar i v _ ∙ ap (λ d. set ar i d) digits)

scan-nothing : (s : Scan) → scan s [] ≡ some s.ar
unfolding scan
scan-nothing s = refl

scan-dash : (s : Scan) (cs : List ℕ) → scan s (dash ∷ cs) ≡ scan s cs
unfolding scan
scan-dash s cs = refl

abbrev overwritten : ℕ → List ℕ → List ℕ → List ℕ
overwritten i ar [] = ar
overwritten i ar (x ∷ xs) = overwritten (i + 1) (set ar i (swap_digits x)) xs

scan-to_chars_from :
    (i : ℕ) (ar bs : List ℕ)
    → All (λ b. b < 256) bs
    → length ar ≡ 16
    → i + length bs ≤ 16
    → scan (at_byte i ar) (to_chars_from i bs) ≡ some (overwritten i ar bs)
unfolding to_chars_from
scan-to_chars_from i ar [] small full fits = scan-nothing (at_byte i ar)
scan-to_chars_from i ar (x ∷ bs) (h, small) full fits =
    let byte =
      scan-byte i x ar (to_chars_from (i + 1) bs) h (omega arith) (omega (arith, full))
      ∙ scan-to_chars_from (i + 1) (set ar i (swap_digits x)) bs small
          (length-set ar i (swap_digits x) ∙ full) (omega arith) in
    elim (Bool-cases (has_dash i)) [
      | inl dashed ↦ rw dashed (
          scan-dash (at_byte i ar)
            (hex_digit (x % 16) ∷ hex_digit (x / 16 % 16) ∷ to_chars_from (i + 1) bs)
          ∙ byte)
      | inr plain ↦ rw plain byte
    ]

overwritten-append :
    (i : ℕ) (done rest bs : List ℕ)
    → i ≡ length done
    → length rest ≡ length bs
    → overwritten i (done ++ rest) bs ≡ done ++ map swap_digits bs
overwritten-append i done [] [] e l = refl
overwritten-append i done [] (b ∷ bs) e l = absurd (omega arith)
overwritten-append i done (y ∷ rest) [] e l = absurd (omega arith)
overwritten-append i done (y ∷ rest) (b ∷ bs) e l =
    ap (λ a. overwritten (i + 1) a bs)
      (rw e (set-append done y rest (swap_digits b)) ∙ sym (snoc done (swap_digits b) rest))
    ∙ overwritten-append (i + 1) (done ++ (swap_digits b ∷ [])) rest bs
        (omega (arith, e, length-append done (swap_digits b ∷ []))) (omega arith)
    ∙ snoc done (swap_digits b) (map swap_digits bs)

dashes : ℕ → ℕ → ℕ
dashes i zero = 0
dashes i (suc n) = (if has_dash i then 1 else 0) + dashes (i + 1) n

length-to_chars_from :
    (i : ℕ) (bs : List ℕ) → length (to_chars_from i bs) ≡ 2 * length bs + dashes i (length bs)
unfolding to_chars_from dashes
length-to_chars_from i [] = refl
length-to_chars_from i (x ∷ bs) = elim (Bool-cases (has_dash i)) [
  | inl dashed ↦ rw dashed (omega (arith, length-to_chars_from (i + 1) bs))
  | inr plain ↦ rw plain (omega (arith, length-to_chars_from (i + 1) bs))
]

four_dashes : dashes 0 16 ≡ 4
unfolding dashes
four_dashes = refl

-- Reading the text of a UUID gives its 16 bytes with the two digits of each swapped.
pub from_string-to_char_array :
    (u : List ℕ)
    → length u ≡ 16
    → All (λ b. b < 256) u
    → from_string (to_char_array u) ≡ some (map swap_digits u)
unfolding from_string to_char_array
from_string-to_char_array u full small =
    let whole : length (to_chars_from 0 u) ≡ 36 =
      length-to_chars_from 0 u ∙ ap (λ n. 2 * n + dashes 0 n) full ∙ ap (λ d. 32 + d) four_dashes in
    rw whole (
      scan-to_chars_from 0 no_uuid u small refl (omega (arith, full))
      ∙ ap some (overwritten-append 0 [] no_uuid u refl (sym full)))

beyond_array : (p d : ℕ) → 32 ≤ p → false ≡ leb (p + suc d) 32
beyond_array p d h = ground arith

abbrev pub digits_of : List ℕ → ℕ
digits_of [] = 0
digits_of (c ∷ cs) = let more = digits_of cs in if c == dash then more else suc more

-- How many digits were put so far.
abbrev position : Scan → ℕ
position s = 2 * s.index + (if s.first_digit then 0 else 1)

position-put_digit :
    (first : Bool) (i : ℕ) (ar : List ℕ) (c : ℕ)
    → position (put_digit (record { first_digit = first; index = i; ar = ar }) c)
      ≡ suc (position (record { first_digit = first; index = i; ar = ar }))
position-put_digit true i ar c = omega arith
position-put_digit false i ar c = omega arith

index_bound : (s : Scan) → leb 16 s.index ≡ true → 32 ≤ position s
index_bound s h = ground arith

position_bound : (s : Scan) → leb 16 s.index ≡ false → position s < 32
position_bound s h = ground arith

scan_lem :
    (s : Scan) (cs : List ℕ)
    → position s ≤ 32
    → is_some (scan s cs) ≡ leb (position s + digits_of cs) 32
unfolding scan
scan_lem s [] h = ground arith
scan_lem s (c ∷ cs) h = elim (Bool-cases (c == dash)) [
  | inl skipped ↦ rw (skipped, scan) (scan_lem s cs h)
  | inr other ↦ elim (Bool-cases (leb 16 s.index)) [
    | inl beyond ↦
        rw (other, beyond, scan) (beyond_array (position s) (digits_of cs) (index_bound s beyond))
    | inr inside ↦
        rw (other, inside, scan)
          (let next : position (put_digit s c) ≡ suc (position s) =
              position-put_digit s.first_digit s.index s.ar c in
            scan_lem (put_digit s c) cs (omega (arith, next, position_bound s inside))
            ∙ ap (λ n. leb n 32) (omega (arith, next)))
  ]
]

-- A text of 36 characters is read inside the 16 bytes of the array exactly if at most 32 of them are
-- not dashes; with less than four dashes the bytes behind the array are written.
pub from_string-inside :
    (str : List ℕ) → length str ≡ 36 → is_some (from_string str) ≡ leb (digits_of str) 32
unfolding from_string
from_string-inside str full = rw full (
    scan_lem (record { first_digit = true; index = 0; ar = no_uuid }) str (omega arith)
    ∙ ap (λ n. leb n 32) (omega arith))
