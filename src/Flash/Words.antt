-- ===== src/Flash/Words.antt =====
-- What writing a block and preparing the buffer leave in the log.
use lucidac_firmware.Common.{
  ℕ, zero, suc, ◌+◌, ◌-◌, ◌*◌, ◌/◌, ◌%◌, ◌^◌, ◌<◌, ◌≤◌, ◌≡◌, ◌⊎◌, ltb, refl, ◌==◌, ==_iff, true,
  false, Bool-cases, inl, inr, List, [], ◌∷◌, ◌++◌, length, arith, ap, sym, ◌∙◌,
}
use mathlib.Core.Bool.{false≢true}
use lucidac_firmware.Flash.{
  FlashCall, flash_write, flash_sector_size, flash_base_addr, buffer_end, erased_word, code_end,
  sector_above, firmware_buffer_init, copy_bytes, flash_write_block, in_flash,
}

-- Bytes written word by word from an address on; bytes behind the last full word are left out.
abbrev pub stored : ℕ → List ℕ → List FlashCall → List FlashCall
stored a (w ∷ (x ∷ (y ∷ (z ∷ r)))) log = stored (a + 4) r (flash_write a (w ∷ x ∷ y ∷ z ∷ []) ∷ log)
stored a [] log = log
stored a (w ∷ []) log = log
stored a (w ∷ (x ∷ [])) log = log
stored a (w ∷ (x ∷ (y ∷ []))) log = log

pub stored-append :
    (a : ℕ) (xs ys : List ℕ) (log : List FlashCall)
    → length xs % 4 ≡ 0
    → stored a (xs ++ ys) log ≡ stored (a + length xs) ys (stored a xs log)
stored-append a [] ys log h = ap (λ b. stored b ys log) (omega arith)
stored-append a (w ∷ []) ys log h = absurd (omega arith)
stored-append a (w ∷ (x ∷ [])) ys log h = absurd (omega arith)
stored-append a (w ∷ (x ∷ (y ∷ []))) ys log h = absurd (omega arith)
stored-append a (w ∷ (x ∷ (y ∷ (z ∷ r)))) ys log h =
    stored-append (a + 4) r ys (flash_write a (w ∷ x ∷ y ∷ z ∷ []) ∷ log) (omega arith)
    ∙ ap (λ b. stored b ys (stored (a + 4) r (flash_write a (w ∷ x ∷ y ∷ z ∷ []) ∷ log)))
        (omega arith)

copy_bytes-stored :
    (a : ℕ) (xs : List ℕ) (log : List FlashCall)
    → length xs % 4 ≡ 0
    → copy_bytes a [] xs log ≡ ([], stored a xs log)
unfolding copy_bytes
copy_bytes-stored a [] log h = refl
copy_bytes-stored a (w ∷ []) log h = absurd (omega arith)
copy_bytes-stored a (w ∷ (x ∷ [])) log h = absurd (omega arith)
copy_bytes-stored a (w ∷ (x ∷ (y ∷ []))) log h = absurd (omega arith)
copy_bytes-stored a (w ∷ (x ∷ (y ∷ (z ∷ r)))) log h =
    copy_bytes-stored (a + 4) r (flash_write a (w ∷ x ∷ y ∷ z ∷ []) ∷ log) (omega arith)

-- Whole words at an aligned address in the flash are written as they are.
pub flash_write_block-stored :
    (next addr : ℕ) (bytes : List ℕ) (log : List FlashCall)
    → in_flash addr ≡ true
    → addr % 4 ≡ 0
    → length bytes % 4 ≡ 0
    → flash_write_block (record { held = []; next_addr = next }) addr bytes log
      ≡ ((0, record { held = []; next_addr = addr + length bytes }), stored addr bytes log)
unfolding flash_write_block
flash_write_block-stored next addr bytes log f a l =
    let start : addr - 0 ≡ addr = omega arith in
    rw (f, a, l, start, copy_bytes-stored addr bytes log l) refl

behind_first_sector :
    (a s : ℕ)
    → flash_base_addr ≤ a
    → a < s
    → s % flash_sector_size ≡ 0
    → flash_base_addr + flash_sector_size ≤ s
behind_first_sector a s low over aligned = omega arith

size_lem :
    (s : ℕ)
    → s ≤ buffer_end
    → flash_base_addr ≤ s
    → s + (buffer_end + 2 ^ 32 - s) % 2 ^ 32 ≡ buffer_end
size_lem s under low = omega arith

base_below : (s : ℕ) → flash_base_addr + flash_sector_size ≤ s → flash_base_addr ≤ s
base_below s h = omega arith

index_above : (k j s : ℕ) → 4 * k < s → s ≤ 4 * j → k < j
index_above k j s over lo = omega arith

module _ (word : List FlashCall → ℕ → ℕ) (log : List FlashCall) where
  code_end_lem :
      (n : ℕ)
      → (k : ℕ) × (k ≤ n)
        × (code_end word n log ≡ 4 * k)
        × ((j : ℕ) → k < j → j ≤ n → word log (4 * j) ≡ erased_word)
        × ((k ≡ 0) ⊎ ((word log (4 * k) == erased_word) ≡ false))
  unfolding code_end
  code_end_lem zero = (0, omega arith, refl, (λ j lo hi. absurd (omega arith)), inl refl)
  code_end_lem (suc n) = elim (Bool-cases (word log (4 * suc n) == erased_word)) [
    | inl e ↦
        let (k, l, at, above, stop) = code_end_lem n in
        rw (e, code_end)
          (
            k,
            omega arith,
            at,
            (λ j lo hi. elim (Bool-cases (j == suc n)) [
              | inl same ↦
                  rw ((==_iff j (suc n)).0 same) ((==_iff (word log (4 * suc n)) erased_word).0 e)
              | inr other ↦ above j lo (ground arith)
            ]),
            stop,
          )
    | inr e ↦ rw (e, code_end) (suc n, omega arith, refl, (λ j lo hi. absurd (omega arith)), inr e)
  ]

  -- The sector boundary above the end of the code.
  sector_above_lem :
      (k : ℕ)
      → 4 * k ≤ buffer_end - 4
      → (sector_above (4 * k + 4) % flash_sector_size ≡ 0)
        × (4 * k < sector_above (4 * k + 4))
        × (sector_above (4 * k + 4) ≤ buffer_end)
  sector_above_lem k h = ground arith

  at_or_above :
      (n k : ℕ)
      → n ≡ (buffer_end - 4) / 4
      → (word log flash_base_addr == erased_word) ≡ false
      → ((j : ℕ) → k < j → j ≤ n → word log (4 * j) ≡ erased_word)
      → flash_base_addr ≤ 4 * k
  at_or_above n k e code above = elim (Bool-cases (ltb (4 * k) flash_base_addr)) [
    | inl lower ↦ absurd (
        false≢true (
          sym code
          ∙ (==_iff (word log flash_base_addr) erased_word).1
              (above (flash_base_addr / 4) (ground arith) (omega arith))))
    | inr higher ↦ ground arith
  ]

  buffer_of :
      (n : ℕ)
      → n ≡ (buffer_end - 4) / 4
      → (word log flash_base_addr == erased_word) ≡ false
      → (k : ℕ) × (code_end word n log ≡ 4 * k)
        × (flash_base_addr ≤ 4 * k)
        × (4 * k ≤ buffer_end - 4)
        × ((j : ℕ) → k < j → 4 * j < buffer_end → word log (4 * j) ≡ erased_word)
  buffer_of n e code =
      let (k, l, at, above, stop) = code_end_lem n in
      (k, at, at_or_above n k e code above, omega arith, (λ j lo hi. above j lo (omega arith)))

  -- What makes an address and a size a buffer: it starts at a sector behind the first one, ends
  -- where the reserved region starts, and all its words are erased.
  abbrev pub IsBuffer : ℕ × ℕ → Type 0
  IsBuffer b =
      (b.0 % flash_sector_size ≡ 0)
      × (flash_base_addr + flash_sector_size ≤ b.0)
      × (b.0 + b.1 ≡ buffer_end)
      × ((j : ℕ) → b.0 ≤ 4 * j → 4 * j < buffer_end → word log (4 * j) ≡ erased_word)

  pub firmware_buffer_init-IsBuffer :
      (word log flash_base_addr == erased_word) ≡ false → IsBuffer (firmware_buffer_init word log)
  unfolding firmware_buffer_init
  firmware_buffer_init-IsBuffer code =
      let (k, at, low, high, above) = buffer_of ((buffer_end - 4) / 4) refl code in
      let (aligned, over, under) = sector_above_lem k high in
      let s : ℕ = sector_above (4 * k + 4) in
      let behind = behind_first_sector (4 * k) s low over aligned in
      rw at (
        aligned,
        behind,
        size_lem s under (base_below s behind),
        (λ j lo hi. above j (index_above k j s over lo) hi),
      )
