-- ===== src/Flash/Memory.antt =====
-- A concrete flash for the tests, which follows the laws of Flash/Laws.
use lucidac_firmware.Common.{
  ℕ, ◌+◌, ◌*◌, ◌/◌, ◌%◌, ◌^◌, ◌<◌, ◌≤◌, ◌≡◌, ◌⊎◌, inl, inr, refl, ◌==◌, ==_refl, false,
  if◌then◌else◌, List, [], ◌∷◌, arith,
}
use lucidac_firmware.Flash.{
  FlashCall, flash_write, flash_erase, flash_sector_size, erased_word, word_bytes,
}
use lucidac_firmware.Flash.Laws.{FlashLaws}

abbrev bytes_word : List ℕ → ℕ
bytes_word [] = 0
bytes_word (b ∷ bs) = b % 256 + 256 * (bytes_word bs % 2 ^ 24)

-- The words after some calls, where the words before are given.
abbrev pub word_after : (ℕ → ℕ) → List FlashCall → ℕ → ℕ
word_after initial [] a = initial a
word_after initial (flash_write b bytes ∷ log) a =
    if b == a then bytes_word bytes else word_after initial log a
word_after initial (flash_erase b ∷ log) a =
    if a / flash_sector_size == b / flash_sector_size then erased_word else word_after initial log a

same_sector :
    (a b : ℕ)
    → a % flash_sector_size ≡ 0
    → a ≤ b
    → b < a + flash_sector_size
    → b / flash_sector_size ≡ a / flash_sector_size
same_sector a b start lo hi = omega arith

-- A word that is not in a sector that starts at a is in another.
other_sector :
    (a b : ℕ)
    → a % flash_sector_size ≡ 0
    → (b < a) ⊎ (a + flash_sector_size ≤ b)
    → (b / flash_sector_size == a / flash_sector_size) ≡ false
other_sector a b start (inl lower) = ground arith
other_sector a b start (inr higher) = ground arith

module _ (initial : ℕ → ℕ) (bound : (a : ℕ) → initial a < 2 ^ 32) where
  word_after-bound : (log : List FlashCall) (a : ℕ) → word_after initial log a < 2 ^ 32
  word_after-bound [] a = bound a
  word_after-bound (flash_write b [] ∷ log) a = ground (arith, word_after-bound log a)
  word_after-bound (flash_write b (x ∷ xs) ∷ log) a = ground (arith, word_after-bound log a)
  word_after-bound (flash_erase b ∷ log) a = ground (arith, word_after-bound log a)

  word_after-written :
      (log : List FlashCall) (a v : ℕ)
      → v < 2 ^ 32
      → word_after initial (flash_write a (word_bytes v) ∷ log) a ≡ v
  word_after-written log a v h = rw (==_refl a) (omega arith)

  pub word_after-FlashLaws : FlashLaws (word_after initial)
  word_after-FlashLaws = record {
    write_erased = λ log a v whole e h. word_after-written log a v h;
    write_others = λ log a b bytes other wa wb. rw other refl;
    erase_sector = λ log a b start lo hi.
        rw (same_sector a b start lo hi, ==_refl (a / flash_sector_size)) refl;
    erase_others = λ log a b start far. rw (other_sector a b start far) refl;
    word_bound = word_after-bound;
  }
