-- ===== src/Flash/Laws.antt =====
-- How the flash behaves, and what the erasing of a sector before its first word leaves.
use lucidac_firmware.Common.{
  ℕ, ◌+◌, ◌-◌, ◌*◌, ◌/◌, ◌%◌, ◌^◌, ◌<◌, ◌≤◌, ◌≡◌, ◌⊎◌, refl, ◌==◌, ==_iff, Bool, false, not, ◌&&◌,
  Bool-cases, inl, inr, List, ◌∷◌, arith, any-false, index_range, subst, any, if-holds, and_true,
}
use lucidac_firmware.Flash.{
  FlashCall, flash_write, flash_erase, flash_sector_size, erased_word, word_bytes,
  flash_sector_not_erased, erase_if_needed,
}

-- How the flash behaves: an erased word takes what is written to it, and other words stay; erasing a
-- sector erases its words, and others stay.
pub record FlashLaws (word : List FlashCall → ℕ → ℕ) : Type 0 where
  pub write_erased :
      (log : List FlashCall) (a v : ℕ)
      → a % 4 ≡ 0
      → word log a ≡ erased_word
      → v < 2 ^ 32
      → word (flash_write a (word_bytes v) ∷ log) a ≡ v
  pub write_others :
      (log : List FlashCall) (a b : ℕ) (bytes : List ℕ)
      → (a == b) ≡ false
      → a % 4 ≡ 0
      → b % 4 ≡ 0
      → word (flash_write a bytes ∷ log) b ≡ word log b
  pub erase_sector :
      (log : List FlashCall) (a b : ℕ)
      → a % flash_sector_size ≡ 0
      → a ≤ b
      → b < a + flash_sector_size
      → word (flash_erase a ∷ log) b ≡ erased_word
  pub erase_others :
      (log : List FlashCall) (a b : ℕ)
      → a % flash_sector_size ≡ 0
      → (b < a) ⊎ (a + flash_sector_size ≤ b)
      → word (flash_erase a ∷ log) b ≡ word log b
  pub word_bound : (log : List FlashCall) (a : ℕ) → word log a < 2 ^ 32

place :
    (a b : ℕ)
    → a % flash_sector_size ≡ 0
    → a ≤ b
    → b % 4 ≡ 0
    → a - a % flash_sector_size + 4 * ((b - a) / 4) ≡ b
place a b start lo whole = omega arith

not-not : (w : ℕ) → not (w == erased_word) ≡ false → w ≡ erased_word
not-not w h = ground arith

module _ (word : List FlashCall → ℕ → ℕ) (laws : FlashLaws word) where
  clean_word : (p : ℕ → Bool) (n j : ℕ) → any p (index_range n) ≡ false → j < n → p j ≡ false
  clean_word p n j h l = any-false p 0 n j h (omega arith) (omega arith)

  clean_sector :
      (a b : ℕ) (log : List FlashCall)
      → a % flash_sector_size ≡ 0
      → a ≤ b
      → b < a + flash_sector_size
      → b % 4 ≡ 0
      → flash_sector_not_erased word a log ≡ false
      → word log b ≡ erased_word
  unfolding flash_sector_not_erased
  clean_sector a b log start lo hi whole h =
      let at : a - a % flash_sector_size + 4 * ((b - a) / 4) ≡ b = place a b start lo whole in
      not-not (word log b) (
        subst (λ x. not (word log x == erased_word) ≡ false) at
          (clean_word (λ i. not (word log (a - a % flash_sector_size + 4 * i) == erased_word)) 1024
            ((b - a) / 4) h (omega arith)))

  -- A sector start leaves its sector erased.
  pub erased_at :
      (a b : ℕ) (log : List FlashCall)
      → a % flash_sector_size ≡ 0
      → a ≤ b
      → b < a + flash_sector_size
      → b % 4 ≡ 0
      → word (erase_if_needed word a log) b ≡ erased_word
  erased_at a b log start lo hi whole = elim (Bool-cases (flash_sector_not_erased word a log)) [
    | inl dirty ↦ rw (start, dirty) (laws.erase_sector log a b start lo hi)
    | inr clean ↦ rw (start, clean) (clean_sector a b log start lo hi whole clean)
  ]

  -- Words elsewhere stay.
  pub erase_if_needed-others :
      (a b : ℕ) (log : List FlashCall)
      → (b < a) ⊎ (a + flash_sector_size ≤ b)
      → word (erase_if_needed word a log) b ≡ word log b
  erase_if_needed-others a b log far =
      if-holds (λ after. word after b ≡ word log b)
        (a % flash_sector_size == 0 && flash_sector_not_erased word a log) _ _
        (λ dirty. laws.erase_others log a b ((==_iff _ 0).0 ((and_true _ _ dirty).0)) far)
        (λ clean. refl)
