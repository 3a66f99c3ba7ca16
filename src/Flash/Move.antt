-- ===== src/Flash/Move.antt =====
-- What `flash_move` leaves in place of the program.
use lucidac_firmware.Common.{
  ℕ, zero, suc, ◌+◌, ◌-◌, ◌*◌, ◌%◌, ◌<◌, ◌≤◌, ◌≡◌, refl, ◌==◌, ==_iff, false, Bool-cases, inl, inr,
  List, ◌∷◌, arith, sym, ◌∙◌, subst,
}
use lucidac_firmware.Flash.{
  FlashCall, flash_write, flash_sector_size, flash_size, flash_reserve, erased_word, word_bytes,
  words, erase_if_needed, move_words, erase_behind, flash_move, in_flash,
}
use lucidac_firmware.Flash.Laws.{FlashLaws, erased_at, erase_if_needed-others}

no_sector :
    (dst s b : ℕ)
    → dst % flash_sector_size ≡ 0
    → s % flash_sector_size ≡ 0
    → s < dst + 4 * 0
    → dst + 4 * 0 ≤ b
    → b < s + flash_sector_size
    → ⊥
no_sector dst s b aligned st upto from below = omega arith

not_start :
    (s a : ℕ) → s % flash_sector_size ≡ 0 → s ≤ a → (a % flash_sector_size == 0) ≡ false → s < a
not_start s a start upto within = ground arith

module _ (word : List FlashCall → ℕ → ℕ) (laws : FlashLaws word) where
  module _ (dst src : ℕ) (before : List FlashCall) (aligned : dst % flash_sector_size ≡ 0)
      (even : src % 4 ≡ 0) (apart : dst + flash_sector_size ≤ src) where
    -- The state after k words: they are in place, what is left of the source is as before, and the
    -- rest of a sector that was begun is erased.
    abbrev Copied : ℕ → List FlashCall → Type 0
    Copied k log =
        ((j : ℕ) → j < k → word log (dst + 4 * j) ≡ word before (src + 4 * j))
        × ((j : ℕ) → k ≤ j → word log (src + 4 * j) ≡ word before (src + 4 * j))
        × ((s b : ℕ)
            → s % flash_sector_size ≡ 0
            → s < dst + 4 * k
            → dst + 4 * k ≤ b
            → b < s + flash_sector_size
            → b % 4 ≡ 0
            → word log b ≡ erased_word)

    -- Before a word is written, the rest of its sector is erased.
    ready :
        (k : ℕ) (log : List FlashCall)
        → Copied k log
        → (s b : ℕ) → s % flash_sector_size ≡ 0
        → s ≤ dst + 4 * k
        → dst + 4 * k ≤ b
        → b < s + flash_sector_size
        → b % 4 ≡ 0
        → word (erase_if_needed word (dst + 4 * k) log) b ≡ erased_word
    ready k log (done, left, rest) s b start upto from below whole =
        elim (Bool-cases ((dst + 4 * k) % flash_sector_size == 0)) [
          | inl at_start ↦
              erased_at word laws (dst + 4 * k) b log ((==_iff _ 0).0 at_start) from (omega arith)
                whole
          | inr within ↦
              rw within
                (rest s b start (not_start s (dst + 4 * k) start upto within) from below whole)
        ]

    abbrev next : ℕ → List FlashCall → List FlashCall
    next k log =
        let log' = erase_if_needed word (dst + 4 * k) log in
        flash_write (dst + 4 * k) (word_bytes (word log' (src + 4 * k))) ∷ log'

    fours : (k : ℕ) → (dst + 4 * k) % 4 ≡ 0
    fours k = omega (arith, aligned)

    next-others :
        (k b : ℕ) (log : List FlashCall)
        → (dst + 4 * k == b) ≡ false
        → b % 4 ≡ 0
        → word (next k log) b ≡ word (erase_if_needed word (dst + 4 * k) log) b
    next-others k b log other whole =
        laws.write_others (erase_if_needed word (dst + 4 * k) log) (dst + 4 * k) b _ other (fours k)
          whole

    -- The source lies behind the sector that is erased.
    source_far : (k j : ℕ) → k ≤ j → dst + 4 * k + flash_sector_size ≤ src + 4 * j
    source_far k j l = omega (arith, apart)

    source_stays :
        (k j : ℕ) (log : List FlashCall)
        → k ≤ j
        → word (erase_if_needed word (dst + 4 * k) log) (src + 4 * j) ≡ word log (src + 4 * j)
    source_stays k j log l =
        erase_if_needed-others word laws (dst + 4 * k) (src + 4 * j) log (inr (source_far k j l))

    next-written :
        (k : ℕ) (log : List FlashCall)
        → Copied k log
        → word (next k log) (dst + 4 * k) ≡ word before (src + 4 * k)
    next-written k log c =
        let a : ℕ = dst + 4 * k in
        laws.write_erased (erase_if_needed word a log) a _ (fours k)
          (ready k log c (a - a % flash_sector_size) a (omega arith) (omega arith) (omega arith)
            (omega arith) (fours k))
          (laws.word_bound (erase_if_needed word a log) (src + 4 * k))
        ∙ source_stays k k log (omega arith)
        ∙ c.1 k (omega arith)

    next-Copied : (k : ℕ) (log : List FlashCall) → Copied k log → Copied (suc k) (next k log)
    next-Copied k log c = (
      (λ j lt. elim (Bool-cases (j == k)) [
        | inl now ↦
            subst (λ i. word (next k log) (dst + 4 * i) ≡ word before (src + 4 * i))
              (sym ((==_iff j k).0 now)) (next-written k log c)
        | inr earlier ↦
            next-others k (dst + 4 * j) log (ground arith) (fours j)
            ∙ erase_if_needed-others word laws (dst + 4 * k) (dst + 4 * j) log (inl (ground arith))
            ∙ c.0 j (ground arith)
      ]),
      (λ j l.
          next-others k (src + 4 * j) log (ground (arith, apart)) (omega (arith, even))
          ∙ source_stays k j log (omega arith)
          ∙ c.1 j (omega arith)),
      (λ s b start upto from below whole.
          next-others k b log (ground arith) whole
          ∙ ready k log c s b start (omega (arith, aligned)) (omega arith) below whole),
    )

    move_words-Copied :
        (n k offset : ℕ) (log : List FlashCall)
        → offset ≡ 4 * k
        → Copied k log
        → Copied (k + n) (move_words word n dst src offset log)
    unfolding move_words
    move_words-Copied zero k offset log e c = subst (λ m. Copied m log) (omega arith) c
    move_words-Copied (suc n) k offset log e c =
        subst (λ m. Copied m (move_words word (suc n) dst src offset log)) (omega arith)
          (move_words-Copied n (suc k) (offset + 4) _ (omega (arith, e)) (
            subst
              (λ o. Copied (suc k) (
                flash_write (dst + o)
                  (word_bytes (word (erase_if_needed word (dst + o) log) (src + o)))
                ∷ erase_if_needed word (dst + o) log))
              (sym e) (next-Copied k log c)))

  erase_behind-others :
      (n dst offset b : ℕ) (log : List FlashCall)
      → b < dst + offset
      → word (erase_behind word n dst offset log) b ≡ word log b
  unfolding erase_behind
  erase_behind-others zero dst offset b log h = refl
  erase_behind-others (suc n) dst offset b log h =
      erase_behind-others n dst (offset + 4) b (erase_if_needed word (dst + offset) log)
        (omega arith)
      ∙ erase_if_needed-others word laws (dst + offset) b log (inl h)

  -- Moving an image puts each of its words in place, for a target at the start of a sector and a
  -- source at a word at least a sector behind it. The regions may overlap: then the move erases and
  -- overwrites parts of the image that it has read.
  pub flash_move-words :
      (dst src size : ℕ) (log : List FlashCall)
      → dst % flash_sector_size ≡ 0
      → src % 4 ≡ 0
      → dst + flash_sector_size ≤ src
      → (j : ℕ) → 4 * j < size
      → word (flash_move word dst src size log) (dst + 4 * j) ≡ word log (src + 4 * j)
  unfolding flash_move
  flash_move-words dst src size log aligned even apart j lt =
      let start : Copied dst src log aligned even apart 0 log = (
        (λ i l. absurd (omega arith)),
        (λ i l. refl),
        λ s b st upto from below whole. absurd (no_sector dst s b aligned st upto from below),
      ) in
      let (done, left, rest) =
        move_words-Copied dst src log aligned even apart (words size) 0 0 log refl start in
      let moved : List FlashCall = move_words word (words size) dst src 0 log in
      let here : word moved (dst + 4 * j) ≡ word log (src + 4 * j) = done j (omega arith) in
      elim (Bool-cases (in_flash src)) [
        | inl inside ↦ rw inside (
            erase_behind-others (words (flash_size - flash_reserve - 4 * words size)) dst
              (4 * words size) (dst + 4 * j) moved (omega arith)
            ∙ here)
        | inr outside ↦ rw outside here
      ]
