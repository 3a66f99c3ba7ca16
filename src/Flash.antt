-- ===== src/Flash.antt =====
-- The flash memory that holds the program, and the functions of
-- lib/controller/src/ota/flasher.cpp that search, erase and write it. Erasing and writing themselves
-- are calls of the processor's core library: the functions leave them in a log, newest first.
pub mod Words
pub mod Laws
pub mod Move
pub mod Memory
use lucidac_firmware.Common.{
  ℕ, zero, suc, ◌+◌, ◌-◌, ◌*◌, ◌/◌, ◌%◌, ◌^◌, ◌==◌, leb, ltb, Bool, true, false, not, ◌&&◌, ◌||◌,
  if◌then◌else◌, List, [], ◌∷◌, ◌++◌, length, any, index_range,
}

-- `eepromemu_flash_write` of some bytes, and `eepromemu_flash_erase_sector`.
pub data FlashCall : Type 0 where
  flash_write : ℕ → List ℕ → FlashCall
  flash_erase : ℕ → FlashCall

abbrev pub flash_size : ℕ
flash_size = 0x800000

abbrev pub flash_sector_size : ℕ
flash_sector_size = 0x1000

abbrev pub flash_reserve : ℕ
flash_reserve = 80 * flash_sector_size

abbrev pub flash_base_addr : ℕ
flash_base_addr = 0x60000000

-- The first address that is reserved.
abbrev pub buffer_end : ℕ
buffer_end = flash_base_addr + flash_size - flash_reserve

abbrev pub erased_word : ℕ
erased_word = 0xFFFFFFFF

abbrev pub in_flash : ℕ → Bool
in_flash a = leb flash_base_addr a && ltb a (flash_base_addr + flash_size)

-- Code that works on the flash.
abbrev pub Flash {ℓ} : Type ℓ → Type ℓ
Flash A = List FlashCall → A × List FlashCall

-- The next sector boundary, if the address is not on one.
abbrev pub sector_above : ℕ → ℕ
sector_above a =
    if ltb 0 (a % flash_sector_size) then a + (flash_sector_size - a % flash_sector_size) else a

-- The four bytes of a word, as they stand in memory.
abbrev pub word_bytes : ℕ → List ℕ
word_bytes v = v % 256 ∷ v / 256 % 256 ∷ v / 65536 % 256 ∷ v / 16777216 % 256 ∷ []

-- Rounded up to whole words.
abbrev pub words : ℕ → ℕ
words size = (size + 3) / 4

-- `word log a` is the 32-bit word at address a after the calls of the log.
module _ (word : List FlashCall → ℕ → ℕ) where
  -- The search of `firmware_buffer_init` at the address 4 * k, which it leaves where the loop stops.
  unfoldable pub code_end : ℕ → List FlashCall → ℕ
  code_end zero log = 0
  code_end (suc k) log = elim (word log (4 * suc k) == erased_word) [
    | true ↦ code_end k log
    | false ↦ 4 * suc k
  ]

  -- The address and the size of the buffer. The size is a difference of 32-bit numbers.
  unfoldable pub firmware_buffer_init : List FlashCall → ℕ × ℕ
  unfolding code_end
  firmware_buffer_init log =
      let addr = sector_above (code_end ((buffer_end - 4) / 4) log + 4) in
      (addr, (buffer_end + 2 ^ 32 - addr) % 2 ^ 32)

  unfoldable pub flash_sector_not_erased : ℕ → List FlashCall → Bool
  flash_sector_not_erased address log =
      let sector = address - address % flash_sector_size in
      any (λ i. not (word log (sector + 4 * i) == erased_word)) (index_range 1024)

  -- The sector that starts at the address is erased if it is not.
  abbrev pub erase_if_needed : ℕ → List FlashCall → List FlashCall
  erase_if_needed address log =
      if address % flash_sector_size == 0 && flash_sector_not_erased address log
      then flash_erase address ∷ log
      else log

  -- The rounds of `flash_erase_block` that are left.
  unfoldable pub erase_sectors : ℕ → ℕ → List FlashCall → List FlashCall
  unfolding flash_sector_not_erased
  erase_sectors zero address log = log
  erase_sectors (suc n) address log =
      erase_sectors n (address + flash_sector_size) (erase_if_needed address log)

  -- The loop makes a round for each started sector of the size; its result is always 0.
  unfoldable pub flash_erase_block : ℕ → ℕ → List FlashCall → List FlashCall
  unfolding erase_sectors
  flash_erase_block start size =
      erase_sectors ((size + (flash_sector_size - 1)) / flash_sector_size) start

  -- The rounds of the two loops of `flash_move` that are left, with the offset.
  unfoldable pub move_words : ℕ → ℕ → ℕ → ℕ → List FlashCall → List FlashCall
  unfolding flash_sector_not_erased
  move_words zero dst src offset log = log
  move_words (suc n) dst src offset log =
      let log' = erase_if_needed (dst + offset) log in
      move_words n dst src (offset + 4)
        (flash_write (dst + offset) (word_bytes (word log' (src + offset))) ∷ log')

  unfoldable pub erase_behind : ℕ → ℕ → ℕ → List FlashCall → List FlashCall
  unfolding flash_sector_not_erased
  erase_behind zero dst offset log = log
  erase_behind (suc n) dst offset log =
      erase_behind n dst (offset + 4) (erase_if_needed (dst + offset) log)

  -- The reboot that follows is left to the caller.
  unfoldable pub flash_move : ℕ → ℕ → ℕ → List FlashCall → List FlashCall
  unfolding move_words erase_behind
  flash_move dst src size log =
      let moved = move_words (words size) dst src 0 log in
      if in_flash src
      then erase_behind (words (flash_size - flash_reserve - 4 * words size)) dst (4 * words size)
          moved
      else moved

-- The static variables of `flash_write_block`: the bytes in its buffer and the expected address.
pub record WriteBuffer : Type 0 where
  pub held : List ℕ
  pub next_addr : ℕ

abbrev pub empty_buffer : WriteBuffer
empty_buffer = record { held = []; next_addr = 0 }

-- The loop over the bytes that are left: what stays in the buffer, and the log.
unfoldable pub copy_bytes : ℕ → List ℕ → List ℕ → Flash (List ℕ)
copy_bytes addr held [] log = (held, log)
copy_bytes addr held (x ∷ xs) log =
    let filled = held ++ (x ∷ []) in
    elim (ltb (length filled) 4) [
      | true ↦ copy_bytes addr filled xs log
      | false ↦ copy_bytes (addr + 4) [] xs (flash_write addr filled ∷ log)
    ]

-- The error code, which is 0 on success, and the static variables.
unfoldable pub flash_write_block : WriteBuffer → ℕ → List ℕ → Flash (ℕ × WriteBuffer)
unfolding copy_bytes
flash_write_block b addr bytes log =
    if not (in_flash addr)
    then ((4, b), log)
    else if not (addr % 4 == 0) || not (length bytes % 4 == 0)
    then ((1, b), log)
    else if ltb 0 (length b.held) && not (addr == b.next_addr)
    then ((2, b), log)
    else (let (kept, log') = copy_bytes (addr - length b.held) b.held bytes log in
        ((0, record { held = kept; next_addr = addr + length bytes }), log'))
