-- ===== src/FirmwareFlasher/Chunks.antt =====
-- What a chunk that passes the checks leaves in the flash.
use lucidac_firmware.Common.{
  ℕ, zero, suc, ◌+◌, ◌%◌, ◌≤◌, ◌≡◌, refl, ◌==◌, ltb, Bool, true, false, if◌then◌else◌, List, [],
  ◌∷◌, ◌++◌, length, length-append, All, arith, some, sym, subst,
}
use lucidac_firmware.Json.{JsonApi}
use lucidac_firmware.Flash.{
  FlashCall, flash_write, flash_erase, flash_sector_size, flash_base_addr, buffer_end,
  erase_if_needed, erase_sectors, flash_erase_block, in_flash, WriteBuffer, flash_write_block,
}
use lucidac_firmware.Flash.Words.{stored, stored-append, flash_write_block-stored, IsBuffer}
use lucidac_firmware.FirmwareFlasher.{
  FirmwareBuffer, FirmwareFlasher, FlasherEnv, code, received, write_chunk,
}

pub zero_le : (n : ℕ) → 0 ≤ n
zero_le n = omega arith

pub fits_le : (a b : ℕ) → ltb a b ≡ false → b ≤ a
fits_le a b h = ground arith

inside :
    (a n size t i : ℕ)
    → flash_base_addr + flash_sector_size ≤ a
    → a + size ≡ buffer_end
    → t + n ≤ i
    → i ≤ size
    → (n == 0) ≡ false
    → in_flash (a + t) ≡ true
inside a n size t i low ends under fits some_bytes = ground arith

aligned_sum : (a t : ℕ) → a % flash_sector_size ≡ 0 → t % 4 ≡ 0 → (a + t) % 4 ≡ 0
aligned_sum a t h k = omega arith

higher :
    (a t : ℕ)
    → flash_base_addr + flash_sector_size ≤ a
    → flash_base_addr + flash_sector_size ≤ a + t
higher a t h = omega arith

-- A call that leaves the first sector of the program alone.
abbrev pub KeepsCode : FlashCall → Type 0
KeepsCode (flash_write a bytes) = flash_base_addr + flash_sector_size ≤ a
KeepsCode (flash_erase a) = flash_base_addr + flash_sector_size ≤ a

pub stored-KeepsCode :
    (a : ℕ) (xs : List ℕ) (log : List FlashCall)
    → flash_base_addr + flash_sector_size ≤ a
    → All KeepsCode log
    → All KeepsCode (stored a xs log)
stored-KeepsCode a [] log h all = all
stored-KeepsCode a (w ∷ []) log h all = all
stored-KeepsCode a (w ∷ (x ∷ [])) log h all = all
stored-KeepsCode a (w ∷ (x ∷ (y ∷ []))) log h all = all
stored-KeepsCode a (w ∷ (x ∷ (y ∷ (z ∷ r)))) log h all =
    stored-KeepsCode (a + 4) r (flash_write a (w ∷ x ∷ y ∷ z ∷ []) ∷ log) (omega arith) (h, all)

module _ (word : List FlashCall → ℕ → ℕ) where
  erased-KeepsCode :
      (b : Bool) (a : ℕ) (log : List FlashCall)
      → flash_base_addr + flash_sector_size ≤ a
      → All KeepsCode log
      → All KeepsCode (if b then flash_erase a ∷ log else log)
  erased-KeepsCode true a log h all = (h, all)
  erased-KeepsCode false a log h all = all

  erase_sectors-KeepsCode :
      (n a : ℕ) (log : List FlashCall)
      → flash_base_addr + flash_sector_size ≤ a
      → All KeepsCode log
      → All KeepsCode (erase_sectors word n a log)
  unfolding erase_sectors
  erase_sectors-KeepsCode zero a log h all = all
  erase_sectors-KeepsCode (suc n) a log h all =
      erase_sectors-KeepsCode n (a + flash_sector_size) (erase_if_needed word a log) (omega arith)
        (erased-KeepsCode _ a log h all)

  pub flash_erase_block-KeepsCode :
      (a size : ℕ) (log : List FlashCall)
      → flash_base_addr + flash_sector_size ≤ a
      → All KeepsCode log
      → All KeepsCode (flash_erase_block word a size log)
  unfolding flash_erase_block
  flash_erase_block-KeepsCode a size log h all = search (erase_sectors-KeepsCode, h, all)

module _ {F V H : Type 0} (js : JsonApi F V) (env : FlasherEnv H V) where
  -- The bytes that an upgrade was sent, and no others, were written from the start of its buffer on,
  -- and nothing else was done to the flash since the upgrade began. The buffer was erased then.
  abbrev pub IsReceived : FirmwareBuffer H → List ℕ → List FlashCall → Type 0
  IsReceived b sent log =
      (before : List FlashCall) × IsBuffer env.word before (b.buffer_addr, b.buffer_size)
      × (log ≡ stored b.buffer_addr sent before)
      × (length sent ≡ b.bytes_transmitted)
      × (b.bytes_transmitted % 4 ≡ 0)
      × (b.bytes_transmitted ≤ b.imagelen)
      × (b.imagelen ≤ b.buffer_size)

  unfoldable pub writer_after : FirmwareBuffer H → List ℕ → WriteBuffer
  writer_after b bytes = record {
    held = [];
    next_addr = b.buffer_addr + b.bytes_transmitted + length bytes;
  }

  -- A chunk that passes the checks is written behind what was received.
  pub chunk_written :
      (writer : WriteBuffer) (b : FirmwareBuffer H) (sent bytes : List ℕ) (log : List FlashCall)
      → writer.held ≡ []
      → IsReceived b sent log
      → (length bytes == 0) ≡ false
      → b.bytes_transmitted + length bytes ≤ b.imagelen
      → length bytes % 4 ≡ 0
      → flash_write_block writer (b.buffer_addr + b.bytes_transmitted) bytes log
        ≡ ((0, writer_after b bytes), stored (b.buffer_addr + b.bytes_transmitted) bytes log)
  unfolding writer_after
  chunk_written writer b sent bytes log w
        (before, (aligned, low, ends, erased), same, n, whole, most, fits) some_bytes under full =
      subst
        (λ h.
          flash_write_block (record { held = h; next_addr = writer.next_addr })
            (b.buffer_addr + b.bytes_transmitted) bytes log
          ≡ ((0, writer_after b bytes), stored (b.buffer_addr + b.bytes_transmitted) bytes log))
        (sym w)
        (flash_write_block-stored writer.next_addr (b.buffer_addr + b.bytes_transmitted) bytes log
          (inside b.buffer_addr (length bytes) b.buffer_size b.bytes_transmitted b.imagelen low ends
            under fits some_bytes)
          (aligned_sum b.buffer_addr b.bytes_transmitted aligned whole) full)

  pub write_chunk-written :
      (fw : FirmwareFlasher H) (b : FirmwareBuffer H) (bytes : List ℕ) (log log' : List FlashCall)
      (wb : WriteBuffer)
      → flash_write_block fw.writer (b.buffer_addr + b.bytes_transmitted) bytes log
        ≡ ((0, wb), log')
      → write_chunk js env fw b bytes log ≡ (
        (code 0, record { upgrade = some (received js env b (length bytes)); writer = wb }),
        log',
      )
  write_chunk-written fw b bytes log log' wb e = rw e refl

  pub above_code :
      (b : FirmwareBuffer H) (sent : List ℕ) (log : List FlashCall)
      → IsReceived b sent log
      → flash_base_addr + flash_sector_size ≤ b.buffer_addr + b.bytes_transmitted
  above_code b sent log (before, (aligned, low, ends, erased), same, n, whole, most, fits) =
      higher b.buffer_addr b.bytes_transmitted low

  -- The invariant behind a chunk.
  pub received-IsReceived :
      (b : FirmwareBuffer H) (sent bytes : List ℕ) (log : List FlashCall)
      → IsReceived b sent log
      → b.bytes_transmitted + length bytes ≤ b.imagelen
      → length bytes % 4 ≡ 0
      → IsReceived
          (received js env b (length bytes))
          (sent ++ bytes)
          (stored (b.buffer_addr + b.bytes_transmitted) bytes log)
  received-IsReceived b sent bytes log (before, buffer, same, n, whole, most, fits) under full = (
    before,
    buffer,
    rw (same, ← n) (sym (stored-append b.buffer_addr sent bytes before (rw n whole))),
    omega (arith, length-append sent bytes, n),
    omega arith,
    under,
    fits,
  )
