-- ===== src/FirmwareFlasher/Installed.antt =====
-- What completing an upgrade leaves in place of the program.
use lucidac_firmware.Common.{
  ℕ, ◌+◌, ◌*◌, ◌%◌, ◌<◌, ◌≡◌, ◌⊎◌, inl, inr, refl, ◌==◌, ==_iff, Bool, true, false, not, if-holds,
  ◌&&◌, Bool-cases, and_true, List, All, arith, some, sym, subst,
}
use lucidac_firmware.Json.{JsonApi}
use lucidac_firmware.Flash.{FlashCall, flash_move, flash_base_addr, flash_sector_size, erased_word}
use lucidac_firmware.Flash.Laws.{FlashLaws}
use lucidac_firmware.Flash.Move.{flash_move-words}
use lucidac_firmware.FirmwareFlasher.{
  FirmwareBuffer, FirmwareFlasher, FlasherEnv, Reply, code, rebooted, transfer_completed,
  complete_with, complete_to, complete,
}
use lucidac_firmware.FirmwareFlasher.Chunks.{KeepsCode, IsReceived}
use lucidac_firmware.FirmwareFlasher.Sound.{UpgradeIsSound, is_on}
use lucidac_firmware.FirmwareFlasher.Reachable.{Reachable, reachable_upgrade-IsSound}

sector_word : (a : ℕ) → a % flash_sector_size ≡ 0 → a % 4 ≡ 0
sector_word a h = omega arith

without_first : (a b c : Bool) → not a ≡ true → (a && b && c) ≡ false
without_first a b c h = ground arith

module _ {F V H : Type 0} (js : JsonApi F V) (env : FlasherEnv H V) where
  -- An upgrade that may be installed: all bytes were received, and their hash is the announced one.
  abbrev pub is_ready : FirmwareBuffer H → List FlashCall → Bool
  is_ready b log =
      env.enabled
      && transfer_completed b
      && env.same_hash (env.hash_sha256 log b.buffer_addr b.imagelen) b.upstream_hash

  -- The processor is rebooted, the whole image was received and is what was sent, and each of its words
  -- stands where the program starts.
  abbrev pub IsInstalled :
      FirmwareBuffer H
      → List ℕ
      → List FlashCall
      → (Reply × FirmwareFlasher H) × List FlashCall
      → Type 0
  IsInstalled b sent log r =
      (r.0.0 ≡ rebooted)
      × IsReceived js env b sent log
      × (b.imagelen ≡ b.bytes_transmitted)
      × ((j : ℕ)
          → 4 * j < b.imagelen
          → env.word (r.1) (flash_base_addr + 4 * j) ≡ env.word log (b.buffer_addr + 4 * j))

  abbrev pub IsRefused :
      FirmwareFlasher H → List FlashCall → (Reply × FirmwareFlasher H) × List FlashCall → Type 0
  IsRefused fw log r = (n : ℕ) × (r ≡ ((code n, fw), log))

  -- What completing can end with.
  abbrev pub Outcome :
      FirmwareFlasher H
      → FirmwareBuffer H
      → List ℕ
      → List FlashCall
      → (Reply × FirmwareFlasher H) × List FlashCall
      → Type 0
  Outcome fw b sent log r =
      ((is_ready b log ≡ false) × IsRefused fw log r)
      ⊎ ((is_ready b log ≡ true) × IsInstalled b sent log r)

  complete_with-IsRefused :
      (fw : FirmwareFlasher H) (b : FirmwareBuffer H) (log : List FlashCall)
      → env.enabled ≡ true
      → is_ready b log ≡ false
      → IsRefused fw log (complete_with js env fw b log)
  complete_with-IsRefused fw b log on h = elim (Bool-cases (transfer_completed b)) [
    | inr missing ↦ (1, rw missing refl)
    | inl whole ↦ (2, rw (whole, rw (on, whole) at h) refl)
  ]

  complete_with-ready :
      (fw : FirmwareFlasher H) (b : FirmwareBuffer H) (log : List FlashCall)
      → is_ready b log ≡ true
      → complete_with js env fw b log
        ≡ ((rebooted, fw), flash_move env.word flash_base_addr b.buffer_addr b.imagelen log)
  complete_with-ready fw b log h =
      let (both, same) = and_true _ _ h in
      rw ((and_true env.enabled (transfer_completed b) both).1, same) refl

  module _ (laws : FlashLaws env.word)
      (code_stays : (log : List FlashCall)
        → All KeepsCode log
        → (env.word log flash_base_addr == erased_word) ≡ false) where
    moved-IsInstalled :
        (fw : FirmwareFlasher H) (b : FirmwareBuffer H) (sent : List ℕ) (log : List FlashCall)
        → IsReceived js env b sent log
        → is_ready b log ≡ true
        → IsInstalled b sent log (complete_with js env fw b log)
    unfolding transfer_completed
    moved-IsInstalled fw b sent log received h =
        let (before, (aligned, low, ends, erased), same, n, fours, most, fits) = received in
        let whole : transfer_completed b ≡ true =
          (and_true env.enabled (transfer_completed b) ((and_true _ _ h).0)).1 in
        subst (IsInstalled b sent log) (sym (complete_with-ready fw b log h)) (
          refl,
          received,
          (==_iff _ _).0 whole,
          flash_move-words env.word laws flash_base_addr b.buffer_addr b.imagelen log refl
              (sector_word b.buffer_addr aligned) low,
        )

    running-IsReceived :
        (fw : FirmwareFlasher H) (b : FirmwareBuffer H) (sent : List ℕ) (log : List FlashCall)
        → Reachable js env fw sent log
        → fw.upgrade ≡ some b
        → IsReceived js env b sent log
    running-IsReceived fw b sent log r e =
        let (w, all, up) = reachable_upgrade-IsSound js env code_stays fw sent log r in
        subst (λ u. UpgradeIsSound js env u sent log) e up

    -- Completing a running upgrade, whatever messages came before: if flashing is enabled, all bytes
    -- were received and the hash of the buffer is the announced one, the whole image, which is
    -- the bytes of the chunks that were answered with 0, is moved in place of the program, word by
    -- word, and the processor is rebooted. Otherwise the flash and the
    -- upgrade stay as they are, and a code is returned. (The flash must follow its laws, and the
    -- first word of the program not look erased as long as its sector is not touched.)
    pub complete_lem :
        (fw : FirmwareFlasher H) (sent : List ℕ) (log : List FlashCall) (b : FirmwareBuffer H)
        → Reachable js env fw sent log
        → fw.upgrade ≡ some b
        → Outcome fw b sent log (complete js env fw log)
    unfolding complete
    complete_lem fw sent log b r e =
        if-holds (Outcome fw b sent log) (not env.enabled) _ _
          (λ off. inl (without_first _ _ _ off, (0, refl)))
          (λ on.
            subst (λ u. Outcome fw b sent log (complete_to js env fw u log)) (sym e)
              (elim (Bool-cases (is_ready b log)) [
                | inr h ↦ inl (h, complete_with-IsRefused fw b log (is_on _ on) h)
                | inl h ↦
                    inr
                      (h, moved-IsInstalled fw b sent log (running-IsReceived fw b sent log r e) h)
              ]))
