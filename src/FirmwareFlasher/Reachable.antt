-- ===== src/FirmwareFlasher/Reachable.antt =====
-- What holds of an upgrade at any time before the reboot.
use Prim.Native.String.{String}
use lucidac_firmware.Common.{
  Bool, Option, ◌⊎◌, sym, ap, ◌∙◌, ℕ, true, ◌++◌, ◌%◌, ◌≡◌, refl, ◌==◌, ltb, false, not, inl, inr,
  List, [], All, arith, none, some, Option-cases, if-holds, subst,
}
use mathlib.Core.Bool.{true≢false}
use lucidac_firmware.Json.{JsonApi}
use lucidac_firmware.Flash.{FlashCall, flash_base_addr, erased_word, empty_buffer}
use lucidac_firmware.Flash.Words.{IsBuffer, firmware_buffer_init-IsBuffer}
use lucidac_firmware.FirmwareFlasher.{
  Reply, code, null_dereferenced, rebooted, complete, complete_to, FirmwareBuffer, FirmwareFlasher,
  FlasherEnv, transfer_completed, delete_upgrade, new_buffer, started, init, stream, abort,
}
use lucidac_firmware.FirmwareFlasher.Chunks.{
  KeepsCode, zero_le, fits_le, flash_erase_block-KeepsCode, IsReceived,
}
use lucidac_firmware.FirmwareFlasher.Sound.{
  is_off, is_on, counted, chunk_of, kept, started_anew, UpgradeIsSound, IsSound, SoundResult,
  stream-IsSound,
}

abbrev is_code : Reply → Bool
is_code (code n) = true
is_code null_dereferenced = false
is_code rebooted = false

module _ {F V H : Type 0} (js : JsonApi F V) (env : FlasherEnv H V) where
  -- The messages that were handled since the start-up, none of which led to a reboot or completed
  -- an upgrade that does not run, with the bytes that the client counts as sent for the running
  -- upgrade: none when it begins, and then those of the chunks that were answered with 0, in
  -- order.
  pub data Reachable : FirmwareFlasher H → List ℕ → List FlashCall → Type 0 where
    start_up : Reachable (record { upgrade = none; writer = empty_buffer }) [] []
    init_message :
        {fw : FirmwareFlasher H} {sent : List ℕ} {log : List FlashCall} (msg : List (String × V))
        → Reachable fw sent log
        → Reachable
            (init js env fw msg log).0.1
            (counted js env sent [] (init js env fw msg log).0.0)
            (init js env fw msg log).1
    stream_message :
        {fw : FirmwareFlasher H} {sent : List ℕ} {log : List FlashCall} (msg : List (String × V))
        → Reachable fw sent log
        → Reachable
            (stream js env fw msg log).0.1
            (counted js env sent (sent ++ chunk_of js env msg) (stream js env fw msg log).0.0)
            (stream js env fw msg log).1
    abort_message :
        {fw : FirmwareFlasher H} {sent : List ℕ} {log : List FlashCall}
        → Reachable fw sent log
        → Reachable (abort js env fw log).0.1 sent (abort js env fw log).1
    complete_message :
        {fw : FirmwareFlasher H} {sent : List ℕ} {log : List FlashCall} (n : ℕ)
        → Reachable fw sent log
        → (complete js env fw log).0.0 ≡ code n
        → Reachable (complete js env fw log).0.1 sent (complete js env fw log).1

  -- A completion that is answered with a code leaves everything as it was.
  record Answered (fw : FirmwareFlasher H) (log : List FlashCall)
      (r : (Reply × FirmwareFlasher H) × List FlashCall) : Type 0 where
    answered : (is_code (r.0.0) ≡ false) ⊎ ((r.0.1 ≡ fw) × (r.1 ≡ log))

  unchanged :
      (n : ℕ) (fw : FirmwareFlasher H) (log : List FlashCall) → Answered fw log ((code n, fw), log)
  unchanged n fw log = record { answered = inr (refl, refl) }

  complete-Answered :
      (fw : FirmwareFlasher H) (log : List FlashCall) → Answered fw log (complete js env fw log)
  unfolding complete
  complete-Answered fw log =
      if-holds (Answered fw log) (not env.enabled) _ _ (λ off. unchanged 0 fw log)
        (λ on. running fw.upgrade)
    where
      running : (u : Option (FirmwareBuffer H)) → Answered fw log (complete_to js env fw u log)
      running none = record { answered = inl refl }
      running (some b) =
          if-holds (Answered fw log) (not (transfer_completed b)) _ _ (λ e. unchanged 1 fw log)
            (λ whole.
              if-holds (Answered fw log)
                (not (env.same_hash (env.hash_sha256 log b.buffer_addr b.imagelen) b.upstream_hash))
                _ _ (λ e. unchanged 2 fw log) (λ same. record { answered = inl refl }))

  deleted-IsSound :
      (fw : FirmwareFlasher H) (b : FirmwareBuffer H) (sent any : List ℕ) (log : List FlashCall)
      → fw.writer.held ≡ []
      → All KeepsCode log
      → IsReceived js env b sent log
      → IsSound js env (delete_upgrade js env fw b log).0 any (delete_upgrade js env fw b log).1
  unfolding delete_upgrade
  deleted-IsSound fw b sent any log w all
        (before, (aligned, low, ends, erased), same, n, whole, most, fits) =
      (w, flash_erase_block-KeepsCode env.word b.buffer_addr b.buffer_size log low all, tt)

  module _
      (code_stays : (log : List FlashCall)
        → All KeepsCode log
        → (env.word log flash_base_addr == erased_word) ≡ false) where
    started-IsSound :
        (fw : FirmwareFlasher H) (sent : List ℕ) (msg : List (String × V)) (log : List FlashCall)
        → env.enabled ≡ true
        → fw.writer.held ≡ []
        → All KeepsCode log
        → SoundResult js env
            (counted js env sent [])
            (started js env fw (new_buffer js env msg log) log)
    unfolding delete_upgrade
    started-IsSound fw sent msg log on w all =
        let b : FirmwareBuffer H = new_buffer js env msg log in
        let buffer : IsBuffer env.word log (b.buffer_addr, b.buffer_size) =
          firmware_buffer_init-IsBuffer env.word log (code_stays log all) in
        if-holds (SoundResult js env (counted js env sent [])) (ltb b.buffer_size b.imagelen) _ _
          (λ large. kept js env 2 _ sent [] _ refl (
            w,
            flash_erase_block-KeepsCode env.word b.buffer_addr b.buffer_size log (buffer.1) all,
            tt,
          ))
          (λ fits.
            started_anew js env (record fw { upgrade = some b }) sent [] log on
              (
                w,
                all,
                (
                  log,
                  buffer,
                  refl,
                  refl,
                  refl,
                  zero_le b.imagelen,
                  fits_le b.buffer_size b.imagelen fits,
                ),
              ))

    init-IsSound :
        (fw : FirmwareFlasher H) (sent : List ℕ) (msg : List (String × V)) (log : List FlashCall)
        → IsSound js env fw sent log
        → SoundResult js env (counted js env sent []) (init js env fw msg log)
    unfolding init
    init-IsSound fw sent msg log (w, all, up) =
        if-holds (SoundResult js env (counted js env sent [])) (not env.enabled) _ _
          (λ off. kept js env 0 fw sent [] log (is_off env.enabled off) (w, all, up))
          (λ on. elim (Option-cases fw.upgrade) [
            | inr (b, e) ↦
                rw (init, e)
                  record { sound = (kept js env 1 fw sent [] log refl (w, all, up)).sound }
            | inl e ↦
                rw (init, e)
                  record {
                    sound = (started-IsSound fw sent msg log (is_on env.enabled on) w all).sound;
                  }
          ])

    abort-IsSound :
        (fw : FirmwareFlasher H) (sent : List ℕ) (log : List FlashCall)
        → IsSound js env fw sent log
        → SoundResult js env (λ reply. sent) (abort js env fw log)
    unfolding abort
    abort-IsSound fw sent log (w, all, up) =
        if-holds (SoundResult js env (λ reply. sent)) (not env.enabled) _ _
          (λ off. record { sound = (w, all, up) })
          (λ on. elim (Option-cases fw.upgrade) [
            | inl e ↦ rw (abort, e) record { sound = (w, all, up) }
            | inr (b, e) ↦
                rw (abort, e)
                  record {
                    sound =
                        deleted-IsSound fw b sent sent log w all
                          (subst (λ u. UpgradeIsSound js env u sent log) e up);
                  }
          ])

    -- At any time before the reboot, unless a completion came while no upgrade ran (it
    -- dereferences a null pointer), whatever messages came in whatever order: the first sector of
    -- the program was not touched, and a running upgrade has its image announced as not larger
    -- than its buffer and has received a multiple of 4 bytes and no more than announced. They are
    -- as many as the bytes of the chunks that were answered with 0 since the upgrade began, and
    -- exactly those bytes were written, in order, from the start of the buffer on. The buffer
    -- starts at a sector, ends where the reserved region starts and was erased when the upgrade
    -- began, since when nothing else was done to the flash. (The first word of the program must
    -- not look erased as long as its sector is not touched.)
    pub reachable_upgrade-IsSound :
        (fw : FirmwareFlasher H) (sent : List ℕ) (log : List FlashCall)
        → Reachable fw sent log
        → IsSound js env fw sent log
    reachable_upgrade-IsSound _ _ _ start_up = (refl, tt, tt)
    reachable_upgrade-IsSound _ _ _ (init_message {fw} {sent} {log} msg r) =
        (init-IsSound fw sent msg log (reachable_upgrade-IsSound fw sent log r)).sound
    reachable_upgrade-IsSound _ _ _ (stream_message {fw} {sent} {log} msg r) =
        (stream-IsSound js env fw sent msg log (reachable_upgrade-IsSound fw sent log r)).sound
    reachable_upgrade-IsSound _ _ _ (abort_message {fw} {sent} {log} r) =
        (abort-IsSound fw sent log (reachable_upgrade-IsSound fw sent log r)).sound
    reachable_upgrade-IsSound _ _ _ (complete_message {fw} {sent} {log} n r e) =
        elim (complete-Answered fw log).answered [
          | inl other ↦ absurd (true≢false (sym (ap is_code e) ∙ other))
          | inr (same, same_log) ↦
              subst (λ f. IsSound js env f sent (complete js env fw log).1) (sym same)
                (subst (λ l. IsSound js env fw sent l) (sym same_log)
                  (reachable_upgrade-IsSound fw sent log r))
        ]

    -- An upgrade whose image is announced with a length that is not a multiple of 4 is never
    -- complete, whatever is sent.
    uneven_upgrade-stays :
        (fw : FirmwareFlasher H) (sent : List ℕ) (log : List FlashCall) (b : FirmwareBuffer H)
        → Reachable fw sent log
        → fw.upgrade ≡ some b
        → ¬ (b.imagelen % 4 ≡ 0)
        → transfer_completed b ≡ false
    unfolding transfer_completed
    uneven_upgrade-stays fw sent log b r e uneven =
        let (w, all, up) = reachable_upgrade-IsSound fw sent log r in
        let (before, buffer, same, n, whole, most, fits) =
          subst (λ u. UpgradeIsSound js env u sent log) e up in
        ground arith
