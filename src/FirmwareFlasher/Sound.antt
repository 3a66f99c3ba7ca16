-- ===== src/FirmwareFlasher/Sound.antt =====
-- What a chunk does to a running upgrade.
use Prim.Native.String.{String, len}
use lucidac_firmware.Common.{
  arith, ℕ, ◌+◌, ◌%◌, ◌≤◌, ◌≡◌, refl, ◌==◌, ltb, false, not, inl, inr, List, [], length, All,
  Option, none, some, sym, Option-cases, if-holds, subst, true, Bool, ◌&&◌, ◌++◌, if◌then◌else◌,
}
use lucidac_firmware.Json.{JsonApi}
use lucidac_firmware.Flash.{FlashCall}
use lucidac_firmware.FirmwareFlasher.{
  FirmwareBuffer, FirmwareFlasher, FlasherEnv, Reply, code, null_dereferenced, rebooted,
  transfer_completed, bin_chunk_size, write_chunk, check_chunk, stream_into, stream_to, stream,
  message_field,
}
use lucidac_firmware.FirmwareFlasher.Chunks.{
  KeepsCode, fits_le, stored-KeepsCode, IsReceived, writer_after, chunk_written,
  write_chunk-written, above_code, received-IsReceived,
}

fours : (n : ℕ) → not (n % 4 == 0) ≡ false → n % 4 ≡ 0
fours n h = ground arith

pub is_off : (a : Bool) → not a ≡ true → a ≡ false
is_off a h = ground arith

pub is_on : (a : Bool) → not a ≡ false → a ≡ true
is_on a h = ground arith

module _ {F V H : Type 0} (js : JsonApi F V) (env : FlasherEnv H V) where
  -- For the bytes that a running upgrade was sent.
  abbrev pub UpgradeIsSound : Option (FirmwareBuffer H) → List ℕ → List FlashCall → Type 0
  UpgradeIsSound none sent log = Unit
  UpgradeIsSound (some b) sent log = IsReceived js env b sent log

  abbrev pub IsSound : FirmwareFlasher H → List ℕ → List FlashCall → Type 0
  IsSound fw sent log =
      (fw.writer.held ≡ []) × All KeepsCode log × UpgradeIsSound fw.upgrade sent log

  upgrade_of :
      (fw : FirmwareFlasher H) (sent : List ℕ) (log : List FlashCall)
      → IsSound fw sent log
      → UpgradeIsSound fw.upgrade sent log
  upgrade_of fw sent log (w, all, up) = up

  abbrev pub payload_of : List (String × V) → String
  payload_of msg = js.to_text (message_field js env "payload" msg)

  -- The bytes that a message carries.
  abbrev pub chunk_of : List (String × V) → List ℕ
  chunk_of msg = env.decode (payload_of msg) bin_chunk_size

  -- What a client counts as sent, by the reply: new bytes if it is a success of a build that allows
  -- flashing, else the old ones.
  abbrev pub counted : List ℕ → List ℕ → Reply → List ℕ
  counted old new (code n) = if n == 0 && env.enabled then new else old
  counted old new null_dereferenced = old
  counted old new rebooted = old

  -- Its own type, so that the branches of a handler are found.
  pub record SoundResult (sent : Reply → List ℕ) (r : (Reply × FirmwareFlasher H) × List FlashCall)
      : Type 0 where
    pub sound : IsSound (r.0.1) (sent (r.0.0)) (r.1)

  pub kept :
      (n : ℕ) (fw : FirmwareFlasher H) (old new : List ℕ) (log : List FlashCall)
      → (n == 0 && env.enabled) ≡ false
      → IsSound fw old log
      → SoundResult (counted old new) ((code n, fw), log)
  kept n fw old new log e h = record {
    sound = subst (λ c. IsSound fw (if c then new else old) log) (sym e) h;
  }

  pub started_anew :
      (fw : FirmwareFlasher H) (old new : List ℕ) (log : List FlashCall)
      → env.enabled ≡ true
      → IsSound fw new log
      → SoundResult (counted old new) ((code 0, fw), log)
  started_anew fw old new log on h = record {
    sound = subst (λ c. IsSound fw (if c then new else old) log) (sym on) h;
  }

  written-IsSound :
      (fw : FirmwareFlasher H) (b : FirmwareBuffer H) (sent bytes : List ℕ) (log : List FlashCall)
      → env.enabled ≡ true
      → fw.writer.held ≡ []
      → All KeepsCode log
      → IsReceived js env b sent log
      → (length bytes == 0) ≡ false
      → b.bytes_transmitted + length bytes ≤ b.imagelen
      → length bytes % 4 ≡ 0
      → SoundResult (counted sent (sent ++ bytes)) (write_chunk js env fw b bytes log)
  unfolding writer_after
  written-IsSound fw b sent bytes log on w all r some_bytes under full =
      subst (SoundResult (counted sent (sent ++ bytes)))
        (sym (
          write_chunk-written js env fw b bytes log _ _
            (chunk_written js env fw.writer b sent bytes log w r some_bytes under full)))
        (started_anew _ sent (sent ++ bytes) _ on (
          refl,
          stored-KeepsCode (b.buffer_addr + b.bytes_transmitted) bytes log
              (above_code js env b sent log r) all,
          received-IsReceived js env b sent bytes log r under full,
        ))

  check_chunk-IsSound :
      (fw : FirmwareFlasher H) (b : FirmwareBuffer H) (sent bytes : List ℕ) (log : List FlashCall)
      → env.enabled ≡ true
      → IsSound fw sent log
      → IsReceived js env b sent log
      → SoundResult (counted sent (sent ++ bytes)) (check_chunk js env fw b bytes log)
  check_chunk-IsSound fw b sent bytes log on h r =
      if-holds (SoundResult (counted sent (sent ++ bytes))) (length bytes == 0) _ _
        (λ e. kept 2 fw sent (sent ++ bytes) log refl h)
        (λ given.
          if-holds (SoundResult (counted sent (sent ++ bytes))) (ltb bin_chunk_size (length bytes))
            _ _ (λ e. kept 6 fw sent (sent ++ bytes) log refl h)
            (λ short.
              if-holds (SoundResult (counted sent (sent ++ bytes)))
                (ltb b.imagelen (b.bytes_transmitted + length bytes)) _ _
                (λ e. kept 7 fw sent (sent ++ bytes) log refl h)
                (λ under.
                  if-holds (SoundResult (counted sent (sent ++ bytes)))
                    (not (length bytes % 4 == 0)) _ _
                    (λ e. kept 8 fw sent (sent ++ bytes) log refl h)
                    (λ full.
                      written-IsSound fw b sent bytes log on h.0 h.1 r given (fits_le _ _ under)
                        (fours (length bytes) full)))))

  stream_into-IsSound :
      (fw : FirmwareFlasher H) (b : FirmwareBuffer H) (sent : List ℕ) (payload : String)
      (log : List FlashCall)
      → env.enabled ≡ true
      → IsSound fw sent log
      → IsReceived js env b sent log
      → SoundResult
          (counted sent (sent ++ env.decode payload bin_chunk_size))
          (stream_into js env fw b payload log)
  unfolding stream_into
  stream_into-IsSound fw b sent payload log on h r =
      let P = SoundResult (counted sent (sent ++ env.decode payload bin_chunk_size)) in
      if-holds P (transfer_completed b) _ _ (λ e. kept 2 fw sent _ log refl h)
        (λ more.
          if-holds P (len payload == 0) _ _ (λ e. kept 3 fw sent _ log refl h)
            (λ given.
              if-holds P (not (len payload % 4 == 0)) _ _ (λ e. kept 4 fw sent _ log refl h)
                (λ whole.
                  check_chunk-IsSound fw b sent (env.decode payload bin_chunk_size) log on h r)))

  pub stream-IsSound :
      (fw : FirmwareFlasher H) (sent : List ℕ) (msg : List (String × V)) (log : List FlashCall)
      → IsSound fw sent log
      → SoundResult (counted sent (sent ++ chunk_of msg)) (stream js env fw msg log)
  unfolding stream
  stream-IsSound fw sent msg log h =
      if-holds (SoundResult (counted sent (sent ++ chunk_of msg))) (not env.enabled) _ _
        (λ off. kept 0 fw sent (sent ++ chunk_of msg) log (is_off env.enabled off) h)
        (λ on. elim (Option-cases fw.upgrade) [
          | inl e ↦
              subst
                (λ u.
                  SoundResult (counted sent (sent ++ chunk_of msg))
                    (stream_to js env fw u (payload_of msg) log))
                (sym e) (kept 1 fw sent (sent ++ chunk_of msg) log refl h)
          | inr (b, e) ↦
              subst
                (λ u.
                  SoundResult (counted sent (sent ++ chunk_of msg))
                    (stream_to js env fw u (payload_of msg) log))
                (sym e)
                (stream_into-IsSound fw b sent (payload_of msg) log (is_on env.enabled on) h
                  (subst (λ u. UpgradeIsSound u sent log) e (upgrade_of fw sent log h)))
        ])
