-- ===== src/FirmwareFlasher/Upload.antt =====
-- What becomes of an image that is sent in chunks.
use Prim.Native.String.{String, len}
use lucidac_firmware.Common.{
  ℕ, ◌+◌, ◌%◌, ◌≤◌, ◌≡◌, refl, ◌==◌, ==_iff, ==_refl, ltb, Bool, true, false, not, ◌&&◌, List, map,
  le→ltb, [], ◌∷◌, ◌++◌, length, length-append, All, arith, some, ap, sym, ◌∙◌, if◌then◌else◌,
}
use lucidac_firmware.Json.{JsonApi}
use lucidac_firmware.Flash.{FlashCall, Flash}
use lucidac_firmware.Flash.Words.{stored, stored-append}
use lucidac_firmware.FirmwareFlasher.{
  FirmwareBuffer, FirmwareFlasher, FlasherEnv, Reply, code, transfer_completed, bin_chunk_size,
  received, write_chunk, check_chunk, stream_into, stream_to, stream,
}
use lucidac_firmware.FirmwareFlasher.Sound.{payload_of, chunk_of}
use lucidac_firmware.FirmwareFlasher.Chunks.{
  IsReceived, writer_after, chunk_written, write_chunk-written, received-IsReceived,
}

plus_zero : (n : ℕ) → n + 0 ≡ n
plus_zero n = omega arith

plus_assoc : (a m n : ℕ) → a + m + n ≡ a + (m + n)
plus_assoc a m n = omega arith

-- The checks of a chunk apart, for the lengths of its text and of its bytes.
checks :
    (text bytes : ℕ)
    → (not (text == 0)
        && (text % 4 == 0)
        && not (bytes == 0)
        && not (ltb bin_chunk_size bytes)
        && (bytes % 4 == 0))
      ≡ true
    → ((text == 0) ≡ false)
      × ((text % 4 == 0) ≡ true)
      × ((bytes == 0) ≡ false)
      × (ltb bin_chunk_size bytes ≡ false)
      × ((bytes % 4 == 0) ≡ true)
checks text bytes h = ground arith

module _ {F V H : Type 0} (js : JsonApi F V) (env : FlasherEnv H V) where
  -- A message whose payload the flasher takes: some text of base64's length that decodes to some
  -- bytes, a multiple of 4 and not too many.
  abbrev pub is_chunk : List (String × V) → Bool
  is_chunk msg =
      not (len (payload_of js env msg) == 0)
      && (len (payload_of js env msg) % 4 == 0)
      && not (length (chunk_of js env msg) == 0)
      && not (ltb bin_chunk_size (length (chunk_of js env msg)))
      && (length (chunk_of js env msg) % 4 == 0)

  abbrev pub image : List (List (String × V)) → List ℕ
  image [] = []
  image (msg ∷ msgs) = chunk_of js env msg ++ image msgs

  abbrev pub AllChunks : List (List (String × V)) → Type 0
  AllChunks msgs = All (λ msg. is_chunk msg ≡ true) msgs

  -- The messages one after the other, with the replies.
  abbrev pub stream_all :
      FirmwareFlasher H → List (List (String × V)) → Flash (List Reply × FirmwareFlasher H)
  stream_all fw [] log = (([], fw), log)
  stream_all fw (msg ∷ msgs) log =
      let ((reply, fw'), log') = stream js env fw msg log in
      let ((replies, fw''), log'') = stream_all fw' msgs log' in ((reply ∷ replies, fw''), log'')

  -- All replies are 0, the upgrade goes on with the same buffer and has received the image's
  -- bytes, and these are stored behind what was received before.
  abbrev pub Taken :
      FirmwareBuffer H
      → List (List (String × V))
      → List FlashCall
      → (List Reply × FirmwareFlasher H) × List FlashCall
      → Type 0
  Taken b msgs log r =
      (r.0.0 ≡ map (λ msg. code 0) msgs)
      × (r.0.1.upgrade ≡ some (received js env b (length (image msgs))))
      × (r.1 ≡ stored (b.buffer_addr + b.bytes_transmitted) (image msgs) log)

  abbrev after : FirmwareFlasher H → FirmwareBuffer H → List (String × V) → FirmwareFlasher H
  after fw b msg = record {
    upgrade = some (received js env b (length (chunk_of js env msg)));
    writer = writer_after js env b (chunk_of js env msg);
  }

  received_none : (b : FirmwareBuffer H) → b ≡ received js env b 0
  received_none b =
      ap (λ n. record b { bytes_transmitted = n }) (sym (plus_zero b.bytes_transmitted))

  received_twice :
      (b : FirmwareBuffer H) (m n : ℕ)
      → received js env (received js env b m) n ≡ received js env b (m + n)
  received_twice b m n =
      ap (λ k. record b { bytes_transmitted = k }) (plus_assoc b.bytes_transmitted m n)

  more_to_come :
      (b : FirmwareBuffer H) (n : ℕ)
      → (n == 0) ≡ false
      → b.bytes_transmitted + n ≤ b.imagelen
      → transfer_completed b ≡ false
  unfolding transfer_completed
  more_to_come b n some_bytes under = ground arith

  stream-running :
      (fw : FirmwareFlasher H) (b : FirmwareBuffer H) (msg : List (String × V))
      (log : List FlashCall)
      → not env.enabled ≡ false
      → fw.upgrade ≡ some b
      → stream js env fw msg log ≡ stream_into js env fw b (payload_of js env msg) log
  unfolding stream
  stream-running fw b msg log on up =
      ap
        (λ c.
          if c
          then ((code 0, fw), log)
          else stream_to js env fw fw.upgrade (payload_of js env msg) log)
        on
      ∙ ap (λ u. stream_to js env fw u (payload_of js env msg) log) up

  stream_into-checked :
      (fw : FirmwareFlasher H) (b : FirmwareBuffer H) (payload : String) (log : List FlashCall)
      → transfer_completed b ≡ false
      → (len payload == 0) ≡ false
      → (len payload % 4 == 0) ≡ true
      → stream_into js env fw b payload log
        ≡ check_chunk js env fw b (env.decode payload bin_chunk_size) log
  unfolding stream_into
  stream_into-checked fw b payload log more given fours = rw (stream_into, more, given, fours) refl

  check_chunk-checked :
      (fw : FirmwareFlasher H) (b : FirmwareBuffer H) (bytes : List ℕ) (log : List FlashCall)
      → (length bytes == 0) ≡ false
      → ltb bin_chunk_size (length bytes) ≡ false
      → ltb b.imagelen (b.bytes_transmitted + length bytes) ≡ false
      → (length bytes % 4 == 0) ≡ true
      → check_chunk js env fw b bytes log ≡ write_chunk js env fw b bytes log
  check_chunk-checked fw b bytes log given short under full = rw (given, short, under, full) refl

  stream_chunk :
      (fw : FirmwareFlasher H) (b : FirmwareBuffer H) (msg : List (String × V)) (sent : List ℕ)
      (log : List FlashCall)
      → env.enabled ≡ true
      → fw.upgrade ≡ some b
      → fw.writer.held ≡ []
      → IsReceived js env b sent log
      → is_chunk msg ≡ true
      → b.bytes_transmitted + length (chunk_of js env msg) ≤ b.imagelen
      → stream js env fw msg log ≡ (
        (code 0, after fw b msg),
        stored (b.buffer_addr + b.bytes_transmitted) (chunk_of js env msg) log,
      )
  stream_chunk fw b msg sent log on up w r c under =
      let (given, fours, some_bytes, short, full) =
        checks (len (payload_of js env msg)) (length (chunk_of js env msg)) c in
      stream-running fw b msg log (ap not on) up
      ∙ stream_into-checked fw b (payload_of js env msg) log
          (more_to_come b (length (chunk_of js env msg)) some_bytes under) given fours
      ∙ check_chunk-checked fw b (chunk_of js env msg) log some_bytes short
          (le→ltb b.imagelen _ under) full
      ∙ write_chunk-written js env fw b (chunk_of js env msg) log _ _ (
          chunk_written js env fw.writer b sent (chunk_of js env msg) log w r some_bytes under
            ((==_iff (length (chunk_of js env msg) % 4) 0).0 full))

  -- All chunks are taken if together they are not longer than what is left of the image.
  stream_all_lem :
      (fw : FirmwareFlasher H) (b : FirmwareBuffer H) (msgs : List (List (String × V)))
      (sent : List ℕ) (log : List FlashCall)
      → env.enabled ≡ true
      → fw.upgrade ≡ some b
      → fw.writer.held ≡ []
      → IsReceived js env b sent log
      → AllChunks msgs
      → b.bytes_transmitted + length (image msgs) ≤ b.imagelen
      → Taken b msgs log (stream_all fw msgs log)
  unfolding writer_after
  stream_all_lem fw b [] sent log on up w r c under = (refl, up ∙ ap some (received_none b), refl)
  stream_all_lem fw b (msg ∷ msgs) sent log on up w r (c, cs) under =
      let n : ℕ = length (chunk_of js env msg) in
      let total : length (image (msg ∷ msgs)) ≡ n + length (image msgs) =
        length-append (chunk_of js env msg) (image msgs) in
      let now : b.bytes_transmitted + n ≤ b.imagelen = omega (arith, total) in
      let whole : n % 4 ≡ 0 = (==_iff (n % 4) 0).0 (checks (len (payload_of js env msg)) n c).4 in
      let (replies, goes_on, log_lem) =
        stream_all_lem (after fw b msg) (received js env b n) msgs (sent ++ chunk_of js env msg)
          (stored (b.buffer_addr + b.bytes_transmitted) (chunk_of js env msg) log) on refl refl
          (received-IsReceived js env b sent (chunk_of js env msg) log r now whole) cs
          (omega (arith, total)) in
      rw (stream_chunk fw b msg sent log on up w r c now) (
        ap (λ rs. code 0 ∷ rs) replies,
        goes_on
            ∙ ap some
                (received_twice b n (length (image msgs)) ∙ ap (received js env b) (sym total)),
        log_lem
            ∙ ap
                (λ a.
                  stored a (image msgs)
                    (stored (b.buffer_addr + b.bytes_transmitted) (chunk_of js env msg) log))
                (sym (plus_assoc b.buffer_addr b.bytes_transmitted n))
            ∙ sym (
                stored-append (b.buffer_addr + b.bytes_transmitted) (chunk_of js env msg)
                  (image msgs) log whole),
      )

  -- In a build that allows flashing: an upgrade that runs and is sound so far (its buffer, erased
  -- when it began, holds exactly what was sent, and no bytes wait to be written), takes all
  -- messages whose payloads are not empty, have a length that is a multiple of 4, and decode to at
  -- least 4 and at most 1536 bytes, a multiple of 4, if together these bytes are exactly as many
  -- as are missing of the image. All replies are 0, the upgrade is then complete, and behind what
  -- was stored before stands what was sent, whatever its division into such messages.
  pub stream_all-completes :
      (fw : FirmwareFlasher H) (b : FirmwareBuffer H) (msgs : List (List (String × V)))
      (sent : List ℕ) (log : List FlashCall)
      → env.enabled ≡ true
      → fw.upgrade ≡ some b
      → fw.writer.held ≡ []
      → IsReceived js env b sent log
      → AllChunks msgs
      → b.bytes_transmitted + length (image msgs) ≡ b.imagelen
      → Taken b msgs log (stream_all fw msgs log)
        × (transfer_completed (received js env b (length (image msgs))) ≡ true)
  unfolding transfer_completed
  stream_all-completes fw b msgs sent log on up w r cs e =
      (stream_all_lem fw b msgs sent log on up w r cs (omega (arith, e)), rw e (==_refl b.imagelen))
