-- ===== src/FirmwareFlasher/Tests.antt =====
-- An upgrade with a flash whose last two sectors before the reserved region are erased.
use Prim.Native.String.{String}
use lucidac_firmware.Common.{
  ◌++◌, ℕ, ◌*◌, ◌/◌, ◌<◌, ◌+◌, ◌^◌, ◌≤◌, ◌≡◌, refl, ◌==◌, ltb, true, false, if◌then◌else◌, List, [],
  ◌∷◌, none, some, arith, All,
}
use lucidac_firmware.Samples.{Value, number, text, plain}
use lucidac_firmware.Flash.{
  FlashCall, flash_write, flash_erase, flash_sector_size, empty_buffer, erased_word, buffer_end,
  flash_base_addr,
}
use lucidac_firmware.FirmwareFlasher.{
  FirmwareBuffer, FirmwareFlasher, FlasherEnv, Reply, init, stream, transfer_completed, received,
  complete,
}
use lucidac_firmware.FirmwareFlasher.Chunks.{KeepsCode, IsReceived}
use lucidac_firmware.FirmwareFlasher.Sound.{IsSound}
use lucidac_firmware.FirmwareFlasher.Reachable.{
  Reachable, start_up, init_message, stream_message, reachable_upgrade-IsSound,
}
use lucidac_firmware.FirmwareFlasher.Installed.{is_ready, Outcome, complete_lem}
use lucidac_firmware.Flash.Memory.{word_after, word_after-FlashLaws}
use lucidac_firmware.FirmwareFlasher.Upload.{Taken, stream_all, stream_all-completes}

abbrev size_of : Value → ℕ
size_of (number n) = n
size_of _ = 0

abbrev new_flash : ℕ → ℕ
new_flash a = if ltb a 0x607AE000 then 0 else erased_word

new_flash-bound : (a : ℕ) → new_flash a < 2 ^ 32
new_flash-bound a = ground arith

-- Every payload decodes to eight bytes.
abbrev sample : FlasherEnv ℕ Value
sample = record {
  word = word_after new_flash;
  enabled = true;
  to_size = size_of;
  decode = λ s n. 1 ∷ 2 ∷ 3 ∷ 4 ∷ 5 ∷ 6 ∷ 7 ∷ 8 ∷ [];
  parse_sha256 = λ s. 0;
  hash_sha256 = λ log a n. 0;
  same_hash = λ x y. x == y;
}

abbrev power_on : FirmwareFlasher ℕ
power_on = record { upgrade = none; writer = empty_buffer }

abbrev announce : ℕ → List (String × Value)
announce n = ("imagelen", number n) ∷ []

abbrev chunk : List (String × Value)
chunk = ("payload", text "AQIDBAUGBwg=") ∷ []

abbrev announced : ℕ → (Reply × FirmwareFlasher ℕ) × List FlashCall
announced n = init plain sample power_on (announce n) []

abbrev sent_one : (Reply × FirmwareFlasher ℕ) × List FlashCall
sent_one = stream plain sample (announced 18).0.1 chunk (announced 18).1

buffer_of : ℕ → ℕ → FirmwareBuffer ℕ
buffer_of n sent = record {
  name = "null";
  imagelen = n;
  upstream_hash = 0;
  bytes_transmitted = sent;
  buffer_addr = 0x607AE000;
  buffer_size = 0x2000;
}

sent_one_lem : sent_one.0.1.upgrade ≡ some (buffer_of 18 8)
unfolding init stream buffer_of
sent_one_lem = refl

above_base : (b : ℕ) → flash_base_addr + flash_sector_size ≤ b → (b == flash_base_addr) ≡ false
above_base b far = ground arith

behind_base :
    (b : ℕ)
    → flash_base_addr + flash_sector_size ≤ b
    → (flash_base_addr / flash_sector_size == b / flash_sector_size) ≡ false
behind_base b far = ground arith

code_stays :
    (log : List FlashCall)
    → All KeepsCode log
    → (sample.word log flash_base_addr == erased_word) ≡ false
code_stays [] all = refl
code_stays (flash_write b bytes ∷ log) (far, all) = rw (above_base b far) (code_stays log all)
code_stays (flash_erase b ∷ log) (far, all) = rw (behind_base b far) (code_stays log all)

abbrev eight : List ℕ
eight = 1 ∷ 2 ∷ 3 ∷ 4 ∷ 5 ∷ 6 ∷ 7 ∷ 8 ∷ []

sent_one-Reachable : Reachable plain sample sent_one.0.1 eight sent_one.1
unfolding init stream
sent_one-Reachable = stream_message chunk (init_message (announce 18) start_up)

reachable_upgrade-IsSound_example : IsSound plain sample sent_one.0.1 eight sent_one.1
reachable_upgrade-IsSound_example =
    reachable_upgrade-IsSound plain sample code_stays sent_one.0.1 eight sent_one.1
      sent_one-Reachable

abbrev sent_all : (Reply × FirmwareFlasher ℕ) × List FlashCall
sent_all =
    let first = stream plain sample (announced 16).0.1 chunk (announced 16).1 in
    stream plain sample first.0.1 chunk first.1

sent_all_lem :
    (sent_all.0.1.upgrade ≡ some (buffer_of 16 16))
    × (is_ready plain sample (buffer_of 16 16) sent_all.1 ≡ true)
unfolding init stream buffer_of transfer_completed
sent_all_lem = (refl, refl)

sent_all-Reachable : Reachable plain sample sent_all.0.1 (eight ++ eight) sent_all.1
unfolding init stream
sent_all-Reachable =
    stream_message chunk (stream_message chunk (init_message (announce 16) start_up))

complete_lem_example :
    Outcome plain sample sent_all.0.1
      (buffer_of 16 16)
      (eight ++ eight)
      sent_all.1
      (complete plain sample sent_all.0.1 sent_all.1)
complete_lem_example =
    complete_lem plain sample (word_after-FlashLaws new_flash new_flash-bound) code_stays
      sent_all.0.1 (eight ++ eight) sent_all.1 (buffer_of 16 16) sent_all-Reachable sent_all_lem.0

erased_there :
    (j : ℕ) → 0x607AE000 ≤ 4 * j → 4 * j < buffer_end → sample.word [] (4 * j) ≡ erased_word
erased_there j lo hi = ground arith

fresh-IsReceived : IsReceived plain sample (buffer_of 16 0) [] []
unfolding buffer_of
fresh-IsReceived =
    ([], (refl, omega arith, refl, erased_there), refl, refl, refl, omega arith, omega arith)

abbrev running : FirmwareFlasher ℕ
running = record { upgrade = some (buffer_of 16 0); writer = empty_buffer }

stream_all-completes_example :
    Taken plain sample
      (buffer_of 16 0)
      (chunk ∷ chunk ∷ [])
      []
      (stream_all plain sample running (chunk ∷ chunk ∷ []) [])
    × (transfer_completed (received plain sample (buffer_of 16 0) 16) ≡ true)
unfolding buffer_of
stream_all-completes_example =
    stream_all-completes plain sample running (buffer_of 16 0) (chunk ∷ chunk ∷ []) [] [] refl refl
      refl fresh-IsReceived (refl, (refl, tt)) refl
