-- ===== src/FirmwareFlasher.antt =====
-- Firmware upgrades over messages: lib/controller/src/ota/flasher.h and the last part of
-- flasher.cpp. The hashes and the base64 decoder are copies of other projects' code and are
-- parameters; `status`, which only reports, is left out, and so are the texts of errors.
pub mod Chunks
pub mod Sound
pub mod Reachable
pub mod Upload
pub mod Installed
mod Tests
use Prim.Native.String.{String, len}
use lucidac_firmware.Common.{
  ℕ, ◌+◌, ◌*◌, ◌/◌, ◌%◌, ◌==◌, ltb, Bool, not, if◌then◌else◌, List, Option, none, some, length,
}
use lucidac_firmware.Json.{JsonApi, or_else}
use lucidac_firmware.CBlock.Config.{member}
use lucidac_firmware.Flash.{
  FlashCall, Flash, WriteBuffer, firmware_buffer_init, flash_erase_block, flash_write_block,
  flash_move, flash_base_addr,
}

pub record FirmwareBuffer (H : Type 0) : Type 0 where
  pub name : String
  pub imagelen : ℕ
  pub upstream_hash : H
  pub bytes_transmitted : ℕ
  pub buffer_addr : ℕ
  pub buffer_size : ℕ

unfoldable pub transfer_completed : {H : Type 0} → FirmwareBuffer H → Bool
transfer_completed b = b.imagelen == b.bytes_transmitted

-- The flasher, with the static variables of `flash_write_block`.
pub record FirmwareFlasher (H : Type 0) : Type 0 where
  pub upgrade : Option (FirmwareBuffer H)
  pub writer : WriteBuffer

-- How a message ends: with a code, in a null pointer that is dereferenced, or in a reboot.
pub data Reply : Type 0 where
  code : ℕ → Reply
  null_dereferenced : Reply
  rebooted : Reply

abbrev pub bin_chunk_size : ℕ
bin_chunk_size = 4096 / 2 * 3 / 4

-- What the flasher has from elsewhere: the words of the flash after some calls, whether the build has
-- ANABRID_ENABLE_OTA_FLASHING, the conversion to `size_t`, the base64 decoder (text and size of the
-- target buffer), and the hashes of a text and of a region of the flash.
pub record FlasherEnv (H V : Type 0) : Type 0 where
  pub word : List FlashCall → ℕ → ℕ
  pub enabled : Bool
  pub to_size : V → ℕ
  pub decode : String → ℕ → List ℕ
  pub parse_sha256 : String → H
  pub hash_sha256 : List FlashCall → ℕ → ℕ → H
  pub same_hash : H → H → Bool

module _ {F V H : Type 0} (js : JsonApi F V) (env : FlasherEnv H V) where
  abbrev pub message_field : String → List (String × V) → V
  message_field name msg = or_else (member name msg) (js.null)

  -- The destructor of the buffer erases its region.
  unfoldable pub delete_upgrade :
      FirmwareFlasher H → FirmwareBuffer H → List FlashCall → FirmwareFlasher H × List FlashCall
  unfolding flash_erase_block
  delete_upgrade fw b log =
      (record fw { upgrade = none }, flash_erase_block env.word b.buffer_addr b.buffer_size log)

  abbrev pub new_buffer : List (String × V) → List FlashCall → FirmwareBuffer H
  new_buffer msg log =
      let (addr, size) = firmware_buffer_init env.word log in
      record {
        name = js.to_text (message_field "name" msg);
        imagelen = env.to_size (message_field "imagelen" msg);
        upstream_hash = env.parse_sha256 (js.to_text (message_field "upstream_hash" msg));
        bytes_transmitted = 0;
        buffer_addr = addr;
        buffer_size = size;
      }

  -- An upgrade that starts, or is deleted at once since it does not fit.
  abbrev pub started : FirmwareFlasher H → FirmwareBuffer H → Flash (Reply × FirmwareFlasher H)
  started fw b log =
      if ltb b.buffer_size b.imagelen
      then (let (fw', log') = delete_upgrade (record fw { upgrade = some b }) b log in
          ((code 2, fw'), log'))
      else ((code 0, record fw { upgrade = some b }), log)

  unfoldable pub init : FirmwareFlasher H → List (String × V) → Flash (Reply × FirmwareFlasher H)
  unfolding delete_upgrade firmware_buffer_init
  init fw msg log = if not env.enabled then ((code 0, fw), log) else elim fw.upgrade [
    | some b ↦ ((code 1, fw), log)
    | none ↦ started fw (new_buffer msg log) log
  ]

  abbrev pub received : FirmwareBuffer H → ℕ → FirmwareBuffer H
  received b n = record b { bytes_transmitted = b.bytes_transmitted + n }

  -- What follows on a chunk that was decoded.
  abbrev pub write_chunk :
      FirmwareFlasher H → FirmwareBuffer H → List ℕ → Flash (Reply × FirmwareFlasher H)
  write_chunk fw b bytes log =
      let ((error, writer'), log') =
        flash_write_block fw.writer (b.buffer_addr + b.bytes_transmitted) bytes log in
      if not (error == 0)
      then ((code (50 + error), record fw { writer = writer' }), log')
      else ((code 0, record { upgrade = some (received b (length bytes)); writer = writer' }), log')

  abbrev pub check_chunk :
      FirmwareFlasher H → FirmwareBuffer H → List ℕ → Flash (Reply × FirmwareFlasher H)
  check_chunk fw b bytes log =
      if length bytes == 0
      then ((code 2, fw), log)
      else if ltb bin_chunk_size (length bytes)
      then ((code 6, fw), log)
      else if ltb b.imagelen (b.bytes_transmitted + length bytes)
      then ((code 7, fw), log)
      else if not (length bytes % 4 == 0)
      then ((code 8, fw), log)
      else write_chunk fw b bytes log

  unfoldable pub stream_into :
      FirmwareFlasher H → FirmwareBuffer H → String → Flash (Reply × FirmwareFlasher H)
  unfolding transfer_completed flash_write_block
  stream_into fw b payload log =
      if transfer_completed b
      then ((code 2, fw), log)
      else if len payload == 0
      then ((code 3, fw), log)
      else if not (len payload % 4 == 0)
      then ((code 4, fw), log)
      else check_chunk fw b (env.decode payload bin_chunk_size) log

  abbrev pub stream_to :
      FirmwareFlasher H → Option (FirmwareBuffer H) → String → Flash (Reply × FirmwareFlasher H)
  stream_to fw none payload log = ((code 1, fw), log)
  stream_to fw (some b) payload log = stream_into fw b payload log

  unfoldable pub stream : FirmwareFlasher H → List (String × V) → Flash (Reply × FirmwareFlasher H)
  unfolding stream_into
  stream fw msg log =
      if not env.enabled
      then ((code 0, fw), log)
      else stream_to fw fw.upgrade (js.to_text (message_field "payload" msg)) log

  -- `return true` is the code 1.
  unfoldable pub abort : FirmwareFlasher H → Flash (Reply × FirmwareFlasher H)
  unfolding delete_upgrade
  abort fw log = if not env.enabled then ((code 0, fw), log) else elim fw.upgrade [
    | none ↦ ((code 1, fw), log)
    | some b ↦ (let (fw', log') = delete_upgrade fw b log in ((code 1, fw'), log'))
  ]

  abbrev pub complete_with :
      FirmwareFlasher H → FirmwareBuffer H → Flash (Reply × FirmwareFlasher H)
  complete_with fw b log =
      if not (transfer_completed b)
      then ((code 1, fw), log)
      else if not (env.same_hash (env.hash_sha256 log b.buffer_addr b.imagelen) b.upstream_hash)
      then ((code 2, fw), log)
      else ((rebooted, fw), flash_move env.word flash_base_addr b.buffer_addr b.imagelen log)

  abbrev pub complete_to :
      FirmwareFlasher H → Option (FirmwareBuffer H) → Flash (Reply × FirmwareFlasher H)
  complete_to fw none log = ((null_dereferenced, fw), log)
  complete_to fw (some b) log = complete_with fw b log

  unfoldable pub complete : FirmwareFlasher H → Flash (Reply × FirmwareFlasher H)
  unfolding transfer_completed flash_move
  complete fw log = if not env.enabled then ((code 0, fw), log) else complete_to fw fw.upgrade log
