-- ===== src/Bus.antt =====
-- Addresses of the digital bus: lib/hal-lucidac/src/bus/bus.h.
-- An `addr_t` has 16 bits, the function index above the board address. A `uint8_t` or `uint16_t`
-- is a number below its modulus; where a result is narrowed to one, the wrap is written out.
pub mod Addressing
pub mod Functions
pub mod Wires
mod Tests
use lucidac_firmware.Common.{ℕ, ◌+◌, ◌-◌, ◌*◌, ◌%◌, ◌^◌, bit_and, bit_or, Bool, if◌then◌else◌}

abbrev pub baddr_mask : ℕ
baddr_mask = 0x1F

abbrev pub faddr_mask : ℕ
faddr_mask = 0x3F

abbrev pub faddr_shift : ℕ
faddr_shift = 8

abbrev pub addr_mask_baddr : ℕ
addr_mask_baddr = 0x00FF

abbrev pub addr_mask_faddr : ℕ
addr_mask_faddr = 0xFF00

-- The index of a block within its cluster.
pub data BlockIdx : Type 0 where
  u_block c_block i_block sh_block m0_block m1_block : BlockIdx

abbrev pub block_idx : BlockIdx → ℕ
block_idx BlockIdx.u_block = 0
block_idx BlockIdx.c_block = 1
block_idx BlockIdx.i_block = 2
block_idx BlockIdx.sh_block = 3
block_idx BlockIdx.m0_block = 4
block_idx BlockIdx.m1_block = 5

-- `BLOCK_BADDR`, a `uint8_t`.
unfoldable pub block_baddr : ℕ → ℕ → ℕ
block_baddr cluster_idx rel_block_idx = ((cluster_idx + 1) * 8 + rel_block_idx) % 2 ^ 8

-- `static_cast<addr_t>(func_idx & FADDR_MASK) << FADDR_SHIFT`, which every function below uses.
abbrev pub faddr_part : ℕ → ℕ
faddr_part func_idx = bit_and func_idx faddr_mask * 2 ^ faddr_shift

unfoldable pub idx_to_addr : ℕ → ℕ → ℕ → ℕ
unfolding block_baddr
idx_to_addr cluster_idx rel_block_idx func_idx =
    (faddr_part func_idx + bit_and (block_baddr cluster_idx rel_block_idx) baddr_mask) % 2 ^ 16

unfoldable pub increase_function_idx : ℕ → ℕ → ℕ
increase_function_idx address delta_idx = (address + faddr_part delta_idx) % 2 ^ 16

-- `~ADDR_MASK_FADDR` on a 16-bit address keeps the bits of the low byte.
unfoldable pub replace_function_idx : ℕ → ℕ → ℕ
replace_function_idx address func_idx =
    bit_or (bit_and address (2 ^ 16 - 1 - addr_mask_faddr)) (faddr_part func_idx) % 2 ^ 16

unfoldable pub remove_addr_parts : ℕ → Bool → Bool → ℕ
remove_addr_parts address block func =
    let kept = if block then bit_and address (2 ^ 16 - 1 - addr_mask_baddr) else address in
    if func then bit_and kept (2 ^ 16 - 1 - addr_mask_faddr) else kept

unfoldable pub address_from_tuple : ℕ → ℕ → ℕ
address_from_tuple baddr faddr = (faddr_part faddr + bit_and baddr baddr_mask) % 2 ^ 16
