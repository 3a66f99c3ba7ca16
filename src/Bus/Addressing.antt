-- ===== src/Bus/Addressing.antt =====
-- What the address arithmetic of bus.h keeps apart.
use lucidac_firmware.Common.{
  ℕ, ◌+◌, ◌*◌, ◌/◌, ◌%◌, ◌^◌, ◌<◌, ◌≡◌, true, false, arith, bit_and_mask, bit_and_high,
  bit_or_fields_comm,
}
use lucidac_firmware.Bus.{
  block_baddr, idx_to_addr, replace_function_idx, remove_addr_parts, address_from_tuple,
}

address_from_tuple_lem : (b f : ℕ) → address_from_tuple b f ≡ f % 64 * 256 + b % 32
unfolding address_from_tuple
address_from_tuple_lem b f =
    omega (arith, bit_and_mask 6 f 0x3F (omega arith), bit_and_mask 5 b 0x1F (omega arith))

pub idx_to_addr_lem :
    (c b f : ℕ) → c < 3 → b < 8 → f < 64 → idx_to_addr c b f ≡ f * 256 + (c + 1) * 8 + b
unfolding idx_to_addr
idx_to_addr_lem c b f hc hb hf = omega (
  arith,
  bit_and_mask 6 f 0x3F (omega arith),
  bit_and_mask 5 (block_baddr c b) 0x1F (omega arith),
)

-- Two function addresses of blocks in the three clusters are equal only if the cluster, the block
-- and the function are. (Cluster below 3, block below 8, function below 64.)
idx_to_addr-injective :
    (c b f c' b' f' : ℕ)
    → (c < 3) × (b < 8) × (f < 64)
    → (c' < 3) × (b' < 8) × (f' < 64)
    → idx_to_addr c b f ≡ idx_to_addr c' b' f'
    → (c ≡ c') × (b ≡ b') × (f ≡ f')
idx_to_addr-injective c b f c' b' f' h h' e =
    omega (arith, idx_to_addr_lem c b f h.0 h.1 h.2, idx_to_addr_lem c' b' f' h'.0 h'.1 h'.2)

pub replace_function_idx_lem : (a f : ℕ) → replace_function_idx a f ≡ f % 64 * 256 + a % 256
unfolding replace_function_idx
replace_function_idx_lem a f =
    rw (bit_and_mask 8 a 0xFF (omega arith), bit_and_mask 6 f 0x3F (omega arith))
      (omega (arith, bit_or_fields_comm 8 (f % 64) (a % 256) (omega arith)))

-- Replacing the function index of any block's address is addressing that function of the block
-- directly, whatever the two indices are.
replace-idx_to_addr : (c b f g : ℕ) → replace_function_idx (idx_to_addr c b f) g ≡ idx_to_addr c b g
unfolding idx_to_addr
replace-idx_to_addr c b f g = omega (
  arith,
  replace_function_idx_lem (idx_to_addr c b f) g,
  bit_and_mask 6 f 0x3F (omega arith),
  bit_and_mask 6 g 0x3F (omega arith),
  bit_and_mask 5 (block_baddr c b) 0x1F (omega arith),
)

-- An address is the sum of what is left of it without its function and without its block part.
remove_addr_parts-sum :
    (a : ℕ) → a < 2 ^ 16 → remove_addr_parts a false true + remove_addr_parts a true false ≡ a
unfolding remove_addr_parts
remove_addr_parts-sum a h = omega (
  arith,
  bit_and_mask 8 a 0xFF (omega arith),
  bit_and_high 8 a 0xFF,
  bit_and_mask 8 (a / 256) 0xFF (omega arith),
)
