-- ===== src/UBlock/Invariant.antt =====
-- Which connection maps a U-block can hold.
use lucidac_firmware.Common.{
  ℕ, ◌<◌, ◌≡◌, ◌∙◌, refl, inl, inr, Bool, true, false, ℤ, pos, negsuc, int8, int8_small, arith,
  length, length-set, All, All-set, All-replicate, if◌then◌else◌, Bool-cases,
}
use lucidac_firmware.Entity.{has, circuit_reset}
use lucidac_firmware.UBlock.Connect.{
  may_connect, connect_lem, may_connect_alternative, connect_alternative_lem,
}
use lucidac_firmware.UBlock.{
  UBlock, TransmissionMode, num_of_outputs, disconnected, init, reset, reset_connections,
  i_sanity_check, io_sanity_check, o_sanity_check, connect_unchecked, disconnect_unchecked, connect,
  connect_alternative, alternative_input, disconnect, disconnect_input,
}

-- An entry is -1 or one of the 16 inputs.
abbrev pub IsEntry : ℤ → Type 0
IsEntry (pos n) = n < 16
IsEntry (negsuc n) = n ≡ 0

pub record IsValid (u : UBlock) : Type 0 where
  pub size : length u.output_input_map ≡ 32
  pub entries : All IsEntry u.output_input_map

connect_unchecked-IsValid :
    (u : UBlock) (input output : ℕ)
    → input < 16
    → IsValid u
    → IsValid (connect_unchecked u input output)
unfolding connect_unchecked
connect_unchecked-IsValid u input output h w = record {
  size = length-set u.output_input_map output (int8 input) ∙ w.size;
  entries =
      All-set IsEntry u.output_input_map output (int8 input) (rw (int8_small input (omega arith)) h)
        w.entries;
}

disconnect_unchecked-IsValid :
    (u : UBlock) (output : ℕ) → IsValid u → IsValid (disconnect_unchecked u output)
unfolding disconnect_unchecked
disconnect_unchecked-IsValid u output w = record {
  size = length-set u.output_input_map output disconnected ∙ w.size;
  entries = All-set IsEntry u.output_input_map output disconnected refl w.entries;
}

pub cleared-IsValid : IsValid (reset_connections init)
unfolding reset_connections init
cleared-IsValid = record {
  size = refl;
  entries = All-replicate IsEntry num_of_outputs disconnected refl;
}

-- Validity looks at the map alone.
pub same_map-IsValid :
    (u w : UBlock) → w.output_input_map ≡ u.output_input_map → IsValid u → IsValid w
same_map-IsValid u w e h = record { size = rw e h.size; entries = rw e h.entries }

if-IsValid :
    (b : Bool) (u w : UBlock)
    → (b ≡ true → IsValid w)
    → IsValid u
    → IsValid (if◌then◌else◌ {A = UBlock × Bool} b (w, true) (u, false)).0
if-IsValid true u w h k = h refl
if-IsValid false u w h k = k

pub connect-IsValid :
    (u : UBlock) (input output : ℕ) (force : Bool)
    → IsValid u
    → IsValid (connect u input output force).0
connect-IsValid u input output force w = rw connect_lem (
    if-IsValid (may_connect u input output force) u _
      (λ e.
        connect_unchecked-IsValid _ input output (in_range e)
          (same_map-IsValid u _ (ground arith) w))
      w)
  where
    in_range : may_connect u input output force ≡ true → input < 16
    in_range e = unfold io_sanity_check i_sanity_check in ground arith

alternative_input-lt :
    (output : ℕ) (use_a_side : Bool) → output < 32 → alternative_input output use_a_side < 16
unfolding alternative_input
alternative_input-lt output use_a_side h = ground arith

pub connect_alternative-IsValid :
    (u : UBlock) (mode : TransmissionMode) (output : ℕ) (force use_a_side : Bool)
    → IsValid u
    → IsValid (connect_alternative u mode output force use_a_side).0
connect_alternative-IsValid u mode output force use_a_side w = rw connect_alternative_lem (
    if-IsValid (may_connect_alternative u mode output force use_a_side) u _
      (λ e.
        connect_unchecked-IsValid _ (alternative_input output use_a_side) output
          (alternative_input-lt output use_a_side (in_range e))
          (same_map-IsValid u _ (ground arith) w))
      w)
  where
    in_range : may_connect_alternative u mode output force use_a_side ≡ true → output < 32
    in_range e = unfold o_sanity_check in ground arith

pub disconnect_input-IsValid :
    (u : UBlock) (input output : ℕ) → IsValid u → IsValid (disconnect_input u input output).0
unfolding disconnect_input
disconnect_input-IsValid u input output w = ground (arith, disconnect_unchecked-IsValid u output w)

pub disconnect-IsValid : (u : UBlock) (output : ℕ) → IsValid u → IsValid (disconnect u output).0
unfolding disconnect
disconnect-IsValid u output w = ground (arith, disconnect_unchecked-IsValid u output w)

pub reset-IsValid : (u : UBlock) (action : ℕ) → IsValid u → IsValid (reset u action)
unfolding reset
reset-IsValid u action w = elim (Bool-cases (has action circuit_reset)) [
  | inl e ↦ rw e (same_map-IsValid (reset_connections init) _ (ground arith) cleared-IsValid)
  | inr e ↦ rw e w
]
