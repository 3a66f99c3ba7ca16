-- ===== src/IBlock/Invariant.antt =====
-- The I-block's `disconnect`, and that each method that closes or opens switches keeps 16 words of
-- 32 bits and splits no input.
use lucidac_firmware.Common.{
  ℕ, ◌^◌, ◌<◌, ◌≡◌, refl, ◌==◌, ==_iff, ltb, bit, bit_or, bit_and, bit_not, bit-bit_and, bit-pow,
  bit-not, bit_or-lt, bit-zero, lt→ltb, bit_and-lt, Bool, true, false, not, ◌&&◌, if◌then◌else◌,
  length-set, get_or-set, set, arith, All-set, All-get_or, Bool-cases, and_true, inl, inr, ◌∙◌,
}
use lucidac_firmware.IBlock.{
  IBlock, row, input_bitmask, is_connected, connect, disconnect, disconnect_input,
}
use lucidac_firmware.IBlock.Connections.{
  IsValid, IsUnsplit, closed, pow-lt, is_connected-closed, connect_refused, connect_accepted,
}

abbrev IsWord : ℕ → Type 0
IsWord w = w < 2 ^ 32

set-IsValid :
    (b : IBlock) (o w : ℕ)
    → w < 2 ^ 32
    → IsValid b
    → IsValid (record b { outputs = set b.outputs o w })
set-IsValid b o w h v = record {
  size = length-set b.outputs o w ∙ v.size;
  words = All-set IsWord b.outputs o w h v.words;
  scales = v.scales;
}

row-lt : (b : IBlock) (o : ℕ) → IsValid b → row b o < 2 ^ 32
row-lt b o v = All-get_or IsWord b.outputs o 0 (omega arith) v.words

pub connect-IsValid :
    (b : IBlock) (i o : ℕ) (exclusive split : Bool)
    → IsValid b
    → IsValid (connect b i o exclusive split).0
connect-IsValid b i o exclusive split v = elim (Bool-cases (connect b i o exclusive split).1) [
  | inr no_ ↦ rw ((connect_refused b i o exclusive split).1 no_) v
  | inl done ↦
      let (hi, ho, free, e) = connect_accepted b i o exclusive split done in
      rw e (set-IsValid b o _ (fits exclusive (pow-lt i 32 hi)) v)
]
  where
    fits :
        (x : Bool)
        → input_bitmask i < 2 ^ 32
        → (if x then input_bitmask i else bit_or (row b o) (input_bitmask i)) < 2 ^ 32
    fits true h = h
    fits false h = bit_or-lt 32 (row b o) (input_bitmask i) (row-lt b o v) h

abbrev opened : IBlock → ℕ → ℕ → IBlock
opened b i o = record b {
  outputs = set b.outputs o (bit_and (row b o) (bit_not 32 (input_bitmask i)));
}

disconnect_input_lem :
    (b : IBlock) (i o : ℕ)
    → disconnect_input b i o ≡ (if is_connected b i o then (opened b i o, true) else (b, false))
unfolding disconnect_input
disconnect_input_lem b i o = ground arith

in_range : (b : IBlock) (i o : ℕ) → is_connected b i o ≡ true → (i < 32) × (o < 16)
in_range b i o h = ground (arith, is_connected-closed b i o)

bit-cleared :
    (w i j : ℕ)
    → i < 32
    → j < 32
    → bit (bit_and w (bit_not 32 (input_bitmask i))) j ≡ (bit w j && not (i == j))
bit-cleared w i j hi hj = rw (
  bit-bit_and w (bit_not 32 (input_bitmask i)) j,
  bit-not 32 (input_bitmask i) j (pow-lt i 32 hi),
  bit-pow i j,
  lt→ltb j 32 hj,
)

closed-opened :
    (b : IBlock) (i o j p : ℕ)
    → IsValid b
    → i < 32
    → o < 16
    → j < 32
    → closed (opened b i o) j p ≡ (closed b j p && not (o == p && i == j))
closed-opened b i o j p v hi ho hj =
    rw
      (get_or-set b.outputs o p (bit_and (row b o) (bit_not 32 (input_bitmask i))) 0
        (omega (arith, v.size)))
      (elim (Bool-cases (o == p)) [
        | inl same ↦ rw same (rw (bit-cleared (row b o) i j hi hj, (==_iff o p).0 same))
        | inr other ↦ rw other (ground arith)
      ])

-- On a valid block `disconnect(input, output)` succeeds exactly for a connection that is there; then
-- it opens that switch and no other, else the block stays as it was.
closed-disconnect_input :
    (b : IBlock) (i o j p : ℕ)
    → IsValid b
    → j < 32
    → ((disconnect_input b i o).1 ≡ is_connected b i o)
      × (closed (disconnect_input b i o).0 j p
          ≡ (closed b j p && not (is_connected b i o && (o == p && i == j))))
closed-disconnect_input b i o j p v hj =
    rw disconnect_input_lem (elim (Bool-cases (is_connected b i o)) [
      | inl there ↦
          let (hi, ho) = in_range b i o there in rw there (refl, closed-opened b i o j p v hi ho hj)
      | inr not_there ↦ rw not_there (refl, ground arith)
    ])

pub disconnect_input-IsValid :
    (b : IBlock) (i o : ℕ) → IsValid b → IsValid (disconnect_input b i o).0
disconnect_input-IsValid b i o v = rw disconnect_input_lem (elim (Bool-cases (is_connected b i o)) [
  | inl there ↦
      rw there (
        set-IsValid b o _ (bit_and-lt 32 (row b o) (bit_not 32 (input_bitmask i)) (row-lt b o v)) v)
  | inr not_there ↦ rw not_there v
])

pub disconnect_input-IsUnsplit :
    (b : IBlock) (i o : ℕ) → IsValid b → IsUnsplit b → IsUnsplit (disconnect_input b i o).0
disconnect_input-IsUnsplit b i o v u j p q hj hp hq cp cq =
    u j p q hj hp hq ((and_true _ _ (rw (closed-disconnect_input b i o j p v hj).1 at cp)).0)
      ((and_true _ _ (rw (closed-disconnect_input b i o j q v hj).1 at cq)).0)

disconnect_lem :
    (b : IBlock) (o : ℕ)
    → disconnect b o
      ≡ (if ltb o 16 then (record b { outputs = set b.outputs o 0 }, true) else (b, false))
unfolding disconnect
disconnect_lem b o = ground arith

-- On a valid block `disconnect(output)` succeeds exactly for an output in range, and opens the
-- switches of that output and no others.
pub closed-disconnect :
    (b : IBlock) (o j p : ℕ)
    → IsValid b
    → ((disconnect b o).1 ≡ ltb o 16)
      × (closed (disconnect b o).0 j p ≡ (closed b j p && not (ltb o 16 && o == p)))
closed-disconnect b o j p v = rw disconnect_lem (elim (Bool-cases (ltb o 16)) [
  | inl there ↦ rw there (
    refl,
    rw (get_or-set b.outputs o p 0 0 (ground (arith, v.size))) (elim (Bool-cases (o == p)) [
      | inl same ↦ rw (same, bit-zero j) (ground arith)
      | inr other ↦ rw other (ground arith)
    ]),
  )
  | inr not_there ↦ rw not_there (refl, ground arith)
])

pub disconnect-IsValid : (b : IBlock) (o : ℕ) → IsValid b → IsValid (disconnect b o).0
disconnect-IsValid b o v = rw disconnect_lem (elim (Bool-cases (ltb o 16)) [
  | inl there ↦ rw there (set-IsValid b o 0 (omega arith) v)
  | inr not_there ↦ rw not_there v
])

pub disconnect-IsUnsplit :
    (b : IBlock) (o : ℕ) → IsValid b → IsUnsplit b → IsUnsplit (disconnect b o).0
disconnect-IsUnsplit b o v u j p q hj hp hq cp cq =
    u j p q hj hp hq ((and_true _ _ (rw (closed-disconnect b o j p v).1 at cp)).0)
      ((and_true _ _ (rw (closed-disconnect b o j q v).1 at cq)).0)
