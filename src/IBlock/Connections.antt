-- ===== src/IBlock/Connections.antt =====
-- The I-block seen as a set of connections, and what the methods do to it.
use lucidac_firmware.Common.{
  ℕ, zero, suc, ◌^◌, ◌<◌, ◌≡◌, ◌≢◌, refl, sym, subst, ◌==◌, ==_iff, ltb, bit, bit_or, bit_and_pow,
  bit-bit_or, bit-pow, Bool, true, false, not, ◌&&◌, ◌||◌, if◌then◌else◌, length, get_or-set, set,
  any-false, arith, All, Bool-cases, inl, inr, ◌∙◌,
}
use native.Mathlib.Nat.{pow-suc}
use lucidac_firmware.IBlock.{
  IBlock, row, input_bitmask, is_connected_unchecked, is_connected, connected_elsewhere, connect,
}

-- Whether the switch between an input and an output is closed.
abbrev pub closed : IBlock → ℕ → ℕ → Bool
closed b input output = bit (row b output) input

-- 16 words of 32 bits.
pub record IsValid (b : IBlock) : Type 0 where
  pub size : length b.outputs ≡ 16
  pub words : All (λ w. w < 2 ^ 32) b.outputs
  pub scales : length b.scaling_factors ≡ 32

pow-pos : (i : ℕ) → 0 < 2 ^ i
pow-pos zero = omega arith
pow-pos (suc i) = omega (arith, pow-suc 2 i, pow-pos i)

pub pow-lt : (i w : ℕ) → i < w → 2 ^ i < 2 ^ w
pow-lt i zero h = absurd (omega arith)
pow-lt zero (suc w) h = omega (arith, pow-suc 2 w, pow-pos w)
pow-lt (suc i) (suc w) h = omega (arith, pow-suc 2 i, pow-suc 2 w, pow-lt i w (omega arith))

pub is_connected_unchecked-closed :
    (b : IBlock) (i o : ℕ) → is_connected_unchecked b i o ≡ closed b i o
unfolding is_connected_unchecked
is_connected_unchecked-closed b i o = rw (bit_and_pow (row b o) i) (ground (arith, pow-pos i))

pub is_connected-closed :
    (b : IBlock) (i o : ℕ) → is_connected b i o ≡ (ltb i 32 && (ltb o 16 && closed b i o))
unfolding is_connected
is_connected-closed b i o = rw (is_connected_unchecked-closed b i o) (ground arith)

bit-row_or : (x i j : ℕ) → bit (bit_or x (input_bitmask i)) j ≡ (bit x j || i == j)
bit-row_or x i j = rw (bit-bit_or x (input_bitmask i) j, bit-pow i j)

module _ (b : IBlock) (i o : ℕ) (exclusive split : Bool) where
  -- `connect` succeeds exactly for an input and an output in range, of which the input is, unless
  -- splitting is allowed, on no other output; where it fails it changes nothing.
  pub connect_refused :
      ((connect b i o exclusive split).1
        ≡ (ltb i 32 && (ltb o 16 && (split || not (connected_elsewhere b i o)))))
      × ((connect b i o exclusive split).1 ≡ false → (connect b i o exclusive split).0 ≡ b)
  unfolding connect
  connect_refused = (ground arith, λ h. ground arith)

  pub connect_accepted :
      (connect b i o exclusive split).1 ≡ true
      → (i < 32)
        × (o < 16)
        × (split || not (connected_elsewhere b i o) ≡ true)
        × ((connect b i o exclusive split).0 ≡ record b {
          outputs =
              set b.outputs o
                (if exclusive then input_bitmask i else bit_or (row b o) (input_bitmask i));
        })
  unfolding connect
  connect_accepted h = (ground arith, ground arith, ground arith, ground arith)

  -- On a valid block, after a success the switches of the output are those that were closed (none, if
  -- exclusive) with that of the input; the switches of all other outputs are as they were.
  pub closed-connect :
      IsValid b
      → (connect b i o exclusive split).1 ≡ true
      → (j p : ℕ)
      → closed (connect b i o exclusive split).0 j p
        ≡ (if o == p then i == j || (not exclusive && closed b j p) else closed b j p)
  closed-connect v h j p =
      let (hi, ho, free, e) = connect_accepted h in
      rw
        (
          e,
          get_or-set b.outputs o p
              (if exclusive then input_bitmask i else bit_or (row b o) (input_bitmask i)) 0
              (omega (arith, v.size)),
        )
        (elim (Bool-cases (o == p)) [
          | inl same ↦ rw same (rw (sym ((==_iff o p).0 same)) (written exclusive))
          | inr other ↦ rw other
        ])
    where
      written :
          (x : Bool)
          → bit (if x then input_bitmask i else bit_or (row b o) (input_bitmask i)) j
            ≡ (i == j || (not x && closed b j o))
      written true = bit-pow i j ∙ ground arith
      written false = bit-row_or (row b o) i j ∙ ground arith

-- No input is connected to two outputs.
abbrev pub IsUnsplit : IBlock → Type 0
IsUnsplit b =
    (j p q : ℕ) → j < 32 → p < 16 → q < 16 → closed b j p ≡ true → closed b j q ≡ true → p ≡ q

elsewhere_case :
    (i o p : ℕ) (c : Bool)
    → i < 32
    → p < 16
    → o ≢ p
    → (not (o == p) && (ltb i 32 && (ltb p 16 && c))) ≡ false
    → c ≡ false
elsewhere_case i o p c hi hp ne h = ground arith

not_elsewhere :
    (b : IBlock) (i o p : ℕ)
    → i < 32
    → p < 16
    → connected_elsewhere b i o ≡ false
    → o ≢ p
    → closed b i p ≡ false
not_elsewhere b i o p hi hp h ne =
    let f =
      any-false (λ other. not (o == other) && is_connected b i other) 0 16 p h (omega arith)
        (omega arith) in
    elsewhere_case i o p (closed b i p) hi hp ne (rw (is_connected-closed b i p) at f)

-- One of two outputs is the one that was connected.
new_row :
    (b : IBlock) (i o q j : ℕ) (exclusive : Bool)
    → IsUnsplit b
    → (i < 32) × (o < 16) × (j < 32) × (q < 16)
    → connected_elsewhere b i o ≡ false
    → (i == j || (not exclusive && closed b j o)) ≡ true
    → closed b j q ≡ true
    → o ≡ q
new_row b i o q j exclusive u h free new old = elim (Bool-cases (o == q)) [
  | inl same ↦ (==_iff o q).0 same
  | inr other ↦ elim (Bool-cases (i == j)) [
    | inl this ↦
        let off = not_elsewhere b i o q h.0 h.3 free (λ e. cc (other, (==_iff o q).1 e)) in
        let on = subst (λ t. closed b t q ≡ true) (sym ((==_iff i j).0 this)) old in
        absurd (cc (off, on))
    | inr that ↦ u j o q h.2 h.1 h.3 (set_of exclusive (closed b j o) (i == j) that new) old
  ]
]
  where
    set_of : (x c t : Bool) → t ≡ false → (t || (not x && c)) ≡ true → c ≡ true
    set_of x c t e f = ground arith

-- Without leave to split, `connect` on a valid block in which no input is connected to two outputs
-- leaves no input connected to two outputs, whether it succeeds or not.
pub connect-IsUnsplit :
    (b : IBlock) (i o : ℕ) (exclusive : Bool)
    → IsValid b
    → IsUnsplit b
    → IsUnsplit (connect b i o exclusive false).0
connect-IsUnsplit b i o exclusive v u j p q hj hp hq cp cq =
    elim (Bool-cases (connect b i o exclusive false).1) [
      | inl done ↦
          let (hi, ho, free, _) = connect_accepted b i o exclusive false done in
          both (hi, ho) (unsplit free) (o == p) (o == q) refl refl
            (rw (closed-connect b i o exclusive false v done j p) at cp)
            (rw (closed-connect b i o exclusive false v done j q) at cq)
      | inr refused ↦
          u j p q hj hp hq
            (subst (λ t. closed t j p ≡ true) ((connect_refused b i o exclusive false).1 refused)
              cp)
            (subst (λ t. closed t j q ≡ true) ((connect_refused b i o exclusive false).1 refused)
              cq)
    ]
  where
    unsplit : {c : Bool} → not c ≡ true → c ≡ false
    unsplit h = ground arith

    both :
        (i < 32) × (o < 16)
        → connected_elsewhere b i o ≡ false
        → (x y : Bool) → (o == p) ≡ x
        → (o == q) ≡ y
        → (if x then i == j || (not exclusive && closed b j p) else closed b j p) ≡ true
        → (if y then i == j || (not exclusive && closed b j q) else closed b j q) ≡ true
        → p ≡ q
    both r free true true ep eq np nq = sym ((==_iff o p).0 ep) ∙ (==_iff o q).0 eq
    both r free true false ep eq np nq =
        let e = (==_iff o p).0 ep in
        sym e
        ∙ new_row b i o q j exclusive u (r.0, r.1, hj, hq) free
            (subst (λ t. (i == j || (not exclusive && closed b j t)) ≡ true) (sym e) np) nq
    both r free false true ep eq np nq =
        let e = (==_iff o q).0 eq in
        sym (
          new_row b i o p j exclusive u (r.0, r.1, hj, hp) free
            (subst (λ t. (i == j || (not exclusive && closed b j t)) ≡ true) (sym e) nq) np)
        ∙ e
    both r free false false ep eq np nq = u j p q hj hp hq np nq
