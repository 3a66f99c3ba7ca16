-- ===== src/IBlock/ChipStep.antt =====
-- What the byte of one command word does to the switches of its chip.
use lucidac_firmware.Common.{
  ℕ, zero, suc, ◌+◌, ◌*◌, ◌%◌, ◌<◌, ◌≡◌, refl, sym, subst, ◌==◌, ==_iff, ==_refl, ltb, leb, Bool,
  true, false, ◌&&◌, ◌||◌, if◌then◌else◌, List, ◌∷◌, get_or, arith, Bool-cases, inl, inr, ◌∙◌,
  bit_and_pow, bit-zero, and_true,
}
use lucidac_firmware.Bus.Addressing.{replace_function_idx_lem}
use lucidac_firmware.Bus.Functions.{Call, trigger, transfer, word32}
use lucidac_firmware.IBlock.Hardware.{
  wanted, command_word, actual_data, f_cmd, f_imatrix_reset, f_imatrix_sync,
}
use lucidac_firmware.IBlock.Switches.{
  Matrices, byte_of, apply_byte, apply_word, matrices, Remembered, again, closing, new_byte,
  new_byte-lt, command_word_lem, bytes_of_sum,
}

-- What the words ask of a chip's switch.
abbrev pub wanted_at : List ℕ → ℕ → ℕ → ℕ → Bool
wanted_at outputs zero x y = wanted outputs x y
wanted_at outputs (suc zero) x y = wanted outputs (x + 16) y
wanted_at outputs (suc (suc zero)) x y = wanted outputs x (y + 8)
wanted_at outputs (suc (suc (suc k))) x y = wanted outputs (x + 16) (y + 8)

new_byte_lem :
    (outputs : List ℕ) (r place i o x y : ℕ)
    → i % 16 ≡ x
    → o % 8 ≡ y
    → new_byte outputs r place i o
      ≡ (if wanted outputs i o then 128 + 16 * y + x else byte_of r place)
new_byte_lem outputs r place i o x y hx hy = rw (hx, hy) refl

command_bytes :
    (outputs : List ℕ) (r x y : ℕ)
    → let w = command_word outputs r y x in
      (byte_of w 0 ≡ new_byte outputs r 0 x y)
      × ((byte_of w 1 ≡ new_byte outputs r 1 (x + 16) y)
          × ((byte_of w 2 ≡ new_byte outputs r 2 x (y + 8))
              × (byte_of w 3 ≡ new_byte outputs r 3 (x + 16) (y + 8))))
command_bytes outputs r x y = rw (command_word_lem outputs r y x) (
    bytes_of_sum (new_byte outputs r 0 x y) (new_byte outputs r 1 (x + 16) y)
      (new_byte outputs r 2 x (y + 8)) (new_byte outputs r 3 (x + 16) (y + 8))
      (new_byte-lt outputs r 0 x y) (new_byte-lt outputs r 1 (x + 16) y)
      (new_byte-lt outputs r 2 x (y + 8)) (new_byte-lt outputs r 3 (x + 16) (y + 8)))

pub command_byte :
    (outputs : List ℕ) (r x y chip : ℕ)
    → chip < 4
    → x < 16
    → y < 8
    → byte_of (command_word outputs r y x) chip
      ≡ (if wanted_at outputs chip x y then 128 + 16 * y + x else byte_of r chip)
command_byte outputs r x y zero h hx hy =
    (command_bytes outputs r x y).0 ∙ new_byte_lem outputs r 0 x y x y (omega arith) (omega arith)
command_byte outputs r x y (suc zero) h hx hy =
    (command_bytes outputs r x y).1.0
    ∙ new_byte_lem outputs r 1 (x + 16) y x y (omega arith) (omega arith)
command_byte outputs r x y (suc (suc zero)) h hx hy =
    (command_bytes outputs r x y).1.1.0
    ∙ new_byte_lem outputs r 2 x (y + 8) x y (omega arith) (omega arith)
command_byte outputs r x y (suc (suc (suc zero))) h hx hy =
    (command_bytes outputs r x y).1.1.1
    ∙ new_byte_lem outputs r 3 (x + 16) (y + 8) x y (omega arith) (omega arith)
command_byte outputs r x y (suc (suc (suc (suc k)))) h hx hy = absurd (omega arith)

pub no_more :
    (w on : ℕ → ℕ → Bool) (x y : ℕ)
    → w x y ≡ false
    → (i o : ℕ) → on i o ≡ (on i o || (w i o && (x == i && y == o)))
no_more w on x y e i o = elim (Bool-cases (x == i && y == o)) [
  | inl h ↦
      let off : w i o ≡ false =
        subst (λ t. w t o ≡ false) (ground arith) (subst (λ t. w x t ≡ false) (ground arith) e) in
      rw (h, off) (ground arith)
  | inr h ↦ rw h (ground arith)
]

-- One chip that is sent the byte for the switch (x, y), or its last byte again.
pub applied :
    (w on : ℕ → ℕ → Bool) (b x y : ℕ)
    → x < 16
    → y < 8
    → Remembered b on
    → let b' = if w x y then 128 + 16 * y + x else b in
      Remembered b' (apply_byte b' on)
      × ((i o : ℕ)
          → i < 16
          → o < 8
          → apply_byte b' on i o ≡ (on i o || (w i o && (x == i && y == o))))
applied w on b x y hx hy m = elim (Bool-cases (w x y)) [
  | inl e ↦ rw e (
    inr (x, y, hx, hy, refl, closing on x y x y hx hy ∙ rw (==_refl x, ==_refl y) refl),
    λ i o hi ho. closing on x y i o hx hy ∙ one_more e i o,
  )
  | inr e ↦
      rw e (kept m (again b on m), λ i o hi ho. again b on m i o hi ho ∙ no_more w on x y e i o)
]
  where
    one_more :
        w x y ≡ true
        → (i o : ℕ)
        → (if x == i && y == o then true else on i o) ≡ (on i o || (w i o && (x == i && y == o)))
    one_more e i o = elim (Bool-cases (x == i && y == o)) [
      | inl h ↦
          let there : w i o ≡ true =
            subst (λ t. w t o ≡ true) (ground arith) (subst (λ t. w x t ≡ true) (ground arith) e) in
          rw (h, there) (ground arith)
      | inr h ↦ rw h (ground arith)
    ]

    kept :
        Remembered b on
        → ((i o : ℕ) → i < 16 → o < 8 → apply_byte b on i o ≡ on i o)
        → Remembered b (apply_byte b on)
    kept (inl (e, none_)) same = inl (e, λ i o hi ho. same i o hi ho ∙ none_ i o hi ho)
    kept (inr (i, o, hi, ho, e, c)) same = inr (i, o, hi, ho, e, same i o hi ho ∙ c)

sync_reset : (block : ℕ) → (f_imatrix_sync block == f_imatrix_reset block) ≡ false
sync_reset block =
    rw (replace_function_idx_lem block 3, replace_function_idx_lem block 4) (ground arith)

pub sent :
    (block : ℕ) (m : Matrices) (log : List Call) (w : ℕ)
    → matrices block m (trigger (f_imatrix_sync block) ∷ transfer (f_cmd block) 0 (word32 w) ∷ log)
      ≡ apply_word (record (matrices block m log) { shifted = w })
sent block m log w =
    rw (sync_reset block, ==_refl (f_imatrix_sync block), ==_refl (f_cmd block)) refl

pub not_wanted :
    (outputs : List ℕ) (chip y x : ℕ)
    → chip < 4
    → actual_data outputs y x ≡ false
    → wanted_at outputs chip x y ≡ false
not_wanted outputs zero y x h e = ground arith
not_wanted outputs (suc zero) y x h e = ground arith
not_wanted outputs (suc (suc zero)) y x h e = ground arith
not_wanted outputs (suc (suc (suc zero))) y x h e = ground arith
not_wanted outputs (suc (suc (suc (suc k)))) y x h e = absurd (omega arith)

nothing_wanted :
    (outputs : List ℕ) (i o : ℕ) → (get_or outputs o 0 == 0) ≡ true → wanted outputs i o ≡ false
nothing_wanted outputs i o e =
    rw ((==_iff (get_or outputs o 0) 0).0 e) (rw (bit_and_pow 0 i, bit-zero i) refl)

pub empty_row :
    (outputs : List ℕ) (chip y x : ℕ)
    → chip < 4
    → (get_or outputs y 0 == 0 && get_or outputs (y + 8) 0 == 0) ≡ true
    → wanted_at outputs chip x y ≡ false
empty_row outputs zero y x h e = nothing_wanted outputs x y (and_true _ _ e).0
empty_row outputs (suc zero) y x h e = nothing_wanted outputs (x + 16) y (and_true _ _ e).0
empty_row outputs (suc (suc zero)) y x h e = nothing_wanted outputs x (y + 8) (and_true _ _ e).1
empty_row outputs (suc (suc (suc zero))) y x h e =
    nothing_wanted outputs (x + 16) (y + 8) (and_true _ _ e).1
empty_row outputs (suc (suc (suc (suc k)))) y x h e = absurd (omega arith)

pub in_range_suc :
    (k n i : ℕ) → (k == i || (leb (suc k) i && ltb i (suc k + n))) ≡ (leb k i && ltb i (k + suc n))
in_range_suc k n i = ground arith

pub next_in_range :
    (k n i : ℕ) (a w v : Bool)
    → (a || (w && (k == i && v)) || (w && ((leb (suc k) i && ltb i (suc k + n)) && v)))
      ≡ (a || (w && ((leb k i && ltb i (k + suc n)) && v)))
next_in_range k n i a w v =
    rw (sym (in_range_suc k n i)) (boolean a w v (k == i) (leb (suc k) i && ltb i (suc k + n)))
  where
    boolean :
        (a w v p q : Bool)
        → (a || (w && (p && v)) || (w && (q && v))) ≡ (a || (w && ((p || q) && v)))
    boolean a w v p q = ground arith
