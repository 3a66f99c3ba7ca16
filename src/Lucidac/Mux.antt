-- ===== src/Lucidac/Mux.antt =====
-- The switch matrix in front of the ADC bus, and the status of writing everything.
use lucidac_firmware.Common.{
  bit_or, ℕ, zero, suc, ◌+◌, ◌<◌, ◌≤◌, ◌≡◌, refl, sym, ap, ap₂, ◌∙◌, ◌==◌, Bool, true, false, ◌&&◌,
  ◌||◌, if◌then◌else◌, List, [], ◌∷◌, ℤ, pos, negsuc, length, All, arith,
}
use lucidac_firmware.Bus.{address_from_tuple}
use lucidac_firmware.Bus.Functions.{
  Env, Bus, Call, trigger, transfer, wait, word8, word16, word32, command, bytes,
}
use lucidac_firmware.Chips.Sr74Hct595
use lucidac_firmware.IBlock.Hardware.{chip_cmd_word}
use lucidac_firmware.IBlock.Switches.{apply_byte, closing, chip_cmd_word_lem}
use text.Mathlib.TextLemmas.{append-nil, append_assoc}
use Prim.Native.String.{String, ◌++◌}
use lucidac_firmware.Lucidac.{
  CarrierStatus, ctrl_error, mux_error, Lucidac, no_error, eq_channel, channel_at,
  f_adc_switcher_prg, f_adc_switcher_sync, f_adc_switcher_matrix_reset, write_mux_from,
  write_adc_bus_mux, write_clusters, write_others, write_to_hardware,
}

-- The byte in the shift register, and the closed switches by input and output.
pub record Matrix : Type 0 where
  pub shifted : ℕ
  pub closed_at : ℕ → ℕ → Bool

abbrev told : Matrix → ℕ → Matrix
told m a =
    if a == f_adc_switcher_matrix_reset
    then record m { closed_at = λ x y. false }
    else if a == f_adc_switcher_sync
    then record m { closed_at = apply_byte m.shifted m.closed_at }
    else m

-- The matrix after the calls, newest first, from the matrix before.
abbrev pub matrix : Matrix → List Call → Matrix
matrix m [] = m
matrix m (trigger a ∷ log) = told (matrix m log) a
matrix m (transfer a d (word8 w) ∷ log) =
    if a == f_adc_switcher_prg then record (matrix m log) { shifted = w } else matrix m log
matrix m (transfer a d (word16 w) ∷ log) = matrix m log
matrix m (transfer a d (word32 w) ∷ log) = matrix m log
matrix m (transfer a d (command r w) ∷ log) = matrix m log
matrix m (transfer a d (bytes w) ∷ log) = matrix m log
matrix m (wait ns ∷ log) = matrix m log

-- Channels that the matrix has.
abbrev pub IsInput : ℤ → Type 0
IsInput (pos n) = n < 16
IsInput (negsuc n) = Unit

abbrev connects : List ℤ → ℕ → ℕ → ℕ → Bool
connects [] o x y = false
connects (c ∷ cs) o x y = (eq_channel c (pos x) && o == y) || connects cs (o + 1) x y

module _ (env : Env) (plain_build : env.pedantic ≡ false) (m : Matrix) where
  switched :
      (i o : ℕ) (log : List Call) (x y : ℕ)
      → i < 16
      → o < 8
      → (matrix m (
            trigger f_adc_switcher_sync
            ∷ transfer f_adc_switcher_prg 0 (word8 (chip_cmd_word i o true))
            ∷ log)).closed_at
          x y
        ≡ (if i == x && o == y then true else (matrix m log).closed_at x y)
  unfolding address_from_tuple
  switched i o log x y hi ho =
      ap (λ w. apply_byte w (matrix m log).closed_at x y) (chip_cmd_word_lem i o ∙ omega arith)
      ∙ closing (matrix m log).closed_at i o x y hi ho

  written :
      (channels : List ℤ) (o : ℕ) (log : List Call)
      → All IsInput channels
      → o + length channels ≤ 8
      → ((write_mux_from env channels o log).0 ≡ true)
        × ((x y : ℕ)
            → (matrix m (write_mux_from env channels o log).1).closed_at x y
              ≡ (connects channels o x y || (matrix m log).closed_at x y))
  unfolding write_mux_from Sr74Hct595.transfer8
  written [] o log h l = (refl, λ x y. refl)
  written (negsuc n ∷ channels) o log h l = written channels (o + 1) log h.1 (omega arith)
  written (pos i ∷ channels) o log h l = rw plain_build (
      let ih =
        written channels (o + 1)
          (trigger f_adc_switcher_sync
            ∷ transfer f_adc_switcher_prg 0 (word8 (chip_cmd_word i o true))
            ∷ log)
          h.1 (omega arith) in
      (
        ih.0,
        λ x y.
            ih.1 x y
            ∙ merge (connects channels (o + 1) x y) (i == x && o == y) _ _
                (switched i o log x y h.0 (omega arith)),
      ))
    where
      merge :
          (later now before after : Bool)
          → after ≡ (if now then true else before)
          → (later || after) ≡ ((now || later) || before)
      merge later now before after e = ground (arith, e)

connects_below : (channels : List ℤ) (o x y : ℕ) → y < o → connects channels o x y ≡ false
connects_below [] o x y h = refl
connects_below (c ∷ channels) o x y h =
    neither (eq_channel c (pos x)) (o == y) _ (ground arith)
      (connects_below channels (o + 1) x y (omega arith))
  where
    neither : (a b c : Bool) → b ≡ false → c ≡ false → ((a && b) || c) ≡ false
    neither a b c e f = ground arith

connects_lem :
    (channels : List ℤ) (o x y : ℕ)
    → connects channels o x (o + y) ≡ eq_channel (channel_at channels y) (pos x)
connects_lem [] o x y = refl
connects_lem (c ∷ channels) o x zero =
    here (eq_channel c (pos x)) (o == o + 0) _ (ground arith)
      (connects_below channels (o + 1) x (o + 0) (omega arith))
  where
    here : (a b d : Bool) → b ≡ true → d ≡ false → ((a && b) || d) ≡ a
    here a b d e f = ground arith
connects_lem (c ∷ channels) o x (suc y) =
    there (eq_channel c (pos x)) (o == o + suc y) _ (ground arith)
    ∙ (ap (λ k. connects channels (o + 1) x k) (omega arith) ∙ connects_lem channels (o + 1) x y)
  where
    there : (a b d : Bool) → b ≡ false → ((a && b) || d) ≡ d
    there a b d e = ground arith

opened :
    (m : Matrix) (log : List Call) (b : Bool) (x y : ℕ)
    → (b || (matrix m (wait 420 ∷ trigger f_adc_switcher_matrix_reset ∷ log)).closed_at x y) ≡ b
unfolding address_from_tuple
opened m log true x y = refl
opened m log false x y = refl

-- In a build without ANABRID_PEDANTIC, and for eight channels below 16 or disabled, writing the
-- channels succeeds, and then the switch matrix connects input x to output y of the ADC bus exactly
-- if x is the channel of y, whatever it connected before.
pub write_adc_bus_mux_lem :
    (env : Env) (m : Matrix) (channels : List ℤ) (log : List Call)
    → env.pedantic ≡ false
    → All IsInput channels
    → length channels ≡ 8
    → ((write_adc_bus_mux env channels log).0 ≡ true)
      × ((x y : ℕ)
          → (matrix m (write_adc_bus_mux env channels log).1).closed_at x y
            ≡ eq_channel (channel_at channels y) (pos x))
unfolding write_adc_bus_mux
write_adc_bus_mux_lem env m channels log plain_build inputs full =
    let start = wait 420 ∷ trigger f_adc_switcher_matrix_reset ∷ log in
    let w = written env plain_build m channels 0 start inputs (omega (arith, full)) in
    (
      w.0,
      λ x y.
          w.1 x y
          ∙ (opened m log (connects channels 0 x y) x y
              ∙ (ap (λ k. connects channels 0 x k) (omega arith) ∙ connects_lem channels 0 x y)),
    )

-- What the writes behind the clusters make of two states of the same calls.
same_rest :
    (ctrl mux : Bool) (s t : CarrierStatus)
    → s.code ≡ t.code
    → ((mux_error mux (ctrl_error ctrl s)).code ≡ (mux_error mux (ctrl_error ctrl t)).code)
      × ((rest : String) × ((mux_error mux (ctrl_error ctrl s)).msg ≡ s.msg ++ rest)
          × ((mux_error mux (ctrl_error ctrl t)).msg ≡ t.msg ++ rest))
same_rest true true s t e = (e, ("", sym (append-nil s.msg), sym (append-nil t.msg)))
same_rest true false s t e = (ap (λ c. bit_or c 0x8) e, ("ADC Bus write failed.", refl, refl))
same_rest false true s t e = (ap (λ c. bit_or c 0x4) e, ("CTRL Block write failed.", refl, refl))
same_rest false false s t e = (
  ap (λ c. bit_or (bit_or c 0x4) 0x8) e,
  (
    "CTRL Block write failed." ++ "ADC Bus write failed.",
    append_assoc s.msg "CTRL Block write failed." "ADC Bus write failed.",
    append_assoc t.msg "CTRL Block write failed." "ADC Bus write failed.",
  ),
)

-- The status after the only cluster.
abbrev cluster_error : Bool → CarrierStatus
cluster_error written =
    if written then no_error else record { code = 0; msg = "success" ++ "Cluster write failed." }

-- Two results alike in calls and code, whose texts differ at their start only.
abbrev pub AreAlike :
    CarrierStatus × List Call → CarrierStatus × List Call → String → String → Type 0
AreAlike r q start start' =
    (r.1 ≡ q.1)
    × (r.0.code ≡ q.0.code)
    × ((rest : String) × (r.0.msg ≡ start ++ rest) × (q.0.msg ≡ start' ++ rest))

module _ (env : Env) (ctrl_block : Bus Bool) (l : Lucidac) where
  others-AreAlike :
      (s t : CarrierStatus) (log : List Call)
      → s.code ≡ t.code
      → AreAlike
          (write_others env ctrl_block l s log)
          (write_others env ctrl_block l t log)
          s.msg
          t.msg
  unfolding write_others
  others-AreAlike s t log e =
      let (codes, rest) =
        same_rest (ctrl_block log).0 (write_adc_bus_mux env l.adc_channels (ctrl_block log).1).0 s t
          e in
      (refl, codes, rest)

  after_cluster :
      (cluster : Bus Bool) (log : List Call)
      → write_to_hardware env (cluster ∷ []) ctrl_block l log
        ≡ write_others env ctrl_block l (cluster_error (cluster log).0) (cluster log).1
  unfolding write_to_hardware write_clusters
  after_cluster cluster log = refl

  -- A carrier with one cluster, as a LUCIDAC is, reports no failure of the cluster in the code of its
  -- status: a driver of the cluster that fails and one that makes the same calls and succeeds lead to
  -- the same calls and the same code. The texts of the two statuses differ only at their start, which
  -- is "successCluster write failed." after the failure and "success" otherwise.
  pub write_to_hardware-hides_cluster :
      (cluster other : Bus Bool) (log : List Call)
      → (cluster log).0 ≡ false
      → (other log).0 ≡ true
      → (cluster log).1 ≡ (other log).1
      → AreAlike
          (write_to_hardware env (cluster ∷ []) ctrl_block l log)
          (write_to_hardware env (other ∷ []) ctrl_block l log)
          "successCluster write failed."
          "success"
  write_to_hardware-hides_cluster cluster other log failed done same =
      rw
        (
          after_cluster cluster log
              ∙ ap₂ (write_others env ctrl_block l) (ap cluster_error failed) same,
          after_cluster other log
              ∙ ap (λ w. write_others env ctrl_block l (cluster_error w) (other log).1) done,
        )
        (others-AreAlike (cluster_error false) no_error (other log).1 refl)
