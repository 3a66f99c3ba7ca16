-- ===== src/IBlock/Reachable.antt =====
-- Which states an I-block can reach.
use Prim.Native.String.{String}
use lucidac_firmware.Common.{
  length, replicate, ℕ, suc, all_below, all_below_sound, ◌+◌, ◌<◌, ◌≡◌, ◌⊎◌, refl, subst, sym, Bool,
  true, false, not, ◌&&◌, List, [], ◌∷◌, arith, Bool-cases, inl, inr,
}
use lucidac_firmware.Entity.{has, circuit_reset}
use lucidac_firmware.IBlock.{
  set_all_upscaling, reset_upscaling, IBlock, connect, disconnect, disconnect_input, set_upscaling,
  reset, reset_outputs, init, is_connected, is_anything_connected,
}
use lucidac_firmware.IBlock.Connections.{IsValid, closed}
use lucidac_firmware.Json.{JsonApi}
use lucidac_firmware.IBlock.Invariant.{disconnect_input-IsValid, disconnect_input-IsUnsplit}
use lucidac_firmware.IBlock.Config.{config_self_from_json}
use lucidac_firmware.IBlock.Configured.{
  IsSound, connect-IsSound, disconnect-IsSound, set_upscaling-IsSound, reset_outputs-IsSound,
  config_self_from_json-IsSound,
}

-- The methods by which other code changes an I-block, without leave to split inputs, but
-- for `set_outputs`; the last reads a configuration.
pub data Method (V : Type 0) : Type 0 where
  connects : ℕ → ℕ → Bool → Method V
  disconnects_input : ℕ → ℕ → Method V
  disconnects : ℕ → Method V
  sets_upscaling : ℕ → Bool → Method V
  sets_all_upscaling : (scales : List Bool) → length scales ≡ 32 → Method V
  resets : ℕ → Method V
  resets_outputs resets_upscaling : Method V
  configures : List (String × V) → Method V

init-IsSound : IsSound init
unfolding init reset_outputs
init-IsSound = reset_outputs-IsSound init refl

reset-init : (b : IBlock) (action : ℕ) → reset b action ≡ b ⊎ reset b action ≡ init
unfolding reset init
reset-init b action = elim (Bool-cases (has action circuit_reset)) [
  | inl e ↦ inr (rw e)
  | inr e ↦ inl (rw e)
]

reset-IsSound : (b : IBlock) (action : ℕ) → IsSound b → IsSound (reset b action)
reset-IsSound b action h = elim (reset-init b action) [
  | inl e ↦ subst IsSound (sym e) h
  | inr e ↦ subst IsSound (sym e) init-IsSound
]

rescaled-IsSound :
    (b : IBlock) (scales : List Bool)
    → length scales ≡ 32
    → IsSound b
    → IsSound (set_all_upscaling b scales)
unfolding set_all_upscaling
rescaled-IsSound b scales size (v, u) =
    (record { size = v.size; words = v.words; scales = size }, u)

module _ {F V : Type 0} (js : JsonApi F V) where
  abbrev pub perform : IBlock → Method V → IBlock
  perform b (connects i o exclusive) = (connect b i o exclusive false).0
  perform b (disconnects_input i o) = (disconnect_input b i o).0
  perform b (disconnects o) = (disconnect b o).0
  perform b (sets_upscaling i upscale) = (set_upscaling b i upscale).0
  perform b (resets action) = reset b action
  perform b (sets_all_upscaling scales size) = set_all_upscaling b scales
  perform b resets_outputs = reset_outputs b
  perform b resets_upscaling = reset_upscaling b
  perform b (configures cfg) = (config_self_from_json js b cfg).0

  abbrev pub perform_all : IBlock → List (Method V) → IBlock
  perform_all b [] = b
  perform_all b (m ∷ ms) = perform_all (perform b m) ms

  perform-IsSound : (b : IBlock) (m : Method V) → IsSound b → IsSound (perform b m)
  unfolding set_all_upscaling reset_upscaling
  perform-IsSound b (connects i o e) h = connect-IsSound b i o e h
  perform-IsSound b (disconnects_input i o) (v, u) =
      (disconnect_input-IsValid b i o v, disconnect_input-IsUnsplit b i o v u)
  perform-IsSound b (disconnects o) h = disconnect-IsSound b o h
  perform-IsSound b (sets_upscaling i x) h = set_upscaling-IsSound b i x h
  perform-IsSound b (resets action) h = reset-IsSound b action h
  perform-IsSound b (sets_all_upscaling scales size) h = rescaled-IsSound b scales size h
  perform-IsSound b resets_outputs (v, u) = reset_outputs-IsSound b v.scales
  perform-IsSound b resets_upscaling h = rescaled-IsSound b (replicate 32 false) refl h
  perform-IsSound b (configures cfg) h = config_self_from_json-IsSound js b cfg h

  perform_all-IsSound : (b : IBlock) (ms : List (Method V)) → IsSound b → IsSound (perform_all b ms)
  perform_all-IsSound b [] h = h
  perform_all-IsSound b (m ∷ ms) h = perform_all-IsSound (perform b m) ms (perform-IsSound b m h)

  -- After any of these calls the block holds 16 words of 32 bits and 32 scaling factors.
  pub reachable_words-IsValid : (ms : List (Method V)) → IsValid (perform_all init ms)
  reachable_words-IsValid ms = (perform_all-IsSound init ms init-IsSound).0

  -- After any sequence on a new I-block of calls that connect without leave to split inputs,
  -- disconnect, reset, set the upscaling, or read a configuration, with any arguments, an input whose
  -- switches to two outputs are both closed has them closed to one and the same output.
  -- Configurations may be malformed, and may end with an error or an exception. (The setter of all
  -- outputs at once, `set_outputs`, is not among the calls.)
  pub reachable_unsplit :
      (ms : List (Method V)) (j p q : ℕ)
      → j < 32
      → p < 16
      → q < 16
      → closed (perform_all init ms) j p ≡ true
      → closed (perform_all init ms) j q ≡ true
      → p ≡ q
  reachable_unsplit ms = (perform_all-IsSound init ms init-IsSound).1

-- The block whose only connection is the input `8 + k` on an output that is not output 0.
abbrev pub single : ℕ → ℕ → IBlock
single k o = (connect init (8 + k) o false false).0

abbrev misses : ℕ → ℕ → Bool
misses o k =
    is_connected (single k (suc o)) (8 + k) (suc o)
    && not (is_anything_connected (single k (suc o)))

misses_table : all_below 15 (λ o. all_below 24 (misses o)) ≡ true
unfolding is_connected is_anything_connected connect init
misses_table = refl

-- A block whose only connection is one of the inputs 8 to 31 on an output other than 0 says that
-- nothing is connected, although that connection is there.
pub is_anything_connected-misses :
    (k o : ℕ)
    → k < 24
    → o < 15
    → (is_connected (single k (suc o)) (8 + k) (suc o) ≡ true)
      × (is_anything_connected (single k (suc o)) ≡ false)
is_anything_connected-misses k o hk ho =
    let row = all_below_sound 15 (λ p. all_below 24 (misses p)) o misses_table ho in
    let found = all_below_sound 24 (misses o) k row hk in (ground arith, ground arith)
