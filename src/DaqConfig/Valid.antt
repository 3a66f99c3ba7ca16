-- ===== src/DaqConfig/Valid.antt =====
-- What the test of an acquisition request lets through.
use lucidac_firmware.Common.{
  ℕ, ◌*◌, ◌-◌, ◌%◌, ◌^◌, ◌<◌, ◌≡◌, refl, ◌==◌, ltb, leb, bit_and, Bool, true, false, not, ◌&&◌,
  ◌||◌, List, [], ◌∷◌, any, arith, all_below_sound, if◌then◌else◌, ◌∙◌,
}
use lucidac_firmware.DaqConfig.{DaqConfig, is_valid}

abbrev equal_tests : Bool → Bool → Bool
equal_tests a b = (a && b) || (not a && not b)

equal_tests_sound : (a b : Bool) → equal_tests a b ≡ true → a ≡ b
equal_tests_sound a b h = ground arith

-- The numbers of channels that a `uint8_t` holds and the test accepts.
abbrev pub accepted_channels : List ℕ
accepted_channels = 0 ∷ 1 ∷ 2 ∷ 4 ∷ 8 ∷ 16 ∷ 32 ∷ 64 ∷ 128 ∷ []

abbrev pub is_accepted : ℕ → Bool
is_accepted n = any (λ m. n == m) accepted_channels

power_test : (n : ℕ) → n < 256 → not (ltb 0 n && not (bit_and n (n - 1) == 0)) ≡ is_accepted n
power_test n h = equal_tests_sound (not (ltb 0 n && not (bit_and n (n - 1) == 0))) (is_accepted n) (
    all_below_sound 256
      (λ k. equal_tests (not (ltb 0 k && not (bit_and k (k - 1) == 0))) (is_accepted k)) n refl h)

shape :
    (wide slow bad : Bool)
    → (if wide || slow then false else if bad then false else true)
      ≡ ((not wide && not slow) && not bad)
shape wide slow bad = ground arith

-- A request is accepted exactly when its rate is at least 32, its number of channels is zero or a
-- power of two, and the product of the two, taken modulo 2^32, is at most 1000000. So a product
-- above the limit is accepted as well when its remainder is below it, as of 128 channels at a rate
-- of 2^25.
pub is_valid_lem :
    (c : DaqConfig)
    → c.num_channels < 256
    → is_valid c ≡ (
        (leb (c.sample_rate * c.num_channels % 2 ^ 32) 1000000 && leb 32 c.sample_rate)
        && is_accepted c.num_channels)
unfolding is_valid
is_valid_lem c h =
    shape (ltb 1000000 (c.sample_rate * c.num_channels % 2 ^ 32)) (ltb c.sample_rate 32)
      (ltb 0 c.num_channels && not (bit_and c.num_channels (c.num_channels - 1) == 0))
    ∙ rw (power_test c.num_channels h)
        (flip (c.sample_rate * c.num_channels % 2 ^ 32) c.sample_rate)
  where
    flip :
        (p r : ℕ)
        → ((not (ltb 1000000 p) && not (ltb r 32)) && is_accepted c.num_channels)
          ≡ ((leb p 1000000 && leb 32 r) && is_accepted c.num_channels)
    flip p r = rw (not_ltb 1000000 p, not_ltb r 32) refl
      where
        not_ltb : (a b : ℕ) → not (ltb a b) ≡ leb b a
        not_ltb a b = ground arith
