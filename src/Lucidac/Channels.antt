-- ===== src/Lucidac/Channels.antt =====
-- The channels of the ADC bus in memory.
use native.Mathlib.Decide.{ℕ_discrete}
use lucidac_firmware.Common.{
  ℕ, ◌<◌, ◌≡◌, ◌≢◌, refl, sym, ap, ◌∙◌, ◌==◌, ==_iff, leb, Bool, true, false, not, ◌&&◌,
  if◌then◌else◌, List, ℤ, pos, negsuc, nonneg, set, length, length-set, get_or-set,
  get_or-replicate, any, any-false, index_range, arith, Bool-cases, inl, inr, replicate, ==_refl,
  ap₂,
}
use lucidac_firmware.Entity.{has, circuit_reset}
use lucidac_firmware.Lucidac.{
  Lucidac, adc_channel_disabled, eq_channel, above_15, channel_at, used_elsewhere, used_twice, init,
  normalised, set_adc_channels, set_adc_channel, reset, reset_adc_channels, reset_acl_select,
}

-- Eight channels, of which no two that are connected are the same.
pub record IsDistinct (channels : List ℤ) : Type 0 where
  pub full : length channels ≡ 8
  pub distinct :
      (i j : ℕ)
      → i < 8
      → j < 8
      → i ≢ j
      → nonneg (channel_at channels i) ≡ true
      → eq_channel (channel_at channels j) (channel_at channels i) ≡ false

disabled-IsDistinct : IsDistinct (replicate 8 adc_channel_disabled)
disabled-IsDistinct = record { full = refl; distinct = λ i j hi hj ne h. off i h }
  where
    off :
        (i : ℕ) → nonneg (channel_at (replicate 8 adc_channel_disabled) i) ≡ true → {A : Type 0} → A
    off i h = absurd (no (ap nonneg (sym (get_or-replicate 8 i adc_channel_disabled)) ∙ h))
      where
        no : false ≡ true → ⊥
        no e = ground arith

elsewhere_lem :
    (channels : List ℤ) (i j : ℕ) (c : ℤ)
    → used_elsewhere channels i c ≡ false
    → j < 8
    → i ≢ j
    → eq_channel (channel_at channels j) c ≡ false
elsewhere_lem channels i j c h hj ne =
    second (i == j) (eq_channel (channel_at channels j) c)
      (any-false (λ k. not (i == k) && eq_channel (channel_at channels k) c) 0 8 j h (omega arith)
        (omega arith))
      (ground (arith, ==_iff i j))
  where
    second : (p q : Bool) → (not p && q) ≡ false → p ≡ false → q ≡ false
    second p q e f = ground arith

set_adc_channels-IsDistinct :
    (l : Lucidac) (channels : List ℤ)
    → length channels ≡ 8
    → IsDistinct l.adc_channels
    → IsDistinct (set_adc_channels l channels).0.adc_channels
unfolding set_adc_channels
set_adc_channels-IsDistinct l channels full h = elim (Bool-cases (any above_15 channels)) [
  | inl high ↦ rw high h
  | inr low ↦ rw low (elim (Bool-cases (any (used_twice channels) (index_range 8))) [
    | inl twice ↦ rw twice h
    | inr once ↦ rw once record {
      full = full;
      distinct = λ i j hi hj ne on.
          elsewhere_lem channels i j (channel_at channels i)
            (second _ _ (any-false (used_twice channels) 0 8 i once (omega arith) (omega arith)) on)
            hj ne;
    }
  ])
]
  where
    second : (p q : Bool) → (p && q) ≡ false → p ≡ true → q ≡ false
    second p q e f = ground arith

eq_channel_sym : (a b : ℤ) → eq_channel a b ≡ eq_channel b a
eq_channel_sym (pos m) (pos n) = ground arith
eq_channel_sym (pos m) (negsuc n) = refl
eq_channel_sym (negsuc m) (pos n) = refl
eq_channel_sym (negsuc m) (negsuc n) = ground arith

-- Two channels of which the first is connected, the other not.
sign_differs : (a b : ℤ) → nonneg a ≡ true → nonneg b ≡ false → eq_channel b a ≡ false
sign_differs (pos m) (pos n) h k = ground arith
sign_differs (pos m) (negsuc n) h k = refl
sign_differs (negsuc m) b h k = ground arith

module _ (xs : List ℤ) (idx : ℕ) (c : ℤ) (h : IsDistinct xs) (hidx : idx < 8)
    (free : nonneg c ≡ true → used_elsewhere xs idx c ≡ false) where
  set_at : (i : ℕ) → channel_at (set xs idx c) i ≡ (if idx == i then c else channel_at xs i)
  set_at i = get_or-set xs idx i c adc_channel_disabled (omega (arith, h.full))

  at_self : channel_at (set xs idx c) idx ≡ c
  at_self = set_at idx ∙ rw (==_refl idx) refl

  at_other : (i : ℕ) → idx ≢ i → channel_at (set xs idx c) i ≡ channel_at xs i
  at_other i ne = set_at i ∙ other (idx == i) (ground (arith, ==_iff idx i))
    where
      other : (b : Bool) → b ≡ false → (if b then c else channel_at xs i) ≡ channel_at xs i
      other b e = rw e refl

  new_differs :
      (i : ℕ)
      → i < 8
      → idx ≢ i
      → nonneg (channel_at xs i) ≡ true
      → eq_channel c (channel_at xs i) ≡ false
  new_differs i hi ne on = elim (Bool-cases (nonneg c)) [
    | inl connected ↦
        eq_channel_sym c (channel_at xs i) ∙ elsewhere_lem xs idx i c (free connected) hi ne
    | inr off ↦ sign_differs (channel_at xs i) c on off
  ]

  set-IsDistinct : IsDistinct (set xs idx c)
  set-IsDistinct = record {
    full = length-set xs idx c ∙ h.full;
    distinct = λ i j hi hj ne on. by_places i j hi hj ne on (ℕ_discrete idx i) (ℕ_discrete idx j);
  }
    where
      by_places :
          (i j : ℕ)
          → i < 8
          → j < 8
          → i ≢ j
          → nonneg (channel_at (set xs idx c) i) ≡ true
          → Dec (idx ≡ i)
          → Dec (idx ≡ j)
          → eq_channel (channel_at (set xs idx c) j) (channel_at (set xs idx c) i) ≡ false
      by_places i j hi hj ne on (yes e) (yes f) = absurd (ne (sym e ∙ f))
      by_places i j hi hj ne on (yes e) (no g) =
          let here = ap (channel_at (set xs idx c)) (sym e) ∙ at_self in
          ap₂ eq_channel (at_other j g) here
          ∙ elsewhere_lem xs idx j c (free (ap nonneg (sym here) ∙ on)) hj g
      by_places i j hi hj ne on (no g) (yes f) =
          let there = ap (channel_at (set xs idx c)) (sym f) ∙ at_self in
          ap₂ eq_channel there (at_other i g)
          ∙ new_differs i hi g (ap nonneg (sym (at_other i g)) ∙ on)
      by_places i j hi hj ne on (no g) (no k) =
          ap₂ eq_channel (at_other j k) (at_other i g)
          ∙ h.distinct i j hi hj ne (ap nonneg (sym (at_other i g)) ∙ on)

set_adc_channel-IsDistinct :
    (l : Lucidac) (idx : ℕ) (channel : ℤ)
    → IsDistinct l.adc_channels
    → IsDistinct (set_adc_channel l idx channel).0.adc_channels
unfolding set_adc_channel
set_adc_channel-IsDistinct l idx channel h = elim (Bool-cases (leb 8 idx)) [
  | inl out ↦ rw out h
  | inr within ↦
      rw within
        (elim (Bool-cases (
          not (eq_channel (normalised channel) adc_channel_disabled)
          && used_elsewhere l.adc_channels idx (normalised channel))) [
            | inl used ↦ rw used h
            | inr free ↦ rw free (
                set-IsDistinct l.adc_channels idx (normalised channel) h (ground arith) (λ on.
                  connected (normalised channel)
                    (used_elsewhere l.adc_channels idx (normalised channel)) free on))
          ])
]
  where
    connected :
        (c : ℤ) (u : Bool)
        → (not (eq_channel c adc_channel_disabled) && u) ≡ false
        → nonneg c ≡ true
        → u ≡ false
    connected (pos n) u e on = e
    connected (negsuc n) u e on = ground arith

reset-IsDistinct : (l : Lucidac) (action : ℕ) → IsDistinct (reset l action).adc_channels
unfolding reset reset_adc_channels reset_acl_select
reset-IsDistinct l action = elim (Bool-cases (has action circuit_reset)) [
  | inl e ↦ rw e disabled-IsDistinct
  | inr e ↦ rw e disabled-IsDistinct
]

-- The states that calls of the two setters and resets lead to.
pub data Reachable : Lucidac → Type 0 where
  started : Reachable init
  all_set :
      {l : Lucidac} (channels : List ℤ)
      → length channels ≡ 8
      → Reachable l
      → Reachable (set_adc_channels l channels).0
  one_set :
      {l : Lucidac} (idx : ℕ) (channel : ℤ)
      → Reachable l
      → Reachable (set_adc_channel l idx channel).0
  was_reset : {l : Lucidac} (action : ℕ) → Reachable l → Reachable (reset l action)

-- Whatever sequence of set_adc_channels, set_adc_channel and reset is called, refused calls included,
-- there are eight channels, and no signal is connected to two of them.
pub reachable_channels-IsDistinct : (l : Lucidac) → Reachable l → IsDistinct l.adc_channels
unfolding init
reachable_channels-IsDistinct _ started = disabled-IsDistinct
reachable_channels-IsDistinct _ (all_set channels full r) =
    set_adc_channels-IsDistinct _ channels full (reachable_channels-IsDistinct _ r)
reachable_channels-IsDistinct _ (one_set idx channel r) =
    set_adc_channel-IsDistinct _ idx channel (reachable_channels-IsDistinct _ r)
reachable_channels-IsDistinct _ (was_reset action r) = reset-IsDistinct _ action
