-- ===== src/Lucidac/Tests.antt =====
-- Channels of the ADC bus, and the theorems about them at these.
use lucidac_firmware.Common.{ℕ, ◌≡◌, refl, true, false, List, [], ◌∷◌, ℤ, pos, negsuc, arith}
use lucidac_firmware.Bus.Functions.{Env, pure}
use lucidac_firmware.Samples.{number, item, end, plain, list}
use lucidac_firmware.Lucidac.{
  Lucidac, init, set_adc_channel, set_adc_channels, write_adc_bus_mux, write_to_hardware,
  eq_channel, channel_at,
}
use lucidac_firmware.Lucidac.Config.{channels_from_json}
use lucidac_firmware.Lucidac.Channels.{
  IsDistinct, started, one_set, all_set, reachable_channels-IsDistinct,
}
use lucidac_firmware.Lucidac.Mux.{
  Matrix, matrix, write_adc_bus_mux_lem, write_to_hardware-hides_cluster, AreAlike,
}

abbrev channels : List ℤ
channels = pos 3 ∷ pos 15 ∷ negsuc 0 ∷ pos 0 ∷ negsuc 0 ∷ negsuc 0 ∷ negsuc 0 ∷ pos 7 ∷ []

-- The second call asks for a channel that is in use, and is refused.
abbrev sample : Lucidac
sample = (set_adc_channel (set_adc_channels init channels).0 5 (pos 15)).0

reachable_channels-IsDistinct_example : IsDistinct sample.adc_channels
reachable_channels-IsDistinct_example =
    reachable_channels-IsDistinct sample (one_set 5 (pos 15) (all_set channels refl started))

abbrev plain_env : Env
plain_env = record { pedantic = false; miso = λ log. 0; miso_bytes = λ log. [] }

abbrev closed : Matrix
closed = record { shifted = 0; closed_at = λ x y. true }

write_adc_bus_mux_lem_example :
    ((write_adc_bus_mux plain_env channels []).0 ≡ true)
    × ((x y : ℕ)
        → (matrix closed (write_adc_bus_mux plain_env channels []).1).closed_at x y
          ≡ eq_channel (channel_at channels y) (pos x))
write_adc_bus_mux_lem_example =
    write_adc_bus_mux_lem plain_env closed channels [] refl
      (omega arith, (omega arith, (tt, (omega arith, (tt, (tt, (tt, (omega arith, tt)))))))) refl

write_to_hardware-hides_cluster_example :
    AreAlike
      (write_to_hardware plain_env (pure false ∷ []) (pure true) init [])
      (write_to_hardware plain_env (pure true ∷ []) (pure true) init [])
      "successCluster write failed."
      "success"
write_to_hardware-hides_cluster_example =
    write_to_hardware-hides_cluster plain_env (pure true) init (pure false) (pure true) [] refl refl
      refl

-- The failure is a success with a text.
cluster_failed :
    (write_to_hardware plain_env (pure false ∷ []) (pure true) init []).0
    ≡ record { code = 0; msg = "successCluster write failed." }
unfolding write_to_hardware init
cluster_failed = refl

-- A configuration may name a channel twice, and one that the matrix does not have.
unchecked_channels :
    channels_from_json plain channels
      (list (item (number 3) (item (number 3) (item (number 20) end))))
    ≡ pos 3 ∷ pos 3 ∷ pos 20 ∷ pos 0 ∷ negsuc 0 ∷ negsuc 0 ∷ negsuc 0 ∷ pos 7 ∷ []
unchecked_channels = refl
