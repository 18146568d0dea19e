-- ===== src/Datamodel/WifiBands/Tests.antt =====
-- Tests and examples of the bands.
use helix_acs.Prelude.{◌≡◌, refl, true, false, some, none, [], ◌∷◌}
use helix_acs.Datamodel.WifiBands.{
  WifiSsidBandWithoutLowerLayersHints, wifi_ssid_band_for_index,
  driver_wifi_band_without_lower_layers_active,
}

abbrev pairs : WifiSsidBandWithoutLowerLayersHints
pairs = record { strategy = " pair_block_mod2 "; explicit_ssid_band = [] }

abbrev table : WifiSsidBandWithoutLowerLayersHints
table = record { strategy = "explicit"; explicit_ssid_band = (3, 2) ∷ [] }

bands :
    (wifi_ssid_band_for_index 10 (some pairs) ≡ 0)
    × (wifi_ssid_band_for_index 10 none ≡ 1)
    × (wifi_ssid_band_for_index 3 (some table) ≡ 2)
    × (wifi_ssid_band_for_index 4 (some table) ≡ 1)
    × (driver_wifi_band_without_lower_layers_active (some table) ≡ true)
    × (driver_wifi_band_without_lower_layers_active none ≡ false)
unfolding wifi_ssid_band_for_index driver_wifi_band_without_lower_layers_active
bands = (refl, refl, refl, refl, refl, refl)
