-- ===== src/Datamodel/WifiBands.antt =====
-- The band of a WiFi network without LowerLayers of internal/datamodel/instances.go, by the number of its
-- SSID object.
pub mod Strategies
mod Tests
use helix_acs.Prelude.{
  ℕ, ◌+◌, ◌-◌, ◌*◌, ◌/◌, ◌%◌, ◌<◌, String, Bool, true, false, ◌||◌, List, [], ◌∷◌, Option, none,
  some, str_eq, ◌==◌, ltb, if◌then◌else◌, is_empty, not,
}
use helix_acs.Text.{trim_space}

pub record WifiSsidBandWithoutLowerLayersHints : Type 0 where
  pub strategy : String
  pub explicit_ssid_band : List (ℕ × ℕ)

unfoldable pub wifi_ssid_pair_block_mod2_band : ℕ → ℕ
wifi_ssid_pair_block_mod2_band ssid_idx = if ltb ssid_idx 1 then 0 else ((ssid_idx - 1) / 2) % 2

abbrev pub one_of : ℕ → List ℕ → Bool
one_of n [] = false
one_of n (m ∷ others) = n == m || one_of n others

unfoldable pub tplink_legacy_multi_radio_no_lower_layers_band : ℕ → ℕ
tplink_legacy_multi_radio_no_lower_layers_band ssid_idx =
    if one_of ssid_idx (1 ∷ 2 ∷ 5 ∷ 6 ∷ 9 ∷ 11 ∷ 13 ∷ [])
    then 0
    else if one_of ssid_idx (3 ∷ 4 ∷ 7 ∷ 8 ∷ 10 ∷ 12 ∷ 14 ∷ [])
    then 1
    else if ssid_idx % 2 == 1
    then 0
    else 1

unfoldable pub driver_wifi_band_without_lower_layers_active :
    Option WifiSsidBandWithoutLowerLayersHints → Bool
unfolding trim_space
driver_wifi_band_without_lower_layers_active none = false
driver_wifi_band_without_lower_layers_active (some cfg) =
    let strategy = trim_space cfg.strategy in
    if str_eq strategy "pair_block_mod2" || str_eq strategy "legacy_tplink_multi"
    then true
    else if str_eq strategy "explicit"
    then not (is_empty cfg.explicit_ssid_band)
    else false

abbrev pub explicit_band : ℕ → List (ℕ × ℕ) → Option ℕ
explicit_band ssid_idx [] = none
explicit_band ssid_idx ((i, band) ∷ bands) =
    if i == ssid_idx then some band else explicit_band ssid_idx bands

unfoldable pub wifi_ssid_band_for_index : ℕ → Option WifiSsidBandWithoutLowerLayersHints → ℕ
unfolding trim_space wifi_ssid_pair_block_mod2_band tplink_legacy_multi_radio_no_lower_layers_band
wifi_ssid_band_for_index ssid_idx none = tplink_legacy_multi_radio_no_lower_layers_band ssid_idx
wifi_ssid_band_for_index ssid_idx (some cfg) =
    let legacy = tplink_legacy_multi_radio_no_lower_layers_band ssid_idx in
    let strategy = trim_space cfg.strategy in
    if str_eq strategy "" || str_eq strategy "legacy_tplink_multi"
    then legacy
    else if str_eq strategy "pair_block_mod2"
    then wifi_ssid_pair_block_mod2_band ssid_idx
    else if str_eq strategy "explicit"
    then elim (explicit_band ssid_idx cfg.explicit_ssid_band) [ none ↦ legacy | some band ↦ band ]
    else legacy
