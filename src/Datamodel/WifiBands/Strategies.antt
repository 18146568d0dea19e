-- ===== src/Datamodel/WifiBands/Strategies.antt =====
-- Where the strategies for the bands agree.
use helix_acs.Prelude.{ℕ, ◌%◌, ◌≤◌, ◌≡◌, ◌↔◌, ◌⊎◌, none, some, arith}
use helix_acs.Text.{trim_space}
use helix_acs.Datamodel.WifiBands.{
  WifiSsidBandWithoutLowerLayersHints, wifi_ssid_pair_block_mod2_band,
  tplink_legacy_multi_radio_no_lower_layers_band, wifi_ssid_band_for_index,
}

bands_iff :
    (i : ℕ)
    → 1 ≤ i
    → (wifi_ssid_pair_block_mod2_band i ≡ tplink_legacy_multi_radio_no_lower_layers_band i)
      ↔ (i ≤ 8 ⊎ i % 4 ≡ 0 ⊎ i % 4 ≡ 1)
unfolding wifi_ssid_pair_block_mod2_band tplink_legacy_multi_radio_no_lower_layers_band
bands_iff i h = ground arith

-- From one on, the pair strategy gives the same band as having no hints exactly for the numbers up to eight
-- and for those that are a multiple of four or one more.
pub wifi_ssid_band_for_index-pairs_iff :
    (cfg : WifiSsidBandWithoutLowerLayersHints) (i : ℕ)
    → trim_space cfg.strategy ≡ "pair_block_mod2"
    → 1 ≤ i
    → (wifi_ssid_band_for_index i (some cfg) ≡ wifi_ssid_band_for_index i none)
      ↔ (i ≤ 8 ⊎ i % 4 ≡ 0 ⊎ i % 4 ≡ 1)
unfolding wifi_ssid_band_for_index
wifi_ssid_band_for_index-pairs_iff cfg i h from_one = rw h (bands_iff i from_one)
