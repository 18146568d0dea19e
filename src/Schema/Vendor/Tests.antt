-- ===== src/Schema/Vendor/Tests.antt =====
-- Runs of `normaliseVendor`, and its theorems at concrete inputs.
use helix_acs.Prelude.{
  ◌≡◌, ◌↔◌, refl, String, List, some, none, map, true, arith, All, false, eq_iff, ◌≢◌,
}
use helix_acs.Text.{to_lower, trim_space, has_prefix}
use helix_acs.Dict.{value_of}
use helix_acs.Schema.Vendor.{known_vendors, normalise_vendor}
use helix_acs.Schema.Vendor.Longest.{member, IsBest, normalise_vendor_longest}
use helix_acs.Schema.Vendor.Panics.{AreSeparators, normalise_vendor-none_iff}

abbrev keys : List String
keys = map (λ e. e.0) known_vendors

vendors :
    (normalise_vendor keys " Huawei Technologies Co., Ltd." ≡ some "huawei")
    × (normalise_vendor keys "ZTEG" ≡ some "cdata")
    × (normalise_vendor keys "ZTE Corporation" ≡ some "zte")
    × (normalise_vendor keys "Acme, Inc." ≡ some "acme")
    × (normalise_vendor keys "" ≡ some "")
    × (normalise_vendor keys " ., " ≡ none)
unfolding normalise_vendor trim_space to_lower value_of
vendors = (refl, refl, refl, refl, refl, refl)

normalise_vendor_longest_example :
    (p : String) × IsBest (to_lower (trim_space "ZTEG")) keys p
    × (member p keys ≡ true)
    × (normalise_vendor keys "ZTEG" ≡ some (value_of p known_vendors))
unfolding member to_lower trim_space has_prefix
normalise_vendor_longest_example =
    normalise_vendor_longest keys "ZTEG" "zteg" (ground (arith, eq_iff "zteg" "")) refl refl

normalise_vendor-none_iff_example : (normalise_vendor keys "," ≡ none) ↔ (
    (to_lower (trim_space ",") ≢ "")
    × All (λ q. has_prefix (to_lower (trim_space ",")) q ≡ false) keys
    × AreSeparators (to_lower (trim_space ",")))
normalise_vendor-none_iff_example = normalise_vendor-none_iff keys ","
