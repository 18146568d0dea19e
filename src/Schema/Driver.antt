-- ===== src/Schema/Driver.antt =====
-- internal/schema/driver.go: device drivers and their registry. A nil map is the empty one.
-- Reading the YAML files is not modelled; a registry is what `LoadDir` has built.
pub mod Resolving
pub mod Tests
use Prim.Native.String
use helix_acs.Prelude.{
  ℕ, Char, code, String, Bool, true, false, not, ◌&&◌, ◌||◌, List, [], ◌∷◌, Option, none, some, leb,
  ◌==◌, if◌then◌else◌, str_eq, is_empty, is_some, length, all,
}
use helix_acs.Text.{◌+++◌, trim_space}
use helix_acs.Dict.{Dict, find, put, copy_into, flag_of}
use helix_acs.Schema.Flow.{ProvisionFlow}
use helix_acs.Schema.Vendor.{normalise_vendor}

pub record WiFiDriver : Type 0 where
  pub band_steering_path : String
  pub multi_ssid_suffix_24g : String
  pub multi_ssid_suffix_5g : String
  pub multi_ssid_suffix_6g : String
  pub sync_bands_on_steering : Bool

pub record WanTypes : Type 0 where
  pub wan : List String
  pub lan : List String
  pub bridge : List String

pub record SsidBands : Type 0 where
  pub strategy : String
  pub explicit : Dict (List ℕ)

pub record Discovery : Type 0 where
  pub wan_type_path : String
  pub wan_type_values : WanTypes
  pub gpon_enable_path : String
  pub wan_uptime_path : String
  pub wan_service_type_path : String
  pub wan_vlan_path : String
  pub host_conn_type_path : String
  pub host_conn_type_values : Dict String
  pub wifi_ssid_band_without_lower_layers : Option SsidBands
  pub system_cpu_path : String
  pub system_mem_pct_path : String
  pub extra_summon_paths : List String

pub record DeviceDriver : Type 0 where
  pub id : String
  pub vendor : String
  pub model : String
  pub device_model : String
  pub description : String
  pub features : Dict Bool
  pub config : Dict String
  pub security_modes : Dict String
  pub default_params : Dict String
  pub wifi : WiFiDriver
  pub discovery : Discovery
  pub provisions : Dict ProvisionFlow

-- A nil receiver is `none`.
unfoldable pub has_feature : Option DeviceDriver → String → Bool
unfolding flag_of
has_feature none name = false
has_feature (some d) name = flag_of name d.features

abbrev non_empty : Option String → Option String
non_empty none = none
non_empty (some v) = if str_eq v "" then none else some v

abbrev or_value : Option String → String → String
or_value none fallback = fallback
or_value (some v) fallback = v

unfoldable pub config_value : Option DeviceDriver → String → String → String
unfolding find
config_value none key fallback = fallback
config_value (some d) key fallback = or_value (non_empty (find key d.config)) fallback

unfoldable pub map_security_mode : Option DeviceDriver → String → String
unfolding find
map_security_mode none ui_mode = ui_mode
map_security_mode (some d) ui_mode = or_value (find ui_mode d.security_modes) ui_mode

unfoldable pub get_provision_flow : Option DeviceDriver → String → Option ProvisionFlow
unfolding find
get_provision_flow none name = none
get_provision_flow (some d) name = find name d.provisions

unfoldable pub is_safe_char : Char → Bool
is_safe_char c =
    let r = code c in
    (leb b'a' r && leb r b'z')
    || (leb b'A' r && leb r b'Z')
    || (leb b'0' r && leb r b'9')
    || r == b'-'
    || r == b'_'
    || r == b'.'

keep_safe : String → String
keep_safe String.[] = ""
keep_safe (String.◌∷◌ c s) =
    let rest = keep_safe s in if is_safe_char c then String.◌∷◌ c rest else rest

unfoldable pub normalise_model : String → String
unfolding is_safe_char keep_safe
normalise_model product_class = keep_safe (trim_space product_class)

-- The vendor's entries first, then the model's over them.
unfoldable pub merged_default_params : Option DeviceDriver → Option DeviceDriver → Dict String
unfolding copy_into
merged_default_params none none = []
merged_default_params none (some model) = model.default_params
merged_default_params (some vendor) none = vendor.default_params
merged_default_params (some vendor) (some model) =
    if is_empty vendor.default_params
    then model.default_params
    else if is_empty model.default_params
    then vendor.default_params
    else copy_into model.default_params (copy_into vendor.default_params [])

abbrev is_value : Option String → String → Bool
is_value none v = false
is_value (some w) v = str_eq w v

-- maps.Equal
unfoldable pub same_map : Dict String → Dict String → Bool
unfolding find
same_map a b = length a == length b && all (λ e. is_value (find e.0 b) e.1) a

unfoldable pub driver_name : String → String → String
driver_name vendor_slug data_model = "vendor/" +++ (vendor_slug +++ ("/" +++ data_model))

unfoldable pub model_driver_name : String → String → String → String
model_driver_name vendor_slug model_slug data_model =
    "vendor/" +++ (vendor_slug +++ ("/" +++ (model_slug +++ ("/" +++ data_model))))

pub record DriverRegistry : Type 0 where
  pub drivers : Dict DeviceDriver

-- `Resolve` behind the two slugs.
unfoldable pub resolve_slugs : DriverRegistry → String → String → String → Option DeviceDriver
unfolding merged_default_params same_map
resolve_slugs r vendor_slug model_slug data_model =
    let vendor_drv =
      if str_eq vendor_slug "" then none else find (driver_name vendor_slug data_model) r.drivers in
    let chosen =
      if not (str_eq vendor_slug "") && not (str_eq model_slug "")
      then find (model_driver_name vendor_slug model_slug data_model) r.drivers
      else none in
    elim chosen [
      | none ↦ vendor_drv
      | some c ↦
          let effective = merged_default_params vendor_drv (some c) in
          if same_map effective c.default_params
          then some c
          else some (record c { default_params = effective })
    ]

-- `Resolve`. The outer `none` is the panic of `normalise_vendor`, the inner one the nil driver.
unfoldable pub resolve :
    List String → DriverRegistry → String → String → String → Option (Option DeviceDriver)
unfolding resolve_slugs normalise_model
resolve order r vendor model data_model = elim (normalise_vendor order vendor) [
  | none ↦ none
  | some slug ↦ some (resolve_slugs r slug (normalise_model model) data_model)
]
