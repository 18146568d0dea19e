-- ===== src/Datamodel/Model.antt =====
-- The types of internal/datamodel/model.go and instances.go. Instance indices are never negative:
-- they are read from digits, and 0 stands for "not discovered".
use helix_acs.Prelude.{
  ℕ, String, Bool, List, Option, none, some, ltb, if◌then◌else◌, get_elem?, str_eq, ◌||◌,
}
use helix_acs.Dict.{Dict}

pub data ModelType : Type 0 where
  tr181 tr098 : ModelType

pub record UnifiedDevice : Type 0 where
  pub manufacturer : String
  pub model_name : String
  pub serial : String
  pub oui : String
  pub product_class : String
  pub sw_version : String
  pub hw_version : String
  pub wan_ip : String
  pub lan_ip : String

pub record InstanceMap : Type 0 where
  pub wan_ip_iface_idx : ℕ
  pub lan_ip_iface_idx : ℕ
  pub ppp_iface_idx : ℕ
  pub wan_vlan_term_idx : ℕ
  pub wan_eth_link_idx : ℕ
  pub wan_current_vlan : ℕ
  pub free_gpon_link_idx : ℕ
  pub wifi_ssid_indices : List ℕ
  pub wifi_radio_indices : List ℕ
  pub wifi_ap_indices : List ℕ
  pub wan_device_idx : ℕ
  pub wan_conn_dev_idx : ℕ
  pub wan_ip_conn_idx : ℕ
  pub wan_ppp_conn_idx : ℕ
  pub lan_device_idx : ℕ
  pub wlan_indices : List ℕ

pub record WifiPaths : Type 0 where
  pub ssid : ℕ → String
  pub password : ℕ → String
  pub enabled : ℕ → String
  pub channel : ℕ → String
  pub bssid : ℕ → String
  pub standard : ℕ → String
  pub security_mode : ℕ → String
  pub channel_width : ℕ → String
  pub tx_power : ℕ → String
  pub client_count : ℕ → String
  pub bytes_sent : ℕ → String
  pub bytes_received : ℕ → String
  pub packets_sent : ℕ → String
  pub packets_received : ℕ → String
  pub errors_sent : ℕ → String
  pub errors_received : ℕ → String

pub record WanPaths : Type 0 where
  pub connection_type : String
  pub pppoe_user : String
  pub pppoe_pass : String
  pub ip_address : String
  pub gateway : String
  pub dns1 : String
  pub dns2 : String
  pub mtu : String
  pub uptime : String
  pub mac : String
  pub status : String
  pub bytes_sent : String
  pub bytes_received : String
  pub packets_sent : String
  pub packets_received : String
  pub errors_sent : String
  pub errors_received : String

pub record LanPaths : Type 0 where
  pub ip_address : String
  pub subnet_mask : String
  pub dhcp_server_enable : String
  pub dhcp_min_address : String
  pub dhcp_max_address : String
  pub dns : String

pub record SystemPaths : Type 0 where
  pub cpe_uptime : String
  pub ram_total : String
  pub ram_free : String
  pub mgmt_url : String
  pub mgmt_user : String
  pub mgmt_pass : String
  pub mgmt_interval : String
  pub hosts_base : String
  pub hosts_count : String

pub record ServicePaths : Type 0 where
  pub ping_base : String
  pub traceroute_base : String
  pub download_base : String
  pub upload_base : String
  pub port_mapping_base : String
  pub port_mapping_count : String
  pub web_admin_password : String
  pub wan_service_type : String
  pub band_steering : String

-- The `Mapper` interface: its path methods by subject, and the rest.
pub record Mapper : Type 0 where
  pub detect_model : Dict String → ModelType
  pub extract_device_info : Dict String → UnifiedDevice
  pub wifi : WifiPaths
  pub wan : WanPaths
  pub lan : LanPaths
  pub system : SystemPaths
  pub service : ServicePaths
  pub wan_provisioning_type : String
  pub supports_wifi_access_point : Bool

unfoldable pub detect_from_root_object : String → ModelType
detect_from_root_object root =
    if str_eq root "Device." || str_eq root "Device" then tr181 else tr098

abbrev pub positive_or : ℕ → Option ℕ → ℕ
positive_or fallback none = fallback
positive_or fallback (some i) = if ltb 0 i then i else fallback

-- An index if it is set, else its default.
unfoldable pub index_or : ℕ → ℕ → ℕ
index_or i fallback = if ltb 0 i then i else fallback

-- `slice[band]` if it is in range and set, else the default.
unfoldable pub band_index_or : List ℕ → ℕ → ℕ → ℕ
band_index_or indices band fallback = positive_or fallback (get_elem? indices band)
