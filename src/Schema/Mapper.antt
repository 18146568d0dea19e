-- ===== src/Schema/Mapper.antt =====
-- internal/schema/mapper.go: parameter paths from schema templates, with the discovered indices.
pub mod Overriding
pub mod Substitution
mod Tests
use helix_acs.Prelude.{
  ℕ, String, Bool, true, false, List, [], ◌∷◌, Option, none, some, ltb, not, ◌&&◌, if◌then◌else◌,
  str_eq, any,
}
use helix_acs.Text.{◌+++◌, itoa, has_prefix, contains, split}
use helix_acs.Text.Replace.{replacer}
use helix_acs.Dict.{Dict, find, value_of, copy_into}
use helix_acs.Datamodel.Model.{
  ModelType, tr181, tr098, InstanceMap, WifiPaths, WanPaths, LanPaths, SystemPaths, ServicePaths,
  Mapper, UnifiedDevice, index_or, band_index_or,
}
use helix_acs.Datamodel.Apply.{new_mapper, as_mapper}
use helix_acs.Schema.Registry.{Registry, has, param_map}

pub record SchemaMapper : Type 0 where
  pub params : Dict String
  pub instance_map : InstanceMap
  pub model_type : ModelType

abbrev last_part : List String → String
last_part [] = ""
last_part (p ∷ []) = p
last_part (p ∷ q ∷ ps) = last_part (q ∷ ps)

unfoldable pub base_model_name : String → String
unfolding split
base_model_name schema_name = last_part (split b'/' schema_name)

-- The generic parameters, and the vendor's over them.
unfoldable pub merged_params : Registry → String → Dict String
unfolding param_map copy_into base_model_name
merged_params reg schema_name =
    let generic = copy_into (param_map reg (base_model_name schema_name)) [] in
    if str_eq schema_name (base_model_name schema_name)
    then generic
    else copy_into (param_map reg schema_name) generic

-- `none` is the nil mapper.
unfoldable pub new_schema_mapper : Registry → String → InstanceMap → Option SchemaMapper
unfolding has merged_params contains
new_schema_mapper reg schema_name im =
    let base_model = base_model_name schema_name in
    if not (has reg base_model) && not (has reg schema_name)
    then none
    else some (record {
      params = merged_params reg schema_name;
      instance_map = im;
      model_type = if contains base_model "tr098" then tr098 else tr181;
    })

unfoldable pub safe_idx : List ℕ → ℕ → ℕ → String
unfolding itoa band_index_or
safe_idx slice idx fallback = itoa (band_index_or slice idx fallback)

unfoldable pub safe_int : ℕ → ℕ → String
unfolding itoa index_or
safe_int v fallback = itoa (index_or v fallback)

unfoldable pub placeholders : InstanceMap → List (String × String)
unfolding safe_idx safe_int
placeholders im =
    ("{ssid_0}", safe_idx im.wifi_ssid_indices 0 1)
    ∷ ("{ssid_1}", safe_idx im.wifi_ssid_indices 1 2)
    ∷ ("{radio_0}", safe_idx im.wifi_radio_indices 0 1)
    ∷ ("{radio_1}", safe_idx im.wifi_radio_indices 1 2)
    ∷ ("{ap_0}", safe_idx im.wifi_ap_indices 0 1)
    ∷ ("{ap_1}", safe_idx im.wifi_ap_indices 1 2)
    ∷ ("{wan}", safe_int im.wan_ip_iface_idx 1)
    ∷ ("{lan}", safe_int im.lan_ip_iface_idx 2)
    ∷ ("{ppp}", safe_int im.ppp_iface_idx 1)
    ∷ ("{wan_dev}", safe_int im.wan_device_idx 1)
    ∷ ("{wan_conn}", safe_int im.wan_conn_dev_idx 1)
    ∷ ("{wan_ip_conn}", safe_int im.wan_ip_conn_idx 1)
    ∷ ("{wan_ppp_conn}", safe_int im.wan_ppp_conn_idx 1)
    ∷ ("{lan_dev}", safe_int im.lan_device_idx 1)
    ∷ ("{wlan_0}", safe_idx im.wlan_indices 0 1)
    ∷ ("{wlan_1}", safe_idx im.wlan_indices 1 2)
    ∷ []

unfoldable pub substitute : SchemaMapper → String → String
unfolding replacer placeholders
substitute m tpl = replacer (placeholders m.instance_map) tpl

unfoldable pub resolve_path : SchemaMapper → String → String
unfolding find substitute
resolve_path m name = elim (find name m.params) [
  | none ↦ ""
  | some tpl ↦ if str_eq tpl "" then "" else substitute m tpl
]

unfoldable pub schema_detect_model : Dict String → ModelType
unfolding has_prefix
schema_detect_model params = if any (λ e. has_prefix e.0 "Device.") params then tr181 else tr098

-- Read by the standard mapper of the model type.
unfoldable pub schema_device_info : SchemaMapper → Dict String → UnifiedDevice
unfolding new_mapper as_mapper
schema_device_info m params = (as_mapper (new_mapper m.model_type)).extract_device_info params

unfoldable pub schema_wifi : SchemaMapper → WifiPaths
schema_wifi m = record {
  ssid = λ band. resolve_path m ("wifi.ssid." +++ itoa band);
  password = λ band. resolve_path m ("wifi.password." +++ itoa band);
  enabled = λ band. resolve_path m ("wifi.enabled." +++ itoa band);
  channel = λ band. resolve_path m ("wifi.channel." +++ itoa band);
  bssid = λ band. resolve_path m ("wifi.bssid." +++ itoa band);
  standard = λ band. resolve_path m ("wifi.standard." +++ itoa band);
  security_mode = λ band. resolve_path m ("wifi.security_mode." +++ itoa band);
  channel_width = λ band. resolve_path m ("wifi.channel_width." +++ itoa band);
  tx_power = λ band. resolve_path m ("wifi.tx_power." +++ itoa band);
  client_count = λ band. resolve_path m ("wifi.client_count." +++ itoa band);
  bytes_sent = λ band. resolve_path m ("wifi.stats.bytes_sent." +++ itoa band);
  bytes_received = λ band. resolve_path m ("wifi.stats.bytes_received." +++ itoa band);
  packets_sent = λ band. resolve_path m ("wifi.stats.packets_sent." +++ itoa band);
  packets_received = λ band. resolve_path m ("wifi.stats.packets_received." +++ itoa band);
  errors_sent = λ band. resolve_path m ("wifi.stats.errors_sent." +++ itoa band);
  errors_received = λ band. resolve_path m ("wifi.stats.errors_received." +++ itoa band);
}

unfoldable pub schema_wan : SchemaMapper → WanPaths
schema_wan m = record {
  connection_type = resolve_path m "wan.connection_type";
  pppoe_user = resolve_path m "wan.pppoe_user";
  pppoe_pass = resolve_path m "wan.pppoe_pass";
  ip_address = resolve_path m "wan.ip_address";
  gateway = resolve_path m "wan.gateway";
  dns1 = resolve_path m "wan.dns1";
  dns2 = resolve_path m "wan.dns2";
  mtu = resolve_path m "wan.mtu";
  uptime = resolve_path m "wan.uptime";
  mac = resolve_path m "wan.mac";
  status = resolve_path m "wan.status";
  bytes_sent = resolve_path m "wan.stats.bytes_sent";
  bytes_received = resolve_path m "wan.stats.bytes_received";
  packets_sent = resolve_path m "wan.stats.packets_sent";
  packets_received = resolve_path m "wan.stats.packets_received";
  errors_sent = resolve_path m "wan.stats.errors_sent";
  errors_received = resolve_path m "wan.stats.errors_received";
}

unfoldable pub schema_lan : SchemaMapper → LanPaths
schema_lan m = record {
  ip_address = resolve_path m "lan.ip_address";
  subnet_mask = resolve_path m "lan.subnet_mask";
  dhcp_server_enable = resolve_path m "dhcp.server_enable";
  dhcp_min_address = resolve_path m "dhcp.min_address";
  dhcp_max_address = resolve_path m "dhcp.max_address";
  dns = resolve_path m "lan.dns";
}

unfoldable pub schema_system : SchemaMapper → SystemPaths
schema_system m = record {
  cpe_uptime = resolve_path m "system.uptime";
  ram_total = resolve_path m "system.ram_total";
  ram_free = resolve_path m "system.ram_free";
  mgmt_url = resolve_path m "mgmt.url";
  mgmt_user = resolve_path m "mgmt.user";
  mgmt_pass = resolve_path m "mgmt.pass";
  mgmt_interval = resolve_path m "mgmt.interval";
  hosts_base = resolve_path m "hosts.base";
  hosts_count = resolve_path m "hosts.count";
}

unfoldable pub schema_service : SchemaMapper → ServicePaths
schema_service m = record {
  ping_base = resolve_path m "diag.ping.base";
  traceroute_base = resolve_path m "diag.traceroute.base";
  download_base = resolve_path m "diag.download.base";
  upload_base = resolve_path m "diag.upload.base";
  port_mapping_base = resolve_path m "portmapping.base";
  port_mapping_count = resolve_path m "portmapping.count";
  web_admin_password = resolve_path m "admin.password";
  wan_service_type = resolve_path m "wan.service_type";
  band_steering = resolve_path m "wifi.band_steering";
}

unfoldable pub schema_provisioning_type : SchemaMapper → String
unfolding value_of
schema_provisioning_type m =
    let v = value_of "wan.provisioning_type" m.params in if str_eq v "" then "set_params" else v

abbrev is_tr181 : ModelType → Bool
is_tr181 tr181 = true
is_tr181 tr098 = false

unfoldable pub schema_mapper : SchemaMapper → Mapper
schema_mapper m = record {
  detect_model = schema_detect_model;
  extract_device_info = schema_device_info m;
  wifi = schema_wifi m;
  wan = schema_wan m;
  lan = schema_lan m;
  system = schema_system m;
  service = schema_service m;
  wan_provisioning_type = schema_provisioning_type m;
  supports_wifi_access_point = is_tr181 m.model_type;
}

unfoldable pub clone : SchemaMapper → InstanceMap → SchemaMapper
clone m im = record { params = m.params; instance_map = im; model_type = m.model_type }
