-- ===== src/Datamodel/Roots.antt =====
-- Where the paths of a mapper lie.
pub mod Device
pub mod Gateway
use helix_acs.Prelude.{ℕ, String, ◌≡◌, ◌⊎◌, true}
use helix_acs.Text.{has_prefix}
use helix_acs.Datamodel.Model.{WifiPaths, WanPaths, LanPaths, SystemPaths, ServicePaths, Mapper}

-- The path is missing, or it begins with the root.
abbrev pub IsUnder : String → String → Type 0
IsUnder root path = (path ≡ "") ⊎ (has_prefix path root ≡ true)

-- The wifi paths.
pub record AreWifiPaths (P : String → Type 0) (p : WifiPaths) : Type 0 where
  pub ssid : (band : ℕ) → P (p.ssid band)
  pub password : (band : ℕ) → P (p.password band)
  pub enabled : (band : ℕ) → P (p.enabled band)
  pub channel : (band : ℕ) → P (p.channel band)
  pub bssid : (band : ℕ) → P (p.bssid band)
  pub standard : (band : ℕ) → P (p.standard band)
  pub security_mode : (band : ℕ) → P (p.security_mode band)
  pub channel_width : (band : ℕ) → P (p.channel_width band)
  pub tx_power : (band : ℕ) → P (p.tx_power band)
  pub client_count : (band : ℕ) → P (p.client_count band)
  pub bytes_sent : (band : ℕ) → P (p.bytes_sent band)
  pub bytes_received : (band : ℕ) → P (p.bytes_received band)
  pub packets_sent : (band : ℕ) → P (p.packets_sent band)
  pub packets_received : (band : ℕ) → P (p.packets_received band)
  pub errors_sent : (band : ℕ) → P (p.errors_sent band)
  pub errors_received : (band : ℕ) → P (p.errors_received band)

-- The wan paths.
pub record AreWanPaths (P : String → Type 0) (p : WanPaths) : Type 0 where
  pub connection_type : P (p.connection_type)
  pub pppoe_user : P (p.pppoe_user)
  pub pppoe_pass : P (p.pppoe_pass)
  pub ip_address : P (p.ip_address)
  pub gateway : P (p.gateway)
  pub dns1 : P (p.dns1)
  pub dns2 : P (p.dns2)
  pub mtu : P (p.mtu)
  pub uptime : P (p.uptime)
  pub mac : P (p.mac)
  pub status : P (p.status)
  pub bytes_sent : P (p.bytes_sent)
  pub bytes_received : P (p.bytes_received)
  pub packets_sent : P (p.packets_sent)
  pub packets_received : P (p.packets_received)
  pub errors_sent : P (p.errors_sent)
  pub errors_received : P (p.errors_received)

-- The lan paths.
pub record AreLanPaths (P : String → Type 0) (p : LanPaths) : Type 0 where
  pub ip_address : P (p.ip_address)
  pub subnet_mask : P (p.subnet_mask)
  pub dhcp_server_enable : P (p.dhcp_server_enable)
  pub dhcp_min_address : P (p.dhcp_min_address)
  pub dhcp_max_address : P (p.dhcp_max_address)
  pub dns : P (p.dns)

-- The system paths.
pub record AreSystemPaths (P : String → Type 0) (p : SystemPaths) : Type 0 where
  pub cpe_uptime : P (p.cpe_uptime)
  pub ram_total : P (p.ram_total)
  pub ram_free : P (p.ram_free)
  pub mgmt_url : P (p.mgmt_url)
  pub mgmt_user : P (p.mgmt_user)
  pub mgmt_pass : P (p.mgmt_pass)
  pub mgmt_interval : P (p.mgmt_interval)
  pub hosts_base : P (p.hosts_base)
  pub hosts_count : P (p.hosts_count)

-- The service paths.
pub record AreServicePaths (P : String → Type 0) (p : ServicePaths) : Type 0 where
  pub ping_base : P (p.ping_base)
  pub traceroute_base : P (p.traceroute_base)
  pub download_base : P (p.download_base)
  pub upload_base : P (p.upload_base)
  pub port_mapping_base : P (p.port_mapping_base)
  pub port_mapping_count : P (p.port_mapping_count)
  pub web_admin_password : P (p.web_admin_password)
  pub wan_service_type : P (p.wan_service_type)
  pub band_steering : P (p.band_steering)

-- All paths of a mapper.
pub record ArePaths (P : String → Type 0) (m : Mapper) : Type 0 where
  pub wifi : AreWifiPaths P m.wifi
  pub wan : AreWanPaths P m.wan
  pub lan : AreLanPaths P m.lan
  pub system : AreSystemPaths P m.system
  pub service : AreServicePaths P m.service
