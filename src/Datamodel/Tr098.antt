-- ===== src/Datamodel/Tr098.antt =====
-- internal/datamodel/tr098.go: the paths below `InternetGatewayDevice.`.
use helix_acs.Prelude.{ℕ, ◌+◌, String, false, List, if◌then◌else◌, any}
use helix_acs.Text.{◌+++◌, itoa, has_prefix}
use helix_acs.Dict.{Dict, value_of}
use helix_acs.Datamodel.Model.{
  ModelType, tr098, UnifiedDevice, WifiPaths, WanPaths, LanPaths, SystemPaths, ServicePaths, Mapper,
  index_or, band_index_or,
}

pub record Tr098Mapper : Type 0 where
  pub wan_device_idx : ℕ
  pub wan_conn_dev_idx : ℕ
  pub wan_ip_conn_idx : ℕ
  pub wan_ppp_conn_idx : ℕ
  pub lan_device_idx : ℕ
  pub wlan_indices : List ℕ

unfoldable pub wan_dev : Tr098Mapper → ℕ
unfolding index_or
wan_dev m = index_or m.wan_device_idx 1

unfoldable pub wan_conn : Tr098Mapper → ℕ
unfolding index_or
wan_conn m = index_or m.wan_conn_dev_idx 1

unfoldable pub wan_ip_conn : Tr098Mapper → ℕ
unfolding index_or
wan_ip_conn m = index_or m.wan_ip_conn_idx 1

unfoldable pub wan_ppp_conn : Tr098Mapper → ℕ
unfolding index_or
wan_ppp_conn m = index_or m.wan_ppp_conn_idx 1

unfoldable pub lan_dev : Tr098Mapper → ℕ
unfolding index_or
lan_dev m = index_or m.lan_device_idx 1

unfoldable pub wlan_idx : Tr098Mapper → ℕ → ℕ
unfolding band_index_or
wlan_idx m band = band_index_or m.wlan_indices band (band + 1)

unfoldable pub wan_base : Tr098Mapper → String
wan_base m =
    "InternetGatewayDevice.WANDevice."
    +++ (itoa (wan_dev m) +++ (".WANConnectionDevice." +++ itoa (wan_conn m)))

unfoldable pub wlan_base : Tr098Mapper → ℕ → String
wlan_base m band =
    "InternetGatewayDevice.LANDevice."
    +++ (itoa (lan_dev m) +++ (".WLANConfiguration." +++ itoa (wlan_idx m band)))

-- Both branches of the source's loop give TR-098.
unfoldable pub tr098_detect_model : Dict String → ModelType
unfolding has_prefix
tr098_detect_model params =
    if any (λ e. has_prefix e.0 "InternetGatewayDevice.") params then tr098 else tr098

unfoldable pub tr098_device_info : Tr098Mapper → Dict String → UnifiedDevice
unfolding value_of
tr098_device_info m params =
    let wan_ip_base = wan_base m +++ (".WANIPConnection." +++ itoa (wan_ip_conn m)) in
    let lan_base =
      "InternetGatewayDevice.LANDevice."
      +++ (itoa (lan_dev m) +++ ".LANHostConfigManagement.IPInterface.1") in
    record {
      manufacturer = value_of "InternetGatewayDevice.DeviceInfo.Manufacturer" params;
      model_name = value_of "InternetGatewayDevice.DeviceInfo.ModelName" params;
      serial = value_of "InternetGatewayDevice.DeviceInfo.SerialNumber" params;
      oui = value_of "InternetGatewayDevice.DeviceInfo.ManufacturerOUI" params;
      product_class = value_of "InternetGatewayDevice.DeviceInfo.ProductClass" params;
      sw_version = value_of "InternetGatewayDevice.DeviceInfo.SoftwareVersion" params;
      hw_version = value_of "InternetGatewayDevice.DeviceInfo.HardwareVersion" params;
      wan_ip = value_of (wan_ip_base +++ ".ExternalIPAddress") params;
      lan_ip = value_of (lan_base +++ ".IPInterfaceIPAddress") params;
    }

unfoldable pub tr098_wifi : Tr098Mapper → WifiPaths
tr098_wifi m = record {
  ssid = λ band. wlan_base m band +++ ".SSID";
  password = λ band. wlan_base m band +++ ".PreSharedKey.1.KeyPassphrase";
  enabled = λ band. wlan_base m band +++ ".Enable";
  channel = λ band. wlan_base m band +++ ".Channel";
  bssid = λ band. wlan_base m band +++ ".BSSID";
  standard = λ band. wlan_base m band +++ ".Standard";
  security_mode = λ band. wlan_base m band +++ ".BeaconType";
  channel_width = λ band. wlan_base m band +++ ".OperatingChannelBandwidth";
  tx_power = λ band. wlan_base m band +++ ".TransmitPower";
  client_count = λ band. wlan_base m band +++ ".TotalAssociations";
  bytes_sent = λ band. wlan_base m band +++ ".Stats.BytesSent";
  bytes_received = λ band. wlan_base m band +++ ".Stats.BytesReceived";
  packets_sent = λ band. wlan_base m band +++ ".Stats.PacketsSent";
  packets_received = λ band. wlan_base m band +++ ".Stats.PacketsReceived";
  errors_sent = λ band. wlan_base m band +++ ".Stats.ErrorsSent";
  errors_received = λ band. wlan_base m band +++ ".Stats.ErrorsReceived";
}

unfoldable pub tr098_wan : Tr098Mapper → WanPaths
tr098_wan m = record {
  connection_type =
      wan_base m +++ (".WANIPConnection." +++ (itoa (wan_ip_conn m) +++ ".ConnectionType"));
  pppoe_user = wan_base m +++ (".WANPPPConnection." +++ (itoa (wan_ppp_conn m) +++ ".Username"));
  pppoe_pass = wan_base m +++ (".WANPPPConnection." +++ (itoa (wan_ppp_conn m) +++ ".Password"));
  ip_address =
      wan_base m +++ (".WANIPConnection." +++ (itoa (wan_ip_conn m) +++ ".ExternalIPAddress"));
  gateway = wan_base m +++ (".WANIPConnection." +++ (itoa (wan_ip_conn m) +++ ".DefaultGateway"));
  dns1 = wan_base m +++ (".WANIPConnection." +++ (itoa (wan_ip_conn m) +++ ".DNSServers"));
  dns2 = wan_base m +++ (".WANIPConnection." +++ (itoa (wan_ip_conn m) +++ ".DNSServers"));
  mtu = wan_base m +++ (".WANIPConnection." +++ (itoa (wan_ip_conn m) +++ ".MaxMTUSize"));
  uptime = wan_base m +++ (".WANIPConnection." +++ (itoa (wan_ip_conn m) +++ ".Uptime"));
  mac =
      "InternetGatewayDevice.WANDevice."
      +++ (itoa (wan_dev m) +++ ".WANEthernetInterfaceConfig.MACAddress");
  status =
      wan_base m +++ (".WANPPPConnection." +++ (itoa (wan_ppp_conn m) +++ ".ConnectionStatus"));
  bytes_sent =
      "InternetGatewayDevice.WANDevice."
      +++ (itoa (wan_dev m) +++ ".WANCommonInterfaceConfig.TotalBytesSent");
  bytes_received =
      "InternetGatewayDevice.WANDevice."
      +++ (itoa (wan_dev m) +++ ".WANCommonInterfaceConfig.TotalBytesReceived");
  packets_sent =
      "InternetGatewayDevice.WANDevice."
      +++ (itoa (wan_dev m) +++ ".WANCommonInterfaceConfig.TotalPacketsSent");
  packets_received =
      "InternetGatewayDevice.WANDevice."
      +++ (itoa (wan_dev m) +++ ".WANCommonInterfaceConfig.TotalPacketsReceived");
  errors_sent = "";
  errors_received = "";
}

unfoldable pub tr098_lan : Tr098Mapper → LanPaths
tr098_lan m = record {
  ip_address =
      "InternetGatewayDevice.LANDevice."
      +++ (itoa (lan_dev m) +++ ".LANHostConfigManagement.IPInterface.1.IPInterfaceIPAddress");
  subnet_mask =
      "InternetGatewayDevice.LANDevice."
      +++ (itoa (lan_dev m) +++ ".LANHostConfigManagement.IPInterface.1.IPInterfaceSubnetMask");
  dhcp_server_enable =
      "InternetGatewayDevice.LANDevice."
      +++ (itoa (lan_dev m) +++ ".LANHostConfigManagement.DHCPServerEnable");
  dhcp_min_address =
      "InternetGatewayDevice.LANDevice."
      +++ (itoa (lan_dev m) +++ ".LANHostConfigManagement.MinAddress");
  dhcp_max_address =
      "InternetGatewayDevice.LANDevice."
      +++ (itoa (lan_dev m) +++ ".LANHostConfigManagement.MaxAddress");
  dns =
      "InternetGatewayDevice.LANDevice."
      +++ (itoa (lan_dev m) +++ ".LANHostConfigManagement.DNSServers");
}

unfoldable pub tr098_system : Tr098Mapper → SystemPaths
tr098_system m = record {
  cpe_uptime = "InternetGatewayDevice.DeviceInfo.UpTime";
  ram_total = "InternetGatewayDevice.DeviceInfo.MemoryStatus.Total";
  ram_free = "InternetGatewayDevice.DeviceInfo.MemoryStatus.Free";
  mgmt_url = "InternetGatewayDevice.ManagementServer.URL";
  mgmt_user = "InternetGatewayDevice.ManagementServer.Username";
  mgmt_pass = "InternetGatewayDevice.ManagementServer.Password";
  mgmt_interval = "InternetGatewayDevice.ManagementServer.PeriodicInformInterval";
  hosts_base = "InternetGatewayDevice.LANDevice." +++ (itoa (lan_dev m) +++ ".Hosts.Host.");
  hosts_count =
      "InternetGatewayDevice.LANDevice." +++ (itoa (lan_dev m) +++ ".Hosts.HostNumberOfEntries");
}

unfoldable pub tr098_service : Tr098Mapper → ServicePaths
tr098_service m = record {
  ping_base = "InternetGatewayDevice.IPPingDiagnostics.";
  traceroute_base = "InternetGatewayDevice.TraceRouteDiagnostics.";
  download_base = "InternetGatewayDevice.DownloadDiagnostics.";
  upload_base = "InternetGatewayDevice.UploadDiagnostics.";
  port_mapping_base =
      wan_base m +++ (".WANIPConnection." +++ (itoa (wan_ip_conn m) +++ ".PortMapping."));
  port_mapping_count =
      wan_base m
      +++ (".WANIPConnection." +++ (itoa (wan_ip_conn m) +++ ".PortMappingNumberOfEntries"));
  web_admin_password = "";
  wan_service_type = "";
  band_steering = "";
}

unfoldable pub tr098_mapper : Tr098Mapper → Mapper
tr098_mapper m = record {
  detect_model = tr098_detect_model;
  extract_device_info = tr098_device_info m;
  wifi = tr098_wifi m;
  wan = tr098_wan m;
  lan = tr098_lan m;
  system = tr098_system m;
  service = tr098_service m;
  wan_provisioning_type = "set_params";
  supports_wifi_access_point = false;
}
