-- ===== src/Datamodel/Tr181.antt =====
-- internal/datamodel/tr181.go: the paths below `Device.`.
use helix_acs.Prelude.{ℕ, ◌+◌, String, true, List, if◌then◌else◌, any}
use helix_acs.Text.{◌+++◌, itoa, has_prefix}
use helix_acs.Dict.{Dict, value_of}
use helix_acs.Datamodel.Model.{
  ModelType, tr181, tr098, UnifiedDevice, WifiPaths, WanPaths, LanPaths, SystemPaths, ServicePaths,
  Mapper, index_or, band_index_or,
}

pub record Tr181Mapper : Type 0 where
  pub wan_iface_idx : ℕ
  pub lan_iface_idx : ℕ
  pub ppp_iface_idx : ℕ
  pub ssid_indices : List ℕ
  pub radio_indices : List ℕ
  pub ap_indices : List ℕ

unfoldable pub wan_iface : Tr181Mapper → ℕ
unfolding index_or
wan_iface m = index_or m.wan_iface_idx 1

unfoldable pub lan_iface : Tr181Mapper → ℕ
unfolding index_or
lan_iface m = index_or m.lan_iface_idx 2

unfoldable pub ppp_iface : Tr181Mapper → ℕ
unfolding index_or
ppp_iface m = index_or m.ppp_iface_idx 1

unfoldable pub ssid_idx : Tr181Mapper → ℕ → ℕ
unfolding band_index_or
ssid_idx m band = band_index_or m.ssid_indices band (band + 1)

unfoldable pub radio_idx : Tr181Mapper → ℕ → ℕ
unfolding band_index_or
radio_idx m band = band_index_or m.radio_indices band (band + 1)

unfoldable pub ap_idx : Tr181Mapper → ℕ → ℕ
unfolding band_index_or
ap_idx m band = band_index_or m.ap_indices band (band + 1)

unfoldable pub tr181_detect_model : Dict String → ModelType
unfolding has_prefix
tr181_detect_model params = if any (λ e. has_prefix e.0 "Device.") params then tr181 else tr098

unfoldable pub tr181_device_info : Tr181Mapper → Dict String → UnifiedDevice
unfolding value_of
tr181_device_info m params = record {
  manufacturer = value_of "Device.DeviceInfo.Manufacturer" params;
  model_name = value_of "Device.DeviceInfo.ModelName" params;
  serial = value_of "Device.DeviceInfo.SerialNumber" params;
  oui = value_of "Device.DeviceInfo.ManufacturerOUI" params;
  product_class = value_of "Device.DeviceInfo.ProductClass" params;
  sw_version = value_of "Device.DeviceInfo.SoftwareVersion" params;
  hw_version = value_of "Device.DeviceInfo.HardwareVersion" params;
  wan_ip =
      value_of ("Device.IP.Interface." +++ (itoa (wan_iface m) +++ ".IPv4Address.1.IPAddress"))
        params;
  lan_ip =
      value_of ("Device.IP.Interface." +++ (itoa (lan_iface m) +++ ".IPv4Address.1.IPAddress"))
        params;
}

unfoldable pub tr181_wifi : Tr181Mapper → WifiPaths
tr181_wifi m = record {
  ssid = λ band. "Device.WiFi.SSID." +++ (itoa (ssid_idx m band) +++ ".SSID");
  password =
      λ band. "Device.WiFi.AccessPoint." +++ (itoa (ap_idx m band) +++ ".Security.KeyPassphrase");
  enabled = λ band. "Device.WiFi.SSID." +++ (itoa (ssid_idx m band) +++ ".Enable");
  channel = λ band. "Device.WiFi.Radio." +++ (itoa (radio_idx m band) +++ ".Channel");
  bssid = λ band. "Device.WiFi.SSID." +++ (itoa (ssid_idx m band) +++ ".BSSID");
  standard = λ band. "Device.WiFi.Radio." +++ (itoa (radio_idx m band) +++ ".OperatingStandards");
  security_mode =
      λ band. "Device.WiFi.AccessPoint." +++ (itoa (ap_idx m band) +++ ".Security.ModeEnabled");
  channel_width =
      λ band. "Device.WiFi.Radio." +++ (itoa (radio_idx m band) +++ ".OperatingChannelBandwidth");
  tx_power = λ band. "Device.WiFi.Radio." +++ (itoa (radio_idx m band) +++ ".TransmitPower");
  client_count = λ band.
      "Device.WiFi.AccessPoint." +++ (itoa (ap_idx m band) +++ ".AssociatedDeviceNumberOfEntries");
  bytes_sent = λ band. "Device.WiFi.SSID." +++ (itoa (ssid_idx m band) +++ ".Stats.BytesSent");
  bytes_received =
      λ band. "Device.WiFi.SSID." +++ (itoa (ssid_idx m band) +++ ".Stats.BytesReceived");
  packets_sent = λ band. "Device.WiFi.SSID." +++ (itoa (ssid_idx m band) +++ ".Stats.PacketsSent");
  packets_received =
      λ band. "Device.WiFi.SSID." +++ (itoa (ssid_idx m band) +++ ".Stats.PacketsReceived");
  errors_sent = λ band. "Device.WiFi.SSID." +++ (itoa (ssid_idx m band) +++ ".Stats.ErrorsSent");
  errors_received =
      λ band. "Device.WiFi.SSID." +++ (itoa (ssid_idx m band) +++ ".Stats.ErrorsReceived");
}

unfoldable pub tr181_wan : Tr181Mapper → WanPaths
tr181_wan m = record {
  connection_type = "Device.IP.Interface." +++ (itoa (wan_iface m) +++ ".X_TP_ConnType");
  pppoe_user = "Device.PPP.Interface." +++ (itoa (ppp_iface m) +++ ".Username");
  pppoe_pass = "Device.PPP.Interface." +++ (itoa (ppp_iface m) +++ ".Password");
  ip_address = "Device.IP.Interface." +++ (itoa (wan_iface m) +++ ".IPv4Address.1.IPAddress");
  gateway = "Device.Routing.Router.1.IPv4Forwarding.1.GatewayIPAddress";
  dns1 = "Device.DNS.Client.Server.1.DNSServer";
  dns2 = "Device.DNS.Client.Server.2.DNSServer";
  mtu = "Device.IP.Interface." +++ (itoa (wan_iface m) +++ ".MaxMTUSize");
  uptime = "Device.IP.Interface." +++ (itoa (wan_iface m) +++ ".LastChange");
  mac = "Device.Ethernet.Interface.1.MACAddress";
  status = "Device.IP.Interface." +++ (itoa (wan_iface m) +++ ".Status");
  bytes_sent = "Device.IP.Interface." +++ (itoa (wan_iface m) +++ ".Stats.BytesSent");
  bytes_received = "Device.IP.Interface." +++ (itoa (wan_iface m) +++ ".Stats.BytesReceived");
  packets_sent = "Device.IP.Interface." +++ (itoa (wan_iface m) +++ ".Stats.PacketsSent");
  packets_received = "Device.IP.Interface." +++ (itoa (wan_iface m) +++ ".Stats.PacketsReceived");
  errors_sent = "Device.IP.Interface." +++ (itoa (wan_iface m) +++ ".Stats.ErrorsSent");
  errors_received = "Device.IP.Interface." +++ (itoa (wan_iface m) +++ ".Stats.ErrorsReceived");
}

unfoldable pub tr181_lan : Tr181Mapper → LanPaths
tr181_lan m = record {
  ip_address = "Device.IP.Interface." +++ (itoa (lan_iface m) +++ ".IPv4Address.1.IPAddress");
  subnet_mask = "Device.IP.Interface." +++ (itoa (lan_iface m) +++ ".IPv4Address.1.SubnetMask");
  dhcp_server_enable = "Device.DHCPv4.Server.Enable";
  dhcp_min_address = "Device.DHCPv4.Server.Pool.1.MinAddress";
  dhcp_max_address = "Device.DHCPv4.Server.Pool.1.MaxAddress";
  dns = "Device.DHCPv4.Server.Pool.1.DNSServers";
}

unfoldable pub tr181_system : Tr181Mapper → SystemPaths
tr181_system m = record {
  cpe_uptime = "Device.DeviceInfo.UpTime";
  ram_total = "Device.DeviceInfo.MemoryStatus.Total";
  ram_free = "Device.DeviceInfo.MemoryStatus.Free";
  mgmt_url = "Device.ManagementServer.URL";
  mgmt_user = "Device.ManagementServer.Username";
  mgmt_pass = "Device.ManagementServer.Password";
  mgmt_interval = "Device.ManagementServer.PeriodicInformInterval";
  hosts_base = "Device.Hosts.Host.";
  hosts_count = "Device.Hosts.HostNumberOfEntries";
}

unfoldable pub tr181_service : Tr181Mapper → ServicePaths
tr181_service m = record {
  ping_base = "Device.IP.Diagnostics.IPPing.";
  traceroute_base = "Device.IP.Diagnostics.TraceRoute.";
  download_base = "Device.IP.Diagnostics.DownloadDiagnostics.";
  upload_base = "Device.IP.Diagnostics.UploadDiagnostics.";
  port_mapping_base = "Device.NAT.PortMapping.";
  port_mapping_count = "Device.NAT.PortMappingNumberOfEntries";
  web_admin_password = "Device.Users.User.1.Password";
  wan_service_type = "";
  band_steering = "";
}

unfoldable pub tr181_mapper : Tr181Mapper → Mapper
tr181_mapper m = record {
  detect_model = tr181_detect_model;
  extract_device_info = tr181_device_info m;
  wifi = tr181_wifi m;
  wan = tr181_wan m;
  lan = tr181_lan m;
  system = tr181_system m;
  service = tr181_service m;
  wan_provisioning_type = "set_params";
  supports_wifi_access_point = true;
}
