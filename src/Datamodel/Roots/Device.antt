-- ===== src/Datamodel/Roots/Device.antt =====
-- The TR-181 paths of internal/datamodel, below their root object.
use helix_acs.Prelude.{String, ◌≡◌, refl, inl, inr, true}
use helix_acs.Text.{◌+++◌, has_prefix}
use helix_acs.Text.Prefixes.{has_prefix-append_right}
use helix_acs.Datamodel.Tr181.{
  Tr181Mapper, tr181_wifi, tr181_wan, tr181_lan, tr181_system, tr181_service, tr181_mapper,
}
use helix_acs.Datamodel.Roots.{
  IsUnder, AreWifiPaths, AreWanPaths, AreLanPaths, AreSystemPaths, AreServicePaths, ArePaths,
}

below_device : (s t : String) → has_prefix s "Device." ≡ true → IsUnder "Device." (s +++ t)
below_device s t h = inr (has_prefix-append_right s t _ h)

module _ (m : Tr181Mapper) where
  tr181_wifi-IsUnder : AreWifiPaths (IsUnder "Device.") (tr181_wifi m)
  unfolding tr181_wifi has_prefix
  tr181_wifi-IsUnder = record {
    ssid = λ band. below_device "Device.WiFi.SSID." _ refl;
    password = λ band. below_device "Device.WiFi.AccessPoint." _ refl;
    enabled = λ band. below_device "Device.WiFi.SSID." _ refl;
    channel = λ band. below_device "Device.WiFi.Radio." _ refl;
    bssid = λ band. below_device "Device.WiFi.SSID." _ refl;
    standard = λ band. below_device "Device.WiFi.Radio." _ refl;
    security_mode = λ band. below_device "Device.WiFi.AccessPoint." _ refl;
    channel_width = λ band. below_device "Device.WiFi.Radio." _ refl;
    tx_power = λ band. below_device "Device.WiFi.Radio." _ refl;
    client_count = λ band. below_device "Device.WiFi.AccessPoint." _ refl;
    bytes_sent = λ band. below_device "Device.WiFi.SSID." _ refl;
    bytes_received = λ band. below_device "Device.WiFi.SSID." _ refl;
    packets_sent = λ band. below_device "Device.WiFi.SSID." _ refl;
    packets_received = λ band. below_device "Device.WiFi.SSID." _ refl;
    errors_sent = λ band. below_device "Device.WiFi.SSID." _ refl;
    errors_received = λ band. below_device "Device.WiFi.SSID." _ refl;
  }

  tr181_wan-IsUnder : AreWanPaths (IsUnder "Device.") (tr181_wan m)
  unfolding tr181_wan has_prefix
  tr181_wan-IsUnder = record {
    connection_type = below_device "Device.IP.Interface." _ refl;
    pppoe_user = below_device "Device.PPP.Interface." _ refl;
    pppoe_pass = below_device "Device.PPP.Interface." _ refl;
    ip_address = below_device "Device.IP.Interface." _ refl;
    gateway = inr refl;
    dns1 = inr refl;
    dns2 = inr refl;
    mtu = below_device "Device.IP.Interface." _ refl;
    uptime = below_device "Device.IP.Interface." _ refl;
    mac = inr refl;
    status = below_device "Device.IP.Interface." _ refl;
    bytes_sent = below_device "Device.IP.Interface." _ refl;
    bytes_received = below_device "Device.IP.Interface." _ refl;
    packets_sent = below_device "Device.IP.Interface." _ refl;
    packets_received = below_device "Device.IP.Interface." _ refl;
    errors_sent = below_device "Device.IP.Interface." _ refl;
    errors_received = below_device "Device.IP.Interface." _ refl;
  }

  tr181_lan-IsUnder : AreLanPaths (IsUnder "Device.") (tr181_lan m)
  unfolding tr181_lan has_prefix
  tr181_lan-IsUnder = record {
    ip_address = below_device "Device.IP.Interface." _ refl;
    subnet_mask = below_device "Device.IP.Interface." _ refl;
    dhcp_server_enable = inr refl;
    dhcp_min_address = inr refl;
    dhcp_max_address = inr refl;
    dns = inr refl;
  }

  tr181_system-IsUnder : AreSystemPaths (IsUnder "Device.") (tr181_system m)
  unfolding tr181_system has_prefix
  tr181_system-IsUnder = record {
    cpe_uptime = inr refl;
    ram_total = inr refl;
    ram_free = inr refl;
    mgmt_url = inr refl;
    mgmt_user = inr refl;
    mgmt_pass = inr refl;
    mgmt_interval = inr refl;
    hosts_base = inr refl;
    hosts_count = inr refl;
  }

  tr181_service-IsUnder : AreServicePaths (IsUnder "Device.") (tr181_service m)
  unfolding tr181_service has_prefix
  tr181_service-IsUnder = record {
    ping_base = inr refl;
    traceroute_base = inr refl;
    download_base = inr refl;
    upload_base = inr refl;
    port_mapping_base = inr refl;
    port_mapping_count = inr refl;
    web_admin_password = inr refl;
    wan_service_type = inl refl;
    band_steering = inl refl;
  }

-- Every path of the TR-181 mapper is missing or begins with "Device.", for all
-- values of its index overrides and all bands.
pub tr181_mapper-IsUnder : (m : Tr181Mapper) → ArePaths (IsUnder "Device.") (tr181_mapper m)
unfolding tr181_mapper
tr181_mapper-IsUnder m = record {
  wifi = tr181_wifi-IsUnder m;
  wan = tr181_wan-IsUnder m;
  lan = tr181_lan-IsUnder m;
  system = tr181_system-IsUnder m;
  service = tr181_service-IsUnder m;
}
