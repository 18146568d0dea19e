-- ===== src/Datamodel/Roots/Gateway.antt =====
-- The TR-098 paths of internal/datamodel, below their root object.
use helix_acs.Prelude.{ℕ, String, ◌≡◌, refl, inl, inr, true}
use helix_acs.Text.{◌+++◌, has_prefix, itoa}
use helix_acs.Text.Prefixes.{has_prefix-append_right}
use helix_acs.Datamodel.Tr098.{
  Tr098Mapper, wan_dev, wan_conn, lan_dev, wlan_idx, wan_base, wlan_base, tr098_wifi, tr098_wan,
  tr098_lan, tr098_system, tr098_service, tr098_mapper,
}
use helix_acs.Datamodel.Roots.{
  IsUnder, AreWifiPaths, AreWanPaths, AreLanPaths, AreSystemPaths, AreServicePaths, ArePaths,
}

below_igd :
    (s t : String)
    → has_prefix s "InternetGatewayDevice." ≡ true
    → IsUnder "InternetGatewayDevice." (s +++ t)
below_igd s t h = inr (has_prefix-append_right s t _ h)

module _ (m : Tr098Mapper) where
  wan_base-under : has_prefix (wan_base m) "InternetGatewayDevice." ≡ true
  unfolding wan_base has_prefix
  wan_base-under =
      has_prefix-append_right "InternetGatewayDevice.WANDevice."
        (itoa (wan_dev m) +++ (".WANConnectionDevice." +++ itoa (wan_conn m)))
        "InternetGatewayDevice." refl

  wlan_base-under : (band : ℕ) → has_prefix (wlan_base m band) "InternetGatewayDevice." ≡ true
  unfolding wlan_base has_prefix
  wlan_base-under band =
      has_prefix-append_right "InternetGatewayDevice.LANDevice."
        (itoa (lan_dev m) +++ (".WLANConfiguration." +++ itoa (wlan_idx m band)))
        "InternetGatewayDevice." refl

  tr098_wifi-IsUnder : AreWifiPaths (IsUnder "InternetGatewayDevice.") (tr098_wifi m)
  unfolding tr098_wifi has_prefix
  tr098_wifi-IsUnder = record {
    ssid = λ band. below_igd (wlan_base m band) _ (wlan_base-under band);
    password = λ band. below_igd (wlan_base m band) _ (wlan_base-under band);
    enabled = λ band. below_igd (wlan_base m band) _ (wlan_base-under band);
    channel = λ band. below_igd (wlan_base m band) _ (wlan_base-under band);
    bssid = λ band. below_igd (wlan_base m band) _ (wlan_base-under band);
    standard = λ band. below_igd (wlan_base m band) _ (wlan_base-under band);
    security_mode = λ band. below_igd (wlan_base m band) _ (wlan_base-under band);
    channel_width = λ band. below_igd (wlan_base m band) _ (wlan_base-under band);
    tx_power = λ band. below_igd (wlan_base m band) _ (wlan_base-under band);
    client_count = λ band. below_igd (wlan_base m band) _ (wlan_base-under band);
    bytes_sent = λ band. below_igd (wlan_base m band) _ (wlan_base-under band);
    bytes_received = λ band. below_igd (wlan_base m band) _ (wlan_base-under band);
    packets_sent = λ band. below_igd (wlan_base m band) _ (wlan_base-under band);
    packets_received = λ band. below_igd (wlan_base m band) _ (wlan_base-under band);
    errors_sent = λ band. below_igd (wlan_base m band) _ (wlan_base-under band);
    errors_received = λ band. below_igd (wlan_base m band) _ (wlan_base-under band);
  }

  tr098_wan-IsUnder : AreWanPaths (IsUnder "InternetGatewayDevice.") (tr098_wan m)
  unfolding tr098_wan has_prefix
  tr098_wan-IsUnder = record {
    connection_type = below_igd (wan_base m) _ (wan_base-under);
    pppoe_user = below_igd (wan_base m) _ (wan_base-under);
    pppoe_pass = below_igd (wan_base m) _ (wan_base-under);
    ip_address = below_igd (wan_base m) _ (wan_base-under);
    gateway = below_igd (wan_base m) _ (wan_base-under);
    dns1 = below_igd (wan_base m) _ (wan_base-under);
    dns2 = below_igd (wan_base m) _ (wan_base-under);
    mtu = below_igd (wan_base m) _ (wan_base-under);
    uptime = below_igd (wan_base m) _ (wan_base-under);
    mac = below_igd "InternetGatewayDevice.WANDevice." _ refl;
    status = below_igd (wan_base m) _ (wan_base-under);
    bytes_sent = below_igd "InternetGatewayDevice.WANDevice." _ refl;
    bytes_received = below_igd "InternetGatewayDevice.WANDevice." _ refl;
    packets_sent = below_igd "InternetGatewayDevice.WANDevice." _ refl;
    packets_received = below_igd "InternetGatewayDevice.WANDevice." _ refl;
    errors_sent = inl refl;
    errors_received = inl refl;
  }

  tr098_lan-IsUnder : AreLanPaths (IsUnder "InternetGatewayDevice.") (tr098_lan m)
  unfolding tr098_lan has_prefix
  tr098_lan-IsUnder = record {
    ip_address = below_igd "InternetGatewayDevice.LANDevice." _ refl;
    subnet_mask = below_igd "InternetGatewayDevice.LANDevice." _ refl;
    dhcp_server_enable = below_igd "InternetGatewayDevice.LANDevice." _ refl;
    dhcp_min_address = below_igd "InternetGatewayDevice.LANDevice." _ refl;
    dhcp_max_address = below_igd "InternetGatewayDevice.LANDevice." _ refl;
    dns = below_igd "InternetGatewayDevice.LANDevice." _ refl;
  }

  tr098_system-IsUnder : AreSystemPaths (IsUnder "InternetGatewayDevice.") (tr098_system m)
  unfolding tr098_system has_prefix
  tr098_system-IsUnder = record {
    cpe_uptime = inr refl;
    ram_total = inr refl;
    ram_free = inr refl;
    mgmt_url = inr refl;
    mgmt_user = inr refl;
    mgmt_pass = inr refl;
    mgmt_interval = inr refl;
    hosts_base = below_igd "InternetGatewayDevice.LANDevice." _ refl;
    hosts_count = below_igd "InternetGatewayDevice.LANDevice." _ refl;
  }

  tr098_service-IsUnder : AreServicePaths (IsUnder "InternetGatewayDevice.") (tr098_service m)
  unfolding tr098_service has_prefix
  tr098_service-IsUnder = record {
    ping_base = inr refl;
    traceroute_base = inr refl;
    download_base = inr refl;
    upload_base = inr refl;
    port_mapping_base = below_igd (wan_base m) _ (wan_base-under);
    port_mapping_count = below_igd (wan_base m) _ (wan_base-under);
    web_admin_password = inl refl;
    wan_service_type = inl refl;
    band_steering = inl refl;
  }

-- Every path of the TR-098 mapper is missing or begins with "InternetGatewayDevice.", for all
-- values of its index overrides and all bands.
pub tr098_mapper-IsUnder :
    (m : Tr098Mapper) → ArePaths (IsUnder "InternetGatewayDevice.") (tr098_mapper m)
unfolding tr098_mapper
tr098_mapper-IsUnder m = record {
  wifi = tr098_wifi-IsUnder m;
  wan = tr098_wan-IsUnder m;
  lan = tr098_lan-IsUnder m;
  system = tr098_system-IsUnder m;
  service = tr098_service-IsUnder m;
}
