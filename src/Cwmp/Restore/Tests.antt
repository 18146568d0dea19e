-- ===== src/Cwmp/Restore/Tests.antt =====
-- Tests and examples of what is restored.
use helix_acs.Prelude.{◌+◌, length, ◌≡◌, refl, String, true, false, [], ◌∷◌, none, some, All}
use helix_acs.Dict.{Dict}
use helix_acs.Text.{itoa}
use helix_acs.Datamodel.Tr181.{
  Tr181Mapper, tr181_mapper, tr181_wifi, tr181_service, ssid_idx, ap_idx,
}
use helix_acs.Schema.Driver.Tests.{driver_with}
use helix_acs.Task.Model.{WanPayload}
use helix_acs.Schema.Driver.{DeviceDriver, map_security_mode}
use helix_acs.Cwmp.WanParameters.{build_wan_credential_map}
use helix_acs.Cwmp.Restore.{is_critical, wan_payload, wifi_payloads}
use helix_acs.Cwmp.Restore.Wan.{wan_payload-build_wan_credential_map}
use helix_acs.Cwmp.Restore.Wifi.{IsOfBand, named_networks, wifi_payloads-IsSecured}

-- Every parameter below a primary SSID counts, also one that cannot be written.
read_only_is_critical :
    (is_critical "Device.WiFi.SSID.1.MACAddress" ≡ true)
    × (is_critical "Device.WiFi.SSID.1.LowerLayers" ≡ true)
    × (is_critical "Device.WiFi.SSID.1.BSSID" ≡ false)
    × (is_critical "Device.WiFi.SSID.3.SSID" ≡ false)
    × (is_critical "Device.ManagementServer.Password" ≡ false)
unfolding is_critical
read_only_is_critical = (refl, refl, refl, refl, refl)

abbrev credentials : WanPayload
credentials = record {
  connection_type = "pppoe";
  username = "user@isp";
  password = "secret";
  ip_address = "";
  subnet_mask = "";
  gateway = "";
  dns1 = "";
  dns2 = "";
  vlan = 110;
  mtu = 0;
  ipv6_enabled = none;
}

abbrev wan_snapshot : Dict String
wan_snapshot =
    ("Device.PPP.Interface.1.Username", "other")
    ∷ ("_helix.provision.connection_type", "pppoe")
    ∷ ("_helix.provision.pppoe_username", "user@isp")
    ∷ ("_helix.provision.pppoe_password", "secret")
    ∷ ("_helix.provision.vlan_id", "110")
    ∷ []

-- The VLAN that was stored is not restored.
vlan_lost :
    wan_payload wan_snapshot
    ≡ some (record {
      connection_type = "pppoe";
      username = "user@isp";
      password = "secret";
      ip_address = "";
      subnet_mask = "";
      gateway = "";
      dns1 = "";
      dns2 = "";
      vlan = 0;
      mtu = 0;
      ipv6_enabled = some true;
    })
unfolding wan_payload
vlan_lost = refl

wan_payload-build_wan_credential_map_example :
    (q : WanPayload) × (wan_payload (build_wan_credential_map credentials) ≡ some q)
    × (q.username ≡ "user@isp")
    × (q.password ≡ "secret")
    × (q.connection_type ≡ "pppoe")
wan_payload-build_wan_credential_map_example =
    wan_payload-build_wan_credential_map credentials (build_wan_credential_map credentials) refl
      refl (λ key v h. h)

abbrev mapper : Tr181Mapper
mapper = record {
  wan_iface_idx = 1;
  lan_iface_idx = 2;
  ppp_iface_idx = 1;
  ssid_indices = [];
  radio_indices = [];
  ap_indices = [];
}

abbrev driver : DeviceDriver
driver = driver_with "" [] [] []

abbrev wifi_snapshot : Dict String
wifi_snapshot =
    ("Device.WiFi.SSID.1.SSID", "home")
    ∷ ("Device.WiFi.AccessPoint.1.Security.KeyPassphrase", "secret12")
    ∷ ("Device.WiFi.AccessPoint.1.Security.ModeEnabled", "None")
    ∷ []

wifi_payloads-IsSecured_example :
    (length (wifi_payloads (tr181_mapper mapper) wifi_snapshot)
      ≡ named_networks (tr181_mapper mapper) wifi_snapshot 0
        + named_networks (tr181_mapper mapper) wifi_snapshot 1)
    × All
        (IsOfBand driver (tr181_mapper mapper) wifi_snapshot)
        (wifi_payloads (tr181_mapper mapper) wifi_snapshot)
unfolding map_security_mode
wifi_payloads-IsSecured_example =
    wifi_payloads-IsSecured driver (λ mode h. h) (tr181_mapper mapper) wifi_snapshot

one_network :
    wifi_payloads (tr181_mapper mapper) wifi_snapshot
    ≡ record {
      band = "2.4";
      ssid = "home";
      password = "secret12";
      security = "WPA2-PSK";
      channel = 0;
      enabled = none;
      band_steering_enabled = none;
    }
      ∷ []
unfolding wifi_payloads tr181_mapper tr181_wifi itoa ssid_idx ap_idx tr181_service
one_network = refl
