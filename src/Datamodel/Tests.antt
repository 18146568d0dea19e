-- ===== src/Datamodel/Tests.antt =====
-- An instance map for the tests of others.
use helix_acs.Prelude.{ℕ, List, []}
use helix_acs.Datamodel.Model.{InstanceMap}

abbrev pub instances : ℕ → List ℕ → InstanceMap
instances wan ssids = record {
  wan_ip_iface_idx = wan;
  lan_ip_iface_idx = 0;
  ppp_iface_idx = 0;
  wan_vlan_term_idx = 0;
  wan_eth_link_idx = 0;
  wan_current_vlan = 0;
  free_gpon_link_idx = 0;
  wifi_ssid_indices = ssids;
  wifi_radio_indices = [];
  wifi_ap_indices = [];
  wan_device_idx = 0;
  wan_conn_dev_idx = 0;
  wan_ip_conn_idx = 0;
  wan_ppp_conn_idx = 0;
  lan_device_idx = 0;
  wlan_indices = [];
}
