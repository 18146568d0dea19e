-- ===== src/Datamodel/Apply.antt =====
-- `NewMapper` and `ApplyInstanceMap` of internal/datamodel/model.go.
use helix_acs.Prelude.{ℕ, List, [], ltb, if◌then◌else◌, is_empty}
use helix_acs.Datamodel.Model.{ModelType, tr181, tr098, InstanceMap, Mapper}
use helix_acs.Datamodel.Tr181.{Tr181Mapper, tr181_mapper}
use helix_acs.Datamodel.Tr098.{Tr098Mapper, tr098_mapper}

-- The mappers that `ApplyInstanceMap` tells apart; `other` is any other implementation.
pub data AnyMapper : Type 0 where
  tr181_of : Tr181Mapper → AnyMapper
  tr098_of : Tr098Mapper → AnyMapper
  other : Mapper → AnyMapper

unfoldable pub new_mapper : ModelType → AnyMapper
new_mapper tr181 = tr181_of (record {
  wan_iface_idx = 0;
  lan_iface_idx = 0;
  ppp_iface_idx = 0;
  ssid_indices = [];
  radio_indices = [];
  ap_indices = [];
})
new_mapper tr098 = tr098_of (record {
  wan_device_idx = 0;
  wan_conn_dev_idx = 0;
  wan_ip_conn_idx = 0;
  wan_ppp_conn_idx = 0;
  lan_device_idx = 0;
  wlan_indices = [];
})

unfoldable pub as_mapper : AnyMapper → Mapper
unfolding tr181_mapper tr098_mapper
as_mapper (tr181_of m) = tr181_mapper m
as_mapper (tr098_of m) = tr098_mapper m
as_mapper (other m) = m

abbrev pub newer : ℕ → ℕ → ℕ
newer found kept = if ltb 0 found then found else kept

abbrev pub newer_list : List ℕ → List ℕ → List ℕ
newer_list found kept = if is_empty found then kept else found

unfoldable pub apply_instance_map : AnyMapper → InstanceMap → AnyMapper
apply_instance_map (tr181_of m) im = tr181_of (record {
  wan_iface_idx = newer im.wan_ip_iface_idx m.wan_iface_idx;
  lan_iface_idx = newer im.lan_ip_iface_idx m.lan_iface_idx;
  ppp_iface_idx = newer im.ppp_iface_idx m.ppp_iface_idx;
  ssid_indices = newer_list im.wifi_ssid_indices m.ssid_indices;
  radio_indices = newer_list im.wifi_radio_indices m.radio_indices;
  ap_indices = newer_list im.wifi_ap_indices m.ap_indices;
})
apply_instance_map (tr098_of m) im = tr098_of (record {
  wan_device_idx = newer im.wan_device_idx m.wan_device_idx;
  wan_conn_dev_idx = newer im.wan_conn_dev_idx m.wan_conn_dev_idx;
  wan_ip_conn_idx = newer im.wan_ip_conn_idx m.wan_ip_conn_idx;
  wan_ppp_conn_idx = newer im.wan_ppp_conn_idx m.wan_ppp_conn_idx;
  lan_device_idx = newer im.lan_device_idx m.lan_device_idx;
  wlan_indices = newer_list im.wlan_indices m.wlan_indices;
})
apply_instance_map (other m) im = other m
