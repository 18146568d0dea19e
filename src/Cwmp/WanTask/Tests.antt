-- ===== src/Cwmp/WanTask/Tests.antt =====
-- A device with its WAN and without a driver, and a device without its WAN.
use helix_acs.Prelude.{
  ◌≡◌, refl, true, false, [], ◌∷◌, none, some, ◌==◌, str_eq, ◌⊎◌, if◌then◌else◌,
}
use helix_acs.Datamodel.Model.{InstanceMap}
use helix_acs.Datamodel.Apply.{as_mapper, new_mapper}
use helix_acs.Datamodel.Tr181.{tr181_wan, ppp_iface}
use helix_acs.Task.Executor.{nothing}
use helix_acs.Cwmp.WanParameters.Tests.{payload, mapper}
use helix_acs.Cwmp.WanParameters.{put_given, build_wan_credential_map, put_vlan, conn_type}
use helix_acs.Cwmp.WanTask.{
  sets, refused_with, is_vlan_changing, driven_update, is_pppoe, is_provisioned, update_plan,
  fallback_params, wan_plan,
}
use helix_acs.Cwmp.WanTask.Planned.{Leaves, is_refused, wan_plan-Leaves, wan_plan-given}

abbrev im : InstanceMap
im = record {
  wan_ip_iface_idx = 1;
  lan_ip_iface_idx = 2;
  ppp_iface_idx = 3;
  wan_vlan_term_idx = 4;
  wan_eth_link_idx = 1;
  wan_current_vlan = 50;
  free_gpon_link_idx = 0;
  wifi_ssid_indices = [];
  wifi_radio_indices = [];
  wifi_ap_indices = [];
  wan_device_idx = 0;
  wan_conn_dev_idx = 0;
  wan_ip_conn_idx = 0;
  wan_ppp_conn_idx = 0;
  lan_device_idx = 0;
  wlan_indices = [];
}

-- The interface is enabled, whether or not the VLAN changes.
updated :
    wan_plan "t" "t" im none mapper nothing (some payload)
    ≡ sets
        (("Device.PPP.Interface.1.Username", "user@isp")
          ∷ ("Device.Ethernet.VLANTermination.4.VLANID", "100")
          ∷ ("Device.IP.Interface.1.Enable", "1")
          ∷ ("Device.PPP.Interface.3.AuthenticationProtocol", "AUTO_AUTH")
          ∷ ("Device.PPP.Interface.3.Enable", "1")
          ∷ [])
        (some (
          ("_helix.provision.pppoe_username", "user@isp")
          ∷ ("_helix.provision.vlan_id", "100")
          ∷ ("_helix.provision.connection_type", "pppoe")
          ∷ []))
unfolding wan_plan is_pppoe is_provisioned update_plan fallback_params put_given
    build_wan_credential_map put_vlan conn_type as_mapper new_mapper tr181_wan ppp_iface
updated = refl

without_user :
    wan_plan "t" "t" im none mapper nothing (some (record payload { username = "" }))
    ≡ refused_with "WAN PPPoE VLAN change requires PPPoE username"
unfolding wan_plan is_pppoe is_provisioned update_plan
without_user = refl

wan_plan-Leaves_example :
    Leaves
      (if is_pppoe payload then some (build_wan_credential_map payload) else none)
      (wan_plan "t" "t" im none mapper nothing (some payload))
wan_plan-Leaves_example = wan_plan-Leaves "t" "t" im none mapper nothing payload

wan_plan-given_example :
    ((is_provisioned im ≡ false)
      × (payload.vlan == 0 ≡ false)
      × (str_eq payload.username "" ≡ false))
    ⊎ ((is_provisioned im ≡ true)
        × ((str_eq payload.username "" ≡ false)
            ⊎ ((is_vlan_changing im payload ≡ false) × (str_eq payload.password "" ≡ false))))
unfolding wan_plan is_pppoe is_provisioned update_plan is_refused driven_update fallback_params
    put_given as_mapper new_mapper tr181_wan ppp_iface
wan_plan-given_example = wan_plan-given "t" "t" im none mapper nothing payload refl refl
