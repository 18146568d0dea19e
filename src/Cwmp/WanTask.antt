-- ===== src/Cwmp/WanTask.antt =====
-- The WAN branch of `executeTask` in internal/cwmp/session.go: what a WAN task sends, and what it leaves in
-- the session.
pub mod Planned
mod Tests
use helix_acs.Prelude.{
  ℕ, String, Bool, true, false, not, ◌&&◌, ◌||◌, List, [], ◌∷◌, ◌++◌, Option, none, some,
  if◌then◌else◌, str_eq, ◌==◌, ltb, is_empty, is_some,
}
use helix_acs.Text.{◌+++◌, itoa, to_lower, trim_space}
use helix_acs.Dict.{Dict, put, value_of}
use helix_acs.Datamodel.Model.{Mapper, InstanceMap}
use helix_acs.Task.Model.{WanPayload}
use helix_acs.Task.Executor.{Built, refused, nothing, built}
use helix_acs.Schema.Driver.{DeviceDriver, get_provision_flow}
use helix_acs.Cwmp.WanProvision.{
  WanProvision, Outcome, new_wan_provision_from_driver, build_current_xml,
}
use helix_acs.Cwmp.WanParameters.{
  put_given, build_generic_wan_params, build_wan_credential_map, wan_ipv6_enabled_str,
  resolve_wan_ip_mode,
}
use helix_acs.Cwmp.LegacyFlow.{new_wan_provision}

-- A plan with the credentials that wait for the success of the task.
pub data WanPlan : Type 0 where
  refused_with : String → WanPlan
  -- A flow is in the session, with the task, whether or not its first request can be built.
  starts : WanProvision → Dict String → Outcome → WanPlan
  -- One SetParameterValues.
  sets : Dict String → Option (Dict String) → WanPlan

abbrev pub or_one : ℕ → String
unfolding itoa
or_one n = itoa (if n == 0 then 1 else n)

unfoldable pub is_pppoe : WanPayload → Bool
unfolding to_lower trim_space
is_pppoe p =
    let conn_type = trim_space (to_lower p.connection_type) in
    if str_eq conn_type "pppoe"
    then true
    else str_eq conn_type ""
      && (not (str_eq p.username "") || not (str_eq p.password "") || ltb 0 p.vlan)

-- WANPPPConnection, or an IP and a PPP interface.
abbrev pub is_provisioned_tr181 : InstanceMap → Bool
is_provisioned_tr181 im = ltb 0 im.wan_ip_iface_idx && ltb 0 im.ppp_iface_idx

unfoldable pub is_provisioned : InstanceMap → Bool
is_provisioned im = ltb 0 im.wan_ppp_conn_idx || is_provisioned_tr181 im

abbrev pub wan_indices : InstanceMap → Dict String
wan_indices im =
    ("wan_dev", or_one im.wan_device_idx)
    ∷ ("wan_conn", or_one im.wan_conn_dev_idx)
    ∷ ("wan_ip_conn", or_one im.wan_ip_conn_idx)
    ∷ ("wan_ppp_conn", or_one im.wan_ppp_conn_idx)
    ∷ []

abbrev pub ip_mode_var : WanPayload → DeviceDriver → Dict String
unfolding resolve_wan_ip_mode
ip_mode_var p drv =
    let mode = resolve_wan_ip_mode p (some drv) in
    if str_eq mode "" then [] else ("wan_ip_mode", mode) ∷ []

unfoldable pub mtu_value : WanPayload → DeviceDriver → String
unfolding value_of itoa
mtu_value p drv =
    let configured = value_of "default_mtu" drv.config in
    if ltb 0 p.mtu then itoa p.mtu else if str_eq configured "" then "1492" else configured

unfoldable pub new_vars : InstanceMap → WanPayload → DeviceDriver → Dict String
unfolding ip_mode_var mtu_value wan_ipv6_enabled_str itoa
new_vars im p drv =
    ("vlan_id", itoa p.vlan)
    ∷ ("username", p.username)
    ∷ ("password", p.password)
    ∷ ("gpon_idx", itoa im.free_gpon_link_idx)
    ∷ ("ipv6_enabled", wan_ipv6_enabled_str p)
    ∷ ("mtu", mtu_value p drv)
    ∷ (wan_indices im ++ ip_mode_var p drv)

abbrev pub start : String → Dict String → Option WanProvision → WanPlan
start rpc_id creds none = refused_with "create driver provision flow"
start rpc_id creds (some wp) = starts wp creds (build_current_xml rpc_id wp)

abbrev pub generic_plan : Dict String → Option (Dict String) → WanPlan
generic_plan creds none = refused_with "generic WAN provisioning"
generic_plan creds (some params) = sets params (some creds)

abbrev pub is_driven : Option DeviceDriver → Bool
unfolding get_provision_flow
is_driven none = false
is_driven (some drv) = is_some (get_provision_flow (some drv) "wan_pppoe_new")

abbrev pub driven_plan : String → String → InstanceMap → WanPayload → Option DeviceDriver → WanPlan
driven_plan rpc_id id im p none = refused_with "create driver provision flow"
driven_plan rpc_id id im p (some drv) =
    start rpc_id (build_wan_credential_map p)
      (new_wan_provision_from_driver id (some drv) "wan_pppoe_new" (new_vars im p drv))

-- The device has no WAN for PPPoE.
unfoldable pub new_plan :
    String → String → InstanceMap → Option DeviceDriver → Mapper → WanPayload → WanPlan
new_plan rpc_id id im drv mapper p =
    if p.vlan == 0
    then refused_with "WAN full provisioning requires VLAN ID"
    else if str_eq p.username ""
    then refused_with "WAN full provisioning requires PPPoE username"
    else if is_driven drv
    then driven_plan rpc_id id im p drv
    else if str_eq mapper.wan_provisioning_type "add_object"
    then start rpc_id (build_wan_credential_map p)
        (some (new_wan_provision id im.free_gpon_link_idx p.vlan p.username p.password))
    else generic_plan (build_wan_credential_map p) (build_generic_wan_params p mapper)

abbrev pub is_vlan_changing : InstanceMap → WanPayload → Bool
is_vlan_changing im p = ltb 0 p.vlan && not (p.vlan == im.wan_current_vlan)

unfoldable pub update_vars : InstanceMap → WanPayload → DeviceDriver → Dict String
unfolding ip_mode_var wan_ipv6_enabled_str itoa
update_vars im p drv =
    ("ip_iface_idx", itoa im.wan_ip_iface_idx)
    ∷ ("ppp_iface_idx", itoa im.ppp_iface_idx)
    ∷ ("username", p.username)
    ∷ ("password", p.password)
    ∷ ("ipv6_enabled", wan_ipv6_enabled_str p)
    ∷ (wan_indices im
        ++ (ip_mode_var p drv
            ++ (if is_vlan_changing im p
                then ("vlan_id", itoa p.vlan) ∷ ("vlan_term_idx", itoa im.wan_vlan_term_idx) ∷ []
                else [])))

unfoldable pub driven_update : String → String → InstanceMap → WanPayload → DeviceDriver → WanPlan
driven_update rpc_id id im p drv =
    if is_vlan_changing im p && is_provisioned_tr181 im && im.wan_vlan_term_idx == 0
    then refused_with "WAN PPPoE VLAN change requires instance map"
    else start rpc_id (build_wan_credential_map p) (
        new_wan_provision_from_driver id (some drv)
          (if is_vlan_changing im p then "wan_pppoe_update_vlan" else "wan_pppoe_update")
          (update_vars im p drv))

abbrev pub put_if : Bool → String → String → Dict String → Dict String
unfolding put
put_if given k v d = if given then put k v d else d

-- The writes in their order; a later one to the same path replaces an earlier one.
unfoldable pub fallback_params : InstanceMap → Mapper → WanPayload → Dict String
unfolding put_given put_if itoa
fallback_params im mapper p =
    let vlan = is_vlan_changing im p && ltb 0 im.wan_vlan_term_idx in
    let ppp = "Device.PPP.Interface." +++ itoa im.ppp_iface_idx in
    let ip_enable = "Device.IP.Interface." +++ itoa im.wan_ip_iface_idx +++ ".Enable" in
    let credentials =
      put_given mapper.wan.pppoe_pass p.password (put_given mapper.wan.pppoe_user p.username []) in
    let changed = put_if vlan ip_enable "0" (
      put_if vlan ("Device.Ethernet.VLANTermination." +++ itoa im.wan_vlan_term_idx +++ ".VLANID")
        (itoa p.vlan) credentials) in
    put_if (ltb 0 im.wan_ip_iface_idx) ip_enable "1" (
      put_if (ltb 0 im.ppp_iface_idx) (ppp +++ ".Enable") "1"
        (put_if (ltb 0 im.ppp_iface_idx) (ppp +++ ".AuthenticationProtocol") "AUTO_AUTH" changed))

unfoldable pub update_plan :
    String → String → InstanceMap → Option DeviceDriver → Mapper → WanPayload → WanPlan
update_plan rpc_id id im drv mapper p =
    let params = fallback_params im mapper p in
    if is_vlan_changing im p && str_eq p.username ""
    then refused_with "WAN PPPoE VLAN change requires PPPoE username"
    else if not (is_vlan_changing im p) && str_eq p.username "" && str_eq p.password ""
    then refused_with "WAN update: no credentials or VLAN change provided"
    else elim drv [
      | some d ↦ driven_update rpc_id id im p d
      | none ↦
          if is_empty params
          then refused_with "WAN update fallback: no parameters could be built"
          else sets params (some (build_wan_credential_map p))
    ]

abbrev pub executor_plan : String → Built (Dict String) → WanPlan
executor_plan id (refused e) = refused_with e
executor_plan id nothing = refused_with ("task " +++ id +++ " produced no parameters")
executor_plan id (built params) =
    if is_empty params
    then refused_with ("task " +++ id +++ " produced no parameters")
    else sets params none

-- `executor` is what BuildSetParams gives for the task.
unfoldable pub wan_plan :
    String
    → String
    → InstanceMap
    → Option DeviceDriver
    → Mapper
    → Built (Dict String)
    → Option WanPayload
    → WanPlan
wan_plan rpc_id id im drv mapper executor none = refused_with "unmarshal wan payload"
wan_plan rpc_id id im drv mapper executor (some p) =
    if is_pppoe p
    then (if is_provisioned im
        then update_plan rpc_id id im drv mapper p
        else new_plan rpc_id id im drv mapper p)
    else executor_plan id executor
