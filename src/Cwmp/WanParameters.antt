-- ===== src/Cwmp/WanParameters.antt =====
-- internal/cwmp/wan_provisioner.go: the parameters of WAN tasks. VLAN numbers are not negative.
pub mod Keys
pub mod Tests
use helix_acs.Prelude.{
  ℕ, String, Bool, true, false, not, ◌&&◌, ◌||◌, List, [], ◌∷◌, Option, none, some, ltb, ◌==◌,
  if◌then◌else◌, str_eq,
}
use helix_acs.Text.{◌+++◌, itoa}
use helix_acs.Dict.{Dict, find, put}
use helix_acs.Datamodel.Model.{InstanceMap, Mapper}
use helix_acs.Task.Model.{WanPayload}
use helix_acs.Schema.Driver.{DeviceDriver}

-- `d[k] = v`, where v is not empty.
unfoldable pub put_given : String → String → Dict String → Dict String
unfolding put
put_given k v d = if str_eq v "" then d else put k v d

-- `none` is one of the two errors.
unfoldable pub build_generic_wan_params : WanPayload → Mapper → Option (Dict String)
unfolding put_given
build_generic_wan_params p mapper =
    let user_path = mapper.wan.pppoe_user in
    let pass_path = mapper.wan.pppoe_pass in
    if str_eq user_path "" || str_eq pass_path ""
    then none
    else elim (put_given pass_path p.password (put_given user_path p.username [])) [
      | [] ↦ none
      | e ∷ params ↦ some (e ∷ params)
    ]

-- `d[path] = v`, where neither is empty.
unfoldable pub put_at_given : String → String → Dict String → Dict String
unfolding put_given
put_at_given path v d = if str_eq path "" then d else put_given path v d

-- `none` is one of the two errors.
unfoldable pub build_generic_vlan_update : WanPayload → InstanceMap → Mapper → Option (Dict String)
unfolding put_at_given
build_generic_vlan_update p im mapper =
    if im.wan_vlan_term_idx == 0 || p.vlan == 0
    then none
    else let vlan_path =
        "Device.Ethernet.VLANTermination." +++ (itoa im.wan_vlan_term_idx +++ ".VLANID") in
      some (
        put_at_given mapper.wan.pppoe_pass p.password
          (put_at_given mapper.wan.pppoe_user p.username ((vlan_path, itoa p.vlan) ∷ [])))

-- The connection type that is stored.
unfoldable pub conn_type : WanPayload → String
conn_type p =
    if str_eq p.connection_type ""
      && (not (str_eq p.username "") || not (str_eq p.password "") || ltb 0 p.vlan)
    then "pppoe"
    else p.connection_type

unfoldable pub put_vlan : ℕ → Dict String → Dict String
unfolding put
put_vlan vlan d = if ltb 0 vlan then put "_helix.provision.vlan_id" (itoa vlan) d else d

unfoldable pub build_wan_credential_map : WanPayload → Dict String
unfolding put_given put_vlan conn_type
build_wan_credential_map p = put_given "_helix.provision.connection_type" (conn_type p) (
    put_vlan p.vlan (
      put_given "_helix.provision.pppoe_password" p.password
        (put_given "_helix.provision.pppoe_username" p.username [])))

abbrev is_enabled : Option Bool → Bool
is_enabled none = false
is_enabled (some b) = b

unfoldable pub wan_ipv6_enabled_str : WanPayload → String
wan_ipv6_enabled_str p = if is_enabled p.ipv6_enabled then "1" else "0"

unfoldable pub resolve_wan_ip_mode : WanPayload → Option DeviceDriver → String
unfolding find
resolve_wan_ip_mode p drv =
    if is_enabled p.ipv6_enabled
    then elim drv [
      | none ↦ ""
      | some d ↦ elim (find "wan_ip_mode_v6" d.config) [ none ↦ "" | some v ↦ v ]
    ]
    else ""
