-- ===== src/Cwmp/LegacyFlow.antt =====
-- `newWANProvision` and `newWANProvisionDeleteAndAdd` of internal/cwmp/wan_provision.go: the flows for devices
-- without a driver.
pub mod Typed
mod Tests
use helix_acs.Prelude.{ℕ, String, List, [], ◌∷◌, ◌++◌, none, ltb, if◌then◌else◌}
use helix_acs.Text.{◌+++◌, itoa}
use helix_acs.Dict.{Dict}
use helix_acs.Schema.Flow.{ProvisionStepKind, add_object, set, delete, ProvisionStep, ProvisionFlow}
use helix_acs.Schema.Provision.{new_executor}
use helix_acs.Cwmp.WanProvision.{WanProvision}

abbrev pub add_step : String → String → ProvisionStep
add_step object as_var = record {
  kind = add_object;
  when = "";
  object = object;
  as_var = as_var;
  params = [];
}

abbrev pub set_step : Dict String → ProvisionStep
set_step params = record { kind = set; when = ""; object = ""; as_var = ""; params = params }

abbrev pub gpon_step : String → String → ProvisionStep
gpon_step index v =
    let link = "Device.X_TP_GPON.Link." +++ index in
    set_step (
      (link +++ ".Alias", "TpLink_" +++ v)
      ∷ (link +++ ".LowerLayers", "Device.Optical.Interface.1.")
      ∷ [])

unfoldable pub gpon_steps : ℕ → String → List ProvisionStep
unfolding itoa
gpon_steps gpon_idx v =
    if ltb 0 gpon_idx
    then gpon_step (itoa gpon_idx) v ∷ []
    else add_step "Device.X_TP_GPON.Link." "gpon_idx" ∷ gpon_step "{gpon_idx}" v ∷ []

unfoldable pub ethernet_steps : String → String → List ProvisionStep
ethernet_steps gi v =
    let link : String = "Device.Ethernet.Link.{eth}." in
    let vlan : String = "Device.Ethernet.VLANTermination.{vterm}." in
    add_step "Device.Ethernet.Link." "eth"
    ∷ set_step (
        (link +++ "Alias", "ethlink_" +++ v)
        ∷ (link +++ "Enable", "1")
        ∷ (link +++ "LowerLayers", "Device.X_TP_GPON.Link." +++ gi +++ ".")
        ∷ [])
    ∷ add_step "Device.Ethernet.VLANTermination." "vterm"
    ∷ set_step (
        (vlan +++ "Alias", "VLAN_" +++ v)
        ∷ (vlan +++ "Enable", "1")
        ∷ (vlan +++ "LowerLayers", link)
        ∷ (vlan +++ "VLANID", v)
        ∷ [])
    ∷ set_step (
        (vlan +++ "X_TP_MulticastStatus", "1")
        ∷ (vlan +++ "X_TP_VLANEnable", "1")
        ∷ (vlan +++ "X_TP_VLANMode", "2")
        ∷ [])
    ∷ []

unfoldable pub ppp_steps : String → String → List ProvisionStep
ppp_steps username password =
    let ppp : String = "Device.PPP.Interface.{ppp}." in
    let ip : String = "Device.IP.Interface.{ip}." in
    add_step "Device.PPP.Interface." "ppp"
    ∷ add_step "Device.IP.Interface." "ip"
    ∷ set_step ((ip +++ "LowerLayers", ppp) ∷ [])
    ∷ set_step (
        (ppp +++ "Alias", "Internet_PPPoE")
        ∷ (ppp +++ "AuthenticationProtocol", "AUTO_AUTH")
        ∷ (ppp +++ "LowerLayers", "Device.Ethernet.VLANTermination.{vterm}.")
        ∷ (ppp +++ "Password", password)
        ∷ (ppp +++ "Username", username)
        ∷ (ppp +++ "X_TP_UsernameDomainEnable", "1")
        ∷ [])
    ∷ set_step (
        (ip +++ "Alias", "Internet_PPPoE")
        ∷ (ip +++ "IPv4Enable", "1")
        ∷ (ip +++ "MaxMTUSize", "1492")
        ∷ (ip +++ "X_TP_ConnName", "Internet_PPPoE")
        ∷ (ip +++ "X_TP_ConnType", "PPPoE")
        ∷ (ip +++ "X_TP_IPv6AddrType", "SLAAC")
        ∷ (ip +++ "X_TP_ServiceType", "Internet")
        ∷ [])
    ∷ []

abbrev pub service_steps : List ProvisionStep
service_steps =
    add_step "Device.NAT.InterfaceSetting." "nat"
    ∷ set_step (("Device.NAT.InterfaceSetting.{nat}.Interface", "Device.IP.Interface.{ip}.") ∷ [])
    ∷ set_step (("Device.IP.Interface.{ip}.IPv6Enable", "1") ∷ [])
    ∷ add_step "Device.DHCPv6.Client." "dhcpv6"
    ∷ set_step (("Device.DHCPv6.Client.{dhcpv6}.Interface", "Device.IP.Interface.{ip}.") ∷ [])
    ∷ set_step (
        ("Device.DHCPv6.Client.{dhcpv6}.RequestAddresses", "0")
        ∷ ("Device.DHCPv6.Client.{dhcpv6}.RequestPrefixes", "1")
        ∷ ("Device.DHCPv6.Client.{dhcpv6}.RequestedOptions", "23")
        ∷ ("Device.DHCPv6.Client.{dhcpv6}.X_TP_EnableRaRouter", "1")
        ∷ ("Device.DHCPv6.Client.{dhcpv6}.X_TP_EnableSLAAC", "1")
        ∷ [])
    ∷ set_step (
        ("Device.X_TP_DefaultGateway.IPv4DefaultGatewayType", "Manual")
        ∷ ("Device.X_TP_DefaultGateway.CustomIPv4DefaultGateway", "Internet_PPPoE")
        ∷ ("Device.X_TP_DefaultGateway.IPv6DefaultGatewayType", "Manual")
        ∷ ("Device.X_TP_DefaultGateway.CustomIPv6DefaultGateway", "Internet_PPPoE")
        ∷ [])
    ∷ []

unfoldable pub enable_step : String → ProvisionStep
enable_step gi = set_step (
    ("Device.DHCPv6.Client.{dhcpv6}.Enable", "1")
    ∷ ("Device.Ethernet.Link.{eth}.Enable", "1")
    ∷ ("Device.Ethernet.VLANTermination.{vterm}.Enable", "1")
    ∷ ("Device.IP.Interface.{ip}.Enable", "1")
    ∷ ("Device.NAT.InterfaceSetting.{nat}.Enable", "1")
    ∷ ("Device.PPP.Interface.{ppp}.Enable", "1")
    ∷ (("Device.X_TP_GPON.Link." +++ gi) +++ ".Enable", "1")
    ∷ ("Device.DeviceInfo.ProvisioningCode", "helix.rPPP")
    ∷ [])

-- What both flows do behind the GPON link.
unfoldable pub wan_steps : String → String → String → String → List ProvisionStep
unfolding ethernet_steps ppp_steps enable_step
wan_steps gi v username password =
    ethernet_steps gi v ++ (ppp_steps username password ++ (service_steps ++ (enable_step gi ∷ [])))

unfoldable pub legacy_flow : ℕ → ℕ → String → String → ProvisionFlow
unfolding gpon_steps wan_steps itoa
legacy_flow gpon_idx vlan username password = record {
  id = "legacy_wan_pppoe";
  description = "";
  steps =
      gpon_steps gpon_idx (itoa vlan) ++ wan_steps (itoa gpon_idx) (itoa vlan) username password;
}

unfoldable pub new_wan_provision : String → ℕ → ℕ → String → String → WanProvision
unfolding legacy_flow new_executor itoa
new_wan_provision task_id gpon_idx vlan username password = record {
  task_id = task_id;
  exe =
      new_executor (legacy_flow gpon_idx vlan username password) none
        (if ltb 0 gpon_idx then ("gpon_idx", itoa gpon_idx) ∷ [] else []);
}

abbrev pub delete_step : String → ProvisionStep
delete_step object = record { kind = delete; when = ""; object = object; as_var = ""; params = [] }

unfoldable pub delete_steps : ℕ → ℕ → ℕ → ℕ → List ProvisionStep
unfolding itoa
delete_steps ip ppp vlan_term eth_link =
    delete_step ("Device.IP.Interface." +++ itoa ip +++ ".")
    ∷ delete_step ("Device.PPP.Interface." +++ itoa ppp +++ ".")
    ∷ delete_step ("Device.Ethernet.VLANTermination." +++ itoa vlan_term +++ ".")
    ∷ delete_step ("Device.Ethernet.Link." +++ itoa eth_link +++ ".")
    ∷ []

unfoldable pub delete_and_add_flow : ℕ → ℕ → ℕ → ℕ → ℕ → ℕ → String → String → ProvisionFlow
unfolding delete_steps wan_steps itoa
delete_and_add_flow ip ppp vlan_term eth_link gpon_idx vlan username password = record {
  id = "legacy_wan_delete_add";
  description = "";
  steps =
      delete_steps ip ppp vlan_term eth_link
      ++ (gpon_step (itoa gpon_idx) (itoa vlan)
          ∷ wan_steps (itoa gpon_idx) (itoa vlan) username password);
}

unfoldable pub new_wan_provision_delete_and_add :
    String → ℕ → ℕ → ℕ → ℕ → ℕ → ℕ → String → String → WanProvision
unfolding delete_and_add_flow new_executor itoa
new_wan_provision_delete_and_add task_id ip ppp vlan_term eth_link gpon_idx vlan username password =
    record {
      task_id = task_id;
      exe =
          new_executor
            (delete_and_add_flow ip ppp vlan_term eth_link gpon_idx vlan username password) none
            (("gpon_idx", itoa gpon_idx) ∷ []);
    }
