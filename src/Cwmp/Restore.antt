-- ===== src/Cwmp/Restore.antt =====
-- `restoreParameters`, `restoreWiFiConfig` and `restoreWANConfig` of internal/cwmp/session.go: the tasks that
-- bring a device's configuration back from a snapshot. JSON is written by the encoder, and the mapper that is
-- rebuilt from the snapshot is an argument. What is given to the queue's Enqueue is a list, since whether
-- it succeeds is only logged.
pub mod Wifi
pub mod Wan
mod Tests
use helix_acs.Prelude.{
  ℕ, String, Bool, true, false, not, ◌&&◌, ◌||◌, List, [], ◌∷◌, ◌++◌, Option, none, some,
  if◌then◌else◌, str_eq, any, is_empty, ◌==◌,
}
use helix_acs.Text.{◌+++◌, itoa, contains, to_lower, equal_fold}
use helix_acs.Text.Numbers.{atoi}
use helix_acs.Dict.{Dict, find, put, value_of}
use helix_acs.Datamodel.Model.{Mapper}
use helix_acs.Task.Model.{
  Task, TaskType, type_set_params, type_wifi, type_wan, status_pending, WanPayload,
}
use helix_acs.Task.Payload.{Encoder, SetParamsPayload, WifiPayload}
use helix_acs.Cwmp.Soap.{has_suffix}
use helix_acs.Cwmp.Summon.{first_root_object}
use helix_acs.Cwmp.VlanChain.{resolve_vlan_from_chain, positive}

abbrev pub critical_patterns : List String
critical_patterns =
    ".SSID" ∷ "PreSharedKey" ∷ "ModeEnabled" ∷ "WPAAuthenticationMode" ∷ "WPAEncryptionModes"
    ∷ "BeaconType" ∷ ".Username" ∷ ".Password" ∷ "VLANID" ∷ "ProvisioningCode" ∷ []

abbrev pub excluded_parts : List String
excluded_parts =
    ".Stats." ∷ ".Status" ∷ ".AutoDetect" ∷ ".ConfigFile" ∷ "ManagementServer" ∷ ".MultiAP."
    ∷ ".DataElements." ∷ "Users.User." ∷ []

abbrev pub excluded_suffixes : List String
excluded_suffixes = ".BSSID" ∷ ".Name" ∷ ".LastChange" ∷ "NumberOfEntries" ∷ "PasswordReset" ∷ []

abbrev pub primary_instances : List String
primary_instances =
    "WiFi.SSID.1." ∷ "WiFi.SSID.2." ∷ "WiFi.AccessPoint.1." ∷ "WiFi.AccessPoint.2." ∷ []

unfoldable pub is_critical : String → Bool
unfolding contains has_suffix
is_critical key =
    any (contains key) critical_patterns
    && not (any (contains key) excluded_parts)
    && not (any (has_suffix key) excluded_suffixes)
    && (not (contains key "WiFi.") || any (contains key) primary_instances)

unfoldable pub filter_critical_parameters : Dict String → Dict String
unfolding is_critical put
filter_critical_parameters [] = []
filter_critical_parameters ((k, v) ∷ params) =
    let critical = filter_critical_parameters params in
    if is_critical k then put k v critical else critical

-- A task as the handlers write it; the queue sets the other fields.
abbrev pub restore_task : String → String → TaskType → String → Task
restore_task id serial task_type payload = record {
  id = id;
  serial = serial;
  task_type = task_type;
  payload = payload;
  status = status_pending;
  created_at = 0;
  executed_at = none;
  completed_at = none;
  result = none;
  error = "";
  attempts = 0;
  max_attempts = 0;
}

abbrev pub set_params_task : Encoder → String → String → Dict String → Task
set_params_task e id serial params =
    restore_task id serial type_set_params (e.set_params_json (record { parameters = params }))

unfoldable pub restore_parameters : Encoder → ℕ → String → Dict String → String → List Task
unfolding filter_critical_parameters itoa
restore_parameters e now serial params snapshot_type =
    let critical = filter_critical_parameters params in
    if is_empty params || is_empty critical
    then []
    else set_params_task e ("restore_" +++ snapshot_type +++ "_" +++ itoa now) serial critical ∷ []

unfoldable pub device_sec_to_payload_sec : String → String
device_sec_to_payload_sec device_sec =
    if str_eq device_sec "WPA2-Personal"
    then "WPA2-PSK"
    else if str_eq device_sec "WPA-WPA2-Personal"
    then "WPA-WPA2-PSK"
    else if str_eq device_sec "WPA-Personal"
    then "WPA-PSK"
    else device_sec

-- The security mode of a restored band, by what the snapshot has of it.
unfoldable pub restored_security : String → String → String
unfolding device_sec_to_payload_sec
restored_security password device_sec =
    let security = device_sec_to_payload_sec device_sec in
    if not (str_eq password "") && (str_eq security "" || str_eq security "None")
    then "WPA2-PSK"
    else security

abbrev pub truth : String → Bool
unfolding equal_fold
truth v = equal_fold v "true" || str_eq v "1"

abbrev pub steering_of : Option String → Option Bool
unfolding truth
steering_of none = none
steering_of (some v) = if str_eq v "" then none else some (truth v)

unfoldable pub extract_band_steering_status : Dict String → Mapper → Option Bool
unfolding find steering_of
extract_band_steering_status params mapper =
    let path = mapper.service.band_steering in
    if str_eq path "" then none else steering_of (find path params)

-- One band, by its number; without an SSID in the snapshot it is left out.
unfoldable pub wifi_payload : Mapper → Dict String → ℕ → String → Option Bool → List WifiPayload
unfolding value_of restored_security
wifi_payload mapper snapshot i band steering =
    let ssid = value_of (mapper.wifi.ssid i) snapshot in
    let password = value_of (mapper.wifi.password i) snapshot in
    let security = restored_security password (value_of (mapper.wifi.security_mode i) snapshot) in
    if str_eq ssid ""
    then []
    else record {
      band = band;
      ssid = ssid;
      password = password;
      security = security;
      channel = 0;
      enabled = none;
      band_steering_enabled = steering;
    }
      ∷ []

unfoldable pub wifi_payloads : Mapper → Dict String → List WifiPayload
unfolding wifi_payload extract_band_steering_status
wifi_payloads mapper snapshot =
    wifi_payload mapper snapshot 0 "2.4" (extract_band_steering_status snapshot mapper)
    ++ wifi_payload mapper snapshot 1 "5" none

abbrev pub wifi_tasks : Encoder → ℕ → String → List WifiPayload → List Task
wifi_tasks e now serial [] = []
wifi_tasks e now serial (p ∷ ps) =
    restore_task
      ("restore_wifi_" +++ (if str_eq p.band "2.4" then "2_4" else p.band) +++ "_" +++ itoa now)
      serial type_wifi (e.wifi_json p)
    ∷ wifi_tasks e now serial ps

unfoldable pub provisioning_code_path : Dict String → String
unfolding first_root_object
provisioning_code_path snapshot =
    if str_eq (first_root_object snapshot) "InternetGatewayDevice."
    then "InternetGatewayDevice.DeviceInfo.ProvisioningCode"
    else "Device.DeviceInfo.ProvisioningCode"

-- The identity of the device, by which its driver is found.
unfoldable pub snapshot_identity : Dict String → String × String
unfolding value_of first_root_object
snapshot_identity snapshot =
    let of_root = λ (root : String) (leaf : String). value_of (root +++ leaf) snapshot in
    let choose = λ (leaf : String).
      if str_eq (first_root_object snapshot) "InternetGatewayDevice."
        && not (str_eq (of_root "InternetGatewayDevice." leaf) "")
      then of_root "InternetGatewayDevice." leaf
      else of_root "Device." leaf in
    (choose "DeviceInfo.Manufacturer", choose "DeviceInfo.ProductClass")

-- `rebuild` is the live mapper with the instances and the driver of the snapshot, by the identity.
unfoldable pub restore_wifi_config :
    Encoder → ℕ → (String × String → Dict String → Mapper) → String → Dict String → List Task
unfolding wifi_payloads provisioning_code_path value_of itoa snapshot_identity
restore_wifi_config e now rebuild serial snapshot =
    let path = provisioning_code_path snapshot in
    let prov_code = value_of path snapshot in
    wifi_tasks e now serial (wifi_payloads (rebuild (snapshot_identity snapshot) snapshot) snapshot)
    ++ (if str_eq prov_code ""
        then []
        else set_params_task e ("restore_provcode_" +++ itoa now) serial ((path, prov_code) ∷ [])
          ∷ [])

-- What the loop over the snapshot has found.
pub record Found : Type 0 where
  pub username : String
  pub password : String
  pub lower_layers : String

unfoldable pub note_ppp : String → String → Found → Found
unfolding contains has_suffix to_lower
note_ppp key val f =
    let lower = to_lower key in
    if has_suffix lower ".username" && contains lower "ppp"
    then (if not (str_eq val "") && str_eq f.username "" then record f { username = val } else f)
    else if has_suffix lower ".password" && contains lower "ppp"
    then (if not (str_eq val "") && str_eq f.password "" then record f { password = val } else f)
    else if has_suffix lower ".lowerlayers" && contains lower "ppp"
    then (if str_eq val "" then f else record f { lower_layers = val })
    else f

unfoldable pub find_ppp : Dict String → Found → Found
unfolding note_ppp
find_ppp [] f = f
find_ppp ((k, v) ∷ snapshot) f = find_ppp snapshot (note_ppp k v f)

abbrev pub stored_credentials : Dict String → Found
unfolding value_of
stored_credentials snapshot = record {
  username = value_of "_helix.provision.pppoe_username" snapshot;
  password = value_of "_helix.provision.pppoe_password" snapshot;
  lower_layers = "";
}

-- The VLANs of all VLANTerminations.
unfoldable pub vlan_candidates : Dict String → List ℕ
unfolding contains has_suffix to_lower atoi
vlan_candidates [] = []
vlan_candidates ((k, v) ∷ snapshot) =
    let later = vlan_candidates snapshot in
    if has_suffix (to_lower k) ".vlanid" && contains (to_lower k) "vlantermination"
    then elim (positive (atoi v)) [ none ↦ later | some n ↦ n ∷ later ]
    else later

abbrev pub only_one : List ℕ → ℕ
only_one [] = 0
only_one (n ∷ []) = n
only_one (n ∷ m ∷ ns) = 0

unfoldable pub wan_vlan : Dict String → String → ℕ
unfolding resolve_vlan_from_chain vlan_candidates
wan_vlan snapshot lower_layers =
    let vlan = resolve_vlan_from_chain snapshot lower_layers in
    if vlan == 0 then only_one (vlan_candidates snapshot) else vlan

unfoldable pub wan_payload : Dict String → Option WanPayload
unfolding find_ppp stored_credentials wan_vlan
wan_payload snapshot =
    let f = find_ppp snapshot (stored_credentials snapshot) in
    if str_eq f.username ""
    then none
    else some (record {
      connection_type = "pppoe";
      username = f.username;
      password = f.password;
      ip_address = "";
      subnet_mask = "";
      gateway = "";
      dns1 = "";
      dns2 = "";
      vlan = wan_vlan snapshot f.lower_layers;
      mtu = 0;
      ipv6_enabled = some true;
    })

unfoldable pub restore_wan_config : Encoder → ℕ → String → Dict String → List Task
unfolding wan_payload itoa
restore_wan_config e now serial snapshot = elim (wan_payload snapshot) [
  | none ↦ []
  | some p ↦ restore_task ("restore_wan_" +++ itoa now) serial type_wan (e.wan_json p) ∷ []
]
