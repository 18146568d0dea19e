-- ===== src/Cwmp/WifiUpdate.antt =====
-- `buildWiFiParamsFromDriverFlow` and the WiFi branch of `executeTask` in internal/cwmp/session.go.
mod Tests
use helix_acs.Prelude.{
  ℕ, String, Bool, true, false, not, ◌&&◌, ◌||◌, List, [], ◌∷◌, Option, none, some, if◌then◌else◌,
  str_eq, ◌==◌, is_empty,
}
use helix_acs.Text.{◌+++◌, itoa, trim_space}
use helix_acs.Dict.{Dict}
use helix_acs.Datamodel.Model.{Mapper}
use helix_acs.Task.Payload.{WifiPayload}
use helix_acs.Schema.Flow.{set, add_object, delete}
use helix_acs.Schema.Driver.{DeviceDriver, map_security_mode, get_provision_flow}
use helix_acs.Schema.Provision.{ResolvedStep, new_executor, current_step}
use helix_acs.Task.Executor.{Built, refused, nothing, built}
use helix_acs.Cwmp.ExecuteTask.{Plan, refused_with, set_params_plan}

abbrev pub format_bool : Bool → String
format_bool true = "true"
format_bool false = "false"

abbrev pub given_bool : Option Bool → String
given_bool none = ""
given_bool (some b) = format_bool b

abbrev pub is_on : Option Bool → Bool
is_on none = false
is_on (some b) = b

unfoldable pub security_mode : DeviceDriver → WifiPayload → String
unfolding map_security_mode
security_mode drv p =
    if not (str_eq p.security "")
    then (if str_eq p.security "None" then "None" else map_security_mode (some drv) p.security)
    else if not (str_eq p.password "")
    then map_security_mode (some drv) "WPA2-PSK"
    else ""

unfoldable pub sent_password : DeviceDriver → WifiPayload → String
unfolding security_mode
sent_password drv p = if str_eq (security_mode drv p) "None" then "" else p.password

-- A value whose path is empty is empty.
unfoldable pub value_if_path : String → String → String
unfolding trim_space
value_if_path path val = if str_eq (trim_space path) "" then "" else val

-- The variables of the flow.
unfoldable pub wifi_vars : DeviceDriver → Mapper → WifiPayload → Dict String
unfolding security_mode sent_password value_if_path trim_space itoa
wifi_vars drv mapper p =
    let band = if str_eq p.band "5" then 1 else 0 in
    let other = if band == 1 then 0 else 1 in
    let mode = security_mode drv p in
    let password = sent_password drv p in
    let steering_path = trim_space drv.wifi.band_steering_path in
    let steering = if str_eq steering_path "" then "" else given_bool p.band_steering_enabled in
    let synced = λ (path : String). if is_on p.band_steering_enabled then trim_space path else "" in
    let sync = λ (v : String). if is_on p.band_steering_enabled then v else "" in
    let ssid_path = trim_space (mapper.wifi.ssid band) in
    let security_path = trim_space (mapper.wifi.security_mode band) in
    let password_path = trim_space (mapper.wifi.password band) in
    let enabled_path = trim_space (mapper.wifi.enabled band) in
    let channel_path = trim_space (mapper.wifi.channel band) in
    let sync_ssid_path = synced (mapper.wifi.ssid other) in
    let sync_security_path = synced (mapper.wifi.security_mode other) in
    let sync_password_path = synced (mapper.wifi.password other) in
    ("band_steering_path", steering_path)
    ∷ ("band_steering_enabled", value_if_path steering_path steering)
    ∷ ("ssid_path", ssid_path)
    ∷ ("ssid", value_if_path ssid_path p.ssid)
    ∷ ("security_path", security_path)
    ∷ ("security_mode", value_if_path security_path mode)
    ∷ ("password_path", password_path)
    ∷ ("password", value_if_path password_path password)
    ∷ ("enabled_path", enabled_path)
    ∷ ("enabled", value_if_path enabled_path (given_bool p.enabled))
    ∷ ("channel_path", channel_path)
    ∷ ("channel", value_if_path channel_path (if p.channel == 0 then "" else itoa p.channel))
    ∷ ("sync_ssid_path", sync_ssid_path)
    ∷ ("sync_ssid", value_if_path sync_ssid_path (sync p.ssid))
    ∷ ("sync_security_path", sync_security_path)
    ∷ ("sync_security_mode", value_if_path sync_security_path (sync mode))
    ∷ ("sync_password_path", sync_password_path)
    ∷ ("sync_password", value_if_path sync_password_path (sync password))
    ∷ []

abbrev pub first_set : String → Option ResolvedStep → Built (Dict String)
first_set id none = refused ("driver wifi flow " +++ id +++ " has no executable step")
first_set id (some step) = elim step.kind [
  | set ↦ built step.params
  | add_object ↦ refused ("driver wifi flow " +++ id +++ " must start with set step")
  | delete ↦ refused ("driver wifi flow " +++ id +++ " must start with set step")
]

unfoldable pub build_wifi_params_from_driver_flow :
    DeviceDriver → Mapper → WifiPayload → Built (Dict String)
unfolding get_provision_flow new_executor current_step wifi_vars
build_wifi_params_from_driver_flow drv mapper p =
    elim (get_provision_flow (some drv) "wifi_update") [
      | none ↦ refused ("driver " +++ drv.id +++ " has no provision flow wifi_update")
      | some flow ↦
          first_set flow.id (current_step (new_executor flow (some drv) (wifi_vars drv mapper p)))
    ]

unfoldable pub wifi_plan : Option DeviceDriver → Mapper → String → Option WifiPayload → Plan
unfolding get_provision_flow build_wifi_params_from_driver_flow
wifi_plan drv mapper id none = refused_with "unmarshal wifi payload"
wifi_plan none mapper id (some p) = refused_with "wifi update requires device driver"
wifi_plan (some drv) mapper id (some p) =
    set_params_plan id (build_wifi_params_from_driver_flow drv mapper p)
