-- ===== src/Task/Executor.antt =====
-- internal/task/executor.go: the parameters that a task sets or asks for. The payload is decoded by an
-- argument. The hints of a driver are kept by the executor, which does not read them.
pub mod Diagnostics
mod Tests
use helix_acs.Prelude.{
  ℕ, String, Bool, true, false, List, [], ◌∷◌, Option, none, some, if◌then◌else◌, str_eq, ltb,
  is_empty,
}
use helix_acs.Text.{◌+++◌, itoa}
use helix_acs.Dict.{Dict, put, copy_into}
use helix_acs.Datamodel.Model.{Mapper}
use helix_acs.Task.Model.{
  Task, TaskType, WanPayload, type_wifi, type_wan, type_lan, type_set_params, type_get_params,
  type_diagnostic, type_ping_test, type_traceroute, type_speed_test, type_connected_devices,
  type_cpe_stats, type_port_forwarding, type_web_admin,
}
use helix_acs.Task.Payload.{
  LanPayload, SetParamsPayload, GetParamsPayload, PingTestPayload, TraceroutePayload,
  SpeedTestPayload, PortForwardingPayload, WebAdminPayload, Decoder,
}

-- What a Go function returns as a value and an error: an error, nil, or a value.
pub data Built {ℓ} (A : Type ℓ) : Type ℓ where
  refused : String → Built A
  nothing : Built A
  built : A → Built A

-- A payload that cannot be read is an error; otherwise the builder goes on with it.
abbrev pub decoded {ℓ κ} : {A : Type ℓ} {B : Type κ} → String → (A → Built B) → Option A → Built B
decoded name f none = refused ("unmarshal " +++ name +++ " payload")
decoded name f (some p) = f p

-- if v != "" { params[path] = v }
abbrev pub put_given : String → String → Dict String → Dict String
put_given path v params = if str_eq v "" then params else put path v params

-- if n > 0 { params[path] = strconv.Itoa(n) }
abbrev pub put_positive : String → ℕ → Dict String → Dict String
put_positive path n params = if ltb 0 n then put path (itoa n) params else params

abbrev pub itoa_or : ℕ → String → String
itoa_or n fallback = if ltb 0 n then itoa n else fallback

unfoldable pub wan_params : Mapper → WanPayload → Built (Dict String)
unfolding put
wan_params mapper p =
    let params = put_given mapper.wan.ip_address p.ip_address (
      put_given mapper.wan.pppoe_pass p.password (
        put_given mapper.wan.pppoe_user p.username
          (put_given mapper.wan.connection_type p.connection_type []))) in
    if is_empty params then refused "wan payload has no settable fields" else built params

unfoldable pub lan_params : Mapper → LanPayload → Dict String
unfolding put
lan_params mapper p = put_given mapper.lan.dns p.dns_server (
    put_given mapper.lan.dhcp_max_address p.dhcp_end (
      put_given mapper.lan.dhcp_min_address p.dhcp_start (
        put_given mapper.lan.subnet_mask p.subnet_mask (
          put_given mapper.lan.ip_address p.ip_address
            (put mapper.lan.dhcp_server_enable (if p.dhcp_enabled then "true" else "false") [])))))

-- The `DiagnosticsState` of a request, and its target, below a base.
abbrev pub requested : String → String → String → Dict String
requested base target_leaf target =
    put (base +++ "DiagnosticsState") "Requested" (put (base +++ target_leaf) target [])

unfoldable pub ping_params : String → PingTestPayload → Dict String
unfolding put itoa
ping_params base p = put_positive (base +++ "DSCP") p.dscp (
    put_positive (base +++ "Timeout") p.timeout (
      put_positive (base +++ "DataBlockSize") p.packet_size (
        put (base +++ "NumberOfRepetitions") (itoa_or p.count "4") (requested base "Host" p.host))))

unfoldable pub traceroute_params : String → TraceroutePayload → Dict String
unfolding put itoa
traceroute_params base p = put_positive (base +++ "DSCP") p.dscp (
    put_positive (base +++ "DataBlockSize") p.packet_size (
      put_positive (base +++ "Timeout") p.timeout
        (put (base +++ "MaxHopCount") (itoa_or p.max_hops "30") (requested base "Host" p.host))))

unfoldable pub speed_test_params : String → SpeedTestPayload → Built (Dict String)
unfolding put itoa
speed_test_params base p =
    if str_eq p.download_url ""
    then refused "speed_test payload requires download_url"
    else built (
        put_positive (base +++ "DSCP") p.dscp (
          put_positive (base +++ "TestFileLength") p.file_size
            (requested base "DownloadURL" p.download_url)))

unfoldable pub set_params : SetParamsPayload → Built (Dict String)
unfolding copy_into
set_params p =
    if is_empty p.parameters
    then refused "set_parameters payload has no parameters"
    else built (copy_into p.parameters [])

unfoldable pub web_admin_params : String → WebAdminPayload → Built (Dict String)
web_admin_params path p =
    if str_eq p.password ""
    then refused "web_admin payload requires password"
    else if str_eq path ""
    then refused
        "web admin password path not supported by this device's data-model (TR-098); use set_parameters with the vendor-specific path"
    else built ((path, p.password) ∷ [])

unfoldable pub build_set_params : Decoder → Mapper → Task → Built (Dict String)
unfolding wan_params lan_params ping_params traceroute_params speed_test_params set_params
    web_admin_params
build_set_params d mapper t = elim t.task_type [
  | type_wifi ↦ refused "wifi set params is handled by driver YAML flow"
  | type_wan ↦ decoded "wan" (wan_params mapper) (d.wan t.payload)
  | type_lan ↦ decoded "lan" (λ p. built (lan_params mapper p)) (d.lan t.payload)
  | type_set_params ↦ decoded "set_parameters" set_params (d.set_params t.payload)
  | type_ping_test ↦
      decoded "ping_test" (λ p. built (ping_params mapper.service.ping_base p))
        (d.ping_test t.payload)
  | type_traceroute ↦
      decoded "traceroute" (λ p. built (traceroute_params mapper.service.traceroute_base p))
        (d.traceroute t.payload)
  | type_speed_test ↦
      decoded "speed_test" (speed_test_params mapper.service.download_base) (d.speed_test t.payload)
  | type_web_admin ↦
      decoded "web_admin" (web_admin_params mapper.service.web_admin_password)
        (d.web_admin t.payload)
  | _ ↦ nothing
]

unfoldable pub build_cpe_stats_paths : Mapper → List String
build_cpe_stats_paths mapper =
    mapper.system.cpe_uptime ∷ mapper.system.ram_total ∷ mapper.system.ram_free
    ∷ mapper.wan.bytes_sent ∷ mapper.wan.bytes_received ∷ mapper.wan.packets_sent
    ∷ mapper.wan.packets_received ∷ mapper.wan.errors_sent ∷ mapper.wan.errors_received
    ∷ mapper.wan.status ∷ mapper.wan.uptime ∷ []

unfoldable pub get_params : GetParamsPayload → Built (List String)
get_params p =
    if is_empty p.parameters
    then refused "get_parameters payload has no parameter names"
    else built p.parameters

unfoldable pub port_forwarding_paths : Mapper → PortForwardingPayload → Built (List String)
port_forwarding_paths mapper p =
    if str_eq p.action "list" then built (mapper.service.port_mapping_base ∷ []) else nothing

unfoldable pub build_get_params : Decoder → Mapper → Task → Built (List String)
unfolding get_params port_forwarding_paths build_cpe_stats_paths
build_get_params d mapper t = elim t.task_type [
  | type_get_params ↦ decoded "get_parameters" get_params (d.get_params t.payload)
  | type_connected_devices ↦ built (
      mapper.system.hosts_base
      ∷ (if mapper.supports_wifi_access_point
          then "Device.WiFi.AccessPoint."
          else "InternetGatewayDevice.LANDevice.1.WLANConfiguration.")
      ∷ [])
  | type_cpe_stats ↦ built (build_cpe_stats_paths mapper)
  | type_port_forwarding ↦
      decoded "port_forwarding" (port_forwarding_paths mapper) (d.port_forwarding t.payload)
  | _ ↦ nothing
]

unfoldable pub build_diag_result_paths : TaskType → Mapper → List String
build_diag_result_paths t mapper = elim t [
  | type_ping_test ↦ ping_result_paths mapper.service.ping_base
  | type_diagnostic ↦ ping_result_paths mapper.service.ping_base
  | type_traceroute ↦
      let base = mapper.service.traceroute_base in
      (base +++ "DiagnosticsState")
      ∷ (base +++ "ResponseTime")
      ∷ (base +++ "NumberOfRouteHops")
      ∷ (base +++ "RouteHops.")
      ∷ []
  | type_speed_test ↦
      let base = mapper.service.download_base in
      (base +++ "DiagnosticsState")
      ∷ (base +++ "BOMTime")
      ∷ (base +++ "EOMTime")
      ∷ (base +++ "TestBytesReceived")
      ∷ (base +++ "TotalBytesReceived")
      ∷ []
  | _ ↦ []
]
  where
    ping_result_paths : String → List String
    ping_result_paths base =
        (base +++ "DiagnosticsState")
        ∷ (base +++ "SuccessCount")
        ∷ (base +++ "FailureCount")
        ∷ (base +++ "AverageResponseTime")
        ∷ (base +++ "MinimumResponseTime")
        ∷ (base +++ "MaximumResponseTime")
        ∷ []
