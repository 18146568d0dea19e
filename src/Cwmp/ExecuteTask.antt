-- ===== src/Cwmp/ExecuteTask.antt =====
-- `executeTask` of internal/cwmp/session.go, for all tasks but those of WAN and WiFi: the request that a
-- task leads to. Requests can always be encoded; a snapshot before a reboot is not modelled.
pub mod Planned
mod Tests
use helix_acs.Prelude.{
  ℕ, String, Bool, true, false, not, List, [], ◌∷◌, Option, none, some, if◌then◌else◌, str_eq, ◌==◌,
  is_empty,
}
use helix_acs.Text.{◌+++◌, itoa, to_lower}
use helix_acs.Dict.{Dict, put}
use helix_acs.Datamodel.Model.{Mapper}
use helix_acs.Task.Model.{
  Task, TaskType, type_wifi, type_wan, type_lan, type_set_params, type_get_params, type_diagnostic,
  type_ping_test, type_traceroute, type_speed_test, type_connected_devices, type_cpe_stats,
  type_port_forwarding, type_get_diag_result, type_reboot, type_factory_reset, type_firmware,
}
use helix_acs.Task.Payload.{
  Decoder, FirmwarePayload, DiagnosticPayload, PortForwardingPayload, GetDiagResultPayload,
}
use helix_acs.Task.Executor.{Built, refused, nothing, built, build_set_params, build_get_params}
use helix_acs.Cwmp.Dispatch.{Execution, error_after, responded, envelope}

pub data Rpc : Type 0 where
  set_parameter_values : Dict String → Rpc
  get_parameter_values : List String → Rpc
  delete_object : String → Rpc
  reboot : String → Rpc
  factory_reset : Rpc
  -- The command key, the type of the file, and where it is.
  download : String → String → FirmwarePayload → Rpc

pub data Plan : Type 0 where
  refused_with : String → Plan
  -- The branches for WAN and WiFi tasks.
  elsewhere : Plan
  request : Rpc → Plan
  -- An object is added, and then configured, by its instance number.
  add_object_then : String → (ℕ → Dict String) → Plan

-- What the loop of the dispatch sees of it. A refused plan has not yet set the current task.
unfoldable pub execution_of : Plan → Option Execution
execution_of (refused_with e) = some (error_after false e)
execution_of elsewhere = none
execution_of (request r) = some envelope
execution_of (add_object_then path f) = some responded

abbrev pub set_params_plan : String → Built (Dict String) → Plan
set_params_plan id (refused e) = refused_with e
set_params_plan id nothing = refused_with ("task " +++ id +++ " produced no parameters")
set_params_plan id (built params) =
    if is_empty params
    then refused_with ("task " +++ id +++ " produced no parameters")
    else request (set_parameter_values params)

abbrev pub get_params_plan : String → Built (List String) → Plan
get_params_plan id (refused e) = refused_with e
get_params_plan id nothing = refused_with ("task " +++ id +++ " has no parameter names")
get_params_plan id (built names) =
    if is_empty names
    then refused_with ("task " +++ id +++ " has no parameter names")
    else request (get_parameter_values names)

unfoldable pub diagnostic_state_path : Mapper → String → String
unfolding to_lower
diagnostic_state_path mapper diag_type =
    (if str_eq (to_lower diag_type) "traceroute"
      then mapper.service.traceroute_base
      else mapper.service.ping_base)
    +++ "DiagnosticsState"

unfoldable pub diagnostic_plan : Mapper → Option DiagnosticPayload → Plan
unfolding diagnostic_state_path
diagnostic_plan mapper none = refused_with "unmarshal diagnostic payload"
diagnostic_plan mapper (some p) =
    request (set_parameter_values ((diagnostic_state_path mapper p.diag_type, "Requested") ∷ []))

abbrev pub diag_result_plan : String → Option GetDiagResultPayload → Plan
diag_result_plan id none = refused_with "unmarshal GetDiagResultPayload"
diag_result_plan id (some p) =
    if is_empty p.paths
    then refused_with ("GetDiagResult task " +++ id +++ " has no paths")
    else request (get_parameter_values p.paths)

abbrev pub is_off : Option Bool → Bool
is_off none = false
is_off (some enabled) = not enabled

unfoldable pub build_port_mapping_params : String → ℕ → PortForwardingPayload → Dict String
unfolding itoa
build_port_mapping_params base instance_num p =
    let prefix = base +++ itoa instance_num +++ "." in
    (prefix +++ "PortMappingEnabled", if is_off p.enabled then "0" else "1")
    ∷ (prefix +++ "PortMappingProtocol", if str_eq p.protocol "" then "TCP" else p.protocol)
    ∷ (prefix +++ "ExternalPort", itoa p.external_port)
    ∷ (prefix +++ "InternalClient", p.internal_ip)
    ∷ (prefix +++ "InternalPort", itoa p.internal_port)
    ∷ (prefix +++ "PortMappingDescription", p.description)
    ∷ (prefix +++ "PortMappingLeaseDuration", "0")
    ∷ []

abbrev pub list_plan : Built (List String) → Plan
list_plan (refused e) = refused_with "port_forwarding list produced no paths"
list_plan nothing = refused_with "port_forwarding list produced no paths"
list_plan (built names) =
    if is_empty names
    then refused_with "port_forwarding list produced no paths"
    else request (get_parameter_values names)

-- `paths` is what the executor asks for.
unfoldable pub port_forwarding_plan :
    Mapper → Built (List String) → Option PortForwardingPayload → Plan
unfolding build_port_mapping_params itoa
port_forwarding_plan mapper paths none = refused_with "unmarshal port_forwarding payload"
port_forwarding_plan mapper paths (some p) =
    let base = mapper.service.port_mapping_base in
    if str_eq p.action "add"
    then add_object_then base (λ n. build_port_mapping_params base n p)
    else if str_eq p.action "remove"
    then if p.instance_number == 0
      then refused_with "port_forwarding remove requires instance_number"
      else request (delete_object (base +++ itoa p.instance_number +++ "."))
    else if str_eq p.action "list"
    then list_plan paths
    else refused_with ("unknown port_forwarding action: " +++ p.action)

abbrev pub firmware_plan : String → Option FirmwarePayload → Plan
firmware_plan id none = refused_with "unmarshal firmware payload"
firmware_plan id (some p) =
    request
      (download id (if str_eq p.file_type "" then "1 Firmware Upgrade Image" else p.file_type) p)

unfoldable pub execute_task : Decoder → Mapper → Task → Plan
unfolding build_set_params build_get_params diagnostic_plan port_forwarding_plan
execute_task d mapper t = elim t.task_type [
  | type_wan ↦ elsewhere
  | type_wifi ↦ elsewhere
  | type_lan ↦ set_params_plan t.id (build_set_params d mapper t)
  | type_set_params ↦ set_params_plan t.id (build_set_params d mapper t)
  | type_ping_test ↦ set_params_plan t.id (build_set_params d mapper t)
  | type_traceroute ↦ set_params_plan t.id (build_set_params d mapper t)
  | type_speed_test ↦ set_params_plan t.id (build_set_params d mapper t)
  | type_diagnostic ↦ diagnostic_plan mapper (d.diagnostic t.payload)
  | type_get_params ↦ get_params_plan t.id (build_get_params d mapper t)
  | type_connected_devices ↦ get_params_plan t.id (build_get_params d mapper t)
  | type_cpe_stats ↦ get_params_plan t.id (build_get_params d mapper t)
  | type_get_diag_result ↦ diag_result_plan t.id (d.get_diag_result t.payload)
  | type_port_forwarding ↦
      port_forwarding_plan mapper (build_get_params d mapper t) (d.port_forwarding t.payload)
  | type_reboot ↦ request (reboot t.id)
  | type_factory_reset ↦ request factory_reset
  | type_firmware ↦ firmware_plan t.id (d.firmware t.payload)
  | _ ↦ refused_with "unknown task type"
]
