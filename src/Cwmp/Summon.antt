-- ===== src/Cwmp/Summon.antt =====
-- The summon of a device's parameters, of internal/cwmp/session.go: which requests are sent, over
-- which phases, and what is collected. Saving the parameters, and what is read from them, are not
-- modelled. Whether an envelope can be built is an argument.
pub mod Batches
pub mod Paths
mod Tests
use helix_acs.Prelude.{
  ℕ, zero, suc, ◌+◌, ◌*◌, String, Bool, true, false, not, ◌&&◌, ◌||◌, List, [], ◌∷◌, ◌++◌, Option,
  none, some, if◌then◌else◌, str_eq, leb, length, take, drop, select, any, map,
}
use helix_acs.Text.{to_lower, contains, has_prefix}
use helix_acs.Dict.{Dict, copy_into}
use helix_acs.Task.Model.{Task, TaskType, type_wifi, type_wan}
use helix_acs.Schema.Driver.{DeviceDriver}
use helix_acs.Cwmp.Soap.{has_suffix}

pub data Phase : Type 0 where
  -- 0 to 4.
  idle names_pending fetching targeted_pending targeted_sent : Phase

pub record Summon : Type 0 where
  pub phase : Phase
  pub mode : String
  pub schema_name : String
  pub target_paths : List String
  pub all_names : List String
  pub batch_idx : ℕ
  pub all_params : Dict String

pub data Reply : Type 0 where
  get_parameter_names : String → Reply
  get_parameter_values : List String → Reply
  -- The parameters of a full summon, or of a targeted one with its mode, are complete: they are
  -- used, and the next task is dispatched.
  summoned : Dict String → Reply
  targeted : String → Dict String → Reply
  -- `dispatchNextOrClose`
  dispatch : Reply
  no_content : Reply
  -- Not a matter of the summon.
  elsewhere : Reply

abbrev pub is_tr098_name : String → Bool
is_tr098_name schema_name = contains (to_lower schema_name) "tr098"

unfoldable pub summon_batch_size_for_schema : String → ℕ
unfolding to_lower contains
summon_batch_size_for_schema schema_name = if is_tr098_name schema_name then 5000 else 500

-- `mapper_is_tr098`: the session's mapper is a schema mapper of a TR-098 model.
unfoldable pub root_path : String → Bool → String
unfolding to_lower contains
root_path schema_name mapper_is_tr098 =
    if is_tr098_name schema_name || mapper_is_tr098 then "InternetGatewayDevice." else "Device."

unfoldable pub send_get_parameter_names_summon : Bool → Bool → Summon → Summon × Reply
unfolding root_path
send_get_parameter_names_summon built mapper_is_tr098 s =
    if built
    then (
      record s { phase = names_pending },
      get_parameter_names (root_path s.schema_name mapper_is_tr098),
    )
    else (record s { phase = idle }, no_content)

unfoldable pub send_targeted_summon : Bool → Summon → Summon × Reply
send_targeted_summon built s =
    if built
    then (record s { phase = targeted_sent }, get_parameter_values s.target_paths)
    else (record s { phase = idle }, dispatch)

unfoldable pub handle_targeted_summon_response : Dict String → Summon → Summon × Reply
handle_targeted_summon_response params s =
    (record s { phase = idle; mode = ""; target_paths = [] }, targeted s.mode params)

-- What an empty request leads to, where a summon is pending.
unfoldable pub on_empty_request : Bool → Bool → Summon → Summon × Reply
unfolding send_get_parameter_names_summon send_targeted_summon
on_empty_request built mapper_is_tr098 s = elim s.phase [
  | names_pending ↦ send_get_parameter_names_summon built mapper_is_tr098 s
  | targeted_pending ↦ send_targeted_summon built s
  | _ ↦ (s, elsewhere)
]

unfoldable pub finish_summon : Summon → Summon × Reply
finish_summon s =
    (record s { phase = idle; all_names = []; all_params = [] }, summoned s.all_params)

unfoldable pub send_next_summon_batch : (List String → Bool) → Summon → Summon × Reply
unfolding summon_batch_size_for_schema finish_summon
send_next_summon_batch built s =
    let size = summon_batch_size_for_schema s.schema_name in
    let start = s.batch_idx * size in
    let batch = take size (drop start s.all_names) in
    if leb (length s.all_names) start
    then finish_summon s
    else if built batch
    then (s, get_parameter_values batch)
    else (record s { phase = idle }, dispatch)

abbrev pub leaf_names : List String → List String
unfolding has_suffix
leaf_names names = select (λ name. not (has_suffix name ".")) names

abbrev pub fetch_from_start : List String → Summon → Summon
fetch_from_start leaves s = record s {
  phase = fetching;
  all_names = leaves;
  batch_idx = 0;
  all_params = [];
}

abbrev pub fetch_leaves : (List String → Bool) → Summon → List String → Summon × Reply
fetch_leaves built s [] = (record s { phase = idle }, dispatch)
fetch_leaves built s (n ∷ ns) = send_next_summon_batch built (fetch_from_start (n ∷ ns) s)

unfoldable pub handle_get_parameter_names_response :
    (List String → Bool) → List String → Summon → Summon × Reply
unfolding send_next_summon_batch
handle_get_parameter_names_response built names s = fetch_leaves built s (leaf_names names)

abbrev pub values_in_phase : (List String → Bool) → Dict String → Summon → Phase → Summon × Reply
values_in_phase built params s fetching =
    send_next_summon_batch built
      (record s { all_params = copy_into params s.all_params; batch_idx = suc s.batch_idx })
values_in_phase built params s targeted_sent = handle_targeted_summon_response params s
values_in_phase built params s _ = (s, elsewhere)

-- The part of a values response that belongs to a summon.
unfoldable pub handle_get_param_values_response :
    (List String → Bool) → Dict String → Summon → Summon × Reply
unfolding send_next_summon_batch handle_targeted_summon_response copy_into
handle_get_param_values_response built params s = values_in_phase built params s s.phase

abbrev pub paths_of_task : Bool → TaskType → List String
paths_of_task is_tr098 t = elim t [
  | type_wifi ↦ if is_tr098 then "InternetGatewayDevice.LANDevice." ∷ [] else "Device.WiFi." ∷ []
  | type_wan ↦
      if is_tr098
      then "InternetGatewayDevice.WANDevice." ∷ []
      else "Device.IP.Interface." ∷ "Device.PPP.Interface." ∷ "Device.Ethernet.VLANTermination."
        ∷ "Device.Ethernet.Link." ∷ []
  | _ ↦ []
]

-- The empty list where no task wants a targeted summon.
unfoldable pub targeted_summon_paths : String → List Task → List String
unfolding to_lower contains
targeted_summon_paths schema_name [] = []
targeted_summon_paths schema_name (t ∷ ts) =
    let later = targeted_summon_paths schema_name ts in
    elim (paths_of_task (is_tr098_name schema_name) t.task_type) [ [] ↦ later | p ∷ ps ↦ p ∷ ps ]

abbrev pub tr098_ui_paths : List String
tr098_ui_paths =
    "InternetGatewayDevice.DeviceInfo." ∷ "InternetGatewayDevice.WANDevice."
    ∷ "InternetGatewayDevice.LANDevice." ∷ "InternetGatewayDevice.ManagementServer." ∷ []

abbrev pub tr181_ui_paths : List String
tr181_ui_paths =
    "Device.DeviceInfo." ∷ "Device.IP.Interface." ∷ "Device.PPP.Interface." ∷ "Device.WiFi."
    ∷ "Device.WiFi.AccessPoint." ∷ "Device.Optical.Interface." ∷ "Device.Ethernet.VLANTermination."
    ∷ "Device.Ethernet.Link." ∷ "Device.ManagementServer." ∷ "Device.Hosts." ∷ []

abbrev pub extra_paths : Option DeviceDriver → List String
extra_paths none = []
extra_paths (some d) = d.discovery.extra_summon_paths

unfoldable pub ui_summon_paths : String → Option DeviceDriver → List String
unfolding to_lower contains
ui_summon_paths schema_name driver =
    (if is_tr098_name schema_name then tr098_ui_paths else tr181_ui_paths) ++ extra_paths driver

-- Nothing is scheduled without paths.
abbrev pub schedule_targeted : String → String → Summon → List String → Summon
schedule_targeted mode schema_name s [] = s
schedule_targeted mode schema_name s (p ∷ ps) = record s {
  phase = targeted_pending;
  mode = mode;
  schema_name = schema_name;
  target_paths = p ∷ ps;
}

-- What an Inform schedules: `throttled` says that the last summon is less than two minutes ago.
-- A full summon that was asked for dispatches at once; otherwise the Inform goes on.
unfoldable pub schedule_summon :
    Bool → Bool → String → Option DeviceDriver → List Task → Summon → Summon × Reply
unfolding ui_summon_paths targeted_summon_paths
schedule_summon full_summon_pending throttled schema_name driver pending s =
    if full_summon_pending
    then (record s { phase = names_pending; schema_name = schema_name }, dispatch)
    else if throttled
    then (
      schedule_targeted "task_discovery" schema_name s (targeted_summon_paths schema_name pending),
      elsewhere,
    )
    else (
      schedule_targeted "ui_refresh" schema_name s (ui_summon_paths schema_name driver),
      elsewhere,
    )

abbrev pub roots : Dict String → Bool × Bool
unfolding has_prefix
roots [] = (false, false)
roots ((k, v) ∷ params) =
    let r = roots params in
    if has_prefix k "InternetGatewayDevice."
    then (true, r.1)
    else if has_prefix k "Device."
    then (r.0, true)
    else r

unfoldable pub first_root_object : Dict String → String
unfolding has_prefix
first_root_object params =
    let r = roots params in if r.0 then "InternetGatewayDevice." else if r.1 then "Device." else ""
