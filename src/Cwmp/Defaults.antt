-- ===== src/Cwmp/Defaults.antt =====
-- The default parameters that a session enforces, in internal/cwmp/session.go: `injectDefaultParamTask`,
-- `expandVirtualParams` and `injectGlobalDefaultParams`, over the stored parameters.
pub mod Settled
mod Tests
use helix_acs.Prelude.{
  ℕ, String, Bool, true, false, not, ◌&&◌, ◌||◌, List, [], ◌∷◌, Option, none, some, if◌then◌else◌,
  str_eq, is_empty, any,
}
use helix_acs.Text.{◌+++◌, has_prefix, trim_space}
use helix_acs.Dict.{Dict, put, value_of, has_key}
use helix_acs.Task.Model.{Task}
use helix_acs.Task.Payload.{Encoder}
use helix_acs.Schema.Driver.{DeviceDriver}
use helix_acs.Parameter.Storage.{
  Storage, Outcome, get_all_parameters, get_parameter, update_parameters,
}
use helix_acs.Cwmp.Restore.{set_params_task}

-- The fields of a session that are used.
pub record DefaultsSession : Type 0 where
  pub is_bootstrap : Bool
  pub needs_global_defaults : Bool
  pub pending_provision_mark : Bool
  pub pending_tasks : List Task

-- Whether the device has the wanted value, up to white space around it.
unfoldable pub is_met : Dict String → String → String → Bool
unfolding value_of trim_space
is_met current path want = str_eq (trim_space (value_of path current)) (trim_space want)

-- The defaults that the device does not meet.
unfoldable pub unmet : Dict String → Dict String → Dict String
unfolding is_met put
unmet [] current = []
unmet ((path, want) ∷ defaults) current =
    let rest = unmet defaults current in
    if is_met current path want then rest else put path want rest

unfoldable pub inject_default_param_task :
    Encoder → String → Option DeviceDriver → Dict String → DefaultsSession → DefaultsSession
unfolding unmet
inject_default_param_task e serial none current s = s
inject_default_param_task e serial (some drv) current s =
    let to_set = unmet drv.default_params current in
    if is_empty drv.default_params || is_empty to_set then s else record s {
      pending_tasks =
          set_params_task e ("default_params_" +++ serial) serial to_set ∷ s.pending_tasks;
    }

-- The value and the candidates of a virtual parameter, as JSON reads them.
abbrev pub Spec : Type 0
Spec = String × List String

abbrev pub put_candidate : Bool → Dict String → String → String → Dict String → Dict String
unfolding has_prefix has_key put
put_candidate is_igd current v path out =
    if (if is_igd then has_prefix path "InternetGatewayDevice." else has_prefix path "Device.")
      || has_key path current
    then put path v out
    else out

unfoldable pub put_candidates :
    Bool → Dict String → String → List String → Dict String → Dict String
unfolding put_candidate
put_candidates is_igd current v [] out = out
put_candidates is_igd current v (path ∷ paths) out =
    put_candidates is_igd current v paths (put_candidate is_igd current v path out)

abbrev pub put_virtual : Bool → Dict String → Option Spec → Dict String → Dict String
unfolding put_candidates
put_virtual is_igd current none out = out
put_virtual is_igd current (some (v, paths)) out =
    if str_eq v "" then out else put_candidates is_igd current v paths out

unfoldable pub expand_virtual_params :
    (String → Option Spec) → Dict String → Dict String → Bool → Dict String
unfolding has_prefix put put_virtual
expand_virtual_params read [] current is_igd = []
expand_virtual_params read ((key, val) ∷ raw) current is_igd =
    let out = expand_virtual_params read raw current is_igd in
    if has_prefix key "_vp." then put_virtual is_igd current (read val) out else put key val out

-- Whether a path may be set on a device of the data model.
unfoldable pub is_of_model : Bool → String → Bool
unfolding has_prefix
is_of_model is_igd path =
    not (has_prefix path "_")
    && not (if is_igd then has_prefix path "Device." else has_prefix path "InternetGatewayDevice.")

unfoldable pub of_model : Bool → Dict String → Dict String
unfolding is_of_model
of_model is_igd [] = []
of_model is_igd ((path, want) ∷ expanded) =
    let rest = of_model is_igd expanded in
    if is_of_model is_igd path then (path, want) ∷ rest else rest

unfoldable pub is_igd_device : Dict String → Bool
unfolding has_prefix
is_igd_device current = any (λ e. has_prefix e.0 "InternetGatewayDevice.") current

unfoldable pub global_to_set : (String → Option Spec) → Dict String → Dict String → Dict String
unfolding expand_virtual_params of_model unmet is_igd_device
global_to_set read defaults current =
    let is_igd = is_igd_device current in
    unmet (of_model is_igd (expand_virtual_params read defaults current is_igd)) current

-- What the calls to the storage come to.
pub record Calls : Type 0 where
  pub cache_answers : Bool
  pub defaults_answered : Bool
  pub defaults_cached : Bool
  pub flag_answered : Bool
  pub mark_written : Outcome
  pub mark_invalidated : Bool

abbrev pub is_flag_set : Option String → Bool
is_flag_set none = false
is_flag_set (some v) = str_eq v "true"

module _ (e : Encoder) (read : String → Option Spec) (calls : Calls) (serial : String)
    (current : Dict String) where
  abbrev pub inject_to_set : Dict String → DefaultsSession → Storage → DefaultsSession × Storage
  unfolding update_parameters
  inject_to_set to_set s db =
      if is_empty to_set
      then (
        record s { needs_global_defaults = false },
        (update_parameters calls.mark_written calls.mark_invalidated serial
            (("_helix.provisioned", "true") ∷ []) db).0,
      )
      else (
        record s {
          pending_tasks =
              set_params_task e ("global_defaults_" +++ serial) serial to_set ∷ s.pending_tasks;
          pending_provision_mark = true;
          needs_global_defaults = false;
        },
        db,
      )

  abbrev pub inject_defaults :
      Option (Dict String) → DefaultsSession → Storage → DefaultsSession × Storage
  unfolding global_to_set get_parameter inject_to_set
  inject_defaults none s db = (s, db)
  inject_defaults (some defaults) s db =
      let provisioned =
        is_flag_set (get_parameter calls.flag_answered serial "_helix.provisioned" db) in
      if is_empty defaults || (not s.is_bootstrap && not s.needs_global_defaults && provisioned)
      then (s, db)
      else inject_to_set (global_to_set read defaults current) s db

  unfoldable pub inject_global_default_params :
      DefaultsSession → Storage → DefaultsSession × Storage
  unfolding get_all_parameters inject_defaults
  inject_global_default_params s db =
      let (db', defaults) =
        get_all_parameters calls.cache_answers calls.defaults_answered calls.defaults_cached
          "__system__" db in
      if str_eq serial "" then (s, db) else inject_defaults defaults s db'
