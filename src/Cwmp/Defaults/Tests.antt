-- ===== src/Cwmp/Defaults/Tests.antt =====
-- Tests and examples of the defaults.
use helix_acs.Prelude.{
  ◌≡◌, refl, String, true, false, [], ◌∷◌, Option, some, none, is_empty, if◌then◌else◌,
}
use helix_acs.Text.{◌+++◌}
use helix_acs.Dict.{Dict, find, copy_into}
use helix_acs.Task.Payload.{Encoder}
use helix_acs.Schema.Driver.{DeviceDriver}
use helix_acs.Schema.Driver.Tests.{driver_with}
use helix_acs.Parameter.Storage.{Storage, executed, get_parameter}
use helix_acs.Cwmp.Restore.{set_params_task}
use helix_acs.Cwmp.Defaults.{
  DefaultsSession, Spec, Calls, is_met, unmet, inject_default_param_task, global_to_set,
  inject_global_default_params,
}
use helix_acs.Cwmp.Defaults.Settled.{inject_default_param_task-settled}

abbrev encoder : Encoder
encoder = record {
  wifi_json = λ _. "";
  wan_json = λ _. "";
  lan_json = λ _. "";
  set_params_json = λ _. "params";
  firmware_json = λ _. "";
  diagnostic_json = λ _. "";
  ping_test_json = λ _. "";
  traceroute_json = λ _. "";
  speed_test_json = λ _. "";
  port_forwarding_json = λ _. "";
  empty_json = "";
}

abbrev driver : DeviceDriver
driver = driver_with "" [] (("Device.A", "1") ∷ ("Device.B", "2") ∷ []) []

abbrev session : DefaultsSession
session = record {
  is_bootstrap = false;
  needs_global_defaults = false;
  pending_provision_mark = false;
  pending_tasks = [];
}

abbrev current : Dict String
current = ("Device.A", " 1 ") ∷ ("Device.C", "x") ∷ []

only_b : unmet driver.default_params current ≡ ("Device.B", "2") ∷ []
unfolding unmet
only_b = refl

abbrev read : String → Option Spec
read v = some (v, "InternetGatewayDevice.V" ∷ "Device.V" ∷ [])

-- A device that is not of TR-098 gets the candidate of its own model, and no internal key.
virtual_set :
    global_to_set read
      (("_vp.v", "7") ∷ ("_helix.provisioned", "true") ∷ ("Device.C", "x") ∷ [])
      current
    ≡ ("Device.V", "7") ∷ []
unfolding global_to_set
virtual_set = refl

abbrev calls : Calls
calls = record {
  cache_answers = true;
  defaults_answered = true;
  defaults_cached = true;
  flag_answered = true;
  mark_written = executed;
  mark_invalidated = true;
}

abbrev storage : Storage
storage = record {
  rows = record { device_serial = "__system__"; param_name = "Device.C"; param_value = "x" } ∷ [];
  snapshots = [];
  samples = [];
  cache = [];
}

-- A device that meets the defaults is marked at once.
marked :
    get_parameter true "cpe" "_helix.provisioned"
      (inject_global_default_params encoder read calls "cpe" current session storage).1
    ≡ some "true"
unfolding inject_global_default_params get_parameter
marked = refl

inject_default_param_task-settled_example :
    let to_set = unmet driver.default_params current in
    let after = copy_into to_set current in
    ((inject_default_param_task encoder "cpe" (some driver) current session).pending_tasks ≡ (
      if is_empty to_set
      then session.pending_tasks
      else set_params_task encoder ("default_params_" +++ "cpe") "cpe" to_set
        ∷ session.pending_tasks))
    × ((path want : String)
        → find path driver.default_params ≡ some want
        → is_met after path want ≡ true)
    × ((path : String)
        → find path driver.default_params ≡ none
        → find path after ≡ find path current)
    × (inject_default_param_task encoder "cpe" (some driver) after session ≡ session)
unfolding find
inject_default_param_task-settled_example =
    inject_default_param_task-settled encoder "cpe" driver current session (refl, (refl, tt))
