-- ===== src/Cwmp/WanProvision.antt =====
-- internal/cwmp/wan_provision.go: the state machine that drives a provisioning flow through the
-- responses of a CPE. Of its task only the identifier is used. A request stands for its envelope,
-- and the identifier that `uuid.NewString` gives it is an argument.
pub mod Script
pub mod Complete
mod Tests
use helix_acs.Prelude.{
  ℕ, String, Bool, true, false, List, [], ◌∷◌, Option, none, some, if◌then◌else◌,
}
use helix_acs.Text.{◌+++◌}
use helix_acs.Dict.{Dict}
use helix_acs.Schema.Flow.{ProvisionStepKind, add_object, set, delete, ProvisionStep, ProvisionFlow}
use helix_acs.Schema.Driver.{DeviceDriver, get_provision_flow}
use helix_acs.Schema.Provision.{
  ResolvedStep, ProvisionExecutor, new_executor, done, current_step, advance, advance_add_object,
}

pub data Request : Type 0 where
  add_object_request delete_object_request : String → String → Request
  set_parameter_values_request : String → Dict String → Request

-- What a Go function returns as `([]byte, error)`: an error, no envelope, or an envelope.
pub data Outcome : Type 0 where
  failed : String → Outcome
  complete : Outcome
  next : Request → Outcome

pub record WanProvision : Type 0 where
  pub task_id : String
  pub exe : ProvisionExecutor

unfoldable pub new_wan_provision_from_driver :
    String → Option DeviceDriver → String → Dict String → Option WanProvision
unfolding get_provision_flow new_executor
new_wan_provision_from_driver task_id driver flow_name input_vars =
    elim (get_provision_flow driver flow_name) [
      | none ↦ none
      | some flow ↦ some (record { task_id = task_id; exe = new_executor flow driver input_vars })
    ]

abbrev request_of : String → ResolvedStep → Request
request_of id step = elim step.kind [
  | add_object ↦ add_object_request id step.object
  | set ↦ set_parameter_values_request id step.params
  | delete ↦ delete_object_request id step.object
]

unfoldable pub build_current_xml : String → WanProvision → Outcome
unfolding current_step
build_current_xml id p = elim (current_step p.exe) [
  | none ↦ failed "wan provision already complete"
  | some step ↦ next (request_of id step)
]

-- The end of the three handlers.
abbrev next_or_complete : String → WanProvision → WanProvision × Outcome
next_or_complete id p = (p, if done p.exe then complete else build_current_xml id p)

abbrev pub is_add_object : Option ResolvedStep → Bool
is_add_object none = false
is_add_object (some step) = elim step.kind [ add_object ↦ true | set ↦ false | delete ↦ false ]

unfoldable pub on_add_object : String → ℕ → WanProvision → WanProvision × Outcome
unfolding current_step done advance_add_object build_current_xml
on_add_object id instance_num p =
    if is_add_object (current_step p.exe)
    then next_or_complete id (record p { exe = advance_add_object instance_num p.exe })
    else (p, failed "expected AddObject step")

unfoldable pub on_set_params : String → WanProvision → WanProvision × Outcome
unfolding done advance build_current_xml
on_set_params id p =
    if done p.exe then (p, complete) else next_or_complete id (record p { exe = advance p.exe })

unfoldable pub on_delete_object : String → WanProvision → WanProvision × Outcome
unfolding done advance build_current_xml
on_delete_object id p =
    if done p.exe then (p, complete) else next_or_complete id (record p { exe = advance p.exe })

unfoldable pub current_step_kind : WanProvision → Option ProvisionStepKind
unfolding current_step
current_step_kind p = elim (current_step p.exe) [ none ↦ none | some s ↦ some s.kind ]
