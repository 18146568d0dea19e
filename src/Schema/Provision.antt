-- ===== src/Schema/Provision.antt =====
-- internal/schema/provision.go: `ProvisionExecutor`, which runs a provisioning flow step by step.
-- A map is ranged over in the order of its list. Instance numbers are not negative.
pub mod Progress
pub mod Running
pub mod Conditions
use Prim.Native.String.{[]}
use helix_acs.Prelude.{
  ℕ, suc, ◌+◌, String, Bool, true, false, not, ◌||◌, ◌&&◌, List, ◌∷◌, Option, none, some, leb,
  if◌then◌else◌, str_eq, length, get_elem?, drop,
}
use mathlib.Core.List
use helix_acs.Text.{◌+++◌, trim_space, has_prefix, trim_prefix, itoa}
use helix_acs.Text.Replace.{replace_all}
use helix_acs.Dict.{Dict, find, put, copy_into, flag_of}
use helix_acs.Schema.Flow.{ProvisionStepKind, ProvisionStep, ProvisionFlow}
use helix_acs.Schema.Driver.{DeviceDriver}

pub record ResolvedStep : Type 0 where
  pub kind : ProvisionStepKind
  pub object : String
  pub params : Dict String

pub record ProvisionExecutor : Type 0 where
  pub flow : ProvisionFlow
  pub driver : Option DeviceDriver
  pub vars : Dict String
  pub features : Dict Bool
  pub cur : ℕ

unfoldable pub substitute : Dict String → String → String
unfolding replace_all
substitute List.[] s = s
substitute ((name, value) ∷ vars) s = substitute vars (replace_all s ("{" +++ (name +++ "}")) value)

-- The entries in the order of the range, each over the earlier ones.
resolve_onto : Dict String → Dict String → Dict String → Dict String
unfolding substitute put
resolve_onto vars List.[] out = out
resolve_onto vars ((k, v) ∷ raw) out =
    if str_eq (substitute vars v) ""
    then resolve_onto vars raw out
    else resolve_onto vars raw (put (substitute vars k) (substitute vars v) out)

unfoldable pub resolve_params : Dict String → Dict String → Dict String
unfolding resolve_onto
resolve_params vars raw = resolve_onto vars raw List.[]

unfoldable pub eval_condition : Dict Bool → String → Bool
unfolding flag_of
eval_condition features when =
    let cond = trim_space when in
    if str_eq cond ""
    then true
    else if has_prefix cond "!"
    then not (flag_of (trim_prefix cond "!") features)
    else flag_of cond features

unfoldable pub is_active : Dict Bool → ProvisionStep → Bool
unfolding eval_condition
is_active features s = str_eq s.when "" || eval_condition features s.when

-- How many of the steps the loop of `skipInactive` passes.
unfoldable pub inactive_count : Dict Bool → List ProvisionStep → ℕ
unfolding is_active
inactive_count features List.[] = 0
inactive_count features (s ∷ steps) =
    if is_active features s then 0 else suc (inactive_count features steps)

unfoldable pub skip_inactive : ProvisionExecutor → ProvisionExecutor
unfolding inactive_count
skip_inactive pe = record pe {
  cur = pe.cur + inactive_count pe.features (drop pe.cur pe.flow.steps);
}

abbrev driver_config : Option DeviceDriver → Dict String
driver_config none = List.[]
driver_config (some d) = d.config

abbrev driver_features : Option DeviceDriver → Dict Bool
driver_features none = List.[]
driver_features (some d) = d.features

unfoldable pub initial_vars : Option DeviceDriver → Dict String → Dict String
unfolding copy_into
initial_vars driver input_vars = copy_into input_vars (copy_into (driver_config driver) List.[])

unfoldable pub put_driver_features : Dict Bool → Dict Bool → Dict Bool
unfolding put
put_driver_features List.[] out = out
put_driver_features ((k, v) ∷ fs) out = put_driver_features fs (put ("feature_" +++ k) v out)

unfoldable pub put_has : Dict String → Dict Bool → Dict Bool
unfolding put
put_has List.[] out = out
put_has ((k, v) ∷ vars) out =
    if not (str_eq (trim_space v) "") && not (str_eq v "0")
    then put_has vars (put ("has_" +++ k) true out)
    else put_has vars out

abbrev is_gpon_given : Option String → Bool
is_gpon_given none = false
is_gpon_given (some gpon) = not (str_eq gpon "") && not (str_eq gpon "0")

unfoldable pub initial_features : Option DeviceDriver → Dict String → Dict Bool
unfolding find put put_driver_features put_has
initial_features driver vars =
    let reuse = is_gpon_given (find "gpon_idx" vars) in
    let fs = put_driver_features (driver_features driver) List.[] in
    put_has vars (put "gpon_create" (not reuse) (put "gpon_reuse" reuse fs))

-- `NewProvisionExecutor`
unfoldable pub new_executor : ProvisionFlow → Option DeviceDriver → Dict String → ProvisionExecutor
unfolding skip_inactive initial_vars initial_features
new_executor flow driver input_vars =
    let vars = initial_vars driver input_vars in
    skip_inactive (record {
      flow = flow;
      driver = driver;
      vars = vars;
      features = initial_features driver vars;
      cur = 0;
    })

unfoldable pub done : ProvisionExecutor → Bool
done pe = leb (length pe.flow.steps) pe.cur

-- The step at `cur`, unless the executor is done.
unfoldable pub step_at : ProvisionExecutor → Option ProvisionStep
step_at pe = get_elem? pe.flow.steps pe.cur

unfoldable pub current_step : ProvisionExecutor → Option ResolvedStep
unfolding step_at substitute resolve_params
current_step pe = elim (step_at pe) [
  | none ↦ none
  | some s ↦ some (record {
    kind = s.kind;
    object = substitute pe.vars s.object;
    params = resolve_params pe.vars s.params;
  })
]

unfoldable pub advance : ProvisionExecutor → ProvisionExecutor
unfolding done skip_inactive
advance pe = if done pe then pe else skip_inactive (record pe { cur = suc pe.cur })

abbrev pub put_unless_empty : String → String → Dict String → Dict String
put_unless_empty name v vars = if str_eq name "" then vars else put name v vars

unfoldable pub advance_add_object : ℕ → ProvisionExecutor → ProvisionExecutor
unfolding step_at skip_inactive put
advance_add_object instance_num pe = elim (step_at pe) [
  | none ↦ pe
  | some s ↦
      skip_inactive (record pe {
        vars = put_unless_empty s.as_var (itoa instance_num) pe.vars;
        cur = suc pe.cur;
      })
]
