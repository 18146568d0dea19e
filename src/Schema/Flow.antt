-- ===== src/Schema/Flow.antt =====
-- The flows of internal/schema/provision.go, as they are loaded from a driver's YAML files.
use helix_acs.Prelude.{String, List, Option, none, some, if◌then◌else◌, str_eq, ◌||◌}
use helix_acs.Dict.{Dict}
use helix_acs.Text.{to_lower}

pub data ProvisionStepKind : Type 0 where
  add_object set delete : ProvisionStepKind

pub record ProvisionStep : Type 0 where
  pub kind : ProvisionStepKind
  pub when : String
  pub object : String
  pub as_var : String
  pub params : Dict String

pub record ProvisionFlow : Type 0 where
  pub id : String
  pub description : String
  pub steps : List ProvisionStep

-- `none` is the error for an unknown kind.
unfoldable pub parse_step_kind : String → Option ProvisionStepKind
unfolding to_lower
parse_step_kind s =
    let kind = to_lower s in
    if str_eq kind "add_object" || str_eq kind "add"
    then some add_object
    else if str_eq kind "set" || str_eq kind "set_params"
    then some set
    else if str_eq kind "delete" || str_eq kind "delete_object"
    then some delete
    else none
