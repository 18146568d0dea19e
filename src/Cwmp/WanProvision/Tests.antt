-- ===== src/Cwmp/WanProvision/Tests.antt =====
-- A provisioning flow of two kinds of steps, one of them inactive, and the theorems on executors at
-- concrete inputs.
use helix_acs.Prelude.{◌≡◌, refl, String, [], ◌∷◌, some, arith}
use helix_acs.Text.{itoa, is_space, trim_space, trim_left, trim_right, has_prefix, trim_prefix}
use helix_acs.Text.Replace.{replace_all}
use helix_acs.Dict.{Dict, find, put, copy_into, flag_of}
use helix_acs.Schema.Flow.{ProvisionStep, ProvisionFlow, add_object, set}
use helix_acs.Schema.Driver.{DeviceDriver, get_provision_flow}
use helix_acs.Schema.Driver.Tests.{driver_with}
use helix_acs.Schema.Provision.{
  is_active, eval_condition, initial_vars, initial_features, put_driver_features, put_has,
  resolve_params, substitute,
}
use helix_acs.Cwmp.WanProvision.{
  add_object_request, set_parameter_values_request, complete, WanProvision,
  new_wan_provision_from_driver, build_current_xml,
}
use helix_acs.Cwmp.WanProvision.Script.{script, run}
use helix_acs.Cwmp.WanProvision.Complete.{run-new_wan_provision_from_driver}

abbrev add_link : ProvisionStep
add_link = record {
  kind = add_object;
  when = "";
  object = "Device.Ethernet.Link.";
  as_var = "eth";
  params = [];
}

abbrev add_gpon : ProvisionStep
add_gpon = record {
  kind = add_object;
  when = "gpon_create";
  object = "Device.X_TP_GPON.Link.";
  as_var = "gpon_idx";
  params = [];
}

abbrev set_link : ProvisionStep
set_link = record {
  kind = set;
  when = "has_vlan_id";
  object = "";
  as_var = "";
  params =
      ("Device.Ethernet.Link.{eth}.Alias", "ethlink_{vlan_id}")
      ∷ ("Device.User", "{username}")
      ∷ [];
}

abbrev sample_flow : ProvisionFlow
sample_flow = record { id = "wan"; description = ""; steps = add_gpon ∷ add_link ∷ set_link ∷ [] }

abbrev sample_driver : DeviceDriver
sample_driver = driver_with "" (("gpon_idx", "1") ∷ []) [] (("wan_pppoe_new", sample_flow) ∷ [])

abbrev inputs : Dict String
inputs = ("vlan_id", "100") ∷ ("username", "") ∷ []

script_run :
    script
      (λ k. 5)
      (λ k. "id")
      0
      (initial_vars (some sample_driver) inputs)
      (add_link ∷ set_link ∷ [])
    ≡ add_object_request "id" "Device.Ethernet.Link."
      ∷ set_parameter_values_request "id" (("Device.Ethernet.Link.5.Alias", "ethlink_100") ∷ [])
      ∷ []
unfolding script initial_vars substitute resolve_params replace_all put copy_into itoa has_prefix
script_run = refl

run-new_wan_provision_from_driver_example :
    (p : WanProvision) × ((new_wan_provision_from_driver "t1"
          (some sample_driver)
          "wan_pppoe_new"
          inputs
        ≡ some p)
      × (run (λ k. 5) (λ k. "id") 3 0 p (build_current_xml "id" p) ≡ (
        script
            (λ k. 5)
            (λ k. "id")
            0
            (initial_vars (some sample_driver) inputs)
            (add_link ∷ set_link ∷ []),
        complete,
      )))
unfolding get_provision_flow is_active eval_condition initial_vars initial_features
    put_driver_features put_has find put copy_into flag_of is_space trim_space trim_left trim_right
    has_prefix trim_prefix
run-new_wan_provision_from_driver_example =
    run-new_wan_provision_from_driver (λ k. 5) (λ k. "id") "t1" "wan_pppoe_new" (some sample_driver)
      inputs sample_flow 3 add_link (set_link ∷ []) refl refl (omega arith)
