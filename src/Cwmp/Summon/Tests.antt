-- ===== src/Cwmp/Summon/Tests.antt =====
-- Runs of summons, and examples of their theorems.
use helix_acs.Prelude.{
  ◌≡◌, ◌≤◌, refl, arith, String, true, false, not, ◌||◌, List, [], ◌∷◌, none, some, any, length,
}
use helix_acs.Task.Model.{Task, type_wan, status_pending}
use helix_acs.Cwmp.Soap.{has_suffix}
use helix_acs.Cwmp.Summon.{
  idle, Summon, leaf_names, summon_batch_size_for_schema, schedule_summon,
  handle_get_parameter_names_response, dispatch, first_root_object,
}
use helix_acs.Cwmp.Summon.Batches.{
  Device, every_built, exchange, concat, collected, Sized, full_summon_complete,
}
use helix_acs.Cwmp.Summon.Paths.{Scheduled, wants_discovery, schedule_summon-targeted}

abbrev at_start : Summon
at_start = record {
  phase = idle;
  mode = "";
  schema_name = "tr181";
  target_paths = [];
  all_names = [];
  batch_idx = 0;
  all_params = [];
}

abbrev echo : Device
echo [] = []
echo (n ∷ ns) = (n, "1") ∷ echo ns

abbrev three_names : List String
three_names = "Device." ∷ "Device.A" ∷ "Device.B." ∷ "Device.B.C" ∷ []

leaves_of_three : leaf_names three_names ≡ "Device.A" ∷ "Device.B.C" ∷ []
unfolding has_suffix
leaves_of_three = refl

-- A full summon that was asked for is scheduled by answering the Inform with the next task of a
-- session that has none yet.
full_summon_closes : (schedule_summon true false "tr181" none [] at_start).1 ≡ dispatch
unfolding schedule_summon
full_summon_closes = refl

root_of_both :
    first_root_object (("Device.A", "") ∷ ("InternetGatewayDevice.B", "") ∷ [])
    ≡ "InternetGatewayDevice."
unfolding first_root_object
root_of_both = refl

some_leaf : 1 ≤ length (leaf_names three_names)
unfolding has_suffix
some_leaf = omega arith

few_leaves : length (leaf_names three_names) ≤ 2
unfolding has_suffix
few_leaves = omega arith

full_summon_complete_example :
    (batches : List (List String)) × ((exchange echo 2
          (handle_get_parameter_names_response every_built three_names at_start).0
          (handle_get_parameter_names_response every_built three_names at_start).1
        ≡ some (batches, collected echo batches []))
      × ((concat batches ≡ leaf_names three_names)
          × Sized (summon_batch_size_for_schema "tr181") batches))
full_summon_complete_example = full_summon_complete echo three_names at_start 2 some_leaf few_leaves

abbrev wan_task : Task
wan_task = record {
  id = "t1";
  serial = "s";
  task_type = type_wan;
  payload = "";
  status = status_pending;
  created_at = 0;
  executed_at = none;
  completed_at = none;
  result = none;
  error = "";
  attempts = 0;
  max_attempts = 3;
}

schedule_summon-targeted_example :
    Scheduled
      (not true || any (λ t. wants_discovery t.task_type) (wan_task ∷ []))
      "tr098"
      at_start
      (schedule_summon false true "tr098" none (wan_task ∷ []) at_start).0
schedule_summon-targeted_example =
    schedule_summon-targeted true "tr098" none (wan_task ∷ []) at_start tt
