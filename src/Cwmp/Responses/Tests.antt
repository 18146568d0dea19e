-- ===== src/Cwmp/Responses/Tests.antt =====
-- Runs of a session's responses, and examples of their theorems.
use helix_acs.Prelude.{◌≡◌, refl, String, Bool, true, false, [], ◌∷◌, none, some, select}
use helix_acs.Task.Model.{Task, TaskType, type_wan, type_set_params, status_pending, status_failed}
use helix_acs.Cwmp.Adoption.{Session}
use helix_acs.Cwmp.Dispatch.{Execution, envelope, state_done}
use helix_acs.Cwmp.Responses.{
  Work, Handled, Answer, no_content, wan_credentials_persisted, status_updated, Response,
  set_parameter_values_response, reboot_response, download_response, go_on, fault, handle_response,
  fault_message,
}
use helix_acs.Cwmp.Responses.Progress.{LeadsOnOrWaits, handle_response-LeadsOn}
use helix_acs.Cwmp.Responses.Completed.{
  is_write, writes, handle_response-writes, handle_response-fault,
}

abbrev task : TaskType → String → Task
task type id = record {
  id = id;
  serial = "S1";
  task_type = type;
  payload = "";
  status = status_pending;
  created_at = 1;
  executed_at = none;
  completed_at = none;
  result = none;
  error = "";
  attempts = 0;
  max_attempts = 3;
}

abbrev always : Task → Execution
always t = envelope

abbrev unchanged : Task → Session → Session
unchanged t s = s

abbrev stored : Task → Bool
stored t = true

-- A WAN task is under way, with its credentials waiting.
abbrev wan_session : Session
wan_session = record {
  id = "a";
  current_task = some (task type_wan "t1");
  wan_provision = none;
  add_obj_follow_up = none;
  pending_provision_mark = false;
  last_set_params = [];
  pending_wan_credentials = ("user", "u1") ∷ [];
}

abbrev wan_work : Work
wan_work = record { session = wan_session; pending_tasks = task type_set_params "t2" ∷ [] }

abbrev last_work : Work
last_work = record { session = wan_session; pending_tasks = [] }

abbrev handled : Response → Work → Handled
unfolding handle_response
handled r w = handle_response always unchanged stored 9 "id" true r w

-- The credentials of a WAN task that the device has refused are written when a later task succeeds.
refused_credentials :
    select is_write
      (handled set_parameter_values_response
        (handled (fault "9001" "denied" "" "") wan_work).work).effects
    ≡ wan_credentials_persisted (("user", "u1") ∷ []) ∷ []
unfolding handle_response handled
refused_credentials = refl

-- A download that goes on leaves the session waiting, and keeps its task.
ongoing : handled (download_response 1) last_work ≡ go_on last_work no_content
unfolding handle_response handled
ongoing = refl

handle_response-LeadsOn_example :
    LeadsOnOrWaits
      (fault "9001" "denied" "" "")
      wan_work
      (handle_response always unchanged stored 9 "id" true (fault "9001" "denied" "" "") wan_work)
handle_response-LeadsOn_example =
    handle_response-LeadsOn always unchanged stored 9 "id" true (fault "9001" "denied" "" "")
      wan_work

abbrev reboots : Answer → Response
reboots a = reboot_response

handle_response-writes_example :
    select is_write
      (handle_response always unchanged stored 9 "id" true set_parameter_values_response
        wan_work).effects
    ≡ writes "id" true set_parameter_values_response wan_work
handle_response-writes_example =
    handle_response-writes always unchanged stored 9 "id" true set_parameter_values_response
      wan_work

handle_response-fault_example :
    handle_response always unchanged stored 9 "id" true (fault "9001" "denied" "" "") last_work
    ≡ record {
      work = record last_work {
        session = record wan_session {
          current_task = none;
          wan_provision = none;
          add_obj_follow_up = none;
        };
      };
      effects =
          status_updated (record (task type_wan "t1") {
            completed_at = some 9;
            status = status_failed;
            error = fault_message "9001" "denied" "" "";
          })
          ∷ [];
      state = some state_done;
      answer = no_content;
    }
handle_response-fault_example =
    handle_response-fault always unchanged stored 9 "id" true "9001" "denied" "" ""
      (task type_wan "t1") last_work refl refl
