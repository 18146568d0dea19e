-- ===== src/Cwmp/Dispatch/Tests.antt =====
-- Three tasks of which the first has no envelope, and the theorem on dispatching at them.
use helix_acs.Prelude.{
  ◌≡◌, refl, String, Bool, true, not, List, [], ◌∷◌, none, some, str_eq, if◌then◌else◌,
}
use helix_acs.Task.Model.{Task, type_reboot, status_pending}
use helix_acs.Cwmp.Dispatch.{
  Execution, error_after, envelope, sent, started, failed_task, after_execution,
  dispatch_next_or_close,
}
use helix_acs.Cwmp.Dispatch.First.{
  Agrees, is_dispatchable, first_dispatchable, dispatch_next_or_close-first,
}

abbrev task : String → Task
task id = record {
  id = id;
  serial = "S1";
  task_type = type_reboot;
  payload = "";
  status = status_pending;
  created_at = 1;
  executed_at = none;
  completed_at = none;
  result = none;
  error = "";
  attempts = 0;
  max_attempts = 3;
}

abbrev execute : Task → Execution
execute t = if str_eq t.id "t1" then error_after true "no driver" else envelope

abbrev stored : Task → Bool
stored t = not (str_eq t.id "t2")

abbrev tasks : List Task
tasks = task "t1" ∷ task "t2" ∷ task "t3" ∷ task "t4" ∷ []

dispatch_run :
    let r = dispatch_next_or_close execute stored 9 tasks none in
    (r.answer ≡ sent (started 9 (task "t3")))
    × (r.updates
        ≡ started 9 (task "t1")
          ∷ failed_task 9 "no driver" (started 9 (task "t1"))
          ∷ started 9 (task "t2")
          ∷ started 9 (task "t3")
          ∷ [])
unfolding dispatch_next_or_close after_execution started
dispatch_run = (refl, refl)

dispatch_next_or_close-first_example :
    Agrees execute stored 9
      (some (task "t3", task "t4" ∷ []))
      (dispatch_next_or_close execute stored 9 tasks none)
unfolding first_dispatchable is_dispatchable started
dispatch_next_or_close-first_example = dispatch_next_or_close-first execute stored 9 tasks none
