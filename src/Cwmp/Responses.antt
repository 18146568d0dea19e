-- ===== src/Cwmp/Responses.antt =====
-- What the server does with a device's response to a request of its own, in internal/cwmp/session.go:
-- the provisioning flow is advanced, or the current task is completed and the next one dispatched.
-- Responses with values belong to the summon and to the results, and are not among these.
-- What `executeTask` makes of a task and leaves in the session, whether the queue stores an update,
-- and the identifier of the next request are arguments.
pub mod Progress
pub mod Closing
pub mod Completed
mod Tests
use helix_acs.Prelude.{
  ℕ, String, Bool, true, false, not, ◌&&◌, ◌||◌, List, [], ◌∷◌, ◌++◌, Option, none, some,
  if◌then◌else◌, map, ◌==◌, str_eq, is_empty,
}
use helix_acs.Text.{◌+++◌}
use helix_acs.Dict.{Dict}
use helix_acs.Task.Model.{
  Task, TaskType, type_wan, type_wifi, type_lan, is_diagnostic_async, status_done, status_failed,
}
use helix_acs.Cwmp.WanProvision.{
  WanProvision, Request, Outcome, failed, complete, next, on_add_object, on_set_params,
  on_delete_object,
}
use helix_acs.Cwmp.Adoption.{Session}
use helix_acs.Cwmp.Dispatch.{
  Execution, Dispatched, SessionState, is_synthetic, started, dispatch_next_or_close, dispatch_task,
}
use helix_acs.Cwmp.Dispatch.First.{succeeds}
use helix_acs.Cwmp.Dispatch

-- A session with its queue.
pub record Work : Type 0 where
  pub session : Session
  pub pending_tasks : List Task

-- What happens outside of the session, in its order.
pub data Effect : Type 0 where
  status_updated : Task → Effect
  -- `UpdateParameters` of the stored parameters.
  parameters_updated wan_credentials_persisted : Dict String → Effect
  provision_marked : Effect
  -- The time of the last summon is dropped.
  summon_forgotten : Effect

pub data Answer : Type 0 where
  request : Request → Answer
  -- The envelope that a follow-up has not built.
  empty_body : Answer
  task_sent : Task → Answer
  no_content : Answer

pub record Handled : Type 0 where
  pub work : Work
  pub effects : List Effect
  pub state : Option SessionState
  pub answer : Answer

-- The task at its end. No result is given with it.
unfoldable pub completed_task : ℕ → String → Task → Task
completed_task now err_msg t =
    if str_eq err_msg ""
    then record t { completed_at = some now; status = status_done }
    else record t { completed_at = some now; status = status_failed; error = err_msg }

abbrev pub is_provisioning : TaskType → Bool
is_provisioning t = elim t [ type_wan ↦ true | type_wifi ↦ true | type_lan ↦ true | _ ↦ false ]

unfoldable pub completion : ℕ → String → Option Task → List Effect
unfolding completed_task
completion now err_msg none = []
completion now err_msg (some t) =
    (if is_provisioning t.task_type && str_eq err_msg "" then summon_forgotten ∷ [] else [])
    ++ status_updated (completed_task now err_msg t) ∷ []

abbrev pub answer_of : Dispatch.Answer → Answer
answer_of (Dispatch.sent t) = task_sent t
answer_of Dispatch.no_content = no_content

abbrev pub after_effects : List Effect → Handled → Handled
after_effects es h = record h { effects = es ++ h.effects }

-- An answer within a task: nothing is dispatched.
abbrev pub go_on : Work → Answer → Handled
go_on w a = record { work = w; effects = []; state = none; answer = a }

abbrev pub with_provision : Option WanProvision → Work → Work
with_provision p w = record w { session = record w.session { wan_provision = p } }

abbrev pub with_current : Option Task → Work → Work
with_current t w = record w { session = record w.session { current_task = t } }

abbrev pub unless_empty : (Dict String → Effect) → Dict String → List Effect
unless_empty effect params = if is_empty params then [] else effect params ∷ []

abbrev pub without_credentials : Work → Work
without_credentials w = record w { session = record w.session { pending_wan_credentials = [] } }

abbrev pub credentials_effects : Bool → Work → List Effect
credentials_effects has_serial w =
    if has_serial
    then unless_empty wan_credentials_persisted w.session.pending_wan_credentials
    else []

-- What a successful SetParameterValues leaves nothing of.
abbrev pub without_set_params : Work → Work
without_set_params w = record w {
  session = record w.session {
    last_set_params = [];
    pending_wan_credentials = [];
    pending_provision_mark = false;
  };
}

abbrev pub set_params_effects : Bool → Work → List Effect
set_params_effects has_serial w =
    unless_empty parameters_updated w.session.last_set_params
    ++ (if w.session.pending_provision_mark && has_serial then provision_marked ∷ [] else [])
    ++ credentials_effects has_serial w

abbrev pub is_async : Option Task → Bool
unfolding is_diagnostic_async
is_async none = false
is_async (some t) = is_diagnostic_async t.task_type

abbrev pub without_follow_up : Work → Work
without_follow_up w = record w { session = record w.session { add_obj_follow_up = none } }

-- The message of a fault, from its detail or else from the SOAP fault itself.
unfoldable pub fault_message : String → String → String → String → String
fault_message cwmp_code cwmp_msg code msg =
    let missing = str_eq cwmp_code "" in
    "CWMP "
    +++ (if missing then code else cwmp_code)
    +++ ": "
    +++ (if missing then msg else cwmp_msg)

module _ (execute : Task → Execution) (prepare : Task → Session → Session) (stored : Task → Bool)
    (now : ℕ) where
  -- The session behind the executions of a dispatch: all up to the first that succeeds.
  unfoldable pub session_after : List Task → Session → Session
  unfolding started
  session_after [] s = s
  session_after (t ∷ ts) s =
      let t' = started now t in
      let executed = prepare t' s in
      let later = session_after ts executed in
      let skipped = session_after ts s in
      if is_synthetic t || stored t'
      then if succeeds (execute t') then executed else later
      else skipped

  abbrev pub dispatched : List Task → Session → Dispatched → Handled
  unfolding session_after
  dispatched tasks s d = record {
    work = record {
      session = record (session_after tasks s) { current_task = d.current_task };
      pending_tasks = d.pending_tasks;
    };
    effects = map status_updated d.updates;
    state = d.state;
    answer = answer_of d.answer;
  }

  unfoldable pub next_or_close : Work → Handled
  unfolding dispatch_next_or_close session_after
  next_or_close w =
      dispatched w.pending_tasks w.session
        (dispatch_next_or_close execute stored now w.pending_tasks w.session.current_task)

  unfoldable pub handle_task_response : String → Work → Handled
  unfolding completion next_or_close
  handle_task_response err_msg w =
      after_effects (completion now err_msg w.session.current_task)
        (next_or_close (with_current none w))

  -- `0` is the status of a download that is complete.
  unfoldable pub handle_download_response : ℕ → Work → Handled
  unfolding handle_task_response dispatch_task session_after
  handle_download_response status w =
      if status == 0 then handle_task_response "" w else elim w.pending_tasks [
        | [] ↦ go_on w no_content
        | t ∷ ts ↦
            dispatched (t ∷ ts) w.session
              (dispatch_task execute stored now t ts w.session.current_task)
      ]

  -- The end of the handlers of a provisioning flow. `finished` is what comes before the completion.
  unfoldable pub after_step :
      (Work → List Effect) → (Work → Work) → Work → WanProvision × Outcome → Handled
  unfolding handle_task_response
  after_step effects clear w (p, failed e) = handle_task_response e (with_provision none w)
  after_step effects clear w (p, next r) = go_on (with_provision (some p) w) (request r)
  after_step effects clear w (p, complete) =
      after_effects (effects w) (handle_task_response "" (clear (with_provision none w)))

  -- By the provisioning flow that is running. `has_serial`: the session's serial number is not empty.
  abbrev pub set_params_done : String → Bool → Work → Option WanProvision → Handled
  unfolding after_step next_or_close handle_task_response on_set_params is_diagnostic_async
  set_params_done id has_serial w (some p) =
      after_step (credentials_effects has_serial) without_credentials w (on_set_params id p)
  set_params_done id has_serial w none =
      if is_async w.session.current_task
      then next_or_close (with_current none w)
      else after_effects (set_params_effects has_serial w)
          (handle_task_response "" (without_set_params w))

  unfoldable pub handle_set_param_values_response : String → Bool → Work → Handled
  unfolding set_params_done
  handle_set_param_values_response id has_serial w =
      set_params_done id has_serial w w.session.wan_provision

  abbrev pub after_follow_up : Work → Outcome → Handled
  unfolding handle_task_response
  after_follow_up w (failed e) = handle_task_response e w
  after_follow_up w complete = go_on w empty_body
  after_follow_up w (next r) = go_on w (request r)

  -- By the provisioning flow and the follow-up of the session; the follow-up is taken off.
  abbrev pub object_added : String → ℕ → Work → Option WanProvision → Option (ℕ → Outcome) → Handled
  unfolding after_step handle_task_response on_add_object after_follow_up
  object_added id instance_number w (some p) f =
      after_step (λ _. []) (λ w'. w') (without_follow_up w) (on_add_object id instance_number p)
  object_added id instance_number w none none = handle_task_response "" (without_follow_up w)
  object_added id instance_number w none (some f) =
      after_follow_up (without_follow_up w) (f instance_number)

  unfoldable pub handle_add_object_response : String → ℕ → Work → Handled
  unfolding object_added
  handle_add_object_response id instance_number w =
      object_added id instance_number w w.session.wan_provision w.session.add_obj_follow_up

  abbrev pub object_deleted : String → Work → Option WanProvision → Handled
  unfolding after_step handle_task_response on_delete_object
  object_deleted id w (some p) = after_step (λ _. []) (λ w'. w') w (on_delete_object id p)
  object_deleted id w none = handle_task_response "" w

  unfoldable pub handle_delete_object_response : String → Work → Handled
  unfolding object_deleted
  handle_delete_object_response id w = object_deleted id w w.session.wan_provision

  unfoldable pub handle_fault : String → String → String → String → Work → Handled
  unfolding handle_task_response fault_message
  handle_fault cwmp_code cwmp_msg code msg w =
      handle_task_response (fault_message cwmp_code cwmp_msg code msg)
        (without_follow_up (with_provision none w))

-- The responses that are handled here.
pub data Response : Type 0 where
  set_parameter_values_response reboot_response factory_reset_response delete_object_response :
      Response
  add_object_response : ℕ → Response
  -- The status of a download: 0 when it is complete.
  download_response : ℕ → Response
  fault : (cwmp_code cwmp_msg code msg : String) → Response

module _ (execute : Task → Execution) (prepare : Task → Session → Session)
    (stored : Task → Bool) where
  unfoldable pub handle_response : ℕ → String → Bool → Response → Work → Handled
  unfolding handle_set_param_values_response handle_task_response handle_delete_object_response
      handle_add_object_response handle_download_response handle_fault
  handle_response now id has_serial set_parameter_values_response w =
      handle_set_param_values_response execute prepare stored now id has_serial w
  handle_response now id has_serial reboot_response w =
      handle_task_response execute prepare stored now "" w
  handle_response now id has_serial factory_reset_response w =
      handle_task_response execute prepare stored now "" w
  handle_response now id has_serial delete_object_response w =
      handle_delete_object_response execute prepare stored now id w
  handle_response now id has_serial (add_object_response n) w =
      handle_add_object_response execute prepare stored now id n w
  handle_response now id has_serial (download_response status) w =
      handle_download_response execute prepare stored now status w
  handle_response now id has_serial (fault cwmp_code cwmp_msg code msg) w =
      handle_fault execute prepare stored now cwmp_code cwmp_msg code msg w
