-- ===== src/Cwmp/Responses/Completed.antt =====
-- What a response writes to the stored parameters of its device, and what becomes of the current task.
use mathlib.Core.Bool.{true≢false}
use helix_acs.Prelude.{
  eq_iff, ℕ, ◌≡◌, refl, sym, ap, ◌∙◌, inl, inr, String, Bool, true, false, ◌&&◌, List, [], ◌∷◌,
  ◌++◌, Option, none, some, if◌then◌else◌, map, select, Bool-cases, ◌==◌, str_eq, append-nil,
}
use helix_acs.Dict.{Dict}
use helix_acs.Text.{◌+++◌, has_prefix}
use helix_acs.Text.Prefixes.{has_prefix-append}
use helix_acs.Task.Model.{Task, status_failed}
use helix_acs.Cwmp.WanProvision.{
  WanProvision, Outcome, failed, complete, next, on_set_params, on_add_object, on_delete_object,
}
use helix_acs.Cwmp.Adoption.{Session}
use helix_acs.Cwmp.Dispatch.{Execution, state_done, dispatch_task, dispatch_next_or_close}
use helix_acs.Cwmp.Responses.{
  no_content, Work, Handled, Effect, status_updated, parameters_updated, wan_credentials_persisted,
  provision_marked, Response, set_parameter_values_response, reboot_response,
  factory_reset_response, delete_object_response, add_object_response, download_response,
  handle_download_response, go_on, fault, after_effects, with_current, with_provision,
  without_follow_up, without_set_params, without_credentials, dispatched, next_or_close, completion,
  completed_task, session_after, handle_task_response, after_step, after_follow_up, is_async,
  set_params_done, object_added, object_deleted, set_params_effects, credentials_effects,
  unless_empty, is_provisioning, handle_set_param_values_response, handle_add_object_response,
  handle_delete_object_response, handle_fault, fault_message, handle_response,
}

abbrev pub is_write : Effect → Bool
is_write (parameters_updated params) = true
is_write (wan_credentials_persisted creds) = true
is_write provision_marked = true
is_write _ = false

abbrev pub if_complete : Outcome → List Effect → List Effect
if_complete complete es = es
if_complete _ es = []

-- What waits in a session for the success of its task: the parameters that were set, the mark of a
-- provisioned device, and the credentials of a WAN.
abbrev pub of_parameters : Dict String → List Effect
of_parameters [] = []
of_parameters (p ∷ ps) = parameters_updated (p ∷ ps) ∷ []

abbrev pub of_mark : Bool → Bool → List Effect
of_mark true true = provision_marked ∷ []
of_mark _ _ = []

abbrev pub of_credentials : Bool → Dict String → List Effect
of_credentials true (c ∷ cs) = wan_credentials_persisted (c ∷ cs) ∷ []
of_credentials _ _ = []

abbrev pub waiting : Bool → Session → List Effect
waiting has_serial s =
    of_parameters s.last_set_params
    ++ of_mark s.pending_provision_mark has_serial
    ++ of_credentials has_serial s.pending_wan_credentials

-- The writes that a response should lead to.
abbrev pub writes_of_set : String → Bool → Work → Option WanProvision → List Effect
writes_of_set id has_serial w none =
    if is_async w.session.current_task then [] else waiting has_serial w.session
writes_of_set id has_serial w (some p) =
    if_complete (on_set_params id p).1 (of_credentials has_serial w.session.pending_wan_credentials)

abbrev pub writes : String → Bool → Response → Work → List Effect
writes id has_serial set_parameter_values_response w =
    writes_of_set id has_serial w w.session.wan_provision
writes id has_serial _ w = []

unless_empty-of_parameters : (d : Dict String) → unless_empty parameters_updated d ≡ of_parameters d
unless_empty-of_parameters [] = refl
unless_empty-of_parameters (p ∷ ps) = refl

no_credentials : (d : Dict String) → [] ≡ of_credentials false d
no_credentials [] = refl
no_credentials (c ∷ cs) = refl

credentials_effects-of :
    (has_serial : Bool) (w : Work) (d : Dict String)
    → w.session.pending_wan_credentials ≡ d
    → credentials_effects has_serial w ≡ of_credentials has_serial d
credentials_effects-of true w [] e = rw e refl
credentials_effects-of true w (c ∷ cs) e = rw e refl
credentials_effects-of false w d e = no_credentials d

mark-of : (b c : Bool) → (if b && c then provision_marked ∷ [] else []) ≡ of_mark b c
mark-of true true = refl
mark-of true false = refl
mark-of false c = refl

set_params_effects-waiting :
    (has_serial : Bool) (w : Work) → set_params_effects has_serial w ≡ waiting has_serial w.session
set_params_effects-waiting has_serial w =
    rw
      (
        unless_empty-of_parameters w.session.last_set_params,
        mark-of w.session.pending_provision_mark has_serial,
        credentials_effects-of has_serial w w.session.pending_wan_credentials refl,
      )
      refl

select-append :
    (xs ys : List Effect) → select is_write (xs ++ ys) ≡ select is_write xs ++ select is_write ys
select-append [] ys = refl
select-append (x ∷ xs) ys = elim (Bool-cases (is_write x)) [
  | inl e ↦ rw (e, select-append xs ys) refl
  | inr e ↦ rw (e, select-append xs ys) refl
]

no_status_written : (us : List Task) → select is_write (map status_updated us) ≡ []
no_status_written [] = refl
no_status_written (u ∷ us) = no_status_written us

completion-unwritten :
    (now : ℕ) (e : String) (t : Option Task) → select is_write (completion now e t) ≡ []
unfolding completion
completion-unwritten now e none = refl
completion-unwritten now e (some t) =
    elim (Bool-cases (is_provisioning t.task_type && str_eq e "")) [
      | inl h ↦ rw h refl
      | inr h ↦ rw h refl
    ]

and_false : (b : Bool) → (b && false) ≡ false
and_false true = refl
and_false false = refl

completion-failed :
    (now : ℕ) (e : String) (t : Task)
    → str_eq e "" ≡ false
    → completion now e (some t)
      ≡ status_updated (record t { completed_at = some now; status = status_failed; error = e })
        ∷ []
unfolding completion completed_task
completion-failed now e t h = rw (h, and_false (is_provisioning t.task_type)) refl

-- A text with a first character is not empty.
prefixed-nonempty : (s : String) → str_eq ("CWMP " +++ s) "" ≡ false
unfolding has_prefix
prefixed-nonempty s = elim (Bool-cases (str_eq ("CWMP " +++ s) "")) [
  | inl e ↦
      let starts = sym (has_prefix-append "CWMP " s) in
      absurd
        (true≢false (starts ∙ ap (λ t. has_prefix t "CWMP ") ((eq_iff ("CWMP " +++ s) "").0 e)))
  | inr e ↦ e
]

fault_message-nonempty :
    (cwmp_code cwmp_msg code msg : String)
    → str_eq (fault_message cwmp_code cwmp_msg code msg) "" ≡ false
unfolding fault_message
fault_message-nonempty cwmp_code cwmp_msg code msg = prefixed-nonempty _

unless_empty-written :
    (f : Dict String → Effect) (params : Dict String)
    → ((d : Dict String) → is_write (f d) ≡ true)
    → select is_write (unless_empty f params) ≡ unless_empty f params
unless_empty-written f [] h = refl
unless_empty-written f (p ∷ ps) h = rw (h (p ∷ ps)) refl

credentials_effects-written :
    (has_serial : Bool) (w : Work)
    → select is_write (credentials_effects has_serial w) ≡ credentials_effects has_serial w
credentials_effects-written true w =
    unless_empty-written wan_credentials_persisted w.session.pending_wan_credentials (λ d. refl)
credentials_effects-written false w = refl

mark-written :
    (b : Bool)
    → select is_write (if b then provision_marked ∷ [] else [])
      ≡ (if b then provision_marked ∷ [] else [])
mark-written true = refl
mark-written false = refl

append-written :
    (xs ys : List Effect)
    → select is_write xs ≡ xs
    → select is_write ys ≡ ys
    → select is_write (xs ++ ys) ≡ xs ++ ys
append-written xs ys h k = select-append xs ys ∙ (rw (h, k) refl)

set_params_effects-written :
    (has_serial : Bool) (w : Work)
    → select is_write (set_params_effects has_serial w) ≡ set_params_effects has_serial w
set_params_effects-written has_serial w =
    append-written
      (unless_empty parameters_updated w.session.last_set_params
        ++ (if w.session.pending_provision_mark && has_serial then provision_marked ∷ [] else []))
      (credentials_effects has_serial w)
      (append-written (unless_empty parameters_updated w.session.last_set_params) _
        (unless_empty-written parameters_updated w.session.last_set_params (λ d. refl))
        (mark-written (w.session.pending_provision_mark && has_serial)))
      (credentials_effects-written has_serial w)

module _ (execute : Task → Execution) (prepare : Task → Session → Session) (stored : Task → Bool)
    (now : ℕ) where
  abbrev WritesOnly : List Effect → Handled → Type 0
  WritesOnly es h = select is_write h.effects ≡ es

  WritesOnly-after_effects :
      (es fs : List Effect) (h : Handled)
      → select is_write es ≡ fs
      → WritesOnly [] h
      → WritesOnly fs (after_effects es h)
  WritesOnly-after_effects es fs h e k = rw (select-append es h.effects, e, k) (append-nil fs)

  next_or_close-unwritten : (w : Work) → WritesOnly [] (next_or_close execute prepare stored now w)
  unfolding next_or_close dispatched
  next_or_close-unwritten w =
      no_status_written
        (dispatch_next_or_close execute stored now w.pending_tasks w.session.current_task).updates

  handle_task_response-unwritten :
      (e : String) (w : Work) → WritesOnly [] (handle_task_response execute prepare stored now e w)
  unfolding handle_task_response
  handle_task_response-unwritten e w =
      WritesOnly-after_effects (completion now e w.session.current_task) []
        (next_or_close execute prepare stored now (with_current none w))
        (completion-unwritten now e w.session.current_task)
        (next_or_close-unwritten (with_current none w))

  after_step-writes :
      (effects : Work → List Effect) (clear : Work → Work) (w : Work)
      (step : WanProvision × Outcome)
      → select is_write (effects w) ≡ effects w
      → WritesOnly
          (if_complete step.1 (effects w))
          (after_step execute prepare stored now effects clear w step)
  unfolding after_step
  after_step-writes effects clear w (p, failed e) h =
      handle_task_response-unwritten e (with_provision none w)
  after_step-writes effects clear w (p, complete) h =
      WritesOnly-after_effects (effects w) (effects w)
        (handle_task_response execute prepare stored now "" (clear (with_provision none w))) h
        (handle_task_response-unwritten "" (clear (with_provision none w)))
  after_step-writes effects clear w (p, next r) h = refl

  set_params_done-writes :
      (id : String) (has_serial : Bool) (w : Work) (o : Option WanProvision)
      → WritesOnly
          (writes_of_set id has_serial w o)
          (set_params_done execute prepare stored now id has_serial w o)
  unfolding set_params_done
  set_params_done-writes id has_serial w none =
      elim (Bool-cases (is_async w.session.current_task)) [
        | inl h ↦ rw h (next_or_close-unwritten (with_current none w))
        | inr h ↦ rw h (
            WritesOnly-after_effects (set_params_effects has_serial w)
              (waiting has_serial w.session)
              (handle_task_response execute prepare stored now "" (without_set_params w))
              (set_params_effects-written has_serial w ∙ set_params_effects-waiting has_serial w)
              (handle_task_response-unwritten "" (without_set_params w)))
      ]
  set_params_done-writes id has_serial w (some p) =
      after_step-writes (credentials_effects has_serial) without_credentials w (on_set_params id p)
        (credentials_effects-written has_serial w)
      ∙ ap (if_complete (on_set_params id p).1)
          (credentials_effects-of has_serial w w.session.pending_wan_credentials refl)

  if_complete-nothing : (o : Outcome) → if_complete o [] ≡ []
  if_complete-nothing (failed e) = refl
  if_complete-nothing complete = refl
  if_complete-nothing (next r) = refl

  other_step-unwritten :
      (w : Work) (step : WanProvision × Outcome)
      → WritesOnly [] (after_step execute prepare stored now (λ _. []) (λ v. v) w step)
  other_step-unwritten w step =
      after_step-writes (λ _. []) (λ v. v) w step refl ∙ if_complete-nothing step.1

  object_deleted-unwritten :
      (id : String) (w : Work) (o : Option WanProvision)
      → WritesOnly [] (object_deleted execute prepare stored now id w o)
  unfolding object_deleted
  object_deleted-unwritten id w none = handle_task_response-unwritten "" w
  object_deleted-unwritten id w (some p) = other_step-unwritten w (on_delete_object id p)

  after_follow_up-unwritten :
      (w : Work) (o : Outcome) → WritesOnly [] (after_follow_up execute prepare stored now w o)
  unfolding after_follow_up
  after_follow_up-unwritten w (failed e) = handle_task_response-unwritten e w
  after_follow_up-unwritten w complete = refl
  after_follow_up-unwritten w (next r) = refl

  object_added-unwritten :
      (id : String) (n : ℕ) (w : Work) (o : Option WanProvision) (f : Option (ℕ → Outcome))
      → WritesOnly [] (object_added execute prepare stored now id n w o f)
  unfolding object_added
  object_added-unwritten id n w (some p) f =
      other_step-unwritten (without_follow_up w) (on_add_object id n p)
  object_added-unwritten id n w none none = handle_task_response-unwritten "" (without_follow_up w)
  object_added-unwritten id n w none (some f) =
      after_follow_up-unwritten (without_follow_up w) (f n)

  ongoing_download-unwritten :
      (w : Work) (tasks : List Task)
      → WritesOnly [] (elim tasks [
        | [] ↦ go_on w no_content
        | t ∷ ts ↦
            dispatched execute prepare stored now
              (t ∷ ts)
              w.session
              (dispatch_task execute stored now t ts w.session.current_task)
      ])
  unfolding dispatched
  ongoing_download-unwritten w [] = refl
  ongoing_download-unwritten w (t ∷ ts) =
      no_status_written (dispatch_task execute stored now t ts w.session.current_task).updates

  handle_download_response-unwritten :
      (status : ℕ) (w : Work)
      → WritesOnly [] (handle_download_response execute prepare stored now status w)
  unfolding handle_download_response
  handle_download_response-unwritten status w = elim (Bool-cases (status == 0)) [
    | inl e ↦ rw e (handle_task_response-unwritten "" w)
    | inr e ↦ rw e (ongoing_download-unwritten w w.pending_tasks)
  ]

  -- Of the responses to AddObject, DeleteObject, SetParameterValues, Reboot, FactoryReset and Download, only that
  -- to SetParameterValues writes stored parameters. Without a running
  -- flow it writes the parameters, the provision mark and the credentials that wait for it, unless
  -- its task is a diagnostic, which it has only begun. In a flow it writes the credentials when it
  -- ends the flow. A fault writes nothing.
  pub handle_response-writes :
      (id : String) (has_serial : Bool) (r : Response) (w : Work)
      → select is_write (handle_response execute prepare stored now id has_serial r w).effects
        ≡ writes id has_serial r w
  unfolding handle_response handle_set_param_values_response handle_delete_object_response
      handle_add_object_response handle_fault
  handle_response-writes id has_serial set_parameter_values_response w =
      set_params_done-writes id has_serial w w.session.wan_provision
  handle_response-writes id has_serial reboot_response w = handle_task_response-unwritten "" w
  handle_response-writes id has_serial factory_reset_response w =
      handle_task_response-unwritten "" w
  handle_response-writes id has_serial delete_object_response w =
      object_deleted-unwritten id w w.session.wan_provision
  handle_response-writes id has_serial (add_object_response n) w =
      object_added-unwritten id n w w.session.wan_provision w.session.add_obj_follow_up
  handle_response-writes id has_serial (download_response status) w =
      handle_download_response-unwritten status w
  handle_response-writes id has_serial (fault cwmp_code cwmp_msg code msg) w =
      handle_task_response-unwritten _ (without_follow_up (with_provision none w))

  handle_task_response-failed :
      (e : String) (t : Task) (w : Work)
      → str_eq e "" ≡ false
      → w.session.current_task ≡ some t
      → w.pending_tasks ≡ []
      → handle_task_response execute prepare stored now e w ≡ record {
        work = with_current none w;
        effects =
            status_updated (record t { completed_at = some now; status = status_failed; error = e })
            ∷ [];
        state = some state_done;
        answer = no_content;
      }
  unfolding handle_task_response next_or_close dispatched
  handle_task_response-failed e t w not_empty current pending =
      rw
        (
          pending,
          current,
          completion-failed now e t not_empty,
          dispatch_next_or_close,
          session_after,
        )
        refl

  -- A fault on the last task of a session: the task has failed with the fault's message, the flow and
  -- the follow-up are given up, and the session is closed. The parameters, the credentials and the
  -- provision mark that waited for the success of the task still wait.
  pub handle_response-fault :
      (id : String) (has_serial : Bool) (cwmp_code cwmp_msg code msg : String) (t : Task) (w : Work)
      → w.session.current_task ≡ some t
      → w.pending_tasks ≡ []
      → handle_response execute prepare stored now id has_serial
          (fault cwmp_code cwmp_msg code msg)
          w
        ≡ record {
          work = record w {
            session = record w.session {
              current_task = none;
              wan_provision = none;
              add_obj_follow_up = none;
            };
          };
          effects =
              status_updated (record t {
                completed_at = some now;
                status = status_failed;
                error = fault_message cwmp_code cwmp_msg code msg;
              })
              ∷ [];
          state = some state_done;
          answer = no_content;
        }
  unfolding handle_response handle_fault
  handle_response-fault id has_serial cwmp_code cwmp_msg code msg t w current pending =
      handle_task_response-failed (fault_message cwmp_code cwmp_msg code msg) t
        (without_follow_up (with_provision none w))
        (fault_message-nonempty cwmp_code cwmp_msg code msg) current pending
