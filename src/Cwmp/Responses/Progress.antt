-- ===== src/Cwmp/Responses/Progress.antt =====
-- What a response of the device leads to.
use helix_acs.Prelude.{
  ℕ, zero, suc, ◌+◌, ◌-◌, ◌<◌, ◌≤◌, ◌≡◌, refl, sym, ◌∙◌, ◌⊎◌, inl, inr, not, ◌==◌, arith, String,
  Bool, true, false, List, [], ◌∷◌, Option, none, some, if◌then◌else◌, length, get_elem?,
  Bool-cases, Option-cases,
}
use helix_acs.Task.Model.{Task}
use mathlib.Core.Path.{subst}
use mathlib.Core.Bool.{true≢false}
use mathlib.Core.Option.{none-ne-some}
use helix_acs.Schema.Flow.{ProvisionStep}
use helix_acs.Schema.Provision.{
  ProvisionExecutor, skip_inactive, advance, advance_add_object, done, step_at, current_step,
}
use helix_acs.Cwmp.WanProvision.{
  WanProvision, Outcome, failed, complete, next, on_add_object, on_set_params, on_delete_object,
  build_current_xml, is_add_object,
}
use helix_acs.Cwmp.Adoption.{Session}
use helix_acs.Cwmp.Dispatch.{Execution, Dispatched, state_done, dispatch_task}
use helix_acs.Cwmp.Dispatch.First.{
  Agrees, first_dispatchable, is_dispatchable, dispatch_next_or_close-first,
}
use helix_acs.Cwmp.Responses.{
  set_params_done, object_deleted, object_added, after_follow_up, without_credentials,
  set_parameter_values_response, reboot_response, factory_reset_response, delete_object_response,
  add_object_response, download_response, handle_download_response, go_on, fault, Work, Handled,
  Answer, request, empty_body, task_sent, no_content, Effect, Response, after_effects, with_current,
  with_provision, without_follow_up, dispatched, next_or_close, handle_task_response, after_step,
  is_async, handle_set_param_values_response, handle_add_object_response,
  handle_delete_object_response, handle_fault, handle_response, credentials_effects,
  without_set_params,
}

-- The steps of a flow from the current one on.
abbrev pub steps_left : ProvisionExecutor → ℕ
steps_left pe = length pe.flow.steps - pe.cur

skip_inactive-steps_left : (pe : ProvisionExecutor) → steps_left (skip_inactive pe) ≤ steps_left pe
unfolding skip_inactive
skip_inactive-steps_left pe = omega arith

advance-not_done :
    (pe : ProvisionExecutor)
    → done pe ≡ false
    → advance pe ≡ skip_inactive (record pe { cur = suc pe.cur })
unfolding advance
advance-not_done pe h = rw (h, advance) refl

advance-steps_left :
    (pe : ProvisionExecutor) → done pe ≡ false → steps_left (advance pe) < steps_left pe
unfolding done
advance-steps_left pe h =
    let skipped = skip_inactive-steps_left (record pe { cur = suc pe.cur }) in
    let before : pe.cur < length pe.flow.steps = ground arith in
    rw (advance-not_done pe h) (omega (arith, skipped))

get_elem?-some_lt :
    {A : Type 0} (xs : List A) (i : ℕ) (x : A) → get_elem? xs i ≡ some x → i < length xs
get_elem?-some_lt [] i x h = absurd (none-ne-some x h)
get_elem?-some_lt (y ∷ ys) zero x h = omega arith
get_elem?-some_lt (y ∷ ys) (suc i) x h = omega (arith, get_elem?-some_lt ys i x h)

advance_add_object-steps_left :
    (n : ℕ) (pe : ProvisionExecutor) (st : ProvisionStep)
    → step_at pe ≡ some st
    → steps_left (advance_add_object n pe) < steps_left pe
unfolding step_at advance_add_object
advance_add_object-steps_left n pe st h =
    let before = get_elem?-some_lt pe.flow.steps pe.cur st h in
    rw (h, advance_add_object) (omega arith)

-- A provisioning that goes on has fewer steps left.
abbrev pub Decreases : ℕ → WanProvision → Outcome → Type 0
Decreases n p (failed e) = Unit
Decreases n p complete = Unit
Decreases n p (next r) = steps_left p.exe < n

abbrev pub StepDecreases : ℕ → WanProvision × Outcome → Type 0
StepDecreases n step = Decreases n step.0 step.1

build_current_xml-Decreases :
    (n : ℕ) (id : String) (p : WanProvision)
    → steps_left p.exe < n
    → Decreases n p (build_current_xml id p)
unfolding build_current_xml
build_current_xml-Decreases n id p h = elim (Option-cases (current_step p.exe)) [
  | inl e ↦ rw (e, build_current_xml) tt
  | inr (s, e) ↦ rw (e, build_current_xml) h
]

continued-Decreases :
    (n : ℕ) (id : String) (p : WanProvision)
    → steps_left p.exe < n
    → Decreases n p (if done p.exe then complete else build_current_xml id p)
continued-Decreases n id p h = elim (Bool-cases (done p.exe)) [
  | inl e ↦ rw e tt
  | inr e ↦ rw e (build_current_xml-Decreases n id p h)
]

unless_done-Decreases :
    (n : ℕ) (b : Bool) (p p' : WanProvision) (o : Outcome)
    → (b ≡ false → Decreases n p' o)
    → StepDecreases n (if b then (p, complete) else (p', o))
unless_done-Decreases n true p p' o h = tt
unless_done-Decreases n false p p' o h = h refl

if_expected-Decreases :
    (n : ℕ) (b : Bool) (e : String) (p p' : WanProvision) (o : Outcome)
    → (b ≡ true → Decreases n p' o)
    → StepDecreases n (if b then (p', o) else (p, failed e))
if_expected-Decreases n true e p p' o h = h refl
if_expected-Decreases n false e p p' o h = tt

on_set_params-Decreases :
    (id : String) (p : WanProvision) → StepDecreases (steps_left p.exe) (on_set_params id p)
unfolding on_set_params
on_set_params-Decreases id p =
    unless_done-Decreases (steps_left p.exe) (done p.exe) p (record p { exe = advance p.exe }) _
      (λ e.
        continued-Decreases _ id (record p { exe = advance p.exe }) (advance-steps_left p.exe e))

on_delete_object-Decreases :
    (id : String) (p : WanProvision) → StepDecreases (steps_left p.exe) (on_delete_object id p)
unfolding on_delete_object
on_delete_object-Decreases id p =
    unless_done-Decreases (steps_left p.exe) (done p.exe) p (record p { exe = advance p.exe }) _
      (λ e.
        continued-Decreases _ id (record p { exe = advance p.exe }) (advance-steps_left p.exe e))

expected_step :
    (pe : ProvisionExecutor)
    → is_add_object (current_step pe) ≡ true
    → (st : ProvisionStep) × (step_at pe ≡ some st)
unfolding current_step
expected_step pe h = elim (Option-cases (step_at pe)) [
  | inr found ↦ found
  | inl e ↦ absurd (true≢false (sym h ∙ (rw (e, current_step) refl)))
]

on_add_object-Decreases :
    (id : String) (n : ℕ) (p : WanProvision)
    → StepDecreases (steps_left p.exe) (on_add_object id n p)
unfolding on_add_object
on_add_object-Decreases id n p =
    if_expected-Decreases (steps_left p.exe) (is_add_object (current_step p.exe))
      "expected AddObject step" p (record p { exe = advance_add_object n p.exe }) _
      (λ e.
        let (st, at) = expected_step p.exe e in
        continued-Decreases _ id (record p { exe = advance_add_object n p.exe })
          (advance_add_object-steps_left n p.exe st at))

-- The requests of the session's own task that may still follow.
abbrev pub flow_left : Option WanProvision → ℕ
flow_left none = 0
flow_left (some p) = steps_left p.exe

abbrev pub follow_ups : Option (ℕ → Outcome) → ℕ
follow_ups none = 0
follow_ups (some f) = 1

abbrev pub requests_left : Session → ℕ
requests_left s = flow_left s.wan_provision + follow_ups s.add_obj_follow_up

-- By the answer: a further request of the same task, with fewer to follow; the next task, with
-- fewer pending; or the end.
abbrev pub LeadsOnBy : Answer → Work → Handled → Type 0
LeadsOnBy (request r) w h =
    (h.work.pending_tasks ≡ w.pending_tasks)
    × (requests_left h.work.session < requests_left w.session)
LeadsOnBy empty_body w h =
    (h.work.pending_tasks ≡ w.pending_tasks)
    × (requests_left h.work.session < requests_left w.session)
LeadsOnBy (task_sent t) w h = length h.work.pending_tasks < length w.pending_tasks
LeadsOnBy no_content w h = (h.work.pending_tasks ≡ []) × (h.state ≡ some state_done)

abbrev pub LeadsOn : Work → Handled → Type 0
LeadsOn w h = LeadsOnBy h.answer w h

-- A download whose response has another status than 0 goes on; the device tells of its end later.
abbrev pub is_ongoing : Response → Bool
is_ongoing (download_response status) = not (status == 0)
is_ongoing _ = false

-- The session waits for the end of a download, as it was.
abbrev pub Waits : Response → Work → Handled → Type 0
Waits r w h = (is_ongoing r ≡ true) × (w.pending_tasks ≡ []) × (h ≡ go_on w no_content)

abbrev pub LeadsOnOrWaits : Response → Work → Handled → Type 0
LeadsOnOrWaits r w h = LeadsOn w h ⊎ Waits r w h

LeadsOnBy-after_effects :
    (a : Answer) (es : List Effect) (w : Work) (h : Handled)
    → LeadsOnBy a w h
    → LeadsOnBy a w (after_effects es h)
LeadsOnBy-after_effects (request r) es w h l = l
LeadsOnBy-after_effects empty_body es w h l = l
LeadsOnBy-after_effects (task_sent t) es w h l = l
LeadsOnBy-after_effects no_content es w h l = l

LeadsOn-after_effects :
    (es : List Effect) (w : Work) (h : Handled) → LeadsOn w h → LeadsOn w (after_effects es h)
LeadsOn-after_effects es w h l = LeadsOnBy-after_effects h.answer es w h l

module _ (execute : Task → Execution) (prepare : Task → Session → Session) (stored : Task → Bool)
    (now : ℕ) where
  abbrev Shorter : ℕ → Option (Task × List Task) → Type 0
  Shorter n none = Unit
  Shorter n (some (t, ts)) = length ts < n

  Shorter-mono : (n : ℕ) (o : Option (Task × List Task)) → Shorter n o → Shorter (suc n) o
  Shorter-mono n none h = tt
  Shorter-mono n (some (t, ts)) h = omega arith

  first_dispatchable-Shorter :
      (tasks : List Task) → Shorter (length tasks) (first_dispatchable execute stored now tasks)
  unfolding first_dispatchable
  first_dispatchable-Shorter [] = tt
  first_dispatchable-Shorter (t ∷ ts) = elim (Bool-cases (is_dispatchable execute stored now t)) [
    | inl e ↦ rw e (omega arith)
    | inr e ↦ rw e (Shorter-mono (length ts) _ (first_dispatchable-Shorter ts))
  ]

  dispatched-LeadsOn :
      (w : Work) (tasks : List Task) (s : Session) (o : Option (Task × List Task)) (d : Dispatched)
      → Shorter (length w.pending_tasks) o
      → Agrees execute stored now o d
      → LeadsOn w (dispatched execute prepare stored now tasks s d)
  unfolding dispatched
  dispatched-LeadsOn w tasks s none d shorter agrees = rw agrees.1.0 (agrees.0, agrees.1.1)
  dispatched-LeadsOn w tasks s (some (t, ts)) d shorter agrees = rw (agrees.1.0, agrees.0) shorter

  next_or_close-LeadsOn :
      (w w' : Work)
      → w'.pending_tasks ≡ w.pending_tasks
      → LeadsOn w (next_or_close execute prepare stored now w')
  unfolding next_or_close
  next_or_close-LeadsOn w w' same =
      dispatched-LeadsOn w w'.pending_tasks w'.session
        (first_dispatchable execute stored now w'.pending_tasks) _
        (subst (λ ts. Shorter (length ts) (first_dispatchable execute stored now w'.pending_tasks))
          same (first_dispatchable-Shorter w'.pending_tasks))
        (dispatch_next_or_close-first execute stored now w'.pending_tasks w'.session.current_task)

  handle_task_response-LeadsOn :
      (e : String) (w w' : Work)
      → w'.pending_tasks ≡ w.pending_tasks
      → LeadsOn w (handle_task_response execute prepare stored now e w')
  unfolding handle_task_response
  handle_task_response-LeadsOn e w w' same =
      LeadsOn-after_effects _ w _ (next_or_close-LeadsOn w (with_current none w') same)

  after_step-LeadsOn :
      (effects : Work → List Effect) (clear : Work → Work) (w w' : Work) (n : ℕ)
      (step : WanProvision × Outcome)
      → ((v : Work) → (clear v).pending_tasks ≡ v.pending_tasks)
      → w'.pending_tasks ≡ w.pending_tasks
      → n + follow_ups w'.session.add_obj_follow_up ≤ requests_left w.session
      → StepDecreases n step
      → LeadsOn w (after_step execute prepare stored now effects clear w' step)
  unfolding after_step
  after_step-LeadsOn effects clear w w' n (p, failed e) keeps same enough less =
      handle_task_response-LeadsOn e w (with_provision none w') same
  after_step-LeadsOn effects clear w w' n (p, complete) keeps same enough less =
      LeadsOn-after_effects _ w _
        (handle_task_response-LeadsOn "" w (clear (with_provision none w')) (keeps _ ∙ same))
  after_step-LeadsOn effects clear w w' n (p, next r) keeps same enough less = (same, omega arith)

  set_params_done-LeadsOn :
      (id : String) (has_serial : Bool) (w : Work) (o : Option WanProvision)
      → flow_left o ≡ flow_left w.session.wan_provision
      → LeadsOn w (set_params_done execute prepare stored now id has_serial w o)
  unfolding set_params_done
  set_params_done-LeadsOn id has_serial w none e =
      elim (Bool-cases (is_async w.session.current_task)) [
        | inl h ↦ rw h (next_or_close-LeadsOn w (with_current none w) refl)
        | inr h ↦ rw h (
            LeadsOn-after_effects _ w _
              (handle_task_response-LeadsOn "" w (without_set_params w) refl))
      ]
  set_params_done-LeadsOn id has_serial w (some p) e =
      after_step-LeadsOn (credentials_effects has_serial) without_credentials w w (steps_left p.exe)
        (on_set_params id p) (λ v. refl) refl (omega arith) (on_set_params-Decreases id p)

  object_deleted-LeadsOn :
      (id : String) (w : Work) (o : Option WanProvision)
      → flow_left o ≡ flow_left w.session.wan_provision
      → LeadsOn w (object_deleted execute prepare stored now id w o)
  unfolding object_deleted
  object_deleted-LeadsOn id w none e = handle_task_response-LeadsOn "" w w refl
  object_deleted-LeadsOn id w (some p) e =
      after_step-LeadsOn (λ _. []) (λ v. v) w w (steps_left p.exe) (on_delete_object id p)
        (λ v. refl) refl (omega arith) (on_delete_object-Decreases id p)

  after_follow_up-LeadsOn :
      (w : Work) (o : Outcome)
      → 0 < follow_ups w.session.add_obj_follow_up
      → LeadsOn w (after_follow_up execute prepare stored now (without_follow_up w) o)
  unfolding after_follow_up
  after_follow_up-LeadsOn w (failed e) h =
      handle_task_response-LeadsOn e w (without_follow_up w) refl
  after_follow_up-LeadsOn w complete h = (refl, omega arith)
  after_follow_up-LeadsOn w (next r) h = (refl, omega arith)

  object_added-LeadsOn :
      (id : String) (n : ℕ) (w : Work) (o : Option WanProvision) (f : Option (ℕ → Outcome))
      → flow_left o ≡ flow_left w.session.wan_provision
      → follow_ups f ≡ follow_ups w.session.add_obj_follow_up
      → LeadsOn w (object_added execute prepare stored now id n w o f)
  unfolding object_added
  object_added-LeadsOn id n w (some p) f e k =
      after_step-LeadsOn (λ _. []) (λ v. v) w (without_follow_up w) (steps_left p.exe)
        (on_add_object id n p) (λ v. refl) refl (omega arith) (on_add_object-Decreases id n p)
  object_added-LeadsOn id n w none none e k =
      handle_task_response-LeadsOn "" w (without_follow_up w) refl
  object_added-LeadsOn id n w none (some f) e k = after_follow_up-LeadsOn w (f n) (omega arith)

  ongoing_download-LeadsOn :
      (status : ℕ) (w : Work) (tasks : List Task)
      → (status == 0) ≡ false
      → w.pending_tasks ≡ tasks
      → LeadsOnOrWaits (download_response status) w (elim tasks [
        | [] ↦ go_on w no_content
        | t ∷ ts ↦
            dispatched execute prepare stored now
              (t ∷ ts)
              w.session
              (dispatch_task execute stored now t ts w.session.current_task)
      ])
  unfolding dispatch_task
  ongoing_download-LeadsOn status w [] ongoing e = inr (rw ongoing refl, e, refl)
  ongoing_download-LeadsOn status w (t ∷ ts) ongoing e = inl (
      dispatched-LeadsOn w (t ∷ ts) w.session (first_dispatchable execute stored now (t ∷ ts)) _
        (subst (λ us. Shorter (length us) (first_dispatchable execute stored now (t ∷ ts))) (sym e)
          (first_dispatchable-Shorter (t ∷ ts)))
        (dispatch_next_or_close-first execute stored now (t ∷ ts) w.session.current_task))

  handle_download_response-LeadsOn :
      (status : ℕ) (w : Work)
      → LeadsOnOrWaits
          (download_response status)
          w
          (handle_download_response execute prepare stored now status w)
  unfolding handle_download_response
  handle_download_response-LeadsOn status w = elim (Bool-cases (status == 0)) [
    | inl finished ↦ rw finished (inl (handle_task_response-LeadsOn "" w w refl))
    | inr ongoing ↦
        subst (λ h. LeadsOnOrWaits (download_response status) w h) (sym (rw ongoing refl))
          (ongoing_download-LeadsOn status w w.pending_tasks ongoing refl)
  ]

  -- A response to AddObject, DeleteObject, SetParameterValues, Reboot, FactoryReset or Download, or a fault, leads
  -- on: to a further request of the same task, with fewer of them to follow and the same pending tasks; to the
  -- next task, with fewer tasks pending; or to the end of the session, with none. But when a download goes on and
  -- no task is pending, the session is left as it is, with no content for an answer.
  pub handle_response-LeadsOn :
      (id : String) (has_serial : Bool) (r : Response) (w : Work)
      → LeadsOnOrWaits r w (handle_response execute prepare stored now id has_serial r w)
  unfolding handle_response handle_set_param_values_response handle_delete_object_response
      handle_add_object_response handle_fault
  handle_response-LeadsOn id has_serial set_parameter_values_response w =
      inl (set_params_done-LeadsOn id has_serial w w.session.wan_provision refl)
  handle_response-LeadsOn id has_serial reboot_response w =
      inl (handle_task_response-LeadsOn "" w w refl)
  handle_response-LeadsOn id has_serial factory_reset_response w =
      inl (handle_task_response-LeadsOn "" w w refl)
  handle_response-LeadsOn id has_serial delete_object_response w =
      inl (object_deleted-LeadsOn id w w.session.wan_provision refl)
  handle_response-LeadsOn id has_serial (add_object_response n) w =
      inl
        (object_added-LeadsOn id n w w.session.wan_provision w.session.add_obj_follow_up refl refl)
  handle_response-LeadsOn id has_serial (fault cwmp_code cwmp_msg code msg) w =
      inl (handle_task_response-LeadsOn _ w (without_follow_up (with_provision none w)) refl)
  handle_response-LeadsOn id has_serial (download_response status) w =
      handle_download_response-LeadsOn status w
