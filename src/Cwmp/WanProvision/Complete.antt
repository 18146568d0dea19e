-- ===== src/Cwmp/WanProvision/Complete.antt =====
-- The state machine runs its flow to the end.
use helix_acs.Prelude.{
  ℕ, zero, suc, ◌≤◌, ◌≡◌, refl, ◌∙◌, ◌⊎◌, inl, inr, String, List, [], ◌∷◌, Option, some, arith,
  length, select,
}
use helix_acs.Dict.{Dict}
use helix_acs.Schema.Flow.{ProvisionStepKind, add_object, set, delete, ProvisionStep, ProvisionFlow}
use helix_acs.Schema.Driver.{DeviceDriver, get_provision_flow}
use helix_acs.Schema.Provision.{
  ProvisionExecutor, is_active, initial_vars, initial_features, new_executor, current_step, advance,
  advance_add_object, substitute, resolve_params,
}
use helix_acs.Schema.Provision.Progress.{IsSettled, pending}
use helix_acs.Schema.Provision.Running.{
  step_at-pending, done-pending, done-none, pending-advance, pending-advance_add_object,
  pending-new_executor,
}
use helix_acs.Cwmp.WanProvision.{
  Outcome, complete, next, WanProvision, new_wan_provision_from_driver, build_current_xml,
  next_or_complete, on_add_object, on_set_params, on_delete_object,
}
use helix_acs.Cwmp.WanProvision.Script.{request_for, vars_after, script, respond, run}

-- What the handlers return behind an executor.
abbrev outcome_at : String → ProvisionExecutor → String → Outcome
outcome_at id pe task_id = (next_or_complete id (record { task_id = task_id; exe = pe })).1

kind-cases : (kind : ProvisionStepKind) → (kind ≡ add_object) ⊎ ((kind ≡ set) ⊎ (kind ≡ delete))
kind-cases add_object = inl refl
kind-cases set = inr (inl refl)
kind-cases delete = inr (inr refl)

module _ (answer : ℕ → ℕ) (id : ℕ → String) where
  current_step-pending :
      (p : WanProvision) (s : ProvisionStep) (ps : List ProvisionStep)
      → IsSettled p.exe
      → pending p.exe ≡ s ∷ ps
      → current_step p.exe
        ≡ some (record {
          kind = s.kind;
          object = substitute p.exe.vars s.object;
          params = resolve_params p.exe.vars s.params;
        })
  unfolding current_step substitute resolve_params
  current_step-pending p s ps settled h = rw (step_at-pending p.exe s ps settled h, current_step)

  build_current_xml-pending :
      (k : ℕ) (p : WanProvision) (s : ProvisionStep) (ps : List ProvisionStep)
      → IsSettled p.exe
      → pending p.exe ≡ s ∷ ps
      → build_current_xml (id k) p ≡ next (request_for answer id k p.exe.vars s)
  unfolding build_current_xml
  build_current_xml-pending k p s ps settled h =
      rw (current_step-pending p s ps settled h, build_current_xml)
        (elim (kind-cases s.kind) [ inl e ↦ rw e | inr (inl e) ↦ rw e | inr (inr e) ↦ rw e ])

  -- A handler of the right kind answers with the next request, and has taken one step.
  respond-pending :
      (k : ℕ) (p : WanProvision) (s : ProvisionStep) (ps : List ProvisionStep)
      → IsSettled p.exe
      → pending p.exe ≡ s ∷ ps
      → (exe : ProvisionExecutor) × ((respond answer id k (request_for answer id k p.exe.vars s) p
            ≡ next_or_complete (id (suc k)) (record p { exe = exe }))
          × ((pending exe ≡ ps)
              × (IsSettled exe × (exe.vars ≡ vars_after answer id k p.exe.vars s))))
  unfolding respond on_set_params on_delete_object on_add_object
  respond-pending k p s ps settled h = elim (kind-cases s.kind) [
    | inl e ↦
        let (left, (still, (vars, fs))) =
          pending-advance_add_object p.exe (answer k) s ps settled h in
        (
          advance_add_object (answer k) p.exe,
          (rw (e, current_step-pending p s ps settled h) (rw e), (left, (still, rw e vars))),
        )
    | inr (inl e) ↦
        let (left, (still, (vars, fs))) = pending-advance p.exe s ps settled h in
        (advance p.exe, (rw (e, done-pending p.exe s ps settled h), (left, (still, rw e vars))))
    | inr (inr e) ↦
        let (left, (still, (vars, fs))) = pending-advance p.exe s ps settled h in
        (advance p.exe, (rw (e, done-pending p.exe s ps settled h), (left, (still, rw e vars))))
  ]

  -- From any point of the flow.
  run-script :
      (ps : List ProvisionStep) (fuel k : ℕ) (p : WanProvision)
      → IsSettled p.exe
      → pending p.exe ≡ ps
      → suc (length ps) ≤ fuel
      → run answer id fuel k p ((next_or_complete (id k) p).1)
        ≡ (script answer id k p.exe.vars ps, complete)
  unfolding run script
  run-script ps zero k p settled h enough = absurd (omega arith)
  run-script [] (suc fuel) k p settled h enough = rw (done-none p.exe settled h)
  run-script (s ∷ ps) (suc fuel) k p settled h enough =
      let (exe, (response, (left, (still, vars)))) = respond-pending k p s ps settled h in
      let later = run-script ps fuel (suc k) (record p { exe = exe }) still left (omega arith) in
      rw (done-pending p.exe s ps settled h, build_current_xml-pending k p s ps settled h)
        (rw (response, ← vars, later))

-- A flow that a driver has, started with some input variables, with at least one active step, and
-- with a CPE that answers each request by its own kind of response: the server sends the requests
-- of exactly the active steps, in the flow's order, each built with the variables known by then,
-- and then reports completion. One more unit of fuel than active steps is enough.
pub run-new_wan_provision_from_driver :
    (answer : ℕ → ℕ) (id : ℕ → String) (task_id flow_name : String) (driver : Option DeviceDriver)
    (input_vars : Dict String) (flow : ProvisionFlow) (fuel : ℕ) (s : ProvisionStep)
    (ps : List ProvisionStep)
    → get_provision_flow driver flow_name ≡ some flow
    → select (is_active (initial_features driver (initial_vars driver input_vars))) flow.steps
      ≡ s ∷ ps
    → suc (length (s ∷ ps)) ≤ fuel
    → (p : WanProvision) × ((new_wan_provision_from_driver task_id driver flow_name input_vars
          ≡ some p)
        × (run answer id fuel 0 p (build_current_xml (id 0) p)
            ≡ (script answer id 0 (initial_vars driver input_vars) (s ∷ ps), complete)))
unfolding new_wan_provision_from_driver
run-new_wan_provision_from_driver answer id task_id flow_name driver input_vars flow fuel s ps
      has_flow active enough =
    let (left, (settled, (vars, features))) = pending-new_executor flow driver input_vars in
    let p : WanProvision = record {
      task_id = task_id;
      exe = new_executor flow driver input_vars;
    } in
    let first : pending p.exe ≡ s ∷ ps = left ∙ (rw features active) in
    let whole = run-script answer id (s ∷ ps) fuel 0 p settled first enough in
    let ready = rw (done-pending p.exe s ps settled first) at whole in
    (p, (rw (has_flow, new_wan_provision_from_driver), rw vars at ready))
