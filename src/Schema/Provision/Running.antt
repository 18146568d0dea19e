-- ===== src/Schema/Provision/Running.antt =====
-- One step of a settled executor: the first of the pending steps is taken off.
use helix_acs.Prelude.{
  ℕ, suc, ◌≡◌, refl, sym, ap, ◌∙◌, inl, inr, String, true, false, List, [], ◌∷◌, Option, some,
  Bool-cases, Option-cases, select, drop,
}
use helix_acs.Text.{itoa}
use helix_acs.Dict.{Dict}
use helix_acs.Schema.Flow.{ProvisionStep, ProvisionFlow}
use helix_acs.Schema.Driver.{DeviceDriver}
use helix_acs.Schema.Provision.{
  ProvisionExecutor, is_active, skip_inactive, initial_vars, initial_features, new_executor, done,
  step_at, put_unless_empty, advance, advance_add_object,
}
use helix_acs.Schema.Provision.Progress.{
  IsSettled, pending, skip_inactive-IsSettled, pending-skip_inactive, pending-step_at, step_at-done,
  pending-done,
}

cons-head : {s t : ProvisionStep} {ps qs : List ProvisionStep} → s ∷ ps ≡ t ∷ qs → s ≡ t
cons-head h = cc

cons-tail : {s t : ProvisionStep} {ps qs : List ProvisionStep} → s ∷ ps ≡ t ∷ qs → ps ≡ qs
cons-tail h = cc

-- The first pending step is the current one.
pub step_at-pending :
    (pe : ProvisionExecutor) (s : ProvisionStep) (ps : List ProvisionStep)
    → IsSettled pe
    → pending pe ≡ s ∷ ps
    → step_at pe ≡ some s
step_at-pending pe s ps settled h = elim (Option-cases (step_at pe)) [
  | inl none_left ↦ absurd (let e = pending-done pe ((step_at-done pe).0 none_left) in cc)
  | inr (t, e) ↦ e ∙ ap some (cons-head (sym (pending-step_at pe t settled e) ∙ h))
]

pub done-pending :
    (pe : ProvisionExecutor) (s : ProvisionStep) (ps : List ProvisionStep)
    → IsSettled pe
    → pending pe ≡ s ∷ ps
    → done pe ≡ false
done-pending pe s ps settled h = elim (Bool-cases (done pe)) [
  | inl all_done ↦ absurd (let e = pending-done pe all_done in cc)
  | inr e ↦ e
]

rest-pending :
    (pe : ProvisionExecutor) (s : ProvisionStep) (ps : List ProvisionStep)
    → IsSettled pe
    → pending pe ≡ s ∷ ps
    → select (is_active pe.features) (drop (suc pe.cur) pe.flow.steps) ≡ ps
rest-pending pe s ps settled h =
    cons-tail (sym (pending-step_at pe s settled (step_at-pending pe s ps settled h)) ∙ h)

pub done-none : (pe : ProvisionExecutor) → IsSettled pe → pending pe ≡ [] → done pe ≡ true
done-none pe settled h = elim (Option-cases (step_at pe)) [
  | inl none_left ↦ (step_at-done pe).0 none_left
  | inr (t, e) ↦ absurd (let p = pending-step_at pe t settled e in cc)
]

-- `Advance` on an executor that has a step to run.
pub pending-advance :
    (pe : ProvisionExecutor) (s : ProvisionStep) (ps : List ProvisionStep)
    → IsSettled pe
    → pending pe ≡ s ∷ ps
    → (pending (advance pe) ≡ ps)
      × (IsSettled (advance pe)
          × (((advance pe).vars ≡ pe.vars) × ((advance pe).features ≡ pe.features)))
unfolding advance
pending-advance pe s ps settled h =
    let next = record pe { cur = suc pe.cur } in
    rw (done-pending pe s ps settled h) (
      pending-skip_inactive next ∙ unfold pending in rest-pending pe s ps settled h,
      (skip_inactive-IsSettled next, (unfold skip_inactive in refl, unfold skip_inactive in refl)),
    )

-- `AdvanceAddObject` on an executor that has a step to run.
pub pending-advance_add_object :
    (pe : ProvisionExecutor) (n : ℕ) (s : ProvisionStep) (ps : List ProvisionStep)
    → IsSettled pe
    → pending pe ≡ s ∷ ps
    → (pending (advance_add_object n pe) ≡ ps)
      × (IsSettled (advance_add_object n pe)
          × (((advance_add_object n pe).vars ≡ put_unless_empty s.as_var (itoa n) pe.vars)
              × ((advance_add_object n pe).features ≡ pe.features)))
unfolding advance_add_object
pending-advance_add_object pe n s ps settled h =
    let next = record pe { vars = put_unless_empty s.as_var (itoa n) pe.vars; cur = suc pe.cur } in
    rw (step_at-pending pe s ps settled h, advance_add_object)
      (
        pending-skip_inactive next ∙ unfold pending in rest-pending pe s ps settled h,
        (
          skip_inactive-IsSettled next,
          (unfold skip_inactive in refl, unfold skip_inactive in refl),
        ),
      )

-- A new executor stands before the active steps of its flow, which its variables decide.
pub pending-new_executor :
    (flow : ProvisionFlow) (driver : Option DeviceDriver) (input_vars : Dict String)
    → let pe = new_executor flow driver input_vars in
      (pending pe ≡ select (is_active pe.features) flow.steps)
      × (IsSettled pe
          × ((pe.vars ≡ initial_vars driver input_vars)
              × (pe.features ≡ initial_features driver (initial_vars driver input_vars))))
unfolding new_executor
pending-new_executor flow driver input_vars =
    let vars = initial_vars driver input_vars in
    let start : ProvisionExecutor = record {
      flow = flow;
      driver = driver;
      vars = vars;
      features = initial_features driver vars;
      cur = 0;
    } in
    (
      pending-skip_inactive start ∙ unfold pending skip_inactive in refl,
      (skip_inactive-IsSettled start, (unfold skip_inactive in refl, unfold skip_inactive in refl)),
    )
