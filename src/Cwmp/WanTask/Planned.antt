-- ===== src/Cwmp/WanTask/Planned.antt =====
-- What a WAN task needs before anything is sent, and the credentials that wait for its success.
use mathlib.Core.Path.{subst}
use helix_acs.Prelude.{
  ◌≡◌, refl, String, Bool, true, false, Option, none, some, if◌then◌else◌, str_eq, is_empty, ◌==◌,
  not, ◌&&◌, arith, Bool-cases, inl, inr, ◌⊎◌,
}
use helix_acs.Dict.{Dict}
use helix_acs.Datamodel.Model.{Mapper, InstanceMap}
use helix_acs.Task.Model.{WanPayload}
use helix_acs.Task.Executor.{Built, refused, nothing, built}
use helix_acs.Schema.Driver.{DeviceDriver}
use helix_acs.Cwmp.WanProvision.{WanProvision}
use helix_acs.Cwmp.WanParameters.{build_generic_wan_params, build_wan_credential_map}
use helix_acs.Cwmp.WanTask.{
  WanPlan, refused_with, starts, sets, start, generic_plan, driven_plan, is_driven, new_plan,
  driven_update, update_plan, executor_plan, wan_plan, is_pppoe, is_provisioned,
  is_provisioned_tr181, fallback_params, is_vlan_changing,
}

-- The plan is refused, or leaves these credentials waiting.
unfoldable pub Leaves : Option (Dict String) → WanPlan → Type 0
Leaves c (refused_with e) = Unit
Leaves c (starts wp creds o) = some creds ≡ c
Leaves c (sets params creds) = creds ≡ c

Leaves-start :
    (rpc_id : String) (creds : Dict String) (wp : Option WanProvision)
    → Leaves (some creds) (start rpc_id creds wp)
unfolding Leaves
Leaves-start rpc_id creds none = tt
Leaves-start rpc_id creds (some wp) = refl

Leaves-generic_plan :
    (creds : Dict String) (params : Option (Dict String))
    → Leaves (some creds) (generic_plan creds params)
unfolding Leaves
Leaves-generic_plan creds none = tt
Leaves-generic_plan creds (some params) = refl

Leaves-executor_plan :
    (id : String) (executor : Built (Dict String)) → Leaves none (executor_plan id executor)
unfolding Leaves
Leaves-executor_plan id (refused e) = tt
Leaves-executor_plan id nothing = tt
Leaves-executor_plan id (built params) = elim (Bool-cases (is_empty params)) [
  | inl e ↦ rw e tt
  | inr e ↦ rw e refl
]

Leaves-driven_plan :
    (rpc_id id : String) (im : InstanceMap) (p : WanPayload) (drv : Option DeviceDriver)
    → Leaves (some (build_wan_credential_map p)) (driven_plan rpc_id id im p drv)
unfolding Leaves
Leaves-driven_plan rpc_id id im p none = tt
Leaves-driven_plan rpc_id id im p (some d) = Leaves-start rpc_id (build_wan_credential_map p) _

module _ (rpc_id id : String) (im : InstanceMap) (mapper : Mapper) (p : WanPayload) where
  Leaves-new_plan :
      (drv : Option DeviceDriver)
      → Leaves (some (build_wan_credential_map p)) (new_plan rpc_id id im drv mapper p)
  unfolding Leaves new_plan
  Leaves-new_plan drv = elim (Bool-cases (p.vlan == 0)) [
    | inl e ↦ rw e tt
    | inr e ↦ elim (Bool-cases (str_eq p.username "")) [
      | inl e2 ↦ rw (e, e2) tt
      | inr e2 ↦ elim (Bool-cases (is_driven drv)) [
        | inl e3 ↦ rw (e, e2, e3) (Leaves-driven_plan rpc_id id im p drv)
        | inr e3 ↦ elim (Bool-cases (str_eq mapper.wan_provisioning_type "add_object")) [
          | inl e4 ↦ rw (e, e2, e3, e4) refl
          | inr e4 ↦
              rw (e, e2, e3, e4)
                (Leaves-generic_plan (build_wan_credential_map p)
                  (build_generic_wan_params p mapper))
        ]
      ]
    ]
  ]

  Leaves-driven_update :
      (d : DeviceDriver)
      → Leaves (some (build_wan_credential_map p)) (driven_update rpc_id id im p d)
  unfolding Leaves driven_update
  Leaves-driven_update d =
      elim (Bool-cases
        (is_vlan_changing im p && is_provisioned_tr181 im && im.wan_vlan_term_idx == 0)) [
          | inl e ↦ rw e tt
          | inr e ↦ rw e (Leaves-start rpc_id _ _)
        ]

  Leaves-fallback :
      (given : Bool)
      → Leaves (some (build_wan_credential_map p)) (
          if given
          then refused_with "WAN update fallback: no parameters could be built"
          else sets (fallback_params im mapper p) (some (build_wan_credential_map p)))
  unfolding Leaves
  Leaves-fallback true = tt
  Leaves-fallback false = refl

  Leaves-update_plan :
      (drv : Option DeviceDriver)
      → Leaves (some (build_wan_credential_map p)) (update_plan rpc_id id im drv mapper p)
  unfolding Leaves update_plan
  Leaves-update_plan drv = elim (Bool-cases (is_vlan_changing im p && str_eq p.username "")) [
    | inl e ↦ rw e tt
    | inr e ↦
        elim (Bool-cases
          (not (is_vlan_changing im p) && str_eq p.username "" && str_eq p.password "")) [
            | inl e2 ↦ rw (e, e2) tt
            | inr e2 ↦
                rw (e, e2)
                  (elim drv
                    as (λ d. Leaves (some (build_wan_credential_map p)) (elim d [
                      | some k ↦ driven_update rpc_id id im p k
                      | none ↦
                          if is_empty (fallback_params im mapper p)
                          then refused_with "WAN update fallback: no parameters could be built"
                          else sets (fallback_params im mapper p)
                              (some (build_wan_credential_map p))
                    ])) [
                      | some d ↦ Leaves-driven_update d
                      | none ↦ Leaves-fallback (is_empty (fallback_params im mapper p))
                    ])
          ]
  ]

unfoldable pub is_refused : WanPlan → Bool
is_refused (refused_with e) = true
is_refused (starts wp creds o) = false
is_refused (sets params creds) = false

guard_passed :
    (e : String) (x : WanPlan) (b : Bool)
    → is_refused (if b then refused_with e else x) ≡ false
    → (b ≡ false) × (is_refused x ≡ false)
unfolding is_refused
guard_passed e x true sent = ground arith
guard_passed e x false sent = (refl, sent)

given_either :
    (changing user pass : Bool)
    → changing && user ≡ false
    → not changing && user && pass ≡ false
    → (user ≡ false) ⊎ ((changing ≡ false) × (pass ≡ false))
given_either changing user pass h1 h2 = ground arith

module _ (rpc_id id : String) (im : InstanceMap) (drv : Option DeviceDriver) (mapper : Mapper)
    (executor : Built (Dict String)) (p : WanPayload) where
  -- A plan of the WAN branch that is not refused leaves the credentials of the task waiting when the task is
  -- about PPPoE, and none when it is not.
  pub wan_plan-Leaves :
      Leaves
        (if is_pppoe p then some (build_wan_credential_map p) else none)
        (wan_plan rpc_id id im drv mapper executor (some p))
  unfolding Leaves wan_plan
  wan_plan-Leaves = elim (Bool-cases (is_pppoe p)) [
    | inr e ↦ rw e (Leaves-executor_plan id executor)
    | inl e ↦ elim (Bool-cases (is_provisioned im)) [
      | inl e2 ↦ rw (e, e2) (Leaves-update_plan rpc_id id im mapper p drv)
      | inr e2 ↦ rw (e, e2) (Leaves-new_plan rpc_id id im mapper p drv)
    ]
  ]

  new_plan-given :
      is_refused (new_plan rpc_id id im drv mapper p) ≡ false
      → (p.vlan == 0 ≡ false) × (str_eq p.username "" ≡ false)
  unfolding is_refused new_plan
  new_plan-given sent =
      let (vlan, rest) = guard_passed _ _ (p.vlan == 0) sent in
      let (user, built_plan) = guard_passed _ _ (str_eq p.username "") rest in (vlan, user)

  update_plan-given :
      is_refused (update_plan rpc_id id im drv mapper p) ≡ false
      → (str_eq p.username "" ≡ false)
        ⊎ ((is_vlan_changing im p ≡ false) × (str_eq p.password "" ≡ false))
  unfolding is_refused update_plan
  update_plan-given sent =
      let (changed, rest) = guard_passed _ _ (is_vlan_changing im p && str_eq p.username "") sent in
      let (given, more) =
        guard_passed _ _
          (not (is_vlan_changing im p) && str_eq p.username "" && str_eq p.password "") rest in
      given_either (is_vlan_changing im p) (str_eq p.username "") (str_eq p.password "") changed
        given

  -- A plan for a PPPoE task that is not refused has a user name; but where the device has its WAN and the task
  -- does not change the VLAN, a password is enough. For a device without its WAN the task names a VLAN as well.
  pub wan_plan-given :
      is_pppoe p ≡ true
      → is_refused (wan_plan rpc_id id im drv mapper executor (some p)) ≡ false
      → ((is_provisioned im ≡ false) × (p.vlan == 0 ≡ false) × (str_eq p.username "" ≡ false))
        ⊎ ((is_provisioned im ≡ true)
            × ((str_eq p.username "" ≡ false)
                ⊎ ((is_vlan_changing im p ≡ false) × (str_eq p.password "" ≡ false))))
  unfolding wan_plan
  wan_plan-given pppoe sent = elim (Bool-cases (is_provisioned im)) [
    | inl e ↦
        inr (e, update_plan-given (subst (λ b. is_refused b ≡ false) (rw (pppoe, e) refl) sent))
    | inr e ↦
        let (vlan, user) =
          new_plan-given (subst (λ b. is_refused b ≡ false) (rw (pppoe, e) refl) sent) in
        inl (e, vlan, user)
  ]
