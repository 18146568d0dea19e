-- ===== src/Cwmp/ExecuteTask/Planned.antt =====
-- Which tasks lead to a request.
use helix_acs.Prelude.{
  ℕ, ◌≡◌, refl, inl, inr, String, Bool, true, false, [], ◌∷◌, some, if◌then◌else◌, str_eq, ltb,
  ◌==◌, Bool-cases, is_empty,
}
use helix_acs.Text.{◌+++◌}
use helix_acs.Dict.{Dict, put, copy_into}
use helix_acs.Datamodel.Model.{Mapper}
use helix_acs.Task.Payload.{
  LanPayload, SetParamsPayload, PingTestPayload, TraceroutePayload, SpeedTestPayload,
  PortForwardingPayload,
}
use helix_acs.Task.Executor.{
  built, put_given, put_positive, requested, lan_params, ping_params, traceroute_params,
  speed_test_params, set_params, port_forwarding_paths,
}
use helix_acs.Cwmp.ExecuteTask.{
  Plan, refused_with, elsewhere, request, add_object_then, set_params_plan, port_forwarding_plan,
}

abbrev pub is_planned : Plan → Bool
is_planned (refused_with e) = false
is_planned elsewhere = false
is_planned (request r) = true
is_planned (add_object_then path f) = true

put-nonempty : (k v : String) (params : Dict String) → is_empty (put k v params) ≡ false
unfolding put
put-nonempty k v [] = refl
put-nonempty k v ((j, w) ∷ params) = elim (Bool-cases (str_eq j k)) [
  | inl e ↦ rw e refl
  | inr e ↦ rw e refl
]

put_given-nonempty :
    (k v : String) (params : Dict String)
    → is_empty params ≡ false
    → is_empty (put_given k v params) ≡ false
put_given-nonempty k v params h = elim (Bool-cases (str_eq v "")) [
  | inl e ↦ rw e h
  | inr e ↦ rw e (put-nonempty k v params)
]

put_positive-nonempty :
    (k : String) (n : ℕ) (params : Dict String)
    → is_empty params ≡ false
    → is_empty (put_positive k n params) ≡ false
put_positive-nonempty k n params h = elim (Bool-cases (ltb 0 n)) [
  | inl e ↦ rw e (put-nonempty k _ params)
  | inr e ↦ rw e h
]

lan_params-nonempty : (mapper : Mapper) (p : LanPayload) → is_empty (lan_params mapper p) ≡ false
unfolding lan_params
lan_params-nonempty mapper p = search (put_given-nonempty)

ping_params-nonempty : (base : String) (p : PingTestPayload) → is_empty (ping_params base p) ≡ false
unfolding ping_params
ping_params-nonempty base p = search (put_positive-nonempty, put-nonempty)

traceroute_params-nonempty :
    (base : String) (p : TraceroutePayload) → is_empty (traceroute_params base p) ≡ false
unfolding traceroute_params
traceroute_params-nonempty base p = search (put_positive-nonempty, put-nonempty)

set_params_plan-planned :
    (id : String) (params : Dict String)
    → is_empty params ≡ false
    → is_planned (set_params_plan id (built params)) ≡ true
set_params_plan-planned id params h = rw h refl

pub lan-planned :
    (id : String) (mapper : Mapper) (p : LanPayload)
    → is_planned (set_params_plan id (built (lan_params mapper p))) ≡ true
lan-planned id mapper p =
    set_params_plan-planned id (lan_params mapper p) (lan_params-nonempty mapper p)

pub ping-planned :
    (id base : String) (p : PingTestPayload)
    → is_planned (set_params_plan id (built (ping_params base p))) ≡ true
ping-planned id base p =
    set_params_plan-planned id (ping_params base p) (ping_params-nonempty base p)

pub traceroute-planned :
    (id base : String) (p : TraceroutePayload)
    → is_planned (set_params_plan id (built (traceroute_params base p))) ≡ true
traceroute-planned id base p =
    set_params_plan-planned id (traceroute_params base p) (traceroute_params-nonempty base p)

pub speed_test-planned :
    (id base : String) (p : SpeedTestPayload)
    → str_eq p.download_url "" ≡ false
    → is_planned (set_params_plan id (speed_test_params base p)) ≡ true
unfolding speed_test_params
speed_test-planned id base p h =
    let asked = requested base "DownloadURL" p.download_url in
    let sized = put_positive (base +++ "TestFileLength") p.file_size asked in
    let all = put_positive (base +++ "DSCP") p.dscp sized in
    let some_given : is_empty all ≡ false = search (put_positive-nonempty, put-nonempty) in
    rw h (set_params_plan-planned id all some_given)

copy_into-nonempty :
    (params : Dict String) → is_empty params ≡ false → is_empty (copy_into params []) ≡ false
unfolding copy_into
copy_into-nonempty [] h = h
copy_into-nonempty ((k, v) ∷ params) h = put-nonempty k v (copy_into params [])

pub set_params-planned :
    (id : String) (p : SetParamsPayload)
    → is_empty p.parameters ≡ false
    → is_planned (set_params_plan id (set_params p)) ≡ true
unfolding set_params
set_params-planned id p h = rw h (set_params_plan-planned id _ (copy_into-nonempty p.parameters h))

-- The action is one of the three, and a removal names an instance.
abbrev pub is_action : PortForwardingPayload → Bool
is_action p =
    if str_eq p.action "add"
    then true
    else if str_eq p.action "remove"
    then if p.instance_number == 0 then false else true
    else str_eq p.action "list"

pub port_forwarding-planned :
    (mapper : Mapper) (p : PortForwardingPayload)
    → is_action p ≡ true
    → is_planned (port_forwarding_plan mapper (port_forwarding_paths mapper p) (some p)) ≡ true
unfolding port_forwarding_plan port_forwarding_paths
port_forwarding-planned mapper p = elim (Bool-cases (str_eq p.action "add")) [
  | inl a ↦ rw a λ _. refl
  | inr not_a ↦ rw not_a (elim (Bool-cases (str_eq p.action "remove")) [
    | inl r ↦ rw r (elim (Bool-cases (p.instance_number == 0)) [
      | inl zero ↦ rw zero λ h. h
      | inr nonzero ↦ rw nonzero λ _. refl
    ])
    | inr not_r ↦ rw not_r (elim (Bool-cases (str_eq p.action "list")) [
      | inl l ↦ rw l λ _. refl
      | inr not_l ↦ rw not_l λ h. h
    ])
  ])
]
