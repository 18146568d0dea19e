-- ===== src/Api/Tasks/Accepted.antt =====
-- A payload that an endpoint accepts is not refused when its task is executed.
use mathlib.Core.Path.{subst}
use mathlib.Core.Bool.{false≢true}
use helix_acs.Prelude.{
  ℕ, ◌≡◌, refl, inl, inr, String, Bool, true, false, Option, none, some, if◌then◌else◌, str_eq,
  Bool-cases, is_empty, ◌==◌,
}
use helix_acs.Datamodel.Model.{Mapper}
use helix_acs.Task.Model.{Task}
use helix_acs.Task.Payload.{Decoder, Encoder, RoundTrips, PortForwardingPayload}
use helix_acs.Task.Executor.{build_set_params, build_get_params}
use helix_acs.Cwmp.ExecuteTask.{execute_task}
use helix_acs.Cwmp.ExecuteTask.Planned.{
  is_planned, is_action, lan-planned, ping-planned, traceroute-planned, speed_test-planned,
  set_params-planned, port_forwarding-planned,
}
use helix_acs.Api.Tasks.{
  Lookup, lookup_failed, absent, present, Response, error_response, created, shown, cancelled,
  Endpoint, create_wifi, create_wan, create_lan, create_reboot, create_factory_reset,
  create_set_params, create_firmware, create_diagnostic, create_ping_test, create_traceroute,
  create_speed_test, create_connected_devices, create_cpe_stats, create_port_forwarding, Checked,
  bad_request, accepted, read_body, required, check_action, check_body, require_device, new_task,
  enqueue_task, unless_answered, create_task,
}

-- All endpoints but those of WAN and WiFi tasks.
abbrev pub checks_payload : Endpoint → Bool
checks_payload create_wifi = false
checks_payload create_wan = false
checks_payload _ = true

module _ (e : Encoder) (d reader : Decoder) (body : String) (rt : RoundTrips e d reader body)
    (mapper : Mapper) where
  abbrev Executable : Task → Type 0
  Executable t = is_planned (execute_task d mapper t) ≡ true

  abbrev ExecutableIfCreated : Response → Type 0
  ExecutableIfCreated (created t) = Executable t
  ExecutableIfCreated (error_response status message) = Unit
  ExecutableIfCreated (shown t) = Unit
  ExecutableIfCreated cancelled = Unit

  module _ (max_attempts : ℕ) (id : String) (now : ℕ) (serial : String) where
    abbrev ExecutableIfAccepted : Checked → Type 0
    ExecutableIfAccepted (bad_request message) = Unit
    ExecutableIfAccepted (accepted task_type raw) =
        Executable (new_task max_attempts id now serial task_type raw)

    read_body-ExecutableIfAccepted :
        {A : Type 0} (f : A → Checked) (o : Option A)
        → ((p : A) → o ≡ some p → ExecutableIfAccepted (f p))
        → ExecutableIfAccepted (read_body f o)
    read_body-ExecutableIfAccepted f none h = tt
    read_body-ExecutableIfAccepted f (some p) h = h p refl

    required-ExecutableIfAccepted :
        (v message : String) (c : Checked)
        → (str_eq v "" ≡ false → ExecutableIfAccepted c)
        → ExecutableIfAccepted (required v message c)
    required-ExecutableIfAccepted v message c h = elim (Bool-cases (str_eq v "")) [
      | inl e ↦ rw e tt
      | inr e ↦ rw e (h e)
    ]

    if_then_bad-ExecutableIfAccepted :
        (b : Bool) (message : String) (c : Checked)
        → ExecutableIfAccepted c
        → ExecutableIfAccepted (if b then bad_request message else c)
    if_then_bad-ExecutableIfAccepted true message c h = tt
    if_then_bad-ExecutableIfAccepted false message c h = h

    check_action-ExecutableIfAccepted :
        (p : PortForwardingPayload) (c : Checked)
        → (is_action p ≡ true → ExecutableIfAccepted c)
        → ExecutableIfAccepted (check_action p c)
    check_action-ExecutableIfAccepted p c = elim (Bool-cases (str_eq p.action "add")) [
      | inl a ↦ rw a λ h. if_then_bad-ExecutableIfAccepted _ _ c (h refl)
      | inr not_a ↦ rw not_a (elim (Bool-cases (str_eq p.action "remove")) [
        | inl r ↦ rw r (elim (Bool-cases (p.instance_number == 0)) [
          | inl zero ↦ rw zero λ _. tt
          | inr nonzero ↦ rw nonzero λ h. h refl
        ])
        | inr not_r ↦ rw not_r (elim (Bool-cases (str_eq p.action "list")) [
          | inl l ↦ rw l λ h. h refl
          | inr not_l ↦ rw not_l λ _. tt
        ])
      ])
    ]

    check_body-ExecutableIfAccepted :
        (endpoint : Endpoint)
        → checks_payload endpoint ≡ true
        → ExecutableIfAccepted (check_body reader e endpoint body)
    unfolding check_body execute_task build_set_params build_get_params new_task
    check_body-ExecutableIfAccepted create_wifi h = absurd (false≢true h)
    check_body-ExecutableIfAccepted create_wan h = absurd (false≢true h)
    check_body-ExecutableIfAccepted create_lan h =
        read_body-ExecutableIfAccepted _ (reader.lan body)
          (λ p read. rw (rt.lan_back p read) (lan-planned id mapper p))
    check_body-ExecutableIfAccepted create_reboot h = refl
    check_body-ExecutableIfAccepted create_factory_reset h = refl
    check_body-ExecutableIfAccepted create_set_params h =
        read_body-ExecutableIfAccepted _ (reader.set_params body) (λ p read.
          elim (Bool-cases (is_empty p.parameters)) [
            | inl none_given ↦ rw none_given tt
            | inr given ↦ rw given (rw (rt.set_params_back p read) (set_params-planned id p given))
          ])
    check_body-ExecutableIfAccepted create_firmware h =
        read_body-ExecutableIfAccepted _ (reader.firmware body) (λ p read.
          required-ExecutableIfAccepted p.url _ _ (λ _. rw (rt.firmware_back p read) refl))
    check_body-ExecutableIfAccepted create_diagnostic h =
        read_body-ExecutableIfAccepted _ (reader.diagnostic body) (λ p read.
          required-ExecutableIfAccepted p.target _ _ (λ _. rw (rt.diagnostic_back p read) refl))
    check_body-ExecutableIfAccepted create_ping_test h =
        read_body-ExecutableIfAccepted _ (reader.ping_test body) (λ p read.
          required-ExecutableIfAccepted p.host _ _
            (λ _. rw (rt.ping_test_back p read) (ping-planned id mapper.service.ping_base p)))
    check_body-ExecutableIfAccepted create_traceroute h =
        read_body-ExecutableIfAccepted _ (reader.traceroute body) (λ p read.
          required-ExecutableIfAccepted p.host _ _ (λ _.
            rw (rt.traceroute_back p read)
              (traceroute-planned id mapper.service.traceroute_base p)))
    check_body-ExecutableIfAccepted create_speed_test h =
        read_body-ExecutableIfAccepted _ (reader.speed_test body) (λ p read.
          required-ExecutableIfAccepted p.download_url _ _ (λ given.
            rw (rt.speed_test_back p read)
              (speed_test-planned id mapper.service.download_base p given)))
    check_body-ExecutableIfAccepted create_connected_devices h = refl
    check_body-ExecutableIfAccepted create_cpe_stats h = refl
    check_body-ExecutableIfAccepted create_port_forwarding h =
        read_body-ExecutableIfAccepted _ (reader.port_forwarding body) (λ p read.
          check_action-ExecutableIfAccepted p _
            (λ known. rw (rt.port_forwarding_back p read) (port_forwarding-planned mapper p known)))

    enqueue_task-ExecutableIfCreated :
        (enqueue : Task → Bool) (c : Checked)
        → ExecutableIfAccepted c
        → ExecutableIfCreated (enqueue_task enqueue max_attempts id now serial c)
    unfolding enqueue_task
    enqueue_task-ExecutableIfCreated enqueue (bad_request message) h = tt
    enqueue_task-ExecutableIfCreated enqueue (accepted task_type raw) h =
        elim (Bool-cases (enqueue (new_task max_attempts id now serial task_type raw))) [
          | inl b ↦ rw b h
          | inr b ↦ rw b tt
        ]

    unless_answered-ExecutableIfCreated :
        (l : Lookup) (r : Response)
        → ExecutableIfCreated r
        → ExecutableIfCreated (unless_answered (require_device l) r)
    unfolding require_device
    unless_answered-ExecutableIfCreated lookup_failed r h = tt
    unless_answered-ExecutableIfCreated absent r h = tt
    unless_answered-ExecutableIfCreated present r h = h

  -- A task that an endpoint has created, other than for WAN and WiFi, leads to a request when it is
  -- executed, whatever the mapper of its device: its payload is never refused then. It needs that
  -- what is read of the request's body can be encoded, and is decoded to the same value.
  pub create_task-planned :
      (find_by_serial : String → Lookup) (enqueue : Task → Bool) (max_attempts : ℕ) (id : String)
      (now : ℕ) (endpoint : Endpoint) (serial : String) (t : Task)
      → checks_payload endpoint ≡ true
      → create_task find_by_serial enqueue max_attempts reader e id now endpoint serial body
        ≡ created t
      → is_planned (execute_task d mapper t) ≡ true
  unfolding create_task
  create_task-planned find_by_serial enqueue max_attempts id now endpoint serial t checks h =
      subst ExecutableIfCreated h (
        unless_answered-ExecutableIfCreated max_attempts id now serial (find_by_serial serial) _ (
          enqueue_task-ExecutableIfCreated max_attempts id now serial enqueue
            (check_body reader e endpoint body)
            (check_body-ExecutableIfAccepted max_attempts id now serial endpoint checks)))
