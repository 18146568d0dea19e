-- ===== src/Api/Tasks.antt =====
-- internal/api/handler/task.go: the endpoints that create, show and cancel tasks. A request is its path
-- variable and its body; a response its status, with the task or the message of an error.
pub mod Accepted
mod Tests
use helix_acs.Prelude.{
  ℕ, String, Bool, true, false, not, ◌||◌, List, [], ◌∷◌, Option, none, some, if◌then◌else◌, str_eq,
  ◌==◌, ltb, is_empty,
}
use helix_acs.Task.Model.{
  Task, TaskType, WanPayload, status_pending, type_wifi, type_wan, type_lan, type_reboot,
  type_factory_reset, type_set_params, type_firmware, type_diagnostic, type_ping_test,
  type_traceroute, type_speed_test, type_connected_devices, type_cpe_stats, type_port_forwarding,
}
use helix_acs.Task.Payload.{
  Decoder, Encoder, SetParamsPayload, FirmwarePayload, DiagnosticPayload, PingTestPayload,
  TraceroutePayload, SpeedTestPayload, PortForwardingPayload,
}

pub data Lookup : Type 0 where
  lookup_failed absent present : Lookup

pub data Response : Type 0 where
  error_response : ℕ → String → Response
  created : Task → Response
  shown : Task → Response
  cancelled : Response

-- The endpoints, named by the handlers.
pub data Endpoint : Type 0 where
  create_wifi create_wan create_lan create_reboot create_factory_reset create_set_params
        create_firmware :
      Endpoint
  create_diagnostic create_ping_test create_traceroute create_speed_test create_connected_devices :
      Endpoint
  create_cpe_stats create_port_forwarding : Endpoint

-- A payload that is refused, or the type and the payload of the task to create.
pub data Checked : Type 0 where
  bad_request : String → Checked
  accepted : TaskType → String → Checked

abbrev pub read_body {ℓ} : {A : Type ℓ} → (A → Checked) → Option A → Checked
read_body f none = bad_request "invalid request body"
read_body f (some p) = f p

abbrev pub required : String → String → Checked → Checked
required v message c = if str_eq v "" then bad_request message else c

abbrev pub check_action : PortForwardingPayload → Checked → Checked
check_action p c =
    if str_eq p.action "add"
    then if p.external_port == 0 || str_eq p.internal_ip "" || p.internal_port == 0
      then bad_request "add requires external_port, internal_ip and internal_port"
      else c
    else if str_eq p.action "remove"
    then if p.instance_number == 0 then bad_request "remove requires instance_number" else c
    else if str_eq p.action "list"
    then c
    else bad_request "action must be add, remove or list"

-- `reader` is `json.NewDecoder(r.Body).Decode`.
unfoldable pub check_body : Decoder → Encoder → Endpoint → String → Checked
check_body reader e create_wifi body =
    read_body (λ p. accepted type_wifi (e.wifi_json p)) (reader.wifi body)
check_body reader e create_wan body =
    read_body (λ p. accepted type_wan (e.wan_json p)) (reader.wan body)
check_body reader e create_lan body =
    read_body (λ p. accepted type_lan (e.lan_json p)) (reader.lan body)
check_body reader e create_reboot body = accepted type_reboot e.empty_json
check_body reader e create_factory_reset body = accepted type_factory_reset e.empty_json
check_body reader e create_set_params body =
    read_body
      (λ p.
        if is_empty p.parameters
        then bad_request "parameters map must not be empty"
        else accepted type_set_params (e.set_params_json p))
      (reader.set_params body)
check_body reader e create_firmware body =
    read_body
      (λ p. required p.url "firmware url is required" (accepted type_firmware (e.firmware_json p)))
      (reader.firmware body)
check_body reader e create_diagnostic body =
    read_body
      (λ p.
        required p.target "diagnostic target is required"
          (accepted type_diagnostic (e.diagnostic_json p)))
      (reader.diagnostic body)
check_body reader e create_ping_test body =
    read_body
      (λ p. required p.host "host is required" (accepted type_ping_test (e.ping_test_json p)))
      (reader.ping_test body)
check_body reader e create_traceroute body =
    read_body
      (λ p. required p.host "host is required" (accepted type_traceroute (e.traceroute_json p)))
      (reader.traceroute body)
check_body reader e create_speed_test body =
    read_body
      (λ p.
        required p.download_url "download_url is required"
          (accepted type_speed_test (e.speed_test_json p)))
      (reader.speed_test body)
check_body reader e create_connected_devices body = accepted type_connected_devices e.empty_json
check_body reader e create_cpe_stats body = accepted type_cpe_stats e.empty_json
check_body reader e create_port_forwarding body =
    read_body (λ p. check_action p (accepted type_port_forwarding (e.port_forwarding_json p)))
      (reader.port_forwarding body)

-- `NewTaskHandler`
unfoldable pub max_attempts_or_default : ℕ → ℕ
max_attempts_or_default n = if n == 0 then 3 else n

unfoldable pub require_device : Lookup → Option Response
require_device lookup_failed = some (error_response 500 "failed to fetch device")
require_device absent = some (error_response 404 "device not found")
require_device present = none

unfoldable pub new_task : ℕ → String → ℕ → String → TaskType → String → Task
new_task max_attempts id now serial task_type raw = record {
  id = id;
  serial = serial;
  task_type = task_type;
  payload = raw;
  status = status_pending;
  created_at = now;
  executed_at = none;
  completed_at = none;
  result = none;
  error = "";
  attempts = 0;
  max_attempts = max_attempts;
}

abbrev pub enqueued : (Task → Bool) → Task → Response
enqueued enqueue t = if enqueue t then created t else error_response 500 "failed to enqueue task"

-- The queue, the clock and `uuid.NewString` are arguments. The error of the codec does not occur.
abbrev pub enqueue_task : (Task → Bool) → ℕ → String → ℕ → String → Checked → Response
unfolding new_task
enqueue_task enqueue max_attempts id now serial (bad_request message) = error_response 400 message
enqueue_task enqueue max_attempts id now serial (accepted task_type raw) =
    enqueued enqueue (new_task max_attempts id now serial task_type raw)

abbrev pub unless_answered : Option Response → Response → Response
unless_answered none r = r
unless_answered (some a) r = a

unfoldable pub create_task :
    (String → Lookup)
    → (Task → Bool)
    → ℕ
    → Decoder
    → Encoder
    → String
    → ℕ
    → Endpoint
    → String
    → String
    → Response
unfolding require_device check_body enqueue_task
create_task find_by_serial enqueue max_attempts reader e id now endpoint serial body =
    unless_answered (require_device (find_by_serial serial))
      (enqueue_task enqueue max_attempts id now serial (check_body reader e endpoint body))

module _ (get_by_id : String → Option Task) (cancel : String → String → Option String) where
  unfoldable pub get_task : String → Response
  get_task task_id =
      if str_eq task_id ""
      then error_response 400 "task_id is required"
      else elim (get_by_id task_id) [
        | none ↦ error_response 404 "task not found"
        | some t ↦ shown t
      ]

  -- `cancel` answers with the text of its error, if it has one.
  unfoldable pub cancel_task : String → Response
  cancel_task task_id =
      if str_eq task_id ""
      then error_response 400 "task_id is required"
      else elim (get_by_id task_id) [
        | none ↦ error_response 404 "task not found"
        | some t ↦ elim (cancel task_id t.serial) [
          | none ↦ cancelled
          | some e ↦ error_response 409 e
        ]
      ]
