-- ===== src/Api/Tasks/Tests.antt =====
-- Requests to the endpoints, and an example of the theorem on created tasks.
use helix_acs.Prelude.{◌≡◌, refl, String, Bool, true, [], none, some}
use helix_acs.Datamodel.Tr181.{Tr181Mapper, tr181_mapper}
use helix_acs.Task.Model.{Task, type_port_forwarding, status_pending}
use helix_acs.Task.Payload.{Decoder, Encoder, RoundTrips, PortForwardingPayload}
use helix_acs.Cwmp.ExecuteTask.{execute_task}
use helix_acs.Cwmp.ExecuteTask.Planned.{is_planned}
use helix_acs.Api.Tasks.{
  Lookup, present, absent, created, error_response, create_port_forwarding, create_reboot,
  create_set_params, create_task,
}
use helix_acs.Api.Tasks.Accepted.{create_task-planned}

abbrev removal : PortForwardingPayload
removal = record {
  action = "remove";
  protocol = "";
  external_port = 0;
  internal_ip = "";
  internal_port = 0;
  description = "";
  enabled = none;
  instance_number = 4;
}

-- A codec that knows one text, of a port forwarding payload.
abbrev reader : Decoder
reader = record {
  wifi = λ _. none;
  wan = λ _. none;
  lan = λ _. none;
  set_params = λ _. none;
  get_params = λ _. none;
  firmware = λ _. none;
  diagnostic = λ _. none;
  ping_test = λ _. none;
  traceroute = λ _. none;
  speed_test = λ _. none;
  port_forwarding = λ _. some removal;
  web_admin = λ _. none;
  get_diag_result = λ _. none;
}

abbrev writer : Encoder
writer = record {
  wifi_json = λ _. "";
  wan_json = λ _. "";
  lan_json = λ _. "";
  set_params_json = λ _. "";
  firmware_json = λ _. "";
  diagnostic_json = λ _. "";
  ping_test_json = λ _. "";
  traceroute_json = λ _. "";
  speed_test_json = λ _. "";
  port_forwarding_json = λ _. "{remove 4}";
  empty_json = "{}";
}

codec-RoundTrips : RoundTrips writer reader reader "{remove 4}"
codec-RoundTrips = record {
  lan_back = λ p h. h;
  set_params_back = λ p h. h;
  firmware_back = λ p h. h;
  diagnostic_back = λ p h. h;
  ping_test_back = λ p h. h;
  traceroute_back = λ p h. h;
  speed_test_back = λ p h. h;
  port_forwarding_back = λ p h. h;
}

abbrev mapper : Tr181Mapper
mapper = record {
  wan_iface_idx = 1;
  lan_iface_idx = 2;
  ppp_iface_idx = 1;
  ssid_indices = [];
  radio_indices = [];
  ap_indices = [];
}

abbrev found : String → Lookup
found serial = present

abbrev stored : Task → Bool
stored t = true

abbrev removal_task : Task
removal_task = record {
  id = "t1";
  serial = "S1";
  task_type = type_port_forwarding;
  payload = "{remove 4}";
  status = status_pending;
  created_at = 7;
  executed_at = none;
  completed_at = none;
  result = none;
  error = "";
  attempts = 0;
  max_attempts = 3;
}

removal_created :
    create_task found stored 3 reader writer "t1" 7 create_port_forwarding "S1" "{remove 4}"
    ≡ created removal_task
unfolding create_task
removal_created = refl

refused_requests :
    (create_task (λ _. absent) stored 3 reader writer "t1" 7 create_reboot "S1" ""
      ≡ error_response 404 "device not found")
    × (create_task found stored 3 reader writer "t1" 7 create_set_params "S1" ""
        ≡ error_response 400 "invalid request body")
unfolding create_task
refused_requests = (refl, refl)

create_task-planned_example :
    is_planned (execute_task reader (tr181_mapper mapper) removal_task) ≡ true
create_task-planned_example =
    create_task-planned writer reader reader "{remove 4}" codec-RoundTrips (tr181_mapper mapper)
      found stored 3 "t1" 7 create_port_forwarding "S1" removal_task refl removal_created
