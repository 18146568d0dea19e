-- ===== src/Task/Executor/Tests.antt =====
-- A ping, and the theorem on diagnostics at it.
use helix_acs.Prelude.{◌≡◌, refl, String, true, [], ◌∷◌, none, some}
use helix_acs.Text.{itoa}
use helix_acs.Dict.{Dict, put}
use helix_acs.Datamodel.Tr181.{Tr181Mapper, tr181_mapper}
use helix_acs.Task.Model.{Task, type_ping_test, status_pending, is_diagnostic_async}
use helix_acs.Task.Payload.{Decoder, PingTestPayload}
use helix_acs.Task.Executor.{built, ping_params, build_set_params, build_diag_result_paths}
use helix_acs.Task.Executor.Diagnostics.{diag_base, Requests, Collects, build_set_params-Requests}

abbrev mapper : Tr181Mapper
mapper = record {
  wan_iface_idx = 1;
  lan_iface_idx = 2;
  ppp_iface_idx = 1;
  ssid_indices = [];
  radio_indices = [];
  ap_indices = [];
}

abbrev ping : PingTestPayload
ping = record { host = "192.0.2.1"; count = 0; packet_size = 64; timeout = 0; dscp = 0 }

abbrev decoder : Decoder
decoder = record {
  wifi = λ _. none;
  wan = λ _. none;
  lan = λ _. none;
  set_params = λ _. none;
  get_params = λ _. none;
  firmware = λ _. none;
  diagnostic = λ _. none;
  ping_test = λ _. some ping;
  traceroute = λ _. none;
  speed_test = λ _. none;
  port_forwarding = λ _. none;
  web_admin = λ _. none;
  get_diag_result = λ _. none;
}

abbrev ping_task : Task
ping_task = record {
  id = "t1";
  serial = "S1";
  task_type = type_ping_test;
  payload = "{}";
  status = status_pending;
  created_at = 7;
  executed_at = none;
  completed_at = none;
  result = none;
  error = "";
  attempts = 0;
  max_attempts = 3;
}

ping_defaults :
    ping_params "B." ping
    ≡ ("B.Host", "192.0.2.1")
      ∷ ("B.DiagnosticsState", "Requested")
      ∷ ("B.NumberOfRepetitions", "4")
      ∷ ("B.DataBlockSize", "64")
      ∷ []
unfolding ping_params itoa put
ping_defaults = refl

ping_is_async : is_diagnostic_async ping_task.task_type ≡ true
unfolding is_diagnostic_async
ping_is_async = refl

abbrev ping_request : Dict String
unfolding ping_params
ping_request = ping_params (tr181_mapper mapper).service.ping_base ping

ping_is_built : build_set_params decoder (tr181_mapper mapper) ping_task ≡ built ping_request
unfolding build_set_params ping_request
ping_is_built = refl

build_set_params-Requests_example :
    Requests (diag_base (tr181_mapper mapper) type_ping_test) ping_request
    × Collects
        (diag_base (tr181_mapper mapper) type_ping_test)
        (build_diag_result_paths type_ping_test (tr181_mapper mapper))
build_set_params-Requests_example =
    build_set_params-Requests decoder (tr181_mapper mapper) ping_task ping_request ping_is_async
      ping_is_built
