-- ===== src/Task/Payload.antt =====
-- The payloads of internal/task/model.go, and the JSON codec as far as it is used on them. The code
-- tests numbers only for being positive: a number that is not positive is 0 here.
use helix_acs.Prelude.{ℕ, ◌≡◌, String, Bool, List, Option, some}
use helix_acs.Dict.{Dict}
use helix_acs.Task.Model.{WanPayload}

pub record WifiPayload : Type 0 where
  pub band : String
  pub ssid : String
  pub password : String
  pub security : String
  pub channel : ℕ
  pub enabled : Option Bool
  pub band_steering_enabled : Option Bool

pub record LanPayload : Type 0 where
  pub dhcp_enabled : Bool
  pub ip_address : String
  pub subnet_mask : String
  pub dhcp_start : String
  pub dhcp_end : String
  pub dns_server : String
  pub lease_time : ℕ

pub record SetParamsPayload : Type 0 where
  pub parameters : Dict String

pub record GetParamsPayload : Type 0 where
  pub parameters : List String

pub record FirmwarePayload : Type 0 where
  pub url : String
  pub version : String
  pub file_type : String
  pub username : String
  pub password : String

pub record DiagnosticPayload : Type 0 where
  pub diag_type : String
  pub target : String
  pub count : ℕ

pub record PingTestPayload : Type 0 where
  pub host : String
  pub count : ℕ
  pub packet_size : ℕ
  pub timeout : ℕ
  pub dscp : ℕ

pub record TraceroutePayload : Type 0 where
  pub host : String
  pub max_hops : ℕ
  pub timeout : ℕ
  pub packet_size : ℕ
  pub dscp : ℕ

pub record SpeedTestPayload : Type 0 where
  pub download_url : String
  pub upload_url : String
  pub file_size : ℕ
  pub dscp : ℕ

pub record PortForwardingPayload : Type 0 where
  pub action : String
  pub protocol : String
  pub external_port : ℕ
  pub internal_ip : String
  pub internal_port : ℕ
  pub description : String
  pub enabled : Option Bool
  pub instance_number : ℕ

pub record GetDiagResultPayload : Type 0 where
  pub original_task_id : String
  pub original_task_type : String
  pub paths : List String

pub record WebAdminPayload : Type 0 where
  pub password : String

-- `json.Unmarshal` into the types of payloads; `none` is an error.
pub record Decoder : Type 0 where
  pub wifi : String → Option WifiPayload
  pub wan : String → Option WanPayload
  pub lan : String → Option LanPayload
  pub set_params : String → Option SetParamsPayload
  pub get_params : String → Option GetParamsPayload
  pub firmware : String → Option FirmwarePayload
  pub diagnostic : String → Option DiagnosticPayload
  pub ping_test : String → Option PingTestPayload
  pub traceroute : String → Option TraceroutePayload
  pub speed_test : String → Option SpeedTestPayload
  pub port_forwarding : String → Option PortForwardingPayload
  pub web_admin : String → Option WebAdminPayload
  pub get_diag_result : String → Option GetDiagResultPayload

-- `json.Marshal` of such values, which have no error.
pub record Encoder : Type 0 where
  pub wifi_json : WifiPayload → String
  pub wan_json : WanPayload → String
  pub lan_json : LanPayload → String
  pub set_params_json : SetParamsPayload → String
  pub firmware_json : FirmwarePayload → String
  pub diagnostic_json : DiagnosticPayload → String
  pub ping_test_json : PingTestPayload → String
  pub traceroute_json : TraceroutePayload → String
  pub speed_test_json : SpeedTestPayload → String
  pub port_forwarding_json : PortForwardingPayload → String
  pub empty_json : String

-- What is read of a body can be encoded, and is decoded to the same value.
pub record RoundTrips (e : Encoder) (d : Decoder) (reader : Decoder) (body : String) : Type 0 where
  pub lan_back : (p : LanPayload) → reader.lan body ≡ some p → d.lan (e.lan_json p) ≡ some p
  pub set_params_back :
      (p : SetParamsPayload)
      → reader.set_params body ≡ some p
      → d.set_params (e.set_params_json p) ≡ some p
  pub firmware_back :
      (p : FirmwarePayload)
      → reader.firmware body ≡ some p
      → d.firmware (e.firmware_json p) ≡ some p
  pub diagnostic_back :
      (p : DiagnosticPayload)
      → reader.diagnostic body ≡ some p
      → d.diagnostic (e.diagnostic_json p) ≡ some p
  pub ping_test_back :
      (p : PingTestPayload)
      → reader.ping_test body ≡ some p
      → d.ping_test (e.ping_test_json p) ≡ some p
  pub traceroute_back :
      (p : TraceroutePayload)
      → reader.traceroute body ≡ some p
      → d.traceroute (e.traceroute_json p) ≡ some p
  pub speed_test_back :
      (p : SpeedTestPayload)
      → reader.speed_test body ≡ some p
      → d.speed_test (e.speed_test_json p) ≡ some p
  pub port_forwarding_back :
      (p : PortForwardingPayload)
      → reader.port_forwarding body ≡ some p
      → d.port_forwarding (e.port_forwarding_json p) ≡ some p
