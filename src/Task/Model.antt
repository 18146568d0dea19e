-- ===== src/Task/Model.antt =====
-- The task types of internal/task/model.go. A payload is JSON text, and so is a result. Times are
-- counted in seconds.
use helix_acs.Prelude.{ℕ, String, Bool, true, false, Option}

-- Where no status has been given yet, it is `status_unset`.
pub data Status : Type 0 where
  status_unset status_pending status_executing status_done status_failed status_cancelled : Status

pub data TaskType : Type 0 where
  type_wifi type_wan type_lan type_reboot type_factory_reset : TaskType
  type_set_params type_get_params type_firmware : TaskType
  type_diagnostic type_ping_test type_traceroute type_speed_test : TaskType
  type_connected_devices type_cpe_stats type_port_forwarding type_web_admin : TaskType
  type_get_diag_result : TaskType
  type_other : String → TaskType

unfoldable pub is_diagnostic_async : TaskType → Bool
is_diagnostic_async t = elim t [
  | type_ping_test ↦ true
  | type_traceroute ↦ true
  | type_speed_test ↦ true
  | type_diagnostic ↦ true
  | _ ↦ false
]

pub record Task : Type 0 where
  pub id : String
  pub serial : String
  pub task_type : TaskType
  pub payload : String
  pub status : Status
  pub created_at : ℕ
  pub executed_at : Option ℕ
  pub completed_at : Option ℕ
  pub result : Option String
  pub error : String
  pub attempts : ℕ
  pub max_attempts : ℕ

pub record WanPayload : Type 0 where
  pub connection_type : String
  pub username : String
  pub password : String
  pub ip_address : String
  pub subnet_mask : String
  pub gateway : String
  pub dns1 : String
  pub dns2 : String
  pub vlan : ℕ
  pub mtu : ℕ
  pub ipv6_enabled : Option Bool
