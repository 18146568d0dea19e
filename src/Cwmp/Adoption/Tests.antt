-- ===== src/Cwmp/Adoption/Tests.antt =====
-- A device that comes back, and the theorems on the adoption of its work.
use helix_acs.Prelude.{
  ◌≡◌, refl, String, true, false, [], ◌∷◌, ◌++◌, Option, none, some, ◌==◌, if◌then◌else◌,
}
use helix_acs.Dict.{find}
use helix_acs.Task.Model.{Task, type_reboot, status_executing}
use helix_acs.Cwmp.SessionManager.{get_by_serial}
use helix_acs.Cwmp.Adoption.{Session, Server, has_work, adopt_in_flight_by_serial}
use helix_acs.Cwmp.Adoption.Conserved.{
  in_flight, adopt_in_flight_by_serial-in_flight, adopt_in_flight_by_serial-busy,
}

abbrev task : String → Task
task id = record {
  id = id;
  serial = "S1";
  task_type = type_reboot;
  payload = "";
  status = status_executing;
  created_at = 1;
  executed_at = some 2;
  completed_at = none;
  result = none;
  error = "";
  attempts = 1;
  max_attempts = 3;
}

abbrev session : String → Option Task → Session
session id t = record {
  id = id;
  current_task = t;
  wan_provision = none;
  add_obj_follow_up = none;
  pending_provision_mark = false;
  last_set_params = ("Device.A", "1") ∷ [];
  pending_wan_credentials = [];
}

-- The device's previous session is at 0, the current one, with this task, at 1.
abbrev server : Option Task → Server
server t = record {
  manager = record {
    sessions = ("a", 0) ∷ ("b", 1) ∷ [];
    serial_sessions = ("S1", 0) ∷ [];
    rpc_id_sessions = [];
  };
  session_at = λ a. if a == 0 then session "a" (some (task "t1")) else session "b" t;
}

adopt_in_flight_by_serial-in_flight_example :
    let after = adopt_in_flight_by_serial "S1" 1 (server none) in
    (in_flight (after.0.session_at 0) ++ in_flight (after.0.session_at 1) ≡ task "t1" ∷ [])
    × (after.1 ≡ true → has_work (after.0.session_at 0) ≡ false)
unfolding get_by_serial find
adopt_in_flight_by_serial-in_flight_example =
    adopt_in_flight_by_serial-in_flight "S1" 0 1 (server none) refl refl refl

adopt_in_flight_by_serial-busy_example :
    let after = adopt_in_flight_by_serial "S1" 1 (server (some (task "t2"))) in
    (after.1 ≡ true)
    × ((after.0.session_at 0 ≡ record (session "a" none) { last_set_params = [] })
        × (after.0.session_at 1 ≡ session "b" (some (task "t2"))))
unfolding get_by_serial find
adopt_in_flight_by_serial-busy_example =
    adopt_in_flight_by_serial-busy "S1" 0 1 (server (some (task "t2"))) refl refl refl refl
