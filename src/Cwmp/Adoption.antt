-- ===== src/Cwmp/Adoption.antt =====
-- `adoptInFlightBySerial` of internal/cwmp/session.go: a device that comes back under a new session
-- goes on with the work of its previous one. Of a session only what it reads or writes is kept.
pub mod Conserved
mod Tests
use helix_acs.Prelude.{
  ℕ, String, Bool, true, false, not, ◌&&◌, ◌||◌, List, [], ◌∷◌, Option, none, some, ◌==◌,
  if◌then◌else◌, is_some, is_empty, str_eq,
}
use helix_acs.Dict.{Dict, copy_into}
use helix_acs.Task.Model.{Task}
use helix_acs.Cwmp.WanProvision.{WanProvision, Outcome}
use helix_acs.Cwmp.SessionManager.{SessionManager, get_by_serial, delete_session}

pub record Session : Type 0 where
  pub id : String
  pub current_task : Option Task
  pub wan_provision : Option WanProvision
  pub add_obj_follow_up : Option (ℕ → Outcome)
  pub pending_provision_mark : Bool
  pub last_set_params : Dict String
  pub pending_wan_credentials : Dict String

abbrev pub has_work : Session → Bool
has_work s = is_some s.current_task || is_some s.wan_provision || is_some s.add_obj_follow_up

abbrev pub copy_or : Dict String → Dict String → Dict String
copy_or copied kept = if is_empty copied then kept else copied

-- The current session with the work of the previous one, unless it has a task of its own.
unfoldable pub take_over : Session → Session → Session
unfolding copy_into
take_over prev current = if is_some current.current_task then current else record current {
  current_task = prev.current_task;
  wan_provision = prev.wan_provision;
  add_obj_follow_up = prev.add_obj_follow_up;
  pending_provision_mark = prev.pending_provision_mark || current.pending_provision_mark;
  last_set_params = copy_or (copy_into prev.last_set_params []) current.last_set_params;
  pending_wan_credentials =
      copy_or (copy_into prev.pending_wan_credentials []) current.pending_wan_credentials;
}

unfoldable pub cleared : Session → Session
cleared prev = record prev {
  current_task = none;
  wan_provision = none;
  add_obj_follow_up = none;
  pending_provision_mark = false;
  last_set_params = [];
  pending_wan_credentials = [];
}

-- The sessions by their addresses, and the manager's tables.
pub record Server : Type 0 where
  pub manager : SessionManager
  pub session_at : ℕ → Session

unfoldable pub write : ℕ → Session → (ℕ → Session) → ℕ → Session
write a s heap b = if a == b then s else heap b

-- The next state of the server, and whether work was moved.
unfoldable pub adopt_in_flight_by_serial : String → ℕ → Server → Server × Bool
adopt_in_flight_by_serial serial current server = elim (get_by_serial serial server.manager) [
  | none ↦ (server, false)
  | some prev ↦
      let p = server.session_at prev in
      if prev == current || not (has_work p) then (server, false) else (
        record {
          manager = if str_eq p.id "" then server.manager else delete_session p.id server.manager;
          session_at =
              write prev (cleared p)
                (write current (take_over p (server.session_at current)) server.session_at);
        },
        true,
      )
]
