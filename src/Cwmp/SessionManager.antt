-- ===== src/Cwmp/SessionManager.antt =====
-- `SessionManager` of internal/cwmp/session.go. A session is known by its address; when it was
-- created is a function of that address. Time is counted in seconds.
pub mod Cleanup
mod Tests
use helix_acs.Prelude.{
  ℕ, ◌+◌, String, Bool, true, false, List, [], ◌∷◌, Option, none, some, ltb, ◌==◌, if◌then◌else◌,
  str_eq, map, select, any, is_empty,
}
use helix_acs.Dict.{Dict, find, put, delete, drop_where}

pub record SessionManager : Type 0 where
  pub sessions : Dict ℕ
  pub serial_sessions : Dict ℕ
  pub rpc_id_sessions : Dict ℕ

-- The session, which is the new one when there was none. The new one's address is an argument.
unfoldable pub get_or_create : String → ℕ → SessionManager → SessionManager × ℕ
unfolding find put
get_or_create session_id fresh sm = elim (find session_id sm.sessions) [
  | some s ↦ (sm, s)
  | none ↦ (record sm { sessions = put session_id fresh sm.sessions }, fresh)
]

unfoldable pub delete_session : String → SessionManager → SessionManager
unfolding delete
delete_session session_id sm = record sm { sessions = delete session_id sm.sessions }

unfoldable pub bind_serial : String → Option ℕ → SessionManager → SessionManager
unfolding put
bind_serial serial none sm = sm
bind_serial serial (some s) sm =
    if str_eq serial "" then sm else record sm { serial_sessions = put serial s sm.serial_sessions }

unfoldable pub get_by_serial : String → SessionManager → Option ℕ
unfolding find
get_by_serial serial sm = if str_eq serial "" then none else find serial sm.serial_sessions

unfoldable pub bind_rpc_id : String → Option ℕ → SessionManager → SessionManager
unfolding put
bind_rpc_id id none sm = sm
bind_rpc_id id (some s) sm =
    if str_eq id "" then sm else record sm { rpc_id_sessions = put id s sm.rpc_id_sessions }

unfoldable pub take_by_rpc_id : String → SessionManager → SessionManager × Option ℕ
unfolding find delete
take_by_rpc_id id sm =
    if str_eq id ""
    then (sm, none)
    else (record sm { rpc_id_sessions = delete id sm.rpc_id_sessions }, find id sm.rpc_id_sessions)

abbrev pub session_ttl : ℕ
session_ttl = 1800

abbrev pub is_old : (ℕ → ℕ) → ℕ → ℕ → Bool
is_old created_at now s = ltb (created_at s + session_ttl) now

-- The sessions that the first phase of `Cleanup` collects.
unfoldable pub expired : (ℕ → ℕ) → ℕ → SessionManager → List ℕ
expired created_at now sm = select (is_old created_at now) (map (λ e. e.1) sm.sessions)

unfoldable pub cleanup : (ℕ → ℕ) → ℕ → SessionManager → SessionManager
unfolding expired drop_where
cleanup created_at now sm =
    let old = expired created_at now sm in
    let is_expired : ℕ → Bool = λ s. any (λ t. t == s) old in
    if is_empty old
    then record sm { sessions = drop_where (is_old created_at now) sm.sessions }
    else record {
      sessions = drop_where (is_old created_at now) sm.sessions;
      serial_sessions = drop_where is_expired sm.serial_sessions;
      rpc_id_sessions = drop_where is_expired sm.rpc_id_sessions;
    }
