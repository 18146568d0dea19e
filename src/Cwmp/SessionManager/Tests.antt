-- ===== src/Cwmp/SessionManager/Tests.antt =====
-- A manager with one old session, and the theorems at it.
use helix_acs.Prelude.{ℕ, ◌≡◌, Bool, [], ◌∷◌, ◌&&◌, ◌+◌, ◌*◌}
use helix_acs.Dict.{find}
use helix_acs.Dict.Laws.{unless}
use helix_acs.Cwmp.SessionManager.{SessionManager, is_old, cleanup}
use helix_acs.Cwmp.SessionManager.Cleanup.{is_registered, find-cleanup}

abbrev manager : SessionManager
manager = record {
  sessions = ("a", 0) ∷ ("b", 1) ∷ [];
  serial_sessions = ("S1", 0) ∷ [];
  rpc_id_sessions = ("r1", 0) ∷ ("r2", 1) ∷ [];
}

abbrev created : ℕ → ℕ
created s = 5 + 3000 * s

find-cleanup_example :
    let after = cleanup created 2000 manager in
    let gone : ℕ → Bool = λ s. is_registered s manager && is_old created 2000 s in
    (find "r1" after.sessions ≡ unless (is_old created 2000) (find "r1" manager.sessions))
    × ((find "r1" after.serial_sessions ≡ unless gone (find "r1" manager.serial_sessions))
        × (find "r1" after.rpc_id_sessions ≡ unless gone (find "r1" manager.rpc_id_sessions)))
find-cleanup_example = find-cleanup created 2000 manager "r1"
