-- ===== src/Cwmp/Adoption/Conserved.antt =====
-- What becomes of the work of both sessions.
use helix_acs.Prelude.{
  ℕ, ◌≡◌, refl, ap, ◌∙◌, inl, inr, String, true, false, List, [], ◌∷◌, ◌++◌, none, some, arith,
  ◌==◌, is_some, Bool-cases, append-nil,
}
use helix_acs.Task.Model.{Task}
use helix_acs.Cwmp.SessionManager.{get_by_serial}
use helix_acs.Cwmp.Adoption.{
  Session, has_work, take_over, cleared, Server, write, adopt_in_flight_by_serial,
}

-- The tasks in flight of a session.
abbrev pub in_flight : Session → List Task
in_flight s = elim s.current_task [ none ↦ [] | some t ↦ t ∷ [] ]

idle-in_flight : (c : Session) → is_some c.current_task ≡ false → in_flight c ≡ []
idle-in_flight c h = ground arith

write-same : (a : ℕ) (s : Session) (heap : ℕ → Session) → write a s heap a ≡ s
unfolding write
write-same a s heap = ground arith

write-other :
    (a b : ℕ) (s : Session) (heap : ℕ → Session) → (a == b) ≡ false → write a s heap b ≡ heap b
unfolding write
write-other a b s heap h = rw h

in_flight-take_over :
    (p c : Session) → is_some c.current_task ≡ false → in_flight (take_over p c) ≡ in_flight p
unfolding take_over
in_flight-take_over p c h = rw h

-- A device has a previous session, and the current one has no task of its own. Then adoption neither
-- loses a task in flight nor doubles it, wherever it says that work was moved: the task of the
-- previous session is the current one's, and the previous session has none.
pub adopt_in_flight_by_serial-in_flight :
    (serial : String) (prev current : ℕ) (server : Server)
    → get_by_serial serial server.manager ≡ some prev
    → (prev == current) ≡ false
    → is_some ((server.session_at current).current_task) ≡ false
    → let after = adopt_in_flight_by_serial serial current server in
      (in_flight (after.0.session_at prev) ++ in_flight (after.0.session_at current)
        ≡ in_flight (server.session_at prev))
      × (after.1 ≡ true → has_work (after.0.session_at prev) ≡ false)
unfolding adopt_in_flight_by_serial cleared
adopt_in_flight_by_serial-in_flight serial prev current server known differ idle =
    let p = server.session_at prev in
    let c = server.session_at current in
    rw (known, adopt_in_flight_by_serial)
      (elim (Bool-cases (has_work p)) [
        | inr nothing ↦
            rw (nothing, differ)
              (
                ap (λ ts. in_flight p ++ ts) (idle-in_flight c idle) ∙ append-nil (in_flight p),
                λ h. absurd (let e = h in cc),
              )
        | inl work ↦
            rw (work, differ)
              (
                (ap
                      (λ s.
                        in_flight s
                        ++ in_flight (
                            write prev (cleared p) (write current (take_over p c) server.session_at)
                              current))
                      (write-same prev (cleared p)
                        (write current (take_over p c) server.session_at))
                    ∙ ap (λ s. in_flight s)
                        (write-other prev current (cleared p)
                            (write current (take_over p c) server.session_at) differ
                          ∙ write-same current (take_over p c) server.session_at)
                    ∙ in_flight-take_over p c idle),
                (λ _.
                    ap (λ s. has_work s)
                      (write-same prev (cleared p)
                        (write current (take_over p c) server.session_at))),
              )
      ])

take_over-busy : (p c : Session) → is_some c.current_task ≡ true → take_over p c ≡ c
unfolding take_over
take_over-busy p c h = rw h

-- When the current session has a task of its own already, adoption says that it has moved the work of the
-- previous session. But the current session is as before, and of the previous one only its identifier is left:
-- its task, flow, follow-up, provision mark, parameters and credentials are gone.
pub adopt_in_flight_by_serial-busy :
    (serial : String) (prev current : ℕ) (server : Server)
    → get_by_serial serial server.manager ≡ some prev
    → (prev == current) ≡ false
    → has_work (server.session_at prev) ≡ true
    → is_some ((server.session_at current).current_task) ≡ true
    → let after = adopt_in_flight_by_serial serial current server in
      (after.1 ≡ true)
      × ((after.0.session_at prev ≡ record {
        id = (server.session_at prev).id;
        current_task = none;
        wan_provision = none;
        add_obj_follow_up = none;
        pending_provision_mark = false;
        last_set_params = [];
        pending_wan_credentials = [];
      })
          × (after.0.session_at current ≡ server.session_at current))
unfolding adopt_in_flight_by_serial cleared
adopt_in_flight_by_serial-busy serial prev current server known differ work busy =
    let p = server.session_at prev in
    let c = server.session_at current in
    rw (known, adopt_in_flight_by_serial)
      (rw (work, differ)
        (
          refl,
          (
            write-same prev (cleared p) (write current (take_over p c) server.session_at),
            write-other prev current (cleared p) (write current (take_over p c) server.session_at)
                  differ
                ∙ write-same current (take_over p c) server.session_at
                ∙ take_over-busy p c busy,
          ),
        ))
