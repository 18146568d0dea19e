-- ===== src/Cwmp/Restore/Wan.antt =====
-- The credentials that a WAN task has stored, and what is restored of them.
use helix_acs.Prelude.{◌≡◌, refl, ◌∙◌, String, false, [], ◌∷◌, some, str_eq, arith}
use helix_acs.Dict.{Dict, find, value_of}
use helix_acs.Task.Model.{WanPayload}
use helix_acs.Cwmp.WanParameters.{build_wan_credential_map}
use helix_acs.Cwmp.WanParameters.Keys.{find-build_wan_credential_map}
use helix_acs.Cwmp.Restore.{Found, note_ppp, find_ppp, stored_credentials, wan_payload}

note_ppp-keeps :
    (key val : String) (f : Found)
    → str_eq f.username "" ≡ false
    → str_eq f.password "" ≡ false
    → ((note_ppp key val f).username ≡ f.username) × ((note_ppp key val f).password ≡ f.password)
unfolding note_ppp
note_ppp-keeps key val f u p = ground arith

find_ppp-keeps :
    (snapshot : Dict String) (f : Found)
    → str_eq f.username "" ≡ false
    → str_eq f.password "" ≡ false
    → ((find_ppp snapshot f).username ≡ f.username) × ((find_ppp snapshot f).password ≡ f.password)
unfolding find_ppp
find_ppp-keeps [] f u p = (refl, refl)
find_ppp-keeps ((k, v) ∷ snapshot) f u p =
    let (same_user, same_pass) = note_ppp-keeps k v f u p in
    let (user, pass) = find_ppp-keeps snapshot (note_ppp k v f) (rw same_user u) (rw same_pass p) in
    (user ∙ same_user, pass ∙ same_pass)

wan_payload-found :
    (snapshot : Dict String) (user pass : String)
    → str_eq user "" ≡ false
    → str_eq pass "" ≡ false
    → stored_credentials snapshot ≡ record { username = user; password = pass; lower_layers = "" }
    → (q : WanPayload) × (wan_payload snapshot ≡ some q)
      × (q.username ≡ user)
      × (q.password ≡ pass)
      × (q.connection_type ≡ "pppoe")
unfolding wan_payload
wan_payload-found snapshot user pass u p e =
    let start : Found = record { username = user; password = pass; lower_layers = "" } in
    let (same_user, same_pass) = find_ppp-keeps snapshot start u p in
    let given_user : str_eq (find_ppp snapshot start).username "" ≡ false = rw same_user u in
    rw (e, wan_payload, given_user) (_, refl, same_user, same_pass, refl)

-- A snapshot that holds the credentials that a WAN task with a user name and a password has stored gives a
-- task for PPPoE with the same user name and password, whatever else the snapshot holds.
pub wan_payload-build_wan_credential_map :
    (p : WanPayload) (snapshot : Dict String)
    → str_eq p.username "" ≡ false
    → str_eq p.password "" ≡ false
    → ((key : String) (v : String)
        → find key (build_wan_credential_map p) ≡ some v
        → find key snapshot ≡ some v)
    → (q : WanPayload) × (wan_payload snapshot ≡ some q)
      × (q.username ≡ p.username)
      × (q.password ≡ p.password)
      × (q.connection_type ≡ "pppoe")
unfolding value_of
wan_payload-build_wan_credential_map p snapshot u w holds =
    let (user, (pass, rest)) = find-build_wan_credential_map p in
    let user_here = holds "_helix.provision.pppoe_username" p.username (user ∙ rw u refl) in
    let pass_here = holds "_helix.provision.pppoe_password" p.password (pass ∙ rw w refl) in
    wan_payload-found snapshot p.username p.password u w
      (rw (user_here, pass_here, value_of, stored_credentials) refl)
