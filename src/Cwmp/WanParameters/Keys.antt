-- ===== src/Cwmp/WanParameters/Keys.antt =====
-- What the credentials of a WAN task hold, and which device parameters a task writes.
use helix_acs.Prelude.{
  ℕ, ◌≡◌, ◌≢◌, refl, sym, ap, ◌∙◌, inl, inr, String, Bool, true, false, ◌&&◌, ◌||◌, [], ◌∷◌, Option,
  none, some, arith, ltb, if◌then◌else◌, str_eq, eq_iff, All, or_else, Bool-cases,
}
use helix_acs.Text.{itoa, has_prefix}
use helix_acs.Dict.{Dict, find, put}
use helix_acs.Dict.Laws.{find-put}
use helix_acs.Datamodel.Model.{Mapper}
use helix_acs.Task.Model.{WanPayload}
use helix_acs.Cwmp.WanParameters.{
  put_given, put_vlan, conn_type, build_generic_wan_params, build_wan_credential_map,
}

-- A text that is given.
abbrev pub given : String → Option String
given v = if str_eq v "" then none else some v

pub find-put_given :
    (k j v : String) (d : Dict String)
    → find j (put_given k v d) ≡ (if str_eq k j then or_else (given v) (find j d) else find j d)
unfolding put_given
find-put_given k j v d = ground (arith, eq_iff v "", find-put k j v d)

find-put_vlan :
    (j : String) (vlan : ℕ) (d : Dict String)
    → find j (put_vlan vlan d)
      ≡ (if str_eq "_helix.provision.vlan_id" j && ltb 0 vlan then some (itoa vlan) else find j d)
unfolding put_vlan
find-put_vlan j vlan d = elim (Bool-cases (ltb 0 vlan)) [
  | inl tagged ↦ rw tagged (ground (arith, find-put "_helix.provision.vlan_id" j (itoa vlan) d))
  | inr untagged ↦ rw untagged (ground arith)
]

abbrev AreOurs : Dict String → Type 0
AreOurs d = All (λ e. has_prefix e.0 "_helix.provision." ≡ true) d

put-AreOurs :
    (k v : String) (d : Dict String)
    → has_prefix k "_helix.provision." ≡ true
    → AreOurs d
    → AreOurs (put k v d)
unfolding put
put-AreOurs k v [] h _ = (h, tt)
put-AreOurs k v ((j, w) ∷ d) h (q, hs) = ground (arith, put-AreOurs k v d h hs)

put_given-AreOurs :
    (k v : String) (d : Dict String)
    → has_prefix k "_helix.provision." ≡ true
    → AreOurs d
    → AreOurs (put_given k v d)
unfolding put_given
put_given-AreOurs k v d h hs = elim (Bool-cases (str_eq v "")) [
  | inl empty ↦ rw empty hs
  | inr full ↦ rw full (put-AreOurs k v d h hs)
]

put_vlan-AreOurs : (vlan : ℕ) (d : Dict String) → AreOurs d → AreOurs (put_vlan vlan d)
unfolding put_vlan has_prefix
put_vlan-AreOurs vlan d hs = elim (Bool-cases (ltb 0 vlan)) [
  | inl tagged ↦ rw tagged (put-AreOurs "_helix.provision.vlan_id" (itoa vlan) d refl hs)
  | inr untagged ↦ rw untagged hs
]

or_else-none : (o : Option String) → or_else o none ≡ o
or_else-none none = refl
or_else-none (some v) = refl

-- What the four writes leave under a key.
abbrev credential : WanPayload → String → Option String
unfolding find
credential p j =
    let user =
      if str_eq "_helix.provision.pppoe_username" j
      then or_else (given p.username) none
      else none in
    let both =
      if str_eq "_helix.provision.pppoe_password" j
      then or_else (given p.password) user
      else user in
    let tagged =
      if str_eq "_helix.provision.vlan_id" j && ltb 0 p.vlan then some (itoa p.vlan) else both in
    if str_eq "_helix.provision.connection_type" j
    then or_else (given (conn_type p)) tagged
    else tagged

-- The credentials that are kept of a WAN task: the user name, the password and the connection type
-- of the payload where they are given, the connection type pppoe where only it is missing, and the
-- VLAN where it is not 0. Nothing else is kept: every key lies under _helix.provision.
pub find-build_wan_credential_map :
    (p : WanPayload)
    → let creds = build_wan_credential_map p in
      (find "_helix.provision.pppoe_username" creds ≡ given p.username)
      × ((find "_helix.provision.pppoe_password" creds ≡ given p.password)
          × ((find "_helix.provision.vlan_id" creds
                ≡ (if ltb 0 p.vlan then some (itoa p.vlan) else none))
              × ((find "_helix.provision.connection_type" creds ≡ given (conn_type p))
                  × All (λ e. has_prefix e.0 "_helix.provision." ≡ true) creds)))
unfolding build_wan_credential_map find has_prefix
find-build_wan_credential_map p =
    let user = put_given "_helix.provision.pppoe_username" p.username [] in
    let both = put_given "_helix.provision.pppoe_password" p.password user in
    let tagged = put_vlan p.vlan both in
    let read : (j : String) → find j (build_wan_credential_map p) ≡ credential p j = λ j.
      find-put_given "_helix.provision.connection_type" j (conn_type p) tagged
      ∙ rw
          (
            find-put_vlan j p.vlan both,
            find-put_given "_helix.provision.pppoe_password" j p.password user,
            find-put_given "_helix.provision.pppoe_username" j p.username [],
          )
          refl in
    (
      read "_helix.provision.pppoe_username" ∙ or_else-none (given p.username),
      (
        read "_helix.provision.pppoe_password" ∙ or_else-none (given p.password),
        (
          read "_helix.provision.vlan_id",
          (
            read "_helix.provision.connection_type" ∙ or_else-none (given (conn_type p)),
            put_given-AreOurs "_helix.provision.connection_type" (conn_type p) tagged refl (
                put_vlan-AreOurs p.vlan both (
                  put_given-AreOurs "_helix.provision.pppoe_password" p.password user refl
                    (put_given-AreOurs "_helix.provision.pppoe_username" p.username [] refl tt))),
          ),
        ),
      ),
    )

either-empty : (a b : Bool) → (a || b) ≡ false → (a ≡ false) × (b ≡ false)
either-empty a b h = ground arith

nonempty-some :
    (d params : Dict String)
    → (elim d [ [] ↦ none | e ∷ rest ↦ some (e ∷ rest) ]) ≡ some params
    → d ≡ params
nonempty-some [] params h = ground arith
nonempty-some (e ∷ rest) params h = cc

not_both : (a b k : String) → a ≢ b → str_eq a k ≡ true → str_eq b k ≡ false
not_both a b k h e = elim (Bool-cases (str_eq b k)) [
  | inr other ↦ other
  | inl same ↦ absurd (h ((eq_iff a k).0 e ∙ sym ((eq_iff b k).0 same)))
]

two_paths :
    (user_path pass_path username password k : String)
    → user_path ≢ pass_path
    → find k (put_given pass_path password (put_given user_path username [])) ≡ (
        if str_eq user_path k
        then given username
        else if str_eq pass_path k
        then given password
        else none)
unfolding find
two_paths user_path pass_path username password k h =
    find-put_given pass_path k password (put_given user_path username [])
    ∙ rw (find-put_given user_path k username []) (elim (Bool-cases (str_eq user_path k)) [
      | inl first ↦
          rw (first, not_both user_path pass_path k h first) (or_else-none (given username))
      | inr other ↦ rw other (elim (Bool-cases (str_eq pass_path k)) [
        | inl second ↦ rw second (or_else-none (given password))
        | inr neither ↦ rw neither refl
      ])
    ])

-- The credentials are written to the mapper's two paths, each just when it is given; without a path
-- for both, and without any credential, it is an error. The two paths differ.
pub find-build_generic_wan_params :
    (p : WanPayload) (mapper : Mapper) (params : Dict String) (k : String)
    → mapper.wan.pppoe_user ≢ mapper.wan.pppoe_pass
    → build_generic_wan_params p mapper ≡ some params
    → find k params ≡ (
        if str_eq mapper.wan.pppoe_user k
        then given p.username
        else if str_eq mapper.wan.pppoe_pass k
        then given p.password
        else none)
unfolding build_generic_wan_params
find-build_generic_wan_params p mapper params k h e =
    elim (Bool-cases (str_eq mapper.wan.pppoe_user "" || str_eq mapper.wan.pppoe_pass "")) [
      | inl missing ↦ absurd (let none_left = rw missing at e in ground arith)
      | inr present ↦
          let written = rw present at e in
          ap (λ d. find k d)
            (sym (
              nonempty-some
                (put_given mapper.wan.pppoe_pass p.password
                  (put_given mapper.wan.pppoe_user p.username []))
                params written))
          ∙ two_paths mapper.wan.pppoe_user mapper.wan.pppoe_pass p.username p.password k h
    ]
