-- ===== src/Cwmp/SessionManager/Cleanup.antt =====
-- What the cleaning of the sessions leaves, and what the bindings of requests do.
use helix_acs.Prelude.{
  ℕ, ◌≡◌, ◌≢◌, refl, sym, ap, ◌∙◌, inl, inr, String, Bool, true, false, ◌&&◌, List, [], ◌∷◌, Option,
  none, some, arith, ◌==◌, ==_iff, eq_iff, map, select, any, is_empty, Bool-cases,
}
use helix_acs.Dict.{find, put}
use helix_acs.Dict.Laws.{find-put, find-delete, find-drop_where, unless}
use helix_acs.Cwmp.SessionManager.{
  SessionManager, bind_rpc_id, take_by_rpc_id, is_old, expired, cleanup,
}

-- The session stands in the table under some identifier.
unfoldable pub is_registered : ℕ → SessionManager → Bool
is_registered s sm = any (λ t. t == s) (map (λ e. e.1) sm.sessions)

equal_self : (s : ℕ) → (s == s) ≡ true
equal_self s = ground arith

and_false : (b : Bool) → (b && false) ≡ false
and_false true = refl
and_false false = refl

any-select :
    (p : ℕ → Bool) (s : ℕ) (xs : List ℕ)
    → any (λ t. t == s) (select p xs) ≡ (any (λ t. t == s) xs && p s)
any-select p s [] = refl
any-select p s (x ∷ xs) = elim (Bool-cases (x == s)) [
  | inl same ↦
      let e : x ≡ s = (==_iff x s).0 same in
      elim (Bool-cases (p x)) [
        | inl passes ↦ rw (passes, same) (sym (ap p (sym e) ∙ passes))
        | inr fails ↦
            let out : p s ≡ false = ap p (sym e) ∙ fails in
            rw (fails, same)
              (any-select p s xs
                ∙ ap (λ b. any (λ t. t == s) xs && b) out
                ∙ and_false (any (λ t. t == s) xs)
                ∙ sym out)
      ]
  | inr other ↦ elim (Bool-cases (p x)) [
    | inl passes ↦ rw (passes, other) (any-select p s xs)
    | inr fails ↦ rw (fails, other) (any-select p s xs)
  ]
]

unless-ext : (p q : ℕ → Bool) (o : Option ℕ) → ((s : ℕ) → p s ≡ q s) → unless p o ≡ unless q o
unless-ext p q none h = refl
unless-ext p q (some s) h = rw (h s)

unless-never : (p : ℕ → Bool) (o : Option ℕ) → ((s : ℕ) → p s ≡ false) → unless p o ≡ o
unless-never p none h = refl
unless-never p (some s) h = rw (h s)

any-is_empty : (s : ℕ) (xs : List ℕ) → is_empty xs ≡ true → any (λ t. t == s) xs ≡ false
any-is_empty s [] h = refl
any-is_empty s (x ∷ xs) h = ground arith

-- A binding is dropped just when its session is older than half an hour and still registered.
pub find-cleanup :
    (created_at : ℕ → ℕ) (now : ℕ) (sm : SessionManager) (k : String)
    → let after = cleanup created_at now sm in
      let gone : ℕ → Bool = λ s. is_registered s sm && is_old created_at now s in
      (find k after.sessions ≡ unless (is_old created_at now) (find k sm.sessions))
      × ((find k after.serial_sessions ≡ unless gone (find k sm.serial_sessions))
          × (find k after.rpc_id_sessions ≡ unless gone (find k sm.rpc_id_sessions)))
unfolding cleanup expired is_registered
find-cleanup created_at now sm k =
    let old = expired created_at now sm in
    let gone : (s : ℕ) → any (λ t. t == s) old ≡ (is_registered s sm && is_old created_at now s) =
      λ s. any-select (is_old created_at now) s (map (λ e. e.1) sm.sessions) in
    elim (Bool-cases (is_empty old)) [
      | inl nothing ↦
          let never : (s : ℕ) → (is_registered s sm && is_old created_at now s) ≡ false =
            λ s. sym (gone s) ∙ any-is_empty s old nothing in
          rw nothing (
            find-drop_where (is_old created_at now) sm.sessions k,
            (
              sym (
                  unless-never (λ s. is_registered s sm && is_old created_at now s)
                    (find k sm.serial_sessions) never),
              sym (
                  unless-never (λ s. is_registered s sm && is_old created_at now s)
                    (find k sm.rpc_id_sessions) never),
            ),
          )
      | inr something ↦ rw something (
        find-drop_where (is_old created_at now) sm.sessions k,
        (
          find-drop_where (λ s. any (λ t. t == s) old) sm.serial_sessions k
              ∙ unless-ext (λ s. any (λ t. t == s) old)
                  (λ s. is_registered s sm && is_old created_at now s) (find k sm.serial_sessions)
                  gone,
          find-drop_where (λ s. any (λ t. t == s) old) sm.rpc_id_sessions k
              ∙ unless-ext (λ s. any (λ t. t == s) old)
                  (λ s. is_registered s sm && is_old created_at now s) (find k sm.rpc_id_sessions)
                  gone,
        ),
      )
    ]

-- A request's binding is taken at most once, by the session that was bound last, and the bindings of
-- other requests are left alone. The request's identifier is not empty.
pub take_by_rpc_id-bind_rpc_id :
    (id other : String) (s : ℕ) (sm : SessionManager)
    → id ≢ ""
    → let taken = take_by_rpc_id id (bind_rpc_id id (some s) sm) in
      (taken.1 ≡ some s)
      × (((take_by_rpc_id id taken.0).1 ≡ none)
          × (other ≢ id → (take_by_rpc_id other taken.0).1 ≡ (take_by_rpc_id other sm).1))
unfolding take_by_rpc_id bind_rpc_id
take_by_rpc_id-bind_rpc_id id other s sm h = ground (
  arith,
  eq_iff id "",
  eq_iff id id,
  eq_iff id other,
  find-put id id s sm.rpc_id_sessions,
  find-put id other s sm.rpc_id_sessions,
  find-delete id id (put id s sm.rpc_id_sessions),
  find-delete id other (put id s sm.rpc_id_sessions),
)

-- A binding to a session that is no longer registered, as after its deletion, outlives every
-- cleaning, whatever the time.
pub cleanup-unregistered :
    (created_at : ℕ → ℕ) (now s : ℕ) (sm : SessionManager) (k : String)
    → is_registered s sm ≡ false
    → find k sm.rpc_id_sessions ≡ some s
    → find k ((cleanup created_at now sm).rpc_id_sessions) ≡ some s
cleanup-unregistered created_at now s sm k unregistered bound =
    let (_, (_, rpc)) = find-cleanup created_at now sm k in rpc ∙ rw bound (rw unregistered)
