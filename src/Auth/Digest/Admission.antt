-- ===== src/Auth/Digest/Admission.antt =====
-- Which requests are served.
use helix_acs.Prelude.{
  ℕ, suc, ◌<◌, ◌≡◌, refl, sym, ap, ◌∙◌, ◌↔◌, inl, inr, String, Bool, true, false, Option, none,
  some, arith, ltb, str_eq, eq_iff, is_some, Bool-cases, Option-cases,
}
use helix_acs.Text.{drop_chars, has_prefix, equal_fold}
use helix_acs.Dict.{Dict, find, value_of}
use helix_acs.Auth.Digest.{
  digest_max_nonce_use, NonceEntry, DigestAuth, parse_digest_header, has_required,
  expected_response, admit, validate_params, HttpRequest, validate_request, is_stale,
  clean_stale_nonces, answer_to, middleware,
}
use helix_acs.Auth.Digest.Replay.{fresh_or_none, find-keep_fresh, nonce_of, is_served}

abbrev pub params_of : HttpRequest → Dict String
params_of r = parse_digest_header (drop_chars 7 r.authorization)

-- The nonce is known, fresh and not used up, and the response fits it.
unfoldable pub IsGenuine : (String → String) → ℕ → DigestAuth → HttpRequest → Type 0
IsGenuine md5hex now d r =
    (e : NonceEntry) × ((find (nonce_of r) d.nonces ≡ some e)
      × ((is_stale now e ≡ false)
          × ((e.used < digest_max_nonce_use)
              × (equal_fold (value_of "response" (params_of r))
                    (expected_response md5hex d.password r.method (params_of r))
                  ≡ true))))

admit-some :
    (used : ℕ) (matches : Bool) (username : String)
    → (is_some (admit (ltb digest_max_nonce_use (suc used)) matches username) ≡ true)
      ↔ ((used < digest_max_nonce_use) × (matches ≡ true))
admit-some used matches username = ground arith

served-answer_to :
    (realm fresh : String) (now : ℕ) (d : DigestAuth) (o : Option String)
    → is_served ((answer_to realm now fresh d o).1) ≡ is_some o
served-answer_to realm fresh now d none = refl
served-answer_to realm fresh now d (some user) = refl

prefix_empty : has_prefix "" "Digest " ≡ true → ⊥
unfolding has_prefix
prefix_empty h = cc

authorization_nonempty :
    (r : HttpRequest)
    → has_prefix r.authorization "Digest " ≡ true
    → str_eq r.authorization "" ≡ false
authorization_nonempty r h = elim (Bool-cases (str_eq r.authorization "")) [
  | inr e ↦ e
  | inl e ↦
      absurd (
        prefix_empty (ap (λ t. has_prefix t "Digest ") (sym ((eq_iff r.authorization "").0 e)) ∙ h))
]

entry-injective : (a b : NonceEntry) → some a ≡ some b → a ≡ b
entry-injective a b h = cc

fresh_or_none-some :
    (now : ℕ) (o : Option NonceEntry) (e : NonceEntry)
    → (fresh_or_none now o ≡ some e) ↔ ((o ≡ some e) × (is_stale now e ≡ false))
fresh_or_none-some now none e = ground arith
fresh_or_none-some now (some x) e = elim (Bool-cases (is_stale now x)) [
  | inl stale ↦ rw stale (
    (λ h. absurd (let e = h in cc)),
    (λ h. absurd (let same = ap (λ y. is_stale now y) (entry-injective x e h.0) in ground arith)),
  )
  | inr recent ↦
      rw recent
        ((λ h. (h, ap (λ y. is_stale now y) (sym (entry-injective x e h)) ∙ recent)), (λ h. h.0))
]

module _ (md5hex : String → String) where
  validate_params-some :
      (d : DigestAuth) (method : String) (params : Dict String)
      → (is_some ((validate_params md5hex d method params).1) ≡ true) ↔ (
          (has_required params ≡ true)
          × ((e : NonceEntry) × ((find (value_of "nonce" params) d.nonces ≡ some e)
                × ((e.used < digest_max_nonce_use)
                    × (equal_fold
                          (value_of "response" params)
                          (expected_response md5hex d.password method params)
                        ≡ true)))))
  unfolding validate_params
  validate_params-some d method params = elim (Bool-cases (has_required params)) [
    | inr missing ↦ rw missing (ground arith)
    | inl complete ↦ rw complete (elim (Option-cases (find (value_of "nonce" params) d.nonces)) [
      | inl unknown ↦ rw unknown (ground arith)
      | inr (e, known) ↦
          let matches =
            equal_fold (value_of "response" params)
              (expected_response md5hex d.password method params) in
          let admitted = admit-some e.used matches (value_of "username" params) in
          rw known (
            (λ h. (refl, (e, (refl, admitted.0 h)))),
            (λ h.
                let (required, (e', (same, (less, fits)))) = h in
                let used : e.used ≡ e'.used = ap (λ x. x.used) (entry-injective e e' same) in
                admitted.1 (omega arith, fits)),
          )
    ])
  ]

  validate_request-some :
      (d : DigestAuth) (r : HttpRequest)
      → (is_some ((validate_request md5hex d r).1) ≡ true) ↔ (
          (has_prefix r.authorization "Digest " ≡ true)
          × (is_some ((validate_params md5hex d r.method (params_of r)).1) ≡ true))
  unfolding validate_request
  validate_request-some d r = elim (Bool-cases (has_prefix r.authorization "Digest ")) [
    | inr other ↦ rw other (ground arith)
    | inl digest ↦ rw (digest, authorization_nonempty r digest) (ground arith)
  ]

-- A request is served just when its header is a digest with all required fields, its nonce was
-- issued at most five minutes before and has been used less than a thousand times, and its response
-- is the expected one for the configured password. Otherwise it is answered by 401.
pub middleware-served_iff :
    (md5hex : String → String) (now : ℕ) (fresh : String) (d : DigestAuth) (r : HttpRequest)
    → (is_served ((middleware md5hex now fresh d r).1) ≡ true) ↔ (
        (has_prefix r.authorization "Digest " ≡ true)
        × ((has_required (params_of r) ≡ true) × IsGenuine md5hex now d r))
unfolding middleware clean_stale_nonces IsGenuine
middleware-served_iff md5hex now fresh d r =
    let cleaned = clean_stale_nonces now d in
    let checked = validate_request md5hex cleaned r in
    let request = validate_request-some md5hex cleaned r in
    let parsed = validate_params-some md5hex cleaned r.method (params_of r) in
    let found = find-keep_fresh now (nonce_of r) d.nonces in
    rw (served-answer_to d.realm fresh now checked.0 checked.1) (
      (λ h.
          let (digest, accepted) = request.0 h in
          let (required, (e, (known, (less, fits)))) = parsed.0 accepted in
          let (issued, recent) =
            (fresh_or_none-some now (find (nonce_of r) d.nonces) e).0 (sym found ∙ known) in
          (digest, (required, (e, (issued, (recent, (less, fits))))))),
      (λ h.
          let (digest, (required, (e, (issued, (recent, (less, fits)))))) = h in
          let known =
            found ∙ (fresh_or_none-some now (find (nonce_of r) d.nonces) e).1 (issued, recent) in
          request.1 (digest, parsed.1 (required, (e, (known, (less, fits)))))),
    )

same_Bool : (a b : Bool) → ((a ≡ true) ↔ (b ≡ true)) → a ≡ b
same_Bool a b h = ground arith

-- The configured user name and realm play no part in which requests are served.
pub middleware-username :
    (md5hex : String → String) (now : ℕ) (fresh username realm : String) (d : DigestAuth)
    (r : HttpRequest)
    → is_served
        ((middleware md5hex now fresh (record d { username = username; realm = realm }) r).1)
      ≡ is_served ((middleware md5hex now fresh d r).1)
unfolding IsGenuine
middleware-username md5hex now fresh username realm d r =
    let other = record d { username = username; realm = realm } in
    let before = middleware-served_iff md5hex now fresh d r in
    let after = middleware-served_iff md5hex now fresh other r in
    same_Bool (is_served ((middleware md5hex now fresh other r).1))
      (is_served ((middleware md5hex now fresh d r).1))
      ((λ h. before.1 (after.0 h)), (λ h. after.1 (before.0 h)))
