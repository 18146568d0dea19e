-- ===== src/Auth/Digest/Replay.antt =====
-- How often a nonce can be used.
use helix_acs.Prelude.{
  ℕ, suc, ◌+◌, ◌-◌, ◌≤◌, ◌≡◌, ◌≢◌, refl, sym, ap, ◌∙◌, inl, inr, String, Bool, true, false, not,
  ◌&&◌, ◌||◌, List, [], ◌∷◌, Option, none, some, arith, ltb, if◌then◌else◌, str_eq, eq_iff, All,
  is_some, Bool-cases, Option-cases,
}
use helix_acs.Text.{drop_chars, has_prefix, equal_fold}
use helix_acs.Dict.{Dict, find, value_of}
use helix_acs.Dict.Laws.{find-put, find-delete}
use helix_acs.Auth.Digest.{
  digest_max_nonce_use, NonceEntry, DigestAuth, parse_digest_header, has_required,
  expected_response, admit, validate_params, HttpRequest, validate_request, new_nonce, is_stale,
  keep_fresh, clean_stale_nonces, Reply, served, unauthorized, answer_to, middleware,
}

abbrev pub fresh_or_none : ℕ → Option NonceEntry → Option NonceEntry
fresh_or_none now none = none
fresh_or_none now (some e) = if is_stale now e then none else some e

-- A nonce is still known after the cleaning just when it was known and is not stale.
pub find-keep_fresh :
    (now : ℕ) (n : String) (nonces : Dict NonceEntry)
    → find n (keep_fresh now nonces) ≡ fresh_or_none now (find n nonces)
unfolding find keep_fresh
find-keep_fresh now n [] = refl
find-keep_fresh now n ((k, e) ∷ nonces) =
    ground
      (arith, eq_iff k n, find-keep_fresh now n nonces, find-delete k n (keep_fresh now nonces))

abbrev uses_left : Option NonceEntry → ℕ
uses_left none = 0
uses_left (some e) = digest_max_nonce_use - e.used

-- The requests that a nonce may still authorise.
unfoldable pub budget : String → DigestAuth → ℕ
unfolding find
budget n d = uses_left (find n d.nonces)

abbrev pub nonce_of : HttpRequest → String
nonce_of r = value_of "nonce" (parse_digest_header (drop_chars 7 r.authorization))

abbrev one_if : Bool → ℕ
one_if true = 1
one_if false = 0

budget-clean :
    (now : ℕ) (n : String) (d : DigestAuth) → budget n (clean_stale_nonces now d) ≤ budget n d
unfolding budget clean_stale_nonces
budget-clean now n d = ground (arith, find-keep_fresh now n d.nonces)

budget-new_nonce :
    (fresh n : String) (now : ℕ) (d : DigestAuth)
    → fresh ≢ n
    → budget n (new_nonce fresh now d) ≡ budget n d
unfolding budget new_nonce
budget-new_nonce fresh n now d h =
    ground (arith, eq_iff fresh n, find-put fresh n (record { created = now; used = 0 }) d.nonces)

admit-uses_left :
    (used : ℕ) (matches same : Bool) (username : String)
    → (digest_max_nonce_use - suc used)
        + one_if (is_some (admit (ltb digest_max_nonce_use (suc used)) matches username) && same)
      ≤ digest_max_nonce_use - used
admit-uses_left used matches same username = ground arith

and_false : (b : Bool) → (b && false) ≡ false
and_false true = refl
and_false false = refl

abbrev pub is_served : Reply → Bool
is_served served = true
is_served (unauthorized realm nonce) = false

-- A request as the middleware gets it: its time, and the nonce that a challenge to it would carry.
pub record Call : Type 0 where
  pub now : ℕ
  pub fresh : String
  pub request : HttpRequest

module _ (md5hex : String → String) where
  budget-validate_params :
      (n method : String) (d : DigestAuth) (params : Dict String)
      → budget n ((validate_params md5hex d method params).0)
          + one_if (
              is_some ((validate_params md5hex d method params).1)
              && str_eq (value_of "nonce" params) n)
        ≤ budget n d
  unfolding budget validate_params
  budget-validate_params n method d params =
      let nonce = value_of "nonce" params in
      elim (Bool-cases (has_required params)) [
        | inr missing ↦ rw missing (omega arith)
        | inl complete ↦ rw complete (elim (Option-cases (find nonce d.nonces)) [
          | inl unknown ↦ rw unknown (omega arith)
          | inr (e, known) ↦
              let counted : NonceEntry = record { created = e.created; used = suc e.used } in
              rw (known, find-put nonce n counted d.nonces)
                (elim (Bool-cases (str_eq nonce n)) [
                  | inr other ↦ rw other (
                      ground (
                        arith,
                        and_false (
                            is_some (
                              admit (ltb digest_max_nonce_use (suc e.used))
                                (equal_fold (value_of "response" params)
                                  (expected_response md5hex d.password method params))
                                (value_of "username" params))),
                      ))
                  | inl same ↦
                      let here : find n d.nonces ≡ some e =
                        ap (λ k. find k d.nonces) (sym ((eq_iff nonce n).0 same)) ∙ known in
                      rw (same, here)
                        (admit-uses_left e.used
                          (equal_fold (value_of "response" params)
                            (expected_response md5hex d.password method params))
                          true (value_of "username" params))
                ])
        ])
      ]

  budget-validate_request :
      (n : String) (d : DigestAuth) (r : HttpRequest)
      → budget n ((validate_request md5hex d r).0)
          + one_if (is_some ((validate_request md5hex d r).1) && str_eq (nonce_of r) n)
        ≤ budget n d
  unfolding validate_request
  budget-validate_request n d r =
      let params = parse_digest_header (drop_chars 7 r.authorization) in
      elim (Bool-cases (str_eq r.authorization "" || not (has_prefix r.authorization "Digest "))) [
        | inl other ↦ rw other (omega arith)
        | inr digest ↦ rw digest (budget-validate_params n r.method d params)
      ]

  budget-answer_to :
      (n realm fresh : String) (now : ℕ) (d : DigestAuth) (o : Option String) (same : Bool)
      → fresh ≢ n
      → budget n ((answer_to realm now fresh d o).0)
          + one_if (is_served ((answer_to realm now fresh d o).1) && same)
        ≤ budget n d + one_if (is_some o && same)
  budget-answer_to n realm fresh now d none same h =
      let kept = budget-new_nonce fresh n now d h in omega arith
  budget-answer_to n realm fresh now d (some user) same h = omega arith

  budget-middleware :
      (n fresh : String) (now : ℕ) (d : DigestAuth) (r : HttpRequest)
      → fresh ≢ n
      → budget n ((middleware md5hex now fresh d r).0)
          + one_if (is_served ((middleware md5hex now fresh d r).1) && str_eq (nonce_of r) n)
        ≤ budget n d
  unfolding middleware
  budget-middleware n fresh now d r h =
      let checked = validate_request md5hex (clean_stale_nonces now d) r in
      let cleaned = budget-clean now n d in
      let counted = budget-validate_request n (clean_stale_nonces now d) r in
      let answered =
        budget-answer_to n d.realm fresh now checked.0 checked.1 (str_eq (nonce_of r) n) h in
      omega arith

  -- The requests of a sequence that are served with a nonce.
  unfoldable pub served_with : String → DigestAuth → List Call → ℕ
  unfolding middleware
  served_with n d [] = 0
  served_with n d (c ∷ calls) =
      let next = middleware md5hex c.now c.fresh d c.request in
      one_if (is_served next.1 && str_eq (nonce_of c.request) n) + served_with n next.0 calls

  served_with-budget :
      (n : String) (d : DigestAuth) (calls : List Call)
      → All (λ c. c.fresh ≢ n) calls
      → served_with n d calls ≤ budget n d
  unfolding served_with
  served_with-budget n d [] h = omega arith
  served_with-budget n d (c ∷ calls) (other, h) =
      let first = budget-middleware n c.fresh c.now d c.request other in
      let later = served_with-budget n ((middleware md5hex c.now c.fresh d c.request).0) calls h in
      omega arith

-- Of all requests that follow the issue of a nonce, at whatever times, at most a thousand are served
-- with it, provided that no later challenge issues the same nonce again.
pub served_with-new_nonce :
    (md5hex : String → String) (n : String) (now : ℕ) (d : DigestAuth) (calls : List Call)
    → All (λ c. c.fresh ≢ n) calls
    → served_with md5hex n (new_nonce n now d) calls ≤ digest_max_nonce_use
unfolding new_nonce budget
served_with-new_nonce md5hex n now d calls h =
    let bound = served_with-budget md5hex n (new_nonce n now d) calls h in
    let issued = find-put n n (record { created = now; used = 0 }) d.nonces in
    ground (arith, eq_iff n n)
