-- ===== src/Auth/Digest/Tests.antt =====
-- Runs of the digest authentication, with the identity for MD5, and its theorems at them.
use helix_acs.Prelude.{◌≤◌, ◌≡◌, ◌↔◌, refl, true, [], ◌∷◌, arith, eq_iff}
use helix_acs.Text.{
  has_prefix, trim_space, trim_left, trim_right, is_space, split, equal_fold, to_lower,
}
use helix_acs.Dict.{find, put, delete, value_of}
use helix_acs.Auth.Digest.{
  digest_max_nonce_use, DigestAuth, HttpRequest, new_nonce, has_required, parse_digest_header,
  middleware, served, validate_request, clean_stale_nonces, validate_params, keep_fresh,
  expected_response, cut, strip_quotes,
}
use helix_acs.Auth.Digest.Replay.{is_served, served_with, served_with-new_nonce}
use helix_acs.Auth.Digest.Admission.{
  IsGenuine, params_of, middleware-served_iff, middleware-username,
}

abbrev empty : DigestAuth
empty = record { realm = "ACS"; username = "cpe"; password = "pw"; nonces = [] }

abbrev issued : DigestAuth
issued = record {
  realm = "ACS";
  username = "cpe";
  password = "pw";
  nonces = ("n1", record { created = 5; used = 0 }) ∷ [];
}

abbrev request : HttpRequest
request = record {
  method = "POST";
  authorization =
      "Digest username=\"u\", realm=\"ACS\", nonce=\"n1\", uri=\"/acs\", response=\"U:ACS:pw:n1:POST:/acs\"";
}

served_run : (middleware (λ s. s) 7 "n2" issued request).1 ≡ served
unfolding middleware validate_request clean_stale_nonces validate_params keep_fresh has_required
    parse_digest_header cut strip_quotes expected_response find put delete value_of has_prefix
    trim_space trim_left trim_right is_space split equal_fold to_lower
served_run = refl

served_with-new_nonce_example :
    served_with
      (λ s. s)
      "n1"
      (new_nonce "n1" 5 empty)
      (record { now = 7; fresh = "n2"; request = request }
        ∷ record { now = 8; fresh = "n3"; request = request }
        ∷ [])
    ≤ digest_max_nonce_use
served_with-new_nonce_example =
    served_with-new_nonce (λ s. s) "n1" 5 empty
      (record { now = 7; fresh = "n2"; request = request }
        ∷ record { now = 8; fresh = "n3"; request = request }
        ∷ [])
      (ground (arith, eq_iff "n2" "n1", eq_iff "n3" "n1"))

middleware-served_iff_example :
    (is_served ((middleware (λ s. s) 7 "n2" issued request).1) ≡ true) ↔ (
      (has_prefix request.authorization "Digest " ≡ true)
      × ((has_required (params_of request) ≡ true) × IsGenuine (λ s. s) 7 issued request))
middleware-served_iff_example = middleware-served_iff (λ s. s) 7 "n2" issued request

middleware-username_example :
    is_served
      ((middleware (λ s. s) 7 "n2" (record issued { username = "other"; realm = "R" }) request).1)
    ≡ is_served ((middleware (λ s. s) 7 "n2" issued request).1)
middleware-username_example = middleware-username (λ s. s) 7 "n2" "other" "R" issued request
