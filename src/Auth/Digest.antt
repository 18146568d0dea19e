-- ===== src/Auth/Digest.antt =====
-- internal/auth/digest.go: HTTP digest authentication of the devices. Time is counted in
-- nanoseconds, and a request happens at one time. MD5 and the generated nonces are arguments. A header that is missing is empty.
pub mod Replay
pub mod Admission
mod Tests
use Prim.Native.String.{[], ◌∷◌}
use helix_acs.Prelude.{
  ℕ, zero, suc, ◌+◌, Char, code, String, Bool, true, false, not, ◌&&◌, ◌||◌, List, Option, none,
  some, leb, ltb, ◌==◌, if◌then◌else◌, str_eq,
}
use mathlib.Core.List
use helix_acs.Text.{◌+++◌, byte_len, drop_chars, has_prefix, trim_space, split, equal_fold}
use helix_acs.Dict.{Dict, find, put, delete, value_of}

abbrev pub digest_nonce_ttl : ℕ
digest_nonce_ttl = 300000000000

abbrev pub digest_max_nonce_use : ℕ
digest_max_nonce_use = 1000

pub record NonceEntry : Type 0 where
  pub created : ℕ
  pub used : ℕ

pub record DigestAuth : Type 0 where
  pub realm : String
  pub username : String
  pub password : String
  pub nonces : Dict NonceEntry

-- strings.Cut at a separator of one character.
unfoldable pub cut : ℕ → String → Option (String × String)
cut sep [] = none
cut sep (c ∷ s) =
    if code c == sep
    then some ([], s)
    else elim (cut sep s) [ none ↦ none | some (before, after) ↦ some (c ∷ before, after) ]

-- Whether the last character has this code, and the text without its last character.
ends_with : ℕ → String → Bool
ends_with n [] = false
ends_with n (c ∷ s) = if str_eq s [] then code c == n else ends_with n s

without_last : String → String
without_last [] = []
without_last (c ∷ s) = if str_eq s [] then [] else c ∷ without_last s

unfoldable pub strip_quotes : String → String
unfolding ends_with without_last
strip_quotes [] = []
strip_quotes (c ∷ s) =
    if leb 2 (byte_len (c ∷ s)) && code c == b'"' && ends_with b'"' (c ∷ s)
    then without_last s
    else c ∷ s

-- The parts in the order of the header: a later key replaces an earlier one.
put_parts : List String → Dict String → Dict String
unfolding cut trim_space strip_quotes put
put_parts List.[] params = params
put_parts (List.◌∷◌ part parts) params = elim (cut b'=' (trim_space part)) [
  | none ↦ put_parts parts params
  | some (before, after) ↦
      put_parts parts (put (trim_space before) (strip_quotes (trim_space after)) params)
]

unfoldable pub parse_digest_header : String → Dict String
unfolding split put_parts
parse_digest_header s = put_parts (split b',' s) List.[]

unfoldable pub has_required : Dict String → Bool
unfolding value_of
has_required params = not (
    str_eq (value_of "username" params) ""
    || str_eq (value_of "realm" params) ""
    || str_eq (value_of "nonce" params) ""
    || str_eq (value_of "uri" params) ""
    || str_eq (value_of "response" params) "")

infixr 65 ◌:::◌
abbrev ◌:::◌ : String → String → String
s ::: t = s +++ (":" +++ t)

-- `md5hex` is the hash of a text in lower-case hexadecimal digits.
unfoldable pub expected_response : (String → String) → String → String → Dict String → String
unfolding value_of
expected_response md5hex password method params =
    let ha1 = md5hex (value_of "username" params ::: value_of "realm" params ::: password) in
    let ha2 = md5hex (method ::: value_of "uri" params) in
    let nonce = value_of "nonce" params in
    let qop = value_of "qop" params in
    if str_eq qop "auth" || str_eq qop "auth-int"
    then md5hex
        (ha1 ::: nonce ::: value_of "nc" params ::: value_of "cnonce" params ::: qop ::: ha2)
    else md5hex (ha1 ::: nonce ::: ha2)

-- What `ValidateRequest` returns for a known nonce.
abbrev pub admit : Bool → Bool → String → Option String
admit overused matches username = if overused then none else if matches then some username else none

-- The part of `ValidateRequest` behind the parsing.
unfoldable pub validate_params :
    (String → String) → DigestAuth → String → Dict String → DigestAuth × Option String
unfolding has_required value_of find put expected_response equal_fold
validate_params md5hex d method params =
    if has_required params
    then elim (find (value_of "nonce" params) d.nonces) [
      | none ↦ (d, none)
      | some entry ↦
          let counted : NonceEntry = record { created = entry.created; used = suc entry.used } in
          (
            record d { nonces = put (value_of "nonce" params) counted d.nonces },
            admit (ltb digest_max_nonce_use counted.used)
                (equal_fold (value_of "response" params)
                  (expected_response md5hex d.password method params))
                (value_of "username" params),
          )
    ]
    else (d, none)

pub record HttpRequest : Type 0 where
  pub method : String
  pub authorization : String

-- `ValidateRequest`: the next state, and the user when the digest is valid.
unfoldable pub validate_request :
    (String → String) → DigestAuth → HttpRequest → DigestAuth × Option String
unfolding has_prefix parse_digest_header validate_params
validate_request md5hex d r =
    if str_eq r.authorization "" || not (has_prefix r.authorization "Digest ")
    then (d, none)
    else validate_params md5hex d r.method (parse_digest_header (drop_chars 7 r.authorization))

unfoldable pub new_nonce : String → ℕ → DigestAuth → DigestAuth
unfolding put
new_nonce nonce now d = record d {
  nonces = put nonce (record { created = now; used = 0 }) d.nonces;
}

abbrev pub is_stale : ℕ → NonceEntry → Bool
is_stale now e = ltb (e.created + digest_nonce_ttl) now

unfoldable pub keep_fresh : ℕ → Dict NonceEntry → Dict NonceEntry
unfolding delete
keep_fresh now List.[] = List.[]
keep_fresh now (List.◌∷◌ (n, e) nonces) =
    let rest = keep_fresh now nonces in
    if is_stale now e then delete n rest else List.◌∷◌ (n, e) rest

unfoldable pub clean_stale_nonces : ℕ → DigestAuth → DigestAuth
unfolding keep_fresh
clean_stale_nonces now d = record d { nonces = keep_fresh now d.nonces }

pub data Reply : Type 0 where
  -- The next handler is called.
  served : Reply
  -- 401 with the realm and the nonce of the challenge.
  unauthorized : String → String → Reply

abbrev pub answer_to : String → ℕ → String → DigestAuth → Option String → DigestAuth × Reply
answer_to realm now fresh d (some user) = (d, served)
answer_to realm now fresh d none = (new_nonce fresh now d, unauthorized realm fresh)

-- `Middleware` on one request, at a time and with the nonce that a challenge would carry.
unfoldable pub middleware :
    (String → String) → ℕ → String → DigestAuth → HttpRequest → DigestAuth × Reply
unfolding clean_stale_nonces validate_request new_nonce
middleware md5hex now fresh d r =
    let checked = validate_request md5hex (clean_stale_nonces now d) r in
    answer_to d.realm now fresh checked.0 checked.1
