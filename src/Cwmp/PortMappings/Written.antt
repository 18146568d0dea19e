-- ===== src/Cwmp/PortMappings/Written.antt =====
-- What `buildPortMappingParams` of internal/cwmp/results.go writes, read back by `parsePortMappingRules`.
use text.Mathlib.TextLemmas.{nil-append, cons-append, append_assoc}
use helix_acs.Prelude.{
  ℕ, ◌≤◌, ◌≡◌, refl, ap, ◌∙◌, String, code, false, List, [], ◌∷◌, str_eq, not, ==_iff, Bool-cases,
  inl, inr, some, if◌then◌else◌, arith, ◌==◌,
}
use helix_acs.Text.{itoa, ◌+++◌, equal_fold}
use helix_acs.Text.Prefixes.{has_prefix-append, drop_chars-append}
use helix_acs.Text.Numbers.{pos, atoi-itoa, AllDigits, IsNumeral, IsNumeral-itoa, max_int}
use helix_acs.Dict.{Dict}
use helix_acs.Task.Payload.{PortForwardingPayload}
use helix_acs.Cwmp.ExecuteTask.{is_off, build_port_mapping_params}
use helix_acs.Cwmp.PortMappings.{
  PortForwardingRule, cut, field_of, new_rule, set_field, update_rule, rule_map, listed,
  parse_port_mapping_rules,
}

cut-digits : (s t : String) → AllDigits s → cut b'.' (s +++ "." +++ t) ≡ some (s, t)
unfolding cut
cut-digits String.[] t h = rw (nil-append, cons-append, nil-append) refl
cut-digits (String.◌∷◌ c s) t (d, h) =
    let not_dot : (code c == b'.') ≡ false = ground arith in
    rw (cons-append, cut, not_dot, cut-digits s t h) refl

AllDigits-numeral : (s : String) → IsNumeral s → AllDigits s
AllDigits-numeral String.[] h = absurd h
AllDigits-numeral (String.◌∷◌ c s) h = h

field_of-written :
    (base : String) (n : ℕ) (leaf : String)
    → n ≤ max_int
    → field_of base ((base +++ itoa n +++ ".") +++ leaf) ≡ some (pos n, leaf)
unfolding field_of
field_of-written base n leaf h =
    let parts : (base +++ itoa n +++ ".") +++ leaf ≡ base +++ (itoa n +++ "." +++ leaf) =
      append_assoc base (itoa n +++ ".") leaf
      ∙ ap (λ s. base +++ s) (append_assoc (itoa n) "." leaf) in
    rw
      (
        parts,
        field_of,
        has_prefix-append base,
        drop_chars-append base,
        cut-digits (itoa n) leaf (AllDigits-numeral (itoa n) (IsNumeral-itoa n)),
        atoi-itoa n h,
      )
      refl

rule_map-written :
    (base : String) (n : ℕ) (leaf v : String) (params : Dict String)
    → n ≤ max_int
    → rule_map base (((base +++ itoa n +++ ".") +++ leaf, v) ∷ params)
      ≡ update_rule (pos n) leaf v (rule_map base params)
unfolding rule_map
rule_map-written base n leaf v params h = rw (field_of-written base n leaf h, rule_map) refl

update_rule-same :
    (n : ℕ) (leaf v : String) (r : PortForwardingRule)
    → update_rule (pos n) leaf v ((pos n, r) ∷ []) ≡ (pos n, set_field leaf v r) ∷ []
unfolding update_rule
update_rule-same n leaf v r = rw ((==_iff n n).1 refl, update_rule) refl

-- The rule of an index that a request to add one asks for.
abbrev pub rule_of : ℕ → PortForwardingPayload → PortForwardingRule
rule_of n p = record {
  instance_number = pos n;
  enabled = not (is_off p.enabled);
  protocol = if str_eq p.protocol "" then "TCP" else p.protocol;
  external_port = pos p.external_port;
  internal_ip = p.internal_ip;
  internal_port = pos p.internal_port;
  description = p.description;
}

rule_map-next :
    (base : String) (n : ℕ) (leaf v : String) (params : Dict String) (r : PortForwardingRule)
    → n ≤ max_int
    → rule_map base params ≡ (pos n, r) ∷ []
    → rule_map base (((base +++ itoa n +++ ".") +++ leaf, v) ∷ params)
      ≡ (pos n, set_field leaf v r) ∷ []
rule_map-next base n leaf v params r h e =
    rule_map-written base n leaf v params h
    ∙ ap (update_rule (pos n) leaf v) e
    ∙ update_rule-same n leaf v r

-- Fields below the path of an instance, and a rule with all of them set.
abbrev below : String → ℕ → List (String × String) → Dict String
below base n [] = []
below base n ((leaf, v) ∷ fields) = ((base +++ itoa n +++ ".") +++ leaf, v) ∷ below base n fields

abbrev set_fields : List (String × String) → PortForwardingRule → PortForwardingRule
set_fields [] r = r
set_fields ((leaf, v) ∷ fields) r = set_field leaf v (set_fields fields r)

rule_map-below :
    (base : String) (n : ℕ) (leaf v : String) (fields : List (String × String))
    → n ≤ max_int
    → rule_map base (below base n ((leaf, v) ∷ fields))
      ≡ (pos n, set_fields ((leaf, v) ∷ fields) (new_rule (pos n))) ∷ []
unfolding rule_map update_rule
rule_map-below base n leaf v [] h = rule_map-written base n leaf v [] h
rule_map-below base n leaf v ((l, w) ∷ fields) h =
    rule_map-next base n leaf v (below base n ((l, w) ∷ fields))
      (set_fields ((l, w) ∷ fields) (new_rule (pos n))) h (rule_map-below base n l w fields h)

abbrev later_fields : PortForwardingPayload → List (String × String)
later_fields p =
    ("PortMappingProtocol", if str_eq p.protocol "" then "TCP" else p.protocol)
    ∷ ("ExternalPort", itoa p.external_port)
    ∷ ("InternalClient", p.internal_ip)
    ∷ ("InternalPort", itoa p.internal_port)
    ∷ ("PortMappingDescription", p.description)
    ∷ ("PortMappingLeaseDuration", "0")
    ∷ []

abbrev enabled_text : PortForwardingPayload → String
enabled_text p = if is_off p.enabled then "0" else "1"

written_rule :
    (n : ℕ) (p : PortForwardingPayload)
    → p.external_port ≤ max_int
    → p.internal_port ≤ max_int
    → set_fields (("PortMappingEnabled", enabled_text p) ∷ later_fields p) (new_rule (pos n))
      ≡ rule_of n p
unfolding set_field equal_fold
written_rule n p external internal =
    rw (atoi-itoa p.external_port external, atoi-itoa p.internal_port internal)
      (elim (Bool-cases (is_off p.enabled)) [ inl off ↦ rw (off) refl | inr on ↦ rw (on) refl ])

rule_map-build_port_mapping_params :
    (base : String) (n : ℕ) (p : PortForwardingPayload)
    → n ≤ max_int
    → p.external_port ≤ max_int
    → p.internal_port ≤ max_int
    → rule_map base (build_port_mapping_params base n p) ≡ (pos n, rule_of n p) ∷ []
unfolding build_port_mapping_params
rule_map-build_port_mapping_params base n p h external internal =
    rule_map-below base n "PortMappingEnabled" (enabled_text p) (later_fields p) h
    ∙ ap (λ r. (pos n, r) ∷ []) (written_rule n p external internal)

-- What is written for the first index is read back as the rule that was asked for, and what is written for
-- any other index alone is not read back at all, when the index and the ports fit in 64 bits.
pub parse_port_mapping_rules-build_port_mapping_params :
    (base : String) (n : ℕ) (p : PortForwardingPayload)
    → n ≤ max_int
    → p.external_port ≤ max_int
    → p.internal_port ≤ max_int
    → parse_port_mapping_rules base (build_port_mapping_params base n p)
      ≡ (if n == 1 then rule_of n p ∷ [] else [])
unfolding parse_port_mapping_rules listed
parse_port_mapping_rules-build_port_mapping_params base n p h external internal =
    rw (rule_map-build_port_mapping_params base n p h external internal)
      (elim (Bool-cases (n == 1)) [ inl first ↦ rw (first) refl | inr other ↦ rw (other) refl ])
