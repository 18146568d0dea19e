-- ===== src/Cwmp/PortMappings.antt =====
-- `parsePortMappingRules` of internal/cwmp/results.go: the rules that a device has, from the parameters
-- below the table of port mappings.
pub mod Written
mod Tests
use Prim.Native.String
use helix_acs.Prelude.{
  ℕ, zero, suc, ◌+◌, String, Char, code, Bool, true, false, ◌||◌, List, [], ◌∷◌, ◌++◌, Option, none,
  some, if◌then◌else◌, str_eq, ◌==◌, length,
}
use helix_acs.Text.{has_prefix, drop_chars, char_count, equal_fold}
use helix_acs.Text.Numbers.{
  ℤ, pos, negsuc, Parsed, number, out_of_range, not_a_number, atoi, atoi_or_zero,
}
use helix_acs.Dict.{Dict}

pub record PortForwardingRule : Type 0 where
  pub instance_number : ℤ
  pub enabled : Bool
  pub protocol : String
  pub external_port : ℤ
  pub internal_ip : String
  pub internal_port : ℤ
  pub description : String

-- strings.Cut at a character.
unfoldable pub cut : ℕ → String → Option (String × String)
cut sep String.[] = none
cut sep (String.◌∷◌ c s) =
    let rest = cut sep s in
    if code c == sep
    then some ("", s)
    else elim rest [ none ↦ none | some (before, after) ↦ some (String.◌∷◌ c before, after) ]

abbrev pub same_int : ℤ → ℤ → Bool
same_int (pos m) (pos n) = m == n
same_int (negsuc m) (negsuc n) = m == n
same_int _ _ = false

-- The index and the field of a parameter of the table, if it is one.
abbrev pub indexed : Parsed → String → Option (ℤ × String)
indexed (number i) field = some (i, field)
indexed (out_of_range i) field = none
indexed not_a_number field = none

abbrev pub indexed_field : Option (String × String) → Option (ℤ × String)
unfolding atoi
indexed_field none = none
indexed_field (some (before, after)) = indexed (atoi before) after

unfoldable pub field_of : String → String → Option (ℤ × String)
unfolding has_prefix cut indexed_field
field_of base k =
    if has_prefix k base then indexed_field (cut b'.' (drop_chars (char_count base) k)) else none

abbrev pub new_rule : ℤ → PortForwardingRule
new_rule i = record {
  instance_number = i;
  enabled = false;
  protocol = "";
  external_port = pos 0;
  internal_ip = "";
  internal_port = pos 0;
  description = "";
}

unfoldable pub set_field : String → String → PortForwardingRule → PortForwardingRule
unfolding equal_fold atoi
set_field field v r =
    if str_eq field "PortMappingEnabled" || str_eq field "Enable"
    then record r { enabled = equal_fold v "true" || str_eq v "1" }
    else if str_eq field "PortMappingProtocol" || str_eq field "Protocol"
    then record r { protocol = v }
    else if str_eq field "ExternalPort"
    then record r { external_port = atoi_or_zero (atoi v) }
    else if str_eq field "InternalClient"
    then record r { internal_ip = v }
    else if str_eq field "InternalPort"
    then record r { internal_port = atoi_or_zero (atoi v) }
    else if str_eq field "PortMappingDescription" || str_eq field "Description"
    then record r { description = v }
    else r

-- The rules by their indices.
abbrev pub RuleMap : Type 0
RuleMap = List (ℤ × PortForwardingRule)

unfoldable pub update_rule : ℤ → String → String → RuleMap → RuleMap
unfolding set_field
update_rule i field v [] = (i, set_field field v (new_rule i)) ∷ []
update_rule i field v ((j, r) ∷ rules) =
    if same_int j i then (j, set_field field v r) ∷ rules else (j, r) ∷ update_rule i field v rules

unfoldable pub rule_map : String → Dict String → RuleMap
unfolding field_of update_rule
rule_map base [] = []
rule_map base ((k, v) ∷ params) =
    let rules = rule_map base params in
    elim (field_of base k) [ none ↦ rules | some (i, field) ↦ update_rule i field v rules ]

abbrev pub rule_at : ℤ → RuleMap → List PortForwardingRule
rule_at i [] = []
rule_at i ((j, r) ∷ rules) = if same_int j i then r ∷ [] else rule_at i rules

-- The rules of a number of indices from one on.
unfoldable pub listed : ℕ → ℕ → RuleMap → List PortForwardingRule
listed i zero rules = []
listed i (suc n) rules = rule_at (pos i) rules ++ listed (suc i) n rules

unfoldable pub parse_port_mapping_rules : String → Dict String → List PortForwardingRule
unfolding rule_map listed
parse_port_mapping_rules base params =
    let rules = rule_map base params in listed 1 (length rules) rules
