-- ===== src/Cwmp/VlanChain.antt =====
-- `resolveVLANFromChain` of internal/cwmp/session.go: the VLAN below a PPP interface, by the references to
-- lower layers in a snapshot of the parameters.
pub mod Followed
pub mod Reached
mod Tests
use Prim.Native.String
use helix_acs.Prelude.{
  ℕ, zero, suc, String, Bool, true, false, ◌||◌, List, [], ◌∷◌, Option, none, some, if◌then◌else◌,
  str_eq, any, leb,
}
use helix_acs.Text.{◌+++◌, contains, to_lower, equal_fold, trim_space, split}
use helix_acs.Text.Numbers.{Parsed, number, out_of_range, not_a_number, pos, negsuc, atoi}
use helix_acs.Dict.{Dict, find, value_of}

-- strings.TrimSuffix for a suffix that is not empty.
unfoldable pub trim_suffix : String → String → String
trim_suffix String.[] suffix = ""
trim_suffix (String.◌∷◌ c s) suffix =
    if str_eq (String.◌∷◌ c s) suffix then "" else String.◌∷◌ c (trim_suffix s suffix)

-- A positive number.
abbrev pub positive : Parsed → Option ℕ
positive (number (pos zero)) = none
positive (number (pos (suc n))) = some (suc n)
positive (number (negsuc n)) = none
positive (out_of_range z) = none
positive not_a_number = none

-- The first positive number under a key that is the same up to case.
unfoldable pub first_folded : String → Dict String → ℕ
unfolding equal_fold atoi
first_folded key [] = 0
first_folded key ((k, v) ∷ snapshot) =
    let later = first_folded key snapshot in
    if equal_fold k key then elim (positive (atoi v)) [ none ↦ later | some n ↦ n ] else later

abbrev pub positive_value : Option String → Option ℕ
unfolding atoi
positive_value none = none
positive_value (some v) = positive (atoi v)

-- The VLANID of a VLANTermination; 0 if there is none.
unfoldable pub vlan_id_of : Dict String → String → ℕ
unfolding positive_value find first_folded
vlan_id_of snapshot object =
    let key = object +++ ".VLANID" in
    elim (positive_value (find key snapshot)) [ none ↦ first_folded key snapshot | some n ↦ n ]

abbrev pub first_part : List String → String
first_part [] = ""
first_part (part ∷ parts) = part

abbrev pub object_of : String → String
unfolding trim_suffix
object_of current = trim_suffix current "."

unfoldable pub is_vlan_termination : String → Bool
unfolding contains to_lower
is_vlan_termination object = contains (to_lower object) "vlantermination"

abbrev pub lower_layers : Dict String → String → String
unfolding value_of
lower_layers snapshot object = value_of (object +++ ".LowerLayers") snapshot

-- The reference that is followed next.
abbrev pub next_reference : String → String
unfolding trim_space split
next_reference lower = trim_space (first_part (split b',' lower))

unfoldable pub resolve_from : Dict String → ℕ → List String → String → ℕ
unfolding object_of vlan_id_of is_vlan_termination lower_layers next_reference
resolve_from snapshot zero visited current = 0
resolve_from snapshot (suc rounds) visited current =
    let object = object_of current in
    let lower = lower_layers snapshot object in
    let rest = resolve_from snapshot rounds (object ∷ visited) (next_reference lower) in
    if str_eq current "" || any (λ o. str_eq o object) visited
    then 0
    else if is_vlan_termination object
    then vlan_id_of snapshot object
    else if str_eq lower ""
    then 0
    else rest

unfoldable pub resolve_vlan_from_chain : Dict String → String → ℕ
unfolding resolve_from
resolve_vlan_from_chain snapshot lower_layers = resolve_from snapshot 4 [] (trim_space lower_layers)
