-- ===== src/Datamodel/Discovery.antt =====
-- The PPP interface, the VLAN and the links of a TR-181 device in internal/datamodel/instances.go. A regular
-- expression is a list of pieces; in each of them a number is followed by a dot, so that all of its digits are
-- taken.
pub mod Traced
mod Tests
use Prim.Native.String
use helix_acs.Prelude.{
  ℕ, String, Char, Bool, true, false, List, [], ◌∷◌, Option, none, some, if◌then◌else◌, str_eq,
  ◌==◌, ltb, leb, any, is_some,
}
use helix_acs.Text.{◌+++◌, itoa, has_prefix, drop_chars, char_count}
use helix_acs.Text.Numbers.{ℤ, pos, Parsed, atoi, atoi_or_zero, is_digit}
use helix_acs.Dict.{Dict, find}
use helix_acs.Datamodel.Model.{InstanceMap}

pub data Piece : Type 0 where
  literal : String → Piece
  -- (\d+)
  digits : Piece

-- The digits that a text begins with, and the rest.
unfoldable pub span_digits : String → String × String
span_digits String.[] = ("", "")
span_digits (String.◌∷◌ c s) =
    let later = span_digits s in
    if is_digit c then (String.◌∷◌ c later.0, later.1) else ("", String.◌∷◌ c s)

-- The first number of a text that begins with the pieces, and what is behind them.
unfoldable pub match_here : List Piece → String → Option (String × String)
unfolding span_digits has_prefix
match_here [] s = some ("", s)
match_here (literal t ∷ ps) s =
    let later = match_here ps (drop_chars (char_count t) s) in
    if has_prefix s t then later else none
match_here (digits ∷ ps) s =
    let later = match_here ps (span_digits s).1 in
    if str_eq (span_digits s).0 ""
    then none
    else elim later [ none ↦ none | some m ↦ some ((span_digits s).0, m.1) ]

-- The match that begins first.
unfoldable pub match_within : List Piece → String → Option (String × String)
unfolding match_here
match_within ps String.[] = match_here ps ""
match_within ps (String.◌∷◌ c s) =
    let later = match_within ps s in
    elim (match_here ps (String.◌∷◌ c s)) [ some m ↦ some m | none ↦ later ]

abbrev pub natural : ℤ → ℕ
natural (pos n) = n
natural (ℤ.negsuc n) = 0

-- The value of digits; a number that does not fit is the largest.
abbrev pub index_of : String → ℕ
unfolding atoi
index_of s = natural (atoi_or_zero (atoi s))

abbrev pub matched_index : Option (String × String) → Option ℕ
unfolding index_of
matched_index none = none
matched_index (some m) = some (index_of m.0)

abbrev pub whole_index : Option (String × String) → Option ℕ
unfolding index_of
whole_index none = none
whole_index (some m) = if str_eq m.1 "" then some (index_of m.0) else none

-- `^…`, `^…$` and an expression without an anchor.
abbrev pub index_at_start : List Piece → String → Option ℕ
unfolding match_here matched_index
index_at_start ps s = matched_index (match_here ps s)

abbrev pub index_of_whole : List Piece → String → Option ℕ
unfolding match_here whole_index
index_of_whole ps s = whole_index (match_here ps s)

abbrev pub index_within : List Piece → String → Option ℕ
unfolding match_within matched_index
index_within ps s = matched_index (match_within ps s)

abbrev pub re_ppp_iface : List Piece
re_ppp_iface = literal "Device.PPP.Interface." ∷ digits ∷ literal "." ∷ []

abbrev pub re_ip_iface_lower : List Piece
re_ip_iface_lower = literal "Device.IP.Interface." ∷ digits ∷ literal ".LowerLayers" ∷ []

abbrev pub re_vlan_term_ref : List Piece
re_vlan_term_ref = literal "Device.Ethernet.VLANTermination." ∷ digits ∷ literal "." ∷ []

abbrev pub re_eth_link_ref : List Piece
re_eth_link_ref = literal "Device.Ethernet.Link." ∷ digits ∷ literal "." ∷ []

abbrev pub re_gpon_ref : List Piece
re_gpon_ref = literal "Device.X_TP_GPON.Link." ∷ digits ∷ literal "." ∷ []

-- `allPPP`
unfoldable pub all_ppp : Dict String → List ℕ
unfolding index_at_start
all_ppp [] = []
all_ppp ((name, value) ∷ params) =
    let rest = all_ppp params in
    elim (index_at_start re_ppp_iface name) [ none ↦ rest | some idx ↦ idx ∷ rest ]

-- The least of the indices and the one from before, where 0 is none.
unfoldable pub least : ℕ → List ℕ → ℕ
least idx [] = idx
least idx (n ∷ ns) = least (if idx == 0 then n else if ltb n idx then n else idx) ns

abbrev pub referenced : List ℕ → ℕ → String → String → Option ℕ
unfolding index_of_whole index_within
referenced all wan_ip name value = elim (index_of_whole re_ip_iface_lower name) [
  | none ↦ none
  | some ip ↦
      if ip == wan_ip
      then elim (index_within re_ppp_iface value) [
        | none ↦ none
        | some ppp ↦ if any (λ n. n == ppp) all then some ppp else none
      ]
      else none
]

unfoldable pub first_referenced : List ℕ → ℕ → Dict String → Option ℕ
unfolding referenced
first_referenced all wan_ip [] = none
first_referenced all wan_ip ((name, value) ∷ params) =
    let later = first_referenced all wan_ip params in
    elim (referenced all wan_ip name value) [ some ppp ↦ some ppp | none ↦ later ]

unfoldable pub discover_tr181_ppp : Dict String → InstanceMap → InstanceMap
unfolding all_ppp least first_referenced
discover_tr181_ppp params im =
    let all = all_ppp params in
    let found = least im.ppp_iface_idx all in
    if im.wan_ip_iface_idx == 0
    then record im { ppp_iface_idx = found }
    else elim (first_referenced all im.wan_ip_iface_idx params) [
      | none ↦ record im { ppp_iface_idx = found }
      | some ppp ↦ record im { ppp_iface_idx = ppp }
    ]

abbrev pub value_index : List Piece → Option String → Option ℕ
unfolding index_within
value_index ps none = none
value_index ps (some value) = if str_eq value "" then none else index_within ps value

-- The index that the value of a key refers to.
unfoldable pub reference : List Piece → String → Dict String → Option ℕ
unfolding find value_index
reference ps key params = value_index ps (find key params)

abbrev pub with_gpon : Option ℕ → InstanceMap → InstanceMap
with_gpon none im = im
with_gpon (some gpon) im = if ltb 0 gpon then record im { free_gpon_link_idx = gpon } else im

abbrev pub with_eth_link : Dict String → Option ℕ → InstanceMap → InstanceMap
unfolding reference
with_eth_link params none im = im
with_eth_link params (some eth) im =
    with_gpon
      (reference re_gpon_ref ("Device.Ethernet.Link." +++ itoa eth +++ ".LowerLayers") params)
      (record im { wan_eth_link_idx = eth })

-- VLANs that are negative or do not fit are left out: none is taken of them.
abbrev pub vlan_value : Parsed → Option ℕ
vlan_value (Parsed.number (pos n)) = some n
vlan_value (Parsed.number (ℤ.negsuc n)) = none
vlan_value (Parsed.out_of_range z) = none
vlan_value Parsed.not_a_number = none

abbrev pub with_vlan : Option ℕ → InstanceMap → InstanceMap
with_vlan none im = im
with_vlan (some vlan) im = record im { wan_current_vlan = vlan }

abbrev pub with_vlan_id : Option String → InstanceMap → InstanceMap
unfolding atoi
with_vlan_id none im = im
with_vlan_id (some value) im = with_vlan (vlan_value (atoi value)) im

abbrev pub with_vlan_term : Dict String → Option ℕ → InstanceMap → InstanceMap
unfolding reference with_eth_link with_vlan_id
with_vlan_term params none im = im
with_vlan_term params (some vlan) im =
    let lower : String = "Device.Ethernet.VLANTermination." +++ itoa vlan +++ ".LowerLayers" in
    let vlan_id : String = "Device.Ethernet.VLANTermination." +++ itoa vlan +++ ".VLANID" in
    with_eth_link params (reference re_eth_link_ref lower params)
      (with_vlan_id (find vlan_id params) (record im { wan_vlan_term_idx = vlan }))

unfoldable pub discover_tr181_vlan : Dict String → InstanceMap → InstanceMap
unfolding reference with_vlan_term
discover_tr181_vlan params im =
    if im.ppp_iface_idx == 0
    then im
    else with_vlan_term params
        (reference re_vlan_term_ref
          ("Device.PPP.Interface." +++ itoa im.ppp_iface_idx +++ ".LowerLayers") params)
        im
