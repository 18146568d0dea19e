-- ===== src/Cwmp/Soap.antt =====
-- internal/cwmp/soap.go: the order and the types of the parameters in a SetParameterValues request.
-- A request is the list of its entries; its XML encoding is not modelled. `sort.Slice` is an argument.
pub mod Ranks
pub mod Ordered
mod Tests
use Prim.Native.String
use helix_acs.Prelude.{
  ℕ, String, Char, code, Bool, true, false, not, ◌&&◌, ◌||◌, List, [], ◌∷◌, if◌then◌else◌, str_eq,
  map, any, ◌==◌,
}
use helix_acs.Text.{has_prefix, contains, split}
use helix_acs.Sorting.{Sorter}
use helix_acs.Text.Order.{text_lt}
use helix_acs.Dict.{Dict, value_of}

abbrev pub last_or_empty : List String → String
last_or_empty [] = ""
last_or_empty (p ∷ []) = p
last_or_empty (p ∷ q ∷ ps) = last_or_empty (q ∷ ps)

-- The last part of a dotted path.
unfoldable pub leaf_of : String → String
unfolding split
leaf_of name = last_or_empty (split b'.' name)

-- `iIsDisable`, `iIsVLAN`, `iIsSecure`, `iIsEnable` and `iIsMode` of a name.
unfoldable pub is_disable : Dict String → String → Bool
unfolding leaf_of value_of
is_disable params name = str_eq (leaf_of name) "Enable" && str_eq (value_of name params) "0"

unfoldable pub is_vlan : String → Bool
unfolding leaf_of contains
is_vlan name = contains name "VLANTermination" && str_eq (leaf_of name) "VLANID"

unfoldable pub is_secure : String → Bool
unfolding leaf_of
is_secure name =
    str_eq (leaf_of name) "Username"
    || str_eq (leaf_of name) "Password"
    || str_eq (leaf_of name) "KeyPassphrase"
    || str_eq (leaf_of name) "PreSharedKey"

unfoldable pub is_enable : Dict String → String → Bool
unfolding leaf_of value_of
is_enable params name = str_eq (leaf_of name) "Enable" && str_eq (value_of name params) "1"

unfoldable pub is_mode : String → Bool
unfolding leaf_of
is_mode name = str_eq (leaf_of name) "ModeEnabled" || str_eq (leaf_of name) "EncryptionMode"

abbrev pub differ_bool : Bool → Bool → Bool
differ_bool true b = not b
differ_bool false b = b

-- The comparison that is given to `sort.Slice`.
unfoldable pub comes_before : Dict String → String → String → Bool
unfolding is_disable is_vlan is_secure is_enable is_mode text_lt
comes_before params i j =
    if differ_bool (is_disable params i) (is_disable params j)
    then is_disable params i
    else if differ_bool (is_vlan i) (is_vlan j)
    then is_vlan i
    else if differ_bool (is_secure i) (is_secure j)
    then is_secure i
    else if differ_bool (is_enable params i) (is_enable params j)
    then not (is_enable params i)
    else if differ_bool (is_mode i) (is_mode j)
    then not (is_mode i)
    else text_lt i j

has_suffix_from : String → String → Bool
has_suffix_from String.[] suffix = str_eq suffix ""
has_suffix_from (String.◌∷◌ c s) suffix = str_eq (String.◌∷◌ c s) suffix || has_suffix_from s suffix

unfoldable pub has_suffix : String → String → Bool
unfolding has_suffix_from
has_suffix s suffix = has_suffix_from s suffix

abbrev pub unsigned_leaves : List String
unsigned_leaves =
    "VLANID" ∷ "MaxMTUSize" ∷ "NumberOfRepetitions" ∷ "PeriodicInformInterval" ∷ "MaxMTU" ∷ "Status"
    ∷ "X_TP_VLANMode" ∷ "Port" ∷ "Channel" ∷ "TransmitPower" ∷ "OperatingChannelBandwidth"
    ∷ "MaxBitRate" ∷ "RSSI" ∷ "X_TP_TxPower" ∷ "AssociatedDeviceNumberOfEntries" ∷ []

unfoldable pub type_of_leaf : String → String
unfolding contains has_suffix
type_of_leaf leaf =
    if str_eq leaf "ModeEnabled"
    then "xsd:string"
    else if contains leaf "Enable"
        || str_eq leaf "RequestAddresses"
        || str_eq leaf "RequestPrefixes"
        || has_suffix leaf "Mcast"
    then "xsd:boolean"
    else if any (λ l. str_eq l leaf) unsigned_leaves
    then "xsd:unsignedInt"
    else if str_eq leaf "X_TP_MulticastStatus"
    then "xsd:int"
    else "xsd:string"

-- The value is not looked at.
unfoldable pub infer_xsd_type : String → String
unfolding leaf_of type_of_leaf
infer_xsd_type param_name = type_of_leaf (leaf_of param_name)

pub record ParameterValue : Type 0 where
  pub name : String
  pub xsd_type : String
  pub value : String

unfoldable pub parameter_value : Dict String → String → ParameterValue
unfolding infer_xsd_type value_of
parameter_value params name = record {
  name = name;
  xsd_type = infer_xsd_type name;
  value = value_of name params;
}

unfoldable pub build_set_parameter_values : Sorter String → Dict String → List ParameterValue
unfolding comes_before parameter_value
build_set_parameter_values slice params =
    map (parameter_value params) (slice.sort (comes_before params) (map (λ e. e.0) params))
