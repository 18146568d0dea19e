-- ===== src/Cwmp/InformParams/Tests.antt =====
-- An Inform of a device that sends names of both data models.
use helix_acs.Prelude.{any, ◌≡◌, refl, String, List, [], ◌∷◌, Option, none, if◌then◌else◌, str_eq}
use helix_acs.Text.{has_prefix}
use helix_acs.Text.Numbers.{ℤ}
use helix_acs.Cwmp.InformParams.{DeviceId, extract_inform_params}
use helix_acs.Cwmp.InformParams.Named.{
  has_key_prefix, last_with_suffix, extract_inform_params-named,
}

abbrev no_number : String → Option ℤ
no_number s = none

abbrev id : DeviceId
id = record { manufacturer = "ZTE"; oui = "001122"; product_class = "F670L"; serial_number = "s1" }

abbrev params : List (String × String)
params =
    ("Device.DeviceInfo.SoftwareVersion", "2.0")
    ∷ ("Device.IP.Interface.1.IPAddress", "10.0.0.1")
    ∷ ("Device.IP.Interface.2.IPAddress", "10.0.0.2")
    ∷ ("InternetGatewayDevice.DeviceInfo.HardwareVersion", "V1")
    ∷ []

extracted :
    ((extract_inform_params no_number id params).ip_address ≡ "10.0.0.1")
    × ((extract_inform_params no_number id params).sw_version ≡ "2.0")
    × ((extract_inform_params no_number id params).model_name ≡ "F670L")
    × ((extract_inform_params no_number id params).data_model ≡ "tr098")
unfolding extract_inform_params has_prefix
extracted = (refl, refl, refl, refl)

extract_inform_params-named_example :
    ((extract_inform_params no_number id params).model_name ≡ (
      if str_eq (last_with_suffix "modelname" "" params) ""
      then "F670L"
      else last_with_suffix "modelname" "" params))
    × ((extract_inform_params no_number id params).data_model ≡ (
        if any (has_key_prefix "InternetGatewayDevice.") params
        then "tr098"
        else if any (has_key_prefix "Device.") params
        then "tr181"
        else ""))
extract_inform_params-named_example = extract_inform_params-named no_number id params
