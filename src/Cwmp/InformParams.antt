-- ===== src/Cwmp/InformParams.antt =====
-- `extractInformParams` of internal/cwmp/session.go: what an Inform says of its device. `fmt.Sscanf` with %d is an
-- argument.
mod Named
mod Tests
use helix_acs.Prelude.{
  ℕ, String, Bool, true, false, not, ◌&&◌, ◌||◌, List, [], ◌∷◌, Option, none, some, if◌then◌else◌,
  str_eq, any,
}
use helix_acs.Text.{to_lower, has_prefix}
use helix_acs.Text.Numbers.{ℤ, pos}
use helix_acs.Dict.{Dict, put}
use helix_acs.Cwmp.Soap.{has_suffix}

pub record DeviceId : Type 0 where
  pub manufacturer : String
  pub oui : String
  pub product_class : String
  pub serial_number : String

pub record UpsertRequest : Type 0 where
  pub serial : String
  pub oui : String
  pub manufacturer : String
  pub product_class : String
  pub parameters : Dict String
  pub model_name : String
  pub sw_version : String
  pub hw_version : String
  pub bl_version : String
  pub wan_ip : String
  pub ip_address : String
  pub uptime_seconds : ℤ
  pub ram_total : ℤ
  pub ram_free : ℤ
  pub acs_url : String
  pub data_model : String
  pub schema : String

abbrev pub new_request : DeviceId → UpsertRequest
new_request d = record {
  serial = d.serial_number;
  oui = d.oui;
  manufacturer = d.manufacturer;
  product_class = d.product_class;
  parameters = [];
  model_name = "";
  sw_version = "";
  hw_version = "";
  bl_version = "";
  wan_ip = "";
  ip_address = "";
  uptime_seconds = pos 0;
  ram_total = pos 0;
  ram_free = pos 0;
  acs_url = "";
  data_model = "";
  schema = "";
}

abbrev pub or_before : ℤ → Option ℤ → ℤ
or_before before none = before
or_before before (some v) = v

abbrev pub data_model_of : List (String × String) → String
data_model_of parameters =
    if any (λ (e : String × String). has_prefix e.0 "InternetGatewayDevice.") parameters
    then "tr098"
    else if any (λ (e : String × String). has_prefix e.0 "Device.") parameters
    then "tr181"
    else ""

abbrev pub with_model_name : UpsertRequest → UpsertRequest
with_model_name req =
    if str_eq req.model_name "" && not (str_eq req.product_class "")
    then record req { model_name = req.product_class }
    else req

module _ (scan_int : String → Option ℤ) where
  -- The switch on the name in lower case.
  unfoldable pub set_named : String → String → UpsertRequest → UpsertRequest
  unfolding has_suffix
  set_named lower val req =
      if has_suffix lower "modelname"
      then record req { model_name = val }
      else if has_suffix lower "softwareversion"
      then record req { sw_version = val }
      else if has_suffix lower "hardwareversion"
      then record req { hw_version = val }
      else if has_suffix lower "bootloaderversion"
      then record req { bl_version = val }
      else if has_suffix lower "externalipaddress" || has_suffix lower "wanipaddress"
      then record req { wan_ip = val }
      else if has_suffix lower "ipaddress" && str_eq req.ip_address ""
      then record req { ip_address = val }
      else if has_suffix lower "uptime"
      then record req { uptime_seconds = or_before req.uptime_seconds (scan_int val) }
      else if has_suffix lower "memorystatus.total"
      then record req { ram_total = or_before req.ram_total (scan_int val) }
      else if has_suffix lower "memorystatus.free"
      then record req { ram_free = or_before req.ram_free (scan_int val) }
      else if has_suffix lower "managementserver.url" && str_eq req.acs_url ""
      then record req { acs_url = val }
      else req

  unfoldable pub read_params : List (String × String) → UpsertRequest → UpsertRequest
  unfolding set_named to_lower put
  read_params [] req = req
  read_params ((name, val) ∷ params) req =
      read_params params
        (set_named (to_lower name) val (record req { parameters = put name val req.parameters }))

  unfoldable pub extract_inform_params : DeviceId → List (String × String) → UpsertRequest
  unfolding read_params
  extract_inform_params d params =
      let req = read_params params (new_request d) in
      with_model_name (record req { data_model = data_model_of req.parameters })
