-- ===== src/Cwmp/WifiUpdate/Tests.antt =====
-- A run of the flow for WiFi.
use helix_acs.Prelude.{◌≡◌, refl, [], ◌∷◌, none, some}
use helix_acs.Datamodel.Tr181.{Tr181Mapper, tr181_mapper, tr181_wifi, ssid_idx, ap_idx, radio_idx}
use helix_acs.Task.Payload.{WifiPayload}
use helix_acs.Schema.Flow.{ProvisionFlow, set}
use helix_acs.Schema.Driver.{DeviceDriver}
use helix_acs.Schema.Driver.Tests.{driver_with}
use helix_acs.Cwmp.ExecuteTask.{request, refused_with, set_parameter_values}
use helix_acs.Cwmp.WifiUpdate.{wifi_plan}

abbrev mapper : Tr181Mapper
mapper = record {
  wan_iface_idx = 1;
  lan_iface_idx = 2;
  ppp_iface_idx = 1;
  ssid_indices = [];
  radio_indices = [];
  ap_indices = [];
}

abbrev flow : ProvisionFlow
flow = record {
  id = "wifi_update";
  description = "";
  steps =
      record {
        kind = set;
        when = "";
        object = "";
        as_var = "";
        params =
            ("{ssid_path}", "{ssid}")
            ∷ ("{password_path}", "{password}")
            ∷ ("{channel_path}", "{channel}")
            ∷ [];
      }
      ∷ [];
}

abbrev driver : DeviceDriver
driver = driver_with "" [] [] (("wifi_update", flow) ∷ [])

abbrev payload : WifiPayload
payload = record {
  band = "2.4";
  ssid = "home";
  password = "secret12";
  security = "";
  channel = 0;
  enabled = none;
  band_steering_enabled = none;
}

sent :
    wifi_plan (some driver) (tr181_mapper mapper) "t" (some payload)
    ≡ request (
        set_parameter_values (
          ("Device.WiFi.SSID.1.SSID", "home")
          ∷ ("Device.WiFi.AccessPoint.1.Security.KeyPassphrase", "secret12")
          ∷ []))
unfolding wifi_plan tr181_mapper tr181_wifi ssid_idx ap_idx radio_idx
sent = refl

without_driver :
    wifi_plan none (tr181_mapper mapper) "t" (some payload)
    ≡ refused_with "wifi update requires device driver"
unfolding wifi_plan
without_driver = refl
