-- ===== src/Schema/Driver/Tests.antt =====
-- Drivers for the tests, and the theorem on the model's driver at a concrete registry.
use helix_acs.Prelude.{String, ◌≡◌, refl, [], ◌∷◌, none, some, arith, or_else, eq_iff, true, false}
use helix_acs.Dict.{Dict, find}
use helix_acs.Schema.Flow.{ProvisionFlow}
use helix_acs.Schema.Driver.{
  WiFiDriver, Discovery, DeviceDriver, DriverRegistry, driver_name, model_driver_name,
  resolve_slugs,
}
use helix_acs.Schema.Driver.Resolving.{defaults_of, resolve_slugs-model}

abbrev pub sample_wifi : WiFiDriver
sample_wifi = record {
  band_steering_path = "";
  multi_ssid_suffix_24g = "";
  multi_ssid_suffix_5g = "";
  multi_ssid_suffix_6g = "";
  sync_bands_on_steering = false;
}

abbrev pub sample_discovery : Discovery
sample_discovery = record {
  wan_type_path = "Device.IP.Interface.{i}.X_TP_ConnType";
  wan_type_values = record { wan = "PPPoE" ∷ []; lan = "LAN" ∷ []; bridge = [] };
  gpon_enable_path = "Device.X_TP_GPON.Link.{i}.Enable";
  wan_uptime_path = "";
  wan_service_type_path = "";
  wan_vlan_path = "";
  host_conn_type_path = "";
  host_conn_type_values = [];
  wifi_ssid_band_without_lower_layers = none;
  system_cpu_path = "";
  system_mem_pct_path = "";
  extra_summon_paths = [];
}

abbrev pub driver_with : String → Dict String → Dict String → Dict ProvisionFlow → DeviceDriver
driver_with model config defaults flows = record {
  id = "sample";
  vendor = "tplink";
  model = "tr181";
  device_model = model;
  description = "";
  features = ("nat", true) ∷ [];
  config = config;
  security_modes = [];
  default_params = defaults;
  wifi = sample_wifi;
  discovery = sample_discovery;
  provisions = flows;
}

abbrev vendor_driver : DeviceDriver
vendor_driver = driver_with "" [] (("Device.A", "1") ∷ ("Device.B", "2") ∷ []) []

abbrev model_driver : DeviceDriver
model_driver = driver_with "XC220-G3" [] (("Device.B", "3") ∷ []) []

abbrev sample_registry : DriverRegistry
sample_registry = record {
  drivers =
      ("vendor/tplink/tr181", vendor_driver) ∷ ("vendor/tplink/XC220-G3/tr181", model_driver) ∷ [];
}

resolve_slugs-model_example :
    (d : DeviceDriver) × ((resolve_slugs sample_registry "tplink" "XC220-G3" "tr181" ≡ some d)
      × ((record d { default_params = model_driver.default_params } ≡ model_driver)
          × ((k : String)
              → find k d.default_params
                ≡ or_else (find k model_driver.default_params) (
                    find k (
                      defaults_of (find (driver_name "tplink" "tr181") sample_registry.drivers))))))
unfolding find model_driver_name
resolve_slugs-model_example =
    resolve_slugs-model sample_registry "tplink" "XC220-G3" "tr181" model_driver
      (ground (arith, eq_iff "tplink" "")) (ground (arith, eq_iff "XC220-G3" "")) refl
