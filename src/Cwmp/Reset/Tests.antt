-- ===== src/Cwmp/Reset/Tests.antt =====
-- A device that has lost its provisioning code.
use helix_acs.Prelude.{◌≡◌, refl, String, true, false, List, [], ◌∷◌, ◌++◌, str_eq}
use helix_acs.Text.{◌+++◌, itoa}
use helix_acs.Dict.{Dict, value_of}
use helix_acs.Datamodel.Model.{Mapper}
use helix_acs.Datamodel.Tr181.{tr181_mapper, tr181_wifi, ssid_idx}
use helix_acs.Task.Model.{Task}
use helix_acs.Task.Payload.{Encoder}
use helix_acs.Parameter.Storage.{Storage, executed, get_snapshot}
use helix_acs.Cwmp.Summon.{first_root_object}
use helix_acs.Cwmp.Restore.{set_params_task}
use helix_acs.Cwmp.Reset.{
  Inform, Calls, has_bootstrap_event, inform_param_value, code_name, detect_and_handle_reset,
}
use helix_acs.Cwmp.Reset.Detected.{detect_and_handle_reset-quiet}

abbrev encoder : Encoder
encoder = record {
  wifi_json = λ p. p.ssid;
  wan_json = λ p. p.username;
  lan_json = λ _. "";
  set_params_json = λ _. "params";
  firmware_json = λ _. "";
  diagnostic_json = λ _. "";
  ping_test_json = λ _. "";
  traceroute_json = λ _. "";
  speed_test_json = λ _. "";
  port_forwarding_json = λ _. "";
  empty_json = "";
}

abbrev rebuild : String × String → Dict String → Mapper
rebuild identity snapshot = tr181_mapper (record {
  wan_iface_idx = 1;
  lan_iface_idx = 2;
  ppp_iface_idx = 1;
  ssid_indices = [];
  radio_indices = [];
  ap_indices = [];
})

abbrev all_good : Calls
all_good = record {
  pre_reset_read = true;
  pre_reset_deleted = executed;
  last_known_good_read = true;
  parameters_deleted = executed;
  cache_deleted = true;
}

abbrev cleared : Inform
cleared = record { event_codes = "2 PERIODIC" ∷ []; parameter_list = [] }

abbrev good : Dict String
good =
    ("Device.DeviceInfo.ProvisioningCode", "P1")
    ∷ ("Device.DeviceInfo.Manufacturer", "TP-Link")
    ∷ []

abbrev storage : Storage
storage = record {
  rows = [];
  snapshots =
      record { snapshot_serial = "cpe"; snapshot_type = "last_known_good"; parameters = good } ∷ [];
  samples = [];
  cache = [];
}

given :
    (detect_and_handle_reset encoder 7 rebuild all_good "cpe" cleared storage).1
    ≡ set_params_task encoder "restore_provcode_7" "cpe" ((code_name, "P1") ∷ []) ∷ []
unfolding detect_and_handle_reset tr181_mapper tr181_wifi ssid_idx
given = refl

detect_and_handle_reset-quiet_example :
    (str_eq (value_of code_name good) "" ≡ false)
    × (before : List Task) × (after : List Task) × ((detect_and_handle_reset encoder 7 rebuild
          all_good "cpe" cleared storage).1
        ≡ before
          ++ (set_params_task encoder
                ("restore_provcode_" +++ itoa 7)
                "cpe"
                ((code_name, value_of code_name good) ∷ [])
              ∷ after))
    × ((later : Inform) (t : Storage)
        → has_bootstrap_event later ≡ false
        → inform_param_value later code_name ≡ value_of code_name good
        → (detect_and_handle_reset encoder 7 rebuild all_good "cpe" later t).1 ≡ [])
unfolding get_snapshot has_bootstrap_event first_root_object
detect_and_handle_reset-quiet_example =
    detect_and_handle_reset-quiet encoder 7 rebuild all_good "cpe" cleared storage good refl refl
      refl (λ none_given. cc given)
