-- ===== src/Cwmp/Reset.antt =====
-- `detectAndHandleReset` of internal/cwmp/session.go, over the stored snapshots. Of an Inform, the codes of
-- its events and its parameters are read.
pub mod Detected
mod Tests
use helix_acs.Prelude.{
  ℕ, String, Bool, true, false, not, ◌&&◌, ◌||◌, List, [], ◌∷◌, ◌++◌, Option, none, some,
  if◌then◌else◌, str_eq, any,
}
use helix_acs.Dict.{Dict, value_of}
use helix_acs.Datamodel.Model.{Mapper}
use helix_acs.Task.Model.{Task}
use helix_acs.Task.Payload.{Encoder}
use helix_acs.Parameter.Storage.{
  Storage, Outcome, get_snapshot, delete_snapshot, delete_device_parameters,
}
use helix_acs.Cwmp.Restore.{restore_parameters, restore_wifi_config, restore_wan_config}

pub record Inform : Type 0 where
  pub event_codes : List String
  pub parameter_list : List (String × String)

unfoldable pub has_bootstrap_event : Inform → Bool
has_bootstrap_event inf = any (λ code. str_eq code "0 BOOTSTRAP") inf.event_codes

abbrev pub first_named : String → List (String × String) → String
first_named name [] = ""
first_named name ((n, v) ∷ params) = if str_eq n name then v else first_named name params

unfoldable pub inform_param_value : Inform → String → String
inform_param_value inf name = first_named name inf.parameter_list

abbrev pub code_name : String
code_name = "Device.DeviceInfo.ProvisioningCode"

-- What the calls to the storage come to.
pub record Calls : Type 0 where
  pub pre_reset_read : Bool
  pub pre_reset_deleted : Outcome
  pub last_known_good_read : Bool
  pub parameters_deleted : Outcome
  pub cache_deleted : Bool

abbrev pub found_snapshot : Option (Option (Dict String)) → Option (Dict String)
found_snapshot none = none
found_snapshot (some o) = o

-- Whether the device is seen to be reset, by the event or by a cleared code.
unfoldable pub is_reset : Inform → Dict String → Bool
unfolding has_bootstrap_event inform_param_value value_of
is_reset inf last_known_good =
    has_bootstrap_event inf
    || (str_eq (inform_param_value inf code_name) ""
        && not (str_eq (value_of code_name last_known_good) ""))

module _ (e : Encoder) (now : ℕ) (rebuild : String × String → Dict String → Mapper) (calls : Calls)
    (serial : String) (inf : Inform) where
  -- The first case: a snapshot from before a reboot by the server.
  abbrev pub after_reboot : Dict String → Storage → Storage × List Task
  unfolding delete_snapshot restore_parameters has_bootstrap_event
  after_reboot pre_reset s =
      let kept = (delete_snapshot calls.pre_reset_deleted serial "pre_reset_params" s).0 in
      (
        kept,
        if has_bootstrap_event inf
            then restore_parameters e now serial pre_reset "pre_reset_params"
            else [],
      )

  -- The second case: a reset that the server has not asked for.
  abbrev pub without_reboot : Option (Dict String) → Storage → Storage × List Task
  unfolding delete_device_parameters restore_wifi_config restore_wan_config is_reset
  without_reboot none s = (s, [])
  without_reboot (some last_known_good) s =
      if is_reset inf last_known_good
      then (
        (delete_device_parameters calls.parameters_deleted calls.cache_deleted serial s).0,
        restore_wifi_config e now rebuild serial last_known_good
            ++ restore_wan_config e now serial last_known_good,
      )
      else (s, [])

  -- The storage behind it, and what is given to the queue.
  unfoldable pub detect_and_handle_reset : Storage → Storage × List Task
  unfolding get_snapshot after_reboot without_reboot
  detect_and_handle_reset s =
      elim (found_snapshot (get_snapshot calls.pre_reset_read serial "pre_reset_params" s)) [
        | some pre_reset ↦ after_reboot pre_reset s
        | none ↦
            without_reboot
              (found_snapshot (get_snapshot calls.last_known_good_read serial "last_known_good" s))
              s
      ]
