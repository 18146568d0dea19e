-- ===== src/Cwmp/Reset/Detected.antt =====
-- A reset that is seen by the cleared provisioning code is not seen again once the code is back.
use mathlib.Core.Path.{subst}
use helix_acs.Prelude.{
  ℕ, ◌≡◌, ◌≢◌, refl, ap, ◌∙◌, String, true, false, List, [], ◌∷◌, ◌++◌, some, str_eq, arith,
  Bool-cases, Option-cases, inl, inr, append_assoc,
}
use helix_acs.Text.{◌+++◌, itoa}
use helix_acs.Dict.{Dict, value_of}
use helix_acs.Datamodel.Model.{Mapper}
use helix_acs.Task.Model.{Task}
use helix_acs.Task.Payload.{Encoder}
use helix_acs.Parameter.Storage.{Storage, get_snapshot}
use helix_acs.Cwmp.Summon.{first_root_object}
use helix_acs.Cwmp.Restore.{
  set_params_task, restore_wifi_config, restore_wan_config, provisioning_code_path, wifi_tasks,
  wifi_payloads, snapshot_identity,
}
use helix_acs.Cwmp.Reset.{
  Inform, Calls, has_bootstrap_event, inform_param_value, code_name, found_snapshot, is_reset,
  detect_and_handle_reset,
}

module _ (e : Encoder) (now : ℕ) (rebuild : String × String → Dict String → Mapper) (calls : Calls)
    (serial : String) where
  -- Without the event and with a code nothing is given to the queue.
  quiet :
      (inf : Inform) (s : Storage)
      → has_bootstrap_event inf ≡ false
      → str_eq (inform_param_value inf code_name) "" ≡ false
      → (detect_and_handle_reset e now rebuild calls serial inf s).1 ≡ []
  unfolding detect_and_handle_reset is_reset
  quiet inf s plain coded =
      elim (Option-cases
        (found_snapshot (get_snapshot calls.pre_reset_read serial "pre_reset_params" s))) [
          | inr (pre_reset, e1) ↦ rw (e1, detect_and_handle_reset) (rw plain refl)
          | inl e1 ↦
              rw (e1, detect_and_handle_reset)
                (elim (Option-cases (
                  found_snapshot
                    (get_snapshot calls.last_known_good_read serial "last_known_good" s))) [
                      | inl e2 ↦ rw e2 refl
                      | inr (good, e2) ↦ rw e2 (rw (plain, coded, is_reset) refl)
                    ])
        ]

  code_task : String → Task
  code_task code =
      set_params_task e ("restore_provcode_" +++ itoa now) serial ((code_name, code) ∷ [])

  restore_wifi_config-code :
      (snapshot : Dict String)
      → str_eq (first_root_object snapshot) "InternetGatewayDevice." ≡ false
      → str_eq (value_of code_name snapshot) "" ≡ false
      → (before : List Task) × (restore_wifi_config e now rebuild serial snapshot
          ≡ before ++ (code_task (value_of code_name snapshot) ∷ []))
  unfolding restore_wifi_config provisioning_code_path code_task
  restore_wifi_config-code snapshot root coded = (
    wifi_tasks e now serial
        (wifi_payloads (rebuild (snapshot_identity snapshot) snapshot) snapshot),
    rw (root, coded, restore_wifi_config, provisioning_code_path) refl,
  )

  is_reset-coded :
      (inf : Inform) (good : Dict String)
      → has_bootstrap_event inf ≡ false
      → is_reset inf good ≡ true
      → str_eq (value_of code_name good) "" ≡ false
  unfolding is_reset
  is_reset-coded inf good plain reset = ground arith

  -- The last good snapshot of the device, and the tasks that a reset leads to.
  result-restore :
      (inf : Inform) (s : Storage)
      → has_bootstrap_event inf ≡ false
      → (detect_and_handle_reset e now rebuild calls serial inf s).1 ≢ []
      → (good : Dict String) × (found_snapshot
            (get_snapshot calls.last_known_good_read serial "last_known_good" s)
          ≡ some good)
        × (str_eq (value_of code_name good) "" ≡ false)
        × ((detect_and_handle_reset e now rebuild calls serial inf s).1
            ≡ restore_wifi_config e now rebuild serial good ++ restore_wan_config e now serial good)
  unfolding detect_and_handle_reset
  result-restore inf s plain more =
      elim (Option-cases
        (found_snapshot (get_snapshot calls.pre_reset_read serial "pre_reset_params" s))) [
          | inr (pre_reset, e1) ↦ absurd (more (rw (e1, detect_and_handle_reset) (rw plain refl)))
          | inl e1 ↦
              elim (Option-cases (
                found_snapshot
                  (get_snapshot calls.last_known_good_read serial "last_known_good" s))) [
                    | inl e2 ↦ absurd (more (rw (e1, detect_and_handle_reset) (rw e2 refl)))
                    | inr (good, e2) ↦ elim (Bool-cases (is_reset inf good)) [
                      | inl reset ↦ (
                        good,
                        e2,
                        is_reset-coded inf good plain reset,
                        rw (e1, detect_and_handle_reset) (rw e2 (rw reset refl)),
                      )
                      | inr other ↦
                          absurd (more (rw (e1, detect_and_handle_reset) (rw e2 (rw other refl))))
                    ]
                  ]
        ]

  -- When a reset without the event leads to tasks, the snapshot has a code, and one of the tasks sets the
  -- device's code to it, where the snapshot is of a TR-181 device. An Inform without the event that
  -- carries this code then leads to no task, whatever is stored.
  pub detect_and_handle_reset-quiet :
      (inf : Inform) (s : Storage) (good : Dict String)
      → found_snapshot (get_snapshot calls.last_known_good_read serial "last_known_good" s)
        ≡ some good
      → has_bootstrap_event inf ≡ false
      → str_eq (first_root_object good) "InternetGatewayDevice." ≡ false
      → (detect_and_handle_reset e now rebuild calls serial inf s).1 ≢ []
      → (str_eq (value_of code_name good) "" ≡ false)
        × (before : List Task) × (after : List Task) × ((detect_and_handle_reset e now rebuild calls
              serial inf s).1
            ≡ before
              ++ (set_params_task e
                    ("restore_provcode_" +++ itoa now)
                    serial
                    ((code_name, value_of code_name good) ∷ [])
                  ∷ after))
        × ((later : Inform) (t : Storage)
            → has_bootstrap_event later ≡ false
            → inform_param_value later code_name ≡ value_of code_name good
            → (detect_and_handle_reset e now rebuild calls serial later t).1 ≡ [])
  unfolding code_task
  detect_and_handle_reset-quiet inf s good kept plain root more =
      let (found, stored, coded, tasks) = result-restore inf s plain more in
      let same : found ≡ good = cc in
      let code_given : str_eq (value_of code_name good) "" ≡ false =
        subst (λ g. str_eq (value_of code_name g) "" ≡ false) same coded in
      let (before, wifi) = restore_wifi_config-code good root code_given in
      (
        code_given,
        before,
        restore_wan_config e now serial good,
        tasks
            ∙ ap
                (λ g.
                  restore_wifi_config e now rebuild serial g ++ restore_wan_config e now serial g)
                same
            ∙ ap (λ l. l ++ restore_wan_config e now serial good) wifi
            ∙ append_assoc before (code_task (value_of code_name good) ∷ [])
                (restore_wan_config e now serial good),
        λ later t plain_later coded_later. quiet later t plain_later (rw coded_later code_given),
      )
