-- ===== src/Cwmp/Restore/Wifi.antt =====
-- What a WiFi task sends of a restored network.
use helix_acs.Prelude.{
  ℕ, ◌+◌, ◌≡◌, refl, ap, ◌∙◌, length, length-append, if◌then◌else◌, String, Bool, false, Option,
  none, some, str_eq, eq_iff, arith, All, All-append, All-map, ◌⊎◌, Bool-cases, inl, inr,
}
use helix_acs.Dict.{Dict, value_of}
use helix_acs.Datamodel.Model.{Mapper}
use helix_acs.Task.Payload.{WifiPayload}
use helix_acs.Schema.Driver.{DeviceDriver, map_security_mode}
use helix_acs.Cwmp.WifiUpdate.{security_mode, sent_password}
use helix_acs.Cwmp.Restore.{
  restored_security, device_sec_to_payload_sec, wifi_payload, wifi_payloads,
  extract_band_steering_status,
}

-- The network of the snapshot at an index: it is named there, the task names it so and sends the password of the
-- snapshot, and with a password the security mode is not None.
abbrev pub IsSecured : DeviceDriver → Mapper → Dict String → ℕ → WifiPayload → Type 0
IsSecured drv mapper snapshot i q =
    (q.ssid ≡ value_of (mapper.wifi.ssid i) snapshot)
    × (str_eq q.ssid "" ≡ false)
    × (sent_password drv q ≡ value_of (mapper.wifi.password i) snapshot)
    × (str_eq (value_of (mapper.wifi.password i) snapshot) "" ≡ false
        → str_eq (security_mode drv q) "None" ≡ false)

abbrev pub named_networks : Mapper → Dict String → ℕ → ℕ
named_networks mapper snapshot i =
    if str_eq (value_of (mapper.wifi.ssid i) snapshot) "" then 0 else 1

-- The band that a payload names is the first or the second one.
abbrev pub IsOfBand : DeviceDriver → Mapper → Dict String → WifiPayload → Type 0
IsOfBand drv mapper snapshot q =
    ((q.band ≡ "2.4") × IsSecured drv mapper snapshot 0 q)
    ⊎ ((q.band ≡ "5") × IsSecured drv mapper snapshot 1 q)

-- The password is sent as it is, and under a security mode other than None.
abbrev IsSent : DeviceDriver → WifiPayload → Type 0
IsSent drv q =
    (sent_password drv q ≡ q.password)
    × (str_eq q.password "" ≡ false → str_eq (security_mode drv q) "None" ≡ false)

restored_security-given :
    (password device_sec : String)
    → str_eq password "" ≡ false
    → (str_eq (restored_security password device_sec) "" ≡ false)
      × (str_eq (restored_security password device_sec) "None" ≡ false)
unfolding restored_security
restored_security-given password device_sec h =
    let security = device_sec_to_payload_sec device_sec in
    rw (h, restored_security)
      (elim (Bool-cases (str_eq security "")) [
        | inl none_given ↦ rw none_given (refl, refl)
        | inr given ↦ elim (Bool-cases (str_eq security "None")) [
          | inl open_net ↦ rw (given, open_net) (refl, refl)
          | inr other ↦ rw (given, other) (given, other)
        ]
      ])

module _ (drv : DeviceDriver)
    (maps : (mode : String)
      → str_eq mode "None" ≡ false
      → str_eq (map_security_mode (some drv) mode) "None" ≡ false) where
  -- A payload as it is restored, by its password and security mode.
  IsSent-restored :
      (q : WifiPayload) (device_sec : String)
      → q.security ≡ restored_security q.password device_sec
      → IsSent drv q
  unfolding security_mode sent_password
  IsSent-restored q device_sec same = elim (Bool-cases (str_eq q.password "")) [
    | inl empty ↦ (ground (arith, eq_iff q.password ""), λ h. cc)
    | inr given ↦
        let (some_mode, secured) = restored_security-given q.password device_sec given in
        let mode_given : str_eq q.security "" ≡ false = rw same some_mode in
        let not_none : str_eq q.security "None" ≡ false = rw same secured in
        let mapped = maps q.security not_none in (ground arith, λ h. ground arith)
  ]

  wifi_payload-IsSecured :
      (mapper : Mapper) (snapshot : Dict String) (i : ℕ) (band : String) (steering : Option Bool)
      → All
          (λ q. (q.band ≡ band) × IsSecured drv mapper snapshot i q)
          (wifi_payload mapper snapshot i band steering)
  unfolding wifi_payload
  wifi_payload-IsSecured mapper snapshot i band steering =
      elim (Bool-cases (str_eq (value_of (mapper.wifi.ssid i) snapshot) "")) [
        | inl missing ↦ rw (missing, wifi_payload) tt
        | inr named ↦
            let (as_given, secured) =
              IsSent-restored
                (record {
                  band = band;
                  ssid = value_of (mapper.wifi.ssid i) snapshot;
                  password = value_of (mapper.wifi.password i) snapshot;
                  security =
                      restored_security (value_of (mapper.wifi.password i) snapshot)
                        (value_of (mapper.wifi.security_mode i) snapshot);
                  channel = 0;
                  enabled = none;
                  band_steering_enabled = steering;
                })
                (value_of (mapper.wifi.security_mode i) snapshot) refl in
            rw (named, wifi_payload) ((refl, (refl, named, as_given, secured)), tt)
      ]

  wifi_payload-length :
      (mapper : Mapper) (snapshot : Dict String) (i : ℕ) (band : String) (steering : Option Bool)
      → length (wifi_payload mapper snapshot i band steering) ≡ named_networks mapper snapshot i
  unfolding wifi_payload
  wifi_payload-length mapper snapshot i band steering =
      elim (Bool-cases (str_eq (value_of (mapper.wifi.ssid i) snapshot) "")) [
        | inl missing ↦ rw (missing, wifi_payload) refl
        | inr named ↦ rw (named, wifi_payload) refl
      ]

  -- As many networks are restored as are named in the snapshot for the two bands. The WiFi task of each of them
  -- sends the name and the password that the snapshot has for its band; with a password it is not sent as an
  -- open network, where the driver maps no other security mode to None.
  pub wifi_payloads-IsSecured :
      (mapper : Mapper) (snapshot : Dict String)
      → (length (wifi_payloads mapper snapshot)
          ≡ named_networks mapper snapshot 0 + named_networks mapper snapshot 1)
        × All (IsOfBand drv mapper snapshot) (wifi_payloads mapper snapshot)
  unfolding wifi_payloads
  wifi_payloads-IsSecured mapper snapshot = (
    length-append
          (wifi_payload mapper snapshot 0 "2.4" (extract_band_steering_status snapshot mapper))
          (wifi_payload mapper snapshot 1 "5" none)
        ∙ ap (λ n. n + length (wifi_payload mapper snapshot 1 "5" none))
            (wifi_payload-length mapper snapshot 0 "2.4"
              (extract_band_steering_status snapshot mapper))
        ∙ ap (λ n. named_networks mapper snapshot 0 + n)
            (wifi_payload-length mapper snapshot 1 "5" none),
    All-append (IsOfBand drv mapper snapshot)
        (wifi_payload mapper snapshot 0 "2.4" (extract_band_steering_status snapshot mapper))
        (wifi_payload mapper snapshot 1 "5" none)
        (All-map {P = λ q. (q.band ≡ "2.4") × IsSecured drv mapper snapshot 0 q}
          {Q = IsOfBand drv mapper snapshot} (λ q h. inl h)
          (wifi_payload mapper snapshot 0 "2.4" (extract_band_steering_status snapshot mapper))
          (wifi_payload-IsSecured mapper snapshot 0 "2.4"
            (extract_band_steering_status snapshot mapper)))
        (All-map {P = λ q. (q.band ≡ "5") × IsSecured drv mapper snapshot 1 q}
          {Q = IsOfBand drv mapper snapshot} (λ q h. inr h)
          (wifi_payload mapper snapshot 1 "5" none)
          (wifi_payload-IsSecured mapper snapshot 1 "5" none)),
  )
