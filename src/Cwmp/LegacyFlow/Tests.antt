-- ===== src/Cwmp/LegacyFlow/Tests.antt =====
-- The flow for a device without a free GPON link.
use helix_acs.Prelude.{◌≡◌, refl, String, Bool, false, [], ◌∷◌, map}
use helix_acs.Dict.{value_of}
use helix_acs.Schema.Flow.{ProvisionStep}
use helix_acs.Cwmp.LegacyFlow.{legacy_flow}

abbrev never : String → String → Bool
never layout value = false

abbrev lower_layers : ProvisionStep → String
unfolding value_of
lower_layers step = value_of "Device.Ethernet.Link.{eth}.LowerLayers" step.params

link_zero :
    map lower_layers (legacy_flow 0 100 "u" "p").steps
    ≡ "" ∷ "" ∷ "" ∷ "Device.X_TP_GPON.Link.0." ∷ "" ∷ "" ∷ "" ∷ "" ∷ "" ∷ "" ∷ "" ∷ "" ∷ "" ∷ ""
      ∷ "" ∷ "" ∷ "" ∷ "" ∷ "" ∷ "" ∷ []
unfolding legacy_flow lower_layers
link_zero = refl
