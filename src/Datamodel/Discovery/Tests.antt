-- ===== src/Datamodel/Discovery/Tests.antt =====
-- A device with two PPP interfaces, of which the second one carries its WAN.
use helix_acs.Prelude.{◌≡◌, refl, [], ◌∷◌, none, some, leb→le, String}
use helix_acs.Text.{itoa}
use helix_acs.Dict.{Dict, find}
use helix_acs.Datamodel.Model.{InstanceMap}
use helix_acs.Datamodel.Tests.{instances}
use helix_acs.Datamodel.Discovery.{
  discover_tr181_ppp, discover_tr181_vlan, index_within, index_of_whole, re_ppp_iface,
  re_ip_iface_lower,
}
use helix_acs.Datamodel.Discovery.Traced.{discover_tr181_vlan-chain}

abbrev params : Dict String
params =
    ("Device.PPP.Interface.1.Username", "")
    ∷ ("Device.PPP.Interface.12.LowerLayers", "Device.Ethernet.VLANTermination.4.")
    ∷ ("Device.IP.Interface.3.LowerLayers", "Device.PPP.Interface.12.")
    ∷ ("Device.Ethernet.VLANTermination.4.VLANID", "100")
    ∷ ("Device.Ethernet.VLANTermination.4.LowerLayers", "Device.Ethernet.Link.2.")
    ∷ ("Device.Ethernet.Link.2.LowerLayers", "Device.X_TP_GPON.Link.5.")
    ∷ []

abbrev im : InstanceMap
im = record (instances 3 []) { ppp_iface_idx = 12 }

found : discover_tr181_ppp params (instances 3 []) ≡ im
unfolding discover_tr181_ppp
found = refl

without_wan : (discover_tr181_ppp params (instances 0 [])).ppp_iface_idx ≡ 1
unfolding discover_tr181_ppp
without_wan = refl

patterns :
    (index_within re_ppp_iface "0,Device.PPP.Interface.x.Device.PPP.Interface.7.Stats" ≡ some 7)
    × (index_of_whole re_ip_iface_lower "Device.IP.Interface.3.LowerLayers.1" ≡ none)
unfolding index_within index_of_whole
patterns = (refl, refl)

discover_tr181_vlan-chain_example : discover_tr181_vlan params im ≡ record im {
  wan_vlan_term_idx = 4;
  wan_current_vlan = 100;
  wan_eth_link_idx = 2;
  free_gpon_link_idx = 5;
}
unfolding find itoa
discover_tr181_vlan-chain_example =
    discover_tr181_vlan-chain params im 4 100 2 5 refl (leb→le 4 _ refl) (leb→le 100 _ refl)
      (leb→le 2 _ refl) refl (leb→le 5 _ refl) refl refl refl refl
