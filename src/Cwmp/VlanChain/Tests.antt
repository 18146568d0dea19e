-- ===== src/Cwmp/VlanChain/Tests.antt =====
-- Tests and examples of the chain of references.
use helix_acs.Prelude.{arith, ◌≡◌, refl, String, [], ◌∷◌}
use helix_acs.Text.{trim_space, split, to_lower, contains}
use helix_acs.Text.Numbers.{atoi}
use helix_acs.Dict.{Dict, find}
use helix_acs.Cwmp.VlanChain.{trim_suffix, resolve_vlan_from_chain}
use helix_acs.Cwmp.VlanChain.Reached.{
  Found, Reaches, resolve_vlan_from_chain-Found, resolve_vlan_from_chain-reached,
}

abbrev layers : Dict String
layers =
    ("IP.2.LowerLayers", "Eth.VLANTermination.6., Eth.VLANTermination.7.")
    ∷ ("Eth.VLANTermination.6.VlanId", "110")
    ∷ ("PPP.1.LowerLayers", "PPP.2.")
    ∷ ("PPP.2.LowerLayers", "PPP.1.")
    ∷ []

vlan_found : resolve_vlan_from_chain layers " IP.2. " ≡ 110
unfolding resolve_vlan_from_chain
vlan_found = refl

loop_ends : resolve_vlan_from_chain layers "PPP.1." ≡ 0
unfolding resolve_vlan_from_chain
loop_ends = refl

-- An empty first reference hides the one behind it.
empty_reference :
    resolve_vlan_from_chain
      (("IP.1.LowerLayers", ",VLANTermination.1") ∷ ("VLANTermination.1.VLANID", "7") ∷ [])
      "IP.1"
    ≡ 0
unfolding resolve_vlan_from_chain
empty_reference = refl

resolve_vlan_from_chain-Found_example : Found layers 4 (trim_space " IP.2. ") 110
unfolding resolve_vlan_from_chain
resolve_vlan_from_chain-Found_example = resolve_vlan_from_chain-Found layers " IP.2. " 109 refl

abbrev chain : Dict String
chain =
    ("IP.2.LowerLayers", " Eth.VLANTermination.6. ,Eth.VLANTermination.7.")
    ∷ ("Eth.VLANTermination.6.VLANID", "110")
    ∷ []

resolve_vlan_from_chain-reached_example : resolve_vlan_from_chain chain "IP.2." ≡ 110
unfolding Reaches trim_suffix trim_space split find to_lower contains atoi
resolve_vlan_from_chain-reached_example =
    resolve_vlan_from_chain-reached chain "IP.2." 1 "Eth.VLANTermination.6" "110" 109 (omega arith)
      (
        refl,
        refl,
        (
          "Eth.VLANTermination.6.",
          (
            (
              " Eth.VLANTermination.6. ,Eth.VLANTermination.7.",
              " Eth.VLANTermination.6. ",
              "Eth.VLANTermination.7." ∷ [],
              refl,
              refl,
              refl,
              refl,
            ),
            (refl, refl),
          ),
        ),
      )
      refl refl refl
