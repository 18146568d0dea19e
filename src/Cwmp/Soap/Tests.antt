-- ===== src/Cwmp/Soap/Tests.antt =====
-- Runs of the request builder, and examples of its theorems.
use mathlib.Core.List.{Perm, Pairwise}
use mathlib.Core.List.Perm
use helix_acs.Prelude.{
  All, ◌≡◌, ◌≤◌, refl, sym, inl, inr, Bool-cases, str_eq, eq_iff, [], ◌∷◌, map, String,
}
use helix_acs.Dict.{Dict, find}
use helix_acs.Sorting.Insertion.{insertion}
use helix_acs.Cwmp.Soap.{build_set_parameter_values, infer_xsd_type}
use helix_acs.Cwmp.Soap.Ranks.{place}
use helix_acs.Cwmp.Soap.Ordered.{
  IsGiven, kind_of_value, build_set_parameter_values-in_order, build_set_parameter_values-stable,
}

abbrev reconnect : Dict String
reconnect =
    ("W.1.Enable", "1")
    ∷ ("W.1.Name", "uplink")
    ∷ ("W.1.Password", "secret")
    ∷ ("V.VLANTermination.1.VLANID", "20")
    ∷ ("V.VLANTermination.1.Enable", "0")
    ∷ ("W.1.Security.ModeEnabled", "None")
    ∷ []

order_of_a_request :
    map (λ v. v.name) (build_set_parameter_values (insertion String) reconnect)
    ≡ "V.VLANTermination.1.Enable" ∷ "V.VLANTermination.1.VLANID" ∷ "W.1.Password" ∷ "W.1.Name"
      ∷ "W.1.Security.ModeEnabled" ∷ "W.1.Enable" ∷ []
unfolding build_set_parameter_values
order_of_a_request = refl

types_of_names :
    (infer_xsd_type "A.1.SSIDAdvertisementEnabled" ≡ "xsd:boolean")
    × (infer_xsd_type "A.Security.ModeEnabled" ≡ "xsd:string")
    × (infer_xsd_type "A.1.VLANID" ≡ "xsd:unsignedInt")
    × (infer_xsd_type "A.1.X_TP_Mcast" ≡ "xsd:boolean")
unfolding infer_xsd_type
types_of_names = (refl, refl, refl, refl)

build_set_parameter_values-in_order_example :
    (Pairwise
      (λ v w. place (kind_of_value v) ≤ place (kind_of_value w))
      (build_set_parameter_values (insertion String) reconnect))
    × Perm
        (map (λ v. v.name) (build_set_parameter_values (insertion String) reconnect))
        (map (λ e. e.0) reconnect)
    × All (IsGiven reconnect) (build_set_parameter_values (insertion String) reconnect)
build_set_parameter_values-in_order_example =
    build_set_parameter_values-in_order (insertion String) reconnect

abbrev two : Dict String
two = ("a.Enable", "1") ∷ ("a.VLANID", "20") ∷ []

abbrev two_again : Dict String
two_again = ("a.VLANID", "20") ∷ ("a.Enable", "1") ∷ []

two_same : (k : String) → find k two ≡ find k two_again
unfolding find
two_same k = elim (Bool-cases (str_eq "a.Enable" k)) [
  | inl e ↦ rw (sym ((eq_iff "a.Enable" k).0 e)) refl
  | inr n ↦ rw n refl
]

build_set_parameter_values-stable_example :
    build_set_parameter_values (insertion String) two
    ≡ build_set_parameter_values (insertion String) two_again
build_set_parameter_values-stable_example =
    build_set_parameter_values-stable (insertion String) (insertion String) two two_again two_same
      (Perm.swap "a.VLANID" "a.Enable" [])
