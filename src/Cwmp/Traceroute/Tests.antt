-- ===== src/Cwmp/Traceroute/Tests.antt =====
-- Tests of the reading of hops.
use helix_acs.Prelude.{◌≡◌, refl, [], ◌∷◌, List}
use helix_acs.Text.Numbers.{pos}
use helix_acs.Cwmp.Traceroute.{TracerouteHop, hop_map, listed_hops}

abbrev first_hop : List TracerouteHop
first_hop = record { hop_number = pos 1; host = "10.0.0.1"; rtt_ms = pos 4 } ∷ []

hops_read :
    listed_hops 1 1 (
      hop_map "T.RouteHops." (
        ("T.RouteHops.1.Host", "10.0.0.1") ∷ ("T.RouteHops.1.RTTimes", "4") ∷ ("T.Host", "x") ∷ []))
    ≡ first_hop
unfolding hop_map listed_hops
hops_read = refl

-- The same parameters in two orders, with two times of the hop.
error_code_last :
    hop_map "T." (("T.1.HopErrorCode", "11") ∷ ("T.1.RTTimes", "4") ∷ [])
    ≡ (pos 1, record { hop_number = pos 1; host = ""; rtt_ms = pos 11 }) ∷ []
unfolding hop_map
error_code_last = refl

error_code_first :
    hop_map "T." (("T.1.RTTimes", "4") ∷ ("T.1.HopErrorCode", "11") ∷ [])
    ≡ (pos 1, record { hop_number = pos 1; host = ""; rtt_ms = pos 4 }) ∷ []
unfolding hop_map
error_code_first = refl
