-- ===== src/Cwmp/Traceroute.antt =====
-- `parseTracerouteResult` of internal/cwmp/results.go: the hops of a route from the parameters of a
-- diagnostic, in the order in which the map is iterated, last first.
mod Tests
use helix_acs.Prelude.{
  ℕ, zero, suc, ◌+◌, String, Bool, true, false, ◌||◌, List, [], ◌∷◌, ◌++◌, Option, none, some,
  str_eq, if◌then◌else◌, length,
}
use helix_acs.Text.{◌+++◌}
use helix_acs.Text.Numbers.{ℤ, pos, Parsed, number, out_of_range, not_a_number, atoi, atoi_or_zero}
use helix_acs.Dict.{Dict, value_of}
use helix_acs.Datamodel.Model.{Mapper}
use helix_acs.Cwmp.PortMappings.{field_of, same_int}

pub record TracerouteHop : Type 0 where
  pub hop_number : ℤ
  pub host : String
  pub rtt_ms : ℤ

pub record TracerouteResult : Type 0 where
  pub host : String
  pub max_hops : ℤ
  pub hop_count : ℤ
  pub hops : List TracerouteHop

-- A round trip time that is no number is not taken.
abbrev pub with_rtt : Parsed → TracerouteHop → TracerouteHop
with_rtt (number rtt) h = record h { rtt_ms = rtt }
with_rtt (out_of_range rtt) h = h
with_rtt not_a_number h = h

unfoldable pub set_hop_field : String → String → TracerouteHop → TracerouteHop
unfolding atoi
set_hop_field field v h =
    if str_eq field "HopHost" || str_eq field "Host"
    then record h { host = v }
    else if str_eq field "HopRTTimes" || str_eq field "RTTimes" || str_eq field "HopErrorCode"
    then with_rtt (atoi v) h
    else h

abbrev pub HopMap : Type 0
HopMap = List (ℤ × TracerouteHop)

unfoldable pub update_hop : ℤ → String → String → HopMap → HopMap
unfolding set_hop_field
update_hop i field v [] =
    (i, set_hop_field field v (record { hop_number = i; host = ""; rtt_ms = pos 0 })) ∷ []
update_hop i field v ((j, h) ∷ hops) =
    if same_int j i then (j, set_hop_field field v h) ∷ hops else (j, h) ∷ update_hop i field v hops

unfoldable pub hop_map : String → Dict String → HopMap
unfolding field_of update_hop
hop_map hop_base [] = []
hop_map hop_base ((k, v) ∷ params) =
    let hops = hop_map hop_base params in
    elim (field_of hop_base k) [ none ↦ hops | some (i, field) ↦ update_hop i field v hops ]

abbrev pub hop_at : ℤ → HopMap → List TracerouteHop
hop_at i [] = []
hop_at i ((j, h) ∷ hops) = if same_int j i then h ∷ [] else hop_at i hops

unfoldable pub listed_hops : ℕ → ℕ → HopMap → List TracerouteHop
listed_hops i zero hops = []
listed_hops i (suc n) hops = hop_at (pos i) hops ++ listed_hops (suc i) n hops

unfoldable pub parse_traceroute_result : Mapper → Dict String → TracerouteResult
unfolding hop_map listed_hops value_of atoi
parse_traceroute_result mapper params =
    let base = mapper.service.traceroute_base in
    let hop_map_of = hop_map (base +++ "RouteHops.") params in
    record {
      host = value_of (base +++ "Host") params;
      max_hops = atoi_or_zero (atoi (value_of (base +++ "MaxHopCount") params));
      hop_count = atoi_or_zero (atoi (value_of (base +++ "NumberOfRouteHops") params));
      hops = listed_hops 1 (length hop_map_of) hop_map_of;
    }
