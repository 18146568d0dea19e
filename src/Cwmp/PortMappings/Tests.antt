-- ===== src/Cwmp/PortMappings/Tests.antt =====
-- Tests and examples of the reading of port mappings.
use helix_acs.Prelude.{◌≡◌, refl, [], ◌∷◌, some, none, arith}
use helix_acs.Text.Numbers.{pos, atoi, number, out_of_range, not_a_number, negsuc, max_int}
use helix_acs.Task.Payload.{PortForwardingPayload}
use helix_acs.Cwmp.ExecuteTask.{build_port_mapping_params}
use helix_acs.Cwmp.PortMappings.{field_of, parse_port_mapping_rules}
use helix_acs.Cwmp.PortMappings.Written.{
  rule_of, parse_port_mapping_rules-build_port_mapping_params,
}

atoi_numbers :
    (atoi "-12" ≡ number (negsuc 11))
    × (atoi "+7" ≡ number (pos 7))
    × (atoi "" ≡ not_a_number)
    × (atoi "1a" ≡ not_a_number)
unfolding atoi
atoi_numbers = (refl, refl, refl, refl)

atoi_large : atoi "9223372036854775808" ≡ out_of_range (pos max_int)
unfolding atoi
atoi_large = refl

fields :
    (field_of "NAT.PortMapping." "NAT.PortMapping.3.Enable" ≡ some (pos 3, "Enable"))
    × (field_of "NAT.PortMapping." "NAT.PortMapping.x.Enable" ≡ none)
unfolding field_of
fields = (refl, refl)

abbrev web : PortForwardingPayload
web = record {
  action = "add";
  protocol = "";
  external_port = 8080;
  internal_ip = "192.168.1.5";
  internal_port = 80;
  description = "web";
  enabled = none;
  instance_number = 0;
}

second_rule_lost :
    parse_port_mapping_rules "NAT.PortMapping." (build_port_mapping_params "NAT.PortMapping." 2 web)
    ≡ []
unfolding parse_port_mapping_rules build_port_mapping_params
second_rule_lost = refl

parse_port_mapping_rules-build_port_mapping_params_example :
    parse_port_mapping_rules "NAT.PortMapping." (build_port_mapping_params "NAT.PortMapping." 1 web)
    ≡ rule_of 1 web ∷ []
parse_port_mapping_rules-build_port_mapping_params_example =
    parse_port_mapping_rules-build_port_mapping_params "NAT.PortMapping." 1 web (omega arith)
      (omega arith) (omega arith)
