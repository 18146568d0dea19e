-- ===== src/Cwmp/WanParameters/Tests.antt =====
-- A PPPoE payload and a mapper.
use helix_acs.Prelude.{none}
use helix_acs.Datamodel.Model.{tr181, Mapper}
use helix_acs.Datamodel.Apply.{new_mapper, as_mapper}
use helix_acs.Task.Model.{WanPayload}

abbrev pub payload : WanPayload
payload = record {
  connection_type = "";
  username = "user@isp";
  password = "";
  ip_address = "";
  subnet_mask = "";
  gateway = "";
  dns1 = "";
  dns2 = "";
  vlan = 100;
  mtu = 0;
  ipv6_enabled = none;
}

abbrev pub mapper : Mapper
mapper = as_mapper (new_mapper tr181)
