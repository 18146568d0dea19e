-- ===== src/Cwmp/ExecuteTask/Tests.antt =====
-- Runs of tasks: a legacy diagnostic, a password for the web interface, and a new port mapping.
use helix_acs.Prelude.{◌≡◌, refl, [], ◌∷◌, none, some}
use helix_acs.Datamodel.Tr181.{Tr181Mapper, tr181_mapper, tr181_service}
use helix_acs.Task.Model.{Task, type_web_admin}
use helix_acs.Task.Payload.{Decoder, DiagnosticPayload, PortForwardingPayload}
use helix_acs.Cwmp.ExecuteTask.{
  request, refused_with, set_parameter_values, diagnostic_plan, execute_task,
  build_port_mapping_params,
}

abbrev mapper : Tr181Mapper
mapper = record {
  wan_iface_idx = 1;
  lan_iface_idx = 2;
  ppp_iface_idx = 1;
  ssid_indices = [];
  radio_indices = [];
  ap_indices = [];
}

abbrev legacy : DiagnosticPayload
legacy = record { diag_type = "Traceroute"; target = "192.0.2.1"; count = 3 }

-- The target is not sent.
legacy_diagnostic :
    diagnostic_plan (tr181_mapper mapper) (some legacy)
    ≡ request (
        set_parameter_values
          (("Device.IP.Diagnostics.TraceRoute.DiagnosticsState", "Requested") ∷ []))
unfolding diagnostic_plan tr181_mapper tr181_service
legacy_diagnostic = refl

abbrev mapping : PortForwardingPayload
mapping = record {
  action = "add";
  protocol = "";
  external_port = 8080;
  internal_ip = "192.168.1.2";
  internal_port = 80;
  description = "";
  enabled = none;
  instance_number = 0;
}

mapping_params :
    build_port_mapping_params "N." 3 mapping
    ≡ ("N.3.PortMappingEnabled", "1")
      ∷ ("N.3.PortMappingProtocol", "TCP")
      ∷ ("N.3.ExternalPort", "8080")
      ∷ ("N.3.InternalClient", "192.168.1.2")
      ∷ ("N.3.InternalPort", "80")
      ∷ ("N.3.PortMappingDescription", "")
      ∷ ("N.3.PortMappingLeaseDuration", "0")
      ∷ []
unfolding build_port_mapping_params
mapping_params = refl

-- A task that sets the password of the web interface has parameters, but is not executed.
web_admin_refused :
    (d : Decoder) (t : Task)
    → execute_task d (tr181_mapper mapper) (record t { task_type = type_web_admin })
      ≡ refused_with "unknown task type"
unfolding execute_task
web_admin_refused d t = refl
