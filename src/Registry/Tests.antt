-- ===== src/Registry/Tests.antt =====
-- Runs of src/registry/registry.py: an agent that is published and discovered.
use hodi.Prelude.{◌↔◌, none, some, [], ◌∷◌, In, here, there, ◌<◌, arith}
use hodi.Registry.{AgentPublication, active, RegistryEvent, registered_event, discover}
use hodi.Registry.Disclosure.{Disclosed, discover_iff}

abbrev custodian : AgentPublication
custodian = record {
  agent_id = "custodian-1";
  name = "custodian";
  version = "1";
  owning_function = "rights_custodian";
  role = "rights_custodian";
  scopes = [];
  endpoint = none;
  service_account = none;
  capabilities = [];
  status = active;
  registered_at = some 3;
  last_heartbeat = none;
}

abbrev pub published : RegistryEvent
published = registered_event custodian 3 "u1"

discover_iff_example :
    In custodian (discover "rights_custodian" "supervisor" (published ∷ []))
    ↔ Disclosed "rights_custodian" "supervisor" (published ∷ []) custodian
discover_iff_example = discover_iff "rights_custodian" "supervisor" (published ∷ []) custodian

pub published-before : (e : RegistryEvent) → In e (published ∷ []) → e.recorded_at < 9
published-before e (here q) = rw q (omega arith)
published-before e (there m) = elim m [ ]
