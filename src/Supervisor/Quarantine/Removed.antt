-- ===== src/Supervisor/Quarantine/Removed.antt =====
-- What a quarantine of src/supervisor/quarantine.py leaves in the registry.
use hodi.Prelude.{String, ◌≡◌, false, List, err, Result, In, ◌⊎◌}
use hodi.Registry.{Log, RegistryEvent, DuplicateEventId, is_registered}
use hodi.Supervisor.Quarantine.{QuarantineEngine, Value, QuarantineError, registry_error}

-- The registry no longer has the agent and keeps its history.
abbrev pub IsRemoved : String → Log → Log → Type 0
IsRemoved agent_id log later =
    (is_registered agent_id later ≡ false) × ((e : RegistryEvent) → In e log → In e later)

-- The registry raised, or it no longer has the agent and keeps its history.
abbrev pub IsQuarantined :
    {A E : Type 0}
    → String
    → Log
    → Result (QuarantineError E) (List (String × Value A)) × QuarantineEngine
    → Type 0
IsQuarantined agent_id log out =
    ((e : DuplicateEventId) × (out.0 ≡ err (registry_error e)))
    ⊎ IsRemoved agent_id log out.1.registry
