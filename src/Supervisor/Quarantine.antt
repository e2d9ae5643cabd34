-- ===== src/Supervisor/Quarantine.antt =====
-- src/supervisor/quarantine.py: a worker is taken out of the registry and its task rerouted. The answer of
-- the fallback is its keys and values.
pub mod Removed
use hodi.Prelude.Tables.{set_item}
use hodi.Prelude.{
  ℕ, ◌+◌, String, Bool, true, false, List, [], ◌∷◌, ◌++◌, length, if◌then◌else◌, Result, ok, err,
}
use hodi.Registry.{Log, DuplicateEventId, deregister, is_registered}

-- The id is f"quarantine-{number}".
pub record QuarantineEvent : Type 0 where
  pub number : ℕ
  pub quarantined_agent_id : String
  pub rerouted_to_agent_id : String
  pub timestamp : ℕ
  pub status : String

pub record QuarantineEngine : Type 0 where
  pub registry : Log
  pub quarantine_events : List QuarantineEvent

pub record QuarantineNotice : Type 0 where
  pub quarantined_agent_id : String
  pub rerouted_to_agent_id : String
  pub request_status : String

-- A value of the fallback's answer, or the notice.
pub data Value (A : Type 0) : Type 0 where
  plain : A → Value A
  notice : QuarantineNotice → Value A

pub data QuarantineError (E : Type 0) : Type 0 where
  registry_error : DuplicateEventId → QuarantineError E
  fallback_error : E → QuarantineError E

abbrev pub event_of :
    (quarantined_agent_id standby_agent_id : String) (now : ℕ) → QuarantineEngine → QuarantineEvent
event_of quarantined_agent_id standby_agent_id now s = record {
  number = length s.quarantine_events + 1;
  quarantined_agent_id = quarantined_agent_id;
  rerouted_to_agent_id = standby_agent_id;
  timestamp = now;
  status = "quarantined_and_rerouted";
}

unfoldable pub deregister_first :
    (agent_id : String) (now : ℕ) (uuid : String) → Log → Result DuplicateEventId Log
unfolding deregister is_registered
deregister_first agent_id now uuid log =
    if is_registered agent_id log
    then deregister agent_id "quarantined_by_supervisor" now uuid log
    else ok log

abbrev pub notice_of : (quarantined_agent_id standby_agent_id : String) → QuarantineNotice
notice_of quarantined_agent_id standby_agent_id = record {
  quarantined_agent_id = quarantined_agent_id;
  rerouted_to_agent_id = standby_agent_id;
  request_status = "completed_via_reroute";
}

unfoldable pub with_notice :
    {A E : Type 0}
    → QuarantineNotice
    → Result E (List (String × Value A))
    → Result (QuarantineError E) (List (String × Value A))
unfolding set_item
with_notice n (err e) = err (fallback_error e)
with_notice n (ok answer) = ok (set_item "quarantine_notice" (notice n) answer)

unfoldable pub reroute :
    {A E : Type 0}
    → (quarantined_agent_id standby_agent_id : String) → Result E (List (String × Value A))
    → (now : ℕ) → QuarantineEngine
    → Result DuplicateEventId Log
    → Result (QuarantineError E) (List (String × Value A)) × QuarantineEngine
unfolding with_notice
reroute quarantined_agent_id standby_agent_id fallback now s (err e) = (err (registry_error e), s)
reroute quarantined_agent_id standby_agent_id fallback now s (ok log) = (
  with_notice (notice_of quarantined_agent_id standby_agent_id) fallback,
  record {
    registry = log;
    quarantine_events =
        s.quarantine_events ++ event_of quarantined_agent_id standby_agent_id now s ∷ [];
  },
)

unfoldable pub quarantine_and_reroute :
    {A E : Type 0}
    → (quarantined_agent_id standby_agent_id : String) → Result E (List (String × Value A))
    → (now : ℕ) (uuid : String) → QuarantineEngine
    → Result (QuarantineError E) (List (String × Value A)) × QuarantineEngine
unfolding deregister_first reroute
quarantine_and_reroute quarantined_agent_id standby_agent_id fallback now uuid s =
    reroute quarantined_agent_id standby_agent_id fallback now s
      (deregister_first quarantined_agent_id now uuid s.registry)
