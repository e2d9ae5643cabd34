-- ===== src/Registry.antt =====
-- src/registry/registry.py: the agent registry, a fold over appended events. The store is the in-memory
-- one of src/memory/event_store.py, whose `append` raises on a taken id; what it returns is what was
-- appended. `now` and the uuids that a call draws are its arguments.
pub mod Disclosure
pub mod Tests
use Prim.Native.String.{◌++◌ as text_append}
use hodi.Prelude.Tables.{get, set_item}
use hodi.Prelude.{
  ℕ, String, Bool, true, false, not, ◌&&◌, ◌||◌, Option, none, some, List, [], ◌∷◌, ◌++◌, ◌==◌,
  string_eq, any, contains, filter, map, if◌then◌else◌, Result, ok, err,
}
use hodi.Prelude.Sort.{sort_by, stamp_le}
use hodi.Prelude.TextOrder.{text_le}

pub data PublicationStatus : Type 0 where
  active deregistered : PublicationStatus

pub record AgentPublication : Type 0 where
  pub agent_id : String
  pub name : String
  pub version : String
  pub owning_function : String
  pub role : String
  pub scopes : List String
  pub endpoint : Option String
  pub service_account : Option String
  pub capabilities : List String
  pub status : PublicationStatus
  pub registered_at : Option ℕ
  pub last_heartbeat : Option ℕ

pub data RegistryKind : Type 0 where
  registration heartbeat_kind deregistration : RegistryKind

pub record RegistryEvent : Type 0 where
  pub event_id : String
  pub agent_id : String
  pub kind : RegistryKind
  pub publication : Option AgentPublication
  pub reason : Option String
  pub recorded_at : ℕ

pub data DuplicateEventId : Type 0 where
  duplicate : String → DuplicateEventId

abbrev pub Log : Type 0
Log = List RegistryEvent

abbrev pub allowed_invocations : List (String × List String)
allowed_invocations =
    ("rights_custodian", "rights_custodian" ∷ "revocation_propagator" ∷ [])
    ∷ ("licensing_negotiator", "licensing_negotiator" ∷ "rights_custodian" ∷ [])
    ∷ ("evidence_agent", "evidence_agent" ∷ [])
    ∷ ("revocation_propagator", "revocation_propagator" ∷ "evidence_agent" ∷ [])
    ∷ (
      "supervisor",
      "rights_custodian" ∷ "licensing_negotiator" ∷ "evidence_agent" ∷ "revocation_propagator"
          ∷ "consent_arbiter" ∷ [],
    )
    ∷ ("consent_arbiter", "consent_arbiter" ∷ [])
    ∷ []

unfoldable pub append_event : RegistryEvent → Log → Result DuplicateEventId Log
append_event event log =
    if any (λ e. e.event_id == event.event_id) log
    then err (duplicate event.event_id)
    else ok (log ++ event ∷ [])

-- `registered_at or now`
abbrev or_now : Option ℕ → ℕ → ℕ
or_now none now = now
or_now (some at) now = at

abbrev pub registered_event : AgentPublication → (now : ℕ) (uuid : String) → RegistryEvent
registered_event publication now uuid = record {
  event_id = text_append "reg-" uuid;
  agent_id = publication.agent_id;
  kind = registration;
  publication = some (record publication {
    registered_at = some (or_now publication.registered_at now);
    status = active;
  });
  reason = none;
  recorded_at = now;
}

unfoldable pub register :
    AgentPublication → (now : ℕ) (uuid : String) → Log → Result DuplicateEventId Log
unfolding append_event
register publication now uuid = append_event (registered_event publication now uuid)

unfoldable pub heartbeat :
    (agent_id : String) (now : ℕ) (uuid : String) → Log → Result DuplicateEventId Log
unfolding append_event
heartbeat agent_id now uuid = append_event (record {
  event_id = text_append "reg-" uuid;
  agent_id = agent_id;
  kind = heartbeat_kind;
  publication = none;
  reason = none;
  recorded_at = now;
})

abbrev pub deregistered_event : (agent_id reason : String) (now : ℕ) (uuid : String) → RegistryEvent
deregistered_event agent_id reason now uuid = record {
  event_id = text_append "reg-" uuid;
  agent_id = agent_id;
  kind = deregistration;
  publication = none;
  reason = some reason;
  recorded_at = now;
}

unfoldable pub deregister :
    (agent_id reason : String) (now : ℕ) (uuid : String) → Log → Result DuplicateEventId Log
unfolding append_event
deregister agent_id reason now uuid = append_event (deregistered_event agent_id reason now uuid)

abbrev pub State : Type 0
State = List (String × AgentPublication)

-- `if agent_id in state: state[agent_id] = change(state[agent_id])`
abbrev pub update_item :
    String → (AgentPublication → AgentPublication) → Option AgentPublication → State → State
update_item agent_id change none s = s
update_item agent_id change (some p) s = set_item agent_id (change p) s

abbrev pub store_publication : String → Option AgentPublication → State → State
store_publication agent_id none s = s
store_publication agent_id (some p) s = set_item agent_id p s

abbrev pub apply_kind : RegistryKind → RegistryEvent → State → State
apply_kind registration ev s = store_publication ev.agent_id ev.publication s
apply_kind heartbeat_kind ev s =
    update_item ev.agent_id (λ p. record p { last_heartbeat = some ev.recorded_at })
      (get ev.agent_id s) s
apply_kind deregistration ev s =
    update_item ev.agent_id (λ p. record p { status = deregistered }) (get ev.agent_id s) s

unfoldable pub fold_events : State → List RegistryEvent → State
fold_events s [] = s
fold_events s (ev ∷ rest) = fold_events (apply_kind ev.kind ev s) rest

abbrev pub event_le : RegistryEvent → RegistryEvent → Bool
event_le e f = stamp_le (e.recorded_at, e.event_id) (f.recorded_at, f.event_id)

unfoldable pub fold : Log → State
unfolding fold_events sort_by text_le
fold log = fold_events [] (sort_by event_le log)

abbrev pub is_active : AgentPublication → Bool
is_active p = elim p.status [ active ↦ true | deregistered ↦ false ]

unfoldable pub publications : Log → State
unfolding fold
publications log = filter (λ entry. is_active entry.1) (fold log)

abbrev pub is_key : String → Option AgentPublication → Bool
is_key agent_id none = false
is_key agent_id (some p) = true

unfoldable pub is_registered : String → Log → Bool
unfolding publications
is_registered agent_id log = is_key agent_id (get agent_id (publications log))

abbrev pub targets_of : Option (List String) → List String
targets_of none = []
targets_of (some targets) = targets

unfoldable pub discover : (target_role requesting_role_key : String) → Log → List AgentPublication
unfolding publications
discover target_role requesting_role_key log =
    if not (contains target_role (targets_of (get requesting_role_key allowed_invocations)))
    then []
    else filter (λ p. p.owning_function == target_role || p.role == target_role)
        (map (λ entry. entry.1) (publications log))
