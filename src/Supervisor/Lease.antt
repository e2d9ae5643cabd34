-- ===== src/Supervisor/Lease.antt =====
-- src/supervisor/lease.py: the ledger of execution leases, a fold over appended events. Instants and
-- durations are in microseconds; `now` and the uuids that a call draws are its arguments. The lock
-- makes each call atomic, so a call is a function of the ledger.
pub mod Fencing
pub mod Lifecycle
use Prim.Native.String.{◌++◌ as text_append}
use hodi.Prelude.{
  ℕ, ◌+◌, String, Bool, true, false, Option, none, some, List, [], ◌∷◌, ◌++◌, ◌==◌, string_eq, ltb,
  any, filter, if◌then◌else◌, Result, ok, err, ◌>>=◌,
}
use hodi.Prelude.Sort.{sort_by, stamp_le}
use hodi.Prelude.TextOrder.{text_le}

pub data LeaseKind : Type 0 where
  issued revoked released : LeaseKind

pub record LeaseEvent : Type 0 where
  pub event_id : String
  pub lease_id : String
  pub agent_id : String
  pub task_id : String
  pub kind : LeaseKind
  pub expires_at : Option ℕ
  pub reason : Option String
  pub issued_at : ℕ

pub data LeaseStatus : Type 0 where
  active was_revoked was_released expired nonexistent : LeaseStatus

pub record LeaseState : Type 0 where
  pub lease_id : String
  pub agent_id : Option String
  pub task_id : Option String
  pub status : LeaseStatus
  pub expires_at : Option ℕ
  pub revoked_reason : Option String

abbrev pub LeaseLedger : Type 0
LeaseLedger = List LeaseEvent

-- ValueError of `_append`, with the event id.
pub data DuplicateLeaseEvent : Type 0 where
  duplicate : String → DuplicateLeaseEvent

unfoldable pub append_event : LeaseEvent → LeaseLedger → Result DuplicateLeaseEvent LeaseLedger
append_event event ledger =
    if any (λ e. e.event_id == event.event_id) ledger
    then err (duplicate event.event_id)
    else ok (ledger ++ event ∷ [])

abbrev pub lease_id_of : String → String
lease_id_of uuid = text_append "lease-" uuid

abbrev pub event_id_of : String → String
event_id_of uuid = text_append "lev-" uuid

abbrev pub apply_kind : LeaseKind → LeaseEvent → LeaseState → LeaseState
apply_kind issued ev s = record s { status = active; expires_at = ev.expires_at }
apply_kind revoked ev s = record s { status = was_revoked; revoked_reason = ev.reason }
apply_kind released ev s = record s { status = was_released }

abbrev pub apply_event : LeaseState → LeaseEvent → LeaseState
apply_event s ev =
    apply_kind ev.kind ev (record s { agent_id = some ev.agent_id; task_id = some ev.task_id })

unfoldable pub fold_events : LeaseState → List LeaseEvent → LeaseState
fold_events s [] = s
fold_events s (ev ∷ rest) = fold_events (apply_event s ev) rest

abbrev pub initial : String → LeaseState
initial lease_id = record {
  lease_id = lease_id;
  agent_id = none;
  task_id = none;
  status = nonexistent;
  expires_at = none;
  revoked_reason = none;
}

abbrev pub event_le : LeaseEvent → LeaseEvent → Bool
event_le e f = stamp_le (e.issued_at, e.event_id) (f.issued_at, f.event_id)

unfoldable pub events_for : String → LeaseLedger → List LeaseEvent
events_for lease_id = filter (λ e. e.lease_id == lease_id)

unfoldable pub ordered_events : String → LeaseLedger → List LeaseEvent
unfolding sort_by text_le events_for
ordered_events lease_id ledger = sort_by event_le (events_for lease_id ledger)

-- expires_at is not None and at > expires_at
abbrev pub is_past : Option ℕ → ℕ → Bool
is_past none at = false
is_past (some until) at = ltb until at

-- The expiry test after the fold.
unfoldable pub expire : ℕ → LeaseState → LeaseState
expire at s = elim s.status [
  | active ↦ if is_past s.expires_at at then record s { status = expired } else s
  | _ ↦ s
]

unfoldable pub state : String → ℕ → LeaseLedger → LeaseState
unfolding fold_events ordered_events expire
state lease_id at ledger =
    expire at (fold_events (initial lease_id) (ordered_events lease_id ledger))

abbrev pub is_active : LeaseStatus → Bool
is_active active = true
is_active _ = false

-- `not lease_id` holds of None and of the empty text.
unfoldable pub is_valid : Option String → ℕ → LeaseLedger → Bool
unfolding state
is_valid none at ledger = false
is_valid (some lease_id) at ledger =
    if lease_id == "" then false else is_active (state lease_id at ledger).status

-- `value or "unknown"`
abbrev pub or_unknown : Option String → String
or_unknown none = "unknown"
or_unknown (some s) = if s == "" then "unknown" else s

abbrev pub issue_event :
    (agent_id task_id : String) (ttl now : ℕ) (lease_uuid event_uuid : String) → LeaseEvent
issue_event agent_id task_id ttl now lease_uuid event_uuid = record {
  event_id = event_id_of event_uuid;
  lease_id = lease_id_of lease_uuid;
  agent_id = agent_id;
  task_id = task_id;
  kind = issued;
  expires_at = some (now + ttl);
  reason = none;
  issued_at = now;
}

unfoldable pub issue :
    (agent_id task_id : String) (ttl now : ℕ) (lease_uuid event_uuid : String)
    → LeaseLedger
    → Result DuplicateLeaseEvent (String × LeaseLedger)
unfolding append_event
issue agent_id task_id ttl now lease_uuid event_uuid ledger =
    append_event (issue_event agent_id task_id ttl now lease_uuid event_uuid) ledger >>= λ later.
    ok (lease_id_of lease_uuid, later)

abbrev pub revoke_event :
    (lease_id reason : String) (now : ℕ) (uuid : String) → LeaseState → LeaseEvent
revoke_event lease_id reason now uuid s = record {
  event_id = event_id_of uuid;
  lease_id = lease_id;
  agent_id = or_unknown s.agent_id;
  task_id = or_unknown s.task_id;
  kind = revoked;
  expires_at = none;
  reason = some reason;
  issued_at = now;
}

unfoldable pub revoke :
    (lease_id reason : String) (now : ℕ) (uuid : String)
    → LeaseLedger
    → Result DuplicateLeaseEvent LeaseLedger
unfolding append_event state
revoke lease_id reason now uuid ledger =
    append_event (revoke_event lease_id reason now uuid (state lease_id now ledger)) ledger

abbrev pub release_event : (lease_id : String) (now : ℕ) (uuid : String) → LeaseState → LeaseEvent
release_event lease_id now uuid s = record {
  event_id = event_id_of uuid;
  lease_id = lease_id;
  agent_id = or_unknown s.agent_id;
  task_id = or_unknown s.task_id;
  kind = released;
  expires_at = none;
  reason = none;
  issued_at = now;
}

unfoldable pub release :
    (lease_id : String) (now : ℕ) (uuid : String)
    → LeaseLedger
    → Result DuplicateLeaseEvent LeaseLedger
unfolding append_event state
release lease_id now uuid ledger =
    append_event (release_event lease_id now uuid (state lease_id now ledger)) ledger
