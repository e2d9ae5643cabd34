-- ===== src/Supervisor/Bounded.antt =====
-- src/supervisor/supervisor.py: the deadline and the circuit breaker around an agent's task, with the
-- ledger of leases. The instants and the uuids that a run draws are its arguments, and so is what the
-- worker's thread has reported when the wait ends.
pub mod Closing
pub mod Tripped
use Prim.Native.String.{◌++◌ as text_append}
use hodi.Prelude.Tables.{get, set_item}
use hodi.Prelude.{
  ℕ, ◌+◌, String, Bool, true, false, Option, none, some, List, [], ◌∷◌, ◌++◌, ◌==◌, string_eq, leb,
  length, if◌then◌else◌, Result, ok, err,
}
use hodi.Supervisor.Lease.{LeaseLedger, DuplicateLeaseEvent, issue, revoke, release}

pub data AbandonReason : Type 0 where
  deadline_exceeded circuit_breaker_tripped : AbandonReason
  error process_exit_error_code : String → AbandonReason

-- The id is f"abandoned-{number}".
pub record TaskAbandonedEvent : Type 0 where
  pub number : ℕ
  pub agent_id : String
  pub written_by : String
  pub reason : AbandonReason
  pub timestamp : ℕ

-- `deadline_text` is the deadline in seconds as an f-string prints it.
pub record Supervisor : Type 0 where
  pub deadline : ℕ
  pub deadline_text : String
  pub failure_threshold : ℕ
  pub failure_counts : List (String × ℕ)
  pub circuit_breakers : List (String × Bool)
  pub abandoned_events : List TaskAbandonedEvent
  pub lease_ledger : Option LeaseLedger
  pub lease_grace : ℕ

-- What the supervisor finds when `join` returns. An exception of the worker is known by its text.
pub data Report (A : Type 0) : Type 0 where
  returned : A → Report A
  raised : String → Report A
  running : Report A

-- A task, with all that other threads do to the ledger while the supervisor waits. It is given the lease
-- where it accepts one.
pub record Task (A : Type 0) : Type 0 where
  pub accepts_lease : Bool
  pub report : Option String → Option LeaseLedger → Report A
  pub ledger_after : Option String → LeaseLedger → LeaseLedger

pub data SupervisorError : Type 0 where
  breaker_tripped no_result_within : String → SupervisorError
  worker_error exited_with : String → SupervisorError
  ledger_error : DuplicateLeaseEvent → SupervisorError

-- The instants at the start, at the end of the wait and at the event, and the uuids.
pub record Draws : Type 0 where
  pub started_at : ℕ
  pub ended_at : ℕ
  pub recorded_at : ℕ
  pub task_uuid : String
  pub lease_uuid : String
  pub issue_uuid : String
  pub end_uuid : String

abbrev pub abandoned_event :
    (agent_id : String) (reason : AbandonReason) (now : ℕ) → Supervisor → TaskAbandonedEvent
abandoned_event agent_id reason now s = record {
  number = length s.abandoned_events + 1;
  agent_id = agent_id;
  written_by = "supervisor";
  reason = reason;
  timestamp = now;
}

unfoldable pub abandon :
    (agent_id : String) (reason : AbandonReason) (now : ℕ) → Supervisor → Supervisor
abandon agent_id reason now s = record s {
  abandoned_events = s.abandoned_events ++ abandoned_event agent_id reason now s ∷ [];
}

-- `failure_counts.get(agent_id, 0)`
abbrev pub or_zero : Option ℕ → ℕ
or_zero none = 0
or_zero (some n) = n

-- `circuit_breakers.get(agent_id, False)`
abbrev pub or_false : Option Bool → Bool
or_false none = false
or_false (some b) = b

abbrev pub trip_at :
    (agent_id : String) (count threshold : ℕ) → List (String × Bool) → List (String × Bool)
trip_at agent_id count threshold breakers =
    if leb threshold count then set_item agent_id true breakers else breakers

unfoldable pub handle_failure :
    (agent_id : String) (reason : AbandonReason) (now : ℕ) → Supervisor → Supervisor
unfolding get set_item abandon
handle_failure agent_id reason now s =
    let count = or_zero (get agent_id s.failure_counts) + 1 in
    abandon agent_id reason now (record s {
      failure_counts = set_item agent_id count s.failure_counts;
      circuit_breakers = trip_at agent_id count s.failure_threshold s.circuit_breakers;
    })

-- `task_id or f"task-{uuid}"`
abbrev pub task_id_or : Option String → (uuid : String) → String
task_id_or none uuid = text_append "task-" uuid
task_id_or (some task_id) uuid = if task_id == "" then text_append "task-" uuid else task_id

abbrev pub deadline_reason : (agent_id : String) → Supervisor → String
deadline_reason agent_id s =
    text_append "deadline_exceeded ("
      (text_append s.deadline_text (text_append "s) for agent '" (text_append agent_id "'")))

abbrev pub worker_reason : (agent_id : String) → String
worker_reason agent_id = text_append "worker_error for agent '" (text_append agent_id "'")

-- The ledger's part of a run's end.
unfoldable pub close_lease :
    {A : Type 0}
    → (agent_id lease_id : String) → Draws
    → Supervisor
    → Report A
    → LeaseLedger
    → Result DuplicateLeaseEvent LeaseLedger
unfolding revoke release
close_lease agent_id lease_id d s (returned a) ledger =
    release lease_id d.ended_at d.end_uuid ledger
close_lease agent_id lease_id d s (raised text) ledger =
    revoke lease_id (worker_reason agent_id) d.ended_at d.end_uuid ledger
close_lease agent_id lease_id d s running ledger =
    revoke lease_id (deadline_reason agent_id s) d.ended_at d.end_uuid ledger

-- What follows once the lease is closed, or without one.
unfoldable pub conclude :
    {A : Type 0}
    → (agent_id : String) → Draws
    → Report A
    → Supervisor
    → Result SupervisorError A × Supervisor
unfolding handle_failure
conclude agent_id d (returned a) s =
    (ok a, record s { failure_counts = set_item agent_id 0 s.failure_counts })
conclude agent_id d (raised text) s =
    (err (worker_error text), handle_failure agent_id (error text) d.recorded_at s)
conclude agent_id d running s =
    (err (no_result_within agent_id), handle_failure agent_id deadline_exceeded d.recorded_at s)

-- A ledger that raises ends the run before the failure is counted.
unfoldable pub after_close :
    {A : Type 0}
    → (agent_id : String) → Draws
    → Report A
    → Supervisor
    → (waited : LeaseLedger) → Result DuplicateLeaseEvent LeaseLedger
    → Result SupervisorError A × Supervisor
unfolding conclude
after_close agent_id d report s waited (err e) =
    (err (ledger_error e), record s { lease_ledger = some waited })
after_close agent_id d report s waited (ok ledger) =
    conclude agent_id d report (record s { lease_ledger = some ledger })

abbrev pub given : Bool → String → Option String
given accepts lease_id = if accepts then some lease_id else none

unfoldable pub run_leased :
    {A : Type 0}
    → (agent_id : String) → Task A
    → Draws
    → Supervisor
    → Result DuplicateLeaseEvent (String × LeaseLedger)
    → Result SupervisorError A × Supervisor
unfolding close_lease after_close
run_leased agent_id task d s (err e) = (err (ledger_error e), s)
run_leased agent_id task d s (ok (lease_id, ledger)) =
    let shown = given task.accepts_lease lease_id in
    let report = task.report shown (some ledger) in
    let waited = task.ledger_after shown ledger in
    after_close agent_id d report s waited (close_lease agent_id lease_id d s report waited)

unfoldable pub dispatch :
    {A : Type 0}
    → (agent_id : String) → Task A
    → (task_id : Option String) → Draws
    → Supervisor
    → Option LeaseLedger
    → Result SupervisorError A × Supervisor
unfolding run_leased conclude issue
dispatch agent_id task task_id d s none = conclude agent_id d (task.report none none) s
dispatch agent_id task task_id d s (some ledger) = run_leased agent_id task d s (
    issue agent_id (task_id_or task_id d.task_uuid) (s.deadline + s.lease_grace) d.started_at
      d.lease_uuid d.issue_uuid ledger)

unfoldable pub is_tripped : String → Supervisor → Bool
unfolding get
is_tripped agent_id s = or_false (get agent_id s.circuit_breakers)

unfoldable pub execute_bounded_task :
    {A : Type 0}
    → (agent_id : String) → Task A
    → (task_id : Option String) → Draws
    → Supervisor
    → Result SupervisorError A × Supervisor
unfolding is_tripped abandon dispatch
execute_bounded_task agent_id task task_id d s =
    if is_tripped agent_id s
    then (err (breaker_tripped agent_id), abandon agent_id circuit_breaker_tripped d.recorded_at s)
    else dispatch agent_id task task_id d s s.lease_ledger

-- The answer for a child process; its output is not captured.
pub record SubprocessResult : Type 0 where
  pub status : String
  pub stdout : Option String

-- How a child process ends: with code 0, with another code, or not within the deadline.
pub data Exit : Type 0 where
  exit_zero exit_late : Exit
  exit_code : String → Exit

unfoldable pub execute_bounded_subprocess :
    (agent_id : String)
    → Exit
    → (now : ℕ) → Supervisor
    → Result SupervisorError SubprocessResult × Supervisor
unfolding handle_failure
execute_bounded_subprocess agent_id exit_zero now s =
    (ok (record { status = "ok"; stdout = none }), s)
execute_bounded_subprocess agent_id (exit_code code) now s =
    (err (exited_with code), handle_failure agent_id (process_exit_error_code code) now s)
execute_bounded_subprocess agent_id exit_late now s =
    (err (no_result_within agent_id), handle_failure agent_id deadline_exceeded now s)
