-- ===== src/Supervisor/Bounded/Closing.antt =====
-- The lease of a run of src/supervisor/supervisor.py, after the run.
use hodi.Prelude.{ℕ, String, ◌≡◌, ◌⊎◌, false, Option, some, Result, err}
use hodi.Supervisor.Lease.{LeaseLedger, DuplicateLeaseEvent, lease_id_of, is_valid}
use hodi.Supervisor.Lease.Lifecycle.{IssuedBefore}
use hodi.Supervisor.Bounded.{Supervisor, Task, Draws, SupervisorError, ledger_error}

-- While the supervisor waits nobody issues the run's lease at the end of the wait or later.
abbrev pub IsQuiet : {A : Type 0} → Task A → Draws → Type 0
IsQuiet task d =
    (shown : Option String) (ledger : LeaseLedger)
    → IssuedBefore d.ended_at (lease_id_of d.lease_uuid) ledger
    → IssuedBefore d.ended_at (lease_id_of d.lease_uuid) (task.ledger_after shown ledger)

-- The ledger raised, or the supervisor's ledger refuses the lease at every instant.
abbrev pub IsClosed : {A : Type 0} → String → Result SupervisorError A × Supervisor → Type 0
IsClosed lease_id out =
    ((e : DuplicateLeaseEvent) × (out.0 ≡ err (ledger_error e)))
    ⊎ ((later : LeaseLedger) × (out.1.lease_ledger ≡ some later)
        × ((at : ℕ) → is_valid (some lease_id) at later ≡ false))
