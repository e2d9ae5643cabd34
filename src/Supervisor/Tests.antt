-- ===== src/Supervisor/Tests.antt =====
-- Runs of src/supervisor: a lease that is issued, and revoked or left to expire; runs that are late until the
-- breaker trips; a worker that is quarantined.
use hodi.Prelude.{
  ◌≡◌, ◌≢◌, refl, sym, ap, ◌∙◌, true, false, none, some, [], ◌∷◌, In, here, there, leb, arith,
  eq_iff, string_eq, ◌==◌,
}
use Prim.Native.String.{String, ◌++◌ as text_append}
use hodi.Prelude.{ℕ, ◌+◌, ok, err}
use hodi.Prelude.Tables.{get}
use hodi.Registry.{is_registered}
use hodi.Registry.Tests.{published}
use hodi.Supervisor.Bounded.{
  Task, running, Supervisor, Draws, execute_bounded_task, no_result_within, is_tripped,
  breaker_tripped, abandon, circuit_breaker_tripped, execute_bounded_subprocess, exit_zero,
}
use hodi.Supervisor.Bounded.Tripped.{
  IsWatched, failures, Steps, stay, then_step, bounded, execute_bounded_task-refuses,
}
use hodi.Supervisor.Quarantine.{QuarantineEngine, quarantine_and_reroute, notice, notice_of}
use hodi.Supervisor.Lease.{
  issued, revoked, LeaseEvent, issue, issue_event, revoke, is_valid, event_le,
}
use hodi.Supervisor.Lease.Fencing.{IsFence}
use hodi.Supervisor.Lease.Lifecycle.{IssuedBefore, IsUnused, revoke-invalid, issue-is_valid}

abbrev pub ev_issue : LeaseEvent
ev_issue = issue_event "a1" "t1" 50 100 "u1" "u2"

abbrev pub ev_revoke : LeaseEvent
ev_revoke = record {
  event_id = "lev-u3";
  lease_id = "lease-u1";
  agent_id = "a1";
  task_id = "t1";
  kind = revoked;
  expires_at = none;
  reason = some "loop";
  issued_at = 120;
}

nothing-IsUnused : IsUnused "lease-u1" []
nothing-IsUnused e m = elim m [ ]

issue-is_valid_example : is_valid (some "lease-u1") 150 (ev_issue ∷ []) ≡ leb 150 150
unfolding issue
issue-is_valid_example =
    issue-is_valid "a1" "t1" 50 100 "u1" "u2" "lease-u1" [] (ev_issue ∷ []) 150 refl
      nothing-IsUnused

issue-IssuedBefore : IssuedBefore 120 "lease-u1" (ev_issue ∷ [])
issue-IssuedBefore e (here q) l k = rw q (omega arith)
issue-IssuedBefore e (there m) l k = elim m [ ]

revoke-invalid_example : is_valid (some "lease-u1") 121 (ev_issue ∷ ev_revoke ∷ []) ≡ false
unfolding revoke
revoke-invalid_example =
    revoke-invalid "lease-u1" "loop" 120 "u3" (ev_issue ∷ []) (ev_issue ∷ ev_revoke ∷ []) 121 refl
      issue-IssuedBefore

issue-ne-revoke : (e : LeaseEvent) → e ≡ ev_issue → e.event_id ≢ "lev-u3"
issue-ne-revoke e p q =
    let k : (ev_issue.event_id == "lev-u3") ≡ true =
      (eq_iff ev_issue.event_id "lev-u3").1 (ap (λ (u : LeaseEvent). u.event_id) (sym p) ∙ q) in
    absurd (cc)

pub revoke-IsFence : IsFence ev_revoke (ev_issue ∷ ev_revoke ∷ [])
revoke-IsFence = record { listed = there (here refl); follows = λ e m l k. follow e m k }
  where
    follow :
        (e : LeaseEvent)
        → In e (ev_issue ∷ ev_revoke ∷ [])
        → e.kind ≡ issued
        → (event_le e ev_revoke ≡ true) × (e.event_id ≢ "lev-u3")
    follow e (here q) k = (rw q refl, issue-ne-revoke e q)
    follow e (there (here q)) k =
        let z : revoked ≡ issued = ap (λ (u : LeaseEvent). u.kind) (sym q) ∙ k in absurd (cc)
    follow e (there (there m)) k = elim m [ ]

-- A revocation at the instant of the issue whose uuid sorts first is folded first: the lease stays valid.
same_instant_revocation :
    is_valid
      (some "lease-u1")
      101
      (ev_issue ∷ record ev_revoke { event_id = "lev-u0"; issued_at = 100 } ∷ [])
    ≡ true
unfolding is_valid
same_instant_revocation = refl

abbrev late_task : Task String
late_task = record {
  accepts_lease = true;
  report = λ lease ledger. running;
  ledger_after = λ lease ledger. ledger;
}

abbrev fresh : Supervisor
fresh = record {
  deadline = 5;
  deadline_text = "5.0";
  failure_threshold = 2;
  failure_counts = [];
  circuit_breakers = [];
  abandoned_events = [];
  lease_ledger = some [];
  lease_grace = 30;
}

abbrev draws : String → ℕ → Draws
draws tag now = record {
  started_at = now;
  ended_at = now + 5;
  recorded_at = now + 6;
  task_uuid = text_append "t" tag;
  lease_uuid = text_append "l" tag;
  issue_uuid = text_append "i" tag;
  end_uuid = text_append "e" tag;
}

-- The first of two late runs counts a failure, closes the lease and leaves the breaker.
late_run :
    let out = execute_bounded_task "a1" late_task none (draws "1" 10) fresh in
    (out.0 ≡ err (no_result_within "a1"))
    × (failures "a1" out.1 ≡ 1)
    × (is_tripped "a1" out.1 ≡ false)
unfolding execute_bounded_task failures is_tripped
late_run = (refl, refl, refl)

fresh-IsWatched : IsWatched fresh
unfolding failures is_tripped
fresh-IsWatched = record { positive = omega arith; watched = λ a (h : false ≡ true). absurd (cc) }

abbrev after_one : Supervisor
after_one = (execute_bounded_task "a1" late_task none (draws "1" 10) fresh).1

abbrev after_two : Supervisor
after_two = (execute_bounded_task "a1" late_task none (draws "2" 20) after_one).1

two_late_runs : Steps fresh after_two
two_late_runs =
    then_step (then_step (stay fresh) (bounded "a1" late_task none (draws "1" 10) fresh))
      (bounded "a1" late_task none (draws "2" 20) after_one)

two_failures : leb after_two.failure_threshold (failures "a1" after_two) ≡ true
unfolding execute_bounded_task failures
two_failures = refl

execute_bounded_task-refuses_example :
    execute_bounded_task "a1" late_task none (draws "3" 30) after_two
    ≡ (err (breaker_tripped "a1"), abandon "a1" circuit_breaker_tripped 36 after_two)
execute_bounded_task-refuses_example =
    execute_bounded_task-refuses "a1" late_task none (draws "3" 30) fresh after_two after_two
      fresh-IsWatched two_late_runs two_failures (stay after_two)

-- A child process runs although the breaker of its agent is tripped.
tripped_subprocess :
    (is_tripped "a1" after_two ≡ true)
    × (execute_bounded_subprocess "a1" exit_zero 40 after_two
        ≡ (ok (record { status = "ok"; stdout = none }), after_two))
unfolding execute_bounded_task is_tripped execute_bounded_subprocess
tripped_subprocess = (refl, refl)

abbrev engine : QuarantineEngine
engine = record { registry = published ∷ []; quarantine_events = [] }

-- The quarantine of a registered worker is recorded and the answer carries the notice.
quarantined_custodian :
    let out =
      quarantine_and_reroute {A = String} {E = String} "custodian-1" "custodian-2"
        (ok [])
        9
        "u2"
        engine in
    (out.0 ≡ ok (("quarantine_notice", notice (notice_of "custodian-1" "custodian-2")) ∷ []))
    × (is_registered "custodian-1" engine.registry ≡ true)
    × (is_registered "custodian-1" out.1.registry ≡ false)
unfolding quarantine_and_reroute is_registered get
quarantined_custodian = (refl, refl, refl)
