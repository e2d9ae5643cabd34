-- ===== src/Supervisor/Bounded/Tripped.antt =====
-- The circuit breaker of src/supervisor/supervisor.py over any sequence of runs.
use hodi.Prelude.Tables.{get, set_item, get-set_item, get-set_item_other}
use hodi.Prelude.{
  ℕ, ◌+◌, ◌≤◌, String, ◌≡◌, refl, sym, ap, ◌∙◌, inl, inr, true, Option, none, some, arith, ◌==◌,
  string_eq, leb, beq→eq, Bool-cases, Result, ok, err,
}
use hodi.Supervisor.Lease.{LeaseLedger, DuplicateLeaseEvent}
use hodi.Supervisor.Bounded.{
  AbandonReason, circuit_breaker_tripped, Supervisor, Report, returned, raised, running, Task,
  Draws, breaker_tripped, Exit, exit_zero, exit_late, exit_code, abandon, or_zero, or_false,
  trip_at, handle_failure, conclude, after_close, run_leased, dispatch, is_tripped,
  execute_bounded_task, execute_bounded_subprocess,
}

-- One run of either kind, for any agent.
pub data Step : Supervisor → Supervisor → Type 1 where
  bounded :
      {A : Type 0} (agent_id : String) (task : Task A) (task_id : Option String) (d : Draws)
      (s : Supervisor)
      → Step s (execute_bounded_task agent_id task task_id d s).1
  subprocess :
      (agent_id : String) (exit : Exit) (now : ℕ) (s : Supervisor)
      → Step s (execute_bounded_subprocess agent_id exit now s).1

pub data Steps : Supervisor → Supervisor → Type 1 where
  stay : (s : Supervisor) → Steps s s
  then_step : {s t u : Supervisor} → Steps s t → Step t u → Steps s u

unfoldable pub failures : String → Supervisor → ℕ
unfolding get
failures agent_id s = or_zero (get agent_id s.failure_counts)

-- Every agent whose count has reached the threshold has its breaker tripped.
pub record IsWatched (s : Supervisor) : Type 0 where
  pub positive : 1 ≤ s.failure_threshold
  pub watched :
      (agent_id : String)
      → leb s.failure_threshold (failures agent_id s) ≡ true
      → is_tripped agent_id s ≡ true

-- The invariant is kept, and so is every tripped breaker.
record Keeps (s t : Supervisor) : Type 0 where
  pub watches : IsWatched s → IsWatched t
  pub trips : (agent_id : String) → is_tripped agent_id s ≡ true → is_tripped agent_id t ≡ true

Keeps-refl : (s : Supervisor) → Keeps s s
Keeps-refl s = record { watches = λ w. w; trips = λ a h. h }

Keeps-trans : {s t u : Supervisor} → Keeps s t → Keeps t u → Keeps s u
Keeps-trans p q = record {
  watches = λ w. q.watches (p.watches w);
  trips = λ a h. q.trips a (p.trips a h);
}

abandon-Keeps :
    (agent_id : String) (reason : AbandonReason) (now : ℕ) (s : Supervisor)
    → Keeps s (abandon agent_id reason now s)
unfolding abandon is_tripped failures
abandon-Keeps agent_id reason now s = record {
  watches = λ w. record { positive = w.positive; watched = w.watched };
  trips = λ a h. h;
}

with_ledger-Keeps :
    (s : Supervisor) (o : Option LeaseLedger) → Keeps s (record s { lease_ledger = o })
unfolding is_tripped failures
with_ledger-Keeps s o = record {
  watches = λ w. record { positive = w.positive; watched = w.watched };
  trips = λ a h. h;
}

reset-Keeps :
    (agent_id : String) (s : Supervisor)
    → Keeps s (record s { failure_counts = set_item agent_id 0 s.failure_counts })
unfolding is_tripped failures
reset-Keeps agent_id s = record {
  watches = λ w. record {
    positive = w.positive;
    watched = λ a h. elim (Bool-cases (a == agent_id)) [
      | inl e ↦
          let q : get a (set_item agent_id 0 s.failure_counts) ≡ some 0 =
            ap (λ i. get i (set_item agent_id 0 s.failure_counts)) (beq→eq a agent_id e)
            ∙ get-set_item agent_id 0 s.failure_counts in
          let k : leb s.failure_threshold 0 ≡ true = rw q at h in
          let p : 1 ≤ s.failure_threshold = w.positive in absurd (too_low s.failure_threshold p k)
      | inr e ↦ w.watched a (rw (get-set_item_other a agent_id 0 s.failure_counts e) at h)
    ];
  };
  trips = λ a h. h;
}
  where
    too_low : (n : ℕ) → 1 ≤ n → leb n 0 ≡ true → ⊥
    too_low n p k = ground arith

trip_at-keeps :
    (a agent_id : String) (s : Supervisor) (count : ℕ)
    → or_false (get a s.circuit_breakers) ≡ true
    → or_false (get a (trip_at agent_id count s.failure_threshold s.circuit_breakers)) ≡ true
trip_at-keeps a agent_id s count h = elim (Bool-cases (leb s.failure_threshold count)) [
  | inl e ↦ rw e (set a)
  | inr e ↦ rw e h
]
  where
    set : (i : String) → or_false (get a (set_item agent_id true s.circuit_breakers)) ≡ true
    set i = elim (Bool-cases (a == agent_id)) [
      | inl e ↦
          rw (beq→eq a agent_id e) (ap or_false (get-set_item agent_id true s.circuit_breakers))
      | inr e ↦ ap or_false (get-set_item_other a agent_id true s.circuit_breakers e) ∙ h
    ]

handle_failure-Keeps :
    (agent_id : String) (reason : AbandonReason) (now : ℕ) (s : Supervisor)
    → Keeps s (handle_failure agent_id reason now s)
unfolding handle_failure abandon is_tripped failures
handle_failure-Keeps agent_id reason now s =
    let count = or_zero (get agent_id s.failure_counts) + 1 in
    record {
      watches = λ w. record {
        positive = w.positive;
        watched = λ a h. elim (Bool-cases (a == agent_id)) [
          | inl e ↦
              let same = beq→eq a agent_id e in
              let k : leb s.failure_threshold count ≡ true =
                sym (
                  ap
                    (λ i.
                      leb s.failure_threshold
                        (or_zero (get i (set_item agent_id count s.failure_counts))))
                    same
                  ∙ ap (λ o. leb s.failure_threshold (or_zero o))
                      (get-set_item agent_id count s.failure_counts))
                ∙ h in
              ap
                (λ i.
                  or_false (get i (trip_at agent_id count s.failure_threshold s.circuit_breakers)))
                same
              ∙ rw k (ap or_false (get-set_item agent_id true s.circuit_breakers))
          | inr e ↦
              trip_at-keeps a agent_id s count
                (w.watched a (rw (get-set_item_other a agent_id count s.failure_counts e) at h))
        ];
      };
      trips = λ a h. trip_at-keeps a agent_id s count h;
    }

conclude-Keeps :
    {A : Type 0} (agent_id : String) (d : Draws) (report : Report A) (s : Supervisor)
    → Keeps s (conclude agent_id d report s).1
unfolding conclude
conclude-Keeps agent_id d (returned a) s = reset-Keeps agent_id s
conclude-Keeps agent_id d (raised text) s = handle_failure-Keeps agent_id _ d.recorded_at s
conclude-Keeps agent_id d running s = handle_failure-Keeps agent_id _ d.recorded_at s

after_close-Keeps :
    {A : Type 0} (agent_id : String) (d : Draws) (report : Report A) (s : Supervisor)
    (waited : LeaseLedger) (r : Result DuplicateLeaseEvent LeaseLedger)
    → Keeps s (after_close agent_id d report s waited r).1
unfolding after_close
after_close-Keeps agent_id d report s waited (err e) = with_ledger-Keeps s (some waited)
after_close-Keeps agent_id d report s waited (ok ledger) =
    Keeps-trans (with_ledger-Keeps s (some ledger)) (conclude-Keeps agent_id d report _)

run_leased-Keeps :
    {A : Type 0} (agent_id : String) (task : Task A) (d : Draws) (s : Supervisor)
    (r : Result DuplicateLeaseEvent (String × LeaseLedger))
    → Keeps s (run_leased agent_id task d s r).1
unfolding run_leased
run_leased-Keeps agent_id task d s (err e) = Keeps-refl s
run_leased-Keeps agent_id task d s (ok (lease_id, ledger)) = after_close-Keeps agent_id d _ s _ _

dispatch-Keeps :
    {A : Type 0} (agent_id : String) (task : Task A) (task_id : Option String) (d : Draws)
    (s : Supervisor) (o : Option LeaseLedger)
    → Keeps s (dispatch agent_id task task_id d s o).1
unfolding dispatch
dispatch-Keeps agent_id task task_id d s none = conclude-Keeps agent_id d _ s
dispatch-Keeps agent_id task task_id d s (some ledger) = run_leased-Keeps agent_id task d s _

execute_bounded_task-Keeps :
    {A : Type 0} (agent_id : String) (task : Task A) (task_id : Option String) (d : Draws)
    (s : Supervisor)
    → Keeps s (execute_bounded_task agent_id task task_id d s).1
unfolding execute_bounded_task
execute_bounded_task-Keeps agent_id task task_id d s = elim (Bool-cases (is_tripped agent_id s)) [
  | inl e ↦ rw e (abandon-Keeps agent_id circuit_breaker_tripped d.recorded_at s)
  | inr e ↦ rw e (dispatch-Keeps agent_id task task_id d s s.lease_ledger)
]

execute_bounded_subprocess-Keeps :
    (agent_id : String) (exit : Exit) (now : ℕ) (s : Supervisor)
    → Keeps s (execute_bounded_subprocess agent_id exit now s).1
unfolding execute_bounded_subprocess
execute_bounded_subprocess-Keeps agent_id exit_zero now s = Keeps-refl s
execute_bounded_subprocess-Keeps agent_id exit_late now s = handle_failure-Keeps agent_id _ now s
execute_bounded_subprocess-Keeps agent_id (exit_code code) now s =
    handle_failure-Keeps agent_id _ now s

Step-Keeps : {s t : Supervisor} → Step s t → Keeps s t
Step-Keeps (bounded agent_id task task_id d s) =
    execute_bounded_task-Keeps agent_id task task_id d s
Step-Keeps (subprocess agent_id exit now s) = execute_bounded_subprocess-Keeps agent_id exit now s

Steps-Keeps : {s t : Supervisor} → Steps s t → Keeps s t
Steps-Keeps (stay s) = Keeps-refl s
Steps-Keeps (then_step p q) = Keeps-trans (Steps-Keeps p) (Step-Keeps q)

-- Where a count of failures has reached a positive threshold since a start at which the breakers fitted the
-- counts, every later bounded task for that agent is refused, whatever runs come between: the task is not
-- run, and only an abandoned event is added.
pub execute_bounded_task-refuses :
    {A : Type 0} (agent_id : String) (task : Task A) (task_id : Option String) (d : Draws)
    (s t u : Supervisor)
    → IsWatched s
    → Steps s t
    → leb t.failure_threshold (failures agent_id t) ≡ true
    → Steps t u
    → execute_bounded_task agent_id task task_id d u
      ≡ (err (breaker_tripped agent_id), abandon agent_id circuit_breaker_tripped d.recorded_at u)
unfolding execute_bounded_task
execute_bounded_task-refuses agent_id task task_id d s t u w before reached after =
    let tripped =
      (Steps-Keeps after).trips agent_id
        (((Steps-Keeps before).watches w).watched agent_id reached) in
    rw tripped refl
