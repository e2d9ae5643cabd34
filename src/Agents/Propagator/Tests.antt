-- ===== src/Agents/Propagator/Tests.antt =====
-- Runs of src/agents/revocation_propagator.py: a work with two grants, of which the revocation of fine-tuning
-- ends one.
use hodi.Prelude.{
  map, ◌≤◌, ◌<◌, String, ◌≡◌, ◌≢◌, ◌↔◌, refl, ap, inl, inr, Bool, true, false, Option, none, some,
  List, [], ◌∷◌, ◌==◌, string_eq, nat_eq, Bool-cases, beq→eq, beq_refl, arith, In, In-cons, Eq, ok,
  dec_to_bool, dec_to_bool_iff, length,
}
use hodi.Prelude.Tables.{get}
use hodi.Schema.Vocabulary.{
  UseType-discrete, ModelClass-discrete, EventKind-discrete, training, fine_tuning, human_reference,
  rag_retrieval, open_weights, granted, revoked,
}
use hodi.Schema.Scope.{Scope, ScopeEvaluationResult}
use hodi.Schema.GrantEvent.{GrantEvent}
use hodi.Schema.Revocation.{NoticeOutboxRecord, RevocationReceipt, revocation_effect_id}
use hodi.Supervisor.Tests.{ev_issue}
use hodi.Gateway.Tests.{ambient}
use hodi.Gateway.Denial.{Dynamic, Dict}
use hodi.Gateway.Documents.{bucket, is_match}
use hodi.Gateway.Policy.{enforce_lease_of}
use hodi.Agents.Propagator.Calls.{Services, Clock, World, Outcome, done, failed, world_of}
use hodi.Agents.Propagator.{Run, AffectedGrant, sa, sorted_closure, parse_all}
use hodi.Agents.Propagator.Cascade.{CascadeResult, execute_revocation_cascade}
use hodi.Agents.Propagator.Ends.{CanPermit, IsFaithful, log_rows}
use hodi.Agents.Propagator.Cascade.{terminate_grants}
use hodi.Agents.Propagator.Notices.{deliver_pending_notices}
use hodi.Agents.Propagator.Keeps.{SameDocuments}
use hodi.Agents.Propagator.Pairs.{Paired}
use hodi.Agents.Propagator.Atomic.{execute_revocation_cascade-Paired}
use hodi.Agents.Propagator.Delivery.{unsigned, IsDelivered}
use hodi.Agents.Propagator.Once.{pending, at_clock, deliver_pending_notices-once}
use hodi.Resolve.Resolver.{active_grant_events}
use hodi.Resolve.Resolver.Active.{IsInForce}
use hodi.Resolve.Evaluator.{permits}
use hodi.Agents.Propagator.Effect.{
  IsReady, execute_revocation_cascade-ends, execute_revocation_cascade-refuses,
}

-- Documents of this test: a field is a text, an event or a record, or absent.
pub data Value : Type 0 where
  absent : Value
  text_of : String → Value
  event_of : GrantEvent → Value
  record_of : NoticeOutboxRecord → Value

eq_discrete {ℓ} : {A : Type ℓ} → Eq A → Discrete A
eq_discrete e a b = elim (Bool-cases (e.beq a b)) [
  | inl h ↦ yes ((e.beq_iff a b).0 h)
  | inr h ↦ no (λ p. let k = (e.beq_iff a b).1 p in absurd (cc))
]

Scope-discrete : Discrete Scope
Scope-discrete =
    hlevel (eq_discrete string_eq, eq_discrete nat_eq, UseType-discrete, ModelClass-discrete)

pub GrantEvent-discrete : Discrete GrantEvent
GrantEvent-discrete =
    hlevel (Scope-discrete, eq_discrete string_eq, eq_discrete nat_eq, EventKind-discrete)

pub NoticeOutboxRecord-discrete : Discrete NoticeOutboxRecord
NoticeOutboxRecord-discrete = hlevel (eq_discrete string_eq, eq_discrete nat_eq)

abbrev pub same_value : Value → Value → Bool
same_value absent absent = true
same_value (text_of s) (text_of t) = s == t
same_value (event_of e) (event_of f) = dec_to_bool (GrantEvent-discrete e f)
same_value (record_of e) (record_of f) = dec_to_bool (NoticeOutboxRecord-discrete e f)
same_value _ _ = false

pub same_value_iff : (a b : Value) → (same_value a b ≡ true) ↔ (a ≡ b)
same_value_iff absent absent = (λ h. refl, λ e. refl)
same_value_iff (text_of s) (text_of t) =
    (λ h. ap text_of (beq→eq s t h), λ e. let k : s ≡ t = cc in rw k (beq_refl t))
same_value_iff (event_of e) (event_of f) =
    let i = dec_to_bool_iff (GrantEvent-discrete e f) in (λ h. ap event_of (i.0 h), λ p. i.1 (cc))
same_value_iff (record_of e) (record_of f) =
    let i = dec_to_bool_iff (NoticeOutboxRecord-discrete e f) in
    (λ h. ap record_of (i.0 h), λ p. i.1 (cc))
same_value_iff absent (text_of t) = (λ h. absurd (cc), λ e. absurd (cc))
same_value_iff absent (event_of t) = (λ h. absurd (cc), λ e. absurd (cc))
same_value_iff absent (record_of t) = (λ h. absurd (cc), λ e. absurd (cc))
same_value_iff (text_of s) absent = (λ h. absurd (cc), λ e. absurd (cc))
same_value_iff (text_of s) (event_of t) = (λ h. absurd (cc), λ e. absurd (cc))
same_value_iff (text_of s) (record_of t) = (λ h. absurd (cc), λ e. absurd (cc))
same_value_iff (event_of s) absent = (λ h. absurd (cc), λ e. absurd (cc))
same_value_iff (event_of s) (text_of t) = (λ h. absurd (cc), λ e. absurd (cc))
same_value_iff (event_of s) (record_of t) = (λ h. absurd (cc), λ e. absurd (cc))
same_value_iff (record_of s) absent = (λ h. absurd (cc), λ e. absurd (cc))
same_value_iff (record_of s) (text_of t) = (λ h. absurd (cc), λ e. absurd (cc))
same_value_iff (record_of s) (event_of t) = (λ h. absurd (cc), λ e. absurd (cc))

instance abbrev pub values : Dynamic Value
values = record {
  same = record { beq = same_value; beq_iff = same_value_iff };
  null = absent;
  text = text_of;
}

-- `model_dump()`, with the fields that the code filters and sorts by under their names.
abbrev dump_event : GrantEvent → Dict Value
dump_event e = ("work_id", text_of e.work_id) ∷ ("event", event_of e) ∷ []

abbrev pub event_in : Option Value → Option GrantEvent
event_in (some (event_of e)) = some e
event_in _ = none

abbrev dump_record : NoticeOutboxRecord → Dict Value
dump_record o =
    ("operation_id", text_of o.operation_id)
    ∷ ("grant_id", text_of o.grant_id)
    ∷ ("record", record_of o)
    ∷ []

abbrev record_in : Option Value → Option NoticeOutboxRecord
record_in (some (record_of o)) = some o
record_in _ = none

abbrev pub read_text : Value → String
read_text (text_of s) = s
read_text _ = ""

abbrev services : Services Value
services = record {
  grant_event = record { dump = dump_event; parse = λ row. event_in (get "event" row) };
  outbox_record = record { dump = dump_record; parse = λ row. record_in (get "record" row) };
  dump_notice = λ notice. ("notice_text", text_of notice.notice_text) ∷ [];
  as_text = read_text;
  sha256 = λ s. s;
  drafting = record { generate = λ g w c. none; lower = λ s. s; strip = λ s. s };
}

abbrev run : Run Value
run = record {
  services = services;
  clock = record {
    reading = ambient;
    cascade_at = 100;
    round_at = λ n. 110;
    committing = λ n. ambient;
    reading_outbox = ambient;
    delivering = λ n. ambient;
    sign_event = λ n kind reference event. some "signed";
    sign_receipt = λ n kind reference receipt. some "signed";
  };
  agent = record { role = "revocation_propagator"; ns = ""; notice_template_only = true };
  op = record {
    operation_id = "op";
    work_id = "w1";
    revoked_use_type = fine_tuning;
    lease_id = some "lease-u1";
  };
}

abbrev pub trained_scope : Scope
trained_scope = record {
  use_type = training;
  model_class = open_weights;
  commercial = false;
  attribution_required = true;
  territory = "WW" ∷ [];
  valid_from = 0;
  valid_until = none;
}

abbrev reading_scope : Scope
reading_scope = record trained_scope { use_type = human_reference }

abbrev pub trained : GrantEvent
trained = record {
  event_id = "e1";
  grant_id = "g1";
  work_id = "w1";
  counterparty_id = "c1";
  scope = trained_scope;
  kind = granted;
  supersedes = none;
  issued_at = 10;
  signature = "";
}

abbrev reading : GrantEvent
reading = record trained { event_id = "e2"; grant_id = "g2"; scope = reading_scope; issued_at = 20 }

abbrev licensed : World Value
licensed = record {
  gateway = record {
    denial_events = [];
    offline_reads = ("grants", dump_event trained ∷ dump_event reading ∷ []) ∷ [];
    lease_ledger = some (ev_issue ∷ []);
    offline_writes = [];
  };
  memory_bank_events = [];
}

abbrev no_result : CascadeResult
no_result = record {
  operation_id = "";
  revoked_use_type = training;
  derived_scopes = [];
  terminated_scopes = [];
  structured_derivation = [];
  affected_grants = [];
  issued_notices = [];
  replayed_effects = 0;
}

abbrev result_in : Outcome Value CascadeResult → CascadeResult
result_in (done result w) = result
result_in (failed e w) = no_result

-- The outcome of the run.
abbrev result : CascadeResult
result = result_in (execute_revocation_cascade run licensed)

abbrev revoked_world : World Value
revoked_world = world_of (execute_revocation_cascade run licensed)

faithful : IsFaithful run services.grant_event
unfolding get
faithful = record { round_trip = λ e. refl; work_id = λ e. refl }

before_cascade : (e : GrantEvent) → In e (trained ∷ reading ∷ []) → e.issued_at < 100
before_cascade e m = elim (In-cons m) [
  | inl p ↦ rw p (omega arith)
  | inr i ↦ elim (In-cons i) [ inl q ↦ rw q (omega arith) | inr j ↦ elim j [ ] ]
]

not_empty : log_rows run licensed.gateway ≢ []
unfolding get bucket is_match
not_empty e = let k : dump_event trained ∷ dump_event reading ∷ [] ≡ [] = e in absurd (cc)

ready : IsReady run licensed.gateway (trained ∷ reading ∷ []) 100
unfolding parse_all bucket get is_match
ready = record {
  collision_free = λ s t e. e;
  faithful = faithful;
  parsed = refl;
  filled = not_empty;
  unused = λ grant_id. (refl, refl);
  before = before_cascade;
  later = λ n. omega arith;
}

run-done : execute_revocation_cascade run licensed ≡ done result revoked_world
unfolding execute_revocation_cascade sa enforce_lease_of
run-done = refl

abbrev request : Scope
request = record trained_scope { use_type = fine_tuning }

execute_revocation_cascade-ends_example :
    (added : List GrantEvent) × (parse_all services.grant_event (log_rows run revoked_world.gateway)
      ≡ some (trained ∷ reading ∷ added))
    × ((x : GrantEvent) → In x added → (x.kind ≡ revoked) × (100 ≤ x.issued_at))
    × ((x : GrantEvent)
        → IsInForce x none (trained ∷ reading ∷ added)
        → CanPermit fine_tuning 100 x.scope
        → ⊥)
execute_revocation_cascade-ends_example =
    execute_revocation_cascade-ends run (trained ∷ reading ∷ []) 100 licensed ready result
      revoked_world run-done

execute_revocation_cascade-refuses_example :
    (after : List GrantEvent) × (found : List GrantEvent) × (answer : ScopeEvaluationResult)
    × (parse_all services.grant_event (log_rows run revoked_world.gateway) ≡ some after)
    × (active_grant_events after none ≡ some found)
    × (permits found request 130 ≡ ok answer)
    × (answer.permitted ≡ false)
execute_revocation_cascade-refuses_example =
    execute_revocation_cascade-refuses run (trained ∷ reading ∷ []) 100 licensed ready result
      revoked_world request 130 run-done refl (omega arith)

nothing-Paired : Paired run licensed.gateway
unfolding bucket get
nothing-Paired grant_id = (λ e. refl, λ e. refl)

execute_revocation_cascade-Paired_example : Paired run revoked_world.gateway
execute_revocation_cascade-Paired_example =
    execute_revocation_cascade-Paired run (λ s t e. e) licensed nothing-Paired

-- The delivery alone, and a retry of it ten seconds later.
abbrev later_clock : Clock
later_clock = record run.clock {
  round_at = λ n. 120;
  cascade_at = 120;
  sign_receipt = λ n kind reference receipt. some "signed again";
}

abbrev receipts_in : Outcome Value (List RevocationReceipt) → List RevocationReceipt
receipts_in (done receipts w) = receipts
receipts_in (failed e w) = []

abbrev owing : World Value
owing = world_of (terminate_grants run (some (trained ∷ reading ∷ [])) licensed)

abbrev told_world : World Value
told_world = world_of (deliver_pending_notices run owing)

abbrev told : List RevocationReceipt
told = receipts_in (deliver_pending_notices run owing)

abbrev retold : Outcome Value (List RevocationReceipt)
retold = deliver_pending_notices (at_clock run later_clock) told_world

told-done : deliver_pending_notices run owing ≡ done told told_world
unfolding deliver_pending_notices sa terminate_grants enforce_lease_of
told-done = refl

retold-done : retold ≡ done (receipts_in retold) (world_of retold)
unfolding deliver_pending_notices sa terminate_grants enforce_lease_of revocation_effect_id
retold-done = refl

deliver_pending_notices-once_example :
    ((row : Dict Value) (owed : NoticeOutboxRecord)
      → In row (pending run owing.gateway)
      → services.outbox_record.parse row ≡ some owed
      → IsDelivered run owed told_world.gateway)
    × SameDocuments told_world.gateway (world_of retold).gateway
    × (map unsigned (receipts_in retold) ≡ map unsigned told)
deliver_pending_notices-once_example =
    deliver_pending_notices-once run later_clock owing told_world (world_of retold) told
      (receipts_in retold) told-done retold-done

abbrev affected_first : List AffectedGrant
affected_first =
    record {
      grant_id = "g1";
      counterparty_id = "c1";
      original_scope = trained_scope;
      terminated_scopes = fine_tuning ∷ human_reference ∷ rag_retrieval ∷ training ∷ [];
    }
    ∷ []

-- The run ends the first grant alone, and tells its counterparty once.
run-affects : (result.affected_grants ≡ affected_first) × (length result.issued_notices ≡ 1)
unfolding execute_revocation_cascade sa enforce_lease_of sorted_closure
run-affects = (refl, refl)
