-- ===== src/Agents/Propagator.antt =====
-- src/agents/revocation_propagator.py: the cascade of a revocation over the grants of a work: what it
-- selects, and its first phase. The operation id is the caller's, or the fresh one drawn for it.
pub mod Calls
pub mod Inversion
pub mod Keeps
pub mod Notices
pub mod Pairs
pub mod Atomic
pub mod Delivery
pub mod Once
pub mod Rounds
pub mod Log
pub mod Ends
pub mod Effect
pub mod Tests
pub mod Cascade
use Prim.Native.String.{◌++◌ as text_append}
use hodi.Prelude.{
  ℕ, zero, suc, ◌-◌, String, Bool, true, false, not, ◌&&◌, Option, none, some, List, [], ◌∷◌, ◌++◌,
  ◌==◌, contains, string_eq, if◌then◌else◌, map, length, Result, ok, err,
}
use hodi.Prelude.Tables.{get}
use hodi.Prelude.Sort.{sort_by}
use hodi.Prelude.TextOrder.{text_le}
use hodi.Schema.Vocabulary.{UseType, revoked, use_type_eq, UseType-discrete}
use hodi.Schema.Lattice.{
  Derivation, use_type_containment, get_or, is_use_type_contained, sorted_use_types,
  use_type_derivation_chain,
}
use hodi.Schema.Scope.{Scope}
use hodi.Schema.GrantEvent.{GrantEvent}
use hodi.Schema.Iam.{agent_sa_map, AgentInfo}
use hodi.Schema.Revocation.{
  RevocationNotice, RevocationReceipt, NoticeOutboxRecord, revocation_effect_id,
}
use hodi.Resolve.Resolver.{CurrentGrantState, is_live, resolve, grant_ids}
use hodi.Resolve.Evaluator.{scope_window_has_closed}
use hodi.Evidence.RevocationLint.{RevocationLintError, check_notice}
use hodi.Gateway.Denial.{Dynamic, Dict, Reply, returned, raised, already_exists}
use hodi.Gateway.Documents.{
  Write, read_collection, write_document, write_documents_atomic, or_empty,
}
use hodi.Agents.NoticeDrafter.{NoticeSource, draft, template_notice_text}
use hodi.Agents.Propagator.Calls.{
  Codec, Services, Clock, World, gateway_error, validation_error, signing_error, key_error, next,
  Outcome, done, failed, Step, ◌>>=◌, ◌>>◌, pure, or_raise, check, call,
}

pub record AffectedGrant : Type 0 where
  pub grant_id : String
  pub counterparty_id : String
  pub original_scope : Scope
  pub terminated_scopes : List UseType

-- RevocationPropagatorAgent: what its constructor keeps beside the gateway and the events.
pub record Agent : Type 0 where
  pub role : String
  pub ns : String
  pub notice_template_only : Bool

-- An operation: what a caller asks the cascade for.
pub record Operation : Type 0 where
  pub operation_id : String
  pub work_id : String
  pub revoked_use_type : UseType
  pub lease_id : Option String

abbrev pub propagator_sa : String
propagator_sa = "revocation-propagator-sa@hodi-2026.iam.gserviceaccount.com"

abbrev account_or_default : Option AgentInfo → String
account_or_default none = propagator_sa
account_or_default (some info) = info.sa_email

-- `self._sa`
unfoldable pub sa : Agent → String
unfolding get
sa agent = account_or_default (get agent.role agent_sa_map)

-- `self._col(name)`
abbrev pub col : Agent → String → String
col agent name = text_append agent.ns name

-- sorted(USE_TYPE_CONTAINMENT.get(u, {u}))
unfoldable pub sorted_closure : UseType → List UseType
unfolding get_or UseType-discrete sorted_use_types
sorted_closure u = sorted_use_types (get_or u (u ∷ []) use_type_containment)

abbrev scope_to_end : UseType → ℕ → Option Scope → Option Scope
scope_to_end revoked_use_type cascade_at none = none
scope_to_end revoked_use_type cascade_at (some scope) =
    if is_use_type_contained scope.use_type revoked_use_type
      && not (scope_window_has_closed scope cascade_at)
    then some scope
    else none

-- The scope that a round of the loop ends, where it ends one.
unfoldable pub target : UseType → ℕ → CurrentGrantState → Option Scope
unfolding is_use_type_contained scope_window_has_closed
target revoked_use_type cascade_at state =
    let scope = scope_to_end revoked_use_type cascade_at state.active_scope in
    if is_live state then scope else none

-- The loop's variables `affected_grants` and `newly_committed`.
pub record Tally : Type 0 where
  pub affected : List AffectedGrant
  pub newly_committed : ℕ

module _ {A : Type 0} where
  abbrev pub prepend : Option A → Option (List A) → Option (List A)
  prepend none found = none
  prepend (some a) none = none
  prepend (some a) (some found) = some (a ∷ found)

module _ {V A : Type 0} where
  -- [Model(**row) for row in rows]
  unfoldable pub parse_all : Codec V A → List (Dict V) → Option (List A)
  parse_all codec [] = some []
  parse_all codec (row ∷ rows) = prepend (codec.parse row) (parse_all codec rows)

-- A run of the agent on an operation.
pub record Run (V : Type 0) : Type 0 where
  pub services : Services V
  pub clock : Clock
  pub agent : Agent
  pub op : Operation

module _ {V : Type 0} ⦃d : Dynamic V⦄ (r : Run V) where
  abbrev pub effect_id : (grant_id effect : String) → String
  effect_id grant_id effect =
      revocation_effect_id r.services.sha256 r.op.operation_id grant_id effect

  -- The events of the loop: the decoded rows, or the list in memory, which the loop itself extends.
  abbrev pub events_in : Option (List GrantEvent) → World V → List GrantEvent
  events_in none w = w.memory_bank_events
  events_in (some events) w = events

  -- `if raw_events: … else: …`
  abbrev pub decode : List (Dict V) → Step V (Option (List GrantEvent))
  decode [] w = done none w
  decode (row ∷ rows) w =
      next (or_raise validation_error (parse_all r.services.grant_event (row ∷ rows)) w)
        (λ events. done (some events))

  abbrev pub template_text : Result RevocationLintError Bool → Result RevocationLintError String
  template_text (err e) = err e
  template_text (ok _) = ok template_notice_text

  abbrev pub drafted_text :
      Result RevocationLintError (String × NoticeSource) → Result RevocationLintError String
  drafted_text (err e) = err e
  drafted_text (ok drafted) = ok drafted.0

  -- `notice_text`: the linted template, or what the drafter returns.
  unfoldable pub notice_text :
      (grant_id counterparty_id : String) → Result RevocationLintError String
  unfolding check_notice draft
  notice_text grant_id counterparty_id =
      if r.agent.notice_template_only
      then template_text (check_notice r.services.drafting.lower template_notice_text)
      else drafted_text (draft r.services.drafting grant_id r.op.work_id counterparty_id)

  abbrev pub revoked_event : (now : ℕ) (grant_id counterparty_id : String) → Scope → GrantEvent
  revoked_event now grant_id counterparty_id scope = record {
    event_id = effect_id grant_id "revoked_event";
    grant_id = grant_id;
    work_id = r.op.work_id;
    counterparty_id = counterparty_id;
    scope = scope;
    kind = revoked;
    supersedes = none;
    issued_at = now;
    signature = "";
  }

  abbrev pub with_signature : GrantEvent → Option String → Option GrantEvent
  with_signature event none = none
  with_signature event (some signature) = some (record event { signature = signature })

  -- `sign_pydantic(event, kind="revoked", reference=gid)`
  abbrev pub signed : ℕ → GrantEvent → Option GrantEvent
  signed n event = with_signature event (r.clock.sign_event n "revoked" event.grant_id event)

  abbrev pub outbox_record : (now : ℕ) (grant_id counterparty_id text : String) → NoticeOutboxRecord
  outbox_record now grant_id counterparty_id text = record {
    outbox_id = effect_id grant_id "outbox";
    operation_id = r.op.operation_id;
    grant_id = grant_id;
    work_id = r.op.work_id;
    counterparty_id = counterparty_id;
    notice_text = text;
    revoked_at = now;
    created_at = now;
  }

  abbrev pub pair_writes : GrantEvent → NoticeOutboxRecord → List (Write V)
  pair_writes event owed =
      record {
        collection = col r.agent "grants";
        doc_id = event.event_id;
        fields = r.services.grant_event.dump event;
      }
      ∷ record {
        collection = col r.agent "revocation_outbox";
        doc_id = owed.outbox_id;
        fields = r.services.outbox_record.dump owed;
      }
      ∷ []

  -- if raw_events == []
  abbrev pub mirror : Option (List GrantEvent) → GrantEvent → World V → World V
  mirror none event w = record w { memory_bank_events = w.memory_bank_events ++ event ∷ [] }
  mirror (some events) event w = w

  abbrev pub count : Tally → Tally
  count t = record t { newly_committed = suc t.newly_committed }

  -- What the round does with the answer to the batch.
  abbrev pub settle :
      Option (List GrantEvent) → GrantEvent → Tally → World V → Reply V Unit → Outcome V Tally
  settle log event t w (returned a g) = done (count t) (mirror log event (record w { gateway = g }))
  settle log event t w (raised (already_exists collection doc_id) g) =
      done t (record w { gateway = g })
  settle log event t w (raised e g) = failed (gateway_error e) (record w { gateway = g })

  unfoldable pub commit_pair :
      ℕ → Option (List GrantEvent) → GrantEvent → NoticeOutboxRecord → Tally → Step V Tally
  unfolding write_documents_atomic
  commit_pair n log event owed t w = settle log event t w (
      write_documents_atomic (r.clock.committing n) (sa r.agent) r.agent.role
        (pair_writes event owed) r.op.lease_id w.gateway)

  abbrev pub affect : (grant_id counterparty_id : String) → Scope → Tally → Tally
  affect grant_id counterparty_id scope t = record t {
    affected =
        t.affected
        ++ record {
          grant_id = grant_id;
          counterparty_id = counterparty_id;
          original_scope = scope;
          terminated_scopes = sorted_closure scope.use_type;
        }
          ∷ [];
  }

  abbrev pub terminate_target :
      ℕ → Option (List GrantEvent) → String → Option Scope → Option String → Tally → Step V Tally
  terminate_target n log grant_id none counterparty_id t = pure t
  terminate_target n log grant_id (some scope) none t = or_raise validation_error none
  terminate_target n log grant_id (some scope) (some counterparty_id) t = do
    text ← check (notice_text grant_id counterparty_id)
    event ←
        or_raise signing_error
          (signed n (revoked_event (r.clock.round_at n) grant_id counterparty_id scope))
    commit_pair n log event (outbox_record (r.clock.round_at n) grant_id counterparty_id text)
        (affect grant_id counterparty_id scope t)

  -- One round of the loop over the sorted grant ids.
  unfoldable pub terminate : ℕ → Option (List GrantEvent) → String → Tally → Step V Tally
  unfolding commit_pair target resolve notice_text
  terminate n log grant_id t w =
      let state = resolve grant_id none (events_in log w) in
      terminate_target n log grant_id (target r.op.revoked_use_type r.clock.cascade_at state)
        state.counterparty_id t w

  unfoldable pub terminate_all : ℕ → Option (List GrantEvent) → List String → Tally → Step V Tally
  unfolding terminate
  terminate_all n log [] t = pure t
  terminate_all n log (grant_id ∷ rest) t = do
    later ← terminate n log grant_id t
    terminate_all (suc n) log rest later
