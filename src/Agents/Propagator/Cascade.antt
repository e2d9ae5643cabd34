-- ===== src/Agents/Propagator/Cascade.antt =====
-- src/agents/revocation_propagator.py: the cascade, its two phases one after the other.
use hodi.Prelude.{
  ℕ, ◌-◌, String, Option, none, some, List, [], ◌∷◌, ◌++◌, contains, string_eq, if◌then◌else◌,
  length,
}
use hodi.Schema.Vocabulary.{UseType, use_type_eq, UseType-discrete}
use hodi.Schema.Lattice.{Derivation, sorted_use_types, use_type_derivation_chain}
use hodi.Schema.GrantEvent.{GrantEvent}
use hodi.Schema.Revocation.{RevocationReceipt}
use hodi.Resolve.Resolver.{grant_ids}
use hodi.Gateway.Denial.{Dynamic, Dict}
use hodi.Gateway.Documents.{read_collection, or_empty}
use hodi.Agents.Propagator.Calls.{Step, ◌>>=◌, pure, call}
use hodi.Agents.Propagator.{
  propagator_sa, Run, sa, col, sorted_closure, Tally, AffectedGrant, parse_all, decode, events_in,
  terminate_all,
}
use hodi.Agents.Propagator.Notices.{deliver_pending_notices}

pub record CascadeResult : Type 0 where
  pub operation_id : String
  pub revoked_use_type : UseType
  pub derived_scopes : List UseType
  pub terminated_scopes : List UseType
  pub structured_derivation : List Derivation
  pub affected_grants : List AffectedGrant
  pub issued_notices : List RevocationReceipt
  pub replayed_effects : ℕ

abbrev distinct_use_types : List UseType → List UseType
distinct_use_types [] = []
distinct_use_types (u ∷ l) =
    let rest = distinct_use_types l in if contains u rest then rest else u ∷ rest

abbrev all_terminated : List AffectedGrant → List UseType
all_terminated [] = []
all_terminated (a ∷ rest) = a.terminated_scopes ++ all_terminated rest

-- sorted({t for a in affected_grants for t in a.terminated_scopes})
unfoldable pub terminated_union : List AffectedGrant → List UseType
unfolding sorted_use_types UseType-discrete
terminated_union affected = sorted_use_types (distinct_use_types (all_terminated affected))

module _ {V : Type 0} ⦃d : Dynamic V⦄ (r : Run V) where
  abbrev pub cascade_result : Tally → List RevocationReceipt → CascadeResult
  cascade_result t receipts = record {
    operation_id = r.op.operation_id;
    revoked_use_type = r.op.revoked_use_type;
    derived_scopes = sorted_closure r.op.revoked_use_type;
    terminated_scopes = terminated_union t.affected;
    structured_derivation = or_empty (use_type_derivation_chain 5 r.op.revoked_use_type);
    affected_grants = t.affected;
    issued_notices = receipts;
    replayed_effects = length receipts - t.newly_committed;
  }

  -- What the cascade reads before its first loop: where its events are.
  unfoldable pub read_log : Step V (Option (List GrantEvent))
  unfolding read_collection parse_all
  read_log = do
    raw_events ← call (
        read_collection r.clock.reading (sa r.agent) r.agent.role (col r.agent "grants")
          (some (("work_id", d.text r.op.work_id) ∷ [])) none none)
    decode r raw_events

  -- The first phase: terminate, and record that a notice is owed.
  unfoldable pub terminate_grants : Option (List GrantEvent) → Step V Tally
  unfolding grant_ids terminate_all
  terminate_grants log w =
      terminate_all r 0 log (grant_ids (events_in r log w))
        (record { affected = []; newly_committed = 0 }) w

  unfoldable pub execute_revocation_cascade : Step V CascadeResult
  unfolding read_log terminate_grants deliver_pending_notices
  execute_revocation_cascade = do
    log ← read_log
    t ← terminate_grants log
    receipts ← deliver_pending_notices r
    pure (cascade_result t receipts)

  -- The agent's plain reads: its own domain, and two that the policy denies it.
  unfoldable pub get_grants : (work_id : String) → Step V (List (Dict V))
  unfolding read_collection
  get_grants work_id = call (
      read_collection r.clock.reading propagator_sa "revocation_propagator" "grants"
        (some (("work_id", d.text work_id) ∷ [])) none none)

  unfoldable pub read_buyer_terms : (counterparty_id : String) → Step V (List (Dict V))
  unfolding read_collection
  read_buyer_terms counterparty_id = call (
      read_collection r.clock.reading propagator_sa "revocation_propagator" "buyer_terms"
        (some (("counterparty_id", d.text counterparty_id) ∷ []))
        (some (("counterparty_id", d.text counterparty_id) ∷ [])) none)

  unfoldable pub read_artist_identity : Step V (List (Dict V))
  unfolding read_collection
  read_artist_identity = call (
      read_collection r.clock.reading propagator_sa "revocation_propagator" "artists" none none
        none)
