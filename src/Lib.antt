-- ===== src/Lib.antt =====
-- Hodi licenses creative works to machine-learning buyers: an append-only log of grant events says what is
-- licensed, agents with separate duties act on it, and one gateway stands between the agents and the documents.
--
-- How the parts interact. A grant event (src/schema/grant_event.py) carries a scope (src/schema/scope.py), whose
-- use types and model classes are ordered by the tables of src/schema/lattice.py. The resolver
-- (src/resolve/resolver.py) folds the log into the grants in force at an instant, and the evaluator
-- (src/resolve/evaluator.py) asks whether one of them contains a requested scope. The negotiation
-- (src/schema/negotiation.py) clamps a proposal to the artist's policy before a grant is offered. Every read and
-- write of an agent passes the gateway (src/gateway/gateway.py): it identifies the caller
-- (src/gateway/caller_identity.py), looks up the policy (src/schema/iam_policy.py), compares the session, and
-- under supervision asks the lease ledger (src/supervisor/lease.py) whether the presented lease holds. The consent
-- arbiter (src/agents/consent_arbiter.py) concludes from typed assertions (src/schema/assertion.py), each of which
-- the gateway admits from one role only (src/schema/assertion_authority.py). The registry
-- (src/registry/registry.py) discloses the published agents. The supervisor (src/supervisor/supervisor.py) runs a
-- task under a deadline, a lease and a breaker, and the quarantine (src/supervisor/quarantine.py) takes a failing
-- worker out of the registry. A revocation (src/agents/revocation_propagator.py) folds the log of a work, appends
-- through the gateway a revoked event and the record of an owed notice for every grant that could still permit the
-- withdrawn use, and then delivers the notices, whose text src/llm/notice_drafter.py drafts and
-- src/evidence/revocation_lint.py checks. A buyer's request (src/api/buyer_api.py) is authenticated by
-- src/api/auth.py, stopped where an incident froze the buyer, and decided by the evaluator on the buyer's own
-- folded log.
--
-- Files and code:
--   Prelude: the shared names, Boolean tests, results, lists, sorting by an order, text order, integers, and
--     Python's dictionaries as lists of pairs (Prelude/Tables).
--   Schema/Vocabulary, Scope, GrantEvent: the types of src/schema/scope.py and src/schema/grant_event.py.
--   Schema/Lattice: src/schema/lattice.py; USE_TYPE_CONTAINMENT is use_type_containment, and so on.
--   Schema/Negotiation: src/schema/negotiation.py; clamp_to_policy in the code's order of dimensions, one function
--     for each.
--   Schema/Iam: src/schema/iam_policy.py; AGENT_SA_MAP is agent_sa_map, roles and collections are texts.
--   Schema/Assertion: src/schema/assertion.py and src/schema/assertion_authority.py.
--   Resolve/Resolver, Resolve/Evaluator: src/resolve/resolver.py and src/resolve/evaluator.py.
--   Supervisor/Lease: the LeaseLedger of src/supervisor/lease.py, state is `state`, is_valid is `is_valid`.
--   Supervisor/Bounded: src/supervisor/supervisor.py; handle_failure is _handle_failure, and close_lease, conclude and
--     run_leased are the parts of execute_bounded_task after the breaker's test. Supervisor/Quarantine:
--     src/supervisor/quarantine.py over the log of the registry.
--   Gateway/Identity: src/gateway/caller_identity.py; Gateway/Denial: the state and the errors of
--     src/gateway/gateway.py; Gateway/Policy: _identify, _deny, _enforce and _enforce_lease, without their leading
--     underscores; Gateway/Documents: read_collection, write_document, write_documents_atomic, submit_assertion;
--     Gateway/Incidental: the log_… methods and route.
--   Agents/Arbiter: src/agents/consent_arbiter.py.
--   Schema/Revocation, Agents/Propagator: src/schema/revocation.py and src/agents/revocation_propagator.py. Calls has
--     what a run calls and its outcomes, Propagator the selection and the first phase, Notices the second phase,
--     Cascade both; Run is the agent with one operation. Pairs and Atomic, Delivery and Once, Rounds, Log, Ends and
--     Effect are about them.
--   Agents/NoticeDrafter, Evidence/RevocationLint: src/llm/notice_drafter.py and src/evidence/revocation_lint.py.
--   Api/Auth: authenticate of src/api/auth.py; Api/Gates and Api/License: _authenticate_or_403, _refuse_if_frozen,
--     _verify_work_ownership_or_403, request_license and request_license_natural of src/api/buyer_api.py, without
--     their leading underscores; Api/Http: what a handler answers or raises.
--   Registry: src/registry/registry.py over the in-memory store of src/memory/event_store.py.
--   The Tests modules run the definitions on small inputs.
--
-- Choices. Instants and durations are natural numbers, microseconds from `datetime.min` in UTC (seconds in the
-- claims of a token); an instant that a call reads from the clock and a uuid that it draws are arguments of it.
-- The values of documents, filters and sessions are any type with equality, None and texts among them
-- (Gateway/Denial, Dynamic). A call of the gateway returns its state after a raise too. A reason or rationale text
-- is a constructor with what the code puts into the sentence. A cascade draws a new clock and new signatures for
-- each of its rounds. The derivation walk runs on fuel; five rounds are enough, since there are five use types.
-- Sorting is insertion by the code's key.
--
-- Not modelled: the Firestore branches of the gateway, its remote domain services and deliver_revocation_notice;
-- incidents (src/incident), the memory bank, the evidence services and src/evidence/overclaim_lint.py; the other
-- HTTP surfaces, the fleet's wiring, signing and the language models, which are input, output and calls of other
-- services. Parameters, since they are not the repository's code: the verifier of a token's signature, pydantic's
-- dump and parse of a document (Codec), sha256 and hmac, the signer, the text generator and the interpreter,
-- str.lower and str.strip, and the ISO parser of timestamps. What a theorem needs of them is a hypothesis of its
-- own: that a digest has no collisions, that a dumped event parses back. A supervised task is what its thread has
-- reported when the wait ends and what all threads did to the ledger meanwhile; the supervisor serves one call at
-- a time, so that two calls do not interleave on its counts. The handlers share one gateway, as a test or an
-- offline run installs it, and the finding of the prompt inspector is an input. A signature with characters
-- outside ASCII, at which hmac.compare_digest raises, is taken for a wrong one.
pub mod Prelude
pub mod Schema
pub mod Resolve
pub mod Supervisor
pub mod Gateway
pub mod Agents
pub mod Evidence
pub mod Api
pub mod Registry
