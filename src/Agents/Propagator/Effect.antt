-- ===== src/Agents/Propagator/Effect.antt =====
-- What a cascade of src/agents/revocation_propagator.py that returns has done to the log, from its first read
-- to its last notice.
use mathlib.Core.Path.{subst}
use hodi.Prelude.{
  ℕ, ◌≤◌, ◌<◌, String, ◌≡◌, ◌≢◌, refl, sym, ap, ◌∙◌, Bool, true, false, Option, none, some, List,
  [], ◌∷◌, ◌++◌, map, filter-append, append_nil, In, arith, ok, ltb,
}
use hodi.Prelude.Sort.{sorted_set-In}
use hodi.Schema.Vocabulary.{UseType, revoked}
use hodi.Schema.Scope.{Scope, ScopeEvaluationResult, IsWithin}
use hodi.Schema.GrantEvent.{GrantEvent}
use hodi.Schema.Revocation.{IsCollisionFree}
use hodi.Resolve.Resolver.{grant_ids, resolve, active_grant_events}
use hodi.Schema.Lattice.{is_use_type_contained}
use hodi.Schema.Lattice.Order.{is_use_type_contained-iff-Chain}
use hodi.Resolve.Evaluator.{scope_window_has_closed, permits}
use hodi.Resolve.Evaluator.Containment.{IsCurrent, Holds}
use hodi.Resolve.Evaluator.Permission.{AllGranted, permits-iff-IsHeld}
use hodi.Resolve.Resolver.Active.{
  active_grant_events_correct, IsInForce, IsInForce-In, In-map_grant_id,
}
use hodi.Gateway.Denial.{Dynamic, Dict, Gateway}
use hodi.Gateway.Policy.Audit.{Checked-returned}
use hodi.Gateway.Documents.{selected, is_match, read_collection}
use hodi.Gateway.Documents.Reads.{stored, read_collection-returned, read_collection-Audited}
use hodi.Agents.Propagator.Calls.{World, done, or_raise, call, validation_error}
use hodi.Agents.Propagator.{Run, sa, col, parse_all, decode, target}
use hodi.Agents.Propagator.Notices.{deliver_pending_notices}
use hodi.Agents.Propagator.Cascade.{
  CascadeResult, read_log, terminate_grants, execute_revocation_cascade,
}
use hodi.Agents.Propagator.Inversion.{done-injective, next-done, or_raise-done, answer-done}
use hodi.Agents.Propagator.Pairs.{terminated, owed}
use hodi.Agents.Propagator.Once.{pending-Deliveries}
use hodi.Agents.Propagator.Log.{HasGrant, Logged, terminate_all-Extended}
use hodi.Agents.Propagator.Ends.{
  CanPermit, IsFaithful, log_rows, dumped-matches, parse_all-append, target-in_force,
  IsInForce-other, IsInForce-before,
}

-- A scope in force that holds a request for the use can permit the use at every earlier instant.
CanPermit-held :
    (revoked_use : UseType) (cascade_at at : ℕ) (scope request : Scope)
    → request.use_type ≡ revoked_use
    → cascade_at ≤ at
    → IsCurrent scope at
    → Holds scope request
    → CanPermit revoked_use cascade_at scope
unfolding scope_window_has_closed
CanPermit-held revoked_use cascade_at at scope request wanted later current holds = (
  subst (λ u. is_use_type_contained scope.use_type u ≡ true) wanted
      ((is_use_type_contained-iff-Chain scope.use_type request.use_type).1 holds.use_type),
  cases scope.valid_until current.unexpired,
)
  where
    cases :
        (until : Option ℕ)
        → IsWithin at until
        → elim until [ none ↦ false | some t ↦ ltb t cascade_at ] ≡ false
    cases none h = refl
    cases (some t) h = ground arith

refused : (b : Bool) → (b ≡ true → ⊥) → b ≡ false
refused true h = absurd (h refl)
refused false h = refl

module _ {V : Type 0} ⦃d : Dynamic V⦄ (r : Run V) where
  decode-done :
      (rows : List (Dict V)) (events : List GrantEvent) (log : Option (List GrantEvent))
      (w u : World V)
      → parse_all r.services.grant_event rows ≡ some events
      → rows ≢ []
      → decode r rows w ≡ done log u
      → (log ≡ some events) × (u ≡ w)
  decode-done [] events log w u parsed filled e = absurd (filled refl)
  decode-done (row ∷ rows) events log w u parsed filled e =
      let read =
        next-done (or_raise validation_error (parse_all r.services.grant_event (row ∷ rows)) w) _
          e in
      let (found, stayed) =
        or_raise-done validation_error (parse_all r.services.grant_event (row ∷ rows)) w read.2 in
      let (same, still) = done-injective read.3 in
      (sym same ∙ sym found ∙ parsed, sym still ∙ stayed)

  read_log-done :
      (events : List GrantEvent) (log : Option (List GrantEvent)) (w u : World V)
      → parse_all r.services.grant_event (log_rows r w.gateway) ≡ some events
      → log_rows r w.gateway ≢ []
      → read_log r w ≡ done log u
      → (log ≡ some events) × (u.gateway ≡ w.gateway)
  unfolding read_log
  read_log-done events log w u parsed filled e =
      let read =
        next-done
          (call
            (read_collection r.clock.reading (sa r.agent) r.agent.role (col r.agent "grants")
              (some (("work_id", d.text r.op.work_id) ∷ [])) none none)
            w)
          _ e in
      let found = answer-done _ w read.2 in
      let docs : read.0 ≡ log_rows r w.gateway =
        (read_collection-returned r.clock.reading (sa r.agent) r.agent.role (col r.agent "grants")
          (some (("work_id", d.text r.op.work_id) ∷ [])) none none w.gateway found.0 read.0
          found.1).1 in
      let unchanged : found.0 ≡ w.gateway =
        Checked-returned w.gateway found.0 _
          (read_collection-Audited r.clock.reading (sa r.agent) r.agent.role (col r.agent "grants")
            (some (("work_id", d.text r.op.work_id) ∷ [])) none none w.gateway)
          found.1 in
      let (known, stayed) =
        decode-done read.0 events log read.1 u
          (subst (λ rows. parse_all r.services.grant_event rows ≡ some events) (sym docs) parsed)
          (subst (λ rows. rows ≢ []) (sym docs) filled) read.3 in
      (known, ap (λ (z : World V). z.gateway) (stayed ∙ found.2) ∙ unchanged)

-- What a fresh operation on a work with a log meets: ids without collisions that no document has yet,
-- events that pydantic dumps and parses back, and a clock that is past every event of the log.
pub record IsReady {V : Type 0} ⦃d : Dynamic V⦄ (r : Run V) (g : Gateway V)
    (events : List GrantEvent) (since : ℕ) : Type 0 where
  pub collision_free : IsCollisionFree r.services.sha256
  pub faithful : IsFaithful r r.services.grant_event
  pub parsed : parse_all r.services.grant_event (log_rows r g) ≡ some events
  pub filled : log_rows r g ≢ []
  pub unused : (grant_id : String) → (terminated r grant_id g ≡ none) × (owed r grant_id g ≡ none)
  pub before : (e : GrantEvent) → In e events → e.issued_at < since
  pub later : (n : ℕ) → since ≤ r.clock.round_at n

module _ {V : Type 0} ⦃d : Dynamic V⦄ (r : Run V) (events : List GrantEvent) (since : ℕ)
    (w : World V) (ready : IsReady r w.gateway events since) where
  abbrev Log : List GrantEvent → Gateway V → Type 0
  Log added g =
      Logged r ready.collision_free since ready.later (stored (col r.agent "grants") w.gateway)
        added g

  starts-Logged : Log [] w.gateway
  starts-Logged = record {
    appended = sym (append_nil (stored (col r.agent "grants") w.gateway));
    fresh = λ event m. elim m [ ];
    taken = λ grant_id doc k. let empty = (ready.unused grant_id).0 in absurd (cc);
    paired = λ grant_id. (λ e. (ready.unused grant_id).1, λ e. (ready.unused grant_id).0);
  }

  log_rows-appended :
      (added : List GrantEvent) (z g : Gateway V)
      → Log added z
      → stored (col r.agent "grants") g ≡ stored (col r.agent "grants") z
      → parse_all r.services.grant_event (log_rows r g) ≡ some (events ++ added)
  log_rows-appended added z g log same =
      let filters = ("work_id", d.text r.op.work_id) ∷ [] in
      let rows = stored (col r.agent "grants") w.gateway in
      ap (λ l. parse_all r.services.grant_event (selected (some filters) l)) (same ∙ log.appended)
      ∙ ap (parse_all r.services.grant_event) (
          filter-append (is_match filters) rows (map r.services.grant_event.dump added)
          ∙ ap (λ l. log_rows r w.gateway ++ l)
              (dumped-matches r added ready.faithful (λ e m. (log.fresh e m).work)))
      ∙ parse_all-append r.services.grant_event ready.faithful.round_trip (log_rows r w.gateway)
          events added ready.parsed

  no_longer :
      (added : List GrantEvent) (z : Gateway V)
      → Log added z
      → ((grant_id : String) (scope : Scope)
          → In grant_id (grant_ids events)
          → target r.op.revoked_use_type r.clock.cascade_at (resolve grant_id none events)
            ≡ some scope
          → HasGrant r ready.collision_free since ready.later
              (stored (col r.agent "grants") w.gateway)
              grant_id
              added)
      → (x : GrantEvent) → IsInForce x none (events ++ added)
      → CanPermit r.op.revoked_use_type r.clock.cascade_at x.scope
      → ⊥
  unfolding grant_ids
  no_longer added z log ended x force can =
      let revokes : (e : GrantEvent) → In e added → (e.kind ≡ revoked) × (since ≤ e.issued_at) =
        λ e m. ((log.fresh e m).kind, (log.fresh e m).issued) in
      let old = IsInForce-before events added since ready.before revokes x force in
      let (event, m, same) =
        ended x.grant_id x.scope
          (sorted_set-In x.grant_id (map (λ e. e.grant_id) events)
            (In-map_grant_id x events (IsInForce-In x none events old)))
          (target-in_force r.op.revoked_use_type r.clock.cascade_at events x old can) in
      IsInForce-other events added since ready.before revokes x event force m same

  -- After a cascade that returns, the log parses to the old events, all of them in their order, followed by
  -- revocations alone,
  -- and no event in force has a scope that contains the revoked use and whose window is open at the instant
  -- of the cascade or later. The operation is fresh, and its clock is past the log.
  pub execute_revocation_cascade-ends :
      (result : CascadeResult) (v : World V)
      → execute_revocation_cascade r w ≡ done result v
      → (added : List GrantEvent) × (parse_all r.services.grant_event (log_rows r v.gateway)
          ≡ some (events ++ added))
        × ((x : GrantEvent) → In x added → (x.kind ≡ revoked) × (since ≤ x.issued_at))
        × ((x : GrantEvent)
            → IsInForce x none (events ++ added)
            → CanPermit r.op.revoked_use_type r.clock.cascade_at x.scope
            → ⊥)
  unfolding execute_revocation_cascade terminate_grants
  execute_revocation_cascade-ends result v e =
      let reading = next-done (read_log r w) _ e in
      let (known, stayed) =
        read_log-done r events reading.0 w reading.1 ready.parsed ready.filled reading.2 in
      let ending = next-done (terminate_grants r reading.0 reading.1) _ reading.3 in
      let extended =
        terminate_all-Extended r ready.collision_free since ready.later
          (stored (col r.agent "grants") w.gateway) 0 events (grant_ids events)
          (record { affected = []; newly_committed = 0 }) ending.0 reading.1 ending.1 []
          (subst (λ log. terminate_grants r log reading.1 ≡ done ending.0 ending.1) known ending.2)
          (subst (Log []) (sym stayed) starts-Logged) in
      let telling = next-done (deliver_pending_notices r ending.1) _ ending.3 in
      let (rows, keyed_, told) = pending-Deliveries r ending.1 telling.1 telling.0 telling.2 in
      let (_, last) = done-injective telling.3 in
      (
        extended.all,
        log_rows-appended extended.all ending.1.gateway v.gateway extended.logged (
            ap (λ (u : World V). stored (col r.agent "grants") u.gateway) (sym last)
            ∙ told.others "grants" refl),
        λ x m. ((extended.logged.fresh x m).kind, (extended.logged.fresh x m).issued),
        no_longer extended.all ending.1.gateway extended.logged extended.ended,
      )

  -- After such a cascade no request for the revoked use is permitted, at its instant or later: the log reads
  -- back, its events in force are found, and the evaluation of any request for that use refuses.
  pub execute_revocation_cascade-refuses :
      (result : CascadeResult) (v : World V) (request : Scope) (at : ℕ)
      → execute_revocation_cascade r w ≡ done result v
      → request.use_type ≡ r.op.revoked_use_type
      → r.clock.cascade_at ≤ at
      → (after : List GrantEvent) × (found : List GrantEvent) × (answer : ScopeEvaluationResult)
        × (parse_all r.services.grant_event (log_rows r v.gateway) ≡ some after)
        × (active_grant_events after none ≡ some found)
        × (permits found request at ≡ ok answer)
        × (answer.permitted ≡ false)
  execute_revocation_cascade-refuses result v request at e wanted later =
      let (added, parsed, _, ended) = execute_revocation_cascade-ends result v e in
      let after = events ++ added in
      let (found, collected, exact) = active_grant_events_correct after none in
      let granted_all : AllGranted found = λ g m. ((exact g).0 m).1 in
      let (answer, evaluated, held) = permits-iff-IsHeld found request at granted_all in
      (
        after,
        found,
        answer,
        parsed,
        collected,
        evaluated,
        refused answer.permitted (λ yes.
            let (g, m, current, holds) = held.0 yes in
            ended g ((exact g).0 m) (
              CanPermit-held r.op.revoked_use_type r.clock.cascade_at at g.scope request wanted
                later current holds)),
      )
