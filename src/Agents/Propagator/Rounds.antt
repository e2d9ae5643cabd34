-- ===== src/Agents/Propagator/Rounds.antt =====
-- A round of the first loop of src/agents/revocation_propagator.py, read from an outcome that returned.
use mathlib.Core.Path.{subst}
use hodi.Prelude.{
  ℕ, String, ◌≡◌, refl, sym, ap, ◌∙◌, ◌⊎◌, inl, inr, Option, none, some, List, eq_of_some, here,
}
use hodi.Schema.Vocabulary.{revoked}
use hodi.Schema.Scope.{Scope}
use hodi.Schema.GrantEvent.{GrantEvent}
use hodi.Schema.Revocation.{NoticeOutboxRecord}
use hodi.Resolve.Resolver.{resolve}
use hodi.Gateway.Denial.{
  Dynamic, Gateway, Reply, returned, raised, policy_denial, already_exists, attribute_error,
}
use hodi.Gateway.Policy.Audit.{Audited}
use hodi.Gateway.Documents.{put_all, write_documents_atomic}
use hodi.Gateway.Documents.Appends.{document}
use hodi.Gateway.Documents.Commits.{Unrecorded}
use hodi.Gateway.Documents.Batches.{
  write_documents_atomic-Audited, write_documents_atomic-BatchCommitted,
}
use hodi.Gateway.Documents.BatchClashes.{AnyTaken, write_documents_atomic-AnyTaken}
use hodi.Agents.Propagator.Calls.{World, done, or_raise, check, signing_error}
use hodi.Agents.Propagator.{
  Run, sa, col, effect_id, Tally, pair_writes, settle, commit_pair, notice_text, signed,
  with_signature, outbox_record, affect, revoked_event, target, terminate_target, terminate,
}
use hodi.Agents.Propagator.Inversion.{done-injective, next-done, or_raise-done, check-done}

module _ {V : Type 0} ⦃d : Dynamic V⦄ (r : Run V) where
  -- The event with which round `n` ends the grant.
  pub record IsRevocation (n : ℕ) (grant_id : String) (event : GrantEvent) : Type 0 where
    pub event_id : event.event_id ≡ effect_id r grant_id "revoked_event"
    pub grant : event.grant_id ≡ grant_id
    pub work : event.work_id ≡ r.op.work_id
    pub kind : event.kind ≡ revoked
    pub issued_at : event.issued_at ≡ r.clock.round_at n

  -- The pair was free and is stored, or one of its documents was there and nothing has changed.
  abbrev pub Settled : GrantEvent → NoticeOutboxRecord → Gateway V → Gateway V → Type 0
  Settled event owed g h =
      ((h ≡ put_all (pair_writes r event owed) g)
        × (document (col r.agent "grants") event.event_id g ≡ none))
      ⊎ ((h ≡ g) × AnyTaken (pair_writes r event owed) g)

  commit_pair-done :
      (n : ℕ) (events : List GrantEvent) (event : GrantEvent) (owed : NoticeOutboxRecord)
      (t t' : Tally) (w v : World V)
      → commit_pair r n (some events) event owed t w ≡ done t' v
      → (t'.affected ≡ t.affected) × Settled event owed w.gateway v.gateway
  unfolding commit_pair
  commit_pair-done n events event owed t t' w v =
      cases
        (write_documents_atomic (r.clock.committing n) (sa r.agent) r.agent.role
          (pair_writes r event owed) r.op.lease_id w.gateway)
        refl
        (write_documents_atomic-Audited (r.clock.committing n) (sa r.agent) r.agent.role
          (pair_writes r event owed) r.op.lease_id w.gateway)
    where
      cases :
          (o : Reply V Unit)
          → write_documents_atomic
              (r.clock.committing n)
              (sa r.agent)
              r.agent.role
              (pair_writes r event owed)
              r.op.lease_id
              w.gateway
            ≡ o
          → Audited (Unrecorded w.gateway) w.gateway o
          → settle r (some events) event t w o ≡ done t' v
          → (t'.affected ≡ t.affected) × Settled event owed w.gateway v.gateway
      cases (returned a g) e k h =
          let (counted, moved) = done-injective h in
          let batch =
            write_documents_atomic-BatchCommitted (r.clock.committing n) (sa r.agent) r.agent.role
              (pair_writes r event owed) r.op.lease_id w.gateway g a e in
          (
            ap (λ (u : Tally). u.affected) (sym counted),
            inl (
              ap (λ (u : World V). u.gateway) (sym moved) ∙ batch.made,
              batch.free _ (here refl),
            ),
          )
      cases (raised (already_exists c i) g) e k h =
          let (counted, moved) = done-injective h in
          (
            ap (λ (u : Tally). u.affected) (sym counted),
            inr (
              ap (λ (u : World V). u.gateway) (sym moved) ∙ k,
              write_documents_atomic-AnyTaken (r.clock.committing n) (sa r.agent) r.agent.role
                  (pair_writes r event owed) r.op.lease_id w.gateway g c i e,
            ),
          )
      cases (raised (policy_denial x) g) e k h = absurd (cc)
      cases (raised attribute_error g) e k h = absurd (cc)

  -- A round that ends a grant: whom it names, and what it stores.
  pub record Ended (n : ℕ) (grant_id : String) (scope : Scope) (counterparty_id : Option String)
      (t t' : Tally) (g h : Gateway V) : Type 0 where
    pub named : String
    pub known : counterparty_id ≡ some named
    pub event : GrantEvent
    pub revocation : IsRevocation n grant_id event
    pub owed : NoticeOutboxRecord
    pub filed : owed.outbox_id ≡ effect_id r grant_id "outbox"
    pub tallied : t'.affected ≡ (affect r grant_id named scope t).affected
    pub settled : Settled event owed g h

  signed-IsRevocation :
      (n : ℕ) (grant_id counterparty_id : String) (scope : Scope) (event : GrantEvent)
      → signed r n (revoked_event r (r.clock.round_at n) grant_id counterparty_id scope)
        ≡ some event
      → IsRevocation n grant_id event
  signed-IsRevocation n grant_id counterparty_id scope event = cases (
      r.clock.sign_event n "revoked" grant_id
        (revoked_event r (r.clock.round_at n) grant_id counterparty_id scope))
    where
      cases :
          (signature : Option String)
          → with_signature r
              (revoked_event r (r.clock.round_at n) grant_id counterparty_id scope)
              signature
            ≡ some event
          → IsRevocation n grant_id event
      cases none e = absurd (cc)
      cases (some signature) e =
          subst (IsRevocation n grant_id) (eq_of_some e)
            (record { event_id = refl; grant = refl; work = refl; kind = refl; issued_at = refl })

  terminate_target-Ended :
      (n : ℕ) (events : List GrantEvent) (grant_id : String) (scope : Scope)
      (counterparty_id : Option String) (t t' : Tally) (w v : World V)
      → terminate_target r n (some events) grant_id (some scope) counterparty_id t w ≡ done t' v
      → Ended n grant_id scope counterparty_id t t' w.gateway v.gateway
  terminate_target-Ended n events grant_id scope none t t' w v e = absurd (cc)
  terminate_target-Ended n events grant_id scope (some named) t t' w v e =
      let drafted = next-done (check (notice_text r grant_id named) w) _ e in
      let (text, stayed) = check-done (notice_text r grant_id named) w drafted.2 in
      let stamped =
        next-done
          (or_raise signing_error
            (signed r n (revoked_event r (r.clock.round_at n) grant_id named scope)) drafted.1)
          _ drafted.3 in
      let (event, still) =
        or_raise-done signing_error
          (signed r n (revoked_event r (r.clock.round_at n) grant_id named scope)) drafted.1
          stamped.2 in
      let owed = outbox_record r (r.clock.round_at n) grant_id named drafted.0 in
      let (tallied, settled) =
        commit_pair-done n events stamped.0 owed (affect r grant_id named scope t) t' stamped.1 v
          stamped.3 in
      record {
        named = named;
        known = refl;
        event = stamped.0;
        revocation = signed-IsRevocation n grant_id named scope stamped.0 event;
        owed = owed;
        filed = refl;
        tallied = tallied;
        settled =
            subst (λ (u : World V). Settled stamped.0 owed u.gateway v.gateway) (still ∙ stayed)
              settled;
      }

  -- A round does nothing where it has no target, and ends the grant where it has one.
  pub terminate-done :
      (n : ℕ) (events : List GrantEvent) (grant_id : String) (t t' : Tally) (w v : World V)
      → terminate r n (some events) grant_id t w ≡ done t' v
      → ((target r.op.revoked_use_type r.clock.cascade_at (resolve grant_id none events) ≡ none)
          × (t' ≡ t)
          × (v ≡ w))
        ⊎ ((scope : Scope) × (target r.op.revoked_use_type r.clock.cascade_at
                (resolve grant_id none events)
              ≡ some scope)
            × Ended n grant_id scope
                (resolve grant_id none events).counterparty_id
                t
                t'
                w.gateway
                v.gateway)
  unfolding terminate
  terminate-done n events grant_id t t' w v =
      cases (target r.op.revoked_use_type r.clock.cascade_at (resolve grant_id none events)) refl
    where
      cases :
          (o : Option Scope)
          → target r.op.revoked_use_type r.clock.cascade_at (resolve grant_id none events) ≡ o
          → terminate_target r n
              (some events)
              grant_id
              o
              (resolve grant_id none events).counterparty_id
              t
              w
            ≡ done t' v
          → ((target r.op.revoked_use_type r.clock.cascade_at (resolve grant_id none events) ≡ none)
              × (t' ≡ t)
              × (v ≡ w))
            ⊎ ((scope : Scope) × (target r.op.revoked_use_type r.clock.cascade_at
                    (resolve grant_id none events)
                  ≡ some scope)
                × Ended n grant_id scope
                    (resolve grant_id none events).counterparty_id
                    t
                    t'
                    w.gateway
                    v.gateway)
      cases none e k = let (same, stayed) = done-injective k in inl (e, sym same, sym stayed)
      cases (some scope) e k = inr (
        scope,
        e,
        terminate_target-Ended n events grant_id scope
            (resolve grant_id none events).counterparty_id t t' w v k,
      )
