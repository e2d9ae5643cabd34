-- ===== src/Gateway/Documents/Commits.antt =====
-- When a write through src/gateway/gateway.py commits, what it leaves, and what a refused one leaves.
use mathlib.Core.Path.{subst}
use hodi.Prelude.{String, ◌≡◌, ◌≢◌, refl, ap, ◌∙◌, inl, inr, true, Option, none, some, Bool-cases}
use hodi.Supervisor.Lease.{LeaseEvent, LeaseLedger, is_valid}
use hodi.Supervisor.Lease.Fencing.{IsFence, fence-invalid}
use hodi.Gateway.Identity.{CallerIdentity}
use hodi.Gateway.Denial.{
  Dynamic, Dict, Gateway, Ambient, Reply, returned, raised, returned-after, state_of, policy_denial,
  already_exists, attribute_error,
}
use hodi.Gateway.Policy.{enforce, enforce_lease}
use hodi.Gateway.Policy.Audit.{Audited, Audited-after, enforce-Checked, enforce_lease-Checked}
use hodi.Gateway.Policy.Access.{Admitted, UnderLease, enforce-returned, enforce_lease-returned}
use hodi.Gateway.Documents.{Write, bucket, put, create, is_some, write_document}
use hodi.Gateway.Documents.Appends.{
  document, document-put, document-put_other, Apart-of_free, create-returned,
}

module _ {V : Type 0} ⦃d : Dynamic V⦄ where
  -- Nothing that a call leaves behind in the record of denials but its own denial.
  abbrev pub Unrecorded : Gateway V → Gateway V → Type 0
  Unrecorded g h = h.denial_events ≡ g.denial_events

  create-Audited : (w : Write V) (g : Gateway V) → Audited (Unrecorded g) g (create w g)
  unfolding create put
  create-Audited w g = elim (Bool-cases (is_some (document w.collection w.doc_id g))) [
    | inl h ↦ rw h refl
    | inr h ↦ rw h refl
  ]

  -- A write either records no denial, or raises the one denial it records and changes nothing else, or
  -- raises another error and changes nothing.
  pub write_document-Audited :
      (env : Ambient) (calling_sa calling_role_key : String) (w : Write V)
      (lease_id : Option String) (identity : Option CallerIdentity) (g : Gateway V)
      → Audited
          (Unrecorded g)
          g
          (write_document env calling_sa calling_role_key w lease_id identity g)
  unfolding write_document
  write_document-Audited env calling_sa calling_role_key w lease_id identity g =
      Audited-after (Unrecorded g) g
        (enforce env calling_sa calling_role_key w.collection none none identity g) _
        (enforce-Checked env calling_sa calling_role_key w.collection none none identity g)
        (λ a.
          Audited-after (Unrecorded g) g
            (enforce_lease env calling_sa calling_role_key w.collection lease_id g) _
            (enforce_lease-Checked env calling_sa calling_role_key w.collection lease_id g)
            (λ b. create-Audited w g))

  -- What a committed write went through, and what it did.
  pub record Committed (env : Ambient) (calling_sa calling_role_key : String) (w : Write V)
      (lease_id : Option String) (identity : Option CallerIdentity) (g h : Gateway V) : Type 0 where
    pub admitted : Admitted {V = V} env calling_sa calling_role_key w.collection none none identity
    pub leased : UnderLease env g.lease_ledger lease_id
    pub free : document w.collection w.doc_id g ≡ none
    pub added : h ≡ put w g

  -- A write returns only to a caller whom the policy admits, under a lease that holds at that moment where
  -- a ledger is attached, for an id that was free; the document is then stored.
  pub write_document-Committed :
      (env : Ambient) (calling_sa calling_role_key : String) (w : Write V)
      (lease_id : Option String) (identity : Option CallerIdentity) (g h : Gateway V) (a : Unit)
      → write_document env calling_sa calling_role_key w lease_id identity g ≡ returned a h
      → Committed env calling_sa calling_role_key w lease_id identity g h
        × (document w.collection w.doc_id h ≡ some w.fields)
  unfolding write_document
  write_document-Committed env calling_sa calling_role_key w lease_id identity g h a e =
      let first =
        returned-after (enforce env calling_sa calling_role_key w.collection none none identity g) _
          e in
      let who =
        enforce-returned env calling_sa calling_role_key w.collection none none identity g first.1
          first.0 first.2 in
      let second =
        returned-after (enforce_lease env calling_sa calling_role_key w.collection lease_id first.1)
          _ first.3 in
      let lease =
        enforce_lease-returned env calling_sa calling_role_key w.collection lease_id first.1
          second.1 second.0 second.2 in
      let made = create-returned w second.1 h a second.3 in
      let same = lease.0 ∙ who.0 in
      let added : h ≡ put w g = made.0 ∙ ap (put w) same in
      (
        record {
          admitted = who.1;
          leased = subst (λ u. UnderLease env u.lease_ledger lease_id) who.0 lease.1;
          free = subst (λ u. document w.collection w.doc_id u ≡ none) same made.1;
          added = added;
        },
        ap (document w.collection w.doc_id) added ∙ document-put w g,
      )

  -- Where a raise leaves the documents, whatever call raised.
  pub document-of_Audited :
      {A : Type 0} (Kept : Gateway V → Type 0) (collection doc_id : String) (doc : Dict V)
      (g : Gateway V) (r : Reply V A)
      → Audited Kept g r
      → document collection doc_id g ≡ some doc
      → ((a : A) (h : Gateway V) → r ≡ returned a h → document collection doc_id h ≡ some doc)
      → document collection doc_id (state_of r) ≡ some doc
  unfolding bucket
  document-of_Audited Kept collection doc_id doc g (returned a h) k e f = f a h refl
  document-of_Audited Kept collection doc_id doc g (raised (policy_denial x) h) k e f =
      ap (document collection doc_id) k ∙ e
  document-of_Audited Kept collection doc_id doc g (raised (already_exists c i) h) k e f =
      ap (document collection doc_id) k ∙ e
  document-of_Audited Kept collection doc_id doc g (raised attribute_error h) k e f =
      ap (document collection doc_id) k ∙ e

  -- A stored document is never changed or removed by a write, whether the write commits or not.
  pub write_document-keeps :
      (env : Ambient) (calling_sa calling_role_key : String) (w : Write V)
      (lease_id : Option String) (identity : Option CallerIdentity) (g : Gateway V)
      (collection doc_id : String) (doc : Dict V)
      → document collection doc_id g ≡ some doc
      → document collection doc_id
          (state_of (write_document env calling_sa calling_role_key w lease_id identity g))
        ≡ some doc
  write_document-keeps env calling_sa calling_role_key w lease_id identity g collection doc_id doc
        e =
      document-of_Audited (Unrecorded g) collection doc_id doc g
        (write_document env calling_sa calling_role_key w lease_id identity g)
        (write_document-Audited env calling_sa calling_role_key w lease_id identity g) e
        (λ a h r.
          let c =
            (write_document-Committed env calling_sa calling_role_key w lease_id identity g h a
              r).0 in
          ap (document collection doc_id) c.added
          ∙ document-put_other collection doc_id w g
              (Apart-of_free collection doc_id doc w g e c.free)
          ∙ e)

  -- A worker whose lease is fenced cannot commit a write, whatever the policy admits it to.
  pub write_document-fenced :
      (env : Ambient) (calling_sa calling_role_key : String) (w : Write V) (fence : LeaseEvent)
      (ledger : LeaseLedger) (identity : Option CallerIdentity) (g h : Gateway V) (a : Unit)
      → g.lease_ledger ≡ some ledger
      → IsFence fence ledger
      → write_document env calling_sa calling_role_key w (some fence.lease_id) identity g
        ≢ returned a h
  write_document-fenced env calling_sa calling_role_key w fence ledger identity g h a l f e =
      let done =
        write_document-Committed env calling_sa calling_role_key w (some fence.lease_id) identity g
          h a e in
      let valid : is_valid (some fence.lease_id) env.now ledger ≡ true =
        subst (λ o. UnderLease env o (some fence.lease_id)) l (done.0).leased in
      absurd (cc (fence-invalid fence ledger env.now f))
