-- ===== src/Agents/Propagator/Atomic.antt =====
-- The cascade of src/agents/revocation_propagator.py as a whole: both phases keep the pairs together,
-- whichever step raises.
use mathlib.Core.Path.{subst}
use hodi.Evidence.RevocationLint.{RevocationLintError}
use hodi.Prelude.{
  ℕ, suc, String, ◌≡◌, refl, sym, false, Option, none, some, List, [], ◌∷◌, inl, eq_of_some, Result,
  ok, err, ap, ◌∙◌, ◌==◌, string_eq,
}
use hodi.Schema.GrantEvent.{GrantEvent}
use hodi.Schema.Scope.{Scope}
use hodi.Schema.Revocation.{NoticeOutboxRecord, RevocationReceipt, IsCollisionFree}
use hodi.Gateway.Denial.{
  Dynamic, Dict, Gateway, Reply, returned, raised, policy_denial, already_exists, attribute_error,
}
use hodi.Gateway.Policy.Audit.{Audited}
use hodi.Gateway.Documents.{put, read_collection, write_document, write_documents_atomic}
use hodi.Gateway.Documents.Appends.{document, document-put_other}
use hodi.Gateway.Documents.Commits.{Unrecorded, write_document-Audited, write_document-Committed}
use hodi.Gateway.Documents.Batches.{
  write_documents_atomic-Audited, write_documents_atomic-BatchCommitted,
}
use hodi.Agents.Propagator.Calls.{
  World, done, Step, next, world_of, or_raise, check, call, signing_error, validation_error,
  key_error,
}
use hodi.Agents.Propagator.{
  Run, sa, col, effect_id, Tally, pair_writes, settle, commit_pair, notice_text, signed,
  with_signature, outbox_record, affect, revoked_event, terminate_target, terminate, terminate_all,
  mirror, decode, parse_all,
}
use hodi.Agents.Propagator.Notices.{
  notice_write, unless_delivered, deliver, deliver_all, signed as signed_receipt, receipt_of, keyed,
  sorted_rows, deliver_pending_notices,
}
use hodi.Agents.Propagator.Cascade.{
  read_log, terminate_grants, cascade_result, execute_revocation_cascade,
}
use hodi.Agents.Propagator.Keeps.{Audited-raised, Keeps, next-Keeps, or_raise-Keeps, read-Keeps}
use hodi.Agents.Propagator.Pairs.{col-differ, Paired, Paired-IsAboutDocuments, put_all-Paired}

module _ {V : Type 0} ⦃d : Dynamic V⦄ (r : Run V) (free : IsCollisionFree r.services.sha256) where
  commit_pair-Keeps :
      (n : ℕ) (log : Option (List GrantEvent)) (event : GrantEvent) (record_ : NoticeOutboxRecord)
      (grant_id : String) (t : Tally)
      → event.event_id ≡ effect_id r grant_id "revoked_event"
      → record_.outbox_id ≡ effect_id r grant_id "outbox"
      → Keeps (Paired r) (commit_pair r n log event record_ t)
  unfolding commit_pair
  commit_pair-Keeps n log event record_ grant_id t named filed w h =
      cases
        (write_documents_atomic (r.clock.committing n) (sa r.agent) r.agent.role
          (pair_writes r event record_) r.op.lease_id w.gateway)
        refl
        (write_documents_atomic-Audited (r.clock.committing n) (sa r.agent) r.agent.role
          (pair_writes r event record_) r.op.lease_id w.gateway)
    where
      mirrored :
          (log : Option (List GrantEvent)) (g : Gateway V)
          → (mirror r log event (record w { gateway = g })).gateway ≡ g
      mirrored none g = refl
      mirrored (some events) g = refl

      cases :
          (o : Reply V Unit)
          → write_documents_atomic
              (r.clock.committing n)
              (sa r.agent)
              r.agent.role
              (pair_writes r event record_)
              r.op.lease_id
              w.gateway
            ≡ o
          → Audited (Unrecorded w.gateway) w.gateway o
          → Paired r (world_of (settle r log event t w o)).gateway
      cases (returned a g) e k =
          let made =
            (write_documents_atomic-BatchCommitted (r.clock.committing n) (sa r.agent) r.agent.role
              (pair_writes r event record_) r.op.lease_id w.gateway g a e).made in
          subst (Paired r) (sym made ∙ sym (mirrored log g))
            (put_all-Paired r free event record_ grant_id named filed w.gateway h)
      cases (raised (policy_denial x) g) e k =
          Paired-IsAboutDocuments r w.gateway g
            (Audited-raised Unit (Unrecorded w.gateway) w.gateway g (policy_denial x) k) h
      cases (raised (already_exists c i) g) e k =
          Paired-IsAboutDocuments r w.gateway g
            (Audited-raised Unit (Unrecorded w.gateway) w.gateway g (already_exists c i) k) h
      cases (raised attribute_error g) e k =
          Paired-IsAboutDocuments r w.gateway g
            (Audited-raised Unit (Unrecorded w.gateway) w.gateway g attribute_error k) h

  signed-event_id :
      (event signed_event : GrantEvent) (signature : Option String)
      → with_signature r event signature ≡ some signed_event
      → signed_event.event_id ≡ event.event_id
  signed-event_id event signed_event none e = absurd (cc)
  signed-event_id event signed_event (some signature) e =
      ap (λ (x : GrantEvent). x.event_id) (sym (eq_of_some e))

  terminate_target-Keeps :
      (n : ℕ) (log : Option (List GrantEvent)) (grant_id : String) (scope : Option Scope)
      (counterparty_id : Option String) (t : Tally)
      → Keeps (Paired r) (terminate_target r n log grant_id scope counterparty_id t)
  terminate_target-Keeps n log grant_id none counterparty_id t w h = h
  terminate_target-Keeps n log grant_id (some scope) none t w h = h
  terminate_target-Keeps n log grant_id (some scope) (some counterparty_id) t w h =
      let event = revoked_event r (r.clock.round_at n) grant_id counterparty_id scope in
      cases (notice_text r grant_id counterparty_id) (signed r n event)
        (λ x. signed-event_id event x (r.clock.sign_event n "revoked" grant_id event))
    where
      cases :
          (text : Result RevocationLintError String) (signed_event : Option GrantEvent)
          → ((x : GrantEvent)
              → signed_event ≡ some x
              → x.event_id ≡ effect_id r grant_id "revoked_event")
          → Paired r
              (world_of (
                next (check text w) (λ text u. next (or_raise signing_error signed_event u) (λ x.
                  commit_pair r n log x
                    (outbox_record r (r.clock.round_at n) grant_id counterparty_id text)
                    (affect r grant_id counterparty_id scope t))))).gateway
      cases (err e) o named = h
      cases (ok text) none named = h
      cases (ok text) (some x) named =
          commit_pair-Keeps n log x
            (outbox_record r (r.clock.round_at n) grant_id counterparty_id text) grant_id
            (affect r grant_id counterparty_id scope t) (named x refl) refl w h

  terminate_all-Keeps :
      (n : ℕ) (log : Option (List GrantEvent)) (grant_ids : List String) (t : Tally)
      → Keeps (Paired r) (terminate_all r n log grant_ids t)
  unfolding terminate_all terminate
  terminate_all-Keeps n log [] t w h = h
  terminate_all-Keeps n log (grant_id ∷ rest) t w h =
      next-Keeps (Paired r) (terminate r n log grant_id t w) (terminate_all r (suc n) log rest)
        (terminate_target-Keeps n log grant_id _ _ t w h) (terminate_all-Keeps (suc n) log rest)

  notice-apart :
      (collection doc_id : String) (owed : NoticeOutboxRecord)
      → (collection == "revocation_notices") ≡ false
      → (g : Gateway V)
      → document (col r.agent collection) doc_id (put (notice_write r owed) g)
        ≡ document (col r.agent collection) doc_id g
  notice-apart collection doc_id owed e g =
      document-put_other (col r.agent collection) doc_id (notice_write r owed) g
        (inl (col-differ r.agent collection "revocation_notices" e))

  put-Paired :
      (owed : NoticeOutboxRecord) (g : Gateway V)
      → Paired r g
      → Paired r (put (notice_write r owed) g)
  put-Paired owed g p grant_id =
      let e = notice-apart "grants" (effect_id r grant_id "revoked_event") owed refl g in
      let f = notice-apart "revocation_outbox" (effect_id r grant_id "outbox") owed refl g in
      (λ k. f ∙ (p grant_id).0 (sym e ∙ k), λ k. e ∙ (p grant_id).1 (sym f ∙ k))

  deliver-Keeps : (n : ℕ) (owed : NoticeOutboxRecord) → Keeps (Paired r) (deliver r n owed)
  unfolding deliver
  deliver-Keeps n owed w h =
      cases
        (write_document (r.clock.delivering n) (sa r.agent) r.agent.role (notice_write r owed)
          r.op.lease_id none w.gateway)
        refl
        (write_document-Audited (r.clock.delivering n) (sa r.agent) r.agent.role
          (notice_write r owed) r.op.lease_id none w.gateway)
    where
      cases :
          (o : Reply V Unit)
          → write_document
              (r.clock.delivering n)
              (sa r.agent)
              r.agent.role
              (notice_write r owed)
              r.op.lease_id
              none
              w.gateway
            ≡ o
          → Audited (Unrecorded w.gateway) w.gateway o
          → Paired r (world_of (unless_delivered r w o)).gateway
      cases (returned a g) e k =
          let made =
            (write_document-Committed (r.clock.delivering n) (sa r.agent) r.agent.role
              (notice_write r owed) r.op.lease_id none w.gateway g a e).0.added in
          subst (Paired r) (sym made) (put-Paired owed w.gateway h)
      cases (raised (policy_denial x) g) e k =
          Paired-IsAboutDocuments r w.gateway g
            (Audited-raised Unit (Unrecorded w.gateway) w.gateway g (policy_denial x) k) h
      cases (raised (already_exists c i) g) e k =
          Paired-IsAboutDocuments r w.gateway g
            (Audited-raised Unit (Unrecorded w.gateway) w.gateway g (already_exists c i) k) h
      cases (raised attribute_error g) e k =
          Paired-IsAboutDocuments r w.gateway g
            (Audited-raised Unit (Unrecorded w.gateway) w.gateway g attribute_error k) h

  -- After the parse and the delivery of a row: its receipt, before those of the later rows.
  receipt-Keeps :
      (receipt : Option RevocationReceipt) (rest : Step V (List RevocationReceipt))
      → Keeps (Paired r) rest
      → Keeps (Paired r) (λ u.
        next (or_raise signing_error receipt u) (λ x v. next (rest v) (λ later. done (x ∷ later))))
  receipt-Keeps none rest k u h = h
  receipt-Keeps (some x) rest k u h =
      next-Keeps (Paired r) (rest u) (λ later. done (x ∷ later)) (k u h) (λ later v l. l)

  row-Keeps :
      (n : ℕ) (owed : Option NoticeOutboxRecord) (rest : Step V (List RevocationReceipt))
      → Keeps (Paired r) rest
      → Keeps (Paired r) (λ w. next (or_raise validation_error owed w) (λ owed u.
        next (deliver r n owed u) (λ _ u.
          next
            (or_raise signing_error (signed_receipt r n (receipt_of r owed)) u)
            (λ x v. next (rest v) (λ later. done (x ∷ later))))))
  row-Keeps n none rest k w h = h
  row-Keeps n (some owed) rest k w h =
      next-Keeps (Paired r) (deliver r n owed w)
        (λ _ u.
          next (or_raise signing_error (signed_receipt r n (receipt_of r owed)) u)
            (λ x v. next (rest v) (λ later. done (x ∷ later))))
        (deliver-Keeps n owed w h)
        (λ _. receipt-Keeps (signed_receipt r n (receipt_of r owed)) rest k)

  deliver_all-Keeps : (n : ℕ) (rows : List (Dict V)) → Keeps (Paired r) (deliver_all r n rows)
  unfolding deliver_all
  deliver_all-Keeps n [] w h = h
  deliver_all-Keeps n (row ∷ rows) w h =
      row-Keeps n (r.services.outbox_record.parse row) (deliver_all r (suc n) rows)
        (deliver_all-Keeps (suc n) rows) w h

  deliver_pending_notices-Keeps : Keeps (Paired r) (deliver_pending_notices r)
  unfolding deliver_pending_notices
  deliver_pending_notices-Keeps w h =
      next-Keeps (Paired r)
        (call
          (read_collection r.clock.reading_outbox (sa r.agent) r.agent.role
            (col r.agent "revocation_outbox")
            (some (("operation_id", d.text r.op.operation_id) ∷ [])) none none)
          w)
        (λ rows u.
          next (or_raise key_error (keyed r rows) u) (λ rows. deliver_all r 0 (sorted_rows r rows)))
        (read-Keeps (Paired r) r.clock.reading_outbox (sa r.agent) r.agent.role
          (col r.agent "revocation_outbox") (some (("operation_id", d.text r.op.operation_id) ∷ []))
          (Paired-IsAboutDocuments r) w h)
        (λ rows u k.
          next-Keeps (Paired r) (or_raise key_error (keyed r rows) u)
            (λ rows. deliver_all r 0 (sorted_rows r rows))
            (or_raise-Keeps (Paired r) key_error (keyed r rows) u k)
            (λ rows. deliver_all-Keeps 0 (sorted_rows r rows)))

  decode-Keeps : (rows : List (Dict V)) → Keeps (Paired r) (decode r rows)
  decode-Keeps [] w h = h
  decode-Keeps (row ∷ rows) w h =
      next-Keeps (Paired r)
        (or_raise validation_error (parse_all r.services.grant_event (row ∷ rows)) w)
        (λ events. done (some events))
        (or_raise-Keeps (Paired r) validation_error (parse_all r.services.grant_event (row ∷ rows))
          w h)
        (λ events u k. k)

  read_log-Keeps : Keeps (Paired r) (read_log r)
  unfolding read_log
  read_log-Keeps w h =
      next-Keeps (Paired r)
        (call
          (read_collection r.clock.reading (sa r.agent) r.agent.role (col r.agent "grants")
            (some (("work_id", d.text r.op.work_id) ∷ [])) none none)
          w)
        (decode r)
        (read-Keeps (Paired r) r.clock.reading (sa r.agent) r.agent.role (col r.agent "grants")
          (some (("work_id", d.text r.op.work_id) ∷ [])) (Paired-IsAboutDocuments r) w h)
        decode-Keeps

  -- Whatever happens to a cascade (a refusal at any of its calls, a signer that raises, a notice that the
  -- lint refuses, a crash of the parse), for every grant the operation has stored its revoked event and
  -- the record of the notice that it owes, or neither, where it had both or neither of each before. The
  -- digest of the ids has no collisions.
  pub execute_revocation_cascade-Paired :
      (w : World V)
      → Paired r w.gateway
      → Paired r (world_of (execute_revocation_cascade r w)).gateway
  unfolding execute_revocation_cascade terminate_grants
  execute_revocation_cascade-Paired w h =
      next-Keeps (Paired r) (read_log r w)
        (λ log u. next (terminate_grants r log u) (λ t u.
          next (deliver_pending_notices r u) (λ receipts. done (cascade_result r t receipts))))
        (read_log-Keeps w h)
        (λ log u k.
          next-Keeps (Paired r) (terminate_grants r log u)
            (λ t u.
              next (deliver_pending_notices r u) (λ receipts. done (cascade_result r t receipts)))
            (terminate_all-Keeps 0 log _ _ u k)
            (λ t u k.
              next-Keeps (Paired r) (deliver_pending_notices r u)
                (λ receipts. done (cascade_result r t receipts)) (deliver_pending_notices-Keeps u k)
                (λ receipts u k. k)))
