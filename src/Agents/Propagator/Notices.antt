-- ===== src/Agents/Propagator/Notices.antt =====
-- src/agents/revocation_propagator.py: the delivery of the notices that an operation owes.
use hodi.Prelude.{ℕ, suc, String, Option, none, some, List, [], ◌∷◌, string_eq, map}
use hodi.Prelude.Tables.{get}
use hodi.Prelude.Sort.{sort_by}
use hodi.Prelude.TextOrder.{text_le}
use hodi.Schema.Vocabulary.{use_type_eq}
use hodi.Schema.Revocation.{RevocationNotice, RevocationReceipt, NoticeOutboxRecord}
use hodi.Gateway.Denial.{Dynamic, Dict, Reply, returned, raised, already_exists}
use hodi.Gateway.Documents.{Write, read_collection, write_document}
use hodi.Agents.Propagator.Calls.{
  World, gateway_error, validation_error, signing_error, key_error, Outcome, done, failed, Step,
  ◌>>=◌, ◌>>◌, pure, or_raise, call,
}
use hodi.Agents.Propagator.{Run, sa, col, effect_id}

module _ {V : Type 0} ⦃d : Dynamic V⦄ (r : Run V) where
  abbrev pub notice_of : NoticeOutboxRecord → RevocationNotice
  notice_of owed = record {
    grant_id = owed.grant_id;
    counterparty_id = owed.counterparty_id;
    revoked_at = owed.revoked_at;
    notice_text = owed.notice_text;
  }

  abbrev pub receipt_of : NoticeOutboxRecord → RevocationReceipt
  receipt_of owed = record {
    revocation_id = effect_id r owed.grant_id "receipt";
    grant_id = owed.grant_id;
    counterparty_id = owed.counterparty_id;
    revoked_at = owed.revoked_at;
    signature = "";
  }

  abbrev pub with_signature : RevocationReceipt → Option String → Option RevocationReceipt
  with_signature receipt none = none
  with_signature receipt (some signature) = some (record receipt { signature = signature })

  -- `sign_pydantic(receipt, kind="revocation_receipt", reference=record.grant_id)`
  abbrev pub signed : ℕ → RevocationReceipt → Option RevocationReceipt
  signed n receipt =
      with_signature receipt (r.clock.sign_receipt n "revocation_receipt" receipt.grant_id receipt)

  abbrev pub notice_write : NoticeOutboxRecord → Write V
  notice_write owed = record {
    collection = col r.agent "revocation_notices";
    doc_id = effect_id r owed.grant_id "notice";
    fields = r.services.dump_notice (notice_of owed);
  }

  -- `except DocumentAlreadyExists: pass`
  abbrev pub unless_delivered : World V → Reply V Unit → Outcome V Unit
  unless_delivered w (returned a g) = done tt (record w { gateway = g })
  unless_delivered w (raised (already_exists collection doc_id) g) =
      done tt (record w { gateway = g })
  unless_delivered w (raised e g) = failed (gateway_error e) (record w { gateway = g })

  unfoldable pub deliver : ℕ → NoticeOutboxRecord → Step V Unit
  unfolding write_document
  deliver n owed w = unless_delivered w (
      write_document (r.clock.delivering n) (sa r.agent) r.agent.role (notice_write owed)
        r.op.lease_id none w.gateway)

  -- The loop over the sorted rows, each decoded when its turn comes.
  unfoldable pub deliver_all : ℕ → List (Dict V) → Step V (List RevocationReceipt)
  unfolding deliver
  deliver_all n [] = pure []
  deliver_all n (row ∷ rows) = do
    owed ← or_raise validation_error (r.services.outbox_record.parse row)
    deliver n owed
    receipt ← or_raise signing_error (signed n (receipt_of owed))
    receipts ← deliver_all (suc n) rows
    pure (receipt ∷ receipts)

  abbrev pub keyed_row :
      Dict V → Option V → Option (List (String × Dict V)) → Option (List (String × Dict V))
  keyed_row row none found = none
  keyed_row row (some key) none = none
  keyed_row row (some key) (some found) = some ((r.services.as_text key, row) ∷ found)

  -- `r["grant_id"]` of each row, beside the row.
  unfoldable pub keyed : List (Dict V) → Option (List (String × Dict V))
  unfolding get
  keyed [] = some []
  keyed (row ∷ rows) = keyed_row row (get "grant_id" row) (keyed rows)

  -- sorted(outbox_rows, key=lambda r: r["grant_id"])
  unfoldable pub sorted_rows : List (String × Dict V) → List (Dict V)
  unfolding sort_by text_le
  sorted_rows rows = map (λ r. r.1) (sort_by (λ a b. text_le a.0 b.0) rows)

  unfoldable pub deliver_pending_notices : Step V (List RevocationReceipt)
  unfolding read_collection keyed sorted_rows deliver_all
  deliver_pending_notices = do
    outbox_rows ← call (
        read_collection r.clock.reading_outbox (sa r.agent) r.agent.role
          (col r.agent "revocation_outbox") (some (("operation_id", d.text r.op.operation_id) ∷ []))
          none none)
    rows ← or_raise key_error (keyed outbox_rows)
    deliver_all 0 (sorted_rows rows)
