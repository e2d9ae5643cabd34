-- ===== src/Agents/Propagator/Delivery.antt =====
-- The second phase of the cascade of src/agents/revocation_propagator.py: every notice owed is delivered,
-- and delivering again changes nothing.
use mathlib.Core.Path.{subst}
use hodi.Prelude.{
  ℕ, suc, String, ◌≡◌, refl, sym, ap, ◌∙◌, inl, inr, false, Option, none, some, List, [], ◌∷◌, ◌++◌,
  map, ◌==◌, string_eq, In, here, there, In-cons, eq_of_some,
}
use hodi.Prelude.Tables.{get, set_item, get-set_item_other}
use hodi.Schema.Revocation.{NoticeOutboxRecord, RevocationReceipt}
use hodi.Gateway.Denial.{
  Dynamic, Dict, Gateway, Reply, returned, raised, state_of, policy_denial, already_exists,
  attribute_error,
}
use hodi.Gateway.Policy.Audit.{Audited}
use hodi.Gateway.Documents.{Write, put, bucket, or_empty, write_document}
use hodi.Gateway.Documents.Appends.{document}
use hodi.Gateway.Documents.Reads.{stored}
use hodi.Gateway.Documents.Commits.{
  Unrecorded, write_document-Audited, write_document-Committed, write_document-keeps,
}
use hodi.Gateway.Documents.Clashes.{IsTaken, write_document-IsTaken}
use hodi.Agents.Propagator.Calls.{
  World, Outcome, done, failed, or_raise, signing_error, validation_error,
}
use hodi.Agents.Propagator.{Run, sa, col}
use hodi.Agents.Propagator.Notices.{
  notice_write, unless_delivered, deliver, deliver_all, signed, receipt_of, with_signature,
}
use hodi.Agents.Propagator.Inversion.{done-injective, next-done, or_raise-done}
use hodi.Agents.Propagator.Keeps.{SameDocuments}
use hodi.Agents.Propagator.Pairs.{col-differ}

module _ {V : Type 0} ⦃d : Dynamic V⦄ where
  -- Every stored document is still stored, as it was.
  abbrev pub Extends : Gateway V → Gateway V → Type 0
  Extends g h =
      (collection doc_id : String) (doc : Dict V)
      → document collection doc_id g ≡ some doc
      → document collection doc_id h ≡ some doc

  pub stored-put :
      (collection : String) (w : Write V) (g : Gateway V)
      → (collection == w.collection) ≡ false
      → stored collection (put w g) ≡ stored collection g
  unfolding put bucket
  stored-put collection w g h =
      ap (λ t. or_empty (get collection g.offline_reads) ++ map (λ entry. entry.1) (or_empty t))
        (get-set_item_other collection w.collection
          (set_item w.doc_id w.fields (bucket w.collection g)) g.offline_writes h)

-- A receipt up to its signature.
abbrev pub unsigned : RevocationReceipt → RevocationReceipt
unsigned receipt = record receipt { signature = "" }

module _ {V : Type 0} ⦃d : Dynamic V⦄ (r : Run V) where
  -- The notice of the record stands under its id.
  abbrev pub IsDelivered : NoticeOutboxRecord → Gateway V → Type 0
  IsDelivered owed g = IsTaken (notice_write r owed) g

  -- The other collections of the namespace hold the same documents.
  abbrev pub SameOthers : Gateway V → Gateway V → Type 0
  SameOthers g h =
      (name : String)
      → (name == "revocation_notices") ≡ false
      → stored (col r.agent name) h ≡ stored (col r.agent name) g

  record Delivery (owed : NoticeOutboxRecord) (g h : Gateway V) : Type 0 where
    delivered : IsDelivered owed h
    extends : Extends g h
    others : SameOthers g h
    again : IsDelivered owed g → SameDocuments g h

  same-Delivery :
      (owed : NoticeOutboxRecord) (g h : Gateway V) → h ≡ g → IsDelivered owed g → Delivery owed g h
  same-Delivery owed g h e there_ = record {
    delivered = subst (IsDelivered owed) (sym e) there_;
    extends = λ c i doc k. subst (λ u. document c i u ≡ some doc) (sym e) k;
    others = λ name k. ap (stored (col r.agent name)) e;
    again = λ k. ap (λ (u : Gateway V). u.offline_writes) e;
  }

  unless_delivered-gateway :
      (w v : World V) (g : Gateway V)
      → ◌≡◌ {A = Outcome V Unit} (done tt (record w { gateway = g })) (done tt v)
      → v.gateway ≡ g
  unless_delivered-gateway w v g e = ap gateway_of (sym e)
    where
      gateway_of : Outcome V Unit → Gateway V
      gateway_of (done a u) = u.gateway
      gateway_of (failed x u) = u.gateway

  deliver-Delivery :
      (n : ℕ) (owed : NoticeOutboxRecord) (w v : World V) (a : Unit)
      → deliver r n owed w ≡ done a v
      → Delivery owed w.gateway v.gateway
  unfolding deliver
  deliver-Delivery n owed w v a =
      cases
        (write_document (r.clock.delivering n) (sa r.agent) r.agent.role (notice_write r owed)
          r.op.lease_id none w.gateway)
        refl
        (write_document-Audited (r.clock.delivering n) (sa r.agent) r.agent.role
          (notice_write r owed) r.op.lease_id none w.gateway)
    where
      cases :
          (o : Reply V Unit)
          → write_document
              (r.clock.delivering n)
              (sa r.agent)
              r.agent.role
              (notice_write r owed)
              r.op.lease_id
              none
              w.gateway
            ≡ o
          → Audited (Unrecorded w.gateway) w.gateway o
          → unless_delivered r w o ≡ done a v
          → Delivery owed w.gateway v.gateway
      cases (returned b g) e k h =
          let (made, placed) =
            write_document-Committed (r.clock.delivering n) (sa r.agent) r.agent.role
              (notice_write r owed) r.op.lease_id none w.gateway g b e in
          subst (Delivery owed w.gateway) (sym (unless_delivered-gateway w v g h)) (record {
            delivered = (r.services.dump_notice _, placed);
            extends = λ c i doc k.
                subst (λ (o : Reply V Unit). document c i (state_of o) ≡ some doc) e
                  (write_document-keeps (r.clock.delivering n) (sa r.agent) r.agent.role
                    (notice_write r owed) r.op.lease_id none w.gateway c i doc k);
            others = λ name k.
                ap (stored (col r.agent name)) made.added
                ∙ stored-put (col r.agent name) (notice_write r owed) w.gateway
                    (col-differ r.agent name "revocation_notices" k);
            again = λ taken. let clash = made.free in absurd (cc (taken.1));
          })
      cases (raised (already_exists c i) g) e k h =
          same-Delivery owed w.gateway v.gateway (unless_delivered-gateway w v g h ∙ k) (
            write_document-IsTaken (r.clock.delivering n) (sa r.agent) r.agent.role
              (notice_write r owed) r.op.lease_id none w.gateway g c i e)
      cases (raised (policy_denial x) g) e k h = absurd (cc)
      cases (raised attribute_error g) e k h = absurd (cc)

  abbrev pub receipt_before :
      Option NoticeOutboxRecord → Option (List RevocationReceipt) → Option (List RevocationReceipt)
  receipt_before (some owed) (some receipts) = some (receipt_of r owed ∷ receipts)
  receipt_before _ _ = none

  -- The receipts of the rows before they are signed, in this order.
  unfoldable pub receipts_of : List (Dict V) → Option (List RevocationReceipt)
  receipts_of [] = some []
  receipts_of (row ∷ rows) = receipt_before (r.services.outbox_record.parse row) (receipts_of rows)

  signed-unsigned :
      (n : ℕ) (receipt x : RevocationReceipt)
      → receipt ≡ unsigned receipt
      → signed r n receipt ≡ some x
      → unsigned x ≡ receipt
  signed-unsigned n receipt x bare =
      cases (r.clock.sign_receipt n "revocation_receipt" receipt.grant_id receipt)
    where
      cases :
          (signature : Option String)
          → with_signature r receipt signature ≡ some x
          → unsigned x ≡ receipt
      cases none e = absurd (cc)
      cases (some signature) e = ap unsigned (sym (eq_of_some e)) ∙ sym bare

  pub record Deliveries (rows : List (Dict V)) (receipts : List RevocationReceipt) (g h : Gateway V)
      : Type 0 where
    pub delivered :
        (row : Dict V) (owed : NoticeOutboxRecord)
        → In row rows
        → r.services.outbox_record.parse row ≡ some owed
        → IsDelivered owed h
    pub extends : Extends g h
    pub others : SameOthers g h
    pub again :
        ((row : Dict V) (owed : NoticeOutboxRecord)
          → In row rows
          → r.services.outbox_record.parse row ≡ some owed
          → IsDelivered owed g)
        → SameDocuments g h
    pub signs : receipts_of rows ≡ some (map unsigned receipts)

  Deliveries-cons :
      (row : Dict V) (rows : List (Dict V)) (owed : NoticeOutboxRecord) (x : RevocationReceipt)
      (receipts : List RevocationReceipt) (g u h : Gateway V)
      → r.services.outbox_record.parse row ≡ some owed
      → unsigned x ≡ receipt_of r owed
      → Delivery owed g u
      → Deliveries rows receipts u h
      → Deliveries (row ∷ rows) (x ∷ receipts) g h
  unfolding receipts_of
  Deliveries-cons row rows owed x receipts g u h parsed signs first later = record {
    delivered = λ y o m k. elim (In-cons m) [
      | inl e ↦
          let same : o ≡ owed = eq_of_some (sym k ∙ ap r.services.outbox_record.parse e ∙ parsed) in
          let (doc, placed) = first.delivered in
          subst (λ o. IsDelivered o h) (sym same) (doc, later.extends _ _ doc placed)
      | inr i ↦ later.delivered y o i k
    ];
    extends = λ c i doc k. later.extends c i doc (first.extends c i doc k);
    others = λ name k. later.others name k ∙ first.others name k;
    again = λ all.
        later.again (λ y o m k.
          let (doc, placed) = all y o (there m) k in (doc, first.extends _ _ doc placed))
        ∙ first.again (all row owed (here refl) parsed);
    signs = rw (parsed, later.signs, signs) refl;
  }

  Deliveries-nil :
      (w v : World V) (receipts : List RevocationReceipt)
      → done [] w ≡ done receipts v
      → Deliveries [] receipts w.gateway v.gateway
  unfolding receipts_of
  Deliveries-nil w v receipts e =
      let (none_sent, unmoved) = done-injective e in
      let same : v.gateway ≡ w.gateway = ap (λ (u : World V). u.gateway) (sym unmoved) in
      record {
        delivered = λ row owed m k. elim m [ ];
        extends = λ c i doc k. subst (λ u. document c i u ≡ some doc) (sym same) k;
        others = λ name k. ap (stored (col r.agent name)) same;
        again = λ k. ap (λ (u : Gateway V). u.offline_writes) same;
        signs = ap (λ l. some (map unsigned l)) none_sent;
      }

  pub deliver_all-Deliveries :
      (n : ℕ) (rows : List (Dict V)) (w v : World V) (receipts : List RevocationReceipt)
      → deliver_all r n rows w ≡ done receipts v
      → Deliveries rows receipts w.gateway v.gateway
  unfolding deliver_all receipts_of
  deliver_all-Deliveries n [] w v receipts e = Deliveries-nil w v receipts e
  deliver_all-Deliveries n (row ∷ rows) w v receipts e =
      let parsed =
        next-done (or_raise validation_error (r.services.outbox_record.parse row) w) _ e in
      let (known, same) =
        or_raise-done validation_error (r.services.outbox_record.parse row) w parsed.2 in
      let owed = parsed.0 in
      let sent = next-done (deliver r n owed parsed.1) _ parsed.3 in
      let first = deliver-Delivery n owed parsed.1 sent.1 sent.0 sent.2 in
      let stamped =
        next-done (or_raise signing_error (signed r n (receipt_of r owed)) sent.1) _ sent.3 in
      let (named, kept) =
        or_raise-done signing_error (signed r n (receipt_of r owed)) sent.1 stamped.2 in
      let rest = next-done (deliver_all r (suc n) rows stamped.1) _ stamped.3 in
      let later = deliver_all-Deliveries (suc n) rows stamped.1 rest.1 rest.0 rest.2 in
      let (all_of, ended) = done-injective rest.3 in
      subst (λ l. Deliveries (row ∷ rows) l w.gateway v.gateway) all_of
        (subst (λ (z : World V). Deliveries (row ∷ rows) (stamped.0 ∷ rest.0) w.gateway z.gateway)
          ended
          (Deliveries-cons row rows owed stamped.0 rest.0 w.gateway sent.1.gateway rest.1.gateway
            known (signed-unsigned n (receipt_of r owed) stamped.0 refl named)
            (subst (λ (z : World V). Delivery owed z.gateway sent.1.gateway) same first)
            (subst (λ (z : World V). Deliveries rows rest.0 z.gateway rest.1.gateway) kept later)))
