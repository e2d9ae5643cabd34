-- ===== src/Agents/Propagator/Once.antt =====
-- The second phase of the cascade of src/agents/revocation_propagator.py, run twice: as a retry runs it.
use mathlib.Core.Path.{subst}
use hodi.Prelude.{
  String, ◌≡◌, refl, sym, ap, ◌∙◌, inl, inr, Option, none, some, List, [], ◌∷◌, map, In, here,
  there, In-cons, eq_of_some,
}
use hodi.Prelude.Tables.{get}
use hodi.Prelude.Sort.{sort_by, sort_by-In}
use hodi.Prelude.TextOrder.{text_le}
use hodi.Schema.Revocation.{NoticeOutboxRecord, RevocationReceipt}
use hodi.Gateway.Denial.{Dynamic, Dict, Gateway}
use hodi.Gateway.Policy.Audit.{Checked-returned}
use hodi.Gateway.Documents.{selected, read_collection}
use hodi.Gateway.Documents.Reads.{stored, read_collection-returned, read_collection-Audited}
use hodi.Agents.Propagator.Calls.{Clock, World, done, or_raise, call, key_error}
use hodi.Agents.Propagator.{Run, sa, col}
use hodi.Agents.Propagator.Notices.{keyed, keyed_row, sorted_rows, deliver_pending_notices}
use hodi.Agents.Propagator.Inversion.{next-done, or_raise-done, answer-done}
use hodi.Agents.Propagator.Keeps.{SameDocuments}
use hodi.Agents.Propagator.Delivery.{
  IsDelivered, Deliveries, deliver_all-Deliveries, receipts_of, receipt_before, unsigned,
}

In-map_snd {ℓ} :
    {A : Type ℓ} (key : String) (x : A) (l : List (String × A))
    → In (key, x) l
    → In x (map (λ p. p.1) l)
In-map_snd key x [] m = elim m [ ]
In-map_snd key x (p ∷ l) (here e) = here (ap (λ q. q.1) e)
In-map_snd key x (p ∷ l) (there m) = there (In-map_snd key x l m)

module _ {V : Type 0} ⦃d : Dynamic V⦄ (r : Run V) where
  -- The rows of the outbox that the operation filters.
  abbrev pub pending : Gateway V → List (Dict V)
  pending g =
      selected (some (("operation_id", d.text r.op.operation_id) ∷ []))
        (stored (col r.agent "revocation_outbox") g)

  keyed_row-some :
      (row : Dict V) (key : Option V) (found : Option (List (String × Dict V)))
      (ks : List (String × Dict V))
      → keyed_row r row key found ≡ some ks
      → (k : String) × (later : List (String × Dict V)) × (found ≡ some later)
        × (ks ≡ (k, row) ∷ later)
  keyed_row-some row none found ks e = absurd (cc)
  keyed_row-some row (some key) none ks e = absurd (cc)
  keyed_row-some row (some key) (some later) ks e =
      (r.services.as_text key, later, refl, sym (eq_of_some e))

  keyed-In :
      (row : Dict V) (rows : List (Dict V)) (ks : List (String × Dict V))
      → keyed r rows ≡ some ks
      → In row rows
      → (key : String) × In (key, row) ks
  unfolding keyed
  keyed-In row (x ∷ rows) ks e m =
      let (k, later, found, made) = keyed_row-some x (get "grant_id" x) (keyed r rows) ks e in
      elim (In-cons m) [
        | inl same ↦ (k, subst (In (k, row)) (sym made) (here (ap (λ y. (k, y)) same)))
        | inr i ↦
            let (key, j) = keyed-In row rows later found i in
            (key, subst (In (key, row)) (sym made) (there j))
      ]
  keyed-In row [] ks e m = elim m [ ]

  sorted_rows-In :
      (row : Dict V) (rows : List (Dict V)) (ks : List (String × Dict V))
      → keyed r rows ≡ some ks
      → In row rows
      → In row (sorted_rows r ks)
  unfolding sorted_rows
  sorted_rows-In row rows ks e m =
      let (key, i) = keyed-In row rows ks e m in
      In-map_snd key row (sort_by (λ a b. text_le a.0 b.0) ks)
        (sort_by-In (λ a b. text_le a.0 b.0) (key, row) ks i)

  pub pending-Deliveries :
      (w v : World V) (receipts : List RevocationReceipt)
      → deliver_pending_notices r w ≡ done receipts v
      → (ks : List (String × Dict V)) × (keyed r (pending w.gateway) ≡ some ks)
        × Deliveries r (sorted_rows r ks) receipts w.gateway v.gateway
  unfolding deliver_pending_notices
  pending-Deliveries w v receipts e =
      let read =
        next-done
          (call
            (read_collection r.clock.reading_outbox (sa r.agent) r.agent.role
              (col r.agent "revocation_outbox")
              (some (("operation_id", d.text r.op.operation_id) ∷ [])) none none)
            w)
          _ e in
      let found = answer-done _ w read.2 in
      let docs =
        (read_collection-returned r.clock.reading_outbox (sa r.agent) r.agent.role
          (col r.agent "revocation_outbox") (some (("operation_id", d.text r.op.operation_id) ∷ []))
          none none w.gateway found.0 read.0 found.1).1 in
      let unchanged : found.0 ≡ w.gateway =
        Checked-returned w.gateway found.0 _
          (read_collection-Audited r.clock.reading_outbox (sa r.agent) r.agent.role
            (col r.agent "revocation_outbox")
            (some (("operation_id", d.text r.op.operation_id) ∷ [])) none none w.gateway)
          found.1 in
      let named = next-done (or_raise key_error (keyed r read.0) read.1) _ read.3 in
      let (known, kept) = or_raise-done key_error (keyed r read.0) read.1 named.2 in
      let all = deliver_all-Deliveries r 0 (sorted_rows r named.0) named.1 v receipts named.3 in
      (
        named.0,
        subst (λ rows. keyed r rows ≡ some named.0) docs known,
        subst (λ g. Deliveries r (sorted_rows r named.0) receipts g v.gateway)
            (ap (λ (z : World V). z.gateway) (kept ∙ found.2) ∙ unchanged) all,
      )

  -- The same operation on another clock, and with its signatures: a retry.
  abbrev pub at_clock : Clock → Run V
  at_clock clock = record r { clock = clock }

  keyed-at_clock :
      (clock : Clock) (rows : List (Dict V)) → keyed (at_clock clock) rows ≡ keyed r rows
  unfolding keyed
  keyed-at_clock clock [] = refl
  keyed-at_clock clock (row ∷ rows) =
      ap (keyed_row r row (get "grant_id" row)) (keyed-at_clock clock rows)

  receipts_of-at_clock :
      (clock : Clock) (rows : List (Dict V))
      → receipts_of (at_clock clock) rows ≡ receipts_of r rows
  unfolding receipts_of
  receipts_of-at_clock clock [] = refl
  receipts_of-at_clock clock (row ∷ rows) =
      ap (receipt_before r (r.services.outbox_record.parse row)) (receipts_of-at_clock clock rows)

  sorted_rows-at_clock :
      (clock : Clock) (ks : List (String × Dict V))
      → sorted_rows (at_clock clock) ks ≡ sorted_rows r ks
  unfolding sorted_rows
  sorted_rows-at_clock clock ks = refl

module _ {V : Type 0} ⦃d : Dynamic V⦄ (r : Run V) where
  -- A delivery that returns has delivered the notice of every row that the operation has in the outbox;
  -- a second delivery of the operation, at any other time and with any other signatures, that returns too
  -- stores nothing more and answers with the same receipts up to their signatures.
  pub deliver_pending_notices-once :
      (clock : Clock) (w v z : World V) (receipts again : List RevocationReceipt)
      → deliver_pending_notices r w ≡ done receipts v
      → deliver_pending_notices (at_clock r clock) v ≡ done again z
      → ((row : Dict V) (owed : NoticeOutboxRecord)
          → In row (pending r w.gateway)
          → r.services.outbox_record.parse row ≡ some owed
          → IsDelivered r owed v.gateway)
        × SameDocuments v.gateway z.gateway
        × (map unsigned again ≡ map unsigned receipts)
  deliver_pending_notices-once clock w v z receipts again e f =
      let (ks, known, first) = pending-Deliveries r w v receipts e in
      let (js, known', second) = pending-Deliveries (at_clock r clock) v z again f in
      let outbox : pending r v.gateway ≡ pending r w.gateway =
        ap (selected (some (("operation_id", d.text r.op.operation_id) ∷ [])))
          (first.others "revocation_outbox" refl) in
      let same : js ≡ ks =
        eq_of_some (
          sym known'
          ∙ keyed-at_clock r clock (pending r v.gateway)
          ∙ ap (keyed r) outbox
          ∙ known) in
      let rows : sorted_rows (at_clock r clock) js ≡ sorted_rows r ks =
        sorted_rows-at_clock r clock js ∙ ap (sorted_rows r) same in
      (
        λ row owed m k.
            first.delivered row owed (sorted_rows-In r row (pending r w.gateway) ks known m) k,
        second.again (λ row owed m k. first.delivered row owed (subst (In row) rows m) k),
        eq_of_some (
            sym second.signs
            ∙ ap (receipts_of (at_clock r clock)) rows
            ∙ receipts_of-at_clock r clock (sorted_rows r ks)
            ∙ first.signs),
      )
