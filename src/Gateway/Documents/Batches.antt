-- ===== src/Gateway/Documents/Batches.antt =====
-- `write_documents_atomic` of src/gateway/gateway.py: what a batch leaves, returned or raised.
use mathlib.Core.Path.{subst}
use hodi.Prelude.{
  String, ◌≡◌, ◌≤◌, refl, sym, ap, ◌∙◌, inl, inr, Option, none, some, List, [], ◌∷◌, Bool-cases, In,
  In-cons, length, ltb, ltb→ge,
}
use hodi.Gateway.Denial.{
  Dynamic, Dict, Gateway, Ambient, returned, raised, returned-after, state_of,
}
use hodi.Gateway.Policy.{enforce, enforce_lease, deny}
use hodi.Gateway.Policy.Audit.{
  Audited, Audited-after, Checked, Checked-returned, enforce-Checked, enforce_lease-Checked,
}
use hodi.Gateway.Policy.Access.{Admitted, UnderLease, enforce-returned, enforce_lease-returned}
use hodi.Gateway.Documents.{
  Write, put, put_all, check_free, is_some, enforce_all, databases, enforce_one_database,
  write_documents_atomic,
}
use hodi.Gateway.Documents.Appends.{
  document, document-put_all, AllApart, put_all-document, check_free-returned,
}
use hodi.Gateway.Documents.Commits.{Unrecorded, document-of_Audited}

module _ {V : Type 0} ⦃d : Dynamic V⦄ where
  pub enforce_all-Checked :
      (env : Ambient) (calling_sa calling_role_key : String) (lease_id : Option String)
      (writes : List (Write V)) (g : Gateway V)
      → Checked g (enforce_all env calling_sa calling_role_key lease_id writes g)
  unfolding enforce_all
  enforce_all-Checked env calling_sa calling_role_key lease_id [] g = refl
  enforce_all-Checked env calling_sa calling_role_key lease_id (w ∷ rest) g =
      Audited-after (λ h. h ≡ g) g
        (enforce env calling_sa calling_role_key w.collection none none none g) _
        (enforce-Checked env calling_sa calling_role_key w.collection none none none g)
        (λ a.
          Audited-after (λ h. h ≡ g) g
            (enforce_lease env calling_sa calling_role_key w.collection lease_id g) _
            (enforce_lease-Checked env calling_sa calling_role_key w.collection lease_id g)
            (λ b. enforce_all-Checked env calling_sa calling_role_key lease_id rest g))

  enforce_all-returned :
      (env : Ambient) (calling_sa calling_role_key : String) (lease_id : Option String)
      (writes : List (Write V)) (g h : Gateway V) (a : Unit)
      → enforce_all env calling_sa calling_role_key lease_id writes g ≡ returned a h
      → (w : Write V) → In w writes
      → Admitted {V = V} env calling_sa calling_role_key w.collection none none none
        × UnderLease env g.lease_ledger lease_id
  unfolding enforce_all
  enforce_all-returned env calling_sa calling_role_key lease_id [] g h a e w m = elim m [ ]
  enforce_all-returned env calling_sa calling_role_key lease_id (x ∷ rest) g h a e w m =
      let first =
        returned-after (enforce env calling_sa calling_role_key x.collection none none none g) _
          e in
      let who =
        enforce-returned env calling_sa calling_role_key x.collection none none none g first.1
          first.0 first.2 in
      let second =
        returned-after (enforce_lease env calling_sa calling_role_key x.collection lease_id first.1)
          _ first.3 in
      let lease =
        enforce_lease-returned env calling_sa calling_role_key x.collection lease_id first.1
          second.1 second.0 second.2 in
      elim (In-cons m) [
        | inl q ↦ (
          subst (λ u. Admitted {V = V} env calling_sa calling_role_key u.collection none none none)
              (sym q) who.1,
          subst (λ u. UnderLease env u.lease_ledger lease_id) who.0 lease.1,
        )
        | inr i ↦
            enforce_all-returned env calling_sa calling_role_key lease_id rest g h a
              (subst
                (λ u. enforce_all env calling_sa calling_role_key lease_id rest u ≡ returned a h)
                (lease.0 ∙ who.0) second.3)
              w i
      ]

  pub enforce_one_database-Checked :
      (env : Ambient) (calling_sa calling_role_key : String) (writes : List (Write V))
      (g : Gateway V)
      → Checked g (enforce_one_database env calling_sa calling_role_key writes g)
  unfolding enforce_one_database deny
  enforce_one_database-Checked env calling_sa calling_role_key writes g =
      elim (Bool-cases (ltb 1 (length (databases calling_role_key writes)))) [
        | inl h ↦ rw h refl
        | inr h ↦ rw h refl
      ]

  enforce_one_database-returned :
      (env : Ambient) (calling_sa calling_role_key : String) (writes : List (Write V))
      (g h : Gateway V) (a : Unit)
      → enforce_one_database env calling_sa calling_role_key writes g ≡ returned a h
      → length (databases calling_role_key writes) ≤ 1
  unfolding enforce_one_database deny
  enforce_one_database-returned env calling_sa calling_role_key writes g h a e =
      elim (Bool-cases (ltb 1 (length (databases calling_role_key writes)))) [
        | inl k ↦ let q : raised _ _ ≡ returned a h = rw k at e in absurd (cc)
        | inr k ↦ ltb→ge 1 (length (databases calling_role_key writes)) k
      ]

  pub check_free-Checked :
      (writes : List (Write V)) (g : Gateway V) → Checked g (check_free writes g)
  unfolding check_free
  check_free-Checked [] g = refl
  check_free-Checked (w ∷ rest) g = elim (Bool-cases (is_some (document w.collection w.doc_id g))) [
    | inl h ↦ rw h refl
    | inr h ↦ rw h (check_free-Checked rest g)
  ]

  put_all-Unrecorded :
      (writes : List (Write V)) (g : Gateway V) → (put_all writes g).denial_events ≡ g.denial_events
  unfolding put_all put
  put_all-Unrecorded [] g = refl
  put_all-Unrecorded (w ∷ rest) g = put_all-Unrecorded rest (put w g)

  -- None of a batch that raises: no document has changed, and a denial that it raises is recorded.
  pub write_documents_atomic-Audited :
      (env : Ambient) (calling_sa calling_role_key : String) (writes : List (Write V))
      (lease_id : Option String) (g : Gateway V)
      → Audited
          (Unrecorded g)
          g
          (write_documents_atomic env calling_sa calling_role_key writes lease_id g)
  unfolding write_documents_atomic
  write_documents_atomic-Audited env calling_sa calling_role_key writes lease_id g =
      Audited-after (Unrecorded g) g (enforce_all env calling_sa calling_role_key lease_id writes g)
        _ (enforce_all-Checked env calling_sa calling_role_key lease_id writes g)
        (λ a.
          Audited-after (Unrecorded g) g
            (enforce_one_database env calling_sa calling_role_key writes g) _
            (enforce_one_database-Checked env calling_sa calling_role_key writes g)
            (λ b.
              Audited-after (Unrecorded g) g (check_free writes g) _ (check_free-Checked writes g)
                (λ c. put_all-Unrecorded writes g)))

  pub record BatchCommitted (env : Ambient) (calling_sa calling_role_key : String)
      (writes : List (Write V)) (lease_id : Option String) (g h : Gateway V) : Type 0 where
    pub admitted :
        (w : Write V)
        → In w writes
        → Admitted {V = V} env calling_sa calling_role_key w.collection none none none
    pub leased : (w : Write V) → In w writes → UnderLease env g.lease_ledger lease_id
    pub one_database : length (databases calling_role_key writes) ≤ 1
    pub free : (w : Write V) → In w writes → document w.collection w.doc_id g ≡ none
    pub made : h ≡ put_all writes g
    pub kept :
        (collection doc_id : String) (doc : Dict V)
        → document collection doc_id g ≡ some doc
        → document collection doc_id h ≡ some doc
    pub added :
        AllApart writes
        → (w : Write V) → In w writes
        → document w.collection w.doc_id h ≡ some w.fields

  -- All of a batch that returns: each write was admitted, under the lease, for a free id of the one database,
  -- and the documents are stored where no two writes share an id.
  pub write_documents_atomic-BatchCommitted :
      (env : Ambient) (calling_sa calling_role_key : String) (writes : List (Write V))
      (lease_id : Option String) (g h : Gateway V) (a : Unit)
      → write_documents_atomic env calling_sa calling_role_key writes lease_id g ≡ returned a h
      → BatchCommitted env calling_sa calling_role_key writes lease_id g h
  unfolding write_documents_atomic
  write_documents_atomic-BatchCommitted env calling_sa calling_role_key writes lease_id g h a e =
      let first =
        returned-after (enforce_all env calling_sa calling_role_key lease_id writes g) _ e in
      let same_first =
        Checked-returned g first.1 _
          (enforce_all-Checked env calling_sa calling_role_key lease_id writes g) first.2 in
      let second =
        returned-after (enforce_one_database env calling_sa calling_role_key writes first.1) _
          first.3 in
      let same_second =
        Checked-returned first.1 second.1 _
          (enforce_one_database-Checked env calling_sa calling_role_key writes first.1) second.2 in
      let third = returned-after (check_free writes second.1) _ second.3 in
      let empty = check_free-returned writes second.1 third.1 third.0 third.2 in
      let same = same_second ∙ same_first in
      let free =
        subst (λ u. (w : Write V) → In w writes → document w.collection w.doc_id u ≡ none) same
          empty.1 in
      let made : h ≡ put_all writes g = stored third.1 (empty.0 ∙ same) third.3 in
      let passed =
        enforce_all-returned env calling_sa calling_role_key lease_id writes g first.1 first.0
          first.2 in
      record {
        admitted = λ w m. (passed w m).0;
        leased = λ w m. (passed w m).1;
        one_database =
            enforce_one_database-returned env calling_sa calling_role_key writes first.1 second.1
              second.0 second.2;
        free = free;
        made = made;
        kept = λ collection doc_id doc k.
            ap (document collection doc_id) made
            ∙ document-put_all collection doc_id doc writes g free k;
        added = λ apart w m.
            ap (document w.collection w.doc_id) made ∙ put_all-document writes w g apart m;
      }
    where
      stored :
          (u : Gateway V)
          → u ≡ g
          → returned tt (put_all writes u) ≡ returned a h
          → h ≡ put_all writes g
      stored u k e = cc

  -- A stored document is never changed or removed by a batch, whether the batch commits or not.
  pub write_documents_atomic-keeps :
      (env : Ambient) (calling_sa calling_role_key : String) (writes : List (Write V))
      (lease_id : Option String) (g : Gateway V) (collection doc_id : String) (doc : Dict V)
      → document collection doc_id g ≡ some doc
      → document collection doc_id
          (state_of (write_documents_atomic env calling_sa calling_role_key writes lease_id g))
        ≡ some doc
  write_documents_atomic-keeps env calling_sa calling_role_key writes lease_id g collection doc_id
        doc e =
      document-of_Audited (Unrecorded g) collection doc_id doc g
        (write_documents_atomic env calling_sa calling_role_key writes lease_id g)
        (write_documents_atomic-Audited env calling_sa calling_role_key writes lease_id g) e
        (λ a h r.
          (write_documents_atomic-BatchCommitted env calling_sa calling_role_key writes lease_id g h
              a r).kept
            collection doc_id doc e)
