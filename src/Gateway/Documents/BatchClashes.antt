-- ===== src/Gateway/Documents/BatchClashes.antt =====
-- When a batch of src/gateway/gateway.py raises DocumentAlreadyExists: only for a document that is there.
use mathlib.Core.Path.{subst}
use hodi.Prelude.{
  String, ◌≡◌, refl, sym, inl, inr, Option, none, some, List, [], ◌∷◌, Bool-cases, In, here, there,
  ltb, length,
}
use hodi.Gateway.Denial.{
  Dynamic, Dict, already_exists, policy_denial, attribute_error, Gateway, Ambient, Reply, returned,
  raised, after,
}
use hodi.Gateway.Policy.{enforce, enforce_lease, deny}
use hodi.Gateway.Policy.Audit.{Checked-returned}
use hodi.Gateway.Documents.{
  Write, check_free, put_all, databases, enforce_all, enforce_one_database, write_documents_atomic,
}
use hodi.Gateway.Documents.Appends.{document}
use hodi.Gateway.Documents.Batches.{enforce_all-Checked, enforce_one_database-Checked}
use hodi.Gateway.Documents.Clashes.{
  Clashes, Clashes-map, Never, Clashes-after, enforce-clash, enforce_lease-clash, IsTaken,
  clash-raised,
}

module _ {V : Type 0} ⦃d : Dynamic V⦄ where
  -- One of the writes would create a document that is there.
  abbrev pub AnyTaken : List (Write V) → Gateway V → Type 0
  AnyTaken writes g = (w : Write V) × In w writes × IsTaken w g

  enforce_all-clash :
      (env : Ambient) (calling_sa role : String) (lease_id : Option String)
      (writes : List (Write V)) (g : Gateway V)
      → Clashes Never (enforce_all env calling_sa role lease_id writes g)
  unfolding enforce_all
  enforce_all-clash env calling_sa role lease_id [] g = tt
  enforce_all-clash env calling_sa role lease_id (w ∷ rest) g =
      Clashes-after Never (enforce env calling_sa role w.collection none none none g) _
        (enforce-clash env calling_sa role w.collection none g)
        (λ a u e.
          Clashes-after Never (enforce_lease env calling_sa role w.collection lease_id u) _
            (enforce_lease-clash env calling_sa role w.collection lease_id u)
            (λ b v f. enforce_all-clash env calling_sa role lease_id rest v))

  enforce_one_database-clash :
      (env : Ambient) (calling_sa role : String) (writes : List (Write V)) (g : Gateway V)
      → Clashes Never (enforce_one_database env calling_sa role writes g)
  unfolding enforce_one_database deny
  enforce_one_database-clash env calling_sa role writes g =
      elim (Bool-cases (ltb 1 (length (databases role writes)))) [
        | inl h ↦ rw h tt
        | inr h ↦ rw h tt
      ]

  check_free-clash :
      (writes : List (Write V)) (g : Gateway V)
      → Clashes (λ c i. AnyTaken writes g) (check_free writes g)
  unfolding check_free
  check_free-clash [] g = tt
  check_free-clash (w ∷ rest) g = cases (document w.collection w.doc_id g) refl (
      Clashes-map (AnyTaken rest g) (AnyTaken (w ∷ rest) g) (check_free rest g)
        (λ (x, m, taken). (x, there m, taken)) (check_free-clash rest g))
    where
      cases :
          (o : Option (Dict V))
          → document w.collection w.doc_id g ≡ o
          → Clashes (λ c i. AnyTaken (w ∷ rest) g) (check_free rest g)
          → Clashes (λ c i. AnyTaken (w ∷ rest) g) (check_free (w ∷ rest) g)
      cases none e k = rw e k
      cases (some doc) e k = rw e (w, here refl, (doc, e))

  -- A batch that raises DocumentAlreadyExists found one of its documents there.
  pub write_documents_atomic-AnyTaken :
      (env : Ambient) (calling_sa role : String) (writes : List (Write V))
      (lease_id : Option String) (g h : Gateway V) (collection doc_id : String)
      → write_documents_atomic env calling_sa role writes lease_id g
        ≡ raised (already_exists collection doc_id) h
      → AnyTaken writes g
  unfolding write_documents_atomic
  write_documents_atomic-AnyTaken env calling_sa role writes lease_id g h collection doc_id =
      clash-raised (AnyTaken writes g) _ collection doc_id h (
        Clashes-after (λ c i. AnyTaken writes g) (enforce_all env calling_sa role lease_id writes g)
          _ (enforce_all-clash env calling_sa role lease_id writes g)
          (λ a u e.
            subst
              (λ u.
                Clashes (λ c i. AnyTaken writes g)
                  (after (enforce_one_database env calling_sa role writes u)
                    (λ _ v. after (check_free writes v) (λ _ x. returned tt (put_all writes x)))))
              (sym (
                Checked-returned g u _ (enforce_all-Checked env calling_sa role lease_id writes g)
                  e))
              (Clashes-after (λ c i. AnyTaken writes g)
                (enforce_one_database env calling_sa role writes g) _
                (enforce_one_database-clash env calling_sa role writes g)
                (λ b v f.
                  subst
                    (λ v.
                      Clashes (λ c i. AnyTaken writes g)
                        (after (check_free writes v) (λ _ x. returned tt (put_all writes x))))
                    (sym (
                      Checked-returned g v _
                        (enforce_one_database-Checked env calling_sa role writes g) f))
                    (passed (check_free writes g) (check_free-clash writes g))))))
    where
      passed :
          (o : Reply V Unit)
          → Clashes (λ c i. AnyTaken writes g) o
          → Clashes (λ c i. AnyTaken writes g) (after o (λ _ x. returned tt (put_all writes x)))
      passed (returned a u) k = tt
      passed (raised (already_exists c i) u) k = k
      passed (raised (policy_denial x) u) k = tt
      passed (raised attribute_error u) k = tt
