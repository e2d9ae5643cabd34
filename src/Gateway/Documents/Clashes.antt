-- ===== src/Gateway/Documents/Clashes.antt =====
-- When a write of src/gateway/gateway.py raises DocumentAlreadyExists: only for a document that is there,
-- since no check of the policy raises it.
use mathlib.Core.Path.{subst}
use hodi.Prelude.{
  String, ◌≡◌, refl, sym, inl, inr, not, ◌&&◌, Option, none, some, Bool-cases, Result, ok, err,
  ◌==◌, string_eq,
}
use hodi.Supervisor.Lease.{LeaseLedger, state, is_active}
use hodi.Gateway.Identity.{CallerIdentity, IdentityError, coerce, is_verified}
use hodi.Gateway.Denial.{
  Dynamic, Dict, Reason, policy_denial, already_exists, attribute_error, Gateway, Ambient, Reply,
  returned, raised, Action, after,
}
use hodi.Gateway.Policy.{
  identify, established, deny, refusal, refuse_for, enforce, enforce_lease_of, enforce_lease,
}
use hodi.Gateway.Policy.Audit.{Checked-returned, enforce-Checked, enforce_lease-Checked}
use hodi.Gateway.Documents.{Write, create, write_document}
use hodi.Gateway.Documents.Appends.{document}

abbrev pub Never : String → String → Type 0
Never collection doc_id = ⊥

module _ {V : Type 0} where
  -- Where the reply is that an id is taken, this holds of the collection and the id.
  abbrev pub Clashes : {A : Type 0} → (String → String → Type 0) → Reply V A → Type 0
  Clashes P (raised (already_exists collection doc_id) h) = P collection doc_id
  Clashes P (raised (policy_denial denial) h) = Unit
  Clashes P (raised attribute_error h) = Unit
  Clashes P (returned a h) = Unit

  pub Clashes-map :
      {A : Type 0} (P Q : Type 0) (o : Reply V A)
      → (P → Q)
      → Clashes (λ c i. P) o
      → Clashes (λ c i. Q) o
  Clashes-map P Q (returned a h) f k = tt
  Clashes-map P Q (raised (policy_denial denial) h) f k = tt
  Clashes-map P Q (raised (already_exists collection doc_id) h) f k = f k
  Clashes-map P Q (raised attribute_error h) f k = tt

  pub Clashes-after :
      {A B : Type 0} (P : String → String → Type 0) (o : Reply V A) (f : A → Action V B)
      → Clashes Never o
      → ((a : A) (h : Gateway V) → o ≡ returned a h → Clashes P (f a h))
      → Clashes P (after o f)
  Clashes-after P (returned a h) f k l = l a h refl
  Clashes-after P (raised (policy_denial denial) h) f k l = tt
  Clashes-after P (raised (already_exists collection doc_id) h) f k l = absurd k
  Clashes-after P (raised attribute_error h) f k l = tt

module _ {V : Type 0} ⦃d : Dynamic V⦄ where
  identify-clash :
      (env : Ambient) (calling_sa role collection : String) (identity : Option CallerIdentity)
      (g : Gateway V)
      → Clashes Never (identify env calling_sa role collection identity g)
  unfolding identify deny
  identify-clash env calling_sa role collection identity g = cases (coerce identity calling_sa role)
    where
      cases :
          (r : Result IdentityError CallerIdentity)
          → Clashes Never (established env calling_sa role collection r g)
      cases (err e) = tt
      cases (ok caller) =
          elim (Bool-cases (env.strict_identity_required && not (is_verified caller))) [
            | inl h ↦ rw h tt
            | inr h ↦ rw h tt
          ]

  refuse_for-clash :
      (env : Ambient) (calling_sa role collection : String)
      (filters session_context : Option (Dict V)) (reason : Option (Reason V)) (g : Gateway V)
      → Clashes Never (refuse_for env calling_sa role collection filters session_context reason g)
  refuse_for-clash env calling_sa role collection filters session_context none g = tt
  refuse_for-clash env calling_sa role collection filters session_context (some reason) g = tt

  pub enforce-clash :
      (env : Ambient) (calling_sa role collection : String) (identity : Option CallerIdentity)
      (g : Gateway V)
      → Clashes Never (enforce env calling_sa role collection none none identity g)
  unfolding enforce
  enforce-clash env calling_sa role collection identity g =
      Clashes-after Never (identify env calling_sa role collection identity g) _
        (identify-clash env calling_sa role collection identity g)
        (λ caller h e.
          refuse_for-clash env caller.service_account caller.role_key collection none none
            (refusal caller.service_account caller.role_key collection none none) h)

  pub enforce_lease-clash :
      (env : Ambient) (calling_sa role collection : String) (lease_id : Option String)
      (g : Gateway V)
      → Clashes Never (enforce_lease env calling_sa role collection lease_id g)
  unfolding enforce_lease_of
  enforce_lease-clash env calling_sa role collection lease_id g = cases g.lease_ledger lease_id
    where
      cases :
          (ledger : Option LeaseLedger) (lease_id : Option String)
          → Clashes Never (enforce_lease_of ledger env calling_sa role collection lease_id g)
      cases none lease_id = tt
      cases (some ledger) none = tt
      cases (some ledger) (some lease_id) = elim (Bool-cases (lease_id == "")) [
        | inl h ↦ rw h tt
        | inr h ↦ elim (Bool-cases (is_active (state lease_id env.now ledger).status)) [
          | inl k ↦ rw (h, k) tt
          | inr k ↦ rw (h, k) tt
        ]
      ]

  -- The gateway has a document under the id that the write would create.
  abbrev pub IsTaken : Write V → Gateway V → Type 0
  IsTaken w g = (doc : Dict V) × (document w.collection w.doc_id g ≡ some doc)

  create-clash :
      (w : Write V) (g : Gateway V) → Clashes (λ collection doc_id. IsTaken w g) (create w g)
  unfolding create
  create-clash w g = cases (document w.collection w.doc_id g) refl
    where
      cases :
          (o : Option (Dict V))
          → document w.collection w.doc_id g ≡ o
          → Clashes (λ collection doc_id. IsTaken w g) (create w g)
      cases none e = rw e tt
      cases (some doc) e = rw e (doc, refl)

  pub clash-raised :
      (P : Type 0) (o : Reply V Unit) (collection doc_id : String) (h : Gateway V)
      → Clashes (λ c i. P) o
      → o ≡ raised (already_exists collection doc_id) h
      → P
  clash-raised P o collection doc_id h k e = subst (Clashes (λ c i. P)) e k

  -- A write that raises DocumentAlreadyExists found the document under its id.
  pub write_document-IsTaken :
      (env : Ambient) (calling_sa role : String) (w : Write V) (lease_id : Option String)
      (identity : Option CallerIdentity) (g h : Gateway V) (collection doc_id : String)
      → write_document env calling_sa role w lease_id identity g
        ≡ raised (already_exists collection doc_id) h
      → IsTaken w g
  unfolding write_document
  write_document-IsTaken env calling_sa role w lease_id identity g h collection doc_id =
      clash-raised (IsTaken w g) _ collection doc_id h (
        Clashes-after (λ c i. IsTaken w g)
          (enforce env calling_sa role w.collection none none identity g) _
          (enforce-clash env calling_sa role w.collection identity g)
          (λ a u e.
            let same =
              Checked-returned g u _
                (enforce-Checked env calling_sa role w.collection none none identity g) e in
            subst
              (λ u.
                Clashes (λ c i. IsTaken w g)
                  (after (enforce_lease env calling_sa role w.collection lease_id u)
                    (λ _. create w)))
              (sym same)
              (Clashes-after (λ c i. IsTaken w g)
                (enforce_lease env calling_sa role w.collection lease_id g) _
                (enforce_lease-clash env calling_sa role w.collection lease_id g)
                (λ b v f.
                  subst (λ u. Clashes (λ c i. IsTaken w g) (create w u))
                    (sym (
                      Checked-returned g v _
                        (enforce_lease-Checked env calling_sa role w.collection lease_id g) f))
                    (create-clash w g)))))
