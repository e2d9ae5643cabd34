-- ===== src/Gateway/Policy/Audit.antt =====
-- The checks of src/gateway/gateway.py, read from the record of denials.
use hodi.Prelude.{
  String, ◌≡◌, refl, sym, inl, inr, not, ◌&&◌, Option, none, some, [], ◌∷◌, ◌++◌, arith, Bool-cases,
  Result, ok, err, ◌==◌, string_eq,
}
use mathlib.Core.Path.{subst}
use hodi.Supervisor.Lease.{LeaseLedger, state, is_active}
use hodi.Gateway.Identity.{CallerIdentity, IdentityError, coerce, is_verified}
use hodi.Gateway.Denial.{
  Dynamic, Dict, Reason, PolicyDenialEvent, policy_denial, already_exists, attribute_error, Gateway,
  Ambient, Reply, returned, raised, Action, after,
}
use hodi.Gateway.Policy.{
  identify, established, deny, refusal, refuse_for, enforce, enforce_lease_of, enforce_lease,
}

module _ {V : Type 0} where
  abbrev pub recorded : PolicyDenialEvent V → Gateway V → Gateway V
  recorded denial g = record g { denial_events = g.denial_events ++ denial ∷ [] }

  -- What a call raises, and the state it leaves.
  abbrev pub Audited : {A : Type 0} → (Gateway V → Type 0) → Gateway V → Reply V A → Type 0
  Audited Kept g (returned a h) = Kept h
  Audited Kept g (raised (policy_denial denial) h) = h ≡ recorded denial g
  Audited Kept g (raised (already_exists collection doc_id) h) = h ≡ g
  Audited Kept g (raised attribute_error h) = h ≡ g

  -- A check changes nothing where it passes.
  abbrev pub Checked : {A : Type 0} → Gateway V → Reply V A → Type 0
  Checked g r = Audited (λ h. h ≡ g) g r

  pub Audited-after :
      {A B : Type 0} (Kept : Gateway V → Type 0) (g : Gateway V) (r : Reply V A)
      (f : A → Action V B)
      → Checked g r
      → ((a : A) → Audited Kept g (f a g))
      → Audited Kept g (after r f)
  Audited-after Kept g (returned a h) f e k = subst (λ u. Audited Kept g (f a u)) (sym e) (k a)
  Audited-after Kept g (raised (policy_denial denial) h) f e k = e
  Audited-after Kept g (raised (already_exists collection doc_id) h) f e k = e
  Audited-after Kept g (raised attribute_error h) f e k = e

  pub Checked-returned :
      {A : Type 0} (g h : Gateway V) (r : Reply V A) {a : A}
      → Checked g r
      → r ≡ returned a h
      → h ≡ g
  Checked-returned g h (returned b k) c e = ground arith
  Checked-returned g h (raised x k) c e = absurd (cc)

module _ {V : Type 0} ⦃d : Dynamic V⦄ where
  identify-Checked :
      (env : Ambient) (calling_sa calling_role_key collection : String)
      (identity : Option CallerIdentity) (g : Gateway V)
      → Checked g (identify env calling_sa calling_role_key collection identity g)
  unfolding identify deny
  identify-Checked env calling_sa calling_role_key collection identity g =
      cases (coerce identity calling_sa calling_role_key)
    where
      cases :
          (r : Result IdentityError CallerIdentity)
          → Checked g (established env calling_sa calling_role_key collection r g)
      cases (err e) = refl
      cases (ok caller) =
          elim (Bool-cases (env.strict_identity_required && not (is_verified caller))) [
            | inl h ↦ rw h refl
            | inr h ↦ rw h refl
          ]

  refuse_for-Checked :
      (env : Ambient) (calling_sa role collection : String)
      (filters session_context : Option (Dict V)) (reason : Option (Reason V)) (g : Gateway V)
      → Checked g (refuse_for env calling_sa role collection filters session_context reason g)
  refuse_for-Checked env calling_sa role collection filters session_context none g = refl
  refuse_for-Checked env calling_sa role collection filters session_context (some reason) g = refl

  pub enforce-Checked :
      (env : Ambient) (calling_sa calling_role_key collection : String)
      (filters session_context : Option (Dict V)) (identity : Option CallerIdentity) (g : Gateway V)
      → Checked g
          (enforce env calling_sa calling_role_key collection filters session_context identity g)
  unfolding enforce
  enforce-Checked env calling_sa calling_role_key collection filters session_context identity g =
      Audited-after (λ h. h ≡ g) g (identify env calling_sa calling_role_key collection identity g)
        _ (identify-Checked env calling_sa calling_role_key collection identity g)
        (λ caller.
          refuse_for-Checked env caller.service_account caller.role_key collection filters
            session_context
            (refusal caller.service_account caller.role_key collection filters session_context) g)

  pub enforce_lease-Checked :
      (env : Ambient) (calling_sa role collection : String) (lease_id : Option String)
      (g : Gateway V)
      → Checked g (enforce_lease env calling_sa role collection lease_id g)
  unfolding enforce_lease_of
  enforce_lease-Checked env calling_sa role collection lease_id g = cases g.lease_ledger lease_id
    where
      cases :
          (ledger : Option LeaseLedger) (lease_id : Option String)
          → Checked g (enforce_lease_of ledger env calling_sa role collection lease_id g)
      cases none lease_id = refl
      cases (some ledger) none = refl
      cases (some ledger) (some lease_id) = elim (Bool-cases (lease_id == "")) [
        | inl h ↦ rw h refl
        | inr h ↦ elim (Bool-cases (is_active (state lease_id env.now ledger).status)) [
          | inl k ↦ rw (h, k) refl
          | inr k ↦ rw (h, k) refl
        ]
      ]
