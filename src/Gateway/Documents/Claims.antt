-- ===== src/Gateway/Documents/Claims.antt =====
-- Who may make which claim: the authority table of src/schema/assertion_authority.py behind
-- `submit_assertion` of src/gateway/gateway.py.
use hodi.Prelude.{
  String, ◌≡◌, ◌↔◌, refl, ap, ◌∙◌, inl, inr, true, false, ◌==◌, string_eq, beq→eq, Bool-cases,
  arith,
}
use hodi.Schema.Assertion.{
  AssertionClass, observed_http_access, grant_existed, grant_did_not_exist,
  access_inconsistent_with_scope, revocation_initiated, access_does_not_establish_training,
  TypedAssertion, may_assert,
}
use hodi.Gateway.Denial.{Dynamic, Gateway, Ambient, returned, raised}
use hodi.Gateway.Documents.{submit_assertion}

-- The one role that speaks for a class.
abbrev pub speaker : AssertionClass → String
speaker observed_http_access = "evidence_agent"
speaker grant_existed = "licensing_negotiator"
speaker grant_did_not_exist = "licensing_negotiator"
speaker access_inconsistent_with_scope = "rights_custodian"
speaker revocation_initiated = "revocation_propagator"
speaker access_does_not_establish_training = "counterparty_advocate"

speaker-may_assert : (c : AssertionClass) → may_assert (speaker c) c ≡ true
unfolding may_assert
speaker-may_assert observed_http_access = refl
speaker-may_assert grant_existed = refl
speaker-may_assert grant_did_not_exist = refl
speaker-may_assert access_inconsistent_with_scope = refl
speaker-may_assert revocation_initiated = refl
speaker-may_assert access_does_not_establish_training = refl

may_assert-speaker :
    (role : String) (c : AssertionClass) → may_assert role c ≡ true → role ≡ speaker c
unfolding may_assert
may_assert-speaker role c h = elim (Bool-cases (role == speaker c)) [
  | inl e ↦ beq→eq role (speaker c) e
  | inr e ↦ absurd (other c e h)
]
  where
    other : (c : AssertionClass) → (role == speaker c) ≡ false → may_assert role c ≡ true → ⊥
    other observed_http_access e h = ground arith
    other grant_existed e h = ground arith
    other grant_did_not_exist e h = ground arith
    other access_inconsistent_with_scope e h = ground arith
    other revocation_initiated e h = ground arith
    other access_does_not_establish_training e h = ground arith

module _ {V : Type 0} ⦃d : Dynamic V⦄ where
  -- An assertion is accepted, unchanged and with nothing recorded, exactly from the one role that speaks
  -- for its class.
  pub submit_assertion-speaker :
      (env : Ambient) (calling_sa calling_role_key : String) (assertion : TypedAssertion)
      (g : Gateway V)
      → (submit_assertion env calling_sa calling_role_key assertion g ≡ returned assertion g)
        ↔ (calling_role_key ≡ speaker assertion.assertion_class)
  unfolding submit_assertion
  submit_assertion-speaker env calling_sa calling_role_key assertion g = (
    λ h. elim (Bool-cases (may_assert calling_role_key assertion.assertion_class)) [
      | inl m ↦ may_assert-speaker calling_role_key assertion.assertion_class m
      | inr m ↦ let q : raised _ _ ≡ returned assertion g = rw m at h in absurd (cc)
    ],
    λ e.
        rw
          (ap (λ r. may_assert r assertion.assertion_class) e
            ∙ speaker-may_assert assertion.assertion_class)
          refl,
  )
