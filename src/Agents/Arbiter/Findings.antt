-- ===== src/Agents/Arbiter/Findings.antt =====
-- What src/agents/consent_arbiter.py concludes, in terms of the assertions that were submitted.
use Prim.Native.String.{◌++◌ as text_append}
use hodi.Prelude.{String, ◌≡◌, ◌⊎◌, Bool, List, [], ◌∷◌, In}
use hodi.Schema.Assertion.{
  AssertionClass, observed_http_access, grant_existed, grant_did_not_exist,
  access_inconsistent_with_scope, access_does_not_establish_training, assertion_class_eq,
  TypedAssertion, EstablishableClaim, ClaimFinding, access_outside_declared_policy,
  access_within_declared_policy, established, IncidentDecision,
}
use hodi.Agents.Arbiter.{finding, basis_of, join_ids}

-- Some assertion of the class was submitted.
abbrev pub Submitted : AssertionClass → List TypedAssertion → Type 0
Submitted c assertions = (a : TypedAssertion) × In a assertions × (a.assertion_class ≡ c)

-- The decision establishes the claim.
abbrev pub Establishes : EstablishableClaim → IncidentDecision → Type 0
Establishes claim d =
    (f : ClaimFinding) × In f d.findings × (f.claim ≡ claim) × (f.status ≡ established)

-- The written rule: an access was observed, no grant existed or it is outside the declared scope, and no
-- assertion claims a grant.
abbrev pub OutsideByRule : List TypedAssertion → Type 0
OutsideByRule l =
    Submitted observed_http_access l
    × (Submitted grant_did_not_exist l ⊎ Submitted access_inconsistent_with_scope l)
    × (¬ Submitted grant_existed l)

-- What the written rule leaves out: an access was observed, and it is outside the scope of a grant that is
-- claimed.
abbrev pub OutsideItsGrant : List TypedAssertion → Type 0
OutsideItsGrant l =
    Submitted observed_http_access l
    × Submitted access_inconsistent_with_scope l
    × Submitted grant_existed l

-- An access was observed, a grant existed, and neither its scope nor its existence is contested.
abbrev pub Within : List TypedAssertion → Type 0
Within l =
    Submitted observed_http_access l
    × Submitted grant_existed l
    × (¬ Submitted access_inconsistent_with_scope l)
    × (¬ Submitted grant_did_not_exist l)

-- The answer behind its first word.
abbrev training_limit : String
training_limit =
    " — outside this system's epistemic authority. Crawler access does not establish ingestion; ingestion does not establish training; no assertion class can carry the claim and no conclusion class can establish it."

abbrev explicit_limit : List TypedAssertion → String
explicit_limit l = text_append " The counterparty advocate asserted this limit explicitly (" (
    text_append (join_ids (basis_of access_does_not_establish_training l))
      "); the policy treats it as true by construction — it did not need to be argued.")

-- The two findings of a decision, and which of them establishes what.
module _ (b c : Bool) (x y : List String) where
  abbrev both : List ClaimFinding
  both = finding access_outside_declared_policy b x ∷ finding access_within_declared_policy c y ∷ []
