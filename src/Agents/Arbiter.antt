-- ===== src/Agents/Arbiter.antt =====
-- src/agents/consent_arbiter.py: the adjudication of typed assertions.
pub mod Findings
pub mod Walled
use Prim.Native.String.{◌++◌ as text_append}
use hodi.Prelude.{
  ℕ, String, Bool, true, false, not, ◌&&◌, ◌||◌, List, [], ◌∷◌, ◌++◌, ◌==◌, any, filter, map,
  if◌then◌else◌, Result, Option, none, some,
}
use hodi.Schema.Assertion.{
  AssertionClass, observed_http_access, grant_existed, grant_did_not_exist,
  access_inconsistent_with_scope, access_does_not_establish_training, assertion_class_eq,
  AssertionClass-discrete, TypedAssertion, EstablishableClaim, access_outside_declared_policy,
  access_within_declared_policy, ClaimStatus, established, not_established, ClaimFinding,
  IncidentDecision, DecisionError, not_determinable_training, make_decision,
}
use hodi.Gateway.Denial.{Dynamic, Dict, Ambient, Action}
use hodi.Gateway.Documents.{Write, read_collection, write_document}

abbrev is_of : AssertionClass → TypedAssertion → Bool
is_of c a = a.assertion_class == c

-- `c in {a.assertion_class for a in assertions}`
unfoldable pub is_submitted : AssertionClass → List TypedAssertion → Bool
unfolding AssertionClass-discrete
is_submitted c assertions = any (is_of c) assertions

unfoldable pub basis_of : AssertionClass → List TypedAssertion → List String
unfolding AssertionClass-discrete
basis_of c assertions = map (λ a. a.assertion_id) (filter (is_of c) assertions)

unfoldable pub is_outside : List TypedAssertion → Bool
unfolding is_submitted
is_outside assertions =
    is_submitted observed_http_access assertions
    && (is_submitted grant_did_not_exist assertions
        || is_submitted access_inconsistent_with_scope assertions)
    && not (
        is_submitted grant_existed assertions
        && not (is_submitted access_inconsistent_with_scope assertions))

unfoldable pub is_within : List TypedAssertion → Bool
unfolding is_submitted
is_within assertions =
    is_submitted observed_http_access assertions
    && is_submitted grant_existed assertions
    && not (is_submitted access_inconsistent_with_scope assertions)
    && not (is_submitted grant_did_not_exist assertions)

-- A finding, established on its basis or not established on none.
abbrev pub finding : EstablishableClaim → Bool → List String → ClaimFinding
finding claim holds basis = record {
  claim = claim;
  status = if holds then established else not_established;
  basis = if holds then basis else [];
}

abbrev join_from : String → List String → String
join_from first [] = first
join_from first (s ∷ rest) = text_append first (text_append ", " (join_from s rest))

-- `", ".join(ids)`
abbrev pub join_ids : List String → String
join_ids [] = ""
join_ids (s ∷ rest) = join_from s rest

-- The answer to the training question, which names the advocate's assertions where there are some.
unfoldable pub training_answer : List TypedAssertion → String
unfolding is_submitted basis_of
training_answer assertions =
    if is_submitted access_does_not_establish_training assertions
    then text_append not_determinable_training (
        text_append " The counterparty advocate asserted this limit explicitly (" (
          text_append (join_ids (basis_of access_does_not_establish_training assertions))
            "); the policy treats it as true by construction — it did not need to be argued."))
    else not_determinable_training

unfoldable pub decision_of :
    List TypedAssertion → (incident_id decision_id : String) (decided_at : ℕ) → IncidentDecision
unfolding is_outside is_within basis_of training_answer
decision_of assertions incident_id decision_id decided_at = record {
  decision_id = decision_id;
  incident_id = incident_id;
  policy_version = "consent_policy_v1";
  findings =
      finding access_outside_declared_policy (is_outside assertions) (
        basis_of observed_http_access assertions
        ++ basis_of grant_did_not_exist assertions
        ++ basis_of access_inconsistent_with_scope assertions)
      ∷ finding access_within_declared_policy (is_within assertions)
          (basis_of observed_http_access assertions ++ basis_of grant_existed assertions)
      ∷ [];
  not_determinable = ("MODEL_TRAINING_OCCURRED", training_answer assertions) ∷ [];
  decided_at = decided_at;
}

unfoldable pub adjudicate_assertions :
    List TypedAssertion
    → (incident_id decision_id : String) (decided_at : ℕ) → Result DecisionError IncidentDecision
unfolding decision_of make_decision
adjudicate_assertions assertions incident_id decision_id decided_at =
    make_decision (decision_of assertions incident_id decision_id decided_at)

-- ConsentArbiterAgent: its calls through the gateway.
abbrev pub arbiter_sa : String
arbiter_sa = "consent-arbiter-sa@hodi-2026.iam.gserviceaccount.com"

module _ {V : Type 0} ⦃d : Dynamic V⦄ where
  unfoldable pub record_incident :
      Ambient → (doc_id : String) (fields : Dict V) → (lease_id : Option String) → Action V Unit
  unfolding write_document
  record_incident env doc_id fields lease_id =
      write_document env arbiter_sa "consent_arbiter"
        (record { collection = "incidents"; doc_id = doc_id; fields = fields }) lease_id none

  unfoldable pub read_raw_evidence : Ambient → Action V (List (Dict V))
  unfolding read_collection
  read_raw_evidence env =
      read_collection env arbiter_sa "consent_arbiter" "crawler_access" none none none

  unfoldable pub read_buyer_terms : Ambient → V → Action V (List (Dict V))
  unfolding read_collection
  read_buyer_terms env counterparty_id =
      read_collection env arbiter_sa "consent_arbiter" "buyer_terms"
        (some (("counterparty_id", counterparty_id) ∷ []))
        (some (("counterparty_id", counterparty_id) ∷ [])) none

  unfoldable pub read_artist_identity : Ambient → Action V (List (Dict V))
  unfolding read_collection
  read_artist_identity env =
      read_collection env arbiter_sa "consent_arbiter" "artists" none none none

  unfoldable pub rewrite_grant_history :
      Ambient → (doc_id : String) (fields : Dict V) → Action V Unit
  unfolding write_document
  rewrite_grant_history env doc_id fields =
      write_document env arbiter_sa "consent_arbiter"
        (record { collection = "grants"; doc_id = doc_id; fields = fields }) none none
