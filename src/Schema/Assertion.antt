-- ===== src/Schema/Assertion.antt =====
-- src/schema/assertion.py and src/schema/assertion_authority.py: the closed vocabulary of claims, and
-- which role may make which.
use hodi.Prelude.Tables.{get}
use hodi.Prelude.{
  ℕ, String, Bool, Option, none, some, List, [], ◌∷◌, Eq, discrete_eq, contains, if◌then◌else◌,
  Result, ok, err, ◌>>◌,
}
use text.Mathlib.Text.{starts_with}

pub data AssertionClass : Type 0 where
  observed_http_access grant_existed grant_did_not_exist : AssertionClass
  access_inconsistent_with_scope revocation_initiated : AssertionClass
  access_does_not_establish_training : AssertionClass

unfoldable pub AssertionClass-discrete : Discrete AssertionClass
AssertionClass-discrete = hlevel

instance abbrev pub assertion_class_eq : Eq AssertionClass
assertion_class_eq = discrete_eq AssertionClass-discrete

abbrev pub class_name : AssertionClass → String
class_name observed_http_access = "OBSERVED_HTTP_ACCESS"
class_name grant_existed = "GRANT_EXISTED"
class_name grant_did_not_exist = "GRANT_DID_NOT_EXIST"
class_name access_inconsistent_with_scope = "ACCESS_INCONSISTENT_WITH_SCOPE"
class_name revocation_initiated = "REVOCATION_INITIATED"
class_name access_does_not_establish_training = "ACCESS_DOES_NOT_ESTABLISH_TRAINING"

pub record TypedAssertion : Type 0 where
  pub assertion_id : String
  pub assertion_class : AssertionClass
  pub asserted_by_role : String
  pub subject_work_id : String
  pub subject_principal : Option String
  pub observed_at : Option ℕ
  pub basis : String
  pub evidence_ref : Option String
  pub recorded_at : ℕ

abbrev pub assertion_authority : List (String × List AssertionClass)
assertion_authority =
    ("evidence_agent", observed_http_access ∷ [])
    ∷ ("licensing_negotiator", grant_existed ∷ grant_did_not_exist ∷ [])
    ∷ ("rights_custodian", access_inconsistent_with_scope ∷ [])
    ∷ ("revocation_propagator", revocation_initiated ∷ [])
    ∷ ("counterparty_advocate", access_does_not_establish_training ∷ [])
    ∷ ("consent_arbiter", [])
    ∷ []

abbrev classes_of : Option (List AssertionClass) → List AssertionClass
classes_of none = []
classes_of (some classes) = classes

unfoldable pub may_assert : String → AssertionClass → Bool
unfolding get AssertionClass-discrete
may_assert role assertion_class =
    contains assertion_class (classes_of (get role assertion_authority))

pub data EstablishableClaim : Type 0 where
  access_outside_declared_policy access_within_declared_policy : EstablishableClaim

pub data ClaimStatus : Type 0 where
  established not_established : ClaimStatus

pub record ClaimFinding : Type 0 where
  pub claim : EstablishableClaim
  pub status : ClaimStatus
  pub basis : List String

abbrev pub not_determinable_training : String
not_determinable_training =
    "NOT_ESTABLISHED — outside this system's epistemic authority. Crawler access does not establish ingestion; ingestion does not establish training; no assertion class can carry the claim and no conclusion class can establish it."

pub record IncidentDecision : Type 0 where
  pub decision_id : String
  pub incident_id : String
  pub policy_version : String
  pub findings : List ClaimFinding
  pub not_determinable : List (String × String)
  pub decided_at : ℕ

-- The two ValueErrors of the validator.
pub data DecisionError : Type 0 where
  states_otherwise : (question answer : String) → DecisionError
  boundary_removed : DecisionError

-- `answer.startswith("NOT_ESTABLISHED")` for every answer; the first that does not raises.
unfoldable pub check_answers : List (String × String) → Result DecisionError (Unit {0})
check_answers [] = ok tt
check_answers ((question, answer) ∷ rest) =
    let later = check_answers rest in
    if starts_with answer "NOT_ESTABLISHED" then later else err (states_otherwise question answer)

abbrev boundary_of : Option String → Result DecisionError (Unit {0})
boundary_of none = err boundary_removed
boundary_of (some answer) = ok tt

unfoldable pub make_decision : IncidentDecision → Result DecisionError IncidentDecision
unfolding check_answers get
make_decision decision = do
  check_answers decision.not_determinable
  boundary_of (get "MODEL_TRAINING_OCCURRED" decision.not_determinable)
  ok decision
