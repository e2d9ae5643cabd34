-- ===== src/Gateway/Denial.antt =====
-- src/gateway/gateway.py: the record of a refusal, what a call can raise, and the state of the offline
-- gateway. A call returns the state after a raise too, since a recorded denial stays recorded.
use hodi.Prelude.{ℕ, String, Bool, Option, List, [], ◌∷◌, ◌++◌, Eq, ◌≡◌, refl}
use hodi.Supervisor.Lease.{LeaseLedger, LeaseStatus}
use hodi.Gateway.Identity.{IdentityError, VerificationMode}

-- The dynamic values of documents, filters and sessions: `==`, None, and the texts among them.
pub record Dynamic (V : Type 0) : Type 0 where
  pub same : Eq V
  pub null : V
  pub text : String → V

abbrev pub Dict : Type 0 → Type 0
Dict V = List (String × V)

-- `reason`, by the sentence that the code builds and what it puts into it.
pub data Reason (V : Type 0) : Type 0 where
  unestablished : IdentityError → Reason V
  unverified : VerificationMode → Reason V
  sa_mismatch : (sa role declared : String) → Reason V
  not_permitted : (sa role collection : String) → Reason V
  unscoped : (sa role key collection : String) → Reason V
  no_session : (sa role key collection : String) → Reason V
  outside_session : (sa role key : String) (asked allowed : V) → Reason V
  no_lease : (sa role collection : String) → Reason V
  stale_lease :
      (sa role collection lease_id : String) (status : LeaseStatus) (revoked_reason : Option String)
      → Reason V
  spans_databases : List String → Reason V
  lacks_authority : (role assertion_class : String) → Reason V
  cross_identity : (key_id authenticated claimed : String) → Reason V
  frozen : (counterparty_id incident_id freeze_id : String) → Reason V
  wrong_principal : (key_id principal_type operation required_principal_type : String) → Reason V

pub record PolicyDenialEvent (V : Type 0) : Type 0 where
  pub event_id : String
  pub calling_sa : String
  pub target_role : String
  pub requested_collection : String
  pub attempted_filters : Option (Dict V)
  pub session_context : Option (Dict V)
  pub timestamp : ℕ
  pub policy_consulted : String
  pub reason : Reason V

-- What a call raises: GatewayPolicyDenial, DocumentAlreadyExists, and the AttributeError of reading
-- the status of a missing lease state.
pub data GatewayError (V : Type 0) : Type 0 where
  policy_denial : PolicyDenialEvent V → GatewayError V
  already_exists : (collection doc_id : String) → GatewayError V
  attribute_error : GatewayError V

-- The gateway without a Firestore client and without remote domain services.
pub record Gateway (V : Type 0) : Type 0 where
  pub denial_events : List (PolicyDenialEvent V)
  pub offline_reads : List (String × List (Dict V))
  pub lease_ledger : Option LeaseLedger
  pub offline_writes : List (String × List (String × Dict V))

-- What a call draws from its surroundings: the clock, a uuid, and whether the deployment insists on
-- verified identities. A call denies at most once, so one uuid serves it.
pub record Ambient : Type 0 where
  pub now : ℕ
  pub uuid : String
  pub strict_identity_required : Bool

pub data Reply (V A : Type 0) : Type 0 where
  returned : A → Gateway V → Reply V A
  raised : GatewayError V → Gateway V → Reply V A

abbrev pub Action : Type 0 → Type 0 → Type 0
Action V A = Gateway V → Reply V A

module _ {V : Type 0} where
  infixl 5 ◌>>=◌ ◌>>◌
  abbrev pub after : {A B : Type 0} → Reply V A → (A → Action V B) → Reply V B
  after (returned a g) f = f a g
  after (raised e g) f = raised e g

  abbrev pub ◌>>=◌ : {A B : Type 0} → Action V A → (A → Action V B) → Action V B
  ◌>>=◌ m f g = after (m g) f

  abbrev pub ◌>>◌ : {B : Type 0} → Action V Unit → Action V B → Action V B
  ◌>>◌ m k g = after (m g) (λ _. k)

  abbrev pub pure : {A : Type 0} → A → Action V A
  pure a g = returned a g

  -- The reply's state.
  abbrev pub state_of : {A : Type 0} → Reply V A → Gateway V
  state_of (returned a g) = g
  state_of (raised e g) = g

  -- Record, log and raise a denial.
  abbrev pub refuse : {A : Type 0} → PolicyDenialEvent V → Action V A
  refuse denial g =
      raised (policy_denial denial) (record g { denial_events = g.denial_events ++ denial ∷ [] })

  pub returned-after :
      {A B : Type 0} (r : Reply V A) (f : A → Action V B) {b : B} {h : Gateway V}
      → after r f ≡ returned b h
      → (a : A) × (g : Gateway V) × (r ≡ returned a g) × (f a g ≡ returned b h)
  returned-after (returned a g) f e = (a, g, refl, e)
  returned-after (raised x g) f e = absurd (cc)
