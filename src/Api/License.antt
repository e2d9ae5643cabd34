-- ===== src/Api/License.antt =====
-- src/api/buyer_api.py: the two license requests, of a typed scope and of one that a model reads out of a
-- text. What the inspector found is an input of each: it does not decide.
pub mod Permitted
use hodi.Prelude.{
  ℕ, String, Bool, true, false, Option, none, some, List, [], ◌∷◌, ◌==◌, string_eq, filter,
  if◌then◌else◌, Result, ok, err,
}
use hodi.Schema.Vocabulary.{UseType, ModelClass}
use hodi.Schema.Scope.{Scope, ScopeEvaluationResult}
use hodi.Schema.GrantEvent.{GrantEvent, Receipt}
use hodi.Resolve.Resolver.{active_grant_events}
use hodi.Resolve.Evaluator.{NotFolded, permits}
use hodi.Gateway.Denial.{Dynamic, Dict, Ambient}
use hodi.Gateway.Documents.{read_collection}
use hodi.Agents.Propagator.Calls.{Codec}
use hodi.Agents.Propagator.{parse_all}
use hodi.Api.Auth.{AuthenticatedCounterparty, Credential, Digests, SignedRequest}
use hodi.Api.Http.{
  HttpError, invalid_document, unparsed_event, not_folded, index_error, signer_failed, answered,
  refused, Handler, ◌>>=◌, ◌>>◌, pure, raise, or_raise, call,
}
use hodi.Api.Gates.{negotiator_sa, authenticate_or_403, refuse_if_frozen}

-- An entry of `licensable_set` or `explicit_exclusions`.
pub data Term : Type 0 where
  use_term : UseType → Term
  model_term : ModelClass → Term

pub record LicenseResponse : Type 0 where
  pub permitted : Bool
  pub licensable_set : List Term
  pub explicit_exclusions : List Term
  pub receipt : Option Receipt
  pub anomaly_detected : Bool

-- What the handlers call. `interpret` is `err` where the interpreter rejects the text or is unavailable;
-- `b64decode` and the signer are `none` where they raise.
pub record Services (V : Type 0) : Type 0 where
  pub digests : Digests
  pub store : String → Option Credential
  pub grant_event : Codec V GrantEvent
  pub as_text : V → String
  pub b64decode : String → Option String
  pub is_injection : String → Bool
  pub interpret : (text : String) (valid_from : ℕ) → Result (HttpError V) Scope
  pub signature_of_receipt : (kind reference : String) → Receipt → Option String

-- What a request draws from its surroundings, call by call.
pub record Moments : Type 0 where
  pub authenticating : Ambient
  pub reading_freezes : Ambient
  pub logging : Ambient
  pub interpreting_at : ℕ
  pub reading_grants : Ambient
  pub evaluated_at : ℕ
  pub receipt_uuid : String
  pub receipt_at : ℕ

-- ScopeRequest and NaturalScopeRequest, with the signed request that carries them.
pub record LicenseRequest (Asked : Type 0) : Type 0 where
  pub path : String
  pub signed : SignedRequest
  pub counterparty_id : Option String
  pub work_id : String
  pub asked : Asked
  pub document : String

abbrev pub or_unknown : Option String → String
or_unknown none = "unknown"
or_unknown (some s) = if s == "" then "unknown" else s

-- `licensable_set`: of the first active grant with the id that the evaluation names.
unfoldable pub licensable : Option String → List GrantEvent → List Term
licensable none active = []
licensable (some grant_id) [] = []
licensable (some grant_id) (g ∷ rest) =
    let later = licensable (some grant_id) rest in
    if g.grant_id == grant_id
    then use_term g.scope.use_type ∷ model_term g.scope.model_class ∷ []
    else later

module _ {V : Type 0} ⦃d : Dynamic V⦄ (v : Services V) (m : Moments) where
  abbrev pub receipt_for :
      AuthenticatedCounterparty → (work_id body : String) → ScopeEvaluationResult → Receipt
  receipt_for auth work_id body result = record {
    receipt_id = m.receipt_uuid;
    grant_id = or_unknown result.matching_grant_id;
    work_id = some work_id;
    counterparty_id = auth.counterparty_id;
    payload_hash = v.digests.sha256 body;
    issued_at = m.receipt_at;
    signature = "";
  }

  abbrev pub with_signature : Receipt → Option String → Option Receipt
  with_signature receipt none = none
  with_signature receipt (some signature) = some (record receipt { signature = signature })

  -- `sign_pydantic(receipt, kind="receipt", reference=…)`
  abbrev pub signed : Receipt → Option Receipt
  signed receipt =
      with_signature receipt (v.signature_of_receipt "receipt" receipt.grant_id receipt)

  abbrev pub granted_response :
      Bool → List GrantEvent → ScopeEvaluationResult → Receipt → LicenseResponse
  granted_response anomaly active result receipt = record {
    permitted = true;
    licensable_set = licensable result.matching_grant_id active;
    explicit_exclusions = [];
    receipt = some receipt;
    anomaly_detected = anomaly;
  }

  abbrev pub refused_response : Bool → Scope → LicenseResponse
  refused_response anomaly scope = record {
    permitted = false;
    licensable_set = [];
    explicit_exclusions = use_term scope.use_type ∷ model_term scope.model_class ∷ [];
    receipt = none;
    anomaly_detected = anomaly;
  }

  -- From the evaluation to the response.
  abbrev pub respond :
      AuthenticatedCounterparty
      → (work_id body : String) → Bool
      → List GrantEvent
      → Scope
      → Result NotFolded ScopeEvaluationResult
      → Handler V LicenseResponse
  respond auth work_id body anomaly active scope (err e) = raise (not_folded e)
  respond auth work_id body anomaly active scope (ok result) =
      if result.permitted
      then (do
        receipt ← or_raise signer_failed (signed (receipt_for auth work_id body result))
        pure (granted_response anomaly active result receipt))
      else pure (refused_response anomaly scope)

  abbrev pub is_of_work : String → GrantEvent → Bool
  is_of_work work_id g = g.work_id == work_id

  -- The grants of the caller on the work, folded, and the decision on them.
  unfoldable pub decide :
      AuthenticatedCounterparty → (work_id body : String) → Bool → Scope → Handler V LicenseResponse
  unfolding read_collection parse_all active_grant_events permits licensable
  decide auth work_id body anomaly scope = do
    raw_grants ← call (
        read_collection m.reading_grants negotiator_sa "licensing_negotiator" "grants"
          (some
            (("counterparty_id", d.text auth.counterparty_id) ∷ ("work_id", d.text work_id) ∷ []))
          (some (("counterparty_id", d.text auth.counterparty_id) ∷ [])) none)
    all_events ← or_raise unparsed_event (parse_all v.grant_event raw_grants)
    found ← or_raise index_error (active_grant_events all_events none)
    respond auth work_id body anomaly (filter (is_of_work work_id) found) scope
        (permits (filter (is_of_work work_id) found) scope m.evaluated_at)

  unfoldable pub request_license : LicenseRequest Scope → Handler V LicenseResponse
  unfolding authenticate_or_403 refuse_if_frozen decide
  request_license req = do
    auth ←
        authenticate_or_403 v.digests v.store m.authenticating req.path req.signed
          req.counterparty_id "counterparty"
    refuse_if_frozen v.as_text m.reading_freezes m.logging auth.counterparty_id
    raw_bytes ← or_raise invalid_document (v.b64decode req.document)
    decide auth req.work_id req.signed.body (v.is_injection raw_bytes) req.asked

  abbrev pub interpreted : Result (HttpError V) Scope → Handler V Scope
  interpreted (err e) = raise e
  interpreted (ok scope) = pure scope

  -- The model contributes the scope, and nothing else.
  unfoldable pub request_license_natural :
      LicenseRequest String → Handler V (Scope × LicenseResponse)
  unfolding authenticate_or_403 refuse_if_frozen decide
  request_license_natural req = do
    auth ←
        authenticate_or_403 v.digests v.store m.authenticating req.path req.signed
          req.counterparty_id "counterparty"
    refuse_if_frozen v.as_text m.reading_freezes m.logging auth.counterparty_id
    scope ← interpreted (v.interpret req.asked m.interpreting_at)
    response ← decide auth req.work_id req.signed.body (v.is_injection req.asked) scope
    pure (scope, response)
