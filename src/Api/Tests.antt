-- ===== src/Api/Tests.antt =====
-- Runs of src/api/buyer_api.py: a buyer that asks for a use that its grant of the work holds.
use Prim.Native.String.{◌++◌ as text_append}
use hodi.Prelude.{
  String, ◌≡◌, refl, true, false, Option, none, some, [], ◌∷◌, ◌==◌, string_eq, ok, if◌then◌else◌,
}
use hodi.Prelude.Tables.{get}
use hodi.Schema.Scope.{Scope, aware}
use hodi.Schema.GrantEvent.{GrantEvent}
use hodi.Gateway.Tests.{ambient}
use hodi.Gateway.Denial.{Dict}
use hodi.Gateway.Documents.{selected}
use hodi.Gateway.Documents.Reads.{stored}
use hodi.Agents.Propagator.Tests.{
  Value, text_of, event_of, values, event_in, read_text, trained, trained_scope,
}
use hodi.Api.Auth.{AuthenticatedCounterparty, Credential, Digests, SignedRequest, authenticate}
use hodi.Api.Http.{Service, Answer, answered, refused}
use hodi.Api.Gates.{owner_of, verify_work_ownership_or_403}
use hodi.Api.Gates.Passed.{verify_work_ownership_or_403-owner}
use hodi.Api.License.{
  LicenseResponse, Services, Moments, LicenseRequest, request_license, request_license_natural,
}
use hodi.Api.License.Permitted.{
  Gated, Decided, request_license-Decided, request_license_natural-Decided,
}

abbrev digests : Digests
digests = record {
  sha256 = λ s. s;
  hmac_sha256 = λ secret message. text_append secret message;
  fromisoformat = λ s. some (aware 100);
}

abbrev buyer_credential : Credential
buyer_credential = record {
  active = none;
  secret = some "secret";
  counterparty_id = some "c1";
  principal_type = none;
}

abbrev store : String → Option Credential
store key_id = if key_id == "k1" then some buyer_credential else none

abbrev signed_request : SignedRequest
signed_request = record {
  key_id = "k1";
  issued_at = "now";
  signature = "secretk1\nnow\nbody";
  body = "body";
}

abbrev buyer : AuthenticatedCounterparty
buyer = record { counterparty_id = "c1"; key_id = "k1"; principal_type = "counterparty" }

signed-done : authenticate digests signed_request store 120 ≡ ok buyer
unfolding authenticate
signed-done = refl

abbrev dump_licensed : GrantEvent → Dict Value
dump_licensed e =
    ("counterparty_id", text_of e.counterparty_id)
    ∷ ("work_id", text_of e.work_id)
    ∷ ("event", event_of e)
    ∷ []

abbrev services : Services Value
services = record {
  digests = digests;
  store = store;
  grant_event = record { dump = dump_licensed; parse = λ row. event_in (get "event" row) };
  as_text = read_text;
  b64decode = λ s. some s;
  is_injection = λ s. false;
  interpret = λ text from. ok trained_scope;
  signature_of_receipt = λ kind reference receipt. some "signed";
}

abbrev moments : Moments
moments = record {
  authenticating = ambient;
  reading_freezes = ambient;
  logging = ambient;
  interpreting_at = 120;
  reading_grants = ambient;
  evaluated_at = 120;
  receipt_uuid = "r1";
  receipt_at = 120;
}

abbrev licensed : Service Value
licensed = record {
  gateway = record {
    denial_events = [];
    offline_reads =
        ("grants", dump_licensed trained ∷ [])
        ∷ ("works", (("work_id", text_of "w1") ∷ ("artist_id", text_of "a1") ∷ []) ∷ [])
        ∷ [];
    lease_ledger = none;
    offline_writes = [];
  };
  denied = [];
}

abbrev license_request : LicenseRequest Scope
license_request = record {
  path = "/api/v1/license";
  signed = signed_request;
  counterparty_id = some "c1";
  work_id = "w1";
  asked = trained_scope;
  document = "";
}

abbrev natural_request : LicenseRequest String
natural_request = record {
  path = "/api/v1/license/natural";
  signed = signed_request;
  counterparty_id = none;
  work_id = "w1";
  asked = "may we train on it";
  document = "";
}

abbrev no_response : LicenseResponse
no_response = record {
  permitted = false;
  licensable_set = [];
  explicit_exclusions = [];
  receipt = none;
  anomaly_detected = false;
}

abbrev response_in : Answer Value LicenseResponse → LicenseResponse
response_in (answered response s) = response
response_in (refused e s) = no_response

abbrev response : LicenseResponse
response = response_in (request_license services moments license_request licensed)

abbrev natural_response_in : Answer Value (Scope × LicenseResponse) → LicenseResponse
natural_response_in (answered pair s) = pair.1
natural_response_in (refused e s) = no_response

abbrev natural_response : LicenseResponse
natural_response =
    natural_response_in (request_license_natural services moments natural_request licensed)

license-done :
    request_license services moments license_request licensed ≡ answered response licensed
unfolding request_license
license-done = refl

natural-done :
    request_license_natural services moments natural_request licensed
    ≡ answered (trained_scope, natural_response) licensed
unfolding request_license_natural
natural-done = refl

license-permits : (response.permitted ≡ true) × (natural_response.permitted ≡ true)
unfolding request_license request_license_natural
license-permits = (refl, refl)

request_license-Decided_example :
    (auth : AuthenticatedCounterparty) × Gated services moments license_request auth
      licensed.gateway
    × Decided services moments auth "w1" trained_scope response licensed.gateway
request_license-Decided_example =
    request_license-Decided services moments license_request response licensed licensed license-done

request_license_natural-Decided_example :
    (services.interpret "may we train on it" 120 ≡ ok trained_scope)
    × ((auth : AuthenticatedCounterparty) × Gated services moments natural_request auth
          licensed.gateway
        × Decided services moments auth "w1" trained_scope natural_response licensed.gateway)
request_license_natural-Decided_example =
    request_license_natural-Decided services moments natural_request trained_scope natural_response
      licensed licensed natural-done

owned-done : verify_work_ownership_or_403 ambient "w1" "a1" licensed ≡ answered tt licensed
unfolding verify_work_ownership_or_403
owned-done = refl

verify_work_ownership_or_403-owner_example :
    owner_of (selected (some (("work_id", text_of "w1") ∷ [])) (stored "works" licensed.gateway))
    ≡ some (text_of "a1")
verify_work_ownership_or_403-owner_example =
    verify_work_ownership_or_403-owner ambient "w1" "a1" licensed licensed tt owned-done
