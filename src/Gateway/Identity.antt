-- ===== src/Gateway/Identity.antt =====
-- src/gateway/caller_identity.py: the service account and the role of a caller, and how they were
-- established. The verifier of a token's signature is a parameter, instants are in seconds.
pub mod Binding
use hodi.Prelude.Tables.{get}
use hodi.Prelude.{
  ℕ, String, Bool, true, false, not, ◌&&◌, Option, none, some, List, [], ◌∷◌, ◌==◌, string_eq,
  contains, leb, if◌then◌else◌, Result, ok, err, ◌>>=◌, ◌>>◌, raise_if,
}
use hodi.Schema.Iam.{AgentInfo, agent_sa_map}

abbrev pub google_issuers : List String
google_issuers = "https://accounts.google.com" ∷ "accounts.google.com" ∷ []

pub data VerificationMode : Type 0 where
  oidc_verified in_process_trusted : VerificationMode

pub record CallerIdentity : Type 0 where
  pub role_key : String
  pub service_account : String
  pub verification : VerificationMode
  pub token_subject : Option String

abbrev pub is_verified : CallerIdentity → Bool
is_verified caller = elim caller.verification [ oidc_verified ↦ true | in_process_trusted ↦ false ]

-- IdentityVerificationError, one constructor for each place that raises it.
pub data IdentityError : Type 0 where
  bad_signature token_expired unverified_email no_role : IdentityError
  bad_issuer bad_audience unmapped_account : Option String → IdentityError
  unknown_role : String → IdentityError
  account_mismatch : (calling role declared : String) → IdentityError

abbrev pub process_identity : String → Option AgentInfo → Result IdentityError CallerIdentity
process_identity role_key none = err (unknown_role role_key)
process_identity role_key (some info) = ok (record {
  role_key = role_key;
  service_account = info.sa_email;
  verification = in_process_trusted;
  token_subject = none;
})

unfoldable pub in_process : String → Result IdentityError CallerIdentity
in_process role_key = process_identity role_key (get role_key agent_sa_map)

-- The claims that `from_oidc` reads of a token; `email_verified` is the claim's truth value.
pub record Claims : Type 0 where
  pub iss : Option String
  pub aud : Option String
  pub exp : Option ℕ
  pub email_verified : Bool
  pub email : Option String
  pub sub : Option String

-- `o in values` and `o == value` of a claim that may be missing.
abbrev pub claim_in : Option String → List String → Bool
claim_in none values = false
claim_in (some s) values = contains s values

abbrev pub is_lapsed : Option ℕ → ℕ → Bool
is_lapsed none current = true
is_lapsed (some expiry) current = leb expiry current

unfoldable pub role_in : String → List (String × AgentInfo) → Option String
role_in email [] = none
role_in email ((role_key, info) ∷ rest) =
    let later = role_in email rest in if info.sa_email == email then some role_key else later

unfoldable pub role_for_service_account : Option String → Option String
unfolding role_in
role_for_service_account none = none
role_for_service_account (some email) = if email == "" then none else role_in email agent_sa_map

abbrev pub identity_of :
    Claims → Option String → Option String → Result IdentityError CallerIdentity
identity_of claims (some role_key) (some email) = ok (record {
  role_key = role_key;
  service_account = email;
  verification = oidc_verified;
  token_subject = claims.sub;
})
identity_of claims none email = err (unmapped_account email)
identity_of claims (some role_key) none = err (unmapped_account none)

-- The checks of the claims of a token whose signature holds.
unfoldable pub check_claims :
    (expected_audience : String) (current : ℕ) → Claims → Result IdentityError CallerIdentity
check_claims expected_audience current claims = do
  raise_if (not (claim_in claims.iss google_issuers)) (bad_issuer claims.iss)
  raise_if (not (claim_in claims.aud (expected_audience ∷ []))) (bad_audience claims.aud)
  raise_if (is_lapsed claims.exp current) token_expired
  raise_if (not claims.email_verified) unverified_email
  identity_of claims (role_for_service_account claims.email) claims.email

abbrev pub checked :
    (expected_audience : String) (current : ℕ) → Option Claims → Result IdentityError CallerIdentity
checked expected_audience current none = err bad_signature
checked expected_audience current (some claims) = check_claims expected_audience current claims

unfoldable pub from_oidc :
    (verify : String → String → Option Claims) (token expected_audience : String) (current : ℕ)
    → Result IdentityError CallerIdentity
from_oidc verify token expected_audience current =
    checked expected_audience current (verify token expected_audience)

unfoldable pub coerce :
    Option CallerIdentity
    → (calling_sa calling_role_key : String) → Result IdentityError CallerIdentity
unfolding in_process
coerce (some identity) calling_sa calling_role_key = ok identity
coerce none calling_sa calling_role_key = do
  raise_if (calling_role_key == "") no_role
  declared ← in_process calling_role_key
  raise_if (not (calling_sa == "") && not (calling_sa == declared.service_account))
      (account_mismatch calling_sa calling_role_key declared.service_account)
  ok declared
