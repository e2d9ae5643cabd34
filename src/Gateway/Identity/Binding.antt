-- ===== src/Gateway/Identity/Binding.antt =====
-- The identities of src/gateway/caller_identity.py: a role and the service account of the policy.
use hodi.Prelude.Tables.{get}
use hodi.Prelude.{
  ℕ, ◌<◌, String, ◌≡◌, refl, sym, ap, ◌∙◌, inl, inr, Bool, true, false, not, ◌&&◌, Option, none,
  some, List, [], ◌∷◌, arith, ◌==◌, string_eq, beq→eq, contains-In, In, here, there, all, all-In,
  Bool-cases, ok, >>=-eq-ok, raise_if, eq_of_some,
}
use mathlib.Core.Path.{subst}
use hodi.Schema.Iam.{AgentInfo, agent_sa_map}
use hodi.Gateway.Identity.{
  google_issuers, Claims, CallerIdentity, oidc_verified, in_process, coerce, process_identity,
  from_oidc, check_claims, role_in, role_for_service_account, claim_in, is_lapsed, identity_of,
  checked, bad_issuer, bad_audience, token_expired, unverified_email, no_role,
}
use hodi.Gateway.Policy.{declared_account}

-- The policy declares this service account for this role.
abbrev pub IsBound : CallerIdentity → Type 0
IsBound caller = declared_account (get caller.role_key agent_sa_map) ≡ some caller.service_account

raise_if-ok : {E : Type 0} (b : Bool) (e : E) {a : Unit} → raise_if b e ≡ ok a → b ≡ false
raise_if-ok true e h = absurd (cc)
raise_if-ok false e h = refl

in_process-IsBound :
    (role_key : String) (caller : CallerIdentity)
    → in_process role_key ≡ ok caller
    → IsBound caller × (caller.role_key ≡ role_key)
unfolding in_process
in_process-IsBound role_key caller h = cases (get role_key agent_sa_map) refl h
  where
    cases :
        (found : Option AgentInfo)
        → get role_key agent_sa_map ≡ found
        → process_identity role_key found ≡ ok caller
        → IsBound caller × (caller.role_key ≡ role_key)
    cases none e h = absurd (cc)
    cases (some info) e h =
        let role : role_key ≡ caller.role_key = ground arith in
        let account : info.sa_email ≡ caller.service_account = ground arith in
        (
          ap declared_account (ap (λ r. get r agent_sa_map) (sym role) ∙ e) ∙ ap some account,
          sym role,
        )

-- A legacy pair of texts that is accepted is a role with the account that the policy declares for it.
pub coerce-IsBound :
    (calling_sa calling_role_key : String) (caller : CallerIdentity)
    → coerce none calling_sa calling_role_key ≡ ok caller
    → IsBound caller × (caller.role_key ≡ calling_role_key)
unfolding coerce
coerce-IsBound calling_sa calling_role_key caller h =
    let named = >>=-eq-ok (raise_if (calling_role_key == "") no_role) _ h in
    let declared = >>=-eq-ok (in_process calling_role_key) _ named.2 in
    let matched =
      >>=-eq-ok
        (raise_if (not (calling_sa == "") && not (calling_sa == (declared.0).service_account)) _) _
        declared.2 in
    in_process-IsBound calling_role_key caller (declared.1 ∙ matched.2)

role_in-In :
    (email : String) (l : List (String × AgentInfo)) (role_key : String)
    → role_in email l ≡ some role_key
    → (info : AgentInfo) × In (role_key, info) l × (info.sa_email ≡ email)
unfolding role_in
role_in-In email [] role_key h = absurd (cc)
role_in-In email ((r, info) ∷ rest) role_key h = elim (Bool-cases (info.sa_email == email)) [
  | inl e ↦
      let same : some r ≡ some role_key = rw e at h in
      (info, here (ap (λ u. (u, info)) (sym (eq_of_some same))), beq→eq info.sa_email email e)
  | inr e ↦
      let later = role_in-In email rest role_key (rw e at h) in (later.0, there later.1, later.2)
]

abbrev account_is : String → Option String → Bool
account_is account none = false
account_is account (some found) = found == account

account_is-eq :
    (account : String) (o : Option String) → account_is account o ≡ true → o ≡ some account
account_is-eq account none h = absurd (cc)
account_is-eq account (some found) h = ap some (beq→eq found account h)

-- Looking a row's role up finds the row's own account.
unfoldable found_again : String × AgentInfo → Bool
found_again (role, info) = account_is info.sa_email (declared_account (get role agent_sa_map))

found_again-table : all found_again agent_sa_map ≡ true
unfolding found_again get
found_again-table = refl

known :
    (role_key email : String) (info : AgentInfo)
    → In (role_key, info) agent_sa_map
    → info.sa_email ≡ email
    → account_is email (declared_account (get role_key agent_sa_map)) ≡ true
unfolding found_again
known role_key email info m e =
    subst (λ u. account_is u (declared_account (get role_key agent_sa_map)) ≡ true) e
      (all-In found_again agent_sa_map found_again-table m)

role_for_service_account-IsBound :
    (email : Option String) (role_key : String)
    → role_for_service_account email ≡ some role_key
    → (account : String) × (email ≡ some account)
      × (declared_account (get role_key agent_sa_map) ≡ some account)
unfolding role_for_service_account
role_for_service_account-IsBound none role_key h = absurd (cc)
role_for_service_account-IsBound (some email) role_key h = elim (Bool-cases (email == "")) [
  | inl e ↦ let q : none ≡ some role_key = rw e at h in absurd (cc)
  | inr e ↦
      let row = role_in-In email agent_sa_map role_key (rw e at h) in
      (
        email,
        refl,
        account_is-eq email (declared_account (get role_key agent_sa_map))
            (known role_key email row.0 row.1 row.2),
      )
]

-- What a token has to claim for an identity.
pub record Verified (claims : Claims) (expected_audience : String) (current : ℕ)
    (caller : CallerIdentity) : Type 0 where
  pub issuer : (i : String) × (claims.iss ≡ some i) × In i google_issuers
  pub audience : claims.aud ≡ some expected_audience
  pub lasting : (expiry : ℕ) × (claims.exp ≡ some expiry) × (current < expiry)
  pub email_verified : claims.email_verified ≡ true
  pub email : claims.email ≡ some caller.service_account
  pub bound : IsBound caller
  pub mode : caller.verification ≡ oidc_verified

claim_in-In :
    (o : Option String) (l : List String)
    → claim_in o l ≡ true
    → (s : String) × (o ≡ some s) × In s l
claim_in-In none l h = absurd (cc)
claim_in-In (some s) l h = (s, refl, contains-In s l h)

is_lapsed-later :
    (o : Option ℕ) (current : ℕ)
    → is_lapsed o current ≡ false
    → (e : ℕ) × (o ≡ some e) × (current < e)
is_lapsed-later none current h = absurd (cc)
is_lapsed-later (some e) current h = (e, refl, ground arith)

not-false : (b : Bool) → not b ≡ false → b ≡ true
not-false b h = ground arith

check_claims-Verified :
    (expected_audience : String) (current : ℕ) (claims : Claims) (caller : CallerIdentity)
    → check_claims expected_audience current claims ≡ ok caller
    → Verified claims expected_audience current caller
unfolding check_claims
check_claims-Verified expected_audience current claims caller h =
    let issuer =
      >>=-eq-ok (raise_if (not (claim_in claims.iss google_issuers)) (bad_issuer claims.iss)) _ h in
    let audience =
      >>=-eq-ok
        (raise_if (not (claim_in claims.aud (expected_audience ∷ []))) (bad_audience claims.aud)) _
        issuer.2 in
    let expiry = >>=-eq-ok (raise_if (is_lapsed claims.exp current) token_expired) _ audience.2 in
    let email = >>=-eq-ok (raise_if (not claims.email_verified) unverified_email) _ expiry.2 in
    let aud =
      claim_in-In claims.aud (expected_audience ∷ []) (not-false _ (raise_if-ok _ _ audience.1)) in
    let named = identified (role_for_service_account claims.email) claims.email refl email.2 in
    record {
      issuer = claim_in-In claims.iss google_issuers (not-false _ (raise_if-ok _ _ issuer.1));
      audience = aud.1 ∙ ap some (only aud.2);
      lasting = is_lapsed-later claims.exp current (raise_if-ok _ _ expiry.1);
      email_verified = not-false _ (raise_if-ok _ _ email.1);
      email = named.0;
      bound = named.1;
      mode = named.2;
    }
  where
    only : {s : String} → In s (expected_audience ∷ []) → s ≡ expected_audience
    only (here e) = e
    only (there m) = elim m [ ]

    identified :
        (role email : Option String)
        → role_for_service_account email ≡ role
        → identity_of claims role email ≡ ok caller
        → (email ≡ some caller.service_account)
          × IsBound caller
          × (caller.verification ≡ oidc_verified)
    identified none email e h = absurd (cc)
    identified (some role) none e h = absurd (cc)
    identified (some role) (some email) e h =
        let r : role ≡ caller.role_key = ground arith in
        let a : email ≡ caller.service_account = ground arith in
        let row = role_for_service_account-IsBound (some email) role e in
        (
          ap some a,
          ap (λ u. declared_account (get u agent_sa_map)) (sym r) ∙ row.2 ∙ sym row.1 ∙ ap some a,
          ground arith,
        )

-- A token gives an identity only where the verifier accepts it and its claims name a Google issuer, this
-- service as the audience, an expiry still to come and a verified email, which is the account that the
-- policy declares for the role.
pub from_oidc-Verified :
    (verify : String → String → Option Claims) (token expected_audience : String) (current : ℕ)
    (caller : CallerIdentity)
    → from_oidc verify token expected_audience current ≡ ok caller
    → (claims : Claims) × (verify token expected_audience ≡ some claims)
      × Verified claims expected_audience current caller
unfolding from_oidc
from_oidc-Verified verify token expected_audience current caller h =
    cases (verify token expected_audience) refl h
  where
    cases :
        (o : Option Claims)
        → verify token expected_audience ≡ o
        → checked expected_audience current o ≡ ok caller
        → (claims : Claims) × (verify token expected_audience ≡ some claims)
          × Verified claims expected_audience current caller
    cases none e h = absurd (cc)
    cases (some claims) e h =
        (claims, e, check_claims-Verified expected_audience current claims caller h)
