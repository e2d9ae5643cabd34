-- ===== src/Gateway/Tests.antt =====
-- Runs of src/gateway/gateway.py and src/gateway/caller_identity.py: a supervised propagator that writes,
-- a negotiator that reads its session, and a token.
use hodi.Prelude.{
  String, ◌≡◌, ◌≢◌, ◌↔◌, refl, ap, Bool, true, false, Option, none, some, [], ◌∷◌, In, string_eq,
  ◌==◌, eq_of_some, beq→eq, beq_refl,
}
use hodi.Prelude.Tables.{get, set_item}
use hodi.Schema.Iam.{get_action_permission}
use hodi.Schema.Assertion.{TypedAssertion, observed_http_access}
use hodi.Supervisor.Tests.{ev_issue, ev_revoke, revoke-IsFence}
use hodi.Gateway.Identity.{
  CallerIdentity, Claims, coerce, from_oidc, check_claims, role_for_service_account, oidc_verified,
  in_process_trusted,
}
use hodi.Gateway.Identity.Binding.{Verified, from_oidc-Verified}
use hodi.Gateway.Denial.{Dynamic, Dict, Gateway, Ambient, returned, state_of}
use hodi.Gateway.Policy.{get_in, enforce_lease_of}
use hodi.Gateway.Policy.Audit.{Audited}
use hodi.Gateway.Documents.{
  Write, bucket, read_collection, or_null, write_document, write_documents_atomic, submit_assertion,
}
use hodi.Gateway.Documents.Reads.{read_collection-In_session}
use hodi.Gateway.Documents.Appends.{document}
use hodi.Gateway.Documents.Commits.{
  Unrecorded, Committed, write_document-Audited, write_document-Committed, write_document-keeps,
  write_document-fenced,
}
use hodi.Gateway.Documents.Batches.{
  BatchCommitted, write_documents_atomic-Audited, write_documents_atomic-BatchCommitted,
}
use hodi.Gateway.Documents.Claims.{speaker, submit_assertion-speaker}

abbrev same_text : Option String → Option String → Bool
same_text none none = true
same_text none (some t) = false
same_text (some s) none = false
same_text (some s) (some t) = s == t

pub same_text_iff : (a b : Option String) → (same_text a b ≡ true) ↔ (a ≡ b)
same_text_iff none none = (λ h. refl, λ e. refl)
same_text_iff none (some t) = (λ h. absurd (cc), λ e. absurd (cc))
same_text_iff (some s) none = (λ h. absurd (cc), λ e. absurd (cc))
same_text_iff (some s) (some t) = (λ h. ap some (beq→eq s t h), λ e. rw (eq_of_some e) (beq_refl t))

-- Documents of texts, None for a missing one.
instance abbrev pub text_values : Dynamic (Option String)
text_values = record {
  same = record { beq = same_text; beq_iff = same_text_iff };
  null = none;
  text = some;
}

abbrev pub ambient : Ambient
ambient = record { now = 120; uuid = "d1"; strict_identity_required = false }

abbrev Store : Type 0
Store = Gateway (Option String)

abbrev propagator_sa : String
propagator_sa = "revocation-propagator-sa@hodi-2026.iam.gserviceaccount.com"

abbrev terms_of : String → Dict (Option String)
terms_of counterparty_id = ("counterparty_id", some counterparty_id) ∷ []

abbrev supervised : Store
supervised = record {
  denial_events = [];
  offline_reads = ("buyer_terms", terms_of "c1" ∷ terms_of "c2" ∷ []) ∷ [];
  lease_ledger = some (ev_issue ∷ []);
  offline_writes = [];
}

abbrev grant_write : Write (Option String)
grant_write = record {
  collection = "grants";
  doc_id = "g1";
  fields = ("kind", some "revoked") ∷ [];
}

abbrev notice_write : Write (Option String)
notice_write = record { collection = "revocation_outbox"; doc_id = "n1"; fields = [] }

abbrev with_grant : Store
with_grant = record supervised {
  offline_writes = ("grants", ("g1", ("kind", some "revoked") ∷ []) ∷ []) ∷ [];
}

abbrev with_both : Store
with_both = record supervised {
  offline_writes =
      ("grants", ("g1", ("kind", some "revoked") ∷ []) ∷ [])
      ∷ ("revocation_outbox", ("n1", []) ∷ [])
      ∷ [];
}

write_document-Committed_example :
    Committed ambient propagator_sa "revocation_propagator" grant_write
      (some "lease-u1")
      none
      supervised
      with_grant
    × (document "grants" "g1" with_grant ≡ some (("kind", some "revoked") ∷ []))
unfolding write_document get set_item enforce_lease_of
write_document-Committed_example =
    write_document-Committed ambient propagator_sa "revocation_propagator" grant_write
      (some "lease-u1") none supervised with_grant tt refl

write_documents_atomic-BatchCommitted_example :
    BatchCommitted ambient propagator_sa "revocation_propagator"
      (grant_write ∷ notice_write ∷ [])
      (some "lease-u1")
      supervised
      with_both
unfolding write_documents_atomic get set_item enforce_lease_of
write_documents_atomic-BatchCommitted_example =
    write_documents_atomic-BatchCommitted ambient propagator_sa "revocation_propagator"
      (grant_write ∷ notice_write ∷ []) (some "lease-u1") supervised with_both tt refl

write_document-Audited_example :
    Audited (Unrecorded with_grant) with_grant (
      write_document ambient propagator_sa "revocation_propagator" grant_write none none with_grant)
write_document-Audited_example =
    write_document-Audited ambient propagator_sa "revocation_propagator" grant_write none none
      with_grant

write_documents_atomic-Audited_example : Audited (Unrecorded with_grant) with_grant (
    write_documents_atomic ambient propagator_sa "revocation_propagator"
      (notice_write ∷ grant_write ∷ [])
      (some "lease-u1")
      with_grant)
write_documents_atomic-Audited_example =
    write_documents_atomic-Audited ambient propagator_sa "revocation_propagator"
      (notice_write ∷ grant_write ∷ []) (some "lease-u1") with_grant

write_document-keeps_example :
    document "grants" "g1" (
      state_of (
        write_document ambient propagator_sa "revocation_propagator" notice_write
          (some "lease-u1")
          none
          with_grant))
    ≡ some (("kind", some "revoked") ∷ [])
unfolding bucket get
write_document-keeps_example =
    write_document-keeps ambient propagator_sa "revocation_propagator" notice_write
      (some "lease-u1") none with_grant "grants" "g1" (("kind", some "revoked") ∷ []) refl

abbrev fenced : Store
fenced = record supervised { lease_ledger = some (ev_issue ∷ ev_revoke ∷ []) }

write_document-fenced_example :
    write_document ambient propagator_sa "revocation_propagator" grant_write
      (some "lease-u1")
      none
      fenced
    ≢ returned tt with_grant
write_document-fenced_example =
    write_document-fenced ambient propagator_sa "revocation_propagator" grant_write ev_revoke
      (ev_issue ∷ ev_revoke ∷ []) none fenced with_grant tt refl revoke-IsFence

abbrev negotiator_sa : String
negotiator_sa = "licensing-negotiator-sa@hodi-2026.iam.gserviceaccount.com"

abbrev negotiator : CallerIdentity
negotiator = record {
  role_key = "licensing_negotiator";
  service_account = negotiator_sa;
  verification = in_process_trusted;
  token_subject = none;
}

read_collection-In_session_example :
    (v : Option String) × (get_in "counterparty_id" (some (terms_of "c1")) ≡ some v)
    × ((doc : Dict (Option String))
        → In doc (terms_of "c1" ∷ [])
        → or_null (get "counterparty_id" doc) ≡ v)
unfolding read_collection coerce get_action_permission get
read_collection-In_session_example =
    read_collection-In_session ambient negotiator_sa "licensing_negotiator" "buyer_terms"
      (some (terms_of "c1")) (some (terms_of "c1")) none supervised supervised (terms_of "c1" ∷ [])
      negotiator "counterparty_id" refl refl refl refl

abbrev claims : Claims
claims = record {
  iss = some "https://accounts.google.com";
  aud = some "gateway";
  exp = some 500;
  email_verified = true;
  email = some negotiator_sa;
  sub = some "s1";
}

abbrev verifier : String → String → Option Claims
verifier token audience = some claims

abbrev verified_negotiator : CallerIdentity
verified_negotiator = record negotiator { verification = oidc_verified; token_subject = some "s1" }

from_oidc-Verified_example :
    (c : Claims) × (verifier "token" "gateway" ≡ some c)
    × Verified c "gateway" 120 verified_negotiator
unfolding from_oidc check_claims role_for_service_account
from_oidc-Verified_example =
    from_oidc-Verified verifier "token" "gateway" 120 verified_negotiator refl

abbrev sighting : TypedAssertion
sighting = record {
  assertion_id = "a1";
  assertion_class = observed_http_access;
  asserted_by_role = "evidence_agent";
  subject_work_id = "w1";
  subject_principal = none;
  observed_at = none;
  basis = "log";
  evidence_ref = none;
  recorded_at = 6;
}

submit_assertion-speaker_example :
    (submit_assertion ambient negotiator_sa "licensing_negotiator" sighting supervised
      ≡ returned sighting supervised)
    ↔ ("licensing_negotiator" ≡ speaker observed_http_access)
submit_assertion-speaker_example =
    submit_assertion-speaker ambient negotiator_sa "licensing_negotiator" sighting supervised
