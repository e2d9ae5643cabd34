-- ===== src/Gateway/Incidental.antt =====
-- src/gateway/gateway.py: the denials that other layers decide and the gateway records (`log_…`), and the
-- legacy `route`. A recorded denial is returned, not raised.
use hodi.Prelude.{String, none, some, [], ◌∷◌, ◌++◌}
use hodi.Gateway.Denial.{
  Dynamic, PolicyDenialEvent, cross_identity, frozen, wrong_principal, Ambient, returned, Action,
}
use hodi.Gateway.Policy.{denial_event, enforce}

module _ {V : Type 0} ⦃d : Dynamic V⦄ where
  -- Record and log a denial, and hand it back.
  abbrev pub record_denial : PolicyDenialEvent V → Action V (PolicyDenialEvent V)
  record_denial denial g =
      returned denial (record g { denial_events = g.denial_events ++ denial ∷ [] })

  unfoldable pub log_identity_claim_denial :
      Ambient
      → (calling_sa authenticated_counterparty_id claimed_counterparty_id key_id : String)
      → Action V (PolicyDenialEvent V)
  log_identity_claim_denial env calling_sa authenticated_counterparty_id claimed_counterparty_id
        key_id =
      record_denial (
        denial_event env calling_sa "licensing_negotiator" "grants"
          (some (("counterparty_id", d.text claimed_counterparty_id) ∷ []))
          (some (
            ("counterparty_id", d.text authenticated_counterparty_id)
            ∷ ("key_id", d.text key_id)
            ∷ []))
          "request_authentication_v1"
          (cross_identity key_id authenticated_counterparty_id claimed_counterparty_id))

  unfoldable pub log_containment_denial :
      Ambient → (counterparty_id freeze_id incident_id : String) → Action V (PolicyDenialEvent V)
  log_containment_denial env counterparty_id freeze_id incident_id = record_denial (
      denial_event env "api-layer (containment gate)" "licensing_negotiator" "grants"
        (some (("counterparty_id", d.text counterparty_id) ∷ []))
        (some (("freeze_id", d.text freeze_id) ∷ ("incident_id", d.text incident_id) ∷ []))
        "incident_containment_v1" (frozen counterparty_id incident_id freeze_id))

  unfoldable pub log_principal_type_denial :
      Ambient
      → (calling_sa key_id principal_type required_principal_type operation : String)
      → Action V (PolicyDenialEvent V)
  log_principal_type_denial env calling_sa key_id principal_type required_principal_type operation =
      record_denial (
        denial_event env calling_sa required_principal_type operation
          (some (("principal_type", d.text principal_type) ∷ []))
          (some (("key_id", d.text key_id) ∷ ("principal_type", d.text principal_type) ∷ []))
          "principal_type_policy_v1"
          (wrong_principal key_id principal_type operation required_principal_type))

  -- The reply of `route` echoes its arguments; what it checks is the policy.
  unfoldable pub route :
      Ambient → (calling_sa calling_role_key target_collection : String) → Action V Unit
  unfolding enforce
  route env calling_sa calling_role_key target_collection =
      enforce env calling_sa calling_role_key target_collection none none none
