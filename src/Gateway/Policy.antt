-- ===== src/Gateway/Policy.antt =====
-- src/gateway/gateway.py: who calls and what the policy lets the caller do (`_identify`, `_deny`,
-- `_enforce`), and the lease that a supervised write presents (`_enforce_lease`).
pub mod Audit
pub mod Access
use Prim.Native.String.{◌++◌ as text_append}
use hodi.Prelude.Tables.{get}
use hodi.Prelude.{
  String, Bool, true, false, not, ◌&&◌, Option, none, some, List, [], ◌∷◌, ◌==◌, string_eq,
  if◌then◌else◌, Result, ok, err, ℕ,
}
use hodi.Schema.Iam.{AgentInfo, agent_sa_map, get_action_permission}
use hodi.Supervisor.Lease.{
  LeaseLedger, LeaseState, LeaseStatus, active, was_revoked, was_released, expired, nonexistent,
  is_active, state,
}
use hodi.Gateway.Identity.{CallerIdentity, IdentityError, coerce, is_verified}
use hodi.Gateway.Denial.{
  Dynamic, Dict, Reason, unestablished, unverified, sa_mismatch, not_permitted, unscoped,
  no_session, outside_session, no_lease, stale_lease, PolicyDenialEvent, GatewayError,
  policy_denial, attribute_error, Gateway, Ambient, Reply, returned, raised, Action, ◌>>=◌, ◌>>◌,
  pure, refuse, after,
}

-- `value or default` of a text
abbrev pub or_else : String → String → String
or_else value default = if value == "" then default else value

abbrev lease_status_name : LeaseStatus → String
lease_status_name active = "active"
lease_status_name was_revoked = "revoked"
lease_status_name was_released = "released"
lease_status_name expired = "expired"
lease_status_name nonexistent = "nonexistent"

-- `AGENT_SA_MAP.get(role, {}).get("sa_email")`
abbrev pub declared_account : Option AgentInfo → Option String
declared_account none = none
declared_account (some info) = some info.sa_email

module _ {V : Type 0} ⦃d : Dynamic V⦄ where
  abbrev pub denial_event :
      Ambient
      → (calling_sa target_role collection : String) (filters session_context : Option (Dict V))
        (policy : String)
      → Reason V
      → PolicyDenialEvent V
  denial_event env calling_sa target_role collection filters session_context policy reason =
      record {
        event_id = text_append "denial-" env.uuid;
        calling_sa = calling_sa;
        target_role = target_role;
        requested_collection = collection;
        attempted_filters = filters;
        session_context = session_context;
        timestamp = env.now;
        policy_consulted = policy;
        reason = reason;
      }

  unfoldable pub deny :
      {A : Type 0}
      → Ambient
      → (calling_sa target_role collection policy : String) → Reason V
      → Action V A
  deny env calling_sa target_role collection policy reason =
      refuse (denial_event env calling_sa target_role collection none none policy reason)

  abbrev pub established :
      Ambient
      → (calling_sa calling_role_key collection : String) → Result IdentityError CallerIdentity
      → Action V CallerIdentity
  established env calling_sa calling_role_key collection (err e) =
      deny env (or_else calling_sa "unidentified") (or_else calling_role_key "unidentified")
        collection "caller_identity_v1" (unestablished e)
  established env calling_sa calling_role_key collection (ok caller) =
      if env.strict_identity_required && not (is_verified caller)
      then deny env caller.service_account caller.role_key collection "caller_identity_v1"
          (unverified caller.verification)
      else pure caller

  unfoldable pub identify :
      Ambient
      → (calling_sa calling_role_key collection : String) → Option CallerIdentity
      → Action V CallerIdentity
  unfolding coerce deny get
  identify env calling_sa calling_role_key collection identity =
      established env calling_sa calling_role_key collection
        (coerce identity calling_sa calling_role_key)

  -- The comparison of the filter with the session, for the key that the policy requires.
  abbrev pub session_refusal :
      (calling_sa role collection key : String) → Option V → Option V → Option (Reason V)
  session_refusal calling_sa role collection key none allowed =
      some (unscoped calling_sa role key collection)
  session_refusal calling_sa role collection key (some asked) none =
      some (no_session calling_sa role key collection)
  session_refusal calling_sa role collection key (some asked) (some allowed) =
      if d.same.beq asked allowed
      then none
      else some (outside_session calling_sa role key asked allowed)

  -- `None if not table or key not in table else table[key]`
  unfoldable pub get_in : String → Option (Dict V) → Option V
  unfolding get
  get_in key none = none
  get_in key (some table) = get key table

  abbrev pub permission_refusal :
      (calling_sa role collection : String) (filters session_context : Option (Dict V))
      → Bool × Option String
      → Option (Reason V)
  permission_refusal calling_sa role collection filters session_context (false, key) =
      some (not_permitted calling_sa role collection)
  permission_refusal calling_sa role collection filters session_context (true, none) = none
  permission_refusal calling_sa role collection filters session_context (true, some key) =
      if key == ""
      then none
      else session_refusal calling_sa role collection key (get_in key filters)
          (get_in key session_context)

  abbrev pub account_refusal :
      (calling_sa role : String) → Option String → Option (Reason V) → Option (Reason V)
  account_refusal calling_sa role none otherwise = otherwise
  account_refusal calling_sa role (some declared) otherwise =
      if not (declared == "") && not (calling_sa == declared)
      then some (sa_mismatch calling_sa role declared)
      else otherwise

  -- `reason` after the tests of `_enforce`, where the call is refused.
  unfoldable pub refusal :
      (calling_sa role collection : String) (filters session_context : Option (Dict V))
      → Option (Reason V)
  unfolding get_action_permission get_in get
  refusal calling_sa role collection filters session_context =
      account_refusal calling_sa role (declared_account (get role agent_sa_map)) (
        permission_refusal calling_sa role collection filters session_context
          (get_action_permission role collection))

  abbrev pub refuse_for :
      Ambient
      → (calling_sa role collection : String) (filters session_context : Option (Dict V))
      → Option (Reason V)
      → Action V Unit
  refuse_for env calling_sa role collection filters session_context none = pure tt
  refuse_for env calling_sa role collection filters session_context (some reason) = refuse (
      denial_event env calling_sa role collection filters session_context "gateway_policy_v1"
        reason)

  unfoldable pub enforce :
      Ambient
      → (calling_sa calling_role_key collection : String)
        (filters session_context : Option (Dict V))
      → Option CallerIdentity
      → Action V Unit
  unfolding identify refusal
  enforce env calling_sa calling_role_key collection filters session_context identity = do
    caller ← identify env calling_sa calling_role_key collection identity
    refuse_for env caller.service_account caller.role_key collection filters session_context
        (refusal caller.service_account caller.role_key collection filters session_context)

  abbrev lease_refused :
      Ambient
      → (calling_sa role collection : String) (lease : V) (status : String) → Reason V
      → Action V Unit
  lease_refused env calling_sa role collection lease status reason = refuse (
      denial_event env calling_sa role collection (some (("lease_id", lease) ∷ []))
        (some (("lease_status", d.text status) ∷ [])) "execution_lease_v1" reason)

  -- With a ledger attached: the state of the presented lease decides. An empty id has no state, and
  -- is not None.
  unfoldable pub enforce_lease_of :
      Option LeaseLedger
      → Ambient
      → (calling_sa role collection : String) → Option String
      → Action V Unit
  unfolding state
  enforce_lease_of none env calling_sa role collection lease_id = pure tt
  enforce_lease_of (some ledger) env calling_sa role collection none =
      lease_refused env calling_sa role collection d.null "absent"
        (no_lease calling_sa role collection)
  enforce_lease_of (some ledger) env calling_sa role collection (some lease_id) =
      let s = state lease_id env.now ledger in
      if lease_id == ""
      then raised attribute_error
      else if is_active s.status
      then pure tt
      else lease_refused env calling_sa role collection (d.text lease_id)
          (lease_status_name s.status)
          (stale_lease calling_sa role collection lease_id s.status s.revoked_reason)

  abbrev pub enforce_lease :
      Ambient → (calling_sa role collection : String) → Option String → Action V Unit
  enforce_lease env calling_sa role collection lease_id g =
      enforce_lease_of g.lease_ledger env calling_sa role collection lease_id g
