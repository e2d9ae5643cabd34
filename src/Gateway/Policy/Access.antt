-- ===== src/Gateway/Policy/Access.antt =====
-- The checks of src/gateway/gateway.py, read from a call that passed them: the caller, the session, the
-- lease.
use mathlib.Core.Path.{subst}
use hodi.Prelude.Tables.{get, get-In}
use hodi.Prelude.{
  String, ◌≡◌, refl, sym, ap, inl, inr, Bool, true, false, not, ◌&&◌, Option, none, some, arith,
  Bool-cases, Result, ok, err, ◌==◌, string_eq, beq→eq, all, all-In,
}
use hodi.Schema.Iam.Rows.{Allows, is_action_permitted-Allows}
use hodi.Schema.Iam.{AgentInfo, is_action_permitted, agent_sa_map, get_action_permission}
use hodi.Supervisor.Lease.{LeaseLedger, state, is_active, is_valid}
use hodi.Gateway.Identity.{CallerIdentity, IdentityError, coerce, is_verified}
use hodi.Gateway.Denial.{
  Dynamic, Dict, Reason, outside_session, attribute_error, sa_mismatch, Gateway, Ambient, returned,
  raised, returned-after,
}
use hodi.Gateway.Policy.{
  identify, established, deny, declared_account, account_refusal, permission_refusal,
  session_refusal, get_in, refusal, refuse_for, enforce, enforce_lease_of, enforce_lease,
}
use hodi.Gateway.Policy.Audit.{enforce-Checked, enforce_lease-Checked, Checked-returned}

unfoldable account_named : String × AgentInfo → Bool
account_named (role, info) = not (info.sa_email == "")

accounts_named : all account_named agent_sa_map ≡ true
unfolding account_named
accounts_named = refl

allowed-permitted :
    (role collection : String)
    → (get_action_permission role collection).0 ≡ true
    → is_action_permitted role collection ≡ true
unfolding is_action_permitted
allowed-permitted role collection h = h

-- No ledger is attached, or the presented lease is valid now.
abbrev pub UnderLease : Ambient → Option LeaseLedger → Option String → Type 0
UnderLease env none lease_id = Unit
UnderLease env (some ledger) lease_id = is_valid lease_id env.now ledger ≡ true

module _ {V : Type 0} ⦃d : Dynamic V⦄ where
  -- The session's value for the key that the policy requires, which the filters ask for.
  abbrev pub InSession : (filters session_context : Option (Dict V)) → Option String → Type 0
  InSession filters session_context none = Unit
  InSession filters session_context (some key) =
      (key == "") ≡ false
      → (v : V) × (get_in key filters ≡ some v) × (get_in key session_context ≡ some v)

  -- The caller of a call that passed, and why it passed.
  pub record Admitted (env : Ambient) (calling_sa calling_role_key collection : String)
      (filters session_context : Option (Dict V)) (identity : Option CallerIdentity) : Type 0 where
    pub caller : CallerIdentity
    pub coerced : coerce identity calling_sa calling_role_key ≡ ok caller
    pub permitted : (get_action_permission caller.role_key collection).0 ≡ true
    pub verified : env.strict_identity_required ≡ true → is_verified caller ≡ true
    pub account : declared_account (get caller.role_key agent_sa_map) ≡ some caller.service_account
    pub in_session :
        InSession filters session_context (get_action_permission caller.role_key collection).1

  identified :
      (env : Ambient) (calling_sa calling_role_key collection : String)
      (identity : Option CallerIdentity) (caller : CallerIdentity) (g h : Gateway V)
      → identify env calling_sa calling_role_key collection identity g ≡ returned caller h
      → (coerce identity calling_sa calling_role_key ≡ ok caller)
        × (env.strict_identity_required ≡ true → is_verified caller ≡ true)
  unfolding identify deny
  identified env calling_sa calling_role_key collection identity caller g h e =
      cases (coerce identity calling_sa calling_role_key) e
    where
      cases :
          (r : Result IdentityError CallerIdentity)
          → established env calling_sa calling_role_key collection r g ≡ returned caller h
          → (r ≡ ok caller) × (env.strict_identity_required ≡ true → is_verified caller ≡ true)
      cases (err x) e = absurd (cc)
      cases (ok c) e = elim (Bool-cases (env.strict_identity_required && not (is_verified c))) [
        | inl k ↦ let q : raised _ _ ≡ returned caller h = rw k at e in absurd (cc)
        | inr k ↦
            let q : returned c g ≡ returned caller h = rw k at e in
            let same : c ≡ caller = cc in
            (ap ok same, λ strict. subst (λ u. is_verified u ≡ true) same (ground arith))
      ]

  session_refusal-none :
      (calling_sa role collection key : String) (filters session_context : Option (Dict V))
      → session_refusal calling_sa role collection key
          (get_in key filters)
          (get_in key session_context)
        ≡ none
      → (v : V) × (get_in key filters ≡ some v) × (get_in key session_context ≡ some v)
  session_refusal-none calling_sa role collection key filters session_context =
      cases (get_in key filters) (get_in key session_context)
    where
      cases :
          (f s : Option V)
          → session_refusal calling_sa role collection key f s ≡ none
          → (v : V) × (f ≡ some v) × (s ≡ some v)
      cases none s h = absurd (cc)
      cases (some v) none h = absurd (cc)
      cases (some v) (some w) h = elim (Bool-cases (d.same.beq v w)) [
        | inl k ↦ (v, refl, ap some (sym ((d.same.beq_iff v w).0 k)))
        | inr k ↦
            let q : some (outside_session calling_sa role key v w) ≡ none = rw k at h in absurd (cc)
      ]

  refusal-none :
      (sa role collection : String) (filters session_context : Option (Dict V))
      → refusal sa role collection filters session_context ≡ none
      → ((get_action_permission role collection).0 ≡ true)
        × InSession filters session_context (get_action_permission role collection).1
        × (declared_account (get role agent_sa_map) ≡ some sa)
  unfolding refusal account_named
  refusal-none sa role collection filters session_context h =
      let p =
        permission (get_action_permission role collection)
          (otherwise (declared_account (get role agent_sa_map)) h) in
      (
        p.0,
        p.1,
        account (get role agent_sa_map) refl
            (is_action_permitted-Allows role collection (allowed-permitted role collection p.0)) h,
      )
    where
      otherwise :
          (declared : Option String) {o : Option (Reason V)}
          → account_refusal sa role declared o ≡ none
          → o ≡ none
      otherwise none h = h
      otherwise (some declared) {o} h =
          elim (Bool-cases (not (declared == "") && not (sa == declared))) [
            | inl k ↦ let q : some (sa_mismatch sa role declared) ≡ none = rw k at h in absurd (cc)
            | inr k ↦ rw k at h
          ]

      account :
          (found : Option AgentInfo)
          → get role agent_sa_map ≡ found
          → Allows role collection (get_action_permission role collection).1
          → account_refusal sa role (declared_account found) (
              permission_refusal sa role collection filters session_context
                (get_action_permission role collection))
            ≡ none
          → declared_account found ≡ some sa
      account none e allows h = absurd (cc (allows.listed))
      account (some info) e allows h =
          let named : not (info.sa_email == "") ≡ true =
            all-In account_named agent_sa_map accounts_named (get-In role agent_sa_map info e) in
          elim (Bool-cases (sa == info.sa_email)) [
            | inl k ↦ ap some (sym (beq→eq sa info.sa_email k))
            | inr k ↦
                let q : some (sa_mismatch sa role info.sa_email) ≡ none = rw (named, k) at h in
                absurd (cc)
          ]

      permission :
          (p : Bool × Option String)
          → permission_refusal sa role collection filters session_context p ≡ none
          → (p.0 ≡ true) × InSession filters session_context p.1
      permission (false, key) h = absurd (cc)
      permission (true, none) h = (refl, tt)
      permission (true, some key) h = (
        refl,
        λ named.
            session_refusal-none sa role collection key filters session_context (rw named at h),
      )

  refuse_for-returned :
      (env : Ambient) (sa role collection : String) (filters session_context : Option (Dict V))
      (o : Option (Reason V)) (g h : Gateway V) (a : Unit)
      → refuse_for env sa role collection filters session_context o g ≡ returned a h
      → o ≡ none
  refuse_for-returned env sa role collection filters session_context none g h a e = refl
  refuse_for-returned env sa role collection filters session_context (some reason) g h a e =
      absurd (cc)

  pub enforce-returned :
      (env : Ambient) (calling_sa calling_role_key collection : String)
      (filters session_context : Option (Dict V)) (identity : Option CallerIdentity)
      (g h : Gateway V) (a : Unit)
      → enforce env calling_sa calling_role_key collection filters session_context identity g
        ≡ returned a h
      → (h ≡ g)
        × Admitted env calling_sa calling_role_key collection filters session_context identity
  unfolding enforce
  enforce-returned env calling_sa calling_role_key collection filters session_context identity g h a
        e =
      (
        Checked-returned g h _
            (enforce-Checked env calling_sa calling_role_key collection filters session_context
              identity g)
            e,
        let passed =
              returned-after (identify env calling_sa calling_role_key collection identity g) _ e in
            let known =
              identified env calling_sa calling_role_key collection identity passed.0 g passed.1
                passed.2 in
            let allowed =
              refuse_for-returned env passed.0.service_account passed.0.role_key collection filters
                session_context
                (refusal passed.0.service_account passed.0.role_key collection filters
                  session_context)
                passed.1 h a passed.3 in
            let free =
              refusal-none passed.0.service_account passed.0.role_key collection filters
                session_context allowed in
            record {
              caller = passed.0;
              coerced = known.0;
              permitted = free.0;
              verified = known.1;
              account = free.2;
              in_session = free.1;
            },
      )

  pub enforce_lease-returned :
      (env : Ambient) (calling_sa role collection : String) (lease_id : Option String)
      (g h : Gateway V) (a : Unit)
      → enforce_lease env calling_sa role collection lease_id g ≡ returned a h
      → (h ≡ g) × UnderLease env g.lease_ledger lease_id
  unfolding enforce_lease_of is_valid
  enforce_lease-returned env calling_sa role collection lease_id g h a e = (
    Checked-returned g h _ (enforce_lease-Checked env calling_sa role collection lease_id g) e,
    cases g.lease_ledger lease_id e,
  )
    where
      cases :
          (ledger : Option LeaseLedger) (lease_id : Option String)
          → enforce_lease_of ledger env calling_sa role collection lease_id g ≡ returned a h
          → UnderLease env ledger lease_id
      cases none lease_id e = tt
      cases (some ledger) none e = absurd (cc)
      cases (some ledger) (some lease_id) e = elim (Bool-cases (lease_id == "")) [
        | inl k ↦ let q : raised attribute_error g ≡ returned a h = rw k at e in absurd (cc)
        | inr k ↦ elim (Bool-cases (is_active (state lease_id env.now ledger).status)) [
          | inl i ↦ rw (k, i) refl
          | inr i ↦ let q : raised _ _ ≡ returned a h = rw (k, i) at e in absurd (cc)
        ]
      ]
