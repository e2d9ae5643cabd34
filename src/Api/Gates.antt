-- ===== src/Api/Gates.antt =====
-- src/api/buyer_api.py: the gates that a request passes before a handler acts: who signs it, whether its
-- counterparty is frozen, and whether an artist owns a work.
pub mod Passed
use hodi.Prelude.{
  ℕ, String, Bool, true, false, not, ◌&&◌, ◌||◌, Option, none, some, List, [], ◌∷◌, ◌++◌, ◌==◌,
  string_eq, if◌then◌else◌, Result, ok, err, last?,
}
use hodi.Prelude.Tables.{get}
use hodi.Prelude.Sort.{sort_by}
use hodi.Prelude.TextOrder.{text_le}
use hodi.Gateway.Denial.{Dynamic, Dict, PolicyDenialEvent, Gateway, Ambient, Action, state_of}
use hodi.Gateway.Documents.{read_collection}
use hodi.Gateway.Incidental.{
  log_identity_claim_denial, log_containment_denial, log_principal_type_denial,
}
use hodi.Api.Auth.{
  AuthenticatedCounterparty, AuthenticationError, Credential, Digests, SignedRequest, authenticate,
}
use hodi.Api.Http.{
  forbidden, not_authenticated, other_counterparty, wrong_principal, containment_unverified, frozen,
  ownership_unverified, not_owner, Service, answered, Handler, ◌>>=◌, ◌>>◌, pure, raise, call,
  call_or,
}

abbrev pub negotiator_sa : String
negotiator_sa = "licensing-negotiator-sa@hodi-2026.iam.gserviceaccount.com"

abbrev pub arbiter_sa : String
arbiter_sa = "consent-arbiter-sa@hodi-2026.iam.gserviceaccount.com"

abbrev pub custodian_sa : String
custodian_sa = "rights-custodian-sa@hodi-2026.iam.gserviceaccount.com"

module _ {V : Type 0} where
  -- `AgentGateway()`: with no ledger, no documents and no denials.
  abbrev pub new_gateway : Gateway V
  new_gateway = record {
    denial_events = [];
    offline_reads = [];
    lease_ledger = none;
    offline_writes = [];
  }

  -- A denial logged through a gateway made for the purpose.
  abbrev pub log_apart : Action V (PolicyDenialEvent V) → Handler V Unit
  log_apart log s =
      answered tt (record s { denied = s.denied ++ (state_of (log new_gateway)).denial_events })

module _ {V : Type 0} ⦃d : Dynamic V⦄ (digests : Digests) (store : String → Option Credential) where
  abbrev pub refuse_claim : Ambient → AuthenticatedCounterparty → String → Handler V Unit
  refuse_claim env auth claimed = if claimed == auth.counterparty_id then pure tt else (do
    log_apart (log_identity_claim_denial env negotiator_sa auth.counterparty_id claimed auth.key_id)
    raise (forbidden other_counterparty))

  -- if claimed_counterparty_id is not None and …
  abbrev pub check_claim : Ambient → AuthenticatedCounterparty → Option String → Handler V Unit
  check_claim env auth none = pure tt
  check_claim env auth (some claimed) = refuse_claim env auth claimed

  -- if required_principal_type and auth.principal_type != required_principal_type
  abbrev pub check_principal :
      Ambient → (path : String) → AuthenticatedCounterparty → String → Handler V Unit
  check_principal env path auth required =
      if not (required == "") && not (auth.principal_type == required)
      then (do
        log_apart (
            log_principal_type_denial env negotiator_sa auth.key_id auth.principal_type required
              path)
        raise (forbidden (wrong_principal required)))
      else pure tt

  abbrev pub after_authentication :
      Ambient
      → (path : String) → (claimed : Option String) (required : String)
      → Result AuthenticationError AuthenticatedCounterparty
      → Handler V AuthenticatedCounterparty
  after_authentication env path claimed required (err e) = raise (forbidden (not_authenticated e))
  after_authentication env path claimed required (ok auth) = do
    check_claim env auth claimed
    check_principal env path auth required
    pure auth

  unfoldable pub authenticate_or_403 :
      Ambient
      → (path : String) → SignedRequest
      → (claimed : Option String) (required : String) → Handler V AuthenticatedCounterparty
  unfolding authenticate log_identity_claim_denial log_principal_type_denial
  authenticate_or_403 env path q claimed required =
      after_authentication env path claimed required (authenticate digests q store env.now)

module _ {V : Type 0} ⦃d : Dynamic V⦄ (as_text : V → String) where
  -- `f.get(key, default)` of a text.
  abbrev pub text_or : String → String → Dict V → String
  text_or key default doc = elim (get key doc) [ none ↦ default | some v ↦ as_text v ]

  -- sorted(freezes, key=lambda f: f.get("frozen_at", ""))[-1]
  unfoldable pub newest : List (Dict V) → Option (Dict V)
  unfolding sort_by text_le get
  newest freezes =
      last? (sort_by (λ a b. text_le (text_or "frozen_at" "" a) (text_or "frozen_at" "" b)) freezes)

  abbrev pub refuse_freeze : Ambient → String → Option (Dict V) → Handler V Unit
  refuse_freeze env counterparty_id none = pure tt
  refuse_freeze env counterparty_id (some freeze) = do
    call (
        log_containment_denial env counterparty_id (text_or "freeze_id" "unknown" freeze)
          (text_or "incident_id" "unknown" freeze))
    raise (
        forbidden
          (frozen (text_or "incident_id" "unknown" freeze) (text_or "freeze_id" "unknown" freeze)))

  unfoldable pub refuse_if_frozen : (reading logging : Ambient) → String → Handler V Unit
  unfolding read_collection newest log_containment_denial get
  refuse_if_frozen reading logging counterparty_id = do
    freezes ← call_or (forbidden containment_unverified) (
        read_collection reading arbiter_sa "consent_arbiter" "negotiation_freezes"
          (some (("counterparty_id", d.text counterparty_id) ∷ [])) none none)
    refuse_freeze logging counterparty_id (newest freezes)

module _ {V : Type 0} ⦃d : Dynamic V⦄ where
  -- rows[0].get("artist_id") if rows else None
  abbrev pub owner_of : List (Dict V) → Option V
  owner_of [] = none
  owner_of (row ∷ rows) = get "artist_id" row

  -- `None` and an absent field are one.
  abbrev pub check_owner : String → Option V → Handler V Unit
  check_owner artist_id none = raise (forbidden not_owner)
  check_owner artist_id (some owner) =
      if d.same.beq owner d.null || not (d.same.beq owner (d.text artist_id))
      then raise (forbidden not_owner)
      else pure tt

  unfoldable pub verify_work_ownership_or_403 :
      Ambient → (work_id authenticated_artist_id : String) → Handler V Unit
  unfolding read_collection get
  verify_work_ownership_or_403 env work_id authenticated_artist_id = do
    rows ← call_or (forbidden ownership_unverified) (
        read_collection env custodian_sa "rights_custodian" "works"
          (some (("work_id", d.text work_id) ∷ [])) none none)
    check_owner authenticated_artist_id (owner_of rows)
