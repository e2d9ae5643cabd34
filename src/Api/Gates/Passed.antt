-- ===== src/Api/Gates/Passed.antt =====
-- What a request that passed the gates of src/api/buyer_api.py has shown.
use mathlib.Core.Path.{subst}
use hodi.Prelude.{
  String, ◌≡◌, refl, sym, ap, ◌∙◌, inl, inr, false, not, ◌||◌, Option, none, some, List, [], ◌∷◌,
  ◌==◌, string_eq, Bool-cases, beq→eq, last?, In, here, Result, ok, err, arith,
}
use hodi.Prelude.Sort.{sort_by, sort_by-In}
use hodi.Prelude.TextOrder.{text_le}
use hodi.Gateway.Denial.{Dynamic, Dict, Ambient}
use hodi.Gateway.Policy.Audit.{Checked-returned}
use hodi.Gateway.Documents.{selected, read_collection}
use hodi.Gateway.Documents.Reads.{stored, read_collection-returned, read_collection-Audited}
use hodi.Gateway.Incidental.{log_containment_denial}
use hodi.Api.Auth.{
  AuthenticatedCounterparty, AuthenticationError, Credential, Digests, SignedRequest, authenticate,
}
use hodi.Api.Http.{
  forbidden, not_owner, ownership_unverified, containment_unverified, other_counterparty,
  wrong_principal, Service, Answer, answered, refused, answered-injective, follow-answered,
  with_reply_or, with_reply_or-answered,
}
use hodi.Api.Gates.{
  arbiter_sa, check_claim, check_principal, after_authentication, authenticate_or_403, text_or,
  newest, refuse_freeze, refuse_if_frozen, custodian_sa, check_owner, owner_of,
  verify_work_ownership_or_403,
}

last?-none {ℓ} : {A : Type ℓ} (l : List A) → last? l ≡ none → l ≡ []
last?-none [] e = refl
last?-none (x ∷ []) e = absurd (cc)
last?-none (x ∷ y ∷ l) e = let k = last?-none (y ∷ l) e in absurd (cc)

module _ {V : Type 0} ⦃d : Dynamic V⦄ (digests : Digests) (store : String → Option Credential) where
  check_claim-answered :
      (env : Ambient) (auth : AuthenticatedCounterparty) (claimed : Option String) (s u : Service V)
      (a : Unit)
      → check_claim digests store env auth claimed s ≡ answered a u
      → ((c : String) → claimed ≡ some c → c ≡ auth.counterparty_id) × (u ≡ s)
  check_claim-answered env auth none s u a e = (λ c k. absurd (cc), sym (answered-injective e).1)
  check_claim-answered env auth (some claimed) s u a e =
      elim (Bool-cases (claimed == auth.counterparty_id)) [
        | inl h ↦
            let k : ◌≡◌ {A = Answer V Unit} (answered tt s) (answered a u) = rw h at e in
            (
              λ c p. let q : claimed ≡ c = cc in sym q ∙ beq→eq claimed auth.counterparty_id h,
              sym (answered-injective k).1,
            )
        | inr h ↦
            let k : ◌≡◌ {A = Answer V Unit} (refused (forbidden other_counterparty) _)
                (answered a u) =
              rw h at e in
            absurd (cc)
      ]

  check_principal-answered :
      (env : Ambient) (path : String) (auth : AuthenticatedCounterparty) (required : String)
      (s u : Service V) (a : Unit)
      → (required == "") ≡ false
      → check_principal digests store env path auth required s ≡ answered a u
      → (auth.principal_type ≡ required) × (u ≡ s)
  check_principal-answered env path auth required s u a named e =
      elim (Bool-cases (auth.principal_type == required)) [
        | inl h ↦
            let k : ◌≡◌ {A = Answer V Unit} (answered tt s) (answered a u) = rw (named, h) at e in
            (beq→eq auth.principal_type required h, sym (answered-injective k).1)
        | inr h ↦
            let k : ◌≡◌ {A = Answer V Unit} (refused (forbidden (wrong_principal required)) _)
                (answered a u) =
              rw (named, h) at e in
            absurd (cc)
      ]

  -- Whom the gate lets through: the credential's counterparty, of the required kind, and the one that the
  -- body claims where it claims one.
  pub authenticate_or_403-answered :
      (env : Ambient) (path : String) (q : SignedRequest) (claimed : Option String)
      (required : String) (s u : Service V) (auth : AuthenticatedCounterparty)
      → (required == "") ≡ false
      → authenticate_or_403 digests store env path q claimed required s ≡ answered auth u
      → (authenticate digests q store env.now ≡ ok auth)
        × ((c : String) → claimed ≡ some c → c ≡ auth.counterparty_id)
        × (auth.principal_type ≡ required)
        × (u ≡ s)
  unfolding authenticate_or_403
  authenticate_or_403-answered env path q claimed required s u auth named =
      cases (authenticate digests q store env.now) refl
    where
      cases :
          (o : Result AuthenticationError AuthenticatedCounterparty)
          → authenticate digests q store env.now ≡ o
          → after_authentication digests store env path claimed required o s ≡ answered auth u
          → (authenticate digests q store env.now ≡ ok auth)
            × ((c : String) → claimed ≡ some c → c ≡ auth.counterparty_id)
            × (auth.principal_type ≡ required)
            × (u ≡ s)
      cases (err x) k e = absurd (cc)
      cases (ok who) k e =
          let first = follow-answered (check_claim digests store env who claimed s) _ e in
          let (own, stayed) = check_claim-answered env who claimed s first.1 first.0 first.2 in
          let second =
            follow-answered (check_principal digests store env path who required first.1) _
              first.3 in
          let (kind, still) =
            check_principal-answered env path who required first.1 second.1 second.0 named
              second.2 in
          let (same, last) = answered-injective second.3 in
          (
            k ∙ ap ok same,
            λ c p. own c p ∙ ap (λ (w : AuthenticatedCounterparty). w.counterparty_id) same,
            ap (λ (w : AuthenticatedCounterparty). w.principal_type) (sym same) ∙ kind,
            sym last ∙ still ∙ stayed,
          )

module _ {V : Type 0} ⦃d : Dynamic V⦄ (as_text : V → String) where
  newest-none : (freezes : List (Dict V)) → newest as_text freezes ≡ none → freezes ≡ []
  unfolding newest
  newest-none [] e = refl
  newest-none (x ∷ freezes) e =
      let le = λ (a b : Dict V).
        text_le (text_or as_text "frozen_at" "" a) (text_or as_text "frozen_at" "" b) in
      let empty = last?-none (sort_by le (x ∷ freezes)) e in
      elim (subst (In x) empty (sort_by-In le x (x ∷ freezes) (here refl))) [ ]

  refuse_freeze-answered :
      (env : Ambient) (counterparty_id : String) (o : Option (Dict V)) (s u : Service V) (a : Unit)
      → refuse_freeze as_text env counterparty_id o s ≡ answered a u
      → (o ≡ none) × (u ≡ s)
  unfolding log_containment_denial
  refuse_freeze-answered env counterparty_id none s u a e = (refl, sym (answered-injective e).1)
  refuse_freeze-answered env counterparty_id (some freeze) s u a e = absurd (cc)

  -- A counterparty that passes the gate has no freeze.
  pub refuse_if_frozen-answered :
      (reading logging : Ambient) (counterparty_id : String) (s u : Service V) (a : Unit)
      → refuse_if_frozen as_text reading logging counterparty_id s ≡ answered a u
      → (selected
            (some (("counterparty_id", d.text counterparty_id) ∷ []))
            (stored "negotiation_freezes" s.gateway)
          ≡ [])
        × (u ≡ s)
  unfolding refuse_if_frozen
  refuse_if_frozen-answered reading logging counterparty_id s u a e =
      let filters = some (("counterparty_id", d.text counterparty_id) ∷ []) in
      let read =
        read_collection reading arbiter_sa "consent_arbiter" "negotiation_freezes" filters none none
          s.gateway in
      let first = follow-answered (with_reply_or (forbidden containment_unverified) read s) _ e in
      let found = with_reply_or-answered (forbidden containment_unverified) read s first.2 in
      let docs =
        (read_collection-returned reading arbiter_sa "consent_arbiter" "negotiation_freezes" filters
          none none s.gateway found.0 first.0 found.1).1 in
      let unchanged : found.0 ≡ s.gateway =
        Checked-returned s.gateway found.0 _
          (read_collection-Audited reading arbiter_sa "consent_arbiter" "negotiation_freezes"
            filters none none s.gateway)
          found.1 in
      let (clear, stayed) =
        refuse_freeze-answered logging counterparty_id (newest as_text first.0) first.1 u a
          first.3 in
      (
        sym docs ∙ newest-none first.0 clear,
        stayed ∙ found.2 ∙ ap (λ g. record s { gateway = g }) unchanged,
      )

module _ {V : Type 0} ⦃d : Dynamic V⦄ where
  check_owner-answered :
      (artist_id : String) (o : Option V) (s u : Service V) (a : Unit)
      → check_owner artist_id o s ≡ answered a u
      → o ≡ some (d.text artist_id)
  check_owner-answered artist_id none s u a e = absurd (cc)
  check_owner-answered artist_id (some owner) s u a e =
      elim (Bool-cases (d.same.beq owner d.null || not (d.same.beq owner (d.text artist_id)))) [
        | inl h ↦
            let k : ◌≡◌ {A = Answer V Unit} (refused (forbidden not_owner) s) (answered a u) =
              rw h at e in
            absurd (cc)
        | inr h ↦ ap some ((d.same.beq_iff owner (d.text artist_id)).0 (ground arith))
      ]

  -- The ownership gate passes only where the first stored work of the id names the authenticated artist.
  pub verify_work_ownership_or_403-owner :
      (env : Ambient) (work_id artist_id : String) (s u : Service V) (a : Unit)
      → verify_work_ownership_or_403 env work_id artist_id s ≡ answered a u
      → owner_of (selected (some (("work_id", d.text work_id) ∷ [])) (stored "works" s.gateway))
        ≡ some (d.text artist_id)
  unfolding verify_work_ownership_or_403
  verify_work_ownership_or_403-owner env work_id artist_id s u a e =
      let filters = some (("work_id", d.text work_id) ∷ []) in
      let read =
        read_collection env custodian_sa "rights_custodian" "works" filters none none s.gateway in
      let first = follow-answered (with_reply_or (forbidden ownership_unverified) read s) _ e in
      let found = with_reply_or-answered (forbidden ownership_unverified) read s first.2 in
      let docs =
        (read_collection-returned env custodian_sa "rights_custodian" "works" filters none none
          s.gateway found.0 first.0 found.1).1 in
      ap owner_of (sym docs) ∙ check_owner-answered artist_id (owner_of first.0) first.1 u a first.3
