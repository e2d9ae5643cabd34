-- ===== src/Api/License/Permitted.antt =====
-- When a license request of src/api/buyer_api.py is permitted: from the signature of the request to the grant
-- in the log.
use mathlib.Core.Path.{subst}
use hodi.Prelude.{
  String, ◌≡◌, refl, sym, ap, ◌∙◌, ◌↔◌, inl, inr, Bool, true, Option, none, some, List, [], ◌∷◌,
  filter, string_eq, Bool-cases, beq→eq, beq_refl, In, In-filter, filter-In, eq_of_some, Result, ok,
  err,
}
use hodi.Schema.Scope.{Scope, ScopeEvaluationResult}
use hodi.Schema.GrantEvent.{GrantEvent, Receipt}
use hodi.Resolve.Resolver.{active_grant_events}
use hodi.Resolve.Resolver.Active.{IsInForce, active_grant_events_correct}
use hodi.Resolve.Evaluator.Containment.{IsCurrent, Holds}
use hodi.Resolve.Evaluator.Permission.{AllGranted, permits-iff-IsHeld}
use hodi.Gateway.Denial.{Dynamic, Dict, Gateway}
use hodi.Gateway.Documents.{selected, read_collection}
use hodi.Gateway.Documents.Reads.{stored, read_collection-returned}
use hodi.Agents.Propagator.{parse_all}
use hodi.Api.Auth.{AuthenticatedCounterparty}
use hodi.Api.Auth.Signed.{IsSigned, authenticate-IsSigned}
use hodi.Api.Http.{
  HttpError, Handler, Service, Answer, answered, follow, or_raise, with_reply, unparsed_event,
  index_error, signer_failed, invalid_document, answered-injective, follow-answered,
  or_raise-answered, with_reply-answered,
}
use hodi.Api.Gates.{negotiator_sa, authenticate_or_403, refuse_if_frozen}
use hodi.Api.Gates.Passed.{authenticate_or_403-answered, refuse_if_frozen-answered}
use hodi.Api.License.{
  LicenseResponse, Services, Moments, LicenseRequest, refused_response, receipt_for, with_signature,
  signed, respond, is_of_work, decide, interpreted, request_license, request_license_natural,
}

module _ {V : Type 0} ⦃d : Dynamic V⦄ (v : Services V) (m : Moments) where
  -- The rows of the log that the caller's session reads on the work.
  abbrev pub own_rows : (counterparty_id work_id : String) → Gateway V → List (Dict V)
  own_rows counterparty_id work_id g =
      selected
        (some (("counterparty_id", d.text counterparty_id) ∷ ("work_id", d.text work_id) ∷ []))
        (stored "grants" g)

  -- A grant of the events, on the work, is in force, current, and holds the scope.
  abbrev pub IsLicensed : List GrantEvent → String → Scope → Type 0
  IsLicensed events work_id scope =
      (g : GrantEvent) × IsInForce g none events
      × (g.work_id ≡ work_id)
      × IsCurrent g.scope m.evaluated_at
      × Holds g.scope scope

  -- A permission comes with a receipt for the caller and the work.
  abbrev pub IsReceipted : AuthenticatedCounterparty → String → LicenseResponse → Type 0
  IsReceipted auth work_id response =
      response.permitted ≡ true
      → (receipt : Receipt) × (response.receipt ≡ some receipt)
        × (receipt.counterparty_id ≡ auth.counterparty_id)
        × (receipt.work_id ≡ some work_id)

  -- What the decision rests on.
  pub record Decided (auth : AuthenticatedCounterparty) (work_id : String) (scope : Scope)
      (response : LicenseResponse) (g : Gateway V) : Type 0 where
    pub events : List GrantEvent
    pub parsed : parse_all v.grant_event (own_rows auth.counterparty_id work_id g) ≡ some events
    pub licensed : (response.permitted ≡ true) ↔ IsLicensed events work_id scope
    pub receipted : IsReceipted auth work_id response

  signed-receipt :
      (auth : AuthenticatedCounterparty) (work_id body : String) (result : ScopeEvaluationResult)
      (o : Option String) (receipt : Receipt)
      → with_signature v m (receipt_for v m auth work_id body result) o ≡ some receipt
      → (receipt.counterparty_id ≡ auth.counterparty_id) × (receipt.work_id ≡ some work_id)
  signed-receipt auth work_id body result none receipt e = absurd (cc)
  signed-receipt auth work_id body result (some signature) receipt e =
      let same = eq_of_some (sym e) in
      (ap (λ (x : Receipt). x.counterparty_id) same, ap (λ (x : Receipt). x.work_id) same)

  respond-answered :
      (auth : AuthenticatedCounterparty) (work_id body : String) (anomaly : Bool)
      (active : List GrantEvent) (scope : Scope) (result : ScopeEvaluationResult)
      (response : LicenseResponse) (s u : Service V)
      → respond v m auth work_id body anomaly active scope (ok result) s ≡ answered response u
      → (response.permitted ≡ result.permitted) × IsReceipted auth work_id response
  respond-answered auth work_id body anomaly active scope result response s u e =
      elim (Bool-cases result.permitted) [
        | inl h ↦
            let k : follow
                  (or_raise signer_failed (signed v m (receipt_for v m auth work_id body result)) s)
                  _
                ≡ answered response u =
              rw h at e in
            let made = follow-answered _ _ k in
            let (receipt, _) =
              or_raise-answered signer_failed
                (signed v m (receipt_for v m auth work_id body result)) s made.2 in
            let (same, _) = answered-injective made.3 in
            let (whose, which) = signed-receipt auth work_id body result _ made.0 receipt in
            (
              ap (λ (x : LicenseResponse). x.permitted) (sym same) ∙ sym h,
              λ yes. (made.0, ap (λ (x : LicenseResponse). x.receipt) (sym same), whose, which),
            )
        | inr h ↦
            let k : ◌≡◌ {A = Answer V LicenseResponse}
                (answered (refused_response v m anomaly scope) s) (answered response u) =
              rw h at e in
            let no = ap (λ (x : LicenseResponse). x.permitted) (sym (answered-injective k).0) in
            (no ∙ sym h, λ yes. absurd (cc))
      ]

  decide-Decided :
      (auth : AuthenticatedCounterparty) (work_id body : String) (anomaly : Bool) (scope : Scope)
      (response : LicenseResponse) (s u : Service V)
      → decide v m auth work_id body anomaly scope s ≡ answered response u
      → Decided auth work_id scope response s.gateway
  unfolding decide
  decide-Decided auth work_id body anomaly scope response s u e =
      let filters =
        some
          (("counterparty_id", d.text auth.counterparty_id) ∷ ("work_id", d.text work_id) ∷ []) in
      let session = some (("counterparty_id", d.text auth.counterparty_id) ∷ []) in
      let read =
        read_collection m.reading_grants negotiator_sa "licensing_negotiator" "grants" filters
          session none s.gateway in
      let first = follow-answered (with_reply read s) _ e in
      let found = with_reply-answered read s first.2 in
      let docs =
        (read_collection-returned m.reading_grants negotiator_sa "licensing_negotiator" "grants"
          filters session none s.gateway found.0 first.0 found.1).1 in
      let second =
        follow-answered (or_raise unparsed_event (parse_all v.grant_event first.0) first.1) _
          first.3 in
      let (parsed, _) =
        or_raise-answered unparsed_event (parse_all v.grant_event first.0) first.1 second.2 in
      let events = second.0 in
      let third =
        follow-answered (or_raise index_error (active_grant_events events none) second.1) _
          second.3 in
      let (collected, _) =
        or_raise-answered index_error (active_grant_events events none) second.1 third.2 in
      let (active, known, exact) = active_grant_events_correct events none in
      let same : third.0 ≡ active = eq_of_some (sym collected ∙ known) in
      let own = filter (is_of_work v m work_id) third.0 in
      let in_force : (g : GrantEvent) → In g own → IsInForce g none events × (g.work_id ≡ work_id) =
        λ g i.
          let (j, w) = In-filter (is_of_work v m work_id) third.0 i in
          ((exact g).0 (subst (In g) same j), beq→eq g.work_id work_id w) in
      let all : AllGranted own = λ g i. (in_force g i).0.1 in
      let (result, evaluated, held) = permits-iff-IsHeld own scope m.evaluated_at all in
      let (permitted, receipted) =
        respond-answered auth work_id body anomaly own scope result response third.1 u (
          subst
            (λ o. respond v m auth work_id body anomaly own scope o third.1 ≡ answered response u)
            evaluated third.3) in
      record {
        events = events;
        parsed = subst (λ rows. parse_all v.grant_event rows ≡ some events) docs parsed;
        licensed = (
          λ yes.
              let (g, i, current, holds) = held.0 (sym permitted ∙ yes) in
              let (force, w) = in_force g i in (g, force, w, current, holds),
          λ (g, force, w, current, holds).
              permitted
              ∙ held.1 (
                g,
                filter-In (is_of_work v m work_id) third.0
                    (subst (In g) (sym same) ((exact g).1 force)) (rw (w, beq_refl work_id) refl),
                current,
                holds,
              ),
        );
        receipted = receipted;
      }

  -- What a request that passed the gates has shown, before the handler goes on: it is signed for a
  -- counterparty's credential, which is the one that the body claims, and which no incident has frozen.
  pub record Gated {Asked : Type 0} (req : LicenseRequest Asked) (auth : AuthenticatedCounterparty)
      (g : Gateway V) : Type 0 where
    pub authentic : IsSigned v.digests req.signed v.store m.authenticating.now auth
    pub own_claim :
        (claimed : String) → req.counterparty_id ≡ some claimed → claimed ≡ auth.counterparty_id
    pub counterparty : auth.principal_type ≡ "counterparty"
    pub unfrozen :
        selected
          (some (("counterparty_id", d.text auth.counterparty_id) ∷ []))
          (stored "negotiation_freezes" g)
        ≡ []

  gates-Gated :
      {Asked B : Type 0} (req : LicenseRequest Asked)
      (rest : AuthenticatedCounterparty → Handler V B) (b : B) (s u : Service V)
      → follow
          (authenticate_or_403 v.digests v.store m.authenticating req.path req.signed
            req.counterparty_id "counterparty" s)
          (λ auth z.
            follow
              (refuse_if_frozen v.as_text m.reading_freezes m.logging auth.counterparty_id z)
              (λ _. rest auth))
        ≡ answered b u
      → (auth : AuthenticatedCounterparty) × Gated req auth s.gateway × (rest auth s ≡ answered b u)
  gates-Gated req rest b s u e =
      let first =
        follow-answered
          (authenticate_or_403 v.digests v.store m.authenticating req.path req.signed
            req.counterparty_id "counterparty" s)
          _ e in
      let (known, own, kind, stayed) =
        authenticate_or_403-answered v.digests v.store m.authenticating req.path req.signed
          req.counterparty_id "counterparty" s first.1 first.0 refl first.2 in
      let second =
        follow-answered
          (refuse_if_frozen v.as_text m.reading_freezes m.logging first.0.counterparty_id first.1) _
          first.3 in
      let (clear, still) =
        refuse_if_frozen-answered v.as_text m.reading_freezes m.logging first.0.counterparty_id
          first.1 second.1 second.0 second.2 in
      (
        first.0,
        record {
          authentic =
              authenticate-IsSigned v.digests req.signed v.store m.authenticating.now first.0 known;
          own_claim = own;
          counterparty = kind;
          unfrozen =
              subst
                (λ (z : Service V).
                  selected (some (("counterparty_id", d.text first.0.counterparty_id) ∷ []))
                    (stored "negotiation_freezes" z.gateway)
                  ≡ [])
                stayed clear;
        },
        subst (λ z. rest first.0 z ≡ answered b u) (still ∙ stayed) second.3,
      )

  -- A license request is answered only for a counterparty that signed it and that no incident has frozen,
  -- and the answer permits exactly where an event in force in the caller's own log of that work is current
  -- and holds the requested scope; a permission carries a receipt for the caller and the work.
  pub request_license-Decided :
      (req : LicenseRequest Scope) (response : LicenseResponse) (s u : Service V)
      → request_license v m req s ≡ answered response u
      → (auth : AuthenticatedCounterparty) × Gated req auth s.gateway
        × Decided auth req.work_id req.asked response s.gateway
  unfolding request_license
  request_license-Decided req response s u e =
      let (auth, gated, rest) =
        gates-Gated req
          (λ auth z. follow (or_raise invalid_document (v.b64decode req.document) z) (λ raw_bytes.
            decide v m auth req.work_id req.signed.body (v.is_injection raw_bytes) req.asked))
          response s u e in
      let decoded =
        follow-answered (or_raise invalid_document (v.b64decode req.document) s) _ rest in
      let (_, kept) = or_raise-answered invalid_document (v.b64decode req.document) s decoded.2 in
      (
        auth,
        gated,
        subst (λ (z : Service V). Decided auth req.work_id req.asked response z.gateway) kept
            (decide-Decided auth req.work_id req.signed.body (v.is_injection decoded.0) req.asked
              response decoded.1 u decoded.3),
      )

  -- A request in natural language is answered under the same gates, with the scope that the interpreter
  -- returned, and the answer permits exactly where the log holds that scope: the interpreter has no other
  -- say in it.
  pub request_license_natural-Decided :
      (req : LicenseRequest String) (scope : Scope) (response : LicenseResponse) (s u : Service V)
      → request_license_natural v m req s ≡ answered (scope, response) u
      → (v.interpret req.asked m.interpreting_at ≡ ok scope)
        × ((auth : AuthenticatedCounterparty) × Gated req auth s.gateway
            × Decided auth req.work_id scope response s.gateway)
  unfolding request_license_natural
  request_license_natural-Decided req scope response s u e =
      let (auth, gated, rest) =
        gates-Gated req
          (λ auth z.
            follow (interpreted v m (v.interpret req.asked m.interpreting_at) z) (λ scope z.
              follow
                (decide v m auth req.work_id req.signed.body (v.is_injection req.asked) scope z)
                (λ response. answered (scope, response))))
          (scope, response) s u e in
      let read =
        follow-answered (interpreted v m (v.interpret req.asked m.interpreting_at) s) _ rest in
      let (meant, kept) =
        interpreted-answered (v.interpret req.asked m.interpreting_at) s read.1 read.0 read.2 in
      let decided =
        follow-answered
          (decide v m auth req.work_id req.signed.body (v.is_injection req.asked) read.0 read.1) _
          read.3 in
      let (same, _) = answered-injective decided.3 in
      (
        meant ∙ ap (λ p. ok p.0) same,
        (
          auth,
          gated,
          subst (λ (z : Service V). Decided auth req.work_id scope response z.gateway) kept
              (subst (λ p. Decided auth req.work_id p.0 p.1 read.1.gateway) same
                (decide-Decided auth req.work_id req.signed.body (v.is_injection req.asked) read.0
                  decided.0 read.1 decided.1 decided.2)),
        ),
      )
    where
      interpreted-answered :
          (o : Result (HttpError V) Scope) (z y : Service V) (scope : Scope)
          → interpreted v m o z ≡ answered scope y
          → (o ≡ ok scope) × (y ≡ z)
      interpreted-answered (err x) z y scope e = absurd (cc)
      interpreted-answered (ok found) z y scope e =
          let (same, stayed) = answered-injective e in (ap ok same, sym stayed)
