-- ===== src/Api/Http.antt =====
-- A handler of src/api/buyer_api.py as a call on the gateway: it answers, or raises an HTTPException, or lets
-- another exception out. The denials that it logs through a gateway of its own are kept apart.
use hodi.Prelude.{String, ◌≡◌, refl, Option, none, some, List}
use hodi.Resolve.Evaluator.{NotFolded}
use hodi.Gateway.Denial.{PolicyDenialEvent, GatewayError, Gateway, Reply, returned, raised, Action}
use hodi.Api.Auth.{AuthenticationError}

-- What a 403 says.
pub data Forbidden : Type 0 where
  not_authenticated : AuthenticationError → Forbidden
  other_counterparty : Forbidden
  wrong_principal : (required : String) → Forbidden
  containment_unverified : Forbidden
  frozen : (incident_id freeze_id : String) → Forbidden
  ownership_unverified : Forbidden
  not_owner : Forbidden

pub data HttpError (V : Type 0) : Type 0 where
  forbidden : Forbidden → HttpError V
  invalid_document : HttpError V
  uncaught : GatewayError V → HttpError V
  unparsed_event : HttpError V
  not_folded : NotFolded → HttpError V
  index_error : HttpError V
  signer_failed : HttpError V

-- The gateway that the handlers share, and the denials that handlers recorded in gateways of their own.
pub record Service (V : Type 0) : Type 0 where
  pub gateway : Gateway V
  pub denied : List (PolicyDenialEvent V)

pub data Answer (V A : Type 0) : Type 0 where
  answered : A → Service V → Answer V A
  refused : HttpError V → Service V → Answer V A

abbrev pub Handler : Type 0 → Type 0 → Type 0
Handler V A = Service V → Answer V A

module _ {V : Type 0} where
  infixl 5 ◌>>=◌ ◌>>◌
  abbrev pub follow : {A B : Type 0} → Answer V A → (A → Handler V B) → Answer V B
  follow (answered a s) f = f a s
  follow (refused e s) f = refused e s

  abbrev pub ◌>>=◌ : {A B : Type 0} → Handler V A → (A → Handler V B) → Handler V B
  ◌>>=◌ m f s = follow (m s) f

  abbrev pub ◌>>◌ : {A B : Type 0} → Handler V A → Handler V B → Handler V B
  ◌>>◌ m k s = follow (m s) (λ _. k)

  abbrev pub pure : {A : Type 0} → A → Handler V A
  pure a s = answered a s

  abbrev pub raise : {A : Type 0} → HttpError V → Handler V A
  raise e s = refused e s

  abbrev pub or_raise : {A : Type 0} → HttpError V → Option A → Handler V A
  or_raise e none s = refused e s
  or_raise e (some a) s = answered a s

  abbrev pub with_reply : {A : Type 0} → Reply V A → Service V → Answer V A
  with_reply (returned a g) s = answered a (record s { gateway = g })
  with_reply (raised e g) s = refused (uncaught e) (record s { gateway = g })

  -- A call of the shared gateway.
  abbrev pub call : {A : Type 0} → Action V A → Handler V A
  call action s = with_reply (action s.gateway) s

  abbrev pub with_reply_or : {A : Type 0} → HttpError V → Reply V A → Service V → Answer V A
  with_reply_or e (returned a g) s = answered a (record s { gateway = g })
  with_reply_or e (raised x g) s = refused e (record s { gateway = g })

  -- A call whose every exception is turned into the one error: `except Exception`.
  abbrev pub call_or : {A : Type 0} → HttpError V → Action V A → Handler V A
  call_or e action s = with_reply_or e (action s.gateway) s

  pub answered-injective :
      {A : Type 0} {a b : A} {s u : Service V} → answered a s ≡ answered b u → (a ≡ b) × (s ≡ u)
  answered-injective e = (cc, cc)

  pub follow-answered :
      {A B : Type 0} (m : Answer V A) (f : A → Handler V B) {b : B} {u : Service V}
      → follow m f ≡ answered b u
      → (a : A) × (s : Service V) × (m ≡ answered a s) × (f a s ≡ answered b u)
  follow-answered (answered a s) f e = (a, s, refl, e)
  follow-answered (refused x s) f e = absurd (cc)

  pub or_raise-answered :
      {A : Type 0} (e : HttpError V) (o : Option A) (s : Service V) {a : A} {u : Service V}
      → or_raise e o s ≡ answered a u
      → (o ≡ some a) × (u ≡ s)
  or_raise-answered e none s k = absurd (cc)
  or_raise-answered e (some b) s k = (cc, cc)

  pub with_reply-answered :
      {A : Type 0} (m : Reply V A) (s : Service V) {a : A} {u : Service V}
      → with_reply m s ≡ answered a u
      → (g : Gateway V) × (m ≡ returned a g) × (u ≡ record s { gateway = g })
  with_reply-answered (returned b g) s k = (g, cc, cc)
  with_reply-answered (raised x g) s k = absurd (cc)

  pub with_reply_or-answered :
      {A : Type 0} (e : HttpError V) (m : Reply V A) (s : Service V) {a : A} {u : Service V}
      → with_reply_or e m s ≡ answered a u
      → (g : Gateway V) × (m ≡ returned a g) × (u ≡ record s { gateway = g })
  with_reply_or-answered e (returned b g) s k = (g, cc, cc)
  with_reply_or-answered e (raised x g) s k = absurd (cc)
