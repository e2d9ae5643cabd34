-- ===== src/Agents/Propagator/Calls.antt =====
-- What the cascade of src/agents/revocation_propagator.py acts on and what it calls: the gateway, the
-- in-memory events, and the collaborators that are not the repository's (pydantic, sha256, the
-- signer, the model behind the drafter, the clock).
use hodi.Prelude.{ℕ, String, Option, none, some, List, Result, ok, err}
use hodi.Schema.GrantEvent.{GrantEvent}
use hodi.Schema.Revocation.{RevocationNotice, RevocationReceipt, NoticeOutboxRecord}
use hodi.Evidence.RevocationLint.{RevocationLintError}
use hodi.Gateway.Denial.{Dict, GatewayError, Gateway, Ambient, Reply, returned, raised, Action}
use hodi.Agents.NoticeDrafter.{Drafting}

-- `model_dump()` and `Model(**row)`, which is `none` where pydantic refuses the row.
pub record Codec (V A : Type 0) : Type 0 where
  pub dump : A → Dict V
  pub parse : Dict V → Option A

-- `as_text` reads a value that is a text.
pub record Services (V : Type 0) : Type 0 where
  pub grant_event : Codec V GrantEvent
  pub outbox_record : Codec V NoticeOutboxRecord
  pub dump_notice : RevocationNotice → Dict V
  pub as_text : V → String
  pub sha256 : String → String
  pub drafting : Drafting

-- What each call draws from its surroundings: the reads, the instant of the cascade, and for each round
-- of a loop its own clock and its own signature, which is `none` where the signer raises. Two signatures of
-- one document may differ.
pub record Clock : Type 0 where
  pub reading : Ambient
  pub cascade_at : ℕ
  pub round_at : ℕ → ℕ
  pub committing : ℕ → Ambient
  pub reading_outbox : Ambient
  pub delivering : ℕ → Ambient
  pub sign_event : ℕ → (kind reference : String) → GrantEvent → Option String
  pub sign_receipt : ℕ → (kind reference : String) → RevocationReceipt → Option String

pub record World (V : Type 0) : Type 0 where
  pub gateway : Gateway V
  pub memory_bank_events : List GrantEvent

pub data CascadeError (V : Type 0) : Type 0 where
  gateway_error : GatewayError V → CascadeError V
  lint_error : RevocationLintError → CascadeError V
  validation_error signing_error key_error : CascadeError V

pub data Outcome (V A : Type 0) : Type 0 where
  done : A → World V → Outcome V A
  failed : CascadeError V → World V → Outcome V A

abbrev pub Step : Type 0 → Type 0 → Type 0
Step V A = World V → Outcome V A

module _ {V : Type 0} where
  infixl 5 ◌>>=◌ ◌>>◌
  abbrev pub next : {A B : Type 0} → Outcome V A → (A → Step V B) → Outcome V B
  next (done a w) f = f a w
  next (failed e w) f = failed e w

  abbrev pub ◌>>=◌ : {A B : Type 0} → Step V A → (A → Step V B) → Step V B
  ◌>>=◌ m f w = next (m w) f

  abbrev pub ◌>>◌ : {A B : Type 0} → Step V A → Step V B → Step V B
  ◌>>◌ m k w = next (m w) (λ _. k)

  abbrev pub pure : {A : Type 0} → A → Step V A
  pure a w = done a w

  abbrev pub or_raise : {A : Type 0} → CascadeError V → Option A → Step V A
  or_raise e none w = failed e w
  or_raise e (some a) w = done a w

  abbrev pub check : {A : Type 0} → Result RevocationLintError A → Step V A
  check (err e) w = failed (lint_error e) w
  check (ok a) w = done a w

  abbrev pub answer : {A : Type 0} → Reply V A → World V → Outcome V A
  answer (returned a g) w = done a (record w { gateway = g })
  answer (raised e g) w = failed (gateway_error e) (record w { gateway = g })

  -- A call of the gateway.
  abbrev pub call : {A : Type 0} → Action V A → Step V A
  call action w = answer (action w.gateway) w

  -- The world that an outcome leaves.
  abbrev pub world_of : {A : Type 0} → Outcome V A → World V
  world_of (done a w) = w
  world_of (failed e w) = w
