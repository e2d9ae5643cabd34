-- ===== src/Schema/GrantEvent.antt =====
-- src/schema/grant_event.py: the events of the append-only grant log.
use hodi.Prelude.{ℕ, String, Option}
use hodi.Schema.Vocabulary.{EventKind}
use hodi.Schema.Scope.{Scope}

pub record GrantEvent : Type 0 where
  pub event_id : String
  pub grant_id : String
  pub work_id : String
  pub counterparty_id : String
  pub scope : Scope
  pub kind : EventKind
  pub supersedes : Option String
  pub issued_at : ℕ
  pub signature : String

pub record Receipt : Type 0 where
  pub receipt_id : String
  pub grant_id : String
  pub work_id : Option String
  pub counterparty_id : String
  pub payload_hash : String
  pub issued_at : ℕ
  pub signature : String
