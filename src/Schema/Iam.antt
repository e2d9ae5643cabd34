-- ===== src/Schema/Iam.antt =====
-- src/schema/iam_policy.py: which role may touch which collection, and in which database it lies.
-- Roles and collections are the texts that a caller supplies. `role_name` and `description`, which
-- no code reads, are left out.
pub mod Rows
pub mod Walls
use Prim.Native.Char.{code}
use hodi.Prelude.Tables.{get}
use hodi.Prelude.{
  String, Bool, true, false, ◌||◌, Option, none, some, List, [], ◌∷◌, ◌==◌, string_eq, contains,
  nat_beq, if◌then◌else◌,
}

-- An entry of `permitted_collections`: a name, or a name with a required filter key.
pub data Permission : Type 0 where
  whole : String → Permission
  keyed : String → String → Permission

pub record AgentInfo : Type 0 where
  pub sa_email : String
  pub conflict_domain : String
  pub permitted_collections : List Permission
  pub denied_collections : List String

abbrev rights_custodian : AgentInfo
rights_custodian = record {
  sa_email = "rights-custodian-sa@hodi-2026.iam.gserviceaccount.com";
  conflict_domain = "identity";
  permitted_collections = whole "works" ∷ whole "artists" ∷ whole "control_proofs" ∷ [];
  denied_collections =
      "buyer_terms" ∷ "crawler_access" ∷ "canaries" ∷ "revocation_notices" ∷ "revocation_outbox"
      ∷ [];
}

abbrev licensing_negotiator : AgentInfo
licensing_negotiator = record {
  sa_email = "licensing-negotiator-sa@hodi-2026.iam.gserviceaccount.com";
  conflict_domain = "buyer_terms";
  permitted_collections =
      keyed "buyer_terms" "counterparty_id"
      ∷ whole "receipts"
      ∷ keyed "grants" "counterparty_id"
      ∷ [];
  denied_collections =
      "artists" ∷ "works" ∷ "crawler_access" ∷ "canaries" ∷ "revocation_notices"
      ∷ "revocation_outbox" ∷ [];
}

abbrev evidence_agent : AgentInfo
evidence_agent = record {
  sa_email = "evidence-agent-sa@hodi-2026.iam.gserviceaccount.com";
  conflict_domain = "evidence";
  permitted_collections =
      whole "crawler_access"
      ∷ whole "canaries"
      ∷ whole "evidence_records"
      ∷ whole "canary_hits"
      ∷ whole "verbatim_matches"
      ∷ whole "redistribution_findings"
      ∷ whole "accrual_audits"
      ∷ [];
  denied_collections =
      "artists" ∷ "buyer_terms" ∷ "grants" ∷ "revocation_notices" ∷ "revocation_outbox" ∷ [];
}

abbrev revocation_propagator : AgentInfo
revocation_propagator = record {
  sa_email = "revocation-propagator-sa@hodi-2026.iam.gserviceaccount.com";
  conflict_domain = "revocation";
  permitted_collections =
      whole "grants" ∷ whole "revocation_notices" ∷ whole "revocation_outbox" ∷ [];
  denied_collections = "artists" ∷ "buyer_terms" ∷ "crawler_access" ∷ "canaries" ∷ [];
}

abbrev consent_arbiter : AgentInfo
consent_arbiter = record {
  sa_email = "consent-arbiter-sa@hodi-2026.iam.gserviceaccount.com";
  conflict_domain = "adjudication";
  permitted_collections =
      whole "incidents" ∷ whole "incident_assertions" ∷ whole "negotiation_freezes" ∷ [];
  denied_collections =
      "artists" ∷ "works" ∷ "control_proofs" ∷ "buyer_terms" ∷ "grants" ∷ "crawler_access"
      ∷ "canaries" ∷ "evidence_records" ∷ "revocation_notices" ∷ "revocation_outbox" ∷ "receipts"
      ∷ [];
}

abbrev sandbox_agent : AgentInfo
sandbox_agent = record {
  sa_email = "sandbox-agent-sa@hodi-2026.iam.gserviceaccount.com";
  conflict_domain = "sandbox";
  permitted_collections =
      whole "demo_grants"
      ∷ whole "demo_revocation_notices"
      ∷ whole "demo_revocation_outbox"
      ∷ whole "demo_works"
      ∷ whole "demo_leases"
      ∷ [];
  denied_collections =
      "grants" ∷ "works" ∷ "artists" ∷ "control_proofs" ∷ "buyer_terms" ∷ "crawler_access"
      ∷ "canaries" ∷ "evidence_records" ∷ "revocation_notices" ∷ "revocation_outbox" ∷ "receipts"
      ∷ "counterparty_credentials" ∷ "leases" ∷ "incidents" ∷ [];
}

abbrev pub agent_sa_map : List (String × AgentInfo)
agent_sa_map =
    ("rights_custodian", rights_custodian)
    ∷ ("licensing_negotiator", licensing_negotiator)
    ∷ ("evidence_agent", evidence_agent)
    ∷ ("revocation_propagator", revocation_propagator)
    ∷ ("consent_arbiter", consent_arbiter)
    ∷ ("sandbox_agent", sandbox_agent)
    ∷ []

abbrev pub conflict_domain_database : List (String × String)
conflict_domain_database =
    ("identity", "hodi-identity")
    ∷ ("buyer_terms", "hodi-commercial")
    ∷ ("evidence", "hodi-evidence")
    ∷ ("revocation", "(default)")
    ∷ ("adjudication", "hodi-adjudication")
    ∷ ("sandbox", "(default)")
    ∷ []

-- `table.get(k, default)`
abbrev or_default : Option String → String → String
or_default none default = default
or_default (some v) default = v

unfoldable pub database_for_role : String → String
unfolding get
database_for_role agent_role = elim (get agent_role agent_sa_map) [
  | none ↦ "(default)"
  | some info ↦ or_default (get info.conflict_domain conflict_domain_database) "(default)"
]

abbrev pub credential_database : String
credential_database = "hodi-credentials"

abbrev pub credential_collections : List String
credential_collections = "counterparty_credentials" ∷ []

abbrev pub default_database_collections : List String
default_database_collections =
    "grants" ∷ "revocation_notices" ∷ "revocation_outbox" ∷ "leases" ∷ "agent_registry_events"
    ∷ "e2e_memory_bank_events" ∷ "demo_grants" ∷ "demo_revocation_notices"
    ∷ "demo_revocation_outbox" ∷ "demo_works" ∷ "demo_leases" ∷ []

-- `name.split("/")[0]`
unfoldable pub root_segment : String → String
root_segment String.[] = String.[]
root_segment (String.◌∷◌ c s) =
    let rest = String.◌∷◌ c (root_segment s) in if nat_beq (code c) b'/' then String.[] else rest

unfoldable pub database_for_collection : String → String → String
unfolding root_segment database_for_role
database_for_collection agent_role collection_name =
    let root = root_segment collection_name in
    if contains root credential_collections
    then credential_database
    else if contains root default_database_collections
    then "(default)"
    else database_for_role agent_role

-- The loop over `permitted_collections`: the required filter key of the first entry that names the
-- root, if some entry does.
unfoldable pub find_permission : String → List Permission → Bool × Option String
find_permission root [] = (false, none)
find_permission root (whole collection ∷ rest) =
    let later = find_permission root rest in if root == collection then (true, none) else later
find_permission root (keyed collection key ∷ rest) =
    let later = find_permission root rest in if root == collection then (true, some key) else later

unfoldable pub permission_of : AgentInfo → String → Bool × Option String
unfolding find_permission
permission_of info collection_name =
    let root = root_segment collection_name in
    if contains root info.denied_collections || contains collection_name info.denied_collections
    then (false, none)
    else find_permission root info.permitted_collections

abbrev pub permission_in : Option AgentInfo → String → Bool × Option String
permission_in none collection_name = (false, none)
permission_in (some info) collection_name = permission_of info collection_name

unfoldable pub get_action_permission : String → String → Bool × Option String
unfolding permission_of root_segment get
get_action_permission agent_role collection_name =
    permission_in (get agent_role agent_sa_map) collection_name

unfoldable pub is_action_permitted : String → String → Bool
unfolding get_action_permission
is_action_permitted agent_role collection_name =
    (get_action_permission agent_role collection_name).0
