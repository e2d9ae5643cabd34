-- ===== src/Agents/Tests.antt =====
-- Runs of src/agents/consent_arbiter.py.
use hodi.Prelude.{String, none, some, [], Option}
use hodi.Schema.Assertion.{TypedAssertion, observed_http_access, grant_did_not_exist}
use hodi.Gateway.Tests.{text_values, ambient}
use hodi.Agents.Arbiter.{
  read_raw_evidence, read_buyer_terms, read_artist_identity, rewrite_grant_history,
}
use hodi.Agents.Arbiter.Walled.{Refused, arbiter-Refused}

abbrev seen : TypedAssertion
seen = record {
  assertion_id = "a1";
  assertion_class = observed_http_access;
  asserted_by_role = "evidence_agent";
  subject_work_id = "w1";
  subject_principal = none;
  observed_at = some 5;
  basis = "log";
  evidence_ref = none;
  recorded_at = 6;
}

abbrev ungranted : TypedAssertion
ungranted = record seen {
  assertion_id = "a2";
  assertion_class = grant_did_not_exist;
  asserted_by_role = "licensing_negotiator";
}

arbiter-Refused_example :
    Refused (read_raw_evidence {V = Option String} ambient)
    × Refused (read_buyer_terms {V = Option String} ambient (some "c1"))
    × Refused (read_artist_identity {V = Option String} ambient)
    × Refused (rewrite_grant_history {V = Option String} ambient "g1" [])
arbiter-Refused_example = arbiter-Refused ambient (some "c1") "g1" []
