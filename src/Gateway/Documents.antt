-- ===== src/Gateway/Documents.antt =====
-- src/gateway/gateway.py: reading a collection, creating documents one by one and all or none, and
-- submitting an assertion, with no Firestore client: under HODI_OFFLINE `handles` of
-- src/gateway/domain_client.py answers False, so nothing is delegated.
pub mod Reads
pub mod Appends
pub mod Commits
pub mod Batches
pub mod Claims
pub mod Clashes
pub mod BatchClashes
use hodi.Prelude.Tables.{get, set_item}
use hodi.Prelude.{
  ℕ, String, Bool, true, false, not, ◌&&◌, Option, none, some, List, [], ◌∷◌, ◌++◌, ◌==◌, string_eq,
  if◌then◌else◌, ltb, all, filter, map, length, any,
}
use hodi.Prelude.Sort.{sorted_set, distinct}
use hodi.Prelude.TextOrder.{text_le}
use hodi.Schema.Iam.{database_for_collection}
use hodi.Schema.Assertion.{TypedAssertion, AssertionClass, class_name, may_assert}
use hodi.Gateway.Identity.{CallerIdentity}
use hodi.Gateway.Denial.{
  Dynamic, Dict, spans_databases, lacks_authority, already_exists, Gateway, Ambient, Reply,
  returned, raised, Action, ◌>>=◌, ◌>>◌, pure, refuse,
}
use hodi.Gateway.Policy.{enforce, enforce_lease, deny, denial_event}

abbrev pub or_empty {ℓ} : {A : Type ℓ} → Option (List A) → List A
or_empty none = []
or_empty (some l) = l

abbrev pub is_some {ℓ} : {A : Type ℓ} → Option A → Bool
is_some none = false
is_some (some a) = true

abbrev join_from : String → List String → String
join_from first [] = first
join_from first (s ∷ rest) =
    Prim.Native.String.◌++◌ first (Prim.Native.String.◌++◌ "," (join_from s rest))

-- `",".join(names)`
abbrev join_commas : List String → String
join_commas [] = ""
join_commas (s ∷ rest) = join_from s rest

-- (collection, doc_id, data)
pub record Write (V : Type 0) : Type 0 where
  pub collection : String
  pub doc_id : String
  pub fields : Dict V

module _ {V : Type 0} ⦃d : Dynamic V⦄ where
  -- `_offline_writes.get(collection, {})`
  unfoldable pub bucket : String → Gateway V → List (String × Dict V)
  unfolding get
  bucket collection g = or_empty (get collection g.offline_writes)

  -- `_offline_writes.setdefault(collection, {})[doc_id] = dict(data)`
  unfoldable pub put : Write V → Gateway V → Gateway V
  unfolding bucket set_item
  put w g = record g {
    offline_writes =
        set_item w.collection (set_item w.doc_id w.fields (bucket w.collection g)) g.offline_writes;
  }

  -- `doc.get(key)`
  abbrev pub or_null : Option V → V
  or_null none = d.null
  or_null (some v) = v

  unfoldable pub is_match : Dict V → Dict V → Bool
  unfolding get
  is_match filters doc = all (λ f. d.same.beq (or_null (get f.0 doc)) f.1) filters

  abbrev pub selected : Option (Dict V) → List (Dict V) → List (Dict V)
  selected none docs = docs
  selected (some filters) docs = filter (is_match filters) docs

  unfoldable pub read_collection :
      Ambient
      → (calling_sa calling_role_key collection : String)
        (filters session_context : Option (Dict V))
      → Option CallerIdentity
      → Action V (List (Dict V))
  unfolding enforce is_match bucket get
  read_collection env calling_sa calling_role_key collection filters session_context identity = do
    enforce env calling_sa calling_role_key collection filters session_context identity
    λ g.
        returned
          (selected filters (
            or_empty (get collection g.offline_reads)
            ++ map (λ entry. entry.1) (bucket collection g)))
          g

  -- `.create()`: a taken id raises and changes nothing.
  unfoldable pub create : Write V → Action V Unit
  unfolding put bucket get
  create w g =
      if is_some (get w.doc_id (bucket w.collection g))
      then raised (already_exists w.collection w.doc_id) g
      else returned tt (put w g)

  unfoldable pub write_document :
      Ambient
      → (calling_sa calling_role_key : String) → Write V
      → (lease_id : Option String) → Option CallerIdentity
      → Action V Unit
  unfolding enforce create
  write_document env calling_sa calling_role_key w lease_id identity = do
    enforce env calling_sa calling_role_key w.collection none none identity
    enforce_lease env calling_sa calling_role_key w.collection lease_id
    create w

  unfoldable pub enforce_all :
      Ambient
      → (calling_sa calling_role_key : String) → (lease_id : Option String) → List (Write V)
      → Action V Unit
  unfolding enforce
  enforce_all env calling_sa calling_role_key lease_id [] = pure tt
  enforce_all env calling_sa calling_role_key lease_id (w ∷ rest) = do
    enforce env calling_sa calling_role_key w.collection none none none
    enforce_lease env calling_sa calling_role_key w.collection lease_id
    enforce_all env calling_sa calling_role_key lease_id rest

  -- The databases of the writes, each once, and the refusal where there are two.
  unfoldable pub databases : String → List (Write V) → List String
  unfolding distinct database_for_collection
  databases calling_role_key writes =
      distinct (map (λ w. database_for_collection calling_role_key w.collection) writes)

  unfoldable pub enforce_one_database :
      Ambient → (calling_sa calling_role_key : String) → List (Write V) → Action V Unit
  unfolding databases deny sorted_set
  enforce_one_database env calling_sa calling_role_key writes =
      if ltb 1 (length (databases calling_role_key writes))
      then deny env calling_sa calling_role_key
          (join_commas (sorted_set (map (λ w. w.collection) writes))) "domain_database_routing_v1"
          (spans_databases (sorted_set (databases calling_role_key writes)))
      else pure tt

  -- Every id free, or the first that is taken raises.
  unfoldable pub check_free : List (Write V) → Action V Unit
  unfolding bucket get
  check_free [] g = returned tt g
  check_free (w ∷ rest) g =
      let later = check_free rest g in
      if is_some (get w.doc_id (bucket w.collection g))
      then raised (already_exists w.collection w.doc_id) g
      else later

  unfoldable pub put_all : List (Write V) → Gateway V → Gateway V
  unfolding put
  put_all [] g = g
  put_all (w ∷ rest) g = put_all rest (put w g)

  unfoldable pub write_documents_atomic :
      Ambient
      → (calling_sa calling_role_key : String) → List (Write V)
      → (lease_id : Option String) → Action V Unit
  unfolding enforce_all enforce_one_database check_free put_all
  write_documents_atomic env calling_sa calling_role_key writes lease_id = do
    enforce_all env calling_sa calling_role_key lease_id writes
    enforce_one_database env calling_sa calling_role_key writes
    check_free writes
    λ g. returned tt (put_all writes g)

  unfoldable pub submit_assertion :
      Ambient → (calling_sa calling_role_key : String) → TypedAssertion → Action V TypedAssertion
  submit_assertion env calling_sa calling_role_key assertion =
      if not (may_assert calling_role_key assertion.assertion_class)
      then refuse (
          denial_event env calling_sa calling_role_key "incident_assertions"
            (some (("assertion_class", d.text (class_name assertion.assertion_class)) ∷ []))
            (some (("asserted_by_role", d.text assertion.asserted_by_role) ∷ []))
            "assertion_authority_v1"
            (lacks_authority calling_role_key (class_name assertion.assertion_class)))
      else pure assertion
