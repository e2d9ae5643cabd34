-- ===== src/Gateway/Documents/Reads.antt =====
-- What a read through src/gateway/gateway.py can hand out.
use mathlib.Core.Path.{subst}
use hodi.Prelude.Tables.{get, get-In}
use hodi.Prelude.{
  String, ◌≡◌, refl, ap, ◌∙◌, true, false, Option, none, some, List, ◌++◌, ok, ok-injective, ◌==◌,
  string_eq, all-In, In, In-filter, map,
}
use hodi.Schema.Iam.{get_action_permission}
use hodi.Gateway.Identity.{CallerIdentity, coerce}
use hodi.Gateway.Denial.{Dynamic, Dict, Gateway, Ambient, returned, returned-after}
use hodi.Gateway.Policy.{get_in, enforce}
use hodi.Gateway.Policy.Audit.{Audited, Audited-after, enforce-Checked}
use hodi.Gateway.Policy.Access.{Admitted, InSession, enforce-returned}
use hodi.Gateway.Documents.{read_collection, bucket, or_empty, or_null, selected, is_match}

module _ {V : Type 0} ⦃d : Dynamic V⦄ where
  -- The documents of a collection, loaded or written.
  abbrev pub stored : String → Gateway V → List (Dict V)
  stored collection g =
      or_empty (get collection g.offline_reads) ++ map (λ entry. entry.1) (bucket collection g)

  -- A read changes nothing but the record of denials, and records the one it raises.
  pub read_collection-Audited :
      (env : Ambient) (calling_sa calling_role_key collection : String)
      (filters session_context : Option (Dict V)) (identity : Option CallerIdentity) (g : Gateway V)
      → Audited
          (λ h. h ≡ g)
          g
          (read_collection env calling_sa calling_role_key collection filters session_context
            identity g)
  unfolding read_collection
  read_collection-Audited env calling_sa calling_role_key collection filters session_context
        identity g =
      Audited-after (λ h. h ≡ g) g
        (enforce env calling_sa calling_role_key collection filters session_context identity g) _
        (enforce-Checked env calling_sa calling_role_key collection filters session_context identity
          g)
        (λ a. refl)

  pub read_collection-returned :
      (env : Ambient) (calling_sa calling_role_key collection : String)
      (filters session_context : Option (Dict V)) (identity : Option CallerIdentity)
      (g h : Gateway V) (docs : List (Dict V))
      → read_collection env calling_sa calling_role_key collection filters session_context identity
          g
        ≡ returned docs h
      → Admitted env calling_sa calling_role_key collection filters session_context identity
        × (docs ≡ selected filters (stored collection g))
  unfolding read_collection
  read_collection-returned env calling_sa calling_role_key collection filters session_context
        identity g h docs e =
      let passed =
        returned-after
          (enforce env calling_sa calling_role_key collection filters session_context identity g) _
          e in
      let why =
        enforce-returned env calling_sa calling_role_key collection filters session_context identity
          g passed.1 passed.0 passed.2 in
      (
        why.1,
        subst (λ u. docs ≡ selected filters (stored collection u)) why.0
            (the_docs passed.1 passed.3),
      )
    where
      the_docs :
          (u : Gateway V)
          → returned (selected filters (stored collection u)) u ≡ returned docs h
          → docs ≡ selected filters (stored collection u)
      the_docs u e = cc

  selected-matches :
      (key : String) (v : V) (filters : Option (Dict V)) (docs : List (Dict V)) (doc : Dict V)
      → get_in key filters ≡ some v
      → In doc (selected filters docs)
      → or_null (get key doc) ≡ v
  unfolding get_in is_match
  selected-matches key v none docs doc h m = absurd (cc)
  selected-matches key v (some table) docs doc h m = (d.same.beq_iff (or_null (get key doc)) v).0 (
      all-In (λ f. d.same.beq (or_null (get f.0 doc)) f.1) table
        (In-filter (is_match table) docs m).1 (get-In key table v h))

  -- Every document of a read is the session's own: where the policy binds the caller's role to a key
  -- in this collection, the session has a value for that key, and each returned document has it too.
  pub read_collection-In_session :
      (env : Ambient) (calling_sa calling_role_key collection : String)
      (filters session_context : Option (Dict V)) (identity : Option CallerIdentity)
      (g h : Gateway V) (docs : List (Dict V)) (caller : CallerIdentity) (key : String)
      → read_collection env calling_sa calling_role_key collection filters session_context identity
          g
        ≡ returned docs h
      → coerce identity calling_sa calling_role_key ≡ ok caller
      → get_action_permission caller.role_key collection ≡ (true, some key)
      → (key == "") ≡ false
      → (v : V) × (get_in key session_context ≡ some v)
        × ((doc : Dict V) → In doc docs → or_null (get key doc) ≡ v)
  read_collection-In_session env calling_sa calling_role_key collection filters session_context
        identity g h docs caller key e known keyed named =
      let r =
        read_collection-returned env calling_sa calling_role_key collection filters session_context
          identity g h docs e in
      let same : r.0.caller ≡ caller = ok-injective _ r.0.coerced known in
      let bound =
        subst (InSession filters session_context)
          (ap (λ c. (get_action_permission c.role_key collection).1) same ∙ ap (λ p. p.1) keyed)
          r.0.in_session named in
      (
        bound.0,
        bound.2,
        λ doc m.
            selected-matches key bound.0 filters (stored collection g) doc bound.1
              (subst (In doc) r.1 m),
      )
