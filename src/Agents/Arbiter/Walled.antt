-- ===== src/Agents/Arbiter/Walled.antt =====
-- The calls of src/agents/consent_arbiter.py that reach for the domains of others.
use hodi.Prelude.{String, ◌≡◌, ◌≢◌, refl, sym, ap, ◌∙◌, false, Option, none, some, [], ◌∷◌}
use hodi.Schema.Iam.{get_action_permission}
use hodi.Gateway.Identity.Binding.{coerce-IsBound}
use hodi.Gateway.Denial.{Dynamic, Dict, Gateway, Ambient, Action, returned}
use hodi.Gateway.Policy.Access.{Admitted}
use hodi.Gateway.Documents.Reads.{read_collection-returned}
use hodi.Gateway.Documents.Commits.{write_document-Committed}
use hodi.Agents.Arbiter.{
  arbiter_sa, read_raw_evidence, read_buyer_terms, read_artist_identity, rewrite_grant_history,
}

module _ {V : Type 0} ⦃d : Dynamic V⦄ where
  -- The call never returns.
  abbrev pub Refused : {A : Type 0} → Action V A → Type 0
  Refused {A} m = (g h : Gateway V) (a : A) → m g ≢ returned a h

  unadmitted :
      (env : Ambient) (collection : String) (filters session_context : Option (Dict V))
      → (get_action_permission "consent_arbiter" collection).0 ≡ false
      → Admitted env arbiter_sa "consent_arbiter" collection filters session_context none
      → ⊥
  unadmitted env collection filters session_context h a =
      let role = (coerce-IsBound arbiter_sa "consent_arbiter" a.caller a.coerced).1 in
      let p = ap (λ r. (get_action_permission r collection).0) (sym role) ∙ a.permitted in
      absurd (cc)

  -- The arbiter reads no raw evidence, no buyer terms and no artist, even in a session of the counterparty,
  -- and writes no grant history, whatever the gateway holds.
  pub arbiter-Refused :
      (env : Ambient) (counterparty_id : V) (doc_id : String) (fields : Dict V)
      → Refused (read_raw_evidence {V = V} env)
        × Refused (read_buyer_terms env counterparty_id)
        × Refused (read_artist_identity {V = V} env)
        × Refused (rewrite_grant_history env doc_id fields)
  unfolding read_raw_evidence read_buyer_terms read_artist_identity rewrite_grant_history
  arbiter-Refused env counterparty_id doc_id fields = (
    λ g h a e.
        unadmitted env "crawler_access" none none refl
          (read_collection-returned env arbiter_sa "consent_arbiter" "crawler_access" none none none
            g h a e).0,
    λ g h a e.
        unadmitted env "buyer_terms" session session refl
          (read_collection-returned env arbiter_sa "consent_arbiter" "buyer_terms" session session
            none g h a e).0,
    λ g h a e.
        unadmitted env "artists" none none refl
          (read_collection-returned env arbiter_sa "consent_arbiter" "artists" none none none g h a
            e).0,
    λ g h a e.
        unadmitted env "grants" none none refl
          (write_document-Committed env arbiter_sa "consent_arbiter"
            (record { collection = "grants"; doc_id = doc_id; fields = fields }) none none g h a
            e).0.admitted,
  )
    where
      session : Option (Dict V)
      session = some (("counterparty_id", counterparty_id) ∷ [])
