-- ===== src/Agents/Propagator/Pairs.antt =====
-- The first phase of the cascade of src/agents/revocation_propagator.py: a termination and the notice that
-- it owes are stored together or not at all.
use text.Mathlib.TextLemmas.{append_cancel_left}
use mathlib.Core.Path.{subst}
use hodi.Prelude.{
  String, ◌≡◌, ◌↔◌, refl, sym, ap, ◌∙◌, inl, inr, true, false, Option, none, some, List, ◌==◌,
  string_eq, Bool-cases, beq→eq, beq_refl, In, here, there, In-cons,
}
use hodi.Schema.GrantEvent.{GrantEvent}
use hodi.Schema.Revocation.{NoticeOutboxRecord, IsCollisionFree, revocation_effect_id-grant}
use hodi.Gateway.Denial.{Dynamic, Dict, Gateway}
use hodi.Gateway.Documents.{Write, put_all}
use hodi.Gateway.Documents.Appends.{
  document, Apart, AllApart, document-put_all_other, put_all-document,
}
use hodi.Agents.Propagator.{Run, Agent, col, effect_id, pair_writes}
use hodi.Agents.Propagator.Keeps.{document-same, IsAboutDocuments}

-- Two names in one namespace are two collections.
pub col-differ :
    (agent : Agent) (a b : String) → (a == b) ≡ false → (col agent a == col agent b) ≡ false
col-differ agent a b h = elim (Bool-cases (col agent a == col agent b)) [
  | inl e ↦
      let same = append_cancel_left agent.ns a b (beq→eq (col agent a) (col agent b) e) in
      let k : (a == b) ≡ true = subst (λ u. (a == u) ≡ true) same (beq_refl a) in absurd (cc)
  | inr e ↦ e
]

module _ {V : Type 0} ⦃d : Dynamic V⦄ (r : Run V) where
  -- The revoked event of the operation on the grant, and the notice owed for it.
  abbrev pub terminated : String → Gateway V → Option (Dict V)
  terminated grant_id g = document (col r.agent "grants") (effect_id r grant_id "revoked_event") g

  abbrev pub owed : String → Gateway V → Option (Dict V)
  owed grant_id g = document (col r.agent "revocation_outbox") (effect_id r grant_id "outbox") g

  -- For every grant: the operation has stored both, or neither.
  abbrev pub Paired : Gateway V → Type 0
  Paired g = (grant_id : String) → (terminated grant_id g ≡ none) ↔ (owed grant_id g ≡ none)

  pub Paired-IsAboutDocuments : IsAboutDocuments Paired
  Paired-IsAboutDocuments g h same p grant_id =
      let e =
        document-same (col r.agent "grants") (effect_id r grant_id "revoked_event") g h same in
      let f =
        document-same (col r.agent "revocation_outbox") (effect_id r grant_id "outbox") g h same in
      (λ k. f ∙ (p grant_id).0 (sym e ∙ k), λ k. e ∙ (p grant_id).1 (sym f ∙ k))

module _ {V : Type 0} ⦃d : Dynamic V⦄ (r : Run V) (free : IsCollisionFree r.services.sha256) where
  pub effect_id-differ :
      (a b effect : String)
      → (a == b) ≡ false
      → (effect_id r a effect == effect_id r b effect) ≡ false
  effect_id-differ a b effect h = elim (Bool-cases (effect_id r a effect == effect_id r b effect)) [
    | inl e ↦
        let same =
          revocation_effect_id-grant r.services.sha256 r.op.operation_id effect a b free
            (beq→eq (effect_id r a effect) (effect_id r b effect) e) in
        let k : (a == b) ≡ true = subst (λ u. (a == u) ≡ true) same (beq_refl a) in absurd (cc)
    | inr e ↦ e
  ]

  module _ (event : GrantEvent) (record_ : NoticeOutboxRecord) (grant_id : String)
      (named : event.event_id ≡ effect_id r grant_id "revoked_event")
      (filed : record_.outbox_id ≡ effect_id r grant_id "outbox") where
    abbrev writes : List (Write V)
    writes = pair_writes r event record_

    pub writes-AllApart : AllApart writes
    writes-AllApart = (
      λ x m. elim (In-cons m) [
        | inl e ↦
            subst (Apart (col r.agent "grants") event.event_id) (sym e)
              (inl (col-differ r.agent "grants" "revocation_outbox" refl))
        | inr i ↦ elim i [ ]
      ],
      (λ x m. elim m [ ], tt),
    )

    pub terminated-other :
        (other : String)
        → (other == grant_id) ≡ false
        → (x : Write V) → In x writes
        → Apart (col r.agent "grants") (effect_id r other "revoked_event") x
    terminated-other other h x m = elim (In-cons m) [
      | inl e ↦ subst (Apart (col r.agent "grants") (effect_id r other "revoked_event")) (sym e) (
          inr (
            subst (λ i. (effect_id r other "revoked_event" == i) ≡ false) (sym named)
              (effect_id-differ other grant_id "revoked_event" h)))
      | inr i ↦ elim (In-cons i) [
        | inl e ↦
            subst (Apart (col r.agent "grants") (effect_id r other "revoked_event")) (sym e)
              (inl (col-differ r.agent "grants" "revocation_outbox" refl))
        | inr j ↦ elim j [ ]
      ]
    ]

    owed-other :
        (other : String)
        → (other == grant_id) ≡ false
        → (x : Write V) → In x writes
        → Apart (col r.agent "revocation_outbox") (effect_id r other "outbox") x
    owed-other other h x m = elim (In-cons m) [
      | inl e ↦
          subst (Apart (col r.agent "revocation_outbox") (effect_id r other "outbox")) (sym e)
            (inl (col-differ r.agent "revocation_outbox" "grants" refl))
      | inr i ↦ elim (In-cons i) [
        | inl e ↦
            subst (Apart (col r.agent "revocation_outbox") (effect_id r other "outbox")) (sym e) (
              inr (
                subst (λ i. (effect_id r other "outbox" == i) ≡ false) (sym filed)
                  (effect_id-differ other grant_id "outbox" h)))
        | inr j ↦ elim j [ ]
      ]
    ]

    pub put_all-Paired : (g : Gateway V) → Paired r g → Paired r (put_all writes g)
    put_all-Paired g p other = elim (Bool-cases (other == grant_id)) [
      | inl e ↦
          let same = beq→eq other grant_id e in
          let first =
            subst
              (λ i.
                document (col r.agent "grants") i (put_all writes g)
                ≡ some (r.services.grant_event.dump event))
              (named ∙ ap (λ u. effect_id r u "revoked_event") (sym same))
              (put_all-document writes _ g writes-AllApart (here refl)) in
          let second =
            subst
              (λ i.
                document (col r.agent "revocation_outbox") i (put_all writes g)
                ≡ some (r.services.outbox_record.dump record_))
              (filed ∙ ap (λ u. effect_id r u "outbox") (sym same))
              (put_all-document writes _ g writes-AllApart (there (here refl))) in
          (λ k. absurd (cc), λ k. absurd (cc))
      | inr e ↦
          let first =
            document-put_all_other (col r.agent "grants") (effect_id r other "revoked_event") writes
              g (terminated-other other e) in
          let second =
            document-put_all_other (col r.agent "revocation_outbox") (effect_id r other "outbox")
              writes g (owed-other other e) in
          (λ k. second ∙ (p other).0 (sym first ∙ k), λ k. first ∙ (p other).1 (sym second ∙ k))
    ]
