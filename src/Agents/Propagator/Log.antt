-- ===== src/Agents/Propagator/Log.antt =====
-- The first loop of src/agents/revocation_propagator.py: what it has added to the log so far.
use mathlib.Core.Path.{subst}
use mathlib.Core.List.{append_assoc, map-append}
use hodi.Prelude.Tables.{get, set_item, get-set_item, set_item-fresh}
use hodi.Prelude.{
  ℕ, suc, ◌≤◌, String, ◌≡◌, refl, sym, ap, ◌∙◌, inl, inr, Option, none, some, List, [], ◌∷◌, ◌++◌,
  map, ◌==◌, string_eq, Bool-cases, beq→eq, In, here, In-cons, In-append, In-append_left,
  In-append_right,
}
use hodi.Schema.Vocabulary.{revoked}
use hodi.Schema.Scope.{Scope}
use hodi.Schema.GrantEvent.{GrantEvent}
use hodi.Schema.Revocation.{NoticeOutboxRecord, IsCollisionFree}
use hodi.Resolve.Resolver.{resolve}
use hodi.Gateway.Denial.{Dynamic, Dict, Gateway}
use hodi.Gateway.Documents.{Write, bucket, or_empty, put, put_all}
use hodi.Gateway.Documents.Appends.{document, document-put_all_other}
use hodi.Gateway.Documents.Reads.{stored}
use hodi.Gateway.Documents.BatchClashes.{AnyTaken}
use hodi.Agents.Propagator.Calls.{World, done}
use hodi.Agents.Propagator.{
  Run, col, effect_id, Tally, pair_writes, target, terminate, terminate_all,
}
use hodi.Agents.Propagator.Inversion.{done-injective, next-done}
use hodi.Agents.Propagator.Pairs.{
  col-differ, terminated, owed, Paired, terminated-other, put_all-Paired,
}
use hodi.Agents.Propagator.Rounds.{IsRevocation, Settled, terminate-done}
use hodi.Agents.Propagator.Delivery.{stored-put}

module _ {V : Type 0} ⦃d : Dynamic V⦄ where
  -- A document of a free id goes to the end of its collection.
  stored-put_fresh :
      (w : Write V) (g : Gateway V)
      → document w.collection w.doc_id g ≡ none
      → stored w.collection (put w g) ≡ stored w.collection g ++ w.fields ∷ []
  unfolding put bucket
  stored-put_fresh w g free =
      rw
        (get-set_item w.collection (set_item w.doc_id w.fields (bucket w.collection g))
          g.offline_writes)
        (ap (λ l. or_empty (get w.collection g.offline_reads) ++ l)
            (ap (λ l. map (λ entry. entry.1) l)
                (set_item-fresh w.doc_id w.fields (bucket w.collection g) free)
              ∙ map-append (λ entry. entry.1) (bucket w.collection g) ((w.doc_id, w.fields) ∷ []))
          ∙ sym (
              append_assoc (or_empty (get w.collection g.offline_reads))
                (map (λ entry. entry.1) (bucket w.collection g)) (w.fields ∷ [])))

module _ {V : Type 0} ⦃d : Dynamic V⦄ (r : Run V) (free : IsCollisionFree r.services.sha256)
    (since : ℕ) (later : (n : ℕ) → since ≤ r.clock.round_at n) (rows : List (Dict V)) where
  abbrev grants : Gateway V → List (Dict V)
  grants g = stored (col r.agent "grants") g

  abbrev dump : GrantEvent → Dict V
  dump = r.services.grant_event.dump

  -- An event of the operation: it revokes, and not before the instant.
  pub record IsFresh (event : GrantEvent) : Type 0 where
    pub kind : event.kind ≡ revoked
    pub work : event.work_id ≡ r.op.work_id
    pub issued : since ≤ event.issued_at

  -- The list has an event of the grant.
  abbrev pub HasGrant : String → List GrantEvent → Type 0
  HasGrant grant_id events = (event : GrantEvent) × In event events × (event.grant_id ≡ grant_id)

  -- The rows of the log, with the events that the operation has added, in their order.
  pub record Logged (added : List GrantEvent) (g : Gateway V) : Type 0 where
    pub appended : grants g ≡ rows ++ map dump added
    pub fresh : (event : GrantEvent) → In event added → IsFresh event
    pub taken :
        (grant_id : String) (doc : Dict V)
        → terminated r grant_id g ≡ some doc
        → HasGrant grant_id added
    pub paired : Paired r g

  HasGrant-append :
      (grant_id : String) (k l : List GrantEvent) → HasGrant grant_id k → HasGrant grant_id (k ++ l)
  HasGrant-append grant_id k l (event, m, e) = (event, In-append_left l m, e)

  IsRevocation-IsFresh :
      (n : ℕ) (grant_id : String) (event : GrantEvent)
      → IsRevocation r n grant_id event
      → IsFresh event
  IsRevocation-IsFresh n grant_id event e = record {
    kind = e.kind;
    work = e.work;
    issued = subst (λ i. since ≤ i) (sym e.issued_at) (later n);
  }

  module _ (n : ℕ) (grant_id : String) (event : GrantEvent) (record_ : NoticeOutboxRecord)
      (made : IsRevocation r n grant_id event)
      (filed : record_.outbox_id ≡ effect_id r grant_id "outbox") (added : List GrantEvent)
      (g : Gateway V) (log : Logged added g) where
    grants-pair :
        document (col r.agent "grants") event.event_id g ≡ none
        → grants (put_all (pair_writes r event record_) g) ≡ grants g ++ dump event ∷ []
    unfolding put_all
    grants-pair unused =
        stored-put (col r.agent "grants") _ (put _ g)
          (col-differ r.agent "grants" "revocation_outbox" refl)
        ∙ stored-put_fresh _ g unused

    Logged-pair :
        document (col r.agent "grants") event.event_id g ≡ none
        → Logged (added ++ event ∷ []) (put_all (pair_writes r event record_) g)
    Logged-pair unused = record {
      appended =
          grants-pair unused
          ∙ ap (λ l. l ++ dump event ∷ []) log.appended
          ∙ append_assoc rows (map dump added) (dump event ∷ [])
          ∙ ap (λ l. rows ++ l) (sym (map-append dump added (event ∷ [])));
      fresh = λ x m. elim (In-append added m) [
        | inl i ↦ log.fresh x i
        | inr i ↦ elim (In-cons i) [
          | inl e ↦ subst IsFresh (sym e) (IsRevocation-IsFresh n grant_id event made)
          | inr j ↦ elim j [ ]
        ]
      ];
      taken = λ other doc k. elim (Bool-cases (other == grant_id)) [
        | inl e ↦
            (event, In-append_right added (here refl), made.grant ∙ sym (beq→eq other grant_id e))
        | inr e ↦ HasGrant-append other added (event ∷ []) (
            log.taken other doc (
              sym (
                document-put_all_other (col r.agent "grants") (effect_id r other "revoked_event")
                  (pair_writes r event record_) g
                  (terminated-other r free event record_ grant_id made.event_id filed other e))
              ∙ k))
      ];
      paired = put_all-Paired r free event record_ grant_id made.event_id filed g log.paired;
    }

    taken-HasGrant : AnyTaken (pair_writes r event record_) g → HasGrant grant_id added
    taken-HasGrant (w, m, (doc, k)) = elim (In-cons m) [
      | inl e ↦ log.taken grant_id doc (
          subst (λ i. document (col r.agent "grants") i g ≡ some doc) made.event_id
            (subst (λ (u : Write V). document u.collection u.doc_id g ≡ some doc) e k))
      | inr i ↦ elim (In-cons i) [
        | inl e ↦
            let filled : owed r grant_id g ≡ some doc =
              subst (λ i. document (col r.agent "revocation_outbox") i g ≡ some doc) filed
                (subst (λ (u : Write V). document u.collection u.doc_id g ≡ some doc) e k) in
            cases (terminated r grant_id g) refl filled
        | inr j ↦ elim j [ ]
      ]
    ]
      where
        cases :
            (o : Option (Dict V))
            → terminated r grant_id g ≡ o
            → owed r grant_id g ≡ some doc
            → HasGrant grant_id added
        cases none e f = let empty = (log.paired grant_id).0 e in absurd (cc)
        cases (some x) e f = log.taken grant_id x e

    -- The round adds its event, or finds the grant's event of this operation there.
    Settled-Logged :
        (h : Gateway V)
        → Settled r event record_ g h
        → (added' : List GrantEvent) × Logged added' h
          × ((x : GrantEvent) → In x added → In x added')
          × HasGrant grant_id added'
    Settled-Logged h (inl (e, unused)) = (
      added ++ event ∷ [],
      subst (Logged (added ++ event ∷ [])) (sym e) (Logged-pair unused),
      λ x m. In-append_left (event ∷ []) m,
      (event, In-append_right added (here refl), made.grant),
    )
    Settled-Logged h (inr (e, found)) =
        (added, subst (Logged added) (sym e) log, λ x m. m, taken-HasGrant found)

  -- What a loop over the grants has added, by the time it returns.
  pub record Extended (events : List GrantEvent) (grant_ids : List String) (added : List GrantEvent)
      (h : Gateway V) : Type 0 where
    pub all : List GrantEvent
    pub logged : Logged all h
    pub kept : (x : GrantEvent) → In x added → In x all
    pub ended :
        (grant_id : String) (scope : Scope)
        → In grant_id grant_ids
        → target r.op.revoked_use_type r.clock.cascade_at (resolve grant_id none events)
          ≡ some scope
        → HasGrant grant_id all

  Extended-cons :
      (events : List GrantEvent) (grant_id : String) (rest : List String) (added : List GrantEvent)
      (h : Gateway V) (here_ : List GrantEvent)
      → ((x : GrantEvent) → In x added → In x here_)
      → ((scope : Scope)
          → target r.op.revoked_use_type r.clock.cascade_at (resolve grant_id none events)
            ≡ some scope
          → HasGrant grant_id here_)
      → Extended events rest here_ h
      → Extended events (grant_id ∷ rest) added h
  Extended-cons events grant_id rest added h here_ kept ended e = record {
    all = e.all;
    logged = e.logged;
    kept = λ x m. e.kept x (kept x m);
    ended = λ other scope m k. elim (In-cons m) [
      | inl same ↦
          let (event, i, q) = ended scope (
            subst
              (λ g.
                target r.op.revoked_use_type r.clock.cascade_at (resolve g none events)
                ≡ some scope)
              same k) in
          (event, e.kept event i, q ∙ sym same)
      | inr i ↦ e.ended other scope i k
    ];
  }

  pub terminate_all-Extended :
      (n : ℕ) (events : List GrantEvent) (grant_ids : List String) (t t' : Tally) (w v : World V)
      (added : List GrantEvent)
      → terminate_all r n (some events) grant_ids t w ≡ done t' v
      → Logged added w.gateway
      → Extended events grant_ids added v.gateway
  unfolding terminate_all
  terminate_all-Extended n events [] t t' w v added e log =
      let (same, stayed) = done-injective e in
      record {
        all = added;
        logged = subst (λ (u : World V). Logged added u.gateway) stayed log;
        kept = λ x m. m;
        ended = λ grant_id scope m k. elim m [ ];
      }
  terminate_all-Extended n events (grant_id ∷ rest) t t' w v added e log =
      let first = next-done (terminate r n (some events) grant_id t w) _ e in
      elim (terminate-done r n events grant_id t first.0 w first.1 first.2) [
        | inl (untouched, same, stayed) ↦
            Extended-cons events grant_id rest added v.gateway added (λ x m. m)
              (λ scope k. absurd (cc))
              (terminate_all-Extended (suc n) events rest first.0 t' first.1 v added first.3
                (subst (λ (u : World V). Logged added u.gateway) (sym stayed) log))
        | inr (scope, found, ending) ↦
            let (later_, logged, kept, ended) =
              Settled-Logged n grant_id ending.event ending.owed ending.revocation ending.filed
                added w.gateway log first.1.gateway ending.settled in
            Extended-cons events grant_id rest added v.gateway later_ kept (λ s k. ended)
              (terminate_all-Extended (suc n) events rest first.0 t' first.1 v later_ first.3
                logged)
      ]
