-- ===== src/Agents/Propagator/Ends.antt =====
-- The cascade of src/agents/revocation_propagator.py against the log that it leaves: the use that the artist
-- withdrew is permitted no longer.
use mathlib.Core.Path.{subst}
use hodi.Prelude.Tables.{get}
use hodi.Prelude.{
  ℕ, ◌≤◌, ◌<◌, ◌≡◌, ◌≢◌, refl, ap, ◌∙◌, inl, inr, true, false, Option, none, some, List, [], ◌∷◌,
  ◌++◌, map, filter, filter-append, filter_none, append_nil, last?, ◌==◌, string_eq, Bool-cases,
  beq→eq, In, here, there, In-append, In-append_right, arith, In-last?, filter-In, beq_refl,
  eq_of_some,
}
use hodi.Prelude.Sort.{sort_by, sort_by-last-IsTop}
use hodi.Schema.Vocabulary.{UseType, revoked}
use hodi.Schema.Scope.{Scope}
use hodi.Schema.GrantEvent.{GrantEvent}
use hodi.Schema.Lattice.{is_use_type_contained}
use hodi.Resolve.Resolver.{active, event_le, is_matching, ordered_events, resolve}
use hodi.Resolve.Resolver.Fold.{resolve-latest, status_of, status_after, scope_of, scope_after}
use hodi.Resolve.Resolver.Replay.{event_le_order}
use hodi.Resolve.Resolver.Active.{IsInForce, In-ordered_events}
use hodi.Resolve.Evaluator.{scope_window_has_closed}
use hodi.Gateway.Denial.{Dynamic, Dict, Gateway}
use hodi.Gateway.Documents.{selected, is_match, or_null}
use hodi.Gateway.Documents.Reads.{stored}
use hodi.Agents.Propagator.Calls.{Codec}
use hodi.Agents.Propagator.{Run, col, parse_all, prepend, target}

-- Events of the grant that is in force after an operation added revocations: none of them is its own.
module _ (events added : List GrantEvent) (since : ℕ)
    (before : (e : GrantEvent) → In e events → e.issued_at < since)
    (revokes : (e : GrantEvent) → In e added → (e.kind ≡ revoked) × (since ≤ e.issued_at)) where
  not-later : (x e : GrantEvent) → x.issued_at < since → since ≤ e.issued_at → event_le e x ≡ false
  not-later x e h k = ground arith

  IsInForce-old : (x : GrantEvent) → IsInForce x none (events ++ added) → In x events
  IsInForce-old x (latest, kind) =
      elim (In-append events
        (In-ordered_events x.grant_id none (events ++ added) x (In-last? _ x latest)).0) [
          | inl m ↦ m
          | inr m ↦ let k = (revokes x m).0 in absurd (cc)
        ]

  matches-same : (x e : GrantEvent) → e.grant_id ≡ x.grant_id → is_matching x.grant_id none e ≡ true
  matches-same x e same = rw (same, beq_refl x.grant_id) refl

  pub IsInForce-other :
      (x e : GrantEvent) → IsInForce x none (events ++ added) → In e added → e.grant_id ≢ x.grant_id
  unfolding ordered_events
  IsInForce-other x e h m same =
      let top =
        sort_by-last-IsTop event_le_order (filter (is_matching x.grant_id none) (events ++ added)) x
          h.0 e
          (filter-In (is_matching x.grant_id none) (events ++ added) (In-append_right events m)
            (matches-same x e same)) in
      let late = not-later x e (before x (IsInForce-old x h)) (revokes e m).1 in absurd (cc)

  matches-other :
      (x e : GrantEvent) → e.grant_id ≢ x.grant_id → is_matching x.grant_id none e ≡ false
  matches-other x e apart = elim (Bool-cases (e.grant_id == x.grant_id)) [
    | inl h ↦ absurd (apart (beq→eq e.grant_id x.grant_id h))
    | inr h ↦ rw h refl
  ]

  pub IsInForce-before :
      (x : GrantEvent) → IsInForce x none (events ++ added) → IsInForce x none events
  unfolding ordered_events
  IsInForce-before x h =
      let same : filter (is_matching x.grant_id none) (events ++ added)
          ≡ filter (is_matching x.grant_id none) events =
        filter-append (is_matching x.grant_id none) events added
        ∙ ap (λ l. filter (is_matching x.grant_id none) events ++ l)
            (filter_none (is_matching x.grant_id none) added
              (λ e m. matches-other x e (IsInForce-other x e h m)))
        ∙ append_nil (filter (is_matching x.grant_id none) events) in
      (subst (λ l. last? (sort_by event_le l) ≡ some x) same h.0, h.1)

-- The use would be permitted by the scope at the instant or later.
abbrev pub CanPermit : UseType → ℕ → Scope → Type 0
CanPermit revoked_use at scope =
    (is_use_type_contained scope.use_type revoked_use ≡ true)
    × (scope_window_has_closed scope at ≡ false)

-- The cascade's target of a grant is the scope in force that can permit the revoked use.
pub target-in_force :
    (revoked_use : UseType) (at : ℕ) (events : List GrantEvent) (x : GrantEvent)
    → IsInForce x none events
    → CanPermit revoked_use at x.scope
    → target revoked_use at (resolve x.grant_id none events) ≡ some x.scope
unfolding target
target-in_force revoked_use at events x (latest, kind) (contained, open_) =
    let (status, scope) = resolve-latest x.grant_id none events in
    let s : (resolve x.grant_id none events).status ≡ active =
      status ∙ ap status_after latest ∙ ap status_of kind in
    let c : (resolve x.grant_id none events).active_scope ≡ some x.scope =
      scope ∙ ap scope_after latest ∙ ap (λ k. scope_of k x.scope) kind in
    rw (s, c, contained, open_) refl

module _ {V : Type 0} ⦃d : Dynamic V⦄ (codec : Codec V GrantEvent)
    (round_trip : (e : GrantEvent) → codec.parse (codec.dump e) ≡ some e) where
  parse_all-dumped : (added : List GrantEvent) → parse_all codec (map codec.dump added) ≡ some added
  unfolding parse_all
  parse_all-dumped [] = refl
  parse_all-dumped (e ∷ added) = rw (round_trip e, parse_all-dumped added) refl

  -- Reading back a log with dumped events at its end.
  pub parse_all-append :
      (rows : List (Dict V)) (events added : List GrantEvent)
      → parse_all codec rows ≡ some events
      → parse_all codec (rows ++ map codec.dump added) ≡ some (events ++ added)
  unfolding parse_all
  parse_all-append [] events added e =
      parse_all-dumped added ∙ ap (λ l. some (l ++ added)) (eq_of_some e)
  parse_all-append (row ∷ rows) events added h =
      cases (codec.parse row) (parse_all codec rows) (λ found. parse_all-append rows found added) h
    where
      cases :
          (o : Option GrantEvent) (found : Option (List GrantEvent))
          → ((l : List GrantEvent)
              → found ≡ some l
              → parse_all codec (rows ++ map codec.dump added) ≡ some (l ++ added))
          → prepend o found ≡ some events
          → prepend o (parse_all codec (rows ++ map codec.dump added)) ≡ some (events ++ added)
      cases none found k e = absurd (cc)
      cases (some a) none k e = absurd (cc)
      cases (some a) (some l) k e =
          ap (prepend (some a)) (k l refl) ∙ ap (λ m. some (m ++ added)) (eq_of_some e)

module _ {V : Type 0} ⦃d : Dynamic V⦄ (r : Run V) where
  -- The rows of the log that the operation reads.
  abbrev pub log_rows : Gateway V → List (Dict V)
  log_rows g =
      selected (some (("work_id", d.text r.op.work_id) ∷ [])) (stored (col r.agent "grants") g)

  -- What pydantic does for the events: a dumped event parses back, and carries its work under its name.
  pub record IsFaithful (codec : Codec V GrantEvent) : Type 0 where
    pub round_trip : (e : GrantEvent) → codec.parse (codec.dump e) ≡ some e
    pub work_id : (e : GrantEvent) → get "work_id" (codec.dump e) ≡ some (d.text e.work_id)

  pub dumped-matches :
      (added : List GrantEvent)
      → IsFaithful r.services.grant_event
      → ((e : GrantEvent) → In e added → e.work_id ≡ r.op.work_id)
      → selected
          (some (("work_id", d.text r.op.work_id) ∷ []))
          (map r.services.grant_event.dump added)
        ≡ map r.services.grant_event.dump added
  unfolding is_match
  dumped-matches [] faithful works = refl
  dumped-matches (e ∷ added) faithful works =
      let same : d.same.beq (or_null (get "work_id" (r.services.grant_event.dump e)))
            (d.text r.op.work_id)
          ≡ true =
        (d.same.beq_iff _ _).1
          (ap or_null (faithful.work_id e) ∙ ap d.text (works e (here refl))) in
      rw (same) (
        ap (λ l. r.services.grant_event.dump e ∷ l)
          (dumped-matches added faithful (λ x m. works x (there m))))
