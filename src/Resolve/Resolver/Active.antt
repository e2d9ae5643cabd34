-- ===== src/Resolve/Resolver/Active.antt =====
-- `active_grant_events` of src/resolve/resolver.py and the grants in force.
use mathlib.Core.Path.{subst}
use hodi.Prelude.{
  ℕ, String, ◌≡◌, refl, sym, true, ◌∙◌, ap, ◌↔◌, inl, inr, Option, none, some, List, [], ◌∷◌, ◌++◌,
  map, arith, ◌==◌, string_eq, filter, filter-filter, last?, last?-filter, In, here, there,
  In-filter, In-last?, In-append, In-append_left, In-append_right,
}
use hodi.Prelude.Sort.{sorted_set-In, sort_by, In-sort_by}
use hodi.Schema.Vocabulary.{EventKind, granted, revoked, superseded, expired}
use hodi.Schema.GrantEvent.{GrantEvent}
use hodi.Resolve.Resolver.{
  CurrentGrantState, is_matching, event_le, ordered_events, resolve, grant_ids, defining_event,
  grant_events, collect_step, collect_active, active_grant_events, is_defining,
}
use hodi.Resolve.Resolver.Replay.{matching-grant}
use hodi.Resolve.Resolver.Fold.{resolve-latest, history-resolve, status_after, scope_after}

-- The event is the latest of its grant up to `at`, and it grants.
abbrev pub IsInForce : GrantEvent → Option ℕ → List GrantEvent → Type 0
IsInForce e at events = (last? (ordered_events e.grant_id at events) ≡ some e) × (e.kind ≡ granted)

abbrev granting : EventKind → GrantEvent → List GrantEvent
granting granted e = e ∷ []
granting _ e = []

abbrev current : Option GrantEvent → List GrantEvent
current none = []
current (some e) = granting e.kind e

abbrev all_current : Option ℕ → List GrantEvent → List String → List GrantEvent
all_current at events [] = []
all_current at events (gid ∷ rest) =
    current (last? (ordered_events gid at events)) ++ all_current at events rest

ordered_events-grant_events :
    (gid : String) (at : Option ℕ) (events : List GrantEvent)
    → ordered_events gid at (grant_events gid events) ≡ ordered_events gid at events
unfolding ordered_events
ordered_events-grant_events gid at events =
    ap (sort_by event_le)
      (filter-filter (is_matching gid at) (λ e. e.grant_id == gid) events (λ x h. ground arith))

module _ (s : CurrentGrantState) (ev : GrantEvent) (found : List GrantEvent)
    (latest : last? s.history_events ≡ some ev) (status : s.status ≡ status_after (some ev))
    (scope : s.active_scope ≡ scope_after (some ev)) where
  defining-granted : ev.kind ≡ granted → defining_event s ≡ some ev
  unfolding defining_event
  defining-granted k = last?-filter is_defining s.history_events ev latest (ground arith)

  collect_step-kind :
      (k : EventKind) → ev.kind ≡ k → collect_step s (some found) ≡ some (granting k ev ++ found)
  unfolding collect_step
  collect_step-kind granted e = ground (arith, defining-granted e)
  collect_step-kind revoked e = ground arith
  collect_step-kind superseded e = ground arith
  collect_step-kind expired e = ground arith

-- A round of the loop adds the event in force, and never raises.
collect_step-latest :
    (s : CurrentGrantState) (latest : Option GrantEvent) (found : List GrantEvent)
    → last? s.history_events ≡ latest
    → s.status ≡ status_after latest
    → s.active_scope ≡ scope_after latest
    → collect_step s (some found) ≡ some (current latest ++ found)
unfolding collect_step
collect_step-latest s none found h p q = ground arith
collect_step-latest s (some ev) found h p q = collect_step-kind s ev found h p q ev.kind refl

collect_active-eq :
    (at : Option ℕ) (events : List GrantEvent) (gids : List String)
    → collect_active at events gids ≡ some (all_current at events gids)
unfolding collect_active
collect_active-eq at events [] = refl
collect_active-eq at events (gid ∷ rest) =
    let own = grant_events gid events in
    let latest = last? (ordered_events gid at own) in
    let (p, q) = resolve-latest gid at own in
    ap (collect_step (resolve gid at own)) (collect_active-eq at events rest)
    ∙ collect_step-latest (resolve gid at own) latest (all_current at events rest)
        (ap last? (history-resolve gid at own)) p q
    ∙ ap (λ l. some (current (last? l) ++ all_current at events rest))
        (ordered_events-grant_events gid at events)

In-granting : (k : EventKind) (e x : GrantEvent) → In x (granting k e) → (x ≡ e) × (k ≡ granted)
In-granting granted e x (here h) = (h, refl)
In-granting granted e x (there m) = elim m [ ]
In-granting revoked e x m = elim m [ ]
In-granting superseded e x m = elim m [ ]
In-granting expired e x m = elim m [ ]

pub In-ordered_events :
    (gid : String) (at : Option ℕ) (events : List GrantEvent) (x : GrantEvent)
    → In x (ordered_events gid at events)
    → In x events × (is_matching gid at x ≡ true)
unfolding ordered_events
In-ordered_events gid at events x m =
    In-filter (is_matching gid at) events
      (In-sort_by event_le x (filter (is_matching gid at) events) m)

pub grant_id-latest :
    (gid : String) (at : Option ℕ) (events : List GrantEvent) (x : GrantEvent)
    → last? (ordered_events gid at events) ≡ some x
    → x.grant_id ≡ gid
grant_id-latest gid at events x h =
    matching-grant at gid x
      (In-ordered_events gid at events x (In-last? (ordered_events gid at events) x h)).1

In-current_of :
    (gid : String) (at : Option ℕ) (events : List GrantEvent) (x : GrantEvent)
    (latest : Option GrantEvent)
    → last? (ordered_events gid at events) ≡ latest
    → In x (current latest)
    → IsInForce x at events
In-current_of gid at events x none h m = elim m [ ]
In-current_of gid at events x (some e) h m =
    let (p, k) = In-granting e.kind e x m in
    let h' : last? (ordered_events gid at events) ≡ some x = h ∙ ap some (sym p) in
    (
      subst (λ g. last? (ordered_events g at events) ≡ some x)
          (sym (grant_id-latest gid at events x h')) h',
      ap (λ (g : GrantEvent). g.kind) p ∙ k,
    )

In-current :
    (gid : String) (at : Option ℕ) (events : List GrantEvent) (x : GrantEvent)
    → In x (current (last? (ordered_events gid at events)))
    → IsInForce x at events
In-current gid at events x m =
    In-current_of gid at events x (last? (ordered_events gid at events)) refl m

In-all_current :
    (at : Option ℕ) (events : List GrantEvent) (gids : List String) (x : GrantEvent)
    → In x (all_current at events gids)
    → IsInForce x at events
In-all_current at events [] x m = elim m [ ]
In-all_current at events (gid ∷ rest) x m =
    elim (In-append (current (last? (ordered_events gid at events))) m) [
      | inl i ↦ In-current gid at events x i
      | inr j ↦ In-all_current at events rest x j
    ]

all_current-In :
    (at : Option ℕ) (events : List GrantEvent) (gids : List String) (x : GrantEvent)
    → In x.grant_id gids
    → IsInForce x at events
    → In x (all_current at events gids)
all_current-In at events [] x m h = elim m [ ]
all_current-In at events (gid ∷ rest) x (here e) h =
    In-append_left (all_current at events rest) (rw (← e, h.0, h.1) (here refl))
all_current-In at events (gid ∷ rest) x (there m) h =
    In-append_right (current (last? (ordered_events gid at events)))
      (all_current-In at events rest x m h)

pub IsInForce-In :
    (x : GrantEvent) (at : Option ℕ) (events : List GrantEvent)
    → IsInForce x at events
    → In x events
IsInForce-In x at events h =
    (In-ordered_events x.grant_id at events x
      (In-last? (ordered_events x.grant_id at events) x h.0)).0

pub In-map_grant_id :
    (x : GrantEvent) (events : List GrantEvent)
    → In x events
    → In x.grant_id (map (λ e. e.grant_id) events)
In-map_grant_id x [] m = elim m [ ]
In-map_grant_id x (y ∷ l) (here e) = here (ap (λ (g : GrantEvent). g.grant_id) e)
In-map_grant_id x (y ∷ l) (there m) = there (In-map_grant_id x l m)

-- `active_grant_events` never raises, and it returns exactly the events in force: those that are
-- the latest of their grant up to the instant, and grant.
pub active_grant_events_correct :
    (events : List GrantEvent) (at : Option ℕ)
    → (found : List GrantEvent) × (active_grant_events events at ≡ some found)
      × ((x : GrantEvent) → In x found ↔ IsInForce x at events)
unfolding active_grant_events grant_ids
active_grant_events_correct events at = (
  all_current at events (grant_ids events),
  collect_active-eq at events (grant_ids events),
  λ x. (
    In-all_current at events (grant_ids events) x,
    λ h.
        all_current-In at events (grant_ids events) x
          (sorted_set-In x.grant_id (map (λ e. e.grant_id) events)
            (In-map_grant_id x events (IsInForce-In x at events h)))
          h,
  ),
)
