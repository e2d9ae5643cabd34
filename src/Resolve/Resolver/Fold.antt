-- ===== src/Resolve/Resolver/Fold.antt =====
-- The fold of src/resolve/resolver.py, read at its latest event.
use hodi.Prelude.{ℕ, String, ◌≡◌, refl, ◌∙◌, Option, none, some, List, [], ◌∷◌, arith, last?}
use hodi.Schema.Vocabulary.{EventKind, granted, revoked, expired, superseded}
use hodi.Schema.Scope.{Scope}
use hodi.Schema.GrantEvent.{GrantEvent}
use hodi.Resolve.Resolver.{
  GrantStatus, nonexistent, active, was_revoked, was_superseded, was_expired, CurrentGrantState,
  apply_event, fold_events, initial, ordered_events, resolve,
}

abbrev pub status_of : EventKind → GrantStatus
status_of granted = active
status_of revoked = was_revoked
status_of superseded = was_superseded
status_of expired = was_expired

abbrev pub scope_of : EventKind → Scope → Option Scope
scope_of granted scope = some scope
scope_of _ scope = none

-- What the latest event of a grant says.
abbrev pub status_after : Option GrantEvent → GrantStatus
status_after none = nonexistent
status_after (some ev) = status_of ev.kind

abbrev pub scope_after : Option GrantEvent → Option Scope
scope_after none = none
scope_after (some ev) = scope_of ev.kind ev.scope

pub history-fold_events :
    (s : CurrentGrantState) (l : List GrantEvent)
    → (fold_events s l).history_events ≡ s.history_events
unfolding fold_events
history-fold_events s [] = refl
history-fold_events s (ev ∷ l) = history-fold_events (apply_event s ev) l ∙ same ev.kind
  where
    same :
        (k : EventKind) → (apply_event s (record ev { kind = k })).history_events ≡ s.history_events
    same granted = refl
    same revoked = refl
    same superseded = refl
    same expired = refl

apply_event-status :
    (s : CurrentGrantState) (ev : GrantEvent)
    → ((apply_event s ev).status ≡ status_of ev.kind)
      × ((apply_event s ev).active_scope ≡ scope_of ev.kind ev.scope)
apply_event-status s ev = ground arith

fold_events-cons :
    (s : CurrentGrantState) (ev : GrantEvent) (l : List GrantEvent)
    → ((fold_events s (ev ∷ l)).status ≡ status_after (last? (ev ∷ l)))
      × ((fold_events s (ev ∷ l)).active_scope ≡ scope_after (last? (ev ∷ l)))
unfolding fold_events
fold_events-cons s ev [] = apply_event-status s ev
fold_events-cons s ev (f ∷ l) = fold_events-cons (apply_event s ev) f l

fold_events-last :
    (gid : String) (history l : List GrantEvent)
    → ((fold_events (initial gid history) l).status ≡ status_after (last? l))
      × ((fold_events (initial gid history) l).active_scope ≡ scope_after (last? l))
unfolding fold_events
fold_events-last gid history [] = (refl, refl)
fold_events-last gid history (ev ∷ l) = fold_events-cons (initial gid history) ev l

module _ (gid : String) (at : Option ℕ) (events : List GrantEvent) where
  -- The status and the active scope of a grant are those that its latest event gives, in the order
  -- of (instant, event id); with no event up to `at` the grant does not exist.
  pub resolve-latest :
      ((resolve gid at events).status ≡ status_after (last? (ordered_events gid at events)))
      × ((resolve gid at events).active_scope ≡ scope_after (last? (ordered_events gid at events)))
  unfolding resolve
  resolve-latest =
      fold_events-last gid (ordered_events gid at events) (ordered_events gid at events)

  pub history-resolve : (resolve gid at events).history_events ≡ ordered_events gid at events
  unfolding resolve
  history-resolve =
      history-fold_events (initial gid (ordered_events gid at events))
        (ordered_events gid at events)
