-- ===== src/Resolve/Resolver.antt =====
-- src/resolve/resolver.py: the state of a grant is a fold over its events up to an instant.
pub mod Fold
pub mod Replay
pub mod Active
use hodi.Prelude.{
  ℕ, String, Bool, true, false, ◌&&◌, ◌||◌, Option, none, some, List, [], ◌∷◌, map, ◌==◌, contains,
  string_eq, leb, filter, last?, if◌then◌else◌,
}
use hodi.Prelude.Sort.{sort_by, stamp_le, sorted_set}
use hodi.Prelude.TextOrder.{text_le}
use hodi.Schema.Vocabulary.{
  EventKind, granted, revoked, expired, superseded, EventKind-discrete, event_kind_eq,
}
use hodi.Schema.Scope.{Scope}
use hodi.Schema.GrantEvent.{GrantEvent}

pub data GrantStatus : Type 0 where
  nonexistent active was_revoked was_superseded was_expired : GrantStatus

pub record CurrentGrantState : Type 0 where
  pub grant_id : String
  pub work_id : Option String
  pub counterparty_id : Option String
  pub active_scope : Option Scope
  pub status : GrantStatus
  pub superseded_by : Option String
  pub last_event_id : Option String
  pub history_events : List GrantEvent

-- at is None or ev.issued_at <= at
abbrev pub is_by : Option ℕ → GrantEvent → Bool
is_by none ev = true
is_by (some at) ev = leb ev.issued_at at

abbrev pub is_matching : String → Option ℕ → GrantEvent → Bool
is_matching grant_id at ev = ev.grant_id == grant_id && is_by at ev

-- The sort key (issued_at, event_id).
abbrev pub event_le : GrantEvent → GrantEvent → Bool
event_le e f = stamp_le (e.issued_at, e.event_id) (f.issued_at, f.event_id)

abbrev pub apply_kind : EventKind → GrantEvent → CurrentGrantState → CurrentGrantState
apply_kind granted ev s = record s {
  active_scope = some ev.scope;
  status = active;
  superseded_by = none;
}
apply_kind revoked ev s = record s { active_scope = none; status = was_revoked }
apply_kind superseded ev s = record s {
  active_scope = none;
  status = was_superseded;
  superseded_by = ev.supersedes;
}
apply_kind expired ev s = record s { active_scope = none; status = was_expired }

abbrev pub apply_event : CurrentGrantState → GrantEvent → CurrentGrantState
apply_event s ev = apply_kind ev.kind ev (record s {
  work_id = some ev.work_id;
  counterparty_id = some ev.counterparty_id;
  last_event_id = some ev.event_id;
})

unfoldable pub fold_events : CurrentGrantState → List GrantEvent → CurrentGrantState
fold_events s [] = s
fold_events s (ev ∷ rest) = fold_events (apply_event s ev) rest

abbrev pub initial : String → List GrantEvent → CurrentGrantState
initial grant_id history = record {
  grant_id = grant_id;
  work_id = none;
  counterparty_id = none;
  active_scope = none;
  status = nonexistent;
  superseded_by = none;
  last_event_id = none;
  history_events = history;
}

-- The events of the grant up to `at`, in the order in which they are folded.
unfoldable pub ordered_events : String → Option ℕ → List GrantEvent → List GrantEvent
unfolding sort_by text_le
ordered_events grant_id at events = sort_by event_le (filter (is_matching grant_id at) events)

unfoldable pub resolve : String → Option ℕ → List GrantEvent → CurrentGrantState
unfolding ordered_events fold_events
resolve grant_id at events =
    let history = ordered_events grant_id at events in
    fold_events (initial grant_id history) history

-- sorted({e.grant_id for e in events})
unfoldable pub grant_ids : List GrantEvent → List String
unfolding sorted_set
grant_ids events = sorted_set (map (λ e. e.grant_id) events)

abbrev pub is_defining : GrantEvent → Bool
is_defining e = e.kind == granted || e.kind == superseded

-- The last granting or superseding event; `none` is the IndexError of `[-1]`.
unfoldable pub defining_event : CurrentGrantState → Option GrantEvent
unfolding EventKind-discrete
defining_event s = last? (filter is_defining s.history_events)

-- state.status == "active" and state.active_scope is not None
abbrev pub is_live : CurrentGrantState → Bool
is_live s = elim s.status [
  | active ↦ elim s.active_scope [ none ↦ false | some _ ↦ true ]
  | _ ↦ false
]

abbrev pub grant_events : String → List GrantEvent → List GrantEvent
grant_events gid = filter (λ e. e.grant_id == gid)

-- One round of the loop of `active_grant_events`, before the later rounds' results.
unfoldable pub collect_step :
    CurrentGrantState → Option (List GrantEvent) → Option (List GrantEvent)
collect_step state later =
    if is_live state
    then elim (defining_event state) [
      | none ↦ none
      | some ev ↦ elim later [ none ↦ none | some found ↦ some (ev ∷ found) ]
    ]
    else later

-- The loop; `none` when an IndexError is raised.
unfoldable pub collect_active : Option ℕ → List GrantEvent → List String → Option (List GrantEvent)
collect_active at events [] = some []
collect_active at events (gid ∷ rest) =
    collect_step (resolve gid at (grant_events gid events)) (collect_active at events rest)

unfoldable pub active_grant_events : List GrantEvent → Option ℕ → Option (List GrantEvent)
unfolding collect_active collect_step resolve defining_event grant_ids
active_grant_events events at = collect_active at events (grant_ids events)
