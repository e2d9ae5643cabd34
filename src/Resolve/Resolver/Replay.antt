-- ===== src/Resolve/Resolver/Replay.antt =====
-- Replay of the log of src/resolve/resolver.py: other orders, later events, appended events.
use mathlib.Core.List.{Permᴰ}
use hodi.Prelude.{
  ℕ, String, ◌≡◌, true, false, ◌∙◌, ap, ◌<◌, Option, some, List, [], ◌∷◌, ◌++◌, arith, string_eq,
  beq_refl, filter, filter-append, filter_none, append_nil, last?, last?-append, In, In-filter, ◌≢◌,
  eq_iff, Bool,
}
use hodi.Prelude.Sort.{
  filter-Permᴰ, sort_by, sort_by-Permᴰ, sort_by-last, Separates, IsTotalOrder, stamp_le_order,
  stamp_le_antisymm,
}
use hodi.Schema.GrantEvent.{GrantEvent}
use hodi.Resolve.Resolver.{
  initial, fold_events, is_by, is_matching, event_le, ordered_events, resolve,
}
use hodi.Resolve.Resolver.Fold.{resolve-latest, status_of, scope_of, status_after, scope_after}

-- Event ids are unique in the log, which creates and never overwrites.
abbrev pub HasUniqueIds : List GrantEvent → Type 0
HasUniqueIds events =
    (x y : GrantEvent) → In x events → In y events → x.event_id ≡ y.event_id → x ≡ y

pub event_le_order : IsTotalOrder event_le
event_le_order = record {
  total = λ x y. stamp_le_order.total (x.issued_at, x.event_id) (y.issued_at, y.event_id);
  trans = λ x y z.
      stamp_le_order.trans (x.issued_at, x.event_id) (y.issued_at, y.event_id)
        (z.issued_at, z.event_id);
}

separates :
    (p : GrantEvent → Bool) (events : List GrantEvent)
    → HasUniqueIds events
    → Separates event_le (filter p events)
separates p events unique x y i j h k =
    unique x y (In-filter p events i).0 (In-filter p events j).0 (
      ap (λ (s : ℕ × String). s.1)
        (stamp_le_antisymm (x.issued_at, x.event_id) (y.issued_at, y.event_id) h k))

-- Reading the log in another order gives the same state: two lists of the same events, with unique
-- ids, resolve alike at every instant.
pub resolve-shuffle :
    (gid : String) (at : Option ℕ) (events shuffled : List GrantEvent)
    → Permᴰ events shuffled
    → HasUniqueIds events
    → resolve gid at events ≡ resolve gid at shuffled
unfolding resolve
resolve-shuffle gid at events shuffled p unique =
    ap (λ h. fold_events (initial gid h) h)
      (sort_by-Permᴰ event_le_order (filter-Permᴰ (is_matching gid at) p)
        (separates (is_matching gid at) events unique))

later_not_matching :
    (gid : String) (at : ℕ) (ev : GrantEvent)
    → at < ev.issued_at
    → is_matching gid (some at) ev ≡ false
later_not_matching gid at ev h = ground arith

-- Events issued after an instant do not change what the log says of that instant.
pub resolve-past :
    (gid : String) (at : ℕ) (events later : List GrantEvent)
    → ((ev : GrantEvent) → In ev later → at < ev.issued_at)
    → resolve gid (some at) (events ++ later) ≡ resolve gid (some at) events
unfolding resolve
resolve-past gid at events later h =
    ap (λ l. fold_events (initial gid (sort_by event_le l)) (sort_by event_le l))
      (filter-append (is_matching gid (some at)) events later
        ∙ ap (λ l. filter (is_matching gid (some at)) events ++ l)
            (filter_none (is_matching gid (some at)) later
              (λ ev m. later_not_matching gid at ev (h ev m)))
        ∙ append_nil (filter (is_matching gid (some at)) events))

-- Events of other grants do not change the state of a grant.
pub resolve-others :
    (gid : String) (at : Option ℕ) (events others : List GrantEvent)
    → ((ev : GrantEvent) → In ev others → ev.grant_id ≢ gid)
    → resolve gid at (events ++ others) ≡ resolve gid at events
unfolding resolve
resolve-others gid at events others h =
    ap (λ l. fold_events (initial gid (sort_by event_le l)) (sort_by event_le l))
      (filter-append (is_matching gid at) events others
        ∙ ap (λ l. filter (is_matching gid at) events ++ l)
            (filter_none (is_matching gid at) others
              (λ ev m. ground (arith, h ev m, eq_iff ev.grant_id gid)))
        ∙ append_nil (filter (is_matching gid at) events))

matches_self :
    (at : Option ℕ) (ev : GrantEvent) → is_by at ev ≡ true → is_matching ev.grant_id at ev ≡ true
matches_self at ev by = ground (arith, by, beq_refl ev.grant_id)

pub matching-grant :
    (at : Option ℕ) (gid : String) (y : GrantEvent) → is_matching gid at y ≡ true → y.grant_id ≡ gid
matching-grant at gid y h = ground (arith, eq_iff y.grant_id gid)

-- `ev` is not before any event of its grant, in the order of the fold.
abbrev pub IsLatest : GrantEvent → List GrantEvent → Type 0
IsLatest ev events =
    (x : GrantEvent) → In x events → x.grant_id ≡ ev.grant_id → event_le x ev ≡ true

pub ordered_events-latest :
    (at : Option ℕ) (events : List GrantEvent) (ev : GrantEvent)
    → is_by at ev ≡ true
    → IsLatest ev events
    → ordered_events ev.grant_id at (events ++ ev ∷ [])
      ≡ ordered_events ev.grant_id at events ++ ev ∷ []
unfolding ordered_events
ordered_events-latest at events ev by latest =
    ap (sort_by event_le) (
      filter-append (is_matching ev.grant_id at) events (ev ∷ [])
      ∙ ap (λ l. filter (is_matching ev.grant_id at) events ++ l) (rw (matches_self at ev by)))
    ∙ sort_by-last event_le (filter (is_matching ev.grant_id at) events) ev (λ y m.
      let (i, e) = In-filter (is_matching ev.grant_id at) events m in
      latest y i (matching-grant at ev.grant_id y e))

-- An appended event that no event of its grant follows decides the state of the grant: its kind
-- gives the status, and only a granting event leaves a scope in force.
pub resolve-append_latest :
    (at : Option ℕ) (events : List GrantEvent) (ev : GrantEvent)
    → is_by at ev ≡ true
    → IsLatest ev events
    → ((resolve ev.grant_id at (events ++ ev ∷ [])).status ≡ status_of ev.kind)
      × ((resolve ev.grant_id at (events ++ ev ∷ [])).active_scope ≡ scope_of ev.kind ev.scope)
resolve-append_latest at events ev by latest =
    let (s, a) = resolve-latest ev.grant_id at (events ++ ev ∷ []) in
    let tail : last? (ordered_events ev.grant_id at (events ++ ev ∷ [])) ≡ some ev =
      ap last? (ordered_events-latest at events ev by latest)
      ∙ last?-append (ordered_events ev.grant_id at events) ev in
    (s ∙ ap status_after tail, a ∙ ap scope_after tail)
