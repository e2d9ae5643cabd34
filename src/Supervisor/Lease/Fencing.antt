-- ===== src/Supervisor/Lease/Fencing.antt =====
-- The fold of src/supervisor/lease.py, read at the latest event of a lease.
use hodi.Prelude.{
  ℕ, String, ◌≡◌, ◌≢◌, refl, sym, ap, ◌∙◌, inl, inr, true, false, Option, none, some, List, [], ◌∷◌,
  arith, ◌==◌, string_eq, beq→eq, beq_refl, Bool-cases, last?, In, In-last?, In-filter, filter-In,
}
use hodi.Prelude.Sort.{
  sort_by-last-IsTop, In-sort_by, IsTotalOrder, stamp_le_order, stamp_le_antisymm,
}
use hodi.Supervisor.Lease.{
  LeaseKind, issued, revoked, released, LeaseEvent, LeaseStatus, active, was_revoked, was_released,
  nonexistent, LeaseState, LeaseLedger, apply_event, fold_events, initial, event_le, events_for,
  ordered_events, expire, state, is_valid,
}

abbrev pub status_of : LeaseKind → LeaseStatus
status_of issued = active
status_of revoked = was_revoked
status_of released = was_released

abbrev pub status_after : Option LeaseEvent → LeaseStatus
status_after none = nonexistent
status_after (some ev) = status_of ev.kind

fold_events-cons :
    (s : LeaseState) (ev : LeaseEvent) (l : List LeaseEvent)
    → (fold_events s (ev ∷ l)).status ≡ status_after (last? (ev ∷ l))
unfolding fold_events
fold_events-cons s ev [] = ground arith
fold_events-cons s ev (f ∷ l) = fold_events-cons (apply_event s ev) f l

fold_events-last :
    (lease_id : String) (l : List LeaseEvent)
    → (fold_events (initial lease_id) l).status ≡ status_after (last? l)
unfolding fold_events
fold_events-last lease_id [] = refl
fold_events-last lease_id (ev ∷ l) = fold_events-cons (initial lease_id) ev l

expire-active : (at : ℕ) (s : LeaseState) → (expire at s).status ≡ active → s.status ≡ active
unfolding expire
expire-active at s h = ground arith

-- A lease is active only where its latest event issues it.
pub state-active :
    (lease_id : String) (at : ℕ) (ledger : LeaseLedger)
    → (state lease_id at ledger).status ≡ active
    → (ev : LeaseEvent) × (last? (ordered_events lease_id ledger) ≡ some ev) × (ev.kind ≡ issued)
unfolding state
state-active lease_id at ledger h = latest (last? (ordered_events lease_id ledger)) refl (
    sym (fold_events-last lease_id (ordered_events lease_id ledger))
    ∙ expire-active at (fold_events (initial lease_id) (ordered_events lease_id ledger)) h)
  where
    latest :
        (o : Option LeaseEvent)
        → last? (ordered_events lease_id ledger) ≡ o
        → status_after o ≡ active
        → (ev : LeaseEvent) × (last? (ordered_events lease_id ledger) ≡ some ev)
          × (ev.kind ≡ issued)
    latest none e k = absurd (cc)
    latest (some ev) e k = (ev, e, ground arith)

event_le_order : IsTotalOrder event_le
event_le_order = record {
  total = λ x y. stamp_le_order.total (x.issued_at, x.event_id) (y.issued_at, y.event_id);
  trans = λ x y z.
      stamp_le_order.trans (x.issued_at, x.event_id) (y.issued_at, y.event_id)
        (z.issued_at, z.event_id);
}

-- The event stands in the ledger and comes after every issue of its lease.
pub record IsFence (fence : LeaseEvent) (ledger : LeaseLedger) : Type 0 where
  pub listed : In fence ledger
  pub follows :
      (e : LeaseEvent)
      → In e ledger
      → e.lease_id ≡ fence.lease_id
      → e.kind ≡ issued
      → (event_le e fence ≡ true) × (e.event_id ≢ fence.event_id)

-- No issue comes last where a fence stands.
not-after :
    (fence ev : LeaseEvent) (ledger : LeaseLedger)
    → IsFence fence ledger
    → last? (ordered_events fence.lease_id ledger) ≡ some ev
    → ev.kind ≢ issued
unfolding ordered_events events_for
not-after fence ev ledger f e k =
    let own = λ (x : LeaseEvent). x.lease_id == fence.lease_id in
    let listed : In ev ledger × (own ev ≡ true) = In-filter own ledger (
      In-sort_by event_le ev (events_for fence.lease_id ledger)
        (In-last? (ordered_events fence.lease_id ledger) ev e)) in
    let before : (event_le ev fence ≡ true) × (ev.event_id ≢ fence.event_id) =
      f.follows ev listed.0 (beq→eq ev.lease_id fence.lease_id listed.1) k in
    let above : event_le fence ev ≡ true =
      sort_by-last-IsTop event_le_order (events_for fence.lease_id ledger) ev e fence
        (filter-In own ledger f.listed (beq_refl fence.lease_id)) in
    before.1 (
      ap (λ p. p.1)
        (stamp_le_antisymm (ev.issued_at, ev.event_id) (fence.issued_at, fence.event_id) before.0
          above))

is_valid-active :
    (lease_id : String) (at : ℕ) (ledger : LeaseLedger)
    → is_valid (some lease_id) at ledger ≡ true
    → (state lease_id at ledger).status ≡ active
unfolding is_valid
is_valid-active lease_id at ledger h = ground arith

-- Once a lease has an event after every one of its issues, the lease is invalid at every instant,
-- whatever else the ledger holds.
pub fence-invalid :
    (fence : LeaseEvent) (ledger : LeaseLedger) (at : ℕ)
    → IsFence fence ledger
    → is_valid (some fence.lease_id) at ledger ≡ false
fence-invalid fence ledger at f = elim (Bool-cases (is_valid (some fence.lease_id) at ledger)) [
  | inl e ↦
      let latest =
        state-active fence.lease_id at ledger (is_valid-active fence.lease_id at ledger e) in
      absurd (not-after fence latest.0 ledger f latest.1 latest.2)
  | inr e ↦ e
]
