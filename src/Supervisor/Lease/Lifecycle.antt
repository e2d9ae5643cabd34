-- ===== src/Supervisor/Lease/Lifecycle.antt =====
-- What the operations of src/supervisor/lease.py leave in the ledger.
use hodi.Prelude.{
  ℕ, ◌+◌, ◌<◌, String, ◌≡◌, ◌≢◌, refl, sym, ap, ◌∙◌, inl, inr, Bool, true, false, some, [], ◌∷◌,
  ◌++◌, arith, ◌==◌, string_eq, eq_iff, beq→eq, beq_refl, Bool-cases, any, filter-append,
  filter_none, ok, >>=-eq-ok, ok-injective, leb, In, here, there, In-append, In-append_right,
  In-cons,
}
use mathlib.Core.Path.{subst}
use text.Mathlib.TextPositions.{len-append}
use Prim.Native.String.{len}
use hodi.Supervisor.Lease.{
  lease_id_of, issue_event, issued, LeaseEvent, LeaseLedger, DuplicateLeaseEvent, append_event,
  fold_events, event_le, events_for, ordered_events, expire, state, is_valid, issue, revoke,
  release, revoke_event, release_event,
}
use hodi.Supervisor.Lease.Fencing.{IsFence, fence-invalid}

-- Every issue of the lease in the ledger was made before `now`.
abbrev pub IssuedBefore : ℕ → String → LeaseLedger → Type 0
IssuedBefore now lease_id ledger =
    (e : LeaseEvent) → In e ledger → e.lease_id ≡ lease_id → e.kind ≡ issued → e.issued_at < now

append_event-ok :
    (ev : LeaseEvent) (ledger later : LeaseLedger)
    → append_event ev ledger ≡ ok later
    → later ≡ ledger ++ ev ∷ []
unfolding append_event
append_event-ok ev ledger later h = ground arith

In-any :
    (p : LeaseEvent → Bool) (l : LeaseLedger) {e : LeaseEvent}
    → In e l
    → p e ≡ true
    → any p l ≡ true
In-any p [] m h = elim m [ ]
In-any p (x ∷ l) (here e) h = let k : p x ≡ true = rw e at h in ground arith
In-any p (x ∷ l) (there m) h = let k = In-any p l m h in ground arith

append_event-fresh :
    (ev e : LeaseEvent) (ledger later : LeaseLedger)
    → append_event ev ledger ≡ ok later
    → In e ledger
    → e.event_id ≢ ev.event_id
unfolding append_event
append_event-fresh ev e ledger later h m k = absurd (
    taken (In-any (λ x. x.event_id == ev.event_id) ledger m ((eq_iff e.event_id ev.event_id).1 k))
      h)
  where
    taken : any (λ x. x.event_id == ev.event_id) ledger ≡ true → append_event ev ledger ≢ ok later
    taken e h = ground arith

append_event-IsFence :
    (ev : LeaseEvent) (ledger later : LeaseLedger)
    → append_event ev ledger ≡ ok later
    → ev.kind ≢ issued
    → IssuedBefore ev.issued_at ev.lease_id ledger
    → IsFence ev later
append_event-IsFence ev ledger later h other before =
    subst (IsFence ev) (sym (append_event-ok ev ledger later h)) (record {
      listed = In-append_right ledger (here refl);
      follows = λ e m own k. elim (In-append ledger m) [
        | inl i ↦ (earlier e (before e i own k), append_event-fresh ev e ledger later h i)
        | inr i ↦ elim (In-cons i) [
          | inl q ↦ absurd (other (sym (ap (λ x. x.kind) q) ∙ k))
          | inr j ↦ elim j [ ]
        ]
      ];
    })
  where
    earlier : (e : LeaseEvent) → e.issued_at < ev.issued_at → event_le e ev ≡ true
    earlier e l = ground arith

-- A lease revoked after its issues is invalid at every instant from then on.
pub revoke-invalid :
    (lease_id reason : String) (now : ℕ) (uuid : String) (ledger later : LeaseLedger) (at : ℕ)
    → revoke lease_id reason now uuid ledger ≡ ok later
    → IssuedBefore now lease_id ledger
    → is_valid (some lease_id) at later ≡ false
unfolding revoke
revoke-invalid lease_id reason now uuid ledger later at h before =
    let ev = revoke_event lease_id reason now uuid (state lease_id now ledger) in
    fence-invalid ev later at (append_event-IsFence ev ledger later h (cc) before)

-- A lease released after its issues is invalid at every instant from then on.
pub release-invalid :
    (lease_id : String) (now : ℕ) (uuid : String) (ledger later : LeaseLedger) (at : ℕ)
    → release lease_id now uuid ledger ≡ ok later
    → IssuedBefore now lease_id ledger
    → is_valid (some lease_id) at later ≡ false
unfolding release
release-invalid lease_id now uuid ledger later at h before =
    let ev = release_event lease_id now uuid (state lease_id now ledger) in
    fence-invalid ev later at (append_event-IsFence ev ledger later h (cc) before)

-- No event of the ledger names the lease.
abbrev pub IsUnused : String → LeaseLedger → Type 0
IsUnused lease_id ledger = (e : LeaseEvent) → In e ledger → e.lease_id ≢ lease_id

lease_id_of-not_empty : (uuid : String) → (lease_id_of uuid == "") ≡ false
lease_id_of-not_empty uuid = elim (Bool-cases (lease_id_of uuid == "")) [
  | inl h ↦
      let short : 6 + len uuid ≡ 0 =
        sym (len-append "lease-" uuid) ∙ ap len (beq→eq (lease_id_of uuid) "" h) in
      absurd (omega arith)
  | inr h ↦ h
]

-- The ledger that holds one issue of the lease: valid up to the expiry.
alone-is_valid :
    (ev : LeaseEvent) (until at : ℕ) (ledger : LeaseLedger)
    → IsUnused ev.lease_id ledger
    → ev.kind ≡ issued
    → ev.expires_at ≡ some until
    → (ev.lease_id == "") ≡ false
    → is_valid (some ev.lease_id) at (ledger ++ ev ∷ []) ≡ leb at until
unfolding is_valid ordered_events events_for fold_events expire
alone-is_valid ev until at ledger unused k e named =
    rw
      (
        filter-append (λ x. x.lease_id == ev.lease_id) ledger (ev ∷ []),
        filter_none (λ x. x.lease_id == ev.lease_id) ledger (λ x m. other x (unused x m)),
        beq_refl ev.lease_id,
        named,
        k,
        e,
      )
      (ground arith)
  where
    other : (x : LeaseEvent) → x.lease_id ≢ ev.lease_id → (x.lease_id == ev.lease_id) ≡ false
    other x n = elim (Bool-cases (x.lease_id == ev.lease_id)) [
      | inl h ↦ absurd (n (beq→eq x.lease_id ev.lease_id h))
      | inr h ↦ h
    ]

issue-ok :
    (agent_id task_id : String) (ttl now : ℕ) (lease_uuid event_uuid lease_id : String)
    (ledger later : LeaseLedger)
    → issue agent_id task_id ttl now lease_uuid event_uuid ledger ≡ ok (lease_id, later)
    → (lease_id_of lease_uuid ≡ lease_id)
      × (append_event (issue_event agent_id task_id ttl now lease_uuid event_uuid) ledger
          ≡ ok later)
unfolding issue
issue-ok agent_id task_id ttl now lease_uuid event_uuid lease_id ledger later h =
    let made =
      >>=-eq-ok (append_event (issue_event agent_id task_id ttl now lease_uuid event_uuid) ledger)
        (λ l. ok (lease_id_of lease_uuid, l)) h in
    let p : ◌≡◌ {A = String × LeaseLedger} (lease_id_of lease_uuid, made.0) (lease_id, later) =
      ok-injective {E = DuplicateLeaseEvent} (ok (lease_id_of lease_uuid, made.0)) refl made.2 in
    (ap (λ q. q.0) p, made.1 ∙ ap (λ q. ok q.1) p)

pub issue-named :
    (agent_id task_id : String) (ttl now : ℕ) (lease_uuid event_uuid lease_id : String)
    (ledger later : LeaseLedger)
    → issue agent_id task_id ttl now lease_uuid event_uuid ledger ≡ ok (lease_id, later)
    → lease_id_of lease_uuid ≡ lease_id
issue-named agent_id task_id ttl now lease_uuid event_uuid lease_id ledger later h =
    (issue-ok agent_id task_id ttl now lease_uuid event_uuid lease_id ledger later h).0

-- An issue before an instant leaves every issue before it.
pub issue-IssuedBefore :
    (agent_id task_id : String) (ttl now at : ℕ) (lease_uuid event_uuid lease_id : String)
    (ledger later : LeaseLedger) (any_id : String)
    → issue agent_id task_id ttl now lease_uuid event_uuid ledger ≡ ok (lease_id, later)
    → now < at
    → IssuedBefore at any_id ledger
    → IssuedBefore at any_id later
issue-IssuedBefore agent_id task_id ttl now at lease_uuid event_uuid lease_id ledger later any_id h
      l before =
    let ev = issue_event agent_id task_id ttl now lease_uuid event_uuid in
    let made : later ≡ ledger ++ ev ∷ [] =
      append_event-ok ev ledger later
        (issue-ok agent_id task_id ttl now lease_uuid event_uuid lease_id ledger later h).1 in
    subst (IssuedBefore at any_id) (sym made) (λ e m own k. elim (In-append ledger m) [
      | inl i ↦ before e i own k
      | inr i ↦ elim (In-cons i) [
        | inl q ↦ subst (λ (x : LeaseEvent). x.issued_at < at) (sym q) l
        | inr j ↦ elim j [ ]
      ]
    ])

-- A freshly issued lease is valid exactly until its expiry.
pub issue-is_valid :
    (agent_id task_id : String) (ttl now : ℕ) (lease_uuid event_uuid lease_id : String)
    (ledger later : LeaseLedger) (at : ℕ)
    → issue agent_id task_id ttl now lease_uuid event_uuid ledger ≡ ok (lease_id, later)
    → IsUnused lease_id ledger
    → is_valid (some lease_id) at later ≡ leb at (now + ttl)
issue-is_valid agent_id task_id ttl now lease_uuid event_uuid lease_id ledger later at h unused =
    let ev = issue_event agent_id task_id ttl now lease_uuid event_uuid in
    let made : (lease_id_of lease_uuid ≡ lease_id) × (append_event ev ledger ≡ ok later) =
      issue-ok agent_id task_id ttl now lease_uuid event_uuid lease_id ledger later h in
    subst (λ i. is_valid (some i) at later ≡ leb at (now + ttl)) made.0
      (subst (λ l. is_valid (some ev.lease_id) at l ≡ leb at (now + ttl))
        (sym (append_event-ok ev ledger later made.1))
        (alone-is_valid ev (now + ttl) at ledger
          (subst (λ i. IsUnused i ledger) (sym made.0) unused) refl refl
          (lease_id_of-not_empty lease_uuid)))
