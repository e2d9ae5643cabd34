-- ===== src/Registry/Disclosure.antt =====
-- What src/registry/registry.py discloses, and to whom.
use mathlib.Core.Path.{subst}
use hodi.Prelude.Tables.{get, set_item, get-set_item, get-set_item_other}
use hodi.Prelude.{
  ℕ, ◌<◌, String, ◌≡◌, ◌↔◌, refl, sym, ap, ◌∙◌, ◌⊎◌, inl, inr, Bool, true, false, ◌||◌, Option,
  none, some, List, [], ◌∷◌, ◌++◌, arith, ◌==◌, string_eq, beq→eq, beq_refl, Bool-cases, contains,
  contains-In, In-contains, In-append_left, lt→ltb, In, here, there, In-filter, filter-In, filter,
  map, ok, if◌then◌else◌,
}
use hodi.Prelude.Sort.{sort_by, sort_by-last}
use hodi.Registry.{
  AgentPublication, active, deregistered, RegistryKind, registration, heartbeat_kind,
  deregistration, RegistryEvent, Log, allowed_invocations, append_event, deregistered_event,
  deregister, State, update_item, store_publication, apply_kind, fold_events, event_le, fold,
  is_active, publications, is_key, is_registered, targets_of, discover,
}

-- What a requester may see of a target: an active publication of that role, of a role it may invoke.
pub record Disclosed (target_role requesting_role_key : String) (log : Log) (p : AgentPublication)
    : Type 0 where
  pub allowed : In target_role (targets_of (get requesting_role_key allowed_invocations))
  pub agent_id : String
  pub folded : In (agent_id, p) (fold log)
  pub active_now : p.status ≡ active
  pub matches : (p.owning_function ≡ target_role) ⊎ (p.role ≡ target_role)

map-In :
    (p : AgentPublication) (s : State)
    → In p (map (λ entry. entry.1) s)
    → (k : String) × In (k, p) s
map-In p [] m = elim m [ ]
map-In p ((k, q) ∷ s) (here e) = (k, here (ap (λ u. (k, u)) e))
map-In p (x ∷ s) (there i) = let r = map-In p s i in (r.0, there r.1)

In-map :
    (p : AgentPublication) (s : State) (k : String) → In (k, p) s → In p (map (λ entry. entry.1) s)
In-map p [] k m = elim m [ ]
In-map p (x ∷ s) k (here e) = here (ap (λ u. u.1) e)
In-map p (x ∷ s) k (there i) = there (In-map p s k i)

is_active-status : (p : AgentPublication) → is_active p ≡ true → p.status ≡ active
is_active-status p h = ground arith

status-is_active : (p : AgentPublication) → p.status ≡ active → is_active p ≡ true
status-is_active p h = ground arith

In-nothing : {p : AgentPublication} → In p [] → ⊥
In-nothing m = elim m [ ]

-- Discovery returns exactly the disclosed publications: nothing to a requester who may not invoke the role,
-- and nothing of an agent that is deregistered.
pub discover_iff :
    (target_role requesting_role_key : String) (log : Log) (p : AgentPublication)
    → In p (discover target_role requesting_role_key log)
      ↔ Disclosed target_role requesting_role_key log p
unfolding discover publications
discover_iff target_role requesting_role_key log p = (forth, back)
  where
    named : (a b : Bool) → b ≡ true → (a || b) ≡ true
    named a b h = ground arith

    test : AgentPublication → Bool
    test q = q.owning_function == target_role || q.role == target_role

    forth :
        In p (discover target_role requesting_role_key log)
        → Disclosed target_role requesting_role_key log p
    forth m =
        elim (Bool-cases
          (contains target_role (targets_of (get requesting_role_key allowed_invocations)))) [
            | inl h ↦
                let found =
                  In-filter test (map (λ entry. entry.1) (publications log)) (rw h at m) in
                let row = map-In p (publications log) found.0 in
                let seen =
                  In-filter (λ (entry : String × AgentPublication). is_active entry.1) (fold log)
                    row.1 in
                record {
                  allowed =
                      contains-In target_role
                        (targets_of (get requesting_role_key allowed_invocations)) h;
                  agent_id = row.0;
                  folded = seen.0;
                  active_now = is_active-status p seen.1;
                  matches = elim (Bool-cases (p.owning_function == target_role)) [
                    | inl e ↦ inl (beq→eq p.owning_function target_role e)
                    | inr e ↦ inr (beq→eq p.role target_role (rw e at found.1))
                  ];
                }
            | inr h ↦ elim (In-nothing (rw h at m)) [ ]
          ]

    back :
        Disclosed target_role requesting_role_key log p
        → In p (discover target_role requesting_role_key log)
    back d =
        rw
          (In-contains target_role (targets_of (get requesting_role_key allowed_invocations))
            d.allowed)
          (filter-In test (map (λ entry. entry.1) (publications log))
            (In-map p (publications log) d.agent_id (
              filter-In (λ (entry : String × AgentPublication). is_active entry.1) (fold log)
                d.folded (status-is_active p d.active_now)))
            (elim d.matches [
              | inl e ↦ rw (e, beq_refl target_role) refl
              | inr e ↦
                  named (p.owning_function == target_role) (p.role == target_role)
                    (ap (λ r. r == target_role) e ∙ beq_refl target_role)
            ]))

-- Each key once.
abbrev HasUniqueKeys : State → Type 0
HasUniqueKeys [] = Unit
HasUniqueKeys ((k, p) ∷ rest) = (get k rest ≡ none) × HasUniqueKeys rest

flipped : (k j : String) → (k == j) ≡ false → (j == k) ≡ false
flipped k j e = elim (Bool-cases (j == k)) [
  | inl h ↦
      let q : (j == j) ≡ false = subst (λ u. (u == j) ≡ false) (sym (beq→eq j k h)) e in
      absurd (cc (beq_refl j))
  | inr h ↦ h
]

set_item-HasUniqueKeys :
    (k : String) (p : AgentPublication) (s : State)
    → HasUniqueKeys s
    → HasUniqueKeys (set_item k p s)
unfolding set_item get
set_item-HasUniqueKeys k p [] u = (refl, tt)
set_item-HasUniqueKeys k p ((j, q) ∷ rest) (a, u) = elim (Bool-cases (k == j)) [
  | inl e ↦ rw e (a, u)
  | inr e ↦
      rw e (get-set_item_other j k p rest (flipped k j e) ∙ a, set_item-HasUniqueKeys k p rest u)
]

update_item-HasUniqueKeys :
    (k : String) (f : AgentPublication → AgentPublication) (o : Option AgentPublication) (s : State)
    → HasUniqueKeys s
    → HasUniqueKeys (update_item k f o s)
update_item-HasUniqueKeys k f none s u = u
update_item-HasUniqueKeys k f (some p) s u = set_item-HasUniqueKeys k (f p) s u

apply_kind-HasUniqueKeys :
    (k : RegistryKind) (ev : RegistryEvent) (s : State)
    → HasUniqueKeys s
    → HasUniqueKeys (apply_kind k ev s)
apply_kind-HasUniqueKeys registration ev s u = stored ev.publication
  where
    stored : (o : Option AgentPublication) → HasUniqueKeys (store_publication ev.agent_id o s)
    stored none = u
    stored (some p) = set_item-HasUniqueKeys ev.agent_id p s u
apply_kind-HasUniqueKeys heartbeat_kind ev s u =
    update_item-HasUniqueKeys ev.agent_id _ (get ev.agent_id s) s u
apply_kind-HasUniqueKeys deregistration ev s u =
    update_item-HasUniqueKeys ev.agent_id _ (get ev.agent_id s) s u

fold_events-HasUniqueKeys :
    (l : List RegistryEvent) (s : State) → HasUniqueKeys s → HasUniqueKeys (fold_events s l)
unfolding fold_events
fold_events-HasUniqueKeys [] s u = u
fold_events-HasUniqueKeys (ev ∷ l) s u =
    fold_events-HasUniqueKeys l (apply_kind ev.kind ev s) (apply_kind-HasUniqueKeys ev.kind ev s u)

fold_events-append :
    (l : List RegistryEvent) (ev : RegistryEvent) (s : State)
    → fold_events s (l ++ ev ∷ []) ≡ apply_kind ev.kind ev (fold_events s l)
unfolding fold_events
fold_events-append [] ev s = refl
fold_events-append (e ∷ l) ev s = fold_events-append l ev (apply_kind e.kind e s)

abbrev kept : Option AgentPublication → Option AgentPublication
kept none = none
kept (some p) = if is_active p then some p else none

get-filter :
    (k : String) (s : State)
    → HasUniqueKeys s
    → get k (filter (λ entry. is_active entry.1) s) ≡ kept (get k s)
unfolding get
get-filter k [] u = refl
get-filter k ((j, p) ∷ rest) (a, u) = elim (Bool-cases (is_active p)) [
  | inl h ↦ elim (Bool-cases (k == j)) [
    | inl e ↦ rw (h, e, h) refl
    | inr e ↦ rw (h, e) (get-filter k rest u)
  ]
  | inr h ↦ elim (Bool-cases (k == j)) [
    | inl e ↦ rw (h, e, h) (get-filter k rest u ∙ ap kept (ap (λ i. get i rest) (beq→eq k j e) ∙ a))
    | inr e ↦ rw (h, e) (get-filter k rest u)
  ]
]

dropped :
    (ev : RegistryEvent) (s : State)
    → kept (get ev.agent_id (apply_kind deregistration ev s)) ≡ none
dropped ev s = cases (get ev.agent_id s) refl
  where
    cases :
        (o : Option AgentPublication)
        → get ev.agent_id s ≡ o
        → kept (
            get ev.agent_id (update_item ev.agent_id (λ p. record p { status = deregistered }) o s))
          ≡ none
    cases none e = rw e refl
    cases (some p) e = rw (get-set_item ev.agent_id (record p { status = deregistered }) s) refl

appended :
    (ev : RegistryEvent) (log later : Log) → append_event ev log ≡ ok later → later ≡ log ++ ev ∷ []
unfolding append_event
appended ev log later h = ground arith

gone :
    (ev : RegistryEvent) (log : Log)
    → ev.kind ≡ deregistration
    → ((e : RegistryEvent) → In e log → event_le e ev ≡ true)
    → is_registered ev.agent_id (log ++ ev ∷ []) ≡ false
unfolding is_registered fold
gone ev log k top =
    rw
      (get-filter ev.agent_id (fold (log ++ ev ∷ []))
        (fold_events-HasUniqueKeys (sort_by event_le (log ++ ev ∷ [])) [] tt))
      (ap (is_key ev.agent_id) (
        ap (λ l. kept (get ev.agent_id (fold_events [] l))) (sort_by-last event_le log ev top)
        ∙ ap (λ s. kept (get ev.agent_id s)) (fold_events-append (sort_by event_le log) ev [])
        ∙ ap (λ i. kept (get ev.agent_id (apply_kind i ev (fold_events [] (sort_by event_le log)))))
            k
        ∙ dropped ev (fold_events [] (sort_by event_le log))))

-- An agent that is deregistered after everything recorded so far is no longer registered, and what was
-- recorded of it stays.
pub deregister-is_registered :
    (agent_id reason : String) (now : ℕ) (uuid : String) (log later : Log)
    → deregister agent_id reason now uuid log ≡ ok later
    → ((e : RegistryEvent) → In e log → e.recorded_at < now)
    → (is_registered agent_id later ≡ false) × ((e : RegistryEvent) → In e log → In e later)
unfolding deregister
deregister-is_registered agent_id reason now uuid log later h before =
    let ev = deregistered_event agent_id reason now uuid in
    let made : later ≡ log ++ ev ∷ [] = appended ev log later h in
    (
      ap (is_registered agent_id) made ∙ gone ev log refl (λ e m. earlier e (before e m)),
      λ e m. subst (In e) (sym made) (In-append_left (ev ∷ []) m),
    )
  where
    earlier :
        (e : RegistryEvent)
        → e.recorded_at < now
        → event_le e (deregistered_event agent_id reason now uuid) ≡ true
    earlier e l = rw (lt→ltb e.recorded_at now l) refl
