-- ===== src/Resolve/Evaluator/Permission.antt =====
-- `permits` of src/resolve/evaluator.py over a list of grants.
use hodi.Prelude.{
  ℕ, ◌≡◌, refl, ◌↔◌, inl, inr, ◌∙◌, sym, ap, Bool, true, false, not, some, List, [], ◌∷◌, arith,
  ◌==◌, In, here, there, In-cons, Result, ok, err, ok-injective, Bool-cases,
}
use hodi.Schema.Vocabulary.{EventKind, granted, EventKind-discrete, event_kind_eq}
use hodi.Schema.Scope.{Scope, ScopeEvaluationResult}
use hodi.Schema.GrantEvent.{GrantEvent}
use hodi.Resolve.Evaluator.{is_containing, NotFolded, check_folded, first_containing, permits}
use hodi.Resolve.Evaluator.Containment.{IsCurrent, Holds, Holds-trans, is_containing_iff}

abbrev pub AllGranted : List GrantEvent → Type 0
AllGranted gs = (g : GrantEvent) → In g gs → g.kind ≡ granted

-- Some single grant of the list is in force and holds the request.
abbrev pub IsHeld : List GrantEvent → Scope → ℕ → Type 0
IsHeld gs r at = (g : GrantEvent) × In g gs × IsCurrent g.scope at × Holds g.scope r

kind-test : (k : EventKind) → (not (k == granted) ≡ false) ↔ (k ≡ granted)
unfolding EventKind-discrete
kind-test k = (λ h. ground arith, λ h. ground arith)

check_folded-ok : (gs : List GrantEvent) → AllGranted gs → check_folded gs ≡ ok tt
unfolding check_folded
check_folded-ok [] h = refl
check_folded-ok (g ∷ gs) h =
    rw ((kind-test g.kind).1 (h g (here refl))) (check_folded-ok gs (λ x m. h x (there m)))

check_folded-granted :
    (gs : List GrantEvent) (u : Unit {0}) → check_folded gs ≡ ok u → AllGranted gs
unfolding check_folded
check_folded-granted [] u h g m = elim m [ ]
check_folded-granted (x ∷ gs) u h g m = elim (Bool-cases (not (x.kind == granted))) [
  | inl raw ↦
      let k : ◌≡◌ {A = Result NotFolded (Unit {0})}
          (err (record { kind = x.kind; grant_id = x.grant_id })) (ok u) =
        rw raw at h in
      absurd (cc)
  | inr fine ↦ elim (In-cons m) [
    | inl e ↦ ap (λ (y : GrantEvent). y.kind) e ∙ (kind-test x.kind).0 fine
    | inr i ↦ check_folded-granted gs u (rw fine at h) g i
  ]
]

permits-check :
    (gs : List GrantEvent) (r : Scope) (at : ℕ)
    → permits gs r at
      ≡ elim (check_folded gs) [ ok _ ↦ ok (first_containing gs r at) | err e ↦ err e ]
unfolding permits
permits-check gs r at = refl

-- On folded grants `permits` answers, and it does not raise.
pub permits-granted :
    (gs : List GrantEvent) (r : Scope) (at : ℕ)
    → AllGranted gs
    → permits gs r at ≡ ok (first_containing gs r at)
permits-granted gs r at h = permits-check gs r at ∙ (rw check_folded-ok)

first_containing-held :
    (gs : List GrantEvent) (r : Scope) (at : ℕ)
    → (first_containing gs r at).permitted ≡ true
    → (g : GrantEvent) × In g gs
      × (is_containing g.scope r at ≡ true)
      × ((first_containing gs r at).matching_grant_id ≡ some g.grant_id)
      × ((first_containing gs r at).attribution_required ≡ g.scope.attribution_required)
unfolding first_containing
first_containing-held [] r at h = absurd (cc)
first_containing-held (x ∷ gs) r at h = elim (Bool-cases (is_containing x.scope r at)) [
  | inl hit ↦ (x, here refl, hit, rw hit, rw hit)
  | inr miss ↦
      let (g, m, c, i, a) = first_containing-held gs r at (rw miss at h) in
      (g, there m, c, rw miss i, rw miss a)
]

held-first_containing :
    (gs : List GrantEvent) (r : Scope) (at : ℕ) (g : GrantEvent)
    → In g gs
    → is_containing g.scope r at ≡ true
    → (first_containing gs r at).permitted ≡ true
unfolding first_containing
held-first_containing [] r at g m h = elim m [ ]
held-first_containing (x ∷ gs) r at g m h = elim (Bool-cases (is_containing x.scope r at)) [
  | inl hit ↦ rw hit
  | inr miss ↦ rw miss (elim (In-cons m) [
    | inl e ↦ absurd (clash (ap (λ (y : GrantEvent). is_containing y.scope r at) e) h miss)
    | inr i ↦ held-first_containing gs r at g i h
  ])
]
  where
    clash : {a b : Bool} → a ≡ b → a ≡ true → b ≡ false → ⊥
    clash p q s = cc

-- `permits` raises exactly when some event of the list is not a granting one.
pub permits-ok_iff :
    (gs : List GrantEvent) (r : Scope) (at : ℕ)
    → ((res : ScopeEvaluationResult) × (permits gs r at ≡ ok res)) ↔ AllGranted gs
permits-ok_iff gs r at = (
  λ (res, h). answered (check_folded gs) refl (sym (permits-check gs r at) ∙ h),
  λ h. (first_containing gs r at, permits-granted gs r at h),
)
  where
    answered :
        {res : ScopeEvaluationResult} (c : Result NotFolded (Unit {0}))
        → check_folded gs ≡ c
        → elim c [ ok _ ↦ ok (first_containing gs r at) | err e ↦ err e ] ≡ ok res
        → AllGranted gs
    answered (ok u) e h = check_folded-granted gs u e
    answered (err n) e h = absurd (cc)

-- On granting events the answer is yes exactly when some single grant, in force at the instant,
-- holds the request on all dimensions at once.
pub permits-iff-IsHeld :
    (gs : List GrantEvent) (r : Scope) (at : ℕ)
    → AllGranted gs
    → (res : ScopeEvaluationResult) × (permits gs r at ≡ ok res)
      × ((res.permitted ≡ true) ↔ IsHeld gs r at)
permits-iff-IsHeld gs r at all = (
  first_containing gs r at,
  permits-granted gs r at all,
  (
    λ h.
        let (g, m, c, _, _) = first_containing-held gs r at h in
        let (cur, holds) = (is_containing_iff g.scope r at).0 c in (g, m, cur, holds),
    λ (g, m, cur, holds).
        held-first_containing gs r at g m ((is_containing_iff g.scope r at).1 (cur, holds)),
  ),
)

-- A positive answer names a grant of the list that is in force and holds the request, and carries
-- the attribution duty of that grant.
pub permits-names_grant :
    (gs : List GrantEvent) (r : Scope) (at : ℕ) (res : ScopeEvaluationResult)
    → permits gs r at ≡ ok res
    → res.permitted ≡ true
    → (g : GrantEvent) × In g gs
      × IsCurrent g.scope at
      × Holds g.scope r
      × (res.matching_grant_id ≡ some g.grant_id)
      × (res.attribution_required ≡ g.scope.attribution_required)
permits-names_grant gs r at res h yes_ =
    let e : res ≡ first_containing gs r at =
      ok-injective (permits gs r at) h
        (permits-granted gs r at ((permits-ok_iff gs r at).0 (res, h))) in
    let (g, m, c, i, a) = first_containing-held gs r at (rw e at yes_) in
    let (cur, holds) = (is_containing_iff g.scope r at).0 c in (g, m, cur, holds, rw e i, rw e a)

-- What a permitted request holds is permitted too: narrowing a request never loses permission.
pub permits_narrower :
    (gs : List GrantEvent) (wide narrow : Scope) (at : ℕ) (res : ScopeEvaluationResult)
    → permits gs wide at ≡ ok res
    → res.permitted ≡ true
    → Holds wide narrow
    → (res' : ScopeEvaluationResult) × (permits gs narrow at ≡ ok res') × (res'.permitted ≡ true)
permits_narrower gs wide narrow at res h granted_ inside =
    let (g, m, cur, holds, _, _) = permits-names_grant gs wide at res h granted_ in
    (
      first_containing gs narrow at,
      permits-granted gs narrow at ((permits-ok_iff gs wide at).0 (res, h)),
      held-first_containing gs narrow at g m
          ((is_containing_iff g.scope narrow at).1 (cur, Holds-trans holds inside)),
    )
