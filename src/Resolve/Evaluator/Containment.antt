-- ===== src/Resolve/Evaluator/Containment.antt =====
-- `permits` of src/resolve/evaluator.py against the containment of scopes on five dimensions.
use hodi.Prelude.{
  ℕ, String, ◌≡◌, refl, ◌↔◌, ◌⊎◌, inl, inr, ◌≢◌, ◌≤◌, Bool, true, false, Option, none, some, List,
  [], ◌∷◌, arith, contains, In, In-contains, contains-In, string_eq, all-In, In-all, Bool-cases,
  ltb, not, ◌&&◌, if◌then◌else◌,
}
use hodi.Schema.Vocabulary.{UseType, event_kind_eq}
use hodi.Schema.Lattice.{is_use_type_contained, is_model_class_contained}
use hodi.Schema.Lattice.Order.{
  Chain, stay, down, is_use_type_contained-iff-Chain, is_model_class_contained_trans,
}
use hodi.Schema.Scope.{Scope, IsWithin}
use hodi.Resolve.Evaluator.{
  is_scope_current, is_window_contained, is_subset, is_empty, is_territory_contained, is_containing,
}

-- A bounded grant holds no open-ended request.
abbrev pub EndsBy : Option ℕ → Option ℕ → Type 0
EndsBy requested none = Unit
EndsBy none (some bound) = ⊥
EndsBy (some until) (some bound) = until ≤ bound

-- No territory, or WW, is the whole world.
abbrev pub TerritoryWithin : List String → List String → Type 0
TerritoryWithin requested held =
    (held ≡ []) ⊎ In "WW" held ⊎ ((requested ≢ []) × ((t : String) → In t requested → In t held))

-- The scope `g` holds all of `r`.
pub record Holds (g r : Scope) : Type 0 where
  pub starts : g.valid_from ≤ r.valid_from
  pub ends : EndsBy r.valid_until g.valid_until
  pub use_type : Chain g.use_type r.use_type
  pub model_class : is_model_class_contained g.model_class r.model_class ≡ true
  pub commercial : r.commercial ≡ true → g.commercial ≡ true
  pub territory : TerritoryWithin r.territory g.territory

-- The scope is in force at the instant.
pub record IsCurrent (g : Scope) (at : ℕ) : Type 0 where
  pub started : g.valid_from ≤ at
  pub unexpired : IsWithin at g.valid_until

is_scope_current-fields :
    (g : Scope) (at : ℕ)
    → is_scope_current g at ≡ true
    → (g.valid_from ≤ at) × IsWithin at g.valid_until
unfolding is_scope_current
is_scope_current-fields g at h = go g.valid_until h
  where
    go :
        (u : Option ℕ)
        → (if ltb at g.valid_from then false else elim u [ none ↦ true | some t ↦ not (ltb t at) ])
          ≡ true
        → (g.valid_from ≤ at) × IsWithin at u
    go none k = (ground arith, tt)
    go (some t) k = (ground arith, ground arith)

fields-is_scope_current :
    (g : Scope) (at : ℕ)
    → g.valid_from ≤ at
    → IsWithin at g.valid_until
    → is_scope_current g at ≡ true
unfolding is_scope_current
fields-is_scope_current g at h k = go g.valid_until k
  where
    go :
        (u : Option ℕ)
        → IsWithin at u
        → (if ltb at g.valid_from then false else elim u [ none ↦ true | some t ↦ not (ltb t at) ])
          ≡ true
    go none k = ground arith
    go (some t) k = ground arith

-- The currency test is the interval test.
pub is_scope_current_iff : (g : Scope) (at : ℕ) → (is_scope_current g at ≡ true) ↔ IsCurrent g at
is_scope_current_iff g at = (
  λ h. let (p, q) = is_scope_current-fields g at h in record { started = p; unexpired = q },
  λ c. fields-is_scope_current g at c.started c.unexpired,
)

ends_test : Option ℕ → Option ℕ → Bool
ends_test requested none = true
ends_test none (some bound) = false
ends_test (some until) (some bound) = not (ltb bound until)

ends_test-EndsBy : (r g : Option ℕ) → ends_test r g ≡ true → EndsBy r g
unfolding ends_test
ends_test-EndsBy r none h = tt
ends_test-EndsBy none (some b) h = absurd (cc)
ends_test-EndsBy (some u) (some b) h = ground arith

EndsBy-ends_test : (r g : Option ℕ) → EndsBy r g → ends_test r g ≡ true
unfolding ends_test
EndsBy-ends_test r none h = refl
EndsBy-ends_test none (some b) h = absurd h
EndsBy-ends_test (some u) (some b) h = ground arith

is_window_contained-eq :
    (g r : Scope)
    → is_window_contained g r
      ≡ (if ltb r.valid_from g.valid_from then false else ends_test r.valid_until g.valid_until)
unfolding is_window_contained ends_test
is_window_contained-eq g r = ground arith

window-fields :
    (g r : Scope)
    → is_window_contained g r ≡ true
    → (g.valid_from ≤ r.valid_from) × EndsBy r.valid_until g.valid_until
window-fields g r h =
    let k = rw is_window_contained-eq at h in
    (ground arith, ends_test-EndsBy r.valid_until g.valid_until (ground arith))

fields-window :
    (g r : Scope)
    → g.valid_from ≤ r.valid_from
    → EndsBy r.valid_until g.valid_until
    → is_window_contained g r ≡ true
fields-window g r h k =
    rw is_window_contained-eq (ground (arith, EndsBy-ends_test r.valid_until g.valid_until k))

territory-within :
    (held requested : List String)
    → is_territory_contained held requested ≡ true
    → TerritoryWithin requested held
unfolding is_territory_contained
territory-within [] requested h = inl refl
territory-within (x ∷ held) requested h = elim (Bool-cases (contains "WW" (x ∷ held))) [
  | inl w ↦ inr (inl (contains-In "WW" (x ∷ held) w))
  | inr w ↦ inr (inr (go requested (rw w at h)))
]
  where
    go :
        (r : List String)
        → (if is_empty r then false else is_subset r (x ∷ held)) ≡ true
        → (r ≢ []) × ((t : String) → In t r → In t (x ∷ held))
    go [] k = absurd (cc)
    go (y ∷ r) k = (
      λ e. absurd (cc),
      λ t m. contains-In t (x ∷ held) (all-In (λ u. contains u (x ∷ held)) (y ∷ r) k m),
    )

within-territory :
    (held requested : List String)
    → TerritoryWithin requested held
    → is_territory_contained held requested ≡ true
unfolding is_territory_contained
within-territory held requested (inl e) = rw e
within-territory held requested (inr (inl w)) = ground (arith, In-contains "WW" held w)
within-territory held [] (inr (inr (n, s))) = absurd (n refl)
within-territory held (y ∷ r) (inr (inr (n, s))) =
    let k : is_subset (y ∷ r) held ≡ true =
      In-all (λ u. contains u held) (y ∷ r) (λ t m. In-contains t held (s t m)) in
    ground arith

and→both : (a b : Bool) → (a && b) ≡ true → (a ≡ true) × (b ≡ true)
and→both a b h = ground arith

commercial-parts : (r g : Bool) → not (r && not g) ≡ true → r ≡ true → g ≡ true
commercial-parts r g h k = ground arith

containing-parts :
    (g r : Scope) (at : ℕ)
    → is_containing g r at ≡ true
    → (is_scope_current g at ≡ true)
      × (is_window_contained g r ≡ true)
      × (is_use_type_contained g.use_type r.use_type ≡ true)
      × (is_model_class_contained g.model_class r.model_class ≡ true)
      × (not (r.commercial && not g.commercial) ≡ true)
      × (is_territory_contained g.territory r.territory ≡ true)
unfolding is_containing
containing-parts g r at h = ground arith

parts-containing :
    (g r : Scope) (at : ℕ)
    → is_scope_current g at ≡ true
    → is_window_contained g r ≡ true
    → is_use_type_contained g.use_type r.use_type ≡ true
    → is_model_class_contained g.model_class r.model_class ≡ true
    → (r.commercial ≡ true → g.commercial ≡ true)
    → is_territory_contained g.territory r.territory ≡ true
    → is_containing g r at ≡ true
unfolding is_containing
parts-containing g r at c w u m k t = ground arith

containing-Holds : (g r : Scope) (at : ℕ) → is_containing g r at ≡ true → IsCurrent g at × Holds g r
containing-Holds g r at h =
    let (c, w, u, m, k, t) = containing-parts g r at h in
    let (p, q) = window-fields g r w in
    (
      (is_scope_current_iff g at).0 c,
      record {
        starts = p;
        ends = q;
        use_type = (is_use_type_contained-iff-Chain g.use_type r.use_type).0 u;
        model_class = m;
        commercial = commercial-parts r.commercial g.commercial k;
        territory = territory-within g.territory r.territory t;
      },
    )

Holds-containing : (g r : Scope) (at : ℕ) → IsCurrent g at → Holds g r → is_containing g r at ≡ true
Holds-containing g r at c h =
    parts-containing g r at ((is_scope_current_iff g at).1 c) (fields-window g r h.starts h.ends)
      ((is_use_type_contained-iff-Chain g.use_type r.use_type).1 h.use_type) h.model_class
      h.commercial (within-territory g.territory r.territory h.territory)

-- One round of the loop of `permits` finds the request contained exactly when the grant is in force
-- and holds the request on every dimension.
pub is_containing_iff :
    (g r : Scope) (at : ℕ) → (is_containing g r at ≡ true) ↔ (IsCurrent g at × Holds g r)
is_containing_iff g r at = (containing-Holds g r at, λ h. Holds-containing g r at h.0 h.1)

EndsBy-trans : (a b c : Option ℕ) → EndsBy a b → EndsBy b c → EndsBy a c
EndsBy-trans a b none h k = tt
EndsBy-trans a none (some z) h k = absurd k
EndsBy-trans none (some y) (some z) h k = absurd h
EndsBy-trans (some x) (some y) (some z) h k = omega arith

TerritoryWithin-trans :
    (a b c : List String) → TerritoryWithin a b → TerritoryWithin b c → TerritoryWithin a c
TerritoryWithin-trans a b c h (inl e) = inl e
TerritoryWithin-trans a b c h (inr (inl w)) = inr (inl w)
TerritoryWithin-trans a b c (inl e) (inr (inr (n, s))) = absurd (n e)
TerritoryWithin-trans a b c (inr (inl w)) (inr (inr (n, s))) = inr (inl (s "WW" w))
TerritoryWithin-trans a b c (inr (inr (m, r))) (inr (inr (n, s))) =
    inr (inr (m, λ t i. s t (r t i)))

Chain_trans : {u v w : UseType} → Chain u v → Chain v w → Chain u w
Chain_trans stay d = d
Chain_trans (down e c) d = down e (Chain_trans c d)

-- Containment of scopes is transitive.
pub Holds-trans : {a b c : Scope} → Holds a b → Holds b c → Holds a c
Holds-trans {a} {b} {c} h k = record {
  starts = omega (arith, h.starts, k.starts);
  ends = EndsBy-trans c.valid_until b.valid_until a.valid_until k.ends h.ends;
  use_type = Chain_trans h.use_type k.use_type;
  model_class =
      is_model_class_contained_trans a.model_class b.model_class c.model_class h.model_class
        k.model_class;
  commercial = λ e. h.commercial (k.commercial e);
  territory = TerritoryWithin-trans c.territory b.territory a.territory k.territory h.territory;
}
