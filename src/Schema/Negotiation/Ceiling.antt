-- ===== src/Schema/Negotiation/Ceiling.antt =====
-- `clamp_to_policy` of src/schema/negotiation.py, dimension by dimension, against the policy.
use hodi.Prelude.{
  [], ◌∷◌, ◌∙◌, false, ℕ, ◌≡◌, refl, ◌≤◌, ◌⊎◌, inl, inr, ap, true, Option, none, some, List, arith,
  contains, string_eq, all, all-In, filter, In, In-filter, contains-In, Bool-cases, ok, String, ltb,
}
use hodi.Prelude.Sort.{In-sorted_set}
use hodi.Prelude.Int.{ℤ}
use hodi.Schema.Vocabulary.{UseType, ModelClass-discrete, use_type_eq, model_class_eq}
use hodi.Schema.Lattice.{is_use_type_contained, is_model_class_contained}
use hodi.Schema.Lattice.Order.{is_use_type_contained_refl}
use hodi.Schema.Scope.{Scope}
use hodi.Schema.Negotiation.Parts.{clamp_scope-Parts}
use hodi.Resolve.Evaluator.{is_territory_contained}
use hodi.Schema.Negotiation.{
  ArtistPolicy, Clamp, or_worldwide, sorted_meet, clamp_use_type, clamp_model_class,
  clamp_commercial, clamp_territory, clamp_attribution, clamp_duration, cap_until, cap_at,
  limit_duration, add_days, clamp_scope, is_nonempty,
}

-- The offered use is one that the policy's maximum contains.
use_type-ceiling :
    (req : Scope) (policy : ArtistPolicy) (u : UseType) (cs : List Clamp)
    → clamp_use_type req policy ≡ ok (u, cs)
    → is_use_type_contained policy.max_use_type u ≡ true
unfolding clamp_use_type
use_type-ceiling req policy u cs h = ground (arith, is_use_type_contained_refl policy.max_use_type)

model_class-ceiling :
    (req : Scope) (policy : ArtistPolicy)
    → is_model_class_contained policy.allowed_model_class (clamp_model_class req policy).0 ≡ true
unfolding clamp_model_class is_model_class_contained ModelClass-discrete
model_class-ceiling req policy = ground arith

commercial-ceiling :
    (req : Scope) (policy : ArtistPolicy)
    → (clamp_commercial req policy).0 ≡ true
    → policy.commercial_allowed ≡ true
unfolding clamp_commercial
commercial-ceiling req policy h = ground arith

attribution-ceiling :
    (req : Scope) (policy : ArtistPolicy)
    → policy.attribution_always_required ≡ true
    → (clamp_attribution req policy).0 ≡ true
unfolding clamp_attribution
attribution-ceiling req policy h = ground arith

-- The offered use is not prohibited, unless it is the maximum in place of a use above it.
use_type-permitted :
    (req : Scope) (policy : ArtistPolicy) (u : UseType) (cs : List Clamp)
    → clamp_use_type req policy ≡ ok (u, cs)
    → (contains u policy.prohibited_use_types ≡ false)
      ⊎ ((u ≡ policy.max_use_type)
          × (is_use_type_contained policy.max_use_type req.use_type ≡ false))
unfolding clamp_use_type
use_type-permitted req policy u cs h =
    elim (Bool-cases (is_use_type_contained policy.max_use_type req.use_type)) [
      | inl inside ↦
          let same : u ≡ req.use_type = ground arith in
          let free : contains req.use_type policy.prohibited_use_types ≡ false = ground arith in
          inl (ap (λ v. contains v policy.prohibited_use_types) same ∙ free)
      | inr above ↦ inr (ground arith, above)
    ]

In-sorted_meet : (t : String) (a b : List String) → In t (sorted_meet a b) → In t b
unfolding sorted_meet
In-sorted_meet t a b m =
    let i = In-sorted_set t (filter (λ u. contains u b) a) m in
    contains-In t b (In-filter (λ u. contains u b) a i).1

-- Which list of territories the clamp offers.
pub territory_cases :
    (req : Scope) (policy : ArtistPolicy) (ts : List String) (cs : List Clamp)
    → clamp_territory req policy ≡ ok (ts, cs)
    → (contains "WW" policy.territory_allowed ≡ true)
      ⊎ (ts ≡ policy.territory_allowed)
      ⊎ ((ts ≡ sorted_meet (or_worldwide req.territory) policy.territory_allowed)
          × (is_nonempty ts ≡ true))
      ⊎ ((ts ≡ or_worldwide req.territory)
          × (all (λ t. contains t policy.territory_allowed) ts ≡ true))
unfolding clamp_territory
territory_cases req policy ts cs h = ground arith

or_worldwide-nonempty : (l : List String) → is_nonempty (or_worldwide l) ≡ true
or_worldwide-nonempty [] = refl
or_worldwide-nonempty (t ∷ l) = refl

-- What the evaluator lets a list of territories contain, of one territory.
abbrev pub Reads : List String → String → Type 0
Reads held t = is_territory_contained held (t ∷ []) ≡ true

Reads-In :
    (t : String) (held : List String)
    → is_nonempty held ≡ true
    → Reads held t
    → In "WW" held ⊎ In t held
unfolding is_territory_contained
Reads-In t [] n h = absurd (cc)
Reads-In t (x ∷ l) n h = elim (Bool-cases (contains "WW" (x ∷ l))) [
  | inl w ↦ inl (contains-In "WW" (x ∷ l) w)
  | inr w ↦ let k : contains t (x ∷ l) ≡ true = ground arith in inr (contains-In t (x ∷ l) k)
]

-- The policy lists no territory and the offer none, or the offer covers no territory that the policy does not.
abbrev pub WithinTerritory : List String → List String → Type 0
WithinTerritory allowed held =
    ((allowed ≡ []) × (held ≡ [])) ⊎ ((t : String) → Reads held t → In "WW" allowed ⊎ In t allowed)

subset-WithinTerritory :
    (allowed held : List String)
    → is_nonempty held ≡ true
    → ((t : String) → In t held → In t allowed)
    → WithinTerritory allowed held
subset-WithinTerritory allowed held n f =
    inr (λ t h. elim (Reads-In t held n h) [ inl w ↦ inl (f "WW" w) | inr m ↦ inr (f t m) ])

own-WithinTerritory : (allowed : List String) → WithinTerritory allowed allowed
own-WithinTerritory [] = inl (refl, refl)
own-WithinTerritory (x ∷ l) = subset-WithinTerritory (x ∷ l) (x ∷ l) refl (λ t m. m)

pub territory-ceiling :
    (req : Scope) (policy : ArtistPolicy) (ts : List String) (cs : List Clamp)
    → clamp_territory req policy ≡ ok (ts, cs)
    → WithinTerritory policy.territory_allowed ts
territory-ceiling req policy ts cs h = elim (territory_cases req policy ts cs h) [
  | inl w ↦ inr (λ t m. inl (contains-In "WW" policy.territory_allowed w))
  | inr (inl e) ↦ rw e (own-WithinTerritory policy.territory_allowed)
  | inr (inr (inl (e, n))) ↦
      subset-WithinTerritory policy.territory_allowed ts n
        (λ t m. In-sorted_meet t (or_worldwide req.territory) policy.territory_allowed (rw e at m))
  | inr (inr (inr (e, a))) ↦
      subset-WithinTerritory policy.territory_allowed ts
        (ap is_nonempty e ∙ or_worldwide-nonempty req.territory)
        (λ t m.
          contains-In t policy.territory_allowed
            (all-In (λ u. contains u policy.territory_allowed) ts a m))
]

-- The latest end that the policy allows.
abbrev pub EndsByPolicy : Option ℕ → ℕ → Option ℤ → Type 0
EndsByPolicy until from none = Unit
EndsByPolicy none from (some days) = ⊥
EndsByPolicy (some until) from (some days) =
    (cap : ℕ) × (add_days from days ≡ some cap) × (until ≤ cap)

capped :
    (valid_until : Option ℕ) (days : ℤ) (limit : ℕ)
    → (until : ℕ) × ((cap_until valid_until days limit).0 ≡ some until) × (until ≤ limit)
unfolding cap_until
capped none days limit = (limit, refl, omega arith)
capped (some t) days limit = elim (Bool-cases (ltb limit t)) [
  | inl late ↦ (limit, rw late, omega arith)
  | inr fine ↦ (t, rw fine, ground arith)
]

cap_at-ceiling :
    (req : Scope) (days : ℤ) (sum : Option ℕ) (until : Option ℕ) (cs : List Clamp)
    → add_days req.valid_from days ≡ sum
    → cap_at req days sum ≡ ok (until, cs)
    → EndsByPolicy until req.valid_from (some days)
unfolding cap_at
cap_at-ceiling req days none until cs e h = absurd (cc)
cap_at-ceiling req days (some limit) until cs e h =
    let (t, p, q) = capped req.valid_until days limit in
    let w : until ≡ some t = ground arith in rw w (limit, e, q)

limit_duration-ceiling :
    (req : Scope) (bound : Option ℤ) (until : Option ℕ) (cs : List Clamp)
    → limit_duration req bound ≡ ok (until, cs)
    → EndsByPolicy until req.valid_from bound
unfolding limit_duration
limit_duration-ceiling req none until cs h = tt
limit_duration-ceiling req (some days) until cs h =
    cap_at-ceiling req days (add_days req.valid_from days) until cs refl h

pub duration-ceiling :
    (req : Scope) (policy : ArtistPolicy) (until : Option ℕ) (cs : List Clamp)
    → clamp_duration req policy ≡ ok (until, cs)
    → EndsByPolicy until req.valid_from policy.max_duration_days
unfolding clamp_duration
duration-ceiling req policy until cs h =
    limit_duration-ceiling req policy.max_duration_days until cs h

-- A scope that stands under the limits of the policy, where a request is answered by it. The prohibition is
-- the policy's for all uses but a maximum that stands in for a use above it, and the territories are read as
-- the evaluator reads them.
pub record IsUnder (req : Scope) (policy : ArtistPolicy) (s : Scope) : Type 0 where
  pub use_type : is_use_type_contained policy.max_use_type s.use_type ≡ true
  pub model_class : is_model_class_contained policy.allowed_model_class s.model_class ≡ true
  pub commercial : s.commercial ≡ true → policy.commercial_allowed ≡ true
  pub permitted :
      (contains s.use_type policy.prohibited_use_types ≡ false)
      ⊎ ((s.use_type ≡ policy.max_use_type)
          × (is_use_type_contained policy.max_use_type req.use_type ≡ false))
  pub territory : WithinTerritory policy.territory_allowed s.territory
  pub attribution : policy.attribution_always_required ≡ true → s.attribution_required ≡ true
  pub duration : EndsByPolicy s.valid_until s.valid_from policy.max_duration_days

-- Whatever is proposed, the clamped scope is under the policy.
pub clamp_scope-IsUnder :
    (req : Scope) (policy : ArtistPolicy) (s : Scope) (cs : List Clamp)
    → clamp_scope req policy ≡ ok (s, cs)
    → IsUnder req policy s
clamp_scope-IsUnder req policy s cs h =
    let p = clamp_scope-Parts req policy s cs h in
    rw (p.scope) (record {
      use_type = use_type-ceiling req policy p.use_type.0 p.use_type.1 p.use_type_ok;
      permitted = use_type-permitted req policy p.use_type.0 p.use_type.1 p.use_type_ok;
      model_class = model_class-ceiling req policy;
      commercial = commercial-ceiling req policy;
      territory = territory-ceiling req policy p.territory.0 p.territory.1 p.territory_ok;
      attribution = attribution-ceiling req policy;
      duration = duration-ceiling req policy p.duration.0 p.duration.1 p.duration_ok;
    })
