-- ===== src/Schema/Negotiation/Moved.antt =====
-- `clamp_to_policy` of src/schema/negotiation.py: the entries of `clamped_dimensions` against what moved.
use mathlib.Core.Path.{subst}
use hodi.Prelude.{
  ℕ, ◌≡◌, ◌≢◌, ◌⊎◌, refl, inl, inr, ap, sym, ◌∙◌, true, false, Option, none, some, List, [], ◌∷◌,
  ◌++◌, arith, contains, string_eq, all, In, In-all, filter, In-filter, ok-injective, err,
  eq_of_some, not, ◌&&◌, Bool-cases, ok, String, ◌==◌, Result,
}
use hodi.Prelude.Sort.{sorted_set, In-sorted_set}
use hodi.Prelude.Int.{ℤ}
use hodi.Schema.Vocabulary.{UseType, all_models, use_type_eq, model_class_eq}
use hodi.Schema.Lattice.{is_use_type_contained}
use hodi.Schema.Lattice.Order.{is_use_type_contained_refl}
use hodi.Schema.Scope.{Scope}
use hodi.Schema.Negotiation.{
  ArtistPolicy, Clamp, Stop, or_worldwide, sorted_meet, clamp_use_type, clamp_model_class,
  clamp_commercial, clamp_territory, clamp_attribution, clamp_duration, cap_until, cap_at,
  limit_duration, add_days, is_past, is_nonempty, worldwide_narrowed, territory_narrowed,
}

-- The value stands as it was and nothing is recorded, or it has moved and that is recorded.
abbrev pub Records {ℓ} : {A : Type ℓ} → List Clamp → A → A → Type ℓ
Records cs v w = ((cs ≡ []) × (v ≡ w)) ⊎ ((cs ≢ []) × (v ≢ w))

append-nonempty : (cs ds : List Clamp) → (cs ≢ []) ⊎ (ds ≢ []) → cs ++ ds ≢ []
append-nonempty [] ds (inl n) e = n refl
append-nonempty [] ds (inr n) e = n e
append-nonempty (c ∷ cs) ds h e = absurd (ground arith)

pub Records-append {ℓ κ} :
    {A : Type ℓ} {B : Type κ} (cs ds : List Clamp) {v w : A} {x y : B}
    → Records cs v w
    → Records ds x y
    → Records {A = A × B} (cs ++ ds) (v, x) (w, y)
Records-append cs ds (inl (e, p)) (inl (f, q)) = inl (ap (λ l. l ++ ds) e ∙ f, λ i. (p i, q i))
Records-append cs ds (inr (n, p)) r = inr (append-nonempty cs ds (inl n), λ k. p (ap (λ t. t.0) k))
Records-append cs ds (inl (e, p)) (inr (n, q)) =
    inr (append-nonempty cs ds (inr n), λ k. q (ap (λ t. t.1) k))

one_clamp : (c : Clamp) → c ∷ [] ≢ []
one_clamp c e = absurd (cc)

pub use_type-Records :
    (req : Scope) (policy : ArtistPolicy) (u : UseType) (cs : List Clamp)
    → clamp_use_type req policy ≡ ok (u, cs)
    → Records cs u req.use_type
unfolding clamp_use_type
use_type-Records req policy u cs h =
    elim (Bool-cases (is_use_type_contained policy.max_use_type req.use_type)) [
      | inl inside ↦ inl (ground arith, ground arith)
      | inr above ↦ inr (
        λ e. absurd (ground arith),
        λ e.
            let top : u ≡ policy.max_use_type = ground arith in
            let same : is_use_type_contained policy.max_use_type policy.max_use_type ≡ false =
              ap (is_use_type_contained policy.max_use_type) (sym top ∙ e) ∙ above in
            let whole = is_use_type_contained_refl policy.max_use_type in absurd (cc),
      )
    ]

pub model_class-Records :
    (req : Scope) (policy : ArtistPolicy)
    → Records (clamp_model_class req policy).1 (clamp_model_class req policy).0 req.model_class
unfolding clamp_model_class
model_class-Records req policy =
    elim (Bool-cases (
      not (policy.allowed_model_class == all_models)
      && not (req.model_class == policy.allowed_model_class))) [
        | inl h ↦ rw h (
            inr (
              one_clamp _,
              λ e.
                  let same : (req.model_class == policy.allowed_model_class) ≡ true =
                    (model_class_eq.beq_iff req.model_class policy.allowed_model_class).1 (sym e) in
                  absurd (ground arith),
            ))
        | inr h ↦ rw h (inl (refl, refl))
      ]

pub commercial-Records :
    (req : Scope) (policy : ArtistPolicy)
    → Records (clamp_commercial req policy).1 (clamp_commercial req policy).0 req.commercial
unfolding clamp_commercial
commercial-Records req policy =
    elim (Bool-cases (req.commercial && not policy.commercial_allowed)) [
      | inl h ↦ rw h (inr (one_clamp _, λ e. absurd (ground arith)))
      | inr h ↦ rw h (inl (refl, refl))
    ]

pub attribution-Records :
    (req : Scope) (policy : ArtistPolicy)
    → Records
        (clamp_attribution req policy).1
        (clamp_attribution req policy).0
        req.attribution_required
unfolding clamp_attribution
attribution-Records req policy =
    elim (Bool-cases (policy.attribution_always_required && not req.attribution_required)) [
      | inl h ↦ rw h (inr (one_clamp _, λ e. absurd (ground arith)))
      | inr h ↦ rw h (inl (refl, ground arith))
    ]

-- The territories of a request that names none are the whole world.
worldwide-Records :
    (requested allowed : List String) (c : Clamp)
    → contains "WW" allowed ≡ false
    → contains "WW" requested ≡ true
    → Records (c ∷ []) allowed requested
worldwide-Records requested allowed c lacks has =
    inr (one_clamp c, λ e. let k = ap (contains "WW") e in absurd (cc))

meet-Records :
    (requested allowed : List String) (c : Clamp)
    → all (λ t. contains t allowed) requested ≡ false
    → Records (c ∷ []) (sorted_meet requested allowed) requested
unfolding sorted_meet
meet-Records requested allowed c missing = inr (
  one_clamp c,
  λ e.
      let whole =
        In-all (λ t. contains t allowed) requested
          (λ t m.
            (In-filter (λ u. contains u allowed) requested
              (In-sorted_set t (filter (λ u. contains u allowed) requested)
                (subst (In t) (sym e) m))).1) in
      absurd (cc),
)

pub territory-Records :
    (req : Scope) (policy : ArtistPolicy) (x : List String × List Clamp)
    → clamp_territory req policy ≡ ok x
    → Records x.1 x.0 (or_worldwide req.territory)
unfolding clamp_territory
territory-Records req policy x h =
    let asked = or_worldwide req.territory in
    let allowed = policy.territory_allowed in
    let meet = sorted_meet asked allowed in
    elim (Bool-cases (contains "WW" allowed)) [
      | inl w ↦ whole asked (rw w at h)
      | inr w ↦ elim (Bool-cases (contains "WW" asked)) [
        | inl v ↦
            moves (worldwide-Records asked allowed (worldwide_narrowed (sorted_set allowed)) w v)
              (rw (w, v) at h)
        | inr v ↦ elim (Bool-cases (is_nonempty meet)) [
          | inl m ↦ elim (Bool-cases (all (λ t. contains t allowed) asked)) [
            | inl a ↦ whole asked (rw (w, v, m, a) at h)
            | inr a ↦
                moves (meet-Records asked allowed (territory_narrowed (sorted_set asked) meet) a)
                  (rw (w, v, m, a) at h)
          ]
          | inr m ↦ refused (rw (w, v, m) at h)
        ]
      ]
    ]
  where
    moves :
        {y : List String × List Clamp}
        → Records y.1 y.0 (or_worldwide req.territory)
        → ◌≡◌ {A = Result Stop (List String × List Clamp)} (ok y) (ok x)
        → Records x.1 x.0 (or_worldwide req.territory)
    moves {y} r k =
        subst (λ z. Records z.1 z.0 (or_worldwide req.territory)) (ok-injective (ok y) refl k) r

    whole :
        (ts : List String)
        → ◌≡◌ {A = Result Stop (List String × List Clamp)} (ok (ts, [])) (ok x)
        → Records x.1 x.0 ts
    whole ts k =
        subst (λ z. Records z.1 z.0 ts) (ok-injective (ok (ts, [])) refl k) (inl (refl, refl))

    refused :
        {why : Stop}
        → ◌≡◌ {A = Result Stop (List String × List Clamp)} (err why) (ok x)
        → Records x.1 x.0 (or_worldwide req.territory)
    refused k = absurd (cc)

past-differs : (until : Option ℕ) (limit : ℕ) → is_past until limit ≡ true → some limit ≢ until
past-differs none limit h e = absurd (cc)
past-differs (some t) limit h e = let k : limit ≡ t = eq_of_some e in absurd (ground arith)

cap_until-Records :
    (until : Option ℕ) (days : ℤ) (limit : ℕ)
    → Records (cap_until until days limit).1 (cap_until until days limit).0 until
unfolding cap_until
cap_until-Records until days limit = elim (Bool-cases (is_past until limit)) [
  | inl h ↦ rw h (inr (one_clamp _, past-differs until limit h))
  | inr h ↦ rw h (inl (refl, refl))
]

cap_at-Records :
    (req : Scope) (days : ℤ) (sum : Option ℕ) (x : Option ℕ × List Clamp)
    → cap_at req days sum ≡ ok x
    → Records x.1 x.0 req.valid_until
unfolding cap_at
cap_at-Records req days none x h = absurd (cc)
cap_at-Records req days (some limit) x h =
    let same : cap_until req.valid_until days limit ≡ x = ok-injective (ok _) refl h in
    subst (λ y. Records y.1 y.0 req.valid_until) same (cap_until-Records req.valid_until days limit)

limit_duration-Records :
    (req : Scope) (bound : Option ℤ) (x : Option ℕ × List Clamp)
    → limit_duration req bound ≡ ok x
    → Records x.1 x.0 req.valid_until
unfolding limit_duration
limit_duration-Records req none x h =
    let same : (req.valid_until, []) ≡ x = ok-injective (ok _) refl h in
    subst (λ y. Records y.1 y.0 req.valid_until) same (inl (refl, refl))
limit_duration-Records req (some days) x h =
    cap_at-Records req days (add_days req.valid_from days) x h

pub duration-Records :
    (req : Scope) (policy : ArtistPolicy) (x : Option ℕ × List Clamp)
    → clamp_duration req policy ≡ ok x
    → Records x.1 x.0 req.valid_until
unfolding clamp_duration
duration-Records req policy x h = limit_duration-Records req policy.max_duration_days x h
