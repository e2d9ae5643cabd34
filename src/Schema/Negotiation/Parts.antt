-- ===== src/Schema/Negotiation/Parts.antt =====
-- `clamp_to_policy` of src/schema/negotiation.py: the six parts of a clamp that succeeds, and what they move
-- and record together.
use mathlib.Core.Path.{subst}
use hodi.Prelude.{
  ℕ, Bool, ◌≡◌, refl, ap, sym, ◌∙◌, inl, inr, Option, List, ◌++◌, String, ok, ok-injective,
  >>=-eq-ok,
}
use hodi.Schema.Vocabulary.{UseType, ModelClass}
use hodi.Schema.Scope.{Scope}
use hodi.Schema.Negotiation.{
  ArtistPolicy, Clamp, or_worldwide, clamp_use_type, clamp_model_class, clamp_commercial,
  clamp_territory, clamp_attribution, clamp_duration, clamp_scope,
}
use hodi.Schema.Negotiation.Moved.{
  Records, Records-append, use_type-Records, model_class-Records, commercial-Records,
  territory-Records, attribution-Records, duration-Records,
}

-- The parts of a clamp that succeeds.
pub record Parts (req : Scope) (policy : ArtistPolicy) (s : Scope) (cs : List Clamp) : Type 0 where
  pub use_type : UseType × List Clamp
  pub territory : List String × List Clamp
  pub duration : Option ℕ × List Clamp
  pub use_type_ok : clamp_use_type req policy ≡ ok use_type
  pub territory_ok : clamp_territory req policy ≡ ok territory
  pub duration_ok : clamp_duration req policy ≡ ok duration
  pub scope : s ≡ record {
    use_type = use_type.0;
    model_class = (clamp_model_class req policy).0;
    commercial = (clamp_commercial req policy).0;
    attribution_required = (clamp_attribution req policy).0;
    territory = territory.0;
    valid_from = req.valid_from;
    valid_until = duration.0;
  }
  pub clamps :
      cs
      ≡ use_type.1
        ++ ((clamp_model_class req policy).1
            ++ ((clamp_commercial req policy).1
                ++ (territory.1 ++ ((clamp_attribution req policy).1 ++ duration.1))))

pub clamp_scope-Parts :
    (req : Scope) (policy : ArtistPolicy) (s : Scope) (cs : List Clamp)
    → clamp_scope req policy ≡ ok (s, cs)
    → Parts req policy s cs
unfolding clamp_scope
clamp_scope-Parts req policy s cs h =
    let (u, hu, h1) = >>=-eq-ok (clamp_use_type req policy) _ h in
    let (t, ht, h2) = >>=-eq-ok (clamp_territory req policy) _ h1 in
    let (d, hd, h3) = >>=-eq-ok (clamp_duration req policy) _ h2 in
    record {
      use_type = u;
      territory = t;
      duration = d;
      use_type_ok = hu;
      territory_ok = ht;
      duration_ok = hd;
      scope = ap (λ (x : Scope × List Clamp). x.0) (sym (ok-injective _ refl h3));
      clamps = ap (λ (x : Scope × List Clamp). x.1) (sym (ok-injective _ refl h3));
    }

-- What the request asks for: no territory stands for the whole world.
abbrev pub asked : Scope → Scope
asked req = record req { territory = or_worldwide req.territory }

abbrev Dimensions : Type 0
Dimensions = UseType × (ModelClass × (Bool × (List String × (Bool × Option ℕ))))

abbrev dimensions : Scope → Dimensions
dimensions s = (
  s.use_type,
  (s.model_class, (s.commercial, (s.territory, (s.attribution_required, s.valid_until)))),
)

abbrev scope_of : ℕ → Dimensions → Scope
scope_of from (use_type, (model_class, (commercial, (territory, (attribution, until))))) = record {
  use_type = use_type;
  model_class = model_class;
  commercial = commercial;
  attribution_required = attribution;
  territory = territory;
  valid_from = from;
  valid_until = until;
}

-- The clamped scope is what was asked for and nothing is recorded, or it differs and something is.
pub Parts-Records :
    {req : Scope} {policy : ArtistPolicy} {s : Scope} {cs : List Clamp}
    → Parts req policy s cs
    → Records cs s (asked req)
Parts-Records {req} {policy} {s} {cs} p =
    subst (λ l. Records l s (asked req)) (sym p.clamps)
      (whole (
        Records-append p.use_type.1 _
          (use_type-Records req policy p.use_type.0 p.use_type.1 p.use_type_ok)
          (Records-append (clamp_model_class req policy).1 _ (model_class-Records req policy) (
            Records-append (clamp_commercial req policy).1 _ (commercial-Records req policy) (
              Records-append p.territory.1 _
                (territory-Records req policy p.territory p.territory_ok)
                (Records-append (clamp_attribution req policy).1 p.duration.1
                  (attribution-Records req policy)
                  (duration-Records req policy p.duration p.duration_ok)))))))
  where
    whole :
        {ds : List Clamp}
        → Records ds
            (
              p.use_type.0,
              (
                (clamp_model_class req policy).0,
                (
                  (clamp_commercial req policy).0,
                  (p.territory.0, ((clamp_attribution req policy).0, p.duration.0)),
                ),
              ),
            )
            (dimensions (asked req))
        → Records ds s (asked req)
    whole (inl (e, same)) = inl (e, p.scope ∙ ap (scope_of req.valid_from) same)
    whole (inr (n, other)) = inr (n, λ e. other (ap dimensions (sym p.scope ∙ e)))
