-- ===== src/Schema/Negotiation/Gaps.antt =====
-- Where `clamp_to_policy` of src/schema/negotiation.py departs from what its comments promise.
use hodi.Prelude.{
  ℕ, String, ◌≡◌, refl, ap, ◌∙◌, true, false, Option, some, List, [], ◌∷◌, ◌++◌, arith, contains,
  string_eq, ok, ◌≢◌,
}
use hodi.Schema.Vocabulary.{UseType, all_models, use_type_eq, model_class_eq, ModelClass-discrete}
use hodi.Schema.Lattice.{is_use_type_contained, is_model_class_contained}
use hodi.Schema.Scope.{Scope, IsWithin, interval-within}
use hodi.Resolve.Evaluator.{is_territory_contained}
use hodi.Schema.Negotiation.{
  ArtistPolicy, NegotiationProposal, NegotiationOutcome, Clamp, clamp_to_policy, clamp_scope,
  clamp_use_type, clamp_model_class, clamp_commercial, clamp_territory, clamp_attribution,
  clamp_duration, conclude, offer, or_worldwide, use_type_narrowed, worldwide_narrowed,
}
use hodi.Prelude.Sort.{sorted_set}
use hodi.Schema.Negotiation.Outcome.{clamp_to_policy-conclude}

-- The negotiation returns an outcome that offers a scope of which `P` holds.
abbrev pub Offers : NegotiationProposal → ArtistPolicy → (Scope → Type 0) → Type 0
Offers proposal policy P =
    (o : NegotiationOutcome) × (s : Scope) × (clamp_to_policy proposal policy ≡ ok o)
    × (o.offered_scope ≡ some s)
    × P s

abbrev clamped :
    Scope
    → ArtistPolicy
    → UseType × List Clamp
    → List String × List Clamp
    → Option ℕ × List Clamp
    → Scope
clamped req policy u t d = record {
  use_type = u.0;
  model_class = (clamp_model_class req policy).0;
  commercial = (clamp_commercial req policy).0;
  attribution_required = (clamp_attribution req policy).0;
  territory = t.0;
  valid_from = req.valid_from;
  valid_until = d.0;
}

abbrev clamps :
    Scope
    → ArtistPolicy
    → UseType × List Clamp
    → List String × List Clamp
    → Option ℕ × List Clamp
    → List Clamp
clamps req policy u t d =
    u.1
    ++ ((clamp_model_class req policy).1
        ++ ((clamp_commercial req policy).1 ++ (t.1 ++ ((clamp_attribution req policy).1 ++ d.1))))

offer-offered :
    (proposal : NegotiationProposal) (policy : ArtistPolicy) (s : Scope) (cs : List Clamp)
    → (offer proposal policy s cs).offered_scope ≡ some s
unfolding offer
offer-offered proposal policy s [] = refl
offer-offered proposal policy s (c ∷ cs) = refl

-- Where every dimension can be clamped to a window, the clamped scope is offered.
module _ (proposal : NegotiationProposal) (policy : ArtistPolicy) (u : UseType × List Clamp)
    (t : List String × List Clamp) (d : Option ℕ × List Clamp) where
  abbrev req : Scope
  req = proposal.requested_scope

  clamp_scope-clamped :
      clamp_use_type req policy ≡ ok u
      → clamp_territory req policy ≡ ok t
      → clamp_duration req policy ≡ ok d
      → clamp_scope req policy ≡ ok (clamped req policy u t d, clamps req policy u t d)
  unfolding clamp_scope
  clamp_scope-clamped hu ht hd = rw (hu, ht, hd) refl

  conclude-clamped :
      IsWithin req.valid_from d.0
      → conclude proposal policy (ok (clamped req policy u t d, clamps req policy u t d))
        ≡ ok (offer proposal policy (clamped req policy u t d) (clamps req policy u t d))
  unfolding conclude
  conclude-clamped w = rw (interval-within (clamped req policy u t d) w) refl

  clamped-Offers :
      (P : Scope → Type 0)
      → clamp_use_type req policy ≡ ok u
      → clamp_territory req policy ≡ ok t
      → clamp_duration req policy ≡ ok d
      → IsWithin req.valid_from d.0
      → P (clamped req policy u t d)
      → Offers proposal policy P
  clamped-Offers P hu ht hd w p = (
    offer proposal policy (clamped req policy u t d) (clamps req policy u t d),
    clamped req policy u t d,
    clamp_to_policy-conclude proposal policy
        ∙ ap (conclude proposal policy) (clamp_scope-clamped hu ht hd)
        ∙ conclude-clamped w,
    offer-offered proposal policy (clamped req policy u t d) (clamps req policy u t d),
    p,
  )

use_type-above :
    (req : Scope) (policy : ArtistPolicy)
    → contains req.use_type policy.prohibited_use_types ≡ false
    → is_use_type_contained policy.max_use_type req.use_type ≡ false
    → is_use_type_contained req.use_type policy.max_use_type ≡ true
    → clamp_use_type req policy
      ≡ ok (policy.max_use_type, use_type_narrowed req.use_type policy.max_use_type ∷ [])
unfolding clamp_use_type
use_type-above req policy free above below = rw (free, above, below) refl

-- The prohibition is tested on the requested use alone: a request above the policy's maximum, which is not
-- prohibited itself and whose territory and duration can be met, is offered that maximum, although the
-- policy prohibits it.
pub clamp-offers_prohibited :
    (proposal : NegotiationProposal) (policy : ArtistPolicy) (t : List String × List Clamp)
    (d : Option ℕ × List Clamp)
    → contains policy.max_use_type policy.prohibited_use_types ≡ true
    → contains proposal.requested_scope.use_type policy.prohibited_use_types ≡ false
    → is_use_type_contained policy.max_use_type proposal.requested_scope.use_type ≡ false
    → is_use_type_contained proposal.requested_scope.use_type policy.max_use_type ≡ true
    → clamp_territory proposal.requested_scope policy ≡ ok t
    → clamp_duration proposal.requested_scope policy ≡ ok d
    → IsWithin proposal.requested_scope.valid_from d.0
    → Offers proposal policy (λ s.
      (s.use_type ≡ policy.max_use_type) × (contains s.use_type policy.prohibited_use_types ≡ true))
clamp-offers_prohibited proposal policy t d banned free above below ht hd w =
    clamped-Offers proposal policy _ t d _
      (use_type-above proposal.requested_scope policy free above below) ht hd w (refl, banned)

model_class-replaced :
    (req : Scope) (policy : ArtistPolicy)
    → policy.allowed_model_class ≢ all_models
    → req.model_class ≢ all_models
    → req.model_class ≢ policy.allowed_model_class
    → ((clamp_model_class req policy).0 ≡ policy.allowed_model_class)
      × (is_model_class_contained req.model_class (clamp_model_class req policy).0 ≡ false)
unfolding clamp_model_class is_model_class_contained ModelClass-discrete
model_class-replaced req policy a b c = (ground arith, ground arith)

-- The clamp is no intersection on the model class: a proposal for one class under a policy for another,
-- whose other dimensions can be met, is offered the policy's class, which the proposal does not contain.
pub clamp-replaces_model_class :
    (proposal : NegotiationProposal) (policy : ArtistPolicy) (u : UseType × List Clamp)
    (t : List String × List Clamp) (d : Option ℕ × List Clamp)
    → policy.allowed_model_class ≢ all_models
    → proposal.requested_scope.model_class ≢ all_models
    → proposal.requested_scope.model_class ≢ policy.allowed_model_class
    → clamp_use_type proposal.requested_scope policy ≡ ok u
    → clamp_territory proposal.requested_scope policy ≡ ok t
    → clamp_duration proposal.requested_scope policy ≡ ok d
    → IsWithin proposal.requested_scope.valid_from d.0
    → Offers proposal policy (λ s.
      (s.model_class ≡ policy.allowed_model_class)
      × (is_model_class_contained proposal.requested_scope.model_class s.model_class ≡ false))
clamp-replaces_model_class proposal policy u t d a b c hu ht hd w =
    clamped-Offers proposal policy u t d _ hu ht hd w
      (model_class-replaced proposal.requested_scope policy a b c)

territory-emptied :
    (req : Scope) (policy : ArtistPolicy)
    → policy.territory_allowed ≡ []
    → contains "WW" (or_worldwide req.territory) ≡ true
    → clamp_territory req policy ≡ ok ([], worldwide_narrowed (sorted_set []) ∷ [])
unfolding clamp_territory
territory-emptied req policy none_ w = rw (none_, w) refl

-- A worldwide request under a policy that lists no territory, whose other dimensions can be met, is offered
-- the empty list, which the evaluator reads as the whole world.
pub clamp-empty_territory :
    (proposal : NegotiationProposal) (policy : ArtistPolicy) (u : UseType × List Clamp)
    (d : Option ℕ × List Clamp)
    → policy.territory_allowed ≡ []
    → contains "WW" (or_worldwide proposal.requested_scope.territory) ≡ true
    → clamp_use_type proposal.requested_scope policy ≡ ok u
    → clamp_duration proposal.requested_scope policy ≡ ok d
    → IsWithin proposal.requested_scope.valid_from d.0
    → Offers proposal policy (λ s.
      (s.territory ≡ [])
      × ((requested : List String) → is_territory_contained s.territory requested ≡ true))
unfolding is_territory_contained
clamp-empty_territory proposal policy u d none_ wide hu hd w =
    clamped-Offers proposal policy u _ d _ hu
      (territory-emptied proposal.requested_scope policy none_ wide) hd w (refl, λ requested. refl)
