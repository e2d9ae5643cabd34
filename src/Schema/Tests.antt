-- ===== src/Schema/Tests.antt =====
-- Runs of the policy walls of src/schema/iam_policy.py, of the lattice and of the negotiation.
use hodi.Prelude.{
  arith, String, ◌≡◌, ◌⊎◌, ◌↔◌, refl, true, false, none, some, List, [], ◌∷◌, ok, contains,
  string_eq,
}
use hodi.Prelude.Tables.{get}
use hodi.Schema.Vocabulary.{
  UseType, training, fine_tuning, human_reference, open_weights, proprietary_frontier,
  UseType-discrete, ModelClass-discrete, use_type_eq,
}
use hodi.Schema.Lattice.{
  is_use_type_contained, is_model_class_contained, Derivation, use_type_derivation_chain,
}
use hodi.Schema.Lattice.Order.{
  Chain, derived_scopes, is_use_type_contained-iff-Chain, derivation_chain-reaches,
}
use hodi.Schema.Scope.{Scope}
use hodi.Schema.Iam.{is_action_permitted, root_segment}
use hodi.Schema.Iam.Walls.{domain_of, domains-apart}
use hodi.Schema.Negotiation.{
  ArtistPolicy, NegotiationProposal, NegotiationOutcome, counteroffer, clamp_to_policy,
  use_type_narrowed, model_class_narrowed, worldwide_narrowed, clamp_use_type, clamp_territory,
  clamp_duration,
}
use hodi.Schema.Negotiation.Outcome.{IsOutcome, clamp_to_policy-IsOutcome}
use hodi.Schema.Negotiation.Gaps.{
  Offers, clamp-offers_prohibited, clamp-replaces_model_class, clamp-empty_territory,
}
use hodi.Resolve.Evaluator.{is_territory_contained}

domains-apart_example :
    (domain_of "licensing_negotiator" ≡ domain_of "revocation_propagator")
    ⊎ (root_segment "grants/g1" ≡ "grants")
unfolding is_action_permitted root_segment get
domains-apart_example =
    domains-apart "licensing_negotiator" "revocation_propagator" "grants/g1" "grants" refl refl refl

is_use_type_contained-iff-Chain_example :
    (is_use_type_contained training human_reference ≡ true) ↔ Chain training human_reference
is_use_type_contained-iff-Chain_example = is_use_type_contained-iff-Chain training human_reference

derivation_chain-reaches_example :
    (chain : List Derivation) × (use_type_derivation_chain 6 fine_tuning ≡ some chain)
    × ((v : UseType) → contains v (derived_scopes chain) ≡ is_use_type_contained fine_tuning v)
derivation_chain-reaches_example = derivation_chain-reaches 1 fine_tuning

abbrev requested : Scope
requested = record {
  use_type = training;
  model_class = open_weights;
  commercial = false;
  attribution_required = true;
  territory = "WW" ∷ [];
  valid_from = 10;
  valid_until = some 20;
}

abbrev proposal : NegotiationProposal
proposal = record {
  counterparty_id = "c1";
  work_id = "w1";
  requested_scope = requested;
  economic_note = none;
}

-- Nothing above fine tuning, which is prohibited; proprietary models only; no territory.
abbrev policy : ArtistPolicy
policy = record {
  work_id = "w1";
  max_use_type = fine_tuning;
  allowed_model_class = proprietary_frontier;
  commercial_allowed = false;
  territory_allowed = [];
  max_duration_days = none;
  attribution_always_required = false;
  prohibited_use_types = fine_tuning ∷ [];
}

abbrev offered : Scope
offered = record {
  use_type = fine_tuning;
  model_class = proprietary_frontier;
  commercial = false;
  attribution_required = true;
  territory = [];
  valid_from = 10;
  valid_until = some 20;
}

abbrev outcome : NegotiationOutcome
outcome = record {
  status = counteroffer;
  work_id = "w1";
  counterparty_id = "c1";
  offered_scope = some offered;
  clamped_dimensions =
      use_type_narrowed training fine_tuning
      ∷ model_class_narrowed open_weights proprietary_frontier
      ∷ worldwide_narrowed []
      ∷ [];
}

negotiated : clamp_to_policy proposal policy ≡ ok outcome
unfolding clamp_to_policy UseType-discrete ModelClass-discrete
negotiated = refl

clamp_to_policy-IsOutcome_example : IsOutcome requested policy outcome
clamp_to_policy-IsOutcome_example = clamp_to_policy-IsOutcome proposal policy outcome negotiated

clamp-offers_prohibited_example :
    Offers proposal policy
      (λ s. (s.use_type ≡ fine_tuning) × (contains s.use_type (fine_tuning ∷ []) ≡ true))
unfolding UseType-discrete is_use_type_contained clamp_territory clamp_duration
clamp-offers_prohibited_example =
    clamp-offers_prohibited proposal policy ([], worldwide_narrowed [] ∷ []) (some 20, []) refl refl
      refl refl refl refl (omega arith)

clamp-replaces_model_class_example : Offers proposal policy (λ s.
    (s.model_class ≡ proprietary_frontier)
    × (is_model_class_contained open_weights s.model_class ≡ false))
unfolding UseType-discrete clamp_use_type is_use_type_contained clamp_territory clamp_duration
clamp-replaces_model_class_example =
    clamp-replaces_model_class proposal policy
      (fine_tuning, use_type_narrowed training fine_tuning ∷ []) ([], worldwide_narrowed [] ∷ [])
      (some 20, []) (λ e. absurd (cc)) (λ e. absurd (cc)) (λ e. absurd (cc)) refl refl refl
      (omega arith)

clamp-empty_territory_example : Offers proposal policy (λ s.
    (s.territory ≡ [])
    × ((requested : List String) → is_territory_contained s.territory requested ≡ true))
unfolding UseType-discrete clamp_use_type is_use_type_contained clamp_duration
clamp-empty_territory_example =
    clamp-empty_territory proposal policy (fine_tuning, use_type_narrowed training fine_tuning ∷ [])
      (some 20, []) refl refl refl refl (omega arith)
