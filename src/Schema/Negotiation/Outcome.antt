-- ===== src/Schema/Negotiation/Outcome.antt =====
-- The outcomes of `clamp_to_policy` of src/schema/negotiation.py: which are possible, and what each
-- says.
use hodi.Prelude.{
  ◌≡◌, refl, ◌⊎◌, inl, inr, ◌≢◌, ap, sym, ◌∙◌, none, some, List, [], ◌∷◌, arith, Result, ok, err,
}
use hodi.Schema.Vocabulary.{use_type_eq}
use hodi.Schema.Scope.{Scope, ValidationError, interval_must_be_well_formed, interval-ok, IsWithin}
use hodi.Schema.Negotiation.{
  ArtistPolicy, NegotiationProposal, NegotiationOutcome, Stop, reject, overflow, validation_error,
  Clamp, agreed, counteroffer, rejected_by_policy, clamp_scope, offer, conclude, clamp_to_policy,
}
use hodi.Schema.Negotiation.Moved.{Records}
use hodi.Schema.Negotiation.Parts.{clamp_scope-Parts, asked, Parts-Records}
use hodi.Schema.Negotiation.Ceiling.{IsUnder, clamp_scope-IsUnder}

-- An outcome of the negotiation is a rejection with no scope, or an offer of a scope that is under
-- the policy, well formed and begins when the proposal says. It is agreed, with nothing recorded, exactly
-- where it is what was asked for; a counteroffer differs and records something.
pub data IsOutcome (req : Scope) (policy : ArtistPolicy) (o : NegotiationOutcome) : Type 0 where
  rejected : o.status ≡ rejected_by_policy → o.offered_scope ≡ none → IsOutcome req policy o
  offered :
      (s : Scope)
      → o.offered_scope ≡ some s
      → IsUnder req policy s
      → s.valid_from ≡ req.valid_from
      → IsWithin s.valid_from s.valid_until
      → ((o.status ≡ agreed) × (o.clamped_dimensions ≡ []) × (s ≡ asked req))
        ⊎ ((o.status ≡ counteroffer) × (o.clamped_dimensions ≢ []) × (s ≢ asked req))
      → IsOutcome req policy o

module _ (proposal : NegotiationProposal) (policy : ArtistPolicy) (o : NegotiationOutcome) where
  offered-IsOutcome :
      (s : Scope) (cs : List Clamp)
      → IsUnder proposal.requested_scope policy s
      → s.valid_from ≡ proposal.requested_scope.valid_from
      → IsWithin s.valid_from s.valid_until
      → Records cs s (asked proposal.requested_scope)
      → offer proposal policy s cs ≡ o
      → IsOutcome proposal.requested_scope policy o
  unfolding offer
  offered-IsOutcome s [] under from within (inl (k, same)) e =
      offered s (ground arith) under from within (inl (ground arith, ground arith, same))
  offered-IsOutcome s [] under from within (inr (n, other)) e = absurd (n refl)
  offered-IsOutcome s (c ∷ cs) under from within (inl (k, same)) e = absurd (cc)
  offered-IsOutcome s (c ∷ cs) under from within (inr (n, other)) e =
      offered s (ground arith) under from within
        (inr (ground arith, λ k. absurd (ground arith), other))

  checked-IsOutcome :
      (s : Scope) (cs : List Clamp) (r : Result ValidationError Scope)
      → IsUnder proposal.requested_scope policy s
      → s.valid_from ≡ proposal.requested_scope.valid_from
      → Records cs s (asked proposal.requested_scope)
      → interval_must_be_well_formed s ≡ r
      → elim r [ err e ↦ err (validation_error e) | ok scope ↦ ok (offer proposal policy scope cs) ]
        ≡ ok o
      → IsOutcome proposal.requested_scope policy o
  checked-IsOutcome s cs (err e) under from moved i h = absurd (cc)
  checked-IsOutcome s cs (ok t) under from moved i h =
      let (same, within) = interval-ok s t i in
      offered-IsOutcome s cs under from within moved (ground arith)

  conclude-IsOutcome :
      (r : Result Stop (Scope × List Clamp))
      → clamp_scope proposal.requested_scope policy ≡ r
      → conclude proposal policy r ≡ ok o
      → IsOutcome proposal.requested_scope policy o
  unfolding conclude
  conclude-IsOutcome (err (reject why)) e h = rejected (ground arith) (ground arith)
  conclude-IsOutcome (err overflow) e h = absurd (cc)
  conclude-IsOutcome (ok (s, cs)) e h =
      checked-IsOutcome s cs (interval_must_be_well_formed s)
        (clamp_scope-IsUnder proposal.requested_scope policy s cs e)
        (ap (λ (x : Scope). x.valid_from)
          (clamp_scope-Parts proposal.requested_scope policy s cs e).scope)
        (Parts-Records (clamp_scope-Parts proposal.requested_scope policy s cs e)) refl h

pub clamp_to_policy-conclude :
    (proposal : NegotiationProposal) (policy : ArtistPolicy)
    → clamp_to_policy proposal policy
      ≡ conclude proposal policy (clamp_scope proposal.requested_scope policy)
unfolding clamp_to_policy
clamp_to_policy-conclude proposal policy = refl

-- Whatever the proposal asks for, an outcome is a rejection without a scope, or the offer of a scope within the
-- policy's limits, with a well-formed window from the requested start. It is agreed exactly where the scope is
-- what was asked for, a counteroffer that records its clamps elsewhere. The use is not prohibited, unless it is
-- a maximum that replaces a use above it, and the territories are the policy's, unless that lists none.
pub clamp_to_policy-IsOutcome :
    (proposal : NegotiationProposal) (policy : ArtistPolicy) (o : NegotiationOutcome)
    → clamp_to_policy proposal policy ≡ ok o
    → IsOutcome proposal.requested_scope policy o
clamp_to_policy-IsOutcome proposal policy o h =
    conclude-IsOutcome proposal policy o (clamp_scope proposal.requested_scope policy) refl
      (sym (clamp_to_policy-conclude proposal policy) ∙ h)
