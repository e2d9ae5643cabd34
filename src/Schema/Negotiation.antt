-- ===== src/Schema/Negotiation.antt =====
-- src/schema/negotiation.py: a proposal is clamped to the artist's policy. Instants are microseconds
-- from `datetime.min` in UTC. The `rationale` texts are not modelled; the status determines them.
pub mod Moved
pub mod Parts
pub mod Ceiling
pub mod Outcome
pub mod Gaps
use hodi.Prelude.{
  ℕ, suc, ◌+◌, ◌-◌, ◌*◌, String, Bool, true, false, not, ◌&&◌, ◌||◌, Option, none, some, List, [],
  ◌∷◌, ◌++◌, ◌==◌, contains, string_eq, ltb, all, filter, if◌then◌else◌, Result, ok, err, ◌>>=◌,
  ◌>>◌,
}
use hodi.Prelude.Sort.{sorted_set}
use hodi.Prelude.Int.{ℤ, pos, negsuc}
use hodi.Schema.Vocabulary.{
  UseType, ModelClass, all_models, UseType-discrete, ModelClass-discrete, use_type_eq,
  model_class_eq,
}
use hodi.Schema.Lattice.{is_use_type_contained}
use hodi.Schema.Scope.{Scope, ValidationError, interval_must_be_well_formed}

pub record ArtistPolicy : Type 0 where
  pub work_id : String
  pub max_use_type : UseType
  pub allowed_model_class : ModelClass
  pub commercial_allowed : Bool
  pub territory_allowed : List String
  pub max_duration_days : Option ℤ
  pub attribution_always_required : Bool
  pub prohibited_use_types : List UseType

pub record NegotiationProposal : Type 0 where
  pub counterparty_id : String
  pub work_id : String
  pub requested_scope : Scope
  pub economic_note : Option String

pub data NegotiationStatus : Type 0 where
  agreed counteroffer rejected_by_policy : NegotiationStatus

-- The entries of `clamped_dimensions`.
pub data Clamp : Type 0 where
  use_type_prohibited : Clamp
  use_type_incomparable use_type_narrowed : UseType → UseType → Clamp
  model_class_narrowed : ModelClass → ModelClass → Clamp
  commercial_dropped : Clamp
  worldwide_narrowed : List String → Clamp
  territory_disjoint territory_narrowed : List String → List String → Clamp
  attribution_added : Clamp
  duration_capped : ℤ → Clamp

pub record NegotiationOutcome : Type 0 where
  pub status : NegotiationStatus
  pub work_id : String
  pub counterparty_id : String
  pub offered_scope : Option Scope
  pub clamped_dimensions : List Clamp

-- What ends `clamp_to_policy` early: a return of a rejection, or an exception.
pub data Stop : Type 0 where
  reject : Clamp → Stop
  overflow : Stop

unfoldable pub clamp_use_type : Scope → ArtistPolicy → Result Stop (UseType × List Clamp)
clamp_use_type req policy =
    if contains req.use_type policy.prohibited_use_types
    then err (reject use_type_prohibited)
    else if not (is_use_type_contained policy.max_use_type req.use_type)
    then if not (is_use_type_contained req.use_type policy.max_use_type)
      then err (reject (use_type_incomparable req.use_type policy.max_use_type))
      else ok (policy.max_use_type, use_type_narrowed req.use_type policy.max_use_type ∷ [])
    else ok (req.use_type, [])

unfoldable pub clamp_model_class : Scope → ArtistPolicy → ModelClass × List Clamp
clamp_model_class req policy =
    if not (policy.allowed_model_class == all_models)
      && not (req.model_class == policy.allowed_model_class)
    then (
      policy.allowed_model_class,
      model_class_narrowed req.model_class policy.allowed_model_class ∷ [],
    )
    else (req.model_class, [])

unfoldable pub clamp_commercial : Scope → ArtistPolicy → Bool × List Clamp
clamp_commercial req policy =
    if req.commercial && not policy.commercial_allowed
    then (false, commercial_dropped ∷ [])
    else (req.commercial, [])

-- req.territory or ["WW"]
abbrev pub or_worldwide : List String → List String
or_worldwide [] = "WW" ∷ []
or_worldwide (t ∷ ts) = t ∷ ts

-- set(a) & set(b), sorted
unfoldable pub sorted_meet : List String → List String → List String
unfolding sorted_set
sorted_meet a b = sorted_set (filter (λ t. contains t b) a)

abbrev pub is_nonempty : List String → Bool
is_nonempty [] = false
is_nonempty (_ ∷ _) = true

unfoldable pub clamp_territory : Scope → ArtistPolicy → Result Stop (List String × List Clamp)
unfolding sorted_set
clamp_territory req policy =
    let requested = or_worldwide req.territory in
    let allowed = sorted_meet requested policy.territory_allowed in
    if contains "WW" policy.territory_allowed
    then ok (requested, [])
    else if contains "WW" requested
    then ok
        (policy.territory_allowed, worldwide_narrowed (sorted_set policy.territory_allowed) ∷ [])
    else if not (is_nonempty allowed)
    then err
        (reject (territory_disjoint (sorted_set requested) (sorted_set policy.territory_allowed)))
    else if not (all (λ t. contains t policy.territory_allowed) requested)
    then ok (allowed, territory_narrowed (sorted_set requested) allowed ∷ [])
    else ok (requested, [])

unfoldable pub clamp_attribution : Scope → ArtistPolicy → Bool × List Clamp
clamp_attribution req policy = (
  req.attribution_required || policy.attribution_always_required,
  if policy.attribution_always_required && not req.attribution_required
      then attribution_added ∷ []
      else [],
)

abbrev pub day : ℕ
day = 86_400_000_000

-- `datetime.max`, of 9999-12-31.
abbrev pub max_instant : ℕ
max_instant = 3_652_059 * 86_400_000_000 - 1

-- `instant + timedelta(days=n)`; `none` is the OverflowError.
unfoldable pub add_days : ℕ → ℤ → Option ℕ
add_days instant (pos n) =
    if ltb max_instant (instant + n * day) then none else some (instant + n * day)
add_days instant (negsuc n) =
    if ltb instant (suc n * day) then none else some (instant - suc n * day)

-- valid_until is None or valid_until > cap
abbrev pub is_past : Option ℕ → ℕ → Bool
is_past none limit = true
is_past (some until) limit = ltb limit until

unfoldable pub cap_until : Option ℕ → ℤ → ℕ → Option ℕ × List Clamp
cap_until valid_until days limit =
    if is_past valid_until limit then (some limit, duration_capped days ∷ []) else (valid_until, [])

unfoldable pub cap_at : Scope → ℤ → Option ℕ → Result Stop (Option ℕ × List Clamp)
unfolding cap_until
cap_at req days none = err overflow
cap_at req days (some limit) = ok (cap_until req.valid_until days limit)

unfoldable pub limit_duration : Scope → Option ℤ → Result Stop (Option ℕ × List Clamp)
unfolding cap_at add_days
limit_duration req none = ok (req.valid_until, [])
limit_duration req (some days) = cap_at req days (add_days req.valid_from days)

unfoldable pub clamp_duration : Scope → ArtistPolicy → Result Stop (Option ℕ × List Clamp)
unfolding limit_duration
clamp_duration req policy = limit_duration req policy.max_duration_days

-- The scope that is offered, and every dimension that moved.
unfoldable pub clamp_scope : Scope → ArtistPolicy → Result Stop (Scope × List Clamp)
clamp_scope req policy = do
  (use_type, c1) ← clamp_use_type req policy
  let (model_class, c2) = clamp_model_class req policy
  let (commercial, c3) = clamp_commercial req policy
  (territory, c4) ← clamp_territory req policy
  let (attribution, c5) = clamp_attribution req policy
  (valid_until, c6) ← clamp_duration req policy
  ok (
    record {
      use_type = use_type;
      model_class = model_class;
      commercial = commercial;
      attribution_required = attribution;
      territory = territory;
      valid_from = req.valid_from;
      valid_until = valid_until;
    },
    c1 ++ (c2 ++ (c3 ++ (c4 ++ (c5 ++ c6)))),
  )

pub data NegotiationError : Type 0 where
  overflow_error : NegotiationError
  validation_error : ValidationError → NegotiationError

unfoldable pub rejection : NegotiationProposal → ArtistPolicy → Clamp → NegotiationOutcome
rejection proposal policy why = record {
  status = rejected_by_policy;
  work_id = policy.work_id;
  counterparty_id = proposal.counterparty_id;
  offered_scope = none;
  clamped_dimensions = why ∷ [];
}

unfoldable pub offer : NegotiationProposal → ArtistPolicy → Scope → List Clamp → NegotiationOutcome
offer proposal policy offered [] = record {
  status = agreed;
  work_id = policy.work_id;
  counterparty_id = proposal.counterparty_id;
  offered_scope = some offered;
  clamped_dimensions = [];
}
offer proposal policy offered (c ∷ cs) = record {
  status = counteroffer;
  work_id = policy.work_id;
  counterparty_id = proposal.counterparty_id;
  offered_scope = some offered;
  clamped_dimensions = c ∷ cs;
}

-- `Scope(...)` is constructed, and the outcome follows from what was clamped.
unfoldable pub conclude :
    NegotiationProposal
    → ArtistPolicy
    → Result Stop (Scope × List Clamp)
    → Result NegotiationError NegotiationOutcome
unfolding rejection offer interval_must_be_well_formed
conclude proposal policy (err (reject why)) = ok (rejection proposal policy why)
conclude proposal policy (err overflow) = err overflow_error
conclude proposal policy (ok (offered, clamped)) = elim (interval_must_be_well_formed offered) [
  | err e ↦ err (validation_error e)
  | ok scope ↦ ok (offer proposal policy scope clamped)
]

unfoldable pub clamp_to_policy :
    NegotiationProposal → ArtistPolicy → Result NegotiationError NegotiationOutcome
unfolding conclude clamp_scope clamp_use_type clamp_model_class clamp_commercial clamp_territory
    clamp_attribution clamp_duration is_use_type_contained UseType-discrete ModelClass-discrete
clamp_to_policy proposal policy =
    conclude proposal policy (clamp_scope proposal.requested_scope policy)
