-- ===== src/Schema/Scope.antt =====
-- src/schema/scope.py: the licensed scope and its validation at the boundary. An aware datetime
-- stands for its instant, in microseconds UTC; a naive one denotes none.
use hodi.Prelude.{
  ℕ, String, Bool, Option, none, some, List, Result, ok, err, ◌>>=◌, ◌>>◌, raise_if, ltb,
  Bool-cases, inl, inr, ◌≡◌, refl, ◌≤◌, arith,
}
use hodi.Schema.Vocabulary.{UseType, ModelClass}

pub data Timestamp : Type 0 where
  naive : ℕ → Timestamp
  aware : ℕ → Timestamp

-- pydantic's refusals, by what the validator names.
pub data ValidationError : Type 0 where
  no_utc_offset : String → ValidationError
  malformed_interval : ValidationError

pub record Scope : Type 0 where
  pub use_type : UseType
  pub model_class : ModelClass
  pub commercial : Bool
  pub attribution_required : Bool
  pub territory : List String
  pub valid_from : ℕ
  pub valid_until : Option ℕ

-- The fields as a caller supplies them.
pub record ScopeInput : Type 0 where
  pub use_type : UseType
  pub model_class : ModelClass
  pub commercial : Bool
  pub attribution_required : Bool
  pub territory : List String
  pub valid_from : Timestamp
  pub valid_until : Option Timestamp

-- `reject_naive` of src/schema/grant_event.py, on a present value and on an optional one.
unfoldable pub reject_naive : Timestamp → String → Result ValidationError ℕ
reject_naive (naive wall) field_name = err (no_utc_offset field_name)
reject_naive (aware instant) field_name = ok instant

unfoldable pub reject_naive? : Option Timestamp → String → Result ValidationError (Option ℕ)
unfolding reject_naive
reject_naive? none field_name = ok none
reject_naive? (some t) field_name = do instant ← reject_naive t field_name; ok (some instant)

-- valid_until is not None and valid_until < valid_from
abbrev pub ends_before_start : Scope → Bool
ends_before_start s = elim s.valid_until [ none ↦ Bool.false | some t ↦ ltb t s.valid_from ]

unfoldable pub interval_must_be_well_formed : Scope → Result ValidationError Scope
interval_must_be_well_formed s = do raise_if (ends_before_start s) malformed_interval; ok s

-- `Scope(...)`: the field validators, then the model validator.
unfoldable pub make_scope : ScopeInput → Result ValidationError Scope
unfolding reject_naive? interval_must_be_well_formed
make_scope i = do
  from ← reject_naive i.valid_from "Scope.valid_from"
  until ← reject_naive? i.valid_until "Scope.valid_until"
  interval_must_be_well_formed (record {
    use_type = i.use_type;
    model_class = i.model_class;
    commercial = i.commercial;
    attribution_required = i.attribution_required;
    territory = i.territory;
    valid_from = from;
    valid_until = until;
  })

pub record ScopeEvaluationResult : Type 0 where
  pub permitted : Bool
  pub matching_grant_id : Option String
  pub attribution_required : Bool

-- The instant is not after the bound, if there is one.
abbrev pub IsWithin : ℕ → Option ℕ → Type 0
IsWithin at none = Unit
IsWithin at (some until) = at ≤ until

ends_before_start-false :
    (from : ℕ) (until : Option ℕ)
    → elim until [ none ↦ Bool.false | some t ↦ ltb t from ] ≡ Bool.false
    → IsWithin from until
ends_before_start-false from none h = tt
ends_before_start-false from (some t) h = ground arith

-- The model validator passes a scope on unchanged, and only if its window is well formed.
pub interval-ok :
    (s t : Scope)
    → interval_must_be_well_formed s ≡ ok t
    → (t ≡ s) × IsWithin s.valid_from s.valid_until
unfolding interval_must_be_well_formed
interval-ok s t h = elim (Bool-cases (ends_before_start s)) [
  | inl bad ↦
      let k : ◌≡◌ {A = Result ValidationError Scope} (err malformed_interval) (ok t) =
        rw bad at h in
      absurd (cc)
  | inr fine ↦
      let k : ◌≡◌ {A = Result ValidationError Scope} (ok s) (ok t) = rw fine at h in
      (cc, ends_before_start-false s.valid_from s.valid_until fine)
]

within-starts :
    (from : ℕ) (until : Option ℕ)
    → IsWithin from until
    → elim until [ none ↦ Bool.false | some t ↦ ltb t from ] ≡ Bool.false
within-starts from none h = refl
within-starts from (some t) h = ground arith

-- A scope whose window is well formed passes.
pub interval-within :
    (s : Scope) → IsWithin s.valid_from s.valid_until → interval_must_be_well_formed s ≡ ok s
unfolding interval_must_be_well_formed
interval-within s h = rw (within-starts s.valid_from s.valid_until h) refl
