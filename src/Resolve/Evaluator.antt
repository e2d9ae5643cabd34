-- ===== src/Resolve/Evaluator.antt =====
-- src/resolve/evaluator.py: whether the active grants permit a requested scope. The `reason` text of the
-- result is left out; the other fields determine it.
pub mod Containment
pub mod Permission
use hodi.Prelude.{
  ℕ, String, Bool, true, false, not, ◌&&◌, ◌||◌, Option, none, some, List, [], ◌∷◌, ◌==◌, contains,
  string_eq, ltb, leb, all, if◌then◌else◌, Result, ok, err,
}
use hodi.Schema.Vocabulary.{EventKind, granted, EventKind-discrete, event_kind_eq}
use hodi.Schema.Lattice.{is_use_type_contained, is_model_class_contained}
use hodi.Schema.Scope.{Scope, ScopeEvaluationResult}
use hodi.Schema.GrantEvent.{GrantEvent}

-- at < scope.valid_from or (scope.valid_until and at > scope.valid_until), negated
unfoldable pub is_scope_current : Scope → ℕ → Bool
is_scope_current scope at =
    if ltb at scope.valid_from
    then false
    else elim scope.valid_until [ none ↦ true | some until ↦ not (ltb until at) ]

unfoldable pub scope_window_has_closed : Scope → ℕ → Bool
scope_window_has_closed scope at = elim scope.valid_until [
  | none ↦ false
  | some until ↦ ltb until at
]

-- Dimension 5b: whether the loop goes on past the window tests.
unfoldable pub is_window_contained : Scope → Scope → Bool
is_window_contained g r = if ltb r.valid_from g.valid_from then false else elim g.valid_until [
  | none ↦ true
  | some bound ↦ elim r.valid_until [ none ↦ false | some until ↦ not (ltb bound until) ]
]

-- set(a).issubset(b)
abbrev pub is_subset : List String → List String → Bool
is_subset a b = all (λ t. contains t b) a

abbrev pub is_empty : List String → Bool
is_empty [] = true
is_empty (_ ∷ _) = false

-- Dimension 4.
unfoldable pub is_territory_contained : List String → List String → Bool
is_territory_contained granted_territories requested_territories =
    if not (is_empty granted_territories) && not (contains "WW" granted_territories)
    then if is_empty requested_territories
      then false
      else is_subset requested_territories granted_territories
    else true

-- One round of the second loop: every `continue` is `false`.
unfoldable pub is_containing : Scope → Scope → ℕ → Bool
is_containing g r at =
    is_scope_current g at
    && is_window_contained g r
    && is_use_type_contained g.use_type r.use_type
    && is_model_class_contained g.model_class r.model_class
    && not (r.commercial && not g.commercial)
    && is_territory_contained g.territory r.territory

-- ValueError: the kind and the grant id of the first event that does not grant.
pub record NotFolded : Type 0 where
  pub kind : EventKind
  pub grant_id : String

unfoldable pub check_folded : List GrantEvent → Result NotFolded (Unit {0})
unfolding EventKind-discrete
check_folded [] = ok tt
check_folded (g ∷ rest) =
    let later = check_folded rest in
    if not (g.kind == granted) then err (record { kind = g.kind; grant_id = g.grant_id }) else later

unfoldable pub first_containing : List GrantEvent → Scope → ℕ → ScopeEvaluationResult
first_containing [] r at = record {
  permitted = false;
  matching_grant_id = none;
  attribution_required = false;
}
first_containing (g ∷ rest) r at =
    let later = first_containing rest r at in
    if is_containing g.scope r at
    then record {
      permitted = true;
      matching_grant_id = some g.grant_id;
      attribution_required = g.scope.attribution_required;
    }
    else later

unfoldable pub permits : List GrantEvent → Scope → ℕ → Result NotFolded ScopeEvaluationResult
unfolding check_folded first_containing is_containing is_scope_current is_window_contained
    is_territory_contained is_use_type_contained is_model_class_contained
permits active_grants requested_scope eval_time = elim (check_folded active_grants) [
  | ok _ ↦ ok (first_containing active_grants requested_scope eval_time)
  | err e ↦ err e
]
