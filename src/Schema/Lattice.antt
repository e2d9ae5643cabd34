-- ===== src/Schema/Lattice.antt =====
-- src/schema/lattice.py: the partial order of use types and of model classes, declared as data,
-- and what is derived from it.
pub mod Order
use Prim.Native.String.{◌++◌ as text_append}
use hodi.Prelude.{
  ℕ, zero, suc, String, ◌≡◌, refl, Bool, true, not, ◌&&◌, Option, none, some, List, [], ◌∷◌, ◌++◌,
  Eq, ◌==◌, contains, filter, any, if◌then◌else◌,
}
use hodi.Prelude.Sort.{sort_by}
use hodi.Prelude.TextOrder.{text_le}
use hodi.Schema.Vocabulary.{
  UseType, training, fine_tuning, rag_retrieval, human_reference, synthesis, ModelClass, all_models,
  open_weights, proprietary_frontier, UseType-discrete, ModelClass-discrete, use_type_eq,
  model_class_eq, use_type_name,
}

abbrev pub use_type_containment : List (UseType × List UseType)
use_type_containment =
    (training, training ∷ fine_tuning ∷ rag_retrieval ∷ human_reference ∷ [])
    ∷ (fine_tuning, fine_tuning ∷ rag_retrieval ∷ human_reference ∷ [])
    ∷ (rag_retrieval, rag_retrieval ∷ human_reference ∷ [])
    ∷ (human_reference, human_reference ∷ [])
    ∷ (synthesis, synthesis ∷ [])
    ∷ []

abbrev pub model_class_containment : List (ModelClass × List ModelClass)
model_class_containment =
    (all_models, all_models ∷ open_weights ∷ proprietary_frontier ∷ [])
    ∷ (open_weights, open_weights ∷ [])
    ∷ (proprietary_frontier, proprietary_frontier ∷ [])
    ∷ []

-- `table.get(k, default)`
unfoldable pub get_or {ℓ κ} : {K : Type ℓ} {V : Type κ} ⦃e : Eq K⦄ → K → V → List (K × V) → V
get_or k default [] = default
get_or k default ((j, v) ∷ rest) = if k == j then v else get_or k default rest

unfoldable pub is_use_type_contained : UseType → UseType → Bool
unfolding get_or UseType-discrete
is_use_type_contained granted requested =
    contains requested (get_or granted [] use_type_containment)

unfoldable pub is_model_class_contained : ModelClass → ModelClass → Bool
unfolding get_or ModelClass-discrete
is_model_class_contained granted requested =
    contains requested (get_or granted [] model_class_containment)

abbrev pub use_type_le : UseType → UseType → Bool
use_type_le a b = text_le (use_type_name a) (use_type_name b)

-- Python's `sorted` over use types.
unfoldable pub sorted_use_types : List UseType → List UseType
unfolding sort_by text_le
sorted_use_types = sort_by use_type_le

abbrev closure_below : UseType → List UseType
closure_below u = filter (λ y. not (y == u)) (get_or u [] use_type_containment)

-- z lies strictly between `u` and `candidate`
abbrev is_intermediate : UseType → UseType → UseType → Bool
is_intermediate u candidate z =
    not (contains z (candidate ∷ u ∷ [])) && contains candidate (get_or z [] use_type_containment)

unfoldable pub use_type_covers : UseType → List UseType
unfolding get_or UseType-discrete sorted_use_types
use_type_covers u = sorted_use_types (
    filter (λ candidate. not (any (is_intermediate u candidate) (closure_below u)))
      (closure_below u))

pub record Derivation : Type 0 where
  pub scope : UseType
  pub parent : UseType
  pub reason : String

-- The loop state: chain, seen, frontier.
pub record Walk : Type 0 where
  pub chain : List Derivation
  pub seen : List UseType
  pub frontier : List UseType

abbrev arrow : UseType → UseType → String
arrow parent child = text_append (use_type_name parent) (text_append " ⊃ " (use_type_name child))

-- `for child in use_type_covers(parent)`
unfoldable visit_children : UseType → List UseType → Walk → Walk
unfolding UseType-discrete
visit_children parent [] w = w
visit_children parent (child ∷ rest) w = visit_children parent rest (
    if contains child w.seen then w else record {
      chain =
          w.chain ++ record { scope = child; parent = parent; reason = arrow parent child } ∷ [];
      seen = child ∷ w.seen;
      frontier = w.frontier ++ child ∷ [];
    })

abbrev pop_frontier : Walk → UseType → List UseType → Walk
pop_frontier w parent rest =
    visit_children parent (use_type_covers parent) (record w { frontier = rest })

-- `while frontier`, on fuel; `none` means that the fuel ran out.
unfoldable pub walk : ℕ → Walk → Option (List Derivation)
unfolding visit_children use_type_covers
walk zero w = none
walk (suc fuel) w = elim w.frontier [
  | [] ↦ some w.chain
  | parent ∷ rest ↦ walk fuel (pop_frontier w parent rest)
]

unfoldable pub use_type_derivation_chain : ℕ → UseType → Option (List Derivation)
unfolding walk
use_type_derivation_chain fuel revoked_use_type = walk fuel (record {
  chain =
      record { scope = revoked_use_type; parent = revoked_use_type; reason = "Directly revoked" }
      ∷ [];
  seen = revoked_use_type ∷ [];
  frontier = revoked_use_type ∷ [];
})
