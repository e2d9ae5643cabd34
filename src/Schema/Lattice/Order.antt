-- ===== src/Schema/Lattice/Order.antt =====
-- The containment tables of src/schema/lattice.py against the diagram in that module's docstring, and what
-- is derived from them.
use hodi.Prelude.{ℕ, suc, ◌≡◌, refl, ◌↔◌, true, some, List, map, arith, contains}
use hodi.Schema.Vocabulary.{
  UseType, training, fine_tuning, rag_retrieval, human_reference, synthesis, ModelClass,
  use_type_eq,
}
use hodi.Schema.Lattice.{
  is_use_type_contained, is_model_class_contained, use_type_covers, use_type_derivation_chain,
  Derivation,
}

-- The Hasse diagram of the header: training ⊃ fine_tuning ⊃ rag_retrieval ⊃ human_reference, and
-- synthesis apart.
pub data Edge : UseType → UseType → Type 0 where
  training_fine_tuning : Edge training fine_tuning
  fine_tuning_rag_retrieval : Edge fine_tuning rag_retrieval
  rag_retrieval_human_reference : Edge rag_retrieval human_reference

pub data Chain : UseType → UseType → Type 0 where
  stay : {u : UseType} → Chain u u
  down : {u v w : UseType} → Edge u v → Chain v w → Chain u w

contained-edge :
    {u v : UseType} (w : UseType)
    → Edge u v
    → is_use_type_contained v w ≡ true
    → is_use_type_contained u w ≡ true
unfolding is_use_type_contained
contained-edge w training_fine_tuning h = ground arith
contained-edge w fine_tuning_rag_retrieval h = ground arith
contained-edge w rag_retrieval_human_reference h = ground arith

pub is_use_type_contained_refl : (u : UseType) → is_use_type_contained u u ≡ true
unfolding is_use_type_contained
is_use_type_contained_refl u = ground arith

chain-contained : {u v : UseType} → Chain u v → is_use_type_contained u v ≡ true
chain-contained {u} stay = is_use_type_contained_refl u
chain-contained {v = w} (down e c) = contained-edge w e (chain-contained c)

contained-chain : (u v : UseType) → is_use_type_contained u v ≡ true → Chain u v
unfolding is_use_type_contained
contained-chain training training h = stay
contained-chain training fine_tuning h = down training_fine_tuning stay
contained-chain training rag_retrieval h =
    down training_fine_tuning (down fine_tuning_rag_retrieval stay)
contained-chain training human_reference h =
    down training_fine_tuning
      (down fine_tuning_rag_retrieval (down rag_retrieval_human_reference stay))
contained-chain fine_tuning fine_tuning h = stay
contained-chain fine_tuning rag_retrieval h = down fine_tuning_rag_retrieval stay
contained-chain fine_tuning human_reference h =
    down fine_tuning_rag_retrieval (down rag_retrieval_human_reference stay)
contained-chain rag_retrieval rag_retrieval h = stay
contained-chain rag_retrieval human_reference h = down rag_retrieval_human_reference stay
contained-chain human_reference human_reference h = stay
contained-chain synthesis synthesis h = stay
contained-chain _ _ h = absurd (cc)

-- One use type contains another exactly when a chain of the declared edges leads down to it.
pub is_use_type_contained-iff-Chain :
    (u v : UseType) → (is_use_type_contained u v ≡ true) ↔ Chain u v
is_use_type_contained-iff-Chain u v = (contained-chain u v, chain-contained)

pub is_use_type_contained_trans :
    (u v w : UseType)
    → is_use_type_contained u v ≡ true
    → is_use_type_contained v w ≡ true
    → is_use_type_contained u w ≡ true
unfolding is_use_type_contained
is_use_type_contained_trans u v w h k = ground arith

pub is_use_type_contained_antisymm :
    (u v : UseType) → is_use_type_contained u v ≡ true → is_use_type_contained v u ≡ true → u ≡ v
unfolding is_use_type_contained
is_use_type_contained_antisymm u v h k = ground arith

pub is_model_class_contained_refl : (c : ModelClass) → is_model_class_contained c c ≡ true
unfolding is_model_class_contained
is_model_class_contained_refl c = ground arith

pub is_model_class_contained_trans :
    (a b c : ModelClass)
    → is_model_class_contained a b ≡ true
    → is_model_class_contained b c ≡ true
    → is_model_class_contained a c ≡ true
unfolding is_model_class_contained
is_model_class_contained_trans a b c h k = ground arith

pub is_model_class_contained_antisymm :
    (a b : ModelClass)
    → is_model_class_contained a b ≡ true
    → is_model_class_contained b a ≡ true
    → a ≡ b
unfolding is_model_class_contained
is_model_class_contained_antisymm a b h k = ground arith

-- The covering relation that is derived from the table is the declared diagram.
covers-edge : (u v : UseType) → contains v (use_type_covers u) ≡ true → Edge u v
unfolding use_type_covers
covers-edge training fine_tuning h = training_fine_tuning
covers-edge fine_tuning rag_retrieval h = fine_tuning_rag_retrieval
covers-edge rag_retrieval human_reference h = rag_retrieval_human_reference
covers-edge _ _ h = absurd (cc)

edge-covers : {u v : UseType} → Edge u v → contains v (use_type_covers u) ≡ true
unfolding use_type_covers
edge-covers training_fine_tuning = refl
edge-covers fine_tuning_rag_retrieval = refl
edge-covers rag_retrieval_human_reference = refl

-- `use_type_covers` returns exactly the uses one declared edge below.
pub use_type_covers-iff-Edge : (u v : UseType) → (contains v (use_type_covers u) ≡ true) ↔ Edge u v
use_type_covers-iff-Edge u v = (covers-edge u v, edge-covers)

abbrev pub derived_scopes : List Derivation → List UseType
derived_scopes = map (λ d. d.scope)

-- With five rounds or more of fuel the walk ends, and it reaches exactly the uses that the revoked
-- one contains.
pub derivation_chain-reaches :
    (fuel : ℕ) (u : UseType)
    → (chain : List Derivation) × (use_type_derivation_chain (suc (suc (suc (suc (suc fuel))))) u
        ≡ some chain)
      × ((v : UseType) → contains v (derived_scopes chain) ≡ is_use_type_contained u v)
unfolding use_type_derivation_chain is_use_type_contained
derivation_chain-reaches fuel training = (_, refl, λ v. ground arith)
derivation_chain-reaches fuel fine_tuning = (_, refl, λ v. ground arith)
derivation_chain-reaches fuel rag_retrieval = (_, refl, λ v. ground arith)
derivation_chain-reaches fuel human_reference = (_, refl, λ v. ground arith)
derivation_chain-reaches fuel synthesis = (_, refl, λ v. ground arith)
