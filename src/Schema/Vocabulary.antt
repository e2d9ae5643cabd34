-- ===== src/Schema/Vocabulary.antt =====
-- The closed vocabularies of src/schema/scope.py and src/schema/grant_event.py. A `Literal` of
-- pydantic admits exactly these values, so each is an enumeration.
use hodi.Prelude.{String, Eq, discrete_eq}

pub data UseType : Type 0 where
  training fine_tuning rag_retrieval human_reference synthesis : UseType

pub data ModelClass : Type 0 where
  all_models open_weights proprietary_frontier : ModelClass

pub data EventKind : Type 0 where
  granted revoked expired superseded : EventKind

unfoldable pub UseType-discrete : Discrete UseType
UseType-discrete = hlevel

unfoldable pub ModelClass-discrete : Discrete ModelClass
ModelClass-discrete = hlevel

unfoldable pub EventKind-discrete : Discrete EventKind
EventKind-discrete = hlevel

instance abbrev pub use_type_eq : Eq UseType
use_type_eq = discrete_eq UseType-discrete

instance abbrev pub model_class_eq : Eq ModelClass
model_class_eq = discrete_eq ModelClass-discrete

instance abbrev pub event_kind_eq : Eq EventKind
event_kind_eq = discrete_eq EventKind-discrete

-- The text of a use type, by which `sorted` orders it.
abbrev pub use_type_name : UseType → String
use_type_name training = "training"
use_type_name fine_tuning = "fine_tuning"
use_type_name rag_retrieval = "rag_retrieval"
use_type_name human_reference = "human_reference"
use_type_name synthesis = "synthesis"
