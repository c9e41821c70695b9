-- ===== src/Core/Memory.antt =====
-- crates/core/src/memory.rs: the vocabulary of the enrichment pipeline, and its text form.
use contextd.Prelude.{Bool, true, false, Option, none, some, ◌≡◌, refl, if◌then◌else◌}
use contextd.Text.{Text, str, text_eq}

pub data UseCase : Type 0 where
  coding research general_productivity : UseCase

pub data MemoryType : Type 0 where
  episodic semantic procedural : MemoryType

-- `UseCase::as_str`
unfoldable pub use_case_str : UseCase → Text
use_case_str coding = str "coding"
use_case_str research = str "research"
use_case_str general_productivity = str "general_productivity"

-- `UseCase::from_str`
unfoldable pub use_case_from_str : Text → Option UseCase
use_case_from_str value =
    if text_eq value (str "coding")
    then some coding
    else if text_eq value (str "research")
    then some research
    else if text_eq value (str "general_productivity")
    then some general_productivity
    else none

-- `MemoryType::as_str`
unfoldable pub memory_type_str : MemoryType → Text
memory_type_str episodic = str "episodic"
memory_type_str semantic = str "semantic"
memory_type_str procedural = str "procedural"

-- `MemoryType::from_str`
unfoldable pub memory_type_from_str : Text → Option MemoryType
memory_type_from_str value =
    if text_eq value (str "episodic")
    then some episodic
    else if text_eq value (str "semantic")
    then some semantic
    else if text_eq value (str "procedural")
    then some procedural
    else none

-- `survives_pruning`
unfoldable pub survives_pruning : MemoryType → Bool
survives_pruning episodic = false
survives_pruning semantic = true
survives_pruning procedural = true

-- The text that is stored for a use case or a memory type reads back as the same value, whichever
-- it is.
pub memory-round_trip :
    ((u : UseCase) → use_case_from_str (use_case_str u) ≡ some u)
    × ((m : MemoryType) → memory_type_from_str (memory_type_str m) ≡ some m)
unfolding use_case_from_str use_case_str memory_type_from_str memory_type_str text_eq str
memory-round_trip = (
  λ u. elim u as (λ x. use_case_from_str (use_case_str x) ≡ some x) [
    | coding ↦ refl
    | research ↦ refl
    | general_productivity ↦ refl
  ],
  λ m. elim m as (λ x. memory_type_from_str (memory_type_str x) ≡ some x) [
    | episodic ↦ refl
    | semantic ↦ refl
    | procedural ↦ refl
  ],
)
