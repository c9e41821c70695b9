-- ===== src/Pipeline/Decision.antt =====
-- crates/pipeline/src/lib.rs and decision.rs: the analysis of an event and the verdict on it.
pub mod Ingest
use contextd.Prelude.{
  ℕ, Bool, true, false, not, ◌&&◌, ◌||◌, Option, leb, ltb, length, if◌then◌else◌,
}
use contextd.Text.{Text}
use contextd.Json.{Json}
use contextd.Core.Event.{RawEvent, ProcessedEvent, EventSource, source_eq}
use contextd.Core.Memory.{UseCase, MemoryType, research, survives_pruning}
use contextd.Pipeline.Classify.{classify_use_case, classify_memory_type}
use contextd.Pipeline.Content.{summarize, looks_like_failure}

-- The two thresholds, in hundredths.
abbrev pub noise_score : ℕ
noise_score = 25

abbrev pub high_value_score : ℕ
high_value_score = 80

abbrev pub long_payload_chars : ℕ
long_payload_chars = 512

pub data Decision : Type 0 where
  drop keep summarize_it promote : Decision

unfoldable pub is_durable : Decision → Bool
is_durable promote = true
is_durable _ = false

abbrev pub is_drop : Decision → Bool
is_drop drop = true
is_drop _ = false

abbrev pub is_research : UseCase → Bool
is_research research = true
is_research _ = false

pub record Analysis : Type 0 where
  pub use_case : UseCase
  pub memory_type : MemoryType
  pub summary : Option Text

module _ {V : Type 0} (json : Json V) where
  unfoldable pub payload_len : ProcessedEvent V → ℕ
  payload_len event = length (json.to_string event.raw.payload)

  unfoldable pub decide : ProcessedEvent V → UseCase → MemoryType → Decision
  decide event use_case memory_type =
      if survives_pruning memory_type && leb noise_score event.score
      then promote
      else if leb high_value_score event.score
      then promote
      else if looks_like_failure json event.raw
      then promote
      else if ltb event.score noise_score
      then (if is_research use_case then keep else drop)
      else if ltb long_payload_chars (payload_len event)
      then summarize_it
      else keep

  module _ (to_lowercase : Text → Text) where
    unfoldable pub analyze : RawEvent V → Analysis
    analyze event = record {
      use_case = classify_use_case to_lowercase json event;
      memory_type = classify_memory_type to_lowercase json event;
      summary = summarize json event;
    }

    -- The verdict of `decide` on an event with its own analysis.
    abbrev pub verdict : ProcessedEvent V → Decision
    verdict event = decide event (analyze event.raw).use_case (analyze event.raw).memory_type

    unfoldable pub should_drop : ProcessedEvent V → Bool
    should_drop event =
        if source_eq event.raw.source EventSource.claim
          || source_eq event.raw.source EventSource.note
        then false
        else if leb noise_score event.score
        then false
        else is_drop (verdict event)
