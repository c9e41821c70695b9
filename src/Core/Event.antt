-- ===== src/Core/Event.antt =====
-- crates/core/src/event.rs. A payload has the unknown type `V`, and a score is counted in
-- hundredths: the scores and thresholds of the pipeline are decimals with two places at most.
use contextd.Prelude.{ℕ, Bool, Option, none, some, ◌==◌}
use contextd.Text.{Text}

pub data EventSource : Type 0 where
  shell file_system git editor proc manifest claim note : EventSource

abbrev tag : EventSource → ℕ
tag EventSource.shell = 0
tag EventSource.file_system = 1
tag EventSource.git = 2
tag EventSource.editor = 3
tag EventSource.proc = 4
tag EventSource.manifest = 5
tag EventSource.claim = 6
tag EventSource.note = 7

-- The derived `==`.
unfoldable pub source_eq : EventSource → EventSource → Bool
source_eq a b = tag a == tag b

pub record RawEvent (V : Type 0) : Type 0 where
  pub id : Text
  pub timestamp_ms : ℕ
  pub source : EventSource
  pub payload : V

pub record ProcessedEvent (V : Type 0) : Type 0 where
  pub raw : RawEvent V
  pub score : ℕ
  pub session_id : Option Text
  pub use_case : Option Text
  pub memory_type : Option Text
  pub summary : Option Text

-- `ProcessedEvent::new`
unfoldable pub new : {V : Type 0} → RawEvent V → ℕ → ProcessedEvent V
new raw score = record {
  raw = raw;
  score = score;
  session_id = none;
  use_case = none;
  memory_type = none;
  summary = none;
}

-- `with_session`
unfoldable pub with_session : {V : Type 0} → ProcessedEvent V → Text → ProcessedEvent V
with_session e session = record e { session_id = some session }

pub record Intent : Type 0 where
  pub text : Text
  pub declared_at_ms : ℕ
