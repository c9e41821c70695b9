-- ===== src/Background/Pruner.antt =====
-- crates/background/src/pruner.rs: moving old events into the archive. A pass is the list of its
-- writes to the tables, so that it can stop between any two of them; scores are in hundredths.
pub mod Kept
pub mod Settled
use contextd.Prelude.{ℕ, ◌*◌, ◌-◌, Option, none, some, List, [], ◌∷◌, map}
use contextd.Text.{Text}
use contextd.Core.Event.{ProcessedEvent}
use contextd.Store.Archive.{
  Tables, Codec, archive_row, insert_row, get_prunable_events, delete_event,
}

abbrev pub retention_ms : ℕ
retention_ms = 7 * 24 * 60 * 60 * 1000

abbrev pub score_threshold : ℕ
score_threshold = 50

abbrev pub batch_size : ℕ
batch_size = 1000

module _ {V B : Type 0} (codec : Codec V B) where
  abbrev pub batch_of : Tables V B → ℕ → List (ProcessedEvent V)
  batch_of t cutoff = get_prunable_events t cutoff score_threshold batch_size

  abbrev pub deletes_of : List (ProcessedEvent V) → List (Tables V B → Tables V B)
  deletes_of batch = map (λ event. delete_event event.raw.id) batch

  -- The writes of `archive_pass`: none if nothing is prunable or the batch cannot be packed.
  unfoldable pub batch_writes : List (ProcessedEvent V) → List (Tables V B → Tables V B)
  batch_writes batch = elim (archive_row codec batch) [
    | none ↦ []
    | some row ↦ insert_row row ∷ deletes_of batch
  ]

  unfoldable pub archive_writes : Tables V B → ℕ → List (Tables V B → Tables V B)
  archive_writes t cutoff = batch_writes (batch_of t cutoff)

  unfoldable pub run_writes : List (Tables V B → Tables V B) → Tables V B → Tables V B
  run_writes [] t = t
  run_writes (write ∷ writes) t = run_writes writes (write t)

  unfoldable pub archive_pass : Tables V B → ℕ → Tables V B
  archive_pass t cutoff = run_writes (archive_writes t cutoff) t

  -- One round of the worker, at a time of the clock.
  unfoldable pub prune_round : Tables V B → ℕ → Tables V B
  prune_round t now_ms = archive_pass t (now_ms - retention_ms)
