-- ===== src/Examples/Archives.antt =====
-- The theorems on the pruner, at tables with one old event.
use contextd.Prelude.{
  ◌≡◌, ◌≢◌, ◌∙◌, refl, sym, inl, inr, ◌⊎◌, true, none, some, List, [], ◌∷◌, take, arith,
}
use contextd.Prelude.Int.{pos}
use contextd.Prelude.Members.{Among}
use contextd.Text.{str}
use contextd.Core.Event.{ProcessedEvent, EventSource, new}
use contextd.Store.Archive.{Tables, Codec, is_prunable}
use contextd.Background.Pruner.{archive_writes, run_writes, batch_of, score_threshold}
use contextd.Background.Pruner.Kept.{IsArchived, IsKeyed, archive_pass-keeps}
use contextd.Background.Pruner.Settled.{waiting, passes, passes-settle}
use contextd.Examples.{Value, event_of, shell_run}

abbrev old : ProcessedEvent Value
old = new (event_of EventSource.shell 1 (shell_run (str "make") (pos 0))) 20

-- A codec that keeps the events as they are.
abbrev codec : Codec Value (List (ProcessedEvent Value))
codec = record { pack = λ events. some events; unpack = λ blob. some blob }

abbrev tables : Tables Value (List (ProcessedEvent Value))
tables = record { events = old ∷ []; vectors = []; archive = []; tasks = []; claims = [] }

codec-reads :
    (events blob : List (ProcessedEvent Value))
    → Codec.pack codec events ≡ some blob
    → Codec.unpack codec blob ≡ some events
codec-reads events blob h = sym h

codec-packs :
    (event : ProcessedEvent Value) (events : List (ProcessedEvent Value))
    → Codec.pack codec (event ∷ events) ≢ none
codec-packs event events h = ground arith

tables-IsKeyed : IsKeyed codec tables
tables-IsKeyed e f (inl is_old) (inl is_old_too) same = is_old ∙ sym is_old_too
tables-IsKeyed e f (inl is_old) (inr there) same = absurd there
tables-IsKeyed e f (inr there) k same = absurd there

archive_pass-keeps_example :
    let left = run_writes codec (take 2 (archive_writes codec tables 5)) tables in
    Among old left.events
    ⊎ (IsArchived codec old left.archive
        × (is_prunable 5 score_threshold tables.tasks tables.claims old ≡ true))
archive_pass-keeps_example =
    archive_pass-keeps codec tables 5 2 old codec-reads tables-IsKeyed (inl refl)

passes-settle_example : batch_of codec (passes codec 5 (waiting codec 5 tables) tables) 5 ≡ []
passes-settle_example = passes-settle codec 5 tables codec-packs
