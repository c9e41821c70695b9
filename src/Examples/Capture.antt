-- ===== src/Examples/Capture.antt =====
-- The theorems on the pipeline, at a few events.
use contextd.Prelude.{◌<◌, ◌≡◌, ◌≢◌, ◌⊎◌, ◌↔◌, inl, inr, refl, true, false, [], ◌∷◌, any}
use contextd.Core.Validate.{trimmed}
use contextd.Prelude.Int.{pos}
use contextd.Text.{
  Text, str, text_eq, contains, starts_with, lines_from, words_from, flush, join, drop_cr, trim,
  trim_start, keep_end, trim_end, is_whitespace,
}
use contextd.Json.{i64_at, str_at}
use contextd.Core.Event.{RawEvent, EventSource, new, source_eq}
use contextd.Core.Memory.{research, episodic, general_productivity, survives_pruning}
use contextd.Pipeline.Heuristics.{process_event, score_of, shell_score}
use contextd.Pipeline.Classify.{
  classify_use_case, classify_memory_type, run_memory, is_procedural_command, classify_run,
  classify_command,
}
use contextd.Pipeline.Content.{
  summarize, looks_like_failure, finish, collapse_whitespace, truncate, draft, git_text,
  subject_line, summarize_git,
}
use contextd.Pipeline.Content.Summaries.{summarize-IsLine, IsLine}
use contextd.Pipeline.Content.Errors.{looks_like_failure_lem, is_failing}
use contextd.Pipeline.Decision.{decide, drop, promote, verdict, should_drop, analyze}
use contextd.Pipeline.Decision.Ingest.{
  decide-drop_iff, should_drop_iff, ingest-drop, ingest-promote,
}
use contextd.Examples.{Value, shell_run, commit, json, event_of}

abbrev failed : RawEvent Value
failed = event_of EventSource.shell 1 (shell_run (97 ∷ []) (pos 1))

abbrev committed : RawEvent Value
committed = event_of EventSource.git 2 (commit (98 ∷ []))

-- Letters are left as they are.
abbrev unchanged : Text → Text
unchanged t = t

looks_like_failure_lem_example :
    looks_like_failure json failed
    ≡ is_failing json failed.payload (i64_at json failed.payload (str "exit_code"))
looks_like_failure_lem_example = looks_like_failure_lem json failed

decide-drop_iff_example :
    (decide json (new failed 20) general_productivity episodic ≡ drop)
    ↔ ((20 < 25) × (looks_like_failure json failed ≡ false) × (general_productivity ≢ research))
unfolding new
decide-drop_iff_example = decide-drop_iff json (new failed 20) general_productivity episodic

should_drop_iff_example : (should_drop json unchanged (new failed 20) ≡ true) ↔ (
    (verdict json unchanged (new failed 20) ≡ drop)
    × ((new failed 20).raw.source ≢ EventSource.claim)
    × ((new failed 20).raw.source ≢ EventSource.note))
should_drop_iff_example = should_drop_iff json unchanged (new failed 20)

ingest-promote_example : verdict json unchanged (process_event json committed) ≡ promote
unfolding str text_eq str_at
ingest-promote_example = ingest-promote json unchanged committed (inr (inl (refl, refl)))

-- A listing of a directory that went well.
abbrev listing : RawEvent Value
listing = event_of EventSource.shell 3 (shell_run (108 ∷ 115 ∷ []) (pos 0))

listing-dropped : should_drop json unchanged (process_event json listing) ≡ true
unfolding should_drop source_eq process_event new score_of shell_score decide analyze
    classify_use_case classify_memory_type str_at i64_at looks_like_failure str text_eq contains
    starts_with survives_pruning run_memory is_procedural_command any classify_run classify_command
listing-dropped = refl

ingest-drop_example :
    ((listing.source ≡ EventSource.shell) ⊎ (listing.source ≡ EventSource.proc))
    × (looks_like_failure json listing ≡ false)
    × ((analyze json unchanged listing).use_case ≢ research)
ingest-drop_example = ingest-drop json unchanged listing listing-dropped

abbrev committed_line : Text
committed_line = 99 ∷ 111 ∷ 109 ∷ 109 ∷ 105 ∷ 116 ∷ 116 ∷ 101 ∷ 100 ∷ 58 ∷ 32 ∷ 98 ∷ []

summarize-IsLine_example : IsLine committed_line
unfolding summarize finish collapse_whitespace truncate draft str str_at text_eq git_text
    subject_line lines_from words_from flush join drop_cr summarize_git trimmed trim trim_start
    trim_end keep_end is_whitespace
summarize-IsLine_example = summarize-IsLine json committed committed_line refl
