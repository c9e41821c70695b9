-- ===== src/Pipeline/Heuristics.antt =====
-- crates/pipeline/src/heuristics.rs: the importance score, in hundredths.
use contextd.Prelude.{ℕ, ◌||◌, Option, none, some, if◌then◌else◌, ◌≤◌, arith}
use contextd.Text.{Text, str, text_eq, contains, starts_with}
use contextd.Json.{Json, str_at}
use contextd.Core.Event.{RawEvent, ProcessedEvent, EventSource, new}

unfoldable pub shell_score : Option Text → ℕ
shell_score none = 50
shell_score (some cmd) =
    if contains cmd (str "cargo build")
      || contains cmd (str "npm run")
      || contains cmd (str "error")
    then 90
    else if starts_with cmd (str "cd ") || starts_with cmd (str "ls")
    then 10
    else 60

unfoldable pub file_score : Option Text → ℕ
file_score none = 30
file_score (some path) =
    if contains path (str "Cargo.toml") || contains path (str "package.json") then 80 else 30

unfoldable pub start_score : Text → ℕ
start_score command =
    if contains command (str "cargo build") || contains command (str "npm run") then 90 else 70

abbrev or_default : Option Text → Text
or_default none = str ""
or_default (some t) = t

unfoldable pub proc_score : Option Text → Option Text → ℕ
proc_score none command = 40
proc_score (some action) command =
    if text_eq action (str "process_start") then start_score (or_default command) else 20

unfoldable pub git_score : Option Text → ℕ
git_score none = 50
git_score (some action) =
    if text_eq action (str "commit") || text_eq action (str "checkout") then 80 else 50

module _ {V : Type 0} (json : Json V) where
  unfoldable pub score_of : RawEvent V → ℕ
  score_of raw = elim raw.source [
    | EventSource.shell ↦ shell_score (str_at json raw.payload (str "command"))
    | EventSource.file_system ↦ file_score (str_at json raw.payload (str "path"))
    | EventSource.proc ↦
        proc_score (str_at json raw.payload (str "action"))
          (str_at json raw.payload (str "command"))
    | EventSource.git ↦ git_score (str_at json raw.payload (str "action"))
    | EventSource.manifest ↦ 95
    | EventSource.claim ↦ 100
    | EventSource.note ↦ 100
    | EventSource.editor ↦ 50
  ]

  unfoldable pub process_event : RawEvent V → ProcessedEvent V
  process_event raw = new raw (score_of raw)

pub shell_score_bounds : (c : Option Text) → (10 ≤ shell_score c) × (shell_score c ≤ 90)
unfolding shell_score
shell_score_bounds c = ground arith

pub file_score_bounds : (c : Option Text) → (30 ≤ file_score c) × (file_score c ≤ 80)
unfolding file_score
file_score_bounds c = ground arith

pub git_score_bounds : (c : Option Text) → (50 ≤ git_score c) × (git_score c ≤ 80)
unfolding git_score
git_score_bounds c = ground arith

pub proc_score_bounds : (a c : Option Text) → (20 ≤ proc_score a c) × (proc_score a c ≤ 90)
unfolding proc_score start_score
proc_score_bounds a c = ground arith
