-- ===== src/Examples/Runs.antt =====
-- A failing run of a command, folded into an empty view.
use contextd.Prelude.{
  ◌+◌, ◌≤◌, ◌≡◌, ◌∙◌, ap, sym, refl, true, false, [], ◌∷◌, arith, Bool-cases, inl, inr, count, take,
}
use contextd.Prelude.Int.{pos}
use contextd.Text.{
  Text, str, text_eq, trim, trim_start, trim_end, keep_end, is_whitespace, words_from, flush, join,
  as_bytes, encode_char,
}
use contextd.Text.Equality.{text_eq→eq, text_eq_refl}
use contextd.Json.{str_at, i64_at}
use contextd.Core.Event.{RawEvent, EventSource}
use contextd.Core.Claim.{frontier_subject}
use contextd.Core.Projection
use contextd.Core.Projection.{Projection, has_failing_reality}
use contextd.Core.Projection.Slots.{id_count}
use contextd.Core.Validate.{trimmed}
use contextd.Memory.Project.{
  fold_event, task_id_for_subject, shell_subject, run_of, cwd_of, collapse_ws, hashed_id,
  hash_input,
}
use contextd.Memory.Project.Keeps.{times}
use contextd.Memory.Project.Unique.{claim_ids_of, run_ids}
use contextd.Memory.Project.Failing.{fold_event-fails}
use contextd.Examples.{Value, shell_run, outside, event_of}

abbrev failing_run : RawEvent Value
failing_run = event_of EventSource.shell 3 (shell_run (108 ∷ 115 ∷ []) (pos 1))

two-times : (a b j : Text) → text_eq a b ≡ false → times j (a ∷ b ∷ []) ≤ 1
unfolding times count
two-times a b j h = elim (Bool-cases (text_eq a j)) [
  | inl first ↦ elim (Bool-cases (text_eq b j)) [
    | inl second ↦
        let same : a ≡ b = text_eq→eq a j first ∙ sym (text_eq→eq b j second) in
        let alike : text_eq a a ≡ text_eq a b = ap (text_eq a) same in
        ground (arith, text_eq_refl a)
    | inr other ↦ ground arith
  ]
  | inr other ↦ ground arith
]

-- The ids of the run's two claims.
abbrev run_subject : Text
run_subject = shell_subject (cwd_of outside failing_run.payload) (108 ∷ 115 ∷ [])

abbrev run_task : Text
run_task = task_id_for_subject outside run_subject

abbrev reality_id : Text
reality_id = hashed_id outside (str "c_") (run_task ∷ run_subject ∷ failing_run.id ∷ [])

abbrev frontier_id : Text
frontier_id = hashed_id outside (str "c_") (run_task ∷ frontier_subject ∷ failing_run.id ∷ [])

fresh : (j : Text) → id_count j Projection.default + times j (claim_ids_of outside failing_run) ≤ 1
unfolding claim_ids_of run_of trimmed str_at i64_at trim trim_start trim_end keep_end is_whitespace
    collapse_ws words_from flush join str text_eq run_ids hashed_id hash_input as_bytes encode_char
    take shell_subject task_id_for_subject count
fresh j = omega (arith, two-times reality_id frontier_id j refl)

fold_event-fails_example :
    has_failing_reality (fold_event outside Projection.default failing_run) run_task ≡ true
unfolding run_of trimmed str_at i64_at trim trim_start trim_end keep_end is_whitespace collapse_ws
    words_from flush join str text_eq
fold_event-fails_example =
    fold_event-fails outside Projection.default failing_run (108 ∷ 115 ∷ []) (pos 1) refl refl refl
      fresh
