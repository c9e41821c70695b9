-- ===== src/Examples/Notes.antt =====
-- The theorems on extraction, at a failing command and a note on it.
use contextd.Prelude.{◌≡◌, ◌≢◌, any, find?, refl, Option, none, some, List, [], ◌∷◌, if◌then◌else◌}
use contextd.Prelude.Int.{ℤ, pos}
use contextd.Prelude.Result.{ok}
use contextd.Text.{
  Text, str, text_eq, trim, trim_start, trim_end, keep_end, is_whitespace, contains, starts_with,
  words_from, flush, join,
}
use contextd.Json.{Json, str_at, i64_at}
use contextd.Core.Event.{RawEvent, EventSource, source_eq}
use contextd.Core.Claim.{
  ClaimEvent, agent, decision, inferred, origin_parse, origin_str, origin_eq, kind_parse, kind_str,
  confidence_parse, confidence_str, kind_eq, confidence_eq,
}
use contextd.Core.Validate.{
  validate, validate_op, validate_content, trimmed, validate_role, validate_against_projection,
  validate_target, replaced_id,
}
use contextd.Core.Projection
use contextd.Core.Projection.{Projection}
use contextd.Memory.Project.{shell_subject, collapse_ws}
use contextd.Broker.Handoff.{
  Candidate, Extractor, task_for, sort_log, payload_str, event_by_id, is_failing_subject,
  subjects_from,
}
use contextd.Broker.Gate.{
  admit, parse_candidate, parse_author, parse_kind, parse_confidence, admit_parsed, checks,
  check_quote, check_evidence, check_note, cited_note, check_span, check_task, admit_checked,
  admit_subject, subject_of, accept_event, check_claim, claim_event,
}
use contextd.Broker.Gate.Admitted.{IsAdmissible, admit-IsAdmissible}
use contextd.Broker.Gate.Homeless.{admit-homeless}
use contextd.Broker.Extract.{apply_extraction}
use contextd.Broker.Extract.Appended.{HasGrown}
use contextd.Broker.Extract.Grown.{apply_extraction-HasGrown}

-- A payload: a text, a number, a claim, or named texts with an exit code.
data Node : Type 0 where
  word : Text → Node
  number : ℤ → Node
  claimed : ClaimEvent → Node
  object : List (Text × Text) → Option ℤ → Node

abbrev lookup : Text → List (Text × Text) → Option Node
lookup key [] = none
lookup key ((k, text) ∷ fields) =
    let rest = lookup key fields in if text_eq k key then some (word text) else rest

abbrev field : Node → Text → Option Node
field (object fields code) key =
    if text_eq key (str "exit_code")
    then elim code [ none ↦ none | some n ↦ some (number n) ]
    else lookup key fields
field _ key = none

abbrev as_word : Node → Option Text
as_word (word t) = some t
as_word _ = none

abbrev as_number : Node → Option ℤ
as_number (number n) = some n
as_number _ = none

abbrev json : Json Node
json = record {
  get = field;
  as_str = as_word;
  as_i64 = as_number;
  as_u64 = λ v. none;
  to_string = λ v. [];
}

abbrev decoded : Node → Option ClaimEvent
decoded (claimed e) = some e
decoded _ = none

abbrev inserted : Node → Text → Text → Node
inserted (object fields code) key text = object ((key, text) ∷ fields) code
inserted v key text = v

abbrev extractor : Extractor Node
extractor = record {
  out = record { json = json; decode = decoded; digest = λ bytes. bytes };
  to_lowercase = λ text. text;
  encode = claimed;
  insert = inserted;
}

-- "ls" has failed in "/", and a note says "no".
abbrev failing : Text → RawEvent Node
failing cwd = record {
  id = 49 ∷ [];
  timestamp_ms = 1;
  source = EventSource.shell;
  payload = object ((str "command", 108 ∷ 115 ∷ []) ∷ (str "cwd", cwd) ∷ []) (some (pos 1));
}

abbrev noted : RawEvent Node
noted = record {
  id = 50 ∷ [];
  timestamp_ms = 2;
  source = EventSource.note;
  payload = object ((str "text", 110 ∷ 111 ∷ []) ∷ []) none;
}

abbrev log : List (RawEvent Node)
log = failing (47 ∷ []) ∷ noted ∷ []

abbrev candidate : RawEvent Node → Candidate
candidate task = record {
  claim_id = 50 ∷ [];
  kind = str "decision";
  origin = str "agent";
  confidence = str "inferred";
  text = 110 ∷ 111 ∷ [];
  subject = none;
  evidence_ids = (50 ∷ []) ∷ [];
  source_text = 110 ∷ 111 ∷ [];
  support_text = none;
  task_subject = task_for extractor task;
}

apply_extraction-HasGrown_example :
    HasGrown extractor (sort_log extractor log) (apply_extraction extractor log)
apply_extraction-HasGrown_example = apply_extraction-HasGrown extractor log

homeless : trim (payload_str extractor (failing []) (str "cwd")) ≡ []
unfolding trim payload_str str text_eq str_at trim_start trim_end
homeless = refl

-- The claim that the note makes.
abbrev event_of : RawEvent Node → ClaimEvent
event_of task =
    claim_event extractor (candidate task)
      (record { origin = agent; kind = decision; confidence = inferred }) (50 ∷ [])

admit-homeless_example :
    admit extractor (candidate (failing [])) Projection.default [] (failing [] ∷ noted ∷ [])
    ≢ ok (event_of (failing []))
admit-homeless_example =
    admit-homeless extractor (failing []) (candidate (failing [])) Projection.default []
      (failing [] ∷ noted ∷ []) (event_of (failing [])) homeless refl

log-admitted :
    admit extractor (candidate (failing (47 ∷ []))) Projection.default [] log
    ≡ ok (event_of (failing (47 ∷ [])))
unfolding admit parse_candidate origin_parse text_eq str origin_str parse_author origin_eq
    parse_kind kind_parse kind_str parse_confidence confidence_parse confidence_str admit_parsed
    checks check_quote check_evidence event_by_id find? check_note cited_note source_eq check_span
    trim trim_start trim_end keep_end is_whitespace contains starts_with payload_str str_at
    check_task is_failing_subject subjects_from task_for shell_subject collapse_ws words_from flush
    join i64_at any kind_eq confidence_eq admit_checked admit_subject subject_of accept_event
    check_claim validate validate_op validate_content trimmed validate_role
    validate_against_projection validate_target replaced_id
log-admitted = refl

admit-IsAdmissible_example :
    IsAdmissible extractor
      (candidate (failing (47 ∷ [])))
      Projection.default
      []
      log
      (event_of (failing (47 ∷ [])))
admit-IsAdmissible_example =
    admit-IsAdmissible extractor (candidate (failing (47 ∷ []))) Projection.default [] log
      (event_of (failing (47 ∷ []))) log-admitted
