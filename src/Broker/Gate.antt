-- ===== src/Broker/Gate.antt =====
-- The gate of crates/broker/src/extract.rs: `admit`, which turns a candidate into a claim event.
pub mod Admitted
pub mod Homeless
use contextd.Prelude.{
  ℕ, zero, suc, ◌+◌, Bool, true, false, not, ◌&&◌, ◌||◌, Option, none, some, List, [], ◌∷◌, ◌++◌,
  ltb, ◌==◌, if◌then◌else◌, any, find?, length,
}
use contextd.Prelude.Result.{Result, ok, err, ◌>>=◌, ◌>>◌, reject_if, ok_or, all_checks}
use contextd.Text.{Text, str, text_eq, is_empty, trim, contains}
use contextd.Core.Event.{RawEvent, EventSource, source_eq}
use contextd.Core.Claim.{
  Claim, ClaimEvent, ClaimKind, ClaimConfidence, ClaimOrigin, assert, supersede, projector, user,
  agent, observed, reality, next_action, kind_eq, origin_eq, confidence_eq, kind_parse,
  origin_parse, confidence_parse, frontier_subject,
}
use contextd.Core.Projection.{Projection}
use contextd.Core.Validate.{validate, validate_against_projection}
use contextd.Memory.Project.{fold, task_id_for_subject}
use contextd.Broker.Words.{collapse, starts_word, content_overlap}
use contextd.Broker.Handoff.{
  Candidate, admitted, retracted, HandoffReport, empty_report, skip, Extractor, payload_str,
  event_by_id, sort_log, push_event, seed_seen, cited_notes, note_task, task_for, support_by_id,
  support_event, is_failing_subject, longest_quoted_claim, current_with_text, pair_eq, is_shell,
}
use contextd.Broker.Drafts.{min_overlap, drafts_for_note, natural_drafts, skip_reason}

abbrev pub is_note : {V : Type 0} → RawEvent V → Bool
is_note event = source_eq event.source EventSource.note

-- The locals of `admit` after the parsing.
pub record Parsed : Type 0 where
  pub origin : ClaimOrigin
  pub kind : ClaimKind
  pub confidence : ClaimConfidence

unfoldable pub parse_confidence : Candidate → ClaimOrigin → ClaimKind → Result Text Parsed
parse_confidence c origin kind = do
  confidence ← ok_or (confidence_parse c.confidence) (str "unknown confidence " ++ c.confidence)
  ok record { origin = origin; kind = kind; confidence = confidence }

unfoldable pub parse_kind : Candidate → ClaimOrigin → Result Text Parsed
parse_kind c origin = do
  kind ← ok_or (kind_parse c.kind) (str "unknown kind " ++ c.kind)
  parse_confidence c origin kind

unfoldable pub parse_author : Candidate → ClaimOrigin → Result Text Parsed
parse_author c origin = do
  reject_if (origin_eq origin projector)
      (str "projector claims are derived from the log, not extracted")
  parse_kind c origin

unfoldable pub parse_candidate : Candidate → Result Text Parsed
parse_candidate c = do
  origin ← ok_or (origin_parse c.origin) (str "unknown origin " ++ c.origin)
  parse_author c origin

unfoldable pub subject_of : ClaimKind → Candidate → Result Text Text
subject_of kind c =
    if kind_eq kind next_action
    then elim c.subject [
      | none ↦ err (str "a next action must use the frontier subject")
      | some subject ↦
          if text_eq subject frontier_subject
          then ok frontier_subject
          else err (str "a next action must use the frontier subject")
    ]
    else elim c.subject [
      | none ↦ ok c.claim_id
      | some subject ↦ if is_empty subject then ok c.claim_id else ok subject
    ]

module _ {V : Type 0} (x : Extractor V) where
  unfoldable pub check_evidence : List (RawEvent V) → List Text → Result Text (Unit {0})
  check_evidence events [] = ok tt
  check_evidence events (id ∷ ids) = elim (event_by_id x events id) [
    | none ↦ err (str "evidence id " ++ id ++ str " is not in the event log")
    | some event ↦ check_evidence events ids
  ]

  -- The event of the first evidence id, if it is a note.
  unfoldable pub cited_note : List (RawEvent V) → List Text → Option (RawEvent V)
  cited_note events [] = none
  cited_note events (id ∷ ids) = elim (event_by_id x events id) [
    | none ↦ none
    | some event ↦ if is_note event then some event else none
  ]

  abbrev pub note_text : RawEvent V → Text
  note_text note = payload_str x note (str "text")

  -- What is asked of the candidate and its note.
  unfoldable pub check_span : Candidate → RawEvent V → Result Text (Unit {0})
  check_span c note =
      reject_if
        (is_empty (trim c.text)
          || not (contains (note_text note) (trim c.text))
          || not (text_eq c.source_text (note_text note)))
        (str "claim text is not a verbatim span of the source note")

  unfoldable pub check_note : List (RawEvent V) → Candidate → Result Text (Unit {0})
  check_note events c =
      ok_or (cited_note events c.evidence_ids) (str "first evidence id is not a note")
      >>= check_span c

  abbrev pub quote_checks : List (RawEvent V) → Candidate → List (Result Text (Unit {0}))
  quote_checks events c =
      reject_if (elim c.evidence_ids [ [] ↦ true | id ∷ ids ↦ false ])
        (str "claim has no evidence id")
      ∷ check_evidence events c.evidence_ids
      ∷ check_note events c
      ∷ []

  unfoldable pub check_quote : List (RawEvent V) → Candidate → Result Text (Unit {0})
  check_quote events c = all_checks (quote_checks events c)

  abbrev pub task_checks : List (RawEvent V) → Candidate → List (Result Text (Unit {0}))
  task_checks events c =
      reject_if (is_empty (trim c.task_subject)) (str "claim has no task subject")
      ∷ reject_if (not (is_failing_subject x events (trim c.task_subject)))
          (str "claim is not attached to a command that is still failing")
      ∷ []

  unfoldable pub check_task : List (RawEvent V) → Candidate → Result Text (Unit {0})
  check_task events c = all_checks (task_checks events c)

  abbrev pub seen_key : Candidate → Text → Text × Text
  seen_key c text = (c.kind, x.to_lowercase (collapse text))

  -- `find_map` of the evidence ids to the first shell event
  unfoldable pub cited_shell : List (RawEvent V) → List Text → Option (RawEvent V)
  cited_shell events [] = none
  cited_shell events (id ∷ ids) =
      let rest = cited_shell events ids in
      elim (event_by_id x events id) [
        | none ↦ rest
        | some event ↦ if is_shell event then some event else rest
      ]

  abbrev pub differs : Option Text → Text → Bool
  differs none output = false
  differs (some support) output = not (text_eq support output)

  -- What is asked of the candidate and the output that it cites.
  abbrev pub output_checks : Candidate → RawEvent V → List (Result Text (Unit {0}))
  output_checks c support =
      let output = payload_str x support (str "output") in
      reject_if (differs c.support_text output)
        (str "support text does not match the cited shell output")
      ∷ reject_if (ltb (content_overlap (trim c.text) output) min_overlap)
          (str "inferred reality is not supported by the cited tool output")
      ∷ []

  unfoldable pub check_output : Candidate → RawEvent V → Result Text (Unit {0})
  check_output c support = all_checks (output_checks c support)

  unfoldable pub check_reality : List (RawEvent V) → Candidate → Result Text (Unit {0})
  check_reality events c =
      ok_or (cited_shell events c.evidence_ids) (str "inferred reality does not cite a shell event")
      >>= check_output c

  abbrev pub claim_event : Candidate → Parsed → Text → ClaimEvent
  claim_event c p subject = record {
    op = assert;
    claim_id = c.claim_id;
    task_id = task_id_for_subject x.out c.task_subject;
    kind = some p.kind;
    subject = some subject;
    text = some (trim c.text);
    confidence = some p.confidence;
    origin = p.origin;
    outcome = none;
    artifact_refs = [];
    evidence_ids = c.evidence_ids;
    supersedes = none;
  }

  -- What `admit` asks of a parsed candidate, in its order.
  unfoldable pub checks :
      Candidate → Parsed → List (Text × Text) → List (RawEvent V) → List (Result Text (Unit {0}))
  checks c p seen events =
      check_quote events c
      ∷ check_task events c
      ∷ reject_if (any (λ item. pair_eq item (seen_key c (trim c.text))) seen)
          (str "duplicate of a claim already admitted")
      ∷ (if kind_eq p.kind reality then check_reality events c else ok tt)
      ∷ reject_if (confidence_eq p.confidence observed)
          (str "an extracted claim cannot be marked observed")
      ∷ []

  -- The end of `admit`: both rules for claims.
  unfoldable pub check_claim : Projection → ClaimEvent → Result Text (Unit {0})
  check_claim projection event =
      validate event.origin event >> validate_against_projection event.origin event projection

  unfoldable pub accept_event : Projection → ClaimEvent → Result Text ClaimEvent
  accept_event projection event = check_claim projection event >> ok event

  -- `admit` from the trimmed text on, and from the subject on
  unfoldable pub admit_subject : Candidate → Projection → Parsed → Text → Result Text ClaimEvent
  admit_subject c projection p subject = accept_event projection (claim_event c p subject)

  unfoldable pub admit_checked : Candidate → Projection → Parsed → Result Text ClaimEvent
  admit_checked c projection p = do
    subject ← subject_of p.kind c
    admit_subject c projection p subject

  unfoldable pub admit_parsed :
      Candidate
      → Projection
      → List (Text × Text)
      → List (RawEvent V)
      → Parsed
      → Result Text ClaimEvent
  admit_parsed c projection seen events p =
      all_checks (checks c p seen events) >> admit_checked c projection p

  unfoldable pub admit :
      Candidate → Projection → List (Text × Text) → List (RawEvent V) → Result Text ClaimEvent
  admit c projection seen events = do p ← parse_candidate c; admit_parsed c projection seen events p
