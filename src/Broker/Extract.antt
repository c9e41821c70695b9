-- ===== src/Broker/Extract.antt =====
-- The extraction of crates/broker/src/extract.rs: what of a log's notes becomes a claim of the log.
-- The log, the claim view, what has been seen and the report are one state, which a handler returns.
pub mod Appended
pub mod Grown
use contextd.Prelude.{
  ℕ, zero, suc, ◌+◌, Bool, true, false, not, ◌&&◌, ◌||◌, Option, none, some, List, [], ◌∷◌, ◌++◌,
  ltb, ◌==◌, if◌then◌else◌, any, find?, length,
}
use contextd.Prelude.Result.{Result, ok, err, ◌>>=◌, ◌>>◌, reject_if, ok_or}
use contextd.Text.{Text, str, text_eq, is_empty, trim, contains}
use contextd.Core.Event.{RawEvent, EventSource, source_eq}
use contextd.Core.Claim.{
  Claim, ClaimEvent, ClaimKind, ClaimConfidence, ClaimOrigin, assert, supersede, projector, user,
  agent, observed, reality, next_action, kind_eq, origin_eq, confidence_eq, kind_parse,
  origin_parse, confidence_parse, frontier_subject,
}
use contextd.Core.Projection.{Projection}
use contextd.Core.Validate.{validate, validate_against_projection}
use contextd.Memory.Project.{fold, task_id_for_subject}
use contextd.Broker.Words.{collapse, starts_word, content_overlap}
use contextd.Broker.Handoff.{
  Candidate, admitted, retracted, HandoffReport, empty_report, skip, Extractor, payload_str,
  event_by_id, sort_log, push_event, seed_seen, cited_notes, note_task, task_for, support_by_id,
  support_event, is_failing_subject, longest_quoted_claim, current_with_text, pair_eq, is_shell,
}
use contextd.Broker.Drafts.{min_overlap, drafts_for_note, natural_drafts, skip_reason}
use contextd.Broker.Gate.{is_note, note_text, seen_key, check_claim, admit}

abbrev pub max_text : ℕ
max_text = 500

abbrev pub is_user : ClaimOrigin → Bool
is_user user = true
is_user _ = false

module _ {V : Type 0} (x : Extractor V) where
  pub record Extraction : Type 0 where
    pub log : List (RawEvent V)
    pub projection : Projection
    pub seen : List (Text × Text)
    pub report : HandoffReport

  -- The log with one more claim event, the view folded again.
  unfoldable pub appended : Extraction → ClaimEvent → Text → Extraction
  appended st event id =
      let log = push_event x st.log event id in record st { log = log; projection = fold x.out log }

  abbrev pub skipped : Extraction → Text → Text → Extraction
  skipped st unit reason = record st { report = skip st.report unit reason }

  unfoldable pub accept_or_record : Extraction → Candidate → Extraction
  accept_or_record st c = elim (admit x c st.projection st.seen st.log) [
    | ok event ↦
        let next = appended st event (str "c2_" ++ c.claim_id) in
        record next {
          seen = st.seen ++ seen_key x c c.text ∷ [];
          report = record st.report { accepted = st.report.accepted ++ admitted c ∷ [] };
        }
    | err reason ↦
        if contains reason (str "duplicate") then skipped st c.claim_id reason else record st {
          report = record st.report {
            rejected = st.report.rejected ++ record { unit = c.claim_id; reason = reason } ∷ [];
          };
        }
  ]

  -- `for candidate in candidates`
  unfoldable pub accept_all : Extraction → List Candidate → Extraction
  accept_all st [] = st
  accept_all st (c ∷ candidates) = accept_all (accept_or_record st c) candidates

  unfoldable pub admit_candidates : List (RawEvent V) → List Candidate → Extraction
  admit_candidates events candidates =
      let log = sort_log x events in
      accept_all
        (record {
          log = log;
          projection = fold x.out log;
          seen = seed_seen x log;
          report = empty_report;
        })
        candidates

  unfoldable pub is_protected : Claim → Bool
  is_protected target =
      origin_eq target.origin projector || confidence_eq target.confidence observed

  abbrev pub retraction : RawEvent V → Claim → ClaimEvent
  retraction note target = record {
    op = supersede;
    claim_id = str "retract_" ++ note.id;
    task_id = target.task_id;
    kind = none;
    subject = none;
    text = none;
    confidence = none;
    origin = if is_user target.origin then user else agent;
    outcome = none;
    artifact_refs = [];
    evidence_ids = note.id ∷ [];
    supersedes = some target.id;
  }

  -- `push_event` of the retraction, unless a rule refuses it; then the rest on the new state.
  unfoldable pub retract_then :
      Extraction → RawEvent V → Claim → (Extraction → Extraction) → Extraction
  retract_then st note target next = elim (check_claim x st.projection (retraction note target)) [
    | err reason ↦ skipped st note.id reason
    | ok passed ↦ next (appended st (retraction note target) (str "c2_retract_" ++ note.id))
  ]

  abbrev pub report_retracted : RawEvent V → Claim → Extraction → Extraction
  report_retracted note target st = record st {
    report = record st.report {
      accepted = st.report.accepted ++ retracted (str "retract_" ++ note.id) target.id note.id ∷ [];
    };
  }

  unfoldable pub retract_note : Extraction → RawEvent V → Text → Extraction
  retract_note st note text = elim (longest_quoted_claim st.projection text) [
    | none ↦ skipped st note.id (str "retract does not quote a current claim")
    | some target ↦
        if is_protected target
        then skipped st note.id (str "cannot retract an observed reality")
        else retract_then st note target (report_retracted note target)
  ]

  -- The trial of every draft against a copy of what has been seen: the first refusal, if any.
  unfoldable pub trial : Extraction → List (Text × Text) → List Candidate → Option Text
  trial st scratch [] = none
  trial st scratch (c ∷ drafts) = elim (admit x c st.projection scratch st.log) [
    | err reason ↦ some reason
    | ok event ↦ trial st (scratch ++ seen_key x c c.text ∷ []) drafts
  ]

  -- The end of `update_note`, on drafts that are there.
  unfoldable pub replace_claim : Extraction → RawEvent V → Claim → List Candidate → Extraction
  replace_claim st note target drafts = elim (trial st st.seen drafts) [
    | some reason ↦ skipped st note.id reason
    | none ↦ retract_then st note target (λ next. accept_all next drafts)
  ]

  -- The note with its role set to a conclusion.
  abbrev pub forced : RawEvent V → RawEvent V
  forced note = record note { payload = x.insert note.payload (str "role") (str "conclusion") }

  unfoldable pub update_note : Extraction → RawEvent V → Text → Extraction
  update_note st note text =
      elim (current_with_text st.projection (payload_str x note (str "replaces_text"))) [
        | none ↦ skipped st note.id (str "update does not name a current claim")
        | some target ↦ elim (is_protected target) [
          | true ↦ skipped st note.id (str "cannot retract an observed reality")
          | false ↦ elim (note_task x st.log note) [
            | none ↦ skipped st note.id (str "session has no command that is still failing")
            | some task_event ↦
                elim (natural_drafts x (forced note) text (support_by_id x st.log note)
                  (task_for x task_event)) [
                    | [] ↦ skipped st note.id (str "update is not a grounded claim")
                    | draft ∷ drafts ↦ replace_claim st note target (draft ∷ drafts)
                  ]
          ]
        ]
      ]

  abbrev pub or_none : Option Text → Text
  or_none none = []
  or_none (some text) = text

  -- What the loop of `apply_extraction` asks of a draft before the gate: the first complaint.
  unfoldable pub complaint : Candidate → Option Text
  complaint c =
      if not (contains c.source_text c.text) || is_empty c.text
      then some (str "candidate is not a verbatim span of the note")
      else if ltb max_text (length c.text)
      then some (str "candidate text is empty or longer than 500 characters")
      else if text_eq c.kind (str "reality")
          && ltb (content_overlap c.text (or_none c.support_text)) min_overlap
      then some (str "inference is not grounded in the preceding tool output")
      else none

  unfoldable pub offer_all : Extraction → RawEvent V → List Candidate → Extraction
  offer_all st note [] = st
  offer_all st note (c ∷ drafts) = elim (complaint c) [
    | some reason ↦ offer_all (skipped st note.id reason) note drafts
    | none ↦ offer_all (accept_or_record st c) note drafts
  ]

  unfoldable pub quote_note : Extraction → RawEvent V → Text → ℕ → Extraction
  quote_note st note text index = elim (note_task x st.log note) [
    | none ↦ skipped st note.id (str "session has no command that is still failing")
    | some task_event ↦
        let support = support_event x st.log note index in
        elim (drafts_for_note x note text support (task_for x task_event)) [
          | [] ↦ skipped st note.id (skip_reason x text support)
          | draft ∷ drafts ↦ offer_all st note (draft ∷ drafts)
        ]
  ]

  abbrev pub is_retraction : RawEvent V → Text → Bool
  is_retraction note text =
      text_eq (payload_str x note (str "role")) (str "retract")
      || starts_word (x.to_lowercase text) (str "retract")

  -- The body of the loop, for a note that no claim cites.
  unfoldable pub extract_note : Extraction → RawEvent V → ℕ → Extraction
  extract_note st note index =
      let text = trim (note_text x note) in
      if is_empty text
      then skipped st note.id (str "empty note")
      else if is_retraction note text
      then retract_note st note text
      else if text_eq (payload_str x note (str "role")) (str "update")
      then update_note st note text
      else quote_note st note text index

  -- The loop over the events that were there at the start; the log only grows behind them.
  unfoldable pub extract_from : List Text → ℕ → List (RawEvent V) → Extraction → Extraction
  extract_from applied index [] st = st
  extract_from applied index (event ∷ events) st = extract_from applied (suc index) events (
      if is_note event && not (any (text_eq event.id) applied)
      then extract_note st event index
      else st)

  unfoldable pub apply_extraction : List (RawEvent V) → Extraction
  apply_extraction events =
      let log = sort_log x events in
      extract_from (cited_notes x log) 0 log (record {
        log = log;
        projection = fold x.out log;
        seen = seed_seen x log;
        report = empty_report;
      })
