-- ===== src/Broker/Extract/Grown.antt =====
-- How the loops of crates/broker/src/extract.rs let the log grow.
use contextd.Prelude.{
  ℕ, suc, refl, sym, inl, inr, not, ◌&&◌, List, [], ◌∷◌, append-nil, any, Bool-cases, Option-cases,
  List-cases,
}
use contextd.Text.{Text, str, text_eq, is_empty, trim}
use contextd.Core.Event.{RawEvent}
use contextd.Core.Claim.{Claim}
use contextd.Memory.Project.{fold}
use contextd.Broker.Handoff.{
  Candidate, Extractor, HandoffReport, sort_log, longest_quoted_claim, current_with_text, note_task,
  task_for, support_by_id, support_event, cited_notes, payload_str,
}
use contextd.Broker.Gate.{note_text, is_note}
use contextd.Broker.Extract.{
  Extraction, skipped, accept_or_record, accept_all, admit_candidates, retract_note, replace_claim,
  update_note, offer_all, quote_note, extract_note, extract_from, apply_extraction,
}
use contextd.Broker.Drafts.{drafts_for_note, natural_drafts}
use contextd.Broker.Extract.{
  is_protected, trial, report_retracted, forced, complaint, is_retraction,
}
use contextd.Broker.Extract.Appended.{
  HasGrown, accept_or_record-HasGrown, accept_all-HasGrown, retract_then-HasGrown, skipped-HasGrown,
  reported-HasGrown,
}

module _ {V : Type 0} (x : Extractor V) (log : List (RawEvent V)) where
  -- A handler that only lets the log grow.
  abbrev Grows : (Extraction x → Extraction x) → Type 0
  Grows handler = (st : Extraction x) → HasGrown x log st → HasGrown x log (handler st)

  retract_note-HasGrown :
      (note : RawEvent V) (text : Text) → Grows (λ st. retract_note x st note text)
  unfolding retract_note
  retract_note-HasGrown note text st h =
      elim (Option-cases (longest_quoted_claim st.projection text)) [
        | inl no_claim ↦ rw (no_claim, retract_note) (skipped-HasGrown x log st note.id _ h)
        | inr (target, quoted) ↦ elim (Bool-cases (is_protected x target)) [
          | inl protected ↦
              rw (quoted, retract_note, protected) (skipped-HasGrown x log st note.id _ h)
          | inr free ↦
              rw (quoted, retract_note, free)
                (retract_then-HasGrown x log st note target (report_retracted x note target)
                  (λ s g. reported-HasGrown x log s s.seen _ g) h)
        ]
      ]

  replace_claim-HasGrown :
      (note : RawEvent V) (target : Claim) (drafts : List Candidate)
      → Grows (λ st. replace_claim x st note target drafts)
  unfolding replace_claim
  replace_claim-HasGrown note target drafts st h = elim (Option-cases (trial x st st.seen drafts)) [
    | inl passed ↦
        rw (passed, replace_claim)
          (retract_then-HasGrown x log st note target (λ next. accept_all x next drafts)
            (λ s g. accept_all-HasGrown x log s drafts g) h)
    | inr (reason, refused) ↦
        rw (refused, replace_claim) (skipped-HasGrown x log st note.id reason h)
  ]

  update_note-HasGrown :
      (note : RawEvent V) (text : Text) → Grows (λ st. update_note x st note text)
  unfolding update_note
  update_note-HasGrown note text st h =
      elim (Option-cases
        (current_with_text st.projection (payload_str x note (str "replaces_text")))) [
          | inl no_claim ↦ rw (no_claim, update_note) (skipped-HasGrown x log st note.id _ h)
          | inr (target, named) ↦ elim (Bool-cases (is_protected x target)) [
            | inl protected ↦
                rw (named, update_note, protected) (skipped-HasGrown x log st note.id _ h)
            | inr free ↦ elim (Option-cases (note_task x st.log note)) [
              | inl no_task ↦
                  rw (named, update_note, free, no_task) (skipped-HasGrown x log st note.id _ h)
              | inr (task_event, failing) ↦
                  elim (List-cases (
                    natural_drafts x (forced x note) text (support_by_id x st.log note)
                      (task_for x task_event))) [
                        | inl no_draft ↦
                            rw (named, update_note, free, failing, no_draft)
                              (skipped-HasGrown x log st note.id _ h)
                        | inr (draft, drafts, found) ↦
                            rw (named, update_note, free, failing, found)
                              (replace_claim-HasGrown note target (draft ∷ drafts) st h)
                      ]
            ]
          ]
        ]

  offer_all-HasGrown :
      (note : RawEvent V) (drafts : List Candidate) → Grows (λ st. offer_all x st note drafts)
  unfolding offer_all
  offer_all-HasGrown note [] st h = h
  offer_all-HasGrown note (c ∷ drafts) st h = elim (Option-cases (complaint x c)) [
    | inl fine ↦
        rw (fine, offer_all)
          (offer_all-HasGrown note drafts (accept_or_record x st c)
            (accept_or_record-HasGrown x log st c h))
    | inr (reason, refused) ↦
        rw (refused, offer_all)
          (offer_all-HasGrown note drafts (skipped x st note.id reason)
            (skipped-HasGrown x log st note.id reason h))
  ]

  quote_note-HasGrown :
      (note : RawEvent V) (text : Text) (index : ℕ) → Grows (λ st. quote_note x st note text index)
  unfolding quote_note
  quote_note-HasGrown note text index st h = elim (Option-cases (note_task x st.log note)) [
    | inl no_task ↦ rw (no_task, quote_note) (skipped-HasGrown x log st note.id _ h)
    | inr (task_event, failing) ↦
        elim (List-cases (
          drafts_for_note x note text (support_event x st.log note index)
            (task_for x task_event))) [
              | inl no_draft ↦
                  rw (failing, quote_note, no_draft) (skipped-HasGrown x log st note.id _ h)
              | inr (draft, drafts, found) ↦
                  rw (failing, quote_note, found) (offer_all-HasGrown note (draft ∷ drafts) st h)
            ]
  ]

  extract_note-HasGrown :
      (note : RawEvent V) (index : ℕ) → Grows (λ st. extract_note x st note index)
  unfolding extract_note
  extract_note-HasGrown note index st h =
      let text = trim (note_text x note) in
      elim (Bool-cases (is_empty text)) [
        | inl blank ↦ rw blank (skipped-HasGrown x log st note.id _ h)
        | inr inked ↦ elim (Bool-cases (is_retraction x note text)) [
          | inl retracts ↦ rw (inked, retracts) (retract_note-HasGrown note text st h)
          | inr keeps ↦
              elim (Bool-cases (text_eq (payload_str x note (str "role")) (str "update"))) [
                | inl updates ↦ rw (inked, keeps, updates) (update_note-HasGrown note text st h)
                | inr quotes ↦ rw (inked, keeps, quotes) (quote_note-HasGrown note text index st h)
              ]
        ]
      ]

  extract_from-HasGrown :
      (applied : List Text) (index : ℕ) (events : List (RawEvent V))
      → Grows (λ st. extract_from x applied index events st)
  unfolding extract_from
  extract_from-HasGrown applied index [] st h = h
  extract_from-HasGrown applied index (event ∷ events) st h =
      elim (Bool-cases (is_note event && not (any (text_eq event.id) applied))) [
        | inl noted ↦
            rw (noted, extract_from)
              (extract_from-HasGrown applied (suc index) events (extract_note x st event index)
                (extract_note-HasGrown event index st h))
        | inr other ↦
            rw (other, extract_from) (extract_from-HasGrown applied (suc index) events st h)
      ]

module _ {V : Type 0} (x : Extractor V) where
  start-HasGrown :
      (log : List (RawEvent V)) (seen : List (Text × Text)) (report : HandoffReport)
      → HasGrown x log
          (record { log = log; projection = fold x.out log; seen = seen; report = report })
  start-HasGrown log seen report = record {
    added = [];
    grown = sym (append-nil log);
    written = tt;
    folded = refl;
  }

  -- For every log: extraction keeps the sorted log and adds to its end; each entry that it adds is a
  -- claim event that passes the rules for its author, who is not the projector, and that says no
  -- observation; and the claim view that it leaves is the fold of the log that it leaves.
  pub apply_extraction-HasGrown :
      (events : List (RawEvent V)) → HasGrown x (sort_log x events) (apply_extraction x events)
  unfolding apply_extraction
  apply_extraction-HasGrown events =
      let log = sort_log x events in
      extract_from-HasGrown x log (cited_notes x log) 0 log _ (start-HasGrown log _ _)

  -- The same for candidates that are handed in.
  pub admit_candidates-HasGrown :
      (events : List (RawEvent V)) (candidates : List Candidate)
      → HasGrown x (sort_log x events) (admit_candidates x events candidates)
  unfolding admit_candidates
  admit_candidates-HasGrown events candidates =
      let log = sort_log x events in accept_all-HasGrown x log _ candidates (start-HasGrown log _ _)
