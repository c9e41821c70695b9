-- ===== src/Broker/Drafts.antt =====
-- How crates/broker/src/extract.rs quotes a note: the drafts of `drafts_for_note`.
use contextd.Prelude.{
  ℕ, suc, ◌+◌, ◌-◌, Bool, false, ◌&&◌, ◌||◌, Option, none, some, List, [], ◌∷◌, ◌++◌, min, ltb, leb,
  ◌%◌, ◌==◌, if◌then◌else◌,
}
use contextd.Text.{Text, str, text_eq, trim, starts_with, ends_with, contains}
use contextd.Core.Event.{RawEvent}
use contextd.Core.Claim.{frontier_subject}
use contextd.Broker.Words.{
  collapse, contains_phrase, starts_word, starts_phrase, content_overlap, sentences, has_word,
  normative,
}
use contextd.Broker.Handoff.{Candidate, Extractor, payload_str, is_shell}

abbrev pub min_overlap : ℕ
min_overlap = 2

pub data Natural : Type 0 where
  hypothesis next_action ruled_out reality : Natural

-- `b'b' + (index as u8 - 1).min(24)`: the subtraction stops the program in a debug build and
-- wraps in a release build when the low byte is 0.
abbrev pub letter_at : ℕ → ℕ
letter_at byte = 98 + min (if byte == 0 then 255 else byte - 1) 24

unfoldable pub suffix_for : ℕ → Text
suffix_for index = if index == 0 then [] else letter_at (index % 256) ∷ []

module _ {V : Type 0} (x : Extractor V) where
  abbrev evidence_of : RawEvent V → Option (RawEvent V) → List Text
  evidence_of note none = note.id ∷ []
  evidence_of note (some support) =
      if text_eq support.id note.id then note.id ∷ [] else note.id ∷ support.id ∷ []

  abbrev support_output : Option (RawEvent V) → Option Text
  support_output none = none
  support_output (some support) = some (payload_str x support (str "output"))

  unfoldable pub speech_draft :
      RawEvent V
      → Text
      → Text
      → Text × Text × Text
      → Text
      → Option Text
      → Option (RawEvent V)
      → Candidate
  speech_draft note text task (kind, origin, confidence) suffix subject support = record {
    claim_id = note.id ++ suffix;
    kind = kind;
    origin = origin;
    confidence = confidence;
    text = trim text;
    subject = subject;
    evidence_ids = evidence_of note support;
    source_text = payload_str x note (str "text");
    support_text = support_output support;
    task_subject = task;
  }

  -- The loop over the sentences that is in `drafts_for_note` and in `user_constraints`.
  unfoldable pub constraints_from : RawEvent V → Text → ℕ → List Text → List Candidate
  constraints_from note task index [] = []
  constraints_from note task index (sentence ∷ rest) =
      let drafts = constraints_from note task (suc index) rest in
      if normative x.to_lowercase sentence
      then speech_draft note sentence task (str "constraint", str "user", str "stated")
          (suffix_for index) none none
        ∷ drafts
      else drafts

  unfoldable pub user_constraints : RawEvent V → Text → Text → List Candidate
  user_constraints note text task = constraints_from note task 0 (sentences text)

  abbrev pub any_phrase : Text → List Text → Bool
  any_phrase lower [] = false
  any_phrase lower (phrase ∷ rest) = contains lower phrase || any_phrase lower rest

  unfoldable pub classify_natural : Text → Text → Option Natural
  classify_natural sentence support =
      let lower = x.to_lowercase sentence in
      if ends_with (trim sentence) (str "?")
      then none
      else if has_word x.to_lowercase lower (str "might")
          || has_word x.to_lowercase lower (str "maybe")
          || contains lower (str "not sure")
          || contains lower (str "could be")
      then some hypothesis
      else if starts_with lower (str "i'll")
          || starts_with lower (str "i will")
          || starts_with lower (str "next i'll")
      then some next_action
      else if ltb (content_overlap sentence support) min_overlap
      then none
      else if any_phrase lower (
          str "not the cause"
          ∷ str "isn't the cause"
          ∷ str "is not the cause"
          ∷ str "not involved"
          ∷ str "not the problem"
          ∷ [])
      then some ruled_out
      else some reality

  -- `support.filter(|event| event.source == EventSource::Shell)`
  abbrev pub shell_support : Option (RawEvent V) → Option (RawEvent V)
  shell_support none = none
  shell_support (some event) = if is_shell event then some event else none

  abbrev or_nothing : Option Text → Text
  or_nothing none = []
  or_nothing (some text) = text

  unfoldable pub natural_draft :
      RawEvent V → Text → Option (RawEvent V) → Text → ℕ → Natural → Candidate
  natural_draft note sentence support task index hypothesis =
      speech_draft note sentence task (str "unknown", str "agent", str "hypothesis")
        (suffix_for index) none none
  natural_draft note sentence support task index next_action =
      speech_draft note sentence task (str "next_action", str "agent", str "inferred")
        (suffix_for index) (some frontier_subject) none
  natural_draft note sentence support task index ruled_out =
      speech_draft note sentence task (str "ruled_out", str "agent", str "inferred")
        (suffix_for index) none (shell_support support)
  natural_draft note sentence support task index reality =
      speech_draft note sentence task (str "reality", str "agent", str "inferred")
        (suffix_for index) none (shell_support support)

  unfoldable pub naturals_from :
      RawEvent V → Option (RawEvent V) → Text → Text → ℕ → List Text → List Candidate
  naturals_from note support task output index [] = []
  naturals_from note support task output index (sentence ∷ rest) =
      let drafts = naturals_from note support task output (suc index) rest in
      elim (classify_natural sentence output) [
        | none ↦ drafts
        | some kind ↦ natural_draft note sentence support task index kind ∷ drafts
      ]

  unfoldable pub natural_drafts : RawEvent V → Text → Option (RawEvent V) → Text → List Candidate
  natural_drafts note text support task =
      naturals_from note support task (or_nothing (support_output (shell_support support))) 0
        (sentences text)

  unfoldable pub is_source_read : Option (RawEvent V) → Bool
  is_source_read none = false
  is_source_read (some event) =
      let command = x.to_lowercase (collapse (payload_str x event (str "command"))) in
      is_shell event && (starts_word command (str "sed") || starts_word command (str "grep"))

  abbrev pub is_suspicion : Text → Bool
  is_suspicion lower =
      starts_phrase lower (str "first suspect")
      || starts_phrase lower (str "next suspect")
      || starts_word lower (str "idea")

  -- The source read that the note repeats, at the end of `drafts_for_note`.
  unfoldable pub read_drafts : RawEvent V → Text → Option (RawEvent V) → Text → List Candidate
  read_drafts note text support task =
      if is_source_read support
        && leb min_overlap (content_overlap text (or_nothing (support_output support)))
      then speech_draft note text task (str "reality", str "agent", str "inferred") [] none support
        ∷ []
      else []

  -- What follows the speech acts.
  unfoldable pub plain_drafts : RawEvent V → Text → Option (RawEvent V) → Text → List Candidate
  plain_drafts note text support task =
      if text_eq (payload_str x note (str "role")) (str "conclusion")
      then natural_drafts note text support task
      else read_drafts note text support task

  unfoldable pub drafts_for_note : RawEvent V → Text → Option (RawEvent V) → Text → List Candidate
  drafts_for_note note text support task =
      let lower = x.to_lowercase text in
      if has_word x.to_lowercase text (str "constraint")
      then constraints_from note task 0 (sentences text)
      else if starts_word lower (str "decision")
      then speech_draft note text task (str "decision", str "agent", str "inferred") [] none none
        ∷ []
      else if contains_phrase lower (str "ruled out")
          || has_word x.to_lowercase lower (str "rejected")
      then speech_draft note text task (str "ruled_out", str "agent", str "inferred") [] none none
        ∷ []
      else if starts_phrase lower (str "next step")
      then speech_draft note text task (str "next_action", str "agent", str "inferred") []
          (some frontier_subject) none
        ∷ []
      else if contains_phrase lower (str "out of scope")
      then speech_draft note text task (str "unknown", str "agent", str "hypothesis") [] none none
        ∷ []
      else if is_suspicion lower
      then []
      else if text_eq (payload_str x note (str "speaker")) (str "user")
      then elim (user_constraints note text task) [
        | [] ↦ plain_drafts note text support task
        | draft ∷ drafts ↦ draft ∷ drafts
      ]
      else plain_drafts note text support task

  unfoldable pub skip_reason : Text → Option (RawEvent V) → Text
  skip_reason text support =
      if is_suspicion (x.to_lowercase text)
      then str "open hypothesis; a later note has to close it before it is current"
      else if is_source_read support
      then str "note follows a file read but is not grounded in that output"
      else str "no load-bearing speech act"
