-- ===== src/Broker/Extract/Appended.antt =====
-- What the extraction of crates/broker/src/extract.rs does to the log.
use contextd.Prelude.{
  ◌≡◌, ◌≢◌, refl, ap, ◌∙◌, inl, inr, Bool, true, false, some, List, [], ◌∷◌, ◌++◌, append_assoc,
  if◌then◌else◌, arith, All, All-append, Bool-cases,
}
use contextd.Prelude.Result.{ok, then-ok, Result-cases}
use contextd.Text.{Text, str, contains}
use contextd.Core.Event.{RawEvent, EventSource}
use contextd.Core.Claim.{Claim, ClaimEvent, projector, user, agent, observed, origin_eq}
use contextd.Core.Validate.{validate}
use contextd.Memory.Project.{fold}
use contextd.Broker.Handoff.{Candidate, Extractor, HandoffReport, push_event, log_entry}
use contextd.Broker.Gate.{admit, check_claim}
use contextd.Broker.Gate.Admitted.{IsAdmissible, admit-IsAdmissible}
use contextd.Broker.Extract.{
  is_user, Extraction, appended, skipped, accept_or_record, accept_all, retraction, retract_then,
}

module _ {V : Type 0} (x : Extractor V) where
  -- A claim event that extraction has written: it passes the rules for its author, who is not the
  -- projector, and does not say that it was observed.
  pub record IsExtracted (entry : RawEvent V) : Type 0 where
    pub event : ClaimEvent
    pub encoded : entry.payload ≡ x.encode event
    pub sourced : entry.source ≡ EventSource.claim
    pub not_projector : origin_eq event.origin projector ≡ false
    pub not_observed : event.confidence ≢ some observed
    pub passes : validate event.origin event ≡ ok tt

  -- The log has grown at its end by events that extraction has written, and the view is its fold.
  pub record HasGrown (log : List (RawEvent V)) (st : Extraction x) : Type 0 where
    pub added : List (RawEvent V)
    pub grown : st.log ≡ log ++ added
    pub written : All IsExtracted added
    pub folded : st.projection ≡ fold x.out st.log

  appended-HasGrown :
      (log : List (RawEvent V)) (st : Extraction x) (event : ClaimEvent) (id : Text)
      → HasGrown log st
      → origin_eq event.origin projector ≡ false
      → event.confidence ≢ some observed
      → validate event.origin event ≡ ok tt
      → HasGrown log (appended x st event id)
  unfolding appended push_event
  appended-HasGrown log st event id h author sure passes = record {
    added = HasGrown.added h ++ log_entry x st.log event id ∷ [];
    grown =
        ap (λ (l : List (RawEvent V)). l ++ log_entry x st.log event id ∷ []) (HasGrown.grown h)
        ∙ append_assoc log (HasGrown.added h) (log_entry x st.log event id ∷ []);
    written =
        All-append IsExtracted (HasGrown.added h) (log_entry x st.log event id ∷ [])
          (HasGrown.written h) (entry, tt);
    folded = refl;
  }
    where
      entry : IsExtracted (log_entry x st.log event id)
      entry = record {
        event = event;
        encoded = refl;
        sourced = refl;
        not_projector = author;
        not_observed = sure;
        passes = passes;
      }

  -- A change of the report, or of what has been seen, leaves the log and the view.
  pub reported-HasGrown :
      (log : List (RawEvent V)) (st : Extraction x) (seen : List (Text × Text))
      (report : HandoffReport)
      → HasGrown log st
      → HasGrown log (record st { seen = seen; report = report })
  reported-HasGrown log st seen report h = record {
    added = HasGrown.added h;
    grown = HasGrown.grown h;
    written = HasGrown.written h;
    folded = HasGrown.folded h;
  }

  pub skipped-HasGrown :
      (log : List (RawEvent V)) (st : Extraction x) (unit reason : Text)
      → HasGrown log st
      → HasGrown log (skipped x st unit reason)
  skipped-HasGrown log st unit reason h = reported-HasGrown log st st.seen _ h

  pub accept_or_record-HasGrown :
      (log : List (RawEvent V)) (st : Extraction x) (c : Candidate)
      → HasGrown log st
      → HasGrown log (accept_or_record x st c)
  unfolding accept_or_record
  accept_or_record-HasGrown log st c h =
      elim (Result-cases (admit x c st.projection st.seen st.log)) [
        | inl (event, accepted) ↦
            let good = admit-IsAdmissible x c st.projection st.seen st.log event accepted in
            rw (accepted, accept_or_record)
              (reported-HasGrown log (appended x st event (str "c2_" ++ c.claim_id)) _ _ (
                appended-HasGrown log st event (str "c2_" ++ c.claim_id) h
                  (IsAdmissible.not_projector good) (IsAdmissible.not_observed good)
                  (IsAdmissible.passes good)))
        | inr (reason, refused) ↦ elim (Bool-cases (contains reason (str "duplicate"))) [
          | inl duplicate ↦
              rw (refused, accept_or_record, duplicate)
                (skipped-HasGrown log st c.claim_id reason h)
          | inr other ↦ rw (refused, accept_or_record, other) (reported-HasGrown log st st.seen _ h)
        ]
      ]

  pub accept_all-HasGrown :
      (log : List (RawEvent V)) (st : Extraction x) (candidates : List Candidate)
      → HasGrown log st
      → HasGrown log (accept_all x st candidates)
  unfolding accept_all
  accept_all-HasGrown log st [] h = h
  accept_all-HasGrown log st (c ∷ candidates) h =
      accept_all-HasGrown log (accept_or_record x st c) candidates
        (accept_or_record-HasGrown log st c h)

  -- A retraction that passes the rules, and a rest that only lets the log grow.
  pub retract_then-HasGrown :
      (log : List (RawEvent V)) (st : Extraction x) (note : RawEvent V) (target : Claim)
      (next : Extraction x → Extraction x)
      → ((s : Extraction x) → HasGrown log s → HasGrown log (next s))
      → HasGrown log st
      → HasGrown log (retract_then x st note target next)
  unfolding retract_then check_claim origin_eq
  retract_then-HasGrown log st note target next grows h =
      elim (Result-cases (check_claim x st.projection (retraction x note target))) [
        | inl (done, passed) ↦
            let (passes, fits) =
              then-ok (validate (retraction x note target).origin (retraction x note target)) _ tt
                passed in
            rw (passed, retract_then)
              (grows _ (
                appended-HasGrown log st (retraction x note target) (str "c2_retract_" ++ note.id) h
                  (author (is_user target.origin)) (λ e. ground arith) passes))
        | inr (reason, refused) ↦
            rw (refused, retract_then) (skipped-HasGrown log st note.id reason h)
      ]
    where
      author : (b : Bool) → origin_eq (if b then user else agent) projector ≡ false
      author true = refl
      author false = refl
