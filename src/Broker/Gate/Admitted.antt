-- ===== src/Broker/Gate/Admitted.antt =====
-- What `admit` of crates/broker/src/extract.rs has checked of a candidate that it lets through.
use contextd.Prelude.{
  ◌≤◌, ◌≡◌, ◌≢◌, refl, sym, ap, subst, ◌++◌, Bool, true, false, not, ◌||◌, some, List,
  if◌then◌else◌, any, arith, ltb-false→le,
}
use contextd.Prelude.Result.{
  Result, ok, reject_if, ok_or, bind-ok, then-ok, reject_if-ok, ok_or-ok, all_checks, all_checks-ok,
}
use contextd.Text.{Text, str, text_eq, is_empty, trim, contains}
use contextd.Text.Equality.{text_eq→eq}
use contextd.Core.Event.{RawEvent}
use contextd.Core.Claim.{
  ClaimEvent, ClaimKind, ClaimOrigin, ClaimConfidence, assert, projector, observed, reality,
  kind_eq, origin_eq, confidence_eq, origin_parse, kind_parse, confidence_parse,
}
use contextd.Core.Projection.{Projection}
use contextd.Core.Validate.{validate, validate_against_projection}
use contextd.Memory.Project.{task_id_for_subject}
use contextd.Broker.Words.{content_overlap}
use contextd.Broker.Handoff.{Candidate, Extractor, payload_str, is_failing_subject, pair_eq}
use contextd.Broker.Drafts.{min_overlap}
use contextd.Broker.Gate.{
  Parsed, parse_candidate, parse_author, parse_kind, parse_confidence, admit_parsed, admit_checked,
  admit_subject, subject_of, cited_note, note_text, quote_checks, task_checks, output_checks,
  check_quote, check_note, check_span, check_task, check_output, accept_event, checks, seen_key,
  cited_shell, check_reality, claim_event, check_claim, admit,
}

of_not : (b : Bool) → not b ≡ false → b ≡ true
of_not b h = ground arith

span_holds : (a b c : Bool) → (a || not b || not c) ≡ false → b ≡ true
span_holds a b c h = ground arith

span_inked : (a b c : Bool) → (a || not b || not c) ≡ false → a ≡ false
span_inked a b c h = ground arith

span_source : (a b c : Bool) → (a || not b || not c) ≡ false → c ≡ true
span_source a b c h = ground arith

some_kind : (a b : ClaimKind) → some a ≡ some b → a ≡ b
some_kind a b e = ground arith

some_confidence : (a b : ClaimConfidence) → some a ≡ some b → a ≡ b
some_confidence a b e = ground arith

is_reality :
    (kind : ClaimKind) (check : Result Text (Unit {0}))
    → some kind ≡ some reality
    → (if kind_eq kind reality then check else ok tt) ≡ ok tt
    → check ≡ ok tt
unfolding kind_eq
is_reality kind check e h =
    subst (λ k. (if kind_eq k reality then check else ok tt) ≡ ok tt) (some_kind kind reality e) h

sure_not :
    (confidence : ClaimConfidence)
    → some confidence ≡ some observed
    → confidence_eq confidence observed ≡ false
    → ⊥
unfolding confidence_eq
sure_not confidence e h =
    let impossible : confidence_eq observed observed ≡ false =
      subst (λ k. confidence_eq k observed ≡ false) (some_confidence confidence observed e) h in
    ground arith

parse_kind-origin :
    (c : Candidate) (origin : ClaimOrigin) (p : Parsed)
    → parse_kind c origin ≡ ok p
    → p.origin ≡ origin
unfolding parse_kind parse_confidence
parse_kind-origin c origin p h =
    let (kind, known, h1) =
      bind-ok (ok_or (kind_parse c.kind) (str "unknown kind " ++ c.kind))
        (parse_confidence c origin) p h in
    let (confidence, sure, h2) =
      bind-ok (ok_or (confidence_parse c.confidence) (str "unknown confidence " ++ c.confidence))
        (λ k. ok record { origin = origin; kind = kind; confidence = k }) p h1 in
    ap Parsed.origin (sym (ok_parsed h2))
  where
    ok_parsed : {a b : Parsed} → ◌≡◌ {A = Result Text Parsed} (ok a) (ok b) → a ≡ b
    ok_parsed e = ground arith

parse_candidate-origin :
    (c : Candidate) (p : Parsed) → parse_candidate c ≡ ok p → origin_eq p.origin projector ≡ false
unfolding parse_candidate parse_author
parse_candidate-origin c p h =
    let (origin, known, h1) =
      bind-ok (ok_or (origin_parse c.origin) (str "unknown origin " ++ c.origin)) (parse_author c) p
        h in
    let (author, h2) =
      then-ok
        (reject_if (origin_eq origin projector)
          (str "projector claims are derived from the log, not extracted"))
        (parse_kind c origin) p h1 in
    rw (parse_kind-origin c origin p h2) (reject_if-ok _ _ author)

module _ {V : Type 0} (x : Extractor V) where
  -- The claim is a span of the note that it cites first.
  pub record IsQuoted (events : List (RawEvent V)) (c : Candidate) (event : ClaimEvent)
      : Type 0 where
    pub note : RawEvent V
    pub cited : cited_note x events c.evidence_ids ≡ some note
    pub span : contains (note_text x note) (trim c.text) ≡ true
    pub inked : is_empty (trim c.text) ≡ false
    pub kept : event.text ≡ some (trim c.text)
    pub sourced : c.source_text ≡ note_text x note

  -- The claim shares words with the output of the shell event that it cites.
  pub record IsGrounded (events : List (RawEvent V)) (c : Candidate) : Type 0 where
    pub shell : RawEvent V
    pub cited : cited_shell x events c.evidence_ids ≡ some shell
    pub words : min_overlap ≤ content_overlap (trim c.text) (payload_str x shell (str "output"))

  check_quote-ok :
      (events : List (RawEvent V)) (c : Candidate) (p : Parsed) (subject : Text)
      → check_quote x events c ≡ ok tt
      → IsQuoted events c (claim_event x c p subject)
  unfolding check_quote check_note check_span
  check_quote-ok events c p subject h =
      let (named, (found, (noted, done))) = all_checks-ok (quote_checks x events c) h in
      let (note, cited, span) =
        bind-ok (ok_or (cited_note x events c.evidence_ids) (str "first evidence id is not a note"))
          (check_span x c) tt noted in
      record {
        note = note;
        cited = ok_or-ok _ _ note cited;
        span = span_holds (is_empty (trim c.text)) _ _ (reject_if-ok _ _ span);
        inked =
            span_inked _ (contains (note_text x note) (trim c.text))
              (text_eq c.source_text (note_text x note)) (reject_if-ok _ _ span);
        kept = refl;
        sourced = text_eq→eq _ _ (
            span_source (is_empty (trim c.text)) (contains (note_text x note) (trim c.text)) _
              (reject_if-ok _ _ span));
      }

  check_reality-ok :
      (events : List (RawEvent V)) (c : Candidate)
      → check_reality x events c ≡ ok tt
      → IsGrounded events c
  unfolding check_reality check_output
  check_reality-ok events c h =
      let (shell, cited, output) =
        bind-ok
          (ok_or (cited_shell x events c.evidence_ids)
            (str "inferred reality does not cite a shell event"))
          (check_output x c) tt h in
      let (same, (shared, done)) = all_checks-ok (output_checks x c shell) output in
      record {
        shell = shell;
        cited = ok_or-ok _ _ shell cited;
        words = ltb-false→le _ _ (reject_if-ok _ _ shared);
      }

  -- Everything that has been checked of an admitted candidate.
  pub record IsAdmissible (c : Candidate) (projection : Projection) (seen : List (Text × Text))
      (events : List (RawEvent V)) (event : ClaimEvent) : Type 0 where
    pub asserts : event.op ≡ assert
    pub not_projector : origin_eq event.origin projector ≡ false
    pub not_observed : event.confidence ≢ some observed
    pub quoted : IsQuoted events c event
    pub task : event.task_id ≡ task_id_for_subject x.out c.task_subject
    pub failing : is_failing_subject x events (trim c.task_subject) ≡ true
    pub unseen : any (λ item. pair_eq item (seen_key x c (trim c.text))) seen ≡ false
    pub grounded : event.kind ≡ some reality → IsGrounded events c
    pub passes : validate event.origin event ≡ ok tt
    pub fits : validate_against_projection event.origin event projection ≡ ok tt

  accept_event-ok :
      (projection : Projection) (e event : ClaimEvent)
      → accept_event x projection e ≡ ok event
      → (e ≡ event)
        × (validate e.origin e ≡ ok tt)
        × (validate_against_projection e.origin e projection ≡ ok tt)
  unfolding accept_event check_claim
  accept_event-ok projection e event h =
      let (rules, same) = then-ok (check_claim x projection e) (ok e) event h in
      let (passes, fits) =
        then-ok (validate e.origin e) (validate_against_projection e.origin e projection) tt
          rules in
      (ok_inj same, passes, fits)
    where
      ok_inj : {a b : ClaimEvent} → ◌≡◌ {A = Result Text ClaimEvent} (ok a) (ok b) → a ≡ b
      ok_inj e = ground arith

  checks-IsAdmissible :
      (c : Candidate) (p : Parsed) (subject : Text) (projection : Projection)
      (seen : List (Text × Text)) (events : List (RawEvent V))
      → origin_eq p.origin projector ≡ false
      → all_checks (checks x c p seen events) ≡ ok tt
      → validate p.origin (claim_event x c p subject) ≡ ok tt
      → validate_against_projection p.origin (claim_event x c p subject) projection ≡ ok tt
      → IsAdmissible c projection seen events (claim_event x c p subject)
  unfolding checks check_task
  checks-IsAdmissible c p subject projection seen events authored passed passes fits =
      let (quote, (attached, (fresh, (support, (sure, done))))) =
        all_checks-ok (checks x c p seen events) passed in
      let (named, (fails, none_left)) = all_checks-ok (task_checks x events c) attached in
      record {
        asserts = refl;
        not_projector = authored;
        not_observed = λ e. sure_not p.confidence e (reject_if-ok _ _ sure);
        quoted = check_quote-ok events c p subject quote;
        task = refl;
        failing = of_not _ (reject_if-ok _ _ fails);
        unseen = reject_if-ok _ _ fresh;
        grounded = λ e. check_reality-ok events c (is_reality p.kind _ e support);
        passes = passes;
        fits = fits;
      }

  -- For every candidate that `admit` lets through: the event asserts it, for no projector and not
  -- as observed; it quotes the note that it cites first, and its text is no blank; its task
  -- subject, trimmed, belongs to a command that still fails; the same text of the same kind has not
  -- been seen; a reality shares words with the shell output that it cites; and the event passes
  -- both rules for claims.
  pub admit-IsAdmissible :
      (c : Candidate) (projection : Projection) (seen : List (Text × Text))
      (events : List (RawEvent V)) (event : ClaimEvent)
      → admit x c projection seen events ≡ ok event
      → IsAdmissible c projection seen events event
  unfolding admit admit_parsed admit_checked admit_subject
  admit-IsAdmissible c projection seen events event h =
      let (p, parsed, h1) =
        bind-ok (parse_candidate c) (admit_parsed x c projection seen events) event h in
      let (passed, h2) =
        then-ok (all_checks (checks x c p seen events)) (admit_checked x c projection p) event h1 in
      let (subject, named, h3) =
        bind-ok (subject_of p.kind c) (admit_subject x c projection p) event h2 in
      let (same, passes, fits) = accept_event-ok projection (claim_event x c p subject) event h3 in
      subst (IsAdmissible c projection seen events) same (
        checks-IsAdmissible c p subject projection seen events (parse_candidate-origin c p parsed)
          passed passes fits)
