-- ===== src/Broker/Gate/Homeless.antt =====
-- What `admit` of crates/broker/src/extract.rs says of a command that was run in no known directory.
use contextd.Prelude.{
  ℕ, ◌≡◌, ◌≢◌, refl, sym, ap, ◌∙◌, subst, ◌⊎◌, inl, inr, Bool, true, false, not, ◌&&◌, List, [],
  ◌∷◌, ◌++◌, ◌==◌, any, any-append, arith, All, Bool-cases, Option-cases,
}
use contextd.Prelude.Int.{ℤ, is_zero}
use contextd.Prelude.Result.{ok}
use contextd.Text.{Text, str, text_eq, is_empty, is_whitespace, trim, trim_start}
use contextd.Text.Equality.{text_eq→eq}
use contextd.Text.Spaces.{IsPlain, collapse-IsPlain, trim_end-All}
use contextd.Json.{i64_at}
use contextd.Core.Event.{RawEvent}
use contextd.Core.Claim.{ClaimEvent}
use contextd.Core.Projection.{Projection}
use contextd.Memory.Project.{shell_subject, collapse_ws}
use contextd.Broker.Handoff.{
  Candidate, Extractor, payload_str, is_shell, task_for, subjects_from, is_failing_subject,
  insert_entry,
}
use contextd.Broker.Gate.{admit}
use contextd.Broker.Gate.Admitted.{IsAdmissible, admit-IsAdmissible}

abbrev has_line_feed : Text → Bool
has_line_feed text = any (λ c. c == 10) text

shell_subject-line_feed : (cwd command : Text) → has_line_feed (shell_subject cwd command) ≡ true
unfolding shell_subject str any
shell_subject-line_feed cwd command =
    rw
      (
        any-append (λ c. c == 10) (trim cwd ++ 10 ∷ []) (collapse_ws command),
        any-append (λ c. c == 10) (trim cwd) (10 ∷ []),
      )
      (ground arith)

-- Plain text has no line feed.
plain_line_feed : (s : Text) → All IsPlain s → has_line_feed s ≡ false
unfolding any is_whitespace
plain_line_feed [] h = refl
plain_line_feed (c ∷ s) (plain, h) = rw (not_line_feed plain) (plain_line_feed s h)
  where
    not_line_feed : IsPlain c → (c == 10) ≡ false
    not_line_feed (inl ink) = ground arith
    not_line_feed (inr space) = ground arith

trim_start-All {κ} : (P : ℕ → Type κ) (s : Text) → All P s → All P (trim_start s)
unfolding trim_start
trim_start-All P [] h = tt
trim_start-All P (c ∷ s) h = elim (Bool-cases (is_whitespace c)) [
  | inl space ↦ rw space (trim_start-All P s h.1)
  | inr ink ↦ rw ink h
]

-- The subject of a command with no directory, trimmed, has lost its line feed.
homeless_subject :
    (cwd command : Text) → trim cwd ≡ [] → has_line_feed (trim (shell_subject cwd command)) ≡ false
unfolding shell_subject str trim trim_start is_whitespace collapse_ws
homeless_subject cwd command h =
    let words : Text = collapse_ws command in
    let begins : trim (shell_subject cwd command) ≡ trim (10 ∷ words) =
      ap (λ (s : Text). trim ((s ++ 10 ∷ []) ++ words)) h in
    ap has_line_feed begins
    ∙ plain_line_feed (trim (10 ∷ words)) (
        trim_end-All IsPlain (trim_start words)
          (trim_start-All IsPlain words (collapse-IsPlain command)))

module _ {V : Type 0} (x : Extractor V) where
  abbrev HaveLineFeeds : List (Text × ℤ) → Type 0
  HaveLineFeeds latest = All (λ entry. has_line_feed entry.0 ≡ true) latest

  insert_entry-line_feed :
      (key : Text) (code : ℤ) (latest : List (Text × ℤ))
      → has_line_feed key ≡ true
      → HaveLineFeeds latest
      → HaveLineFeeds (insert_entry text_eq key code latest)
  insert_entry-line_feed key code [] h hs = (h, tt)
  insert_entry-line_feed key code ((k, v) ∷ latest) h (hk, hs) = elim (Bool-cases (text_eq k key)) [
    | inl same ↦ rw same (hk, hs)
    | inr other ↦ rw other (hk, insert_entry-line_feed key code latest h hs)
  ]

  subjects_from-line_feed :
      (events : List (RawEvent V)) (latest : List (Text × ℤ))
      → HaveLineFeeds latest
      → HaveLineFeeds (subjects_from x events latest)
  unfolding subjects_from task_for
  subjects_from-line_feed [] latest h = h
  subjects_from-line_feed (event ∷ events) latest h =
      elim (Bool-cases (is_shell event && not (is_empty (payload_str x event (str "command"))))) [
        | inr other ↦ rw (other, subjects_from) (subjects_from-line_feed events latest h)
        | inl run ↦ elim (Option-cases (i64_at x.out.json event.payload (str "exit_code"))) [
          | inl no_code ↦ rw (run, subjects_from, no_code) (subjects_from-line_feed events latest h)
          | inr (code, found) ↦
              rw (run, subjects_from, found)
                (subjects_from-line_feed events
                  (insert_entry text_eq (task_for x event) code latest)
                  (insert_entry-line_feed (task_for x event) code latest
                    (shell_subject-line_feed _ _) h))
        ]
      ]

  no_subject :
      (latest : List (Text × ℤ)) (subject : Text)
      → HaveLineFeeds latest
      → has_line_feed subject ≡ false
      → any (λ entry. not (is_zero entry.1) && text_eq entry.0 subject) latest ≡ false
  unfolding any
  no_subject [] subject h plain = refl
  no_subject ((k, v) ∷ latest) subject (hk, h) plain =
      rw (apart (Bool-cases (text_eq k subject)), no_subject latest subject h plain) (ground arith)
    where
      apart : (text_eq k subject ≡ true) ⊎ (text_eq k subject ≡ false) → text_eq k subject ≡ false
      apart (inr other) = other
      apart (inl same) =
          let line : has_line_feed subject ≡ true =
            subst (λ (s : Text). has_line_feed s ≡ true) (text_eq→eq k subject same) hk in
          absurd (ground arith)

  -- For a command that was run in no known directory, or a blank one: no candidate for its task is
  -- admitted, whatever the log says, even while the command is failing.
  pub admit-homeless :
      (task : RawEvent V) (c : Candidate) (projection : Projection) (seen : List (Text × Text))
      (events : List (RawEvent V)) (event : ClaimEvent)
      → trim (payload_str x task (str "cwd")) ≡ []
      → c.task_subject ≡ task_for x task
      → admit x c projection seen events ≢ ok event
  unfolding is_failing_subject task_for
  admit-homeless task c projection seen events event homeless attached accepted =
      let good = admit-IsAdmissible x c projection seen events event accepted in
      let absent : is_failing_subject x events (trim c.task_subject) ≡ false =
        no_subject (subjects_from x events []) (trim c.task_subject)
          (subjects_from-line_feed events [] tt)
          (ap (λ (s : Text). has_line_feed (trim s)) attached ∙ homeless_subject _ _ homeless) in
      cc_absurd (sym (IsAdmissible.failing good) ∙ absent)
    where
      cc_absurd : true ≡ false → ⊥
      cc_absurd e = ground arith
