-- ===== src/Memory/Project/Lifecycle.antt =====
-- Tasks over the life of the log (crates/memory/src/project.rs).
use contextd.Prelude.{
  ℕ, ◌≤◌, ◌≡◌, refl, ◌∙◌, Bool, true, false, not, ◌&&◌, Option, none, some, List, [], ◌∷◌, ◌++◌,
  arith, if◌then◌else◌, Bool-cases, Option-cases, inl, inr,
}
use contextd.Prelude.Int.{ℤ, is_zero}
use contextd.Text.{Text, is_empty}
use contextd.Core.Event.{RawEvent, EventSource}
use contextd.Core.Claim.{
  ClaimEvent, ClaimKind, ClaimOp, close_task, supersede, assert, unique_slot, next_action,
  frontier_subject, reality, origin_eq, projector,
}
use contextd.Core.Validate.{trimmed}
use contextd.Core.Projection
use contextd.Core.Projection.{
  Projection, open_task, supersede_claim, supersede_slot, push_claim, current_slot,
}
use contextd.Core.Projection.Tasks.{
  status_of, rank, status-open_task, status-close_task, status-push_claim, status-supersede_claim,
  status-supersede_slot,
}
use contextd.Memory.Project.{
  Outside, vacate, retire_named, assert_as, assert_claim, apply_claim, fold_decoded, target_of,
  supersede_projector_frontier, ensure_projector_frontier, record_run, apply_run,
  task_id_for_subject, run_of, cwd_of, shell_subject, fold_shell, fold_claim, fold_event, fold_from,
  fold, subject_or, is_authored, is_some,
}

-- Every task has come at least as far in `q` as in `p`.
abbrev Grows : Projection → Projection → Type 0
Grows p q = (j : Text) → rank (status_of p j) ≤ rank (status_of q j)

abbrev Same : Projection → Projection → Type 0
Same p q = (j : Text) → status_of q j ≡ status_of p j

Same-Grows : (p q : Projection) → Same p q → Grows p q
Same-Grows p q s j = rw (s j) (omega arith)

Grows-then : (p q r : Projection) → Grows p q → Same q r → Grows p r
Grows-then p q r g s j = rw (s j) (g j)

Grows-open :
    (p : Projection) (i event_id : Text) (at_ms : ℕ) → Grows p (open_task p i event_id at_ms)
Grows-open p i event_id at_ms j = ground (arith, status-open_task p i event_id at_ms j)

Grows-close :
    (p : Projection) (i event_id : Text) (at_ms : ℕ)
    → Grows p (Projection.close_task p i event_id at_ms)
Grows-close p i event_id at_ms j = ground (arith, status-close_task p i event_id at_ms j)

Same-vacate :
    (p : Projection) (e : ClaimEvent) (kind : ClaimKind) (subject : Text) (at_ms : ℕ)
    → Same p (vacate p e kind subject at_ms).0
unfolding vacate
Same-vacate p e kind subject at_ms j = elim (Bool-cases (unique_slot kind)) [
  | inl one ↦ rw one (status-supersede_slot p e.task_id kind subject at_ms j)
  | inr many ↦ rw many
]

Same-retire_named :
    (p : Projection) (named : Option Text) (at_ms : ℕ) → Same p (retire_named p named at_ms)
unfolding retire_named
Same-retire_named p none at_ms j = refl
Same-retire_named p (some id) at_ms j = status-supersede_claim p id id at_ms j

Same-assert_as :
    (p : Projection) (e : ClaimEvent) (kind : ClaimKind) (text event_id : Text) (at_ms : ℕ)
    → Same p (assert_as p e kind text event_id at_ms)
unfolding assert_as
Same-assert_as p e kind text event_id at_ms j =
    let q = (vacate p e kind (subject_or e.subject kind e.claim_id) at_ms).0 in
    status-push_claim (retire_named q e.supersedes at_ms) _ j
    ∙ Same-retire_named q e.supersedes at_ms j
    ∙ Same-vacate p e kind (subject_or e.subject kind e.claim_id) at_ms j

Same-assert :
    (p : Projection) (e : ClaimEvent) (event_id : Text) (at_ms : ℕ)
    → Same p (assert_claim p e event_id at_ms)
unfolding assert_claim
Same-assert p e event_id at_ms j = elim (Option-cases e.kind) [
  | inl absent ↦ rw (absent, assert_claim)
  | inr (kind, given) ↦ elim (Option-cases (trimmed e.text)) [
    | inl blank ↦ rw (given, blank, assert_claim)
    | inr (text, says) ↦
        rw (given, says, assert_claim) (Same-assert_as p e kind text event_id at_ms j)
  ]
]

-- What a claim event does to a task, after opening it.
Same-retract :
    (p : Projection) (e : ClaimEvent) (event_id : Text) (at_ms : ℕ) (b : Bool)
    → Same p (
        if b
        then assert_claim (supersede_claim p (target_of e) at_ms).0 e event_id at_ms
        else (supersede_claim p (target_of e) at_ms).0)
Same-retract p e event_id at_ms true j =
    Same-assert (supersede_claim p (target_of e) at_ms).0 e event_id at_ms j
    ∙ status-supersede_claim p (target_of e) event_id at_ms j
Same-retract p e event_id at_ms false j = status-supersede_claim p (target_of e) event_id at_ms j

Grows-op :
    (op : ClaimOp) (p : Projection) (e : ClaimEvent) (event_id : Text) (at_ms : ℕ)
    → e.op ≡ op
    → Grows p (apply_claim p e event_id at_ms)
unfolding apply_claim
Grows-op close_task p e event_id at_ms h j =
    rw (h, apply_claim)
      (omega (
        arith,
        Grows-open p e.task_id event_id at_ms j,
        Grows-close (open_task p e.task_id event_id at_ms) e.task_id event_id at_ms j,
      ))
Grows-op supersede p e event_id at_ms h j =
    let q = open_task p e.task_id event_id at_ms in
    rw (h, apply_claim, Same-retract q e event_id at_ms (is_some e.text && is_some e.kind) j)
      (Grows-open p e.task_id event_id at_ms j)
Grows-op assert p e event_id at_ms h j =
    let q = open_task p e.task_id event_id at_ms in
    rw (h, apply_claim, Same-assert q e event_id at_ms j) (Grows-open p e.task_id event_id at_ms j)

module _ {V : Type 0} (out : Outside V) where
  Same-ensure :
      (p : Projection) (task_id command event_id : Text) (at_ms : ℕ)
      → Same p (ensure_projector_frontier out p task_id command event_id at_ms)
  unfolding ensure_projector_frontier
  Same-ensure p task_id command event_id at_ms j =
      elim (Bool-cases (is_authored (current_slot p task_id next_action frontier_subject))) [
        | inl authored ↦ rw authored
        | inr free ↦ rw free (
            status-push_claim (supersede_slot p task_id next_action frontier_subject at_ms).0 _ j
            ∙ status-supersede_slot p task_id next_action frontier_subject at_ms j)
      ]

  Same-supersede_frontier :
      (p : Projection) (task_id : Text) (at_ms : ℕ)
      → Same p (supersede_projector_frontier p task_id at_ms)
  unfolding supersede_projector_frontier
  Same-supersede_frontier p task_id at_ms j =
      elim (Option-cases (current_slot p task_id next_action frontier_subject)) [
        | inl free ↦ rw (free, supersede_projector_frontier)
        | inr (c, held) ↦ elim (Bool-cases (not (origin_eq c.origin projector))) [
          | inl authored ↦ rw (held, supersede_projector_frontier, authored)
          | inr ours ↦
              rw (held, supersede_projector_frontier, ours)
                (status-supersede_claim p c.id c.id at_ms j)
        ]
      ]

  Grows-record :
      (p : Projection) (task_id command : Text) (code : ℤ) (subject event_id : Text) (at_ms : ℕ)
      → Grows p (record_run out p task_id command code subject event_id at_ms)
  unfolding record_run
  Grows-record p task_id command code subject event_id at_ms =
      let q = open_task p task_id event_id at_ms in
      Grows-then p q _ (Grows-open p task_id event_id at_ms) (λ j.
        status-push_claim (supersede_slot q task_id reality subject at_ms).0 _ j
        ∙ status-supersede_slot q task_id reality subject at_ms j)

  Grows-run :
      (p : Projection) (command : Text) (code : ℤ) (subject event_id : Text) (at_ms : ℕ)
      → Grows p (apply_run out p command code subject event_id at_ms)
  unfolding apply_run
  Grows-run p command code subject event_id at_ms j =
      let task_id = task_id_for_subject out subject in
      let q = record_run out p task_id command code subject event_id at_ms in
      let recorded = Grows-record p task_id command code subject event_id at_ms j in
      elim (Bool-cases (not (is_zero code))) [
        | inl failed ↦ rw (failed, Same-ensure q task_id command event_id at_ms j) recorded
        | inr passed ↦ rw (passed, Same-supersede_frontier q task_id at_ms j) recorded
      ]

  Grows-source :
      (source : EventSource) (p : Projection) (event : RawEvent V)
      → event.source ≡ source
      → Grows p (fold_event out p event)
  unfolding fold_event fold_shell fold_claim fold_decoded
  Grows-source EventSource.shell p event h j = elim (Option-cases (run_of out event.payload)) [
    | inl other ↦ rw (h, fold_event, other, fold_shell) (omega arith)
    | inr ((command, code), ran) ↦
        rw (h, fold_event, ran, fold_shell)
          (Grows-run p command code (shell_subject (cwd_of out event.payload) command) event.id
            event.timestamp_ms j)
  ]
  Grows-source EventSource.claim p event h j = elim (Option-cases (out.decode event.payload)) [
    | inl other ↦ rw (h, fold_event, other, fold_claim) (omega arith)
    | inr (e, read) ↦ elim (Bool-cases (is_empty e.task_id)) [
      | inl blank ↦ rw (h, fold_event, read, fold_claim, blank) (omega arith)
      | inr named ↦
          rw (h, fold_event, read, fold_claim, named)
            (Grows-op e.op p e event.id event.timestamp_ms refl j)
    ]
  ]
  Grows-source _ p event h j = rw (h, fold_event) (omega arith)

  Grows-fold_from : (p : Projection) (events : List (RawEvent V)) → Grows p (fold_from out p events)
  unfolding fold_from
  Grows-fold_from p [] j = omega arith
  Grows-fold_from p (event ∷ events) j = omega (
    arith,
    Grows-source event.source p event refl j,
    Grows-fold_from (fold_event out p event) events j,
  )

  fold_from-append :
      (p : Projection) (before after : List (RawEvent V))
      → fold_from out p (before ++ after) ≡ fold_from out (fold_from out p before) after
  unfolding fold_from
  fold_from-append p [] after = refl
  fold_from-append p (event ∷ before) after = fold_from-append (fold_event out p event) before after

  -- However the log goes on, no task is forgotten and none is reopened: its status moves from
  -- unknown to active to done, and never back.
  pub fold-rank :
      (before after : List (RawEvent V)) (id : Text)
      → rank (status_of (fold out before) id) ≤ rank (status_of (fold out (before ++ after)) id)
  unfolding fold
  fold-rank before after id =
      rw fold_from-append (Grows-fold_from (fold_from out Projection.default before) after id)
