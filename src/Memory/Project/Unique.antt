-- ===== src/Memory/Project/Unique.antt =====
-- The slots of the view under the fold of crates/memory/src/project.rs.
use contextd.Prelude.{
  ℕ, ◌+◌, ◌≤◌, ◌≡◌, refl, not, none, some, List, [], ◌∷◌, ◌++◌, arith, count, Bool-cases,
  Option-cases, inl, inr,
}
use contextd.Prelude.Int.{ℤ, is_zero}
use contextd.Text.{Text, str, is_empty}
use contextd.Core.Event.{RawEvent, EventSource}
use contextd.Core.Claim.{projector, origin_eq, next_action, frontier_subject}
use contextd.Core.Projection
use contextd.Core.Projection.{
  Projection, open_task, supersede_claim, supersede_slot, push_claim, current_slot,
}
use contextd.Core.Projection.Slots.{IsUnique, id_count}
use contextd.Memory.Project.{
  Outside, fold_decoded, supersede_projector_frontier, ensure_projector_frontier, record_run,
  apply_run, hashed_id, task_id_for_subject, run_of, cwd_of, shell_subject, fold_shell, fold_claim,
  fold_event, fold_from, fold, is_authored,
}
use contextd.Memory.Project.Keeps.{
  Keeps, Keeps-trans, Keeps-more, Keeps-refl, Keeps-supersede, Keeps-replace, times, times-append,
}
use contextd.Memory.Project.Applied.{Keeps-open, Keeps-op}

module _ {V : Type 0} (out : Outside V) where
  -- The ids that a command's run can add: that of its reality and that of its next action.
  unfoldable pub run_ids : Text → Text → List Text
  run_ids subject event_id =
      let task_id = task_id_for_subject out subject in
      hashed_id out (str "c_") (task_id ∷ subject ∷ event_id ∷ [])
      ∷ hashed_id out (str "c_") (task_id ∷ frontier_subject ∷ event_id ∷ [])
      ∷ []

  -- The claim ids that an event can add to the view.
  unfoldable pub claim_ids_of : RawEvent V → List Text
  claim_ids_of event = elim event.source [
    | EventSource.shell ↦ elim (run_of out event.payload) [
      | none ↦ []
      | some (command, code) ↦ run_ids (shell_subject (cwd_of out event.payload) command) event.id
    ]
    | EventSource.claim ↦ elim (out.decode event.payload) [ none ↦ [] | some e ↦ e.claim_id ∷ [] ]
    | _ ↦ []
  ]

  unfoldable pub claim_ids : List (RawEvent V) → List Text
  claim_ids [] = []
  claim_ids (event ∷ events) = claim_ids_of event ++ claim_ids events

  pub Keeps-record :
      (p : Projection) (task_id command : Text) (code : ℤ) (subject event_id : Text) (at_ms : ℕ)
      → Keeps p
          (record_run out p task_id command code subject event_id at_ms)
          (hashed_id out (str "c_") (task_id ∷ subject ∷ event_id ∷ []) ∷ [])
  unfolding record_run
  Keeps-record p task_id command code subject event_id at_ms =
      Keeps-trans (Keeps-open p task_id event_id at_ms)
        (Keeps-replace (open_task p task_id event_id at_ms) _ at_ms)

  Keeps-ensure :
      (p : Projection) (task_id command event_id : Text) (at_ms : ℕ)
      → Keeps p
          (ensure_projector_frontier out p task_id command event_id at_ms)
          (hashed_id out (str "c_") (task_id ∷ frontier_subject ∷ event_id ∷ []) ∷ [])
  unfolding ensure_projector_frontier
  Keeps-ensure p task_id command event_id at_ms =
      elim (Bool-cases (is_authored (current_slot p task_id next_action frontier_subject))) [
        | inl authored ↦ rw authored (Keeps-more _ (Keeps-refl p))
        | inr free ↦ rw free (Keeps-replace p _ at_ms)
      ]

  Keeps-supersede_frontier :
      (p : Projection) (task_id : Text) (at_ms : ℕ)
      → Keeps p (supersede_projector_frontier p task_id at_ms) []
  unfolding supersede_projector_frontier
  Keeps-supersede_frontier p task_id at_ms =
      elim (Option-cases (current_slot p task_id next_action frontier_subject)) [
        | inl free ↦ rw (free, supersede_projector_frontier) (Keeps-refl p)
        | inr (c, held) ↦ elim (Bool-cases (not (origin_eq c.origin projector))) [
          | inl authored ↦ rw (held, supersede_projector_frontier, authored) (Keeps-refl p)
          | inr ours ↦ rw (held, supersede_projector_frontier, ours) (Keeps-supersede p c.id at_ms)
        ]
      ]

  Keeps-run :
      (p : Projection) (command : Text) (code : ℤ) (subject event_id : Text) (at_ms : ℕ)
      → Keeps p (apply_run out p command code subject event_id at_ms) (run_ids subject event_id)
  unfolding apply_run run_ids
  Keeps-run p command code subject event_id at_ms =
      let task_id = task_id_for_subject out subject in
      let q = record_run out p task_id command code subject event_id at_ms in
      let recorded = Keeps-record p task_id command code subject event_id at_ms in
      elim (Bool-cases (not (is_zero code))) [
        | inl failed ↦
            rw failed (Keeps-trans recorded (Keeps-ensure q task_id command event_id at_ms))
        | inr passed ↦
            rw passed
              (Keeps-more _ (Keeps-trans recorded (Keeps-supersede_frontier q task_id at_ms)))
      ]

  Keeps-source :
      (source : EventSource) (p : Projection) (event : RawEvent V)
      → event.source ≡ source
      → Keeps p (fold_event out p event) (claim_ids_of event)
  unfolding fold_event claim_ids_of fold_shell fold_claim fold_decoded
  Keeps-source EventSource.shell p event h = elim (Option-cases (run_of out event.payload)) [
    | inl other ↦ rw (h, fold_event, claim_ids_of, other, fold_shell) (Keeps-refl p)
    | inr ((command, code), ran) ↦
        rw (h, fold_event, claim_ids_of, ran, fold_shell)
          (Keeps-run p command code (shell_subject (cwd_of out event.payload) command) event.id
            event.timestamp_ms)
  ]
  Keeps-source EventSource.claim p event h = elim (Option-cases (out.decode event.payload)) [
    | inl other ↦ rw (h, fold_event, claim_ids_of, other, fold_claim) (Keeps-refl p)
    | inr (e, read) ↦ elim (Bool-cases (is_empty e.task_id)) [
      | inl blank ↦
          rw (h, fold_event, claim_ids_of, read, fold_claim, blank)
            (Keeps-more (e.claim_id ∷ []) (Keeps-refl p))
      | inr named ↦
          rw (h, fold_event, claim_ids_of, read, fold_claim, named)
            (Keeps-op e.op p e event.id event.timestamp_ms refl)
    ]
  ]
  Keeps-source _ p event h = rw (h, fold_event, claim_ids_of) (Keeps-refl p)

  Keeps-event :
      (p : Projection) (event : RawEvent V) → Keeps p (fold_event out p event) (claim_ids_of event)
  Keeps-event p event = Keeps-source event.source p event refl

  fold_from-IsUnique :
      (p : Projection) (events : List (RawEvent V))
      → ((j : Text) → id_count j p + times j (claim_ids events) ≤ 1)
      → IsUnique p
      → IsUnique (fold_from out p events)
  unfolding fold_from claim_ids
  fold_from-IsUnique p [] h u = u
  fold_from-IsUnique p (event ∷ events) h u =
      let k = Keeps-event p event in
      fold_from-IsUnique (fold_event out p event) events
        (λ j. omega (arith, h j, k.fewer j, times-append j (claim_ids_of event) (claim_ids events)))
        (k.unique (λ j. omega (arith, h j, times-append j (claim_ids_of event) (claim_ids events)))
          u)

  -- If no claim id is used twice in a log, then the fold of the log has one current claim at most
  -- for each task, subject and kind among reality, intent and next action.
  pub fold-IsUnique :
      (events : List (RawEvent V))
      → ((id : Text) → times id (claim_ids events) ≤ 1)
      → IsUnique (fold out events)
  unfolding fold
  fold-IsUnique events h =
      fold_from-IsUnique Projection.default events (λ j. unfold count in omega (arith, h j))
        (record { at_most_one = λ t k s g. unfold count in omega arith })
