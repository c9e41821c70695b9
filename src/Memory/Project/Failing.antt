-- ===== src/Memory/Project/Failing.antt =====
-- What a failing run leaves in the claim view (crates/memory/src/project.rs).
use contextd.Prelude.{
  ℕ, ◌+◌, ◌≤◌, ◌≡◌, refl, ◌∙◌, Bool, true, false, ◌&&◌, some, List, [], ◌∷◌, arith, count, any,
  find?, filter, modify_first, Bool-cases, Option-cases, inl, inr, any-append,
}
use contextd.Prelude.Int.{ℤ, is_zero}
use contextd.Text.{Text}
use contextd.Text.Equality.{text_eq_refl}
use contextd.Core.Claim.{Claim, next_action, reality, kind_eq, frontier_subject}
use contextd.Core.Projection.{
  Projection, has_claim_id, in_slot, current_slot, retire, supersede_claim, supersede_slot,
  push_claim, open_task, is_current_for, is_failing_reality, current_for_task, has_failing_reality,
}
use contextd.Core.Projection.Slots.{id_count, count_of_found}
use contextd.Memory.Project.{
  Outside, ensure_projector_frontier, record_run, apply_run, task_id_for_subject, is_authored,
  fold_event, fold_shell, run_of, cwd_of, shell_subject,
}
use contextd.Memory.Project.Keeps.{times}
use contextd.Memory.Project.Unique.{run_ids, claim_ids_of, Keeps-record}
use contextd.Core.Event.{RawEvent, EventSource}

-- A current reality of the task with an exit code other than 0.
abbrev fails : Text → Claim → Bool
fails task_id c = is_current_for task_id c && is_failing_reality c

any-filter : (p q : Claim → Bool) (cs : List Claim) → any q (filter p cs) ≡ any (λ c. p c && q c) cs
unfolding any filter
any-filter p q [] = refl
any-filter p q (c ∷ cs) = ground (arith, any-filter p q cs)

failing-any :
    (p : Projection) (task_id : Text) → has_failing_reality p task_id ≡ any (fails task_id) p.claims
unfolding has_failing_reality current_for_task
failing-any p task_id = any-filter (is_current_for task_id) is_failing_reality p.claims

module _ (task_id subject : Text) (at_ms : ℕ) where
  slot_sound :
      (t : Text) (c : Claim) → in_slot task_id next_action subject c ≡ true → fails t c ≡ false
  unfolding in_slot kind_eq
  slot_sound t c h = ground arith

  -- Retiring the next action of a slot takes no failure away, if no other claim has its id.
  retire-keeps :
      (t : Text) (cs : List Claim) (c : Claim)
      → find? (in_slot task_id next_action subject) cs ≡ some c
      → count (has_claim_id c.id) cs ≤ 1
      → any (fails t) cs ≡ true
      → any (fails t) (modify_first (has_claim_id c.id) (retire at_ms) cs) ≡ true
  unfolding count find? modify_first any
  retire-keeps t [] c h k f = f
  retire-keeps t (x ∷ cs) c h k f = elim (Bool-cases (in_slot task_id next_action subject x)) [
    | inl here ↦ ground (arith, text_eq_refl c.id, slot_sound t x)
    | inr later ↦ ground (
      arith,
      retire-keeps t cs c,
      count_of_found (in_slot task_id next_action subject) (has_claim_id c.id) cs c,
      text_eq_refl c.id,
    )
  ]

  supersede_slot-keeps :
      (t : Text) (p : Projection)
      → ((j : Text) → id_count j p ≤ 1)
      → any (fails t) p.claims ≡ true
      → any (fails t) (supersede_slot p task_id next_action subject at_ms).0.claims ≡ true
  unfolding supersede_slot supersede_claim current_slot
  supersede_slot-keeps t p ids f =
      elim (Option-cases (find? (in_slot task_id next_action subject) p.claims)) [
        | inl free ↦ rw (free, supersede_slot) f
        | inr (c, held) ↦ rw (held, supersede_slot) (retire-keeps t p.claims c held (ids c.id) f)
      ]

push-keeps :
    (t : Text) (p : Projection) (c : Claim)
    → any (fails t) p.claims ≡ true
    → any (fails t) (push_claim p c).claims ≡ true
unfolding push_claim
push-keeps t p c f = rw any-append (rw f refl)

module _ {V : Type 0} (out : Outside V) where
  record_run-fails :
      (p : Projection) (task_id command : Text) (code : ℤ) (subject event_id : Text) (at_ms : ℕ)
      → is_zero code ≡ false
      → any (fails task_id) (record_run out p task_id command code subject event_id at_ms).claims
        ≡ true
  unfolding record_run push_claim any kind_eq
  record_run-fails p task_id command code subject event_id at_ms h =
      let q =
        (supersede_slot (open_task p task_id event_id at_ms) task_id reality subject at_ms).0 in
      rw any-append (ground (arith, text_eq_refl task_id))

  ensure-fails :
      (p : Projection) (t task_id command event_id : Text) (at_ms : ℕ)
      → ((j : Text) → id_count j p ≤ 1)
      → any (fails t) p.claims ≡ true
      → any (fails t) (ensure_projector_frontier out p task_id command event_id at_ms).claims ≡ true
  unfolding ensure_projector_frontier
  ensure-fails p t task_id command event_id at_ms ids f =
      elim (Bool-cases (is_authored (current_slot p task_id next_action frontier_subject))) [
        | inl authored ↦ rw authored f
        | inr free ↦ rw free (
            push-keeps t (supersede_slot p task_id next_action frontier_subject at_ms).0 _
              (supersede_slot-keeps task_id frontier_subject at_ms t p ids f))
      ]

  apply_run-fails :
      (p : Projection) (command : Text) (code : ℤ) (subject event_id : Text) (at_ms : ℕ)
      → is_zero code ≡ false
      → ((j : Text) → id_count j p + times j (run_ids out subject event_id) ≤ 1)
      → any
          (fails (task_id_for_subject out subject))
          (apply_run out p command code subject event_id at_ms).claims
        ≡ true
  unfolding apply_run run_ids
  apply_run-fails p command code subject event_id at_ms h ids =
      let task_id = task_id_for_subject out subject in
      let q = record_run out p task_id command code subject event_id at_ms in
      rw h (
        ensure-fails q task_id task_id command event_id at_ms
          (λ j.
            unfold times count in
            omega (
              arith,
              ids j,
              (Keeps-record out p task_id command code subject event_id at_ms).fewer j,
            ))
          (record_run-fails p task_id command code subject event_id at_ms h))

  -- After a run of a command that exited with another code than 0, the task of the command has a
  -- failing reality, if the claim ids of the view and those that the run adds are distinct.
  pub fold_event-fails :
      (p : Projection) (event : RawEvent V) (command : Text) (code : ℤ)
      → event.source ≡ EventSource.shell
      → run_of out event.payload ≡ some (command, code)
      → is_zero code ≡ false
      → ((j : Text) → id_count j p + times j (claim_ids_of out event) ≤ 1)
      → has_failing_reality
          (fold_event out p event)
          (task_id_for_subject out (shell_subject (cwd_of out event.payload) command))
        ≡ true
  unfolding fold_event fold_shell claim_ids_of
  fold_event-fails p event command code source ran h ids =
      let subject = shell_subject (cwd_of out event.payload) command in
      failing-any (fold_event out p event) (task_id_for_subject out subject)
      ∙ rw (source, fold_event, ran, fold_shell)
          (apply_run-fails p command code subject event.id event.timestamp_ms h
            (λ j. rw (source, claim_ids_of, ran) at ids j))
