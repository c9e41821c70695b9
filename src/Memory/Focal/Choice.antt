-- ===== src/Memory/Focal/Choice.antt =====
-- Which task `focal_task` of crates/memory/src/project.rs chooses.
use contextd.Prelude.{
  ◌≤◌, ◌≡◌, refl, sym, ap, subst, ◌∙◌, Bool, true, not, ◌&&◌, Option, none, some, List, [], ◌∷◌,
  arith, any, filter, count, All, Option-cases, List-cases, ◌≢◌, ◌⊎◌, inl, inr, count-filter,
}
use contextd.Prelude.Sorting.{IsSorted, sort_by-IsSorted, count-sort_by}
use contextd.Prelude.Members.{Among, Among-sort_by, Among-filter, Among-max_by}
use contextd.Text.Equality.{text_le_total, text_le_trans}
use contextd.Core.Claim.{Task, active, Claim}
use contextd.Core.Projection.{Projection, task}
use contextd.Memory.Focal.{
  task_le, is_failing_task, is_live_intent, is_some_active, failing_tasks, newest_intent,
  focal_task, claim_le,
}

task_le_total : (a b : Task) → (task_le a b ≡ true) ⊎ (task_le b a ≡ true)
unfolding task_le
task_le_total a b = ground (arith, text_le_total a.id b.id)

task_le_trans : (a b c : Task) → task_le a b ≡ true → task_le b c ≡ true → task_le a c ≡ true
unfolding task_le
task_le_trans a b c h k = ground (arith, text_le_trans a.id b.id c.id)

-- Nothing in a list fails a test that everything in it passes.
count-failing :
    (q : Task → Bool) (ts : List Task) → All (λ t. q t ≡ true) ts → count (λ t. not (q t)) ts ≡ 0
unfolding count
count-failing q [] h = refl
count-failing q (t ∷ ts) h = ground (arith, count-failing q ts h.1)

count-any : (q : Task → Bool) (ts : List Task) → any q ts ≡ true → 1 ≤ count (λ t. q t && true) ts
unfolding any count
count-any q [] h = ground arith
count-any q (t ∷ ts) h = ground (arith, count-any q ts)

-- The first of a sorted list is below all of it.
first-below :
    (t : Task) (ts : List Task)
    → IsSorted task_le (t ∷ ts)
    → count (λ u. not (task_le t u)) (t ∷ ts) ≡ 0
first-below t ts h = count-failing (task_le t) (t ∷ ts) (ground (arith, task_le_total t t), h.0)

failing-first :
    (p : Projection) (t : Task) (ts : List Task)
    → failing_tasks p ≡ t ∷ ts
    → count (λ u. is_failing_task p u && not (task_le t u)) p.tasks ≡ 0
unfolding failing_tasks
failing-first p t ts h =
    sym (count-filter (is_failing_task p) (λ u. not (task_le t u)) p.tasks)
    ∙ sym (count-sort_by task_le (λ u. not (task_le t u)) (filter (is_failing_task p) p.tasks))
    ∙ ap (count (λ u. not (task_le t u))) h
    ∙ first-below t ts (
        subst (IsSorted task_le) h (
          sort_by-IsSorted task_le task_le_total task_le_trans
            (filter (is_failing_task p) p.tasks)))

failing-Among :
    (p : Projection) (t : Task) (ts : List Task)
    → failing_tasks p ≡ t ∷ ts
    → Among t p.tasks × (is_failing_task p t ≡ true)
unfolding failing_tasks
failing-Among p t ts h = Among-filter (is_failing_task p) t p.tasks (
    Among-sort_by task_le t (filter (is_failing_task p) p.tasks)
      (subst (Among t) (sym h) (inl refl)))

some_failing : (p : Projection) → any (is_failing_task p) p.tasks ≡ true → failing_tasks p ≢ []
unfolding failing_tasks count
some_failing p h none_left =
    let every : Task → Bool = λ t. true in
    let kept = filter (is_failing_task p) p.tasks in
    let none_kept : count every kept ≡ 0 =
      sym (count-sort_by task_le every kept) ∙ ap (count every) none_left in
    omega (
      arith,
      none_kept,
      count-filter (is_failing_task p) every p.tasks,
      count-any (is_failing_task p) p.tasks h,
    )

-- If a task that is active has a current reality with an exit code other than 0, then the focal
-- task is one of these tasks, and none of them is older (or as old, with a smaller id).
pub focal_task-IsOldestFailing :
    (p : Projection)
    → any (is_failing_task p) p.tasks ≡ true
    → (t : Task) × (focal_task p ≡ some t)
      × Among t p.tasks
      × (is_failing_task p t ≡ true)
      × (count (λ u. is_failing_task p u && not (task_le t u)) p.tasks ≡ 0)
unfolding focal_task
focal_task-IsOldestFailing p h = elim (List-cases (failing_tasks p)) [
  | inl nothing ↦ absurd (some_failing p h nothing)
  | inr (t, ts, first) ↦
      let (there, fails) = failing-Among p t ts first in
      (t, rw (first, focal_task), there, fails, failing-first p t ts first)
]

some_active-status :
    (o : Option Task) (t : Task) → is_some_active o ≡ true → o ≡ some t → t.status ≡ active
some_active-status none t h e = ground arith
some_active-status (some u) t h e = ground arith

newest_intent-live :
    (p : Projection) (c : Claim) → newest_intent p ≡ some c → is_live_intent p c ≡ true
unfolding newest_intent
newest_intent-live p c h =
    (Among-filter (is_live_intent p) c p.claims
      (Among-max_by claim_le c (filter (is_live_intent p) p.claims) h)).1

newest_intent-active :
    (p : Projection) (t : Task)
    → (elim (newest_intent p) [ some c ↦ task p c.task_id | none ↦ none ]) ≡ some t
    → t.status ≡ active
newest_intent-active p t h = elim (Option-cases (newest_intent p)) [
  | inl absent ↦ absurd (ground arith)
  | inr (c, newest) ↦
      let live = newest_intent-live p c newest in
      some_active-status (task p c.task_id) t (ground arith) (ground arith)
]

-- A focal task is active: a task that is done is never the one that a briefing is about.
pub focal_task-active : (p : Projection) (t : Task) → focal_task p ≡ some t → t.status ≡ active
unfolding focal_task
focal_task-active p t h = elim (List-cases (failing_tasks p)) [
  | inl nothing ↦ newest_intent-active p t (ground arith)
  | inr (u, us, first) ↦
      let same : u ≡ t = ground arith in
      let fails = (failing-Among p u us first).1 in
      ap (λ (x : Task). x.status) (sym same) ∙ ground arith
]
