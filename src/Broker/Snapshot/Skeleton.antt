-- ===== src/Broker/Snapshot/Skeleton.antt =====
-- The skeleton of a briefing, under one round of trimming (crates/broker/src/snapshot.rs).
use contextd.Prelude.{
  suc, ◌<◌, ◌≤◌, ◌≡◌, refl, ap, true, false, Option, none, some, List, [], ◌∷◌, map, length, take,
  arith, ltb, tests, Bool-cases, Option-cases, inl, inr,
}
use contextd.Broker.Snapshot.View.{FocalTaskView}
use contextd.Broker.Snapshot.{
  ContextSnapshot, is_nil, pop, trim_view, trim_task, trim_views, trim_once, view_weight,
  views_weight, focal_weight, weight,
}

-- A task view with its first decision alone, and without artifacts and unknowns.
abbrev pub bare_view : FocalTaskView → FocalTaskView
bare_view v = record v { artifacts = []; unknowns = []; decisions = take 1 v.decisions }

abbrev pub bare_focal : Option FocalTaskView → Option FocalTaskView
bare_focal none = none
bare_focal (some v) = some (bare_view v)

-- A snapshot whose views are bare, without the other tasks. Only the mark and the cost are open.
abbrev pub skeleton : ContextSnapshot → ContextSnapshot
skeleton s = record s {
  open_work = map bare_view s.open_work;
  focal_task = bare_focal s.focal_task;
  other_active_tasks = [];
  truncated = true;
  estimated_tokens = 0;
}

length-pop : {A : Type 0} (x : A) (xs : List A) → length (pop (x ∷ xs)) ≡ length xs
unfolding pop
length-pop x [] = refl
length-pop x (y ∷ xs) = ap suc (length-pop y xs)

first-pop : {A : Type 0} (xs : List A) → 1 < length xs → take 1 (pop xs) ≡ take 1 xs
unfolding pop take
first-pop [] h = refl
first-pop (x ∷ []) h = absurd (omega arith)
first-pop (x ∷ y ∷ xs) h = refl

is_nil-eq : {A : Type 0} (xs : List A) → is_nil xs ≡ true → xs ≡ []
is_nil-eq [] h = refl
is_nil-eq (x ∷ xs) h = cc

take-one : {A : Type 0} (xs : List A) → length xs ≤ 1 → take 1 xs ≡ xs
unfolding take
take-one [] h = refl
take-one (x ∷ []) h = refl
take-one (x ∷ y ∷ xs) h = absurd (omega arith)

pop-shorter : {A : Type 0} (xs : List A) → is_nil xs ≡ false → suc (length (pop xs)) ≡ length xs
pop-shorter [] h = cc
pop-shorter (x ∷ xs) h = ap suc (length-pop x xs)

pop-shorter_two : {A : Type 0} (xs : List A) → 1 < length xs → suc (length (pop xs)) ≡ length xs
pop-shorter_two [] h = absurd (omega arith)
pop-shorter_two (x ∷ xs) h = ap suc (length-pop x xs)

-- A trimmed view has the same bare form, and is smaller by one.
trim_view-some :
    (v w : FocalTaskView)
    → trim_view v ≡ some w
    → (bare_view w ≡ bare_view v) × (suc (view_weight w) ≡ view_weight v)
unfolding trim_view
trim_view-some v w h = elim (Bool-cases (is_nil v.artifacts)) [
  | inr artifact ↦
      let e : record v { artifacts = pop v.artifacts } ≡ w = ground arith in
      rw (← e) (refl, omega (arith, pop-shorter v.artifacts artifact))
  | inl no_artifact ↦ elim (Bool-cases (is_nil v.unknowns)) [
    | inr unknown ↦
        let e : record v { unknowns = pop v.unknowns } ≡ w = ground arith in
        rw (← e) (refl, omega (arith, pop-shorter v.unknowns unknown))
    | inl no_unknown ↦ elim (Bool-cases (ltb 1 (length v.decisions))) [
      | inl two ↦
          let e : record v { decisions = pop v.decisions } ≡ w = ground arith in
          rw (← e) (
            ap (λ d. record v { artifacts = []; unknowns = []; decisions = d })
                (first-pop v.decisions (omega tests)),
            omega (arith, pop-shorter_two v.decisions (omega tests)),
          )
      | inr one ↦ absurd (ground arith)
    ]
  ]
]

trim_view-none : (v : FocalTaskView) → trim_view v ≡ none → bare_view v ≡ v
unfolding trim_view
trim_view-none v h =
    ground (arith, is_nil-eq v.artifacts, is_nil-eq v.unknowns, take-one v.decisions)

trim_views-some :
    (vs ws : List FocalTaskView)
    → trim_views vs ≡ some ws
    → (map bare_view ws ≡ map bare_view vs) × (suc (views_weight ws) ≡ views_weight vs)
unfolding trim_views
trim_views-some [] ws h = cc
trim_views-some (v ∷ vs) ws h = elim (Option-cases (trim_views vs)) [
  | inr (vs', later) ↦
      let (same, less) = trim_views-some vs vs' later in
      let e : v ∷ vs' ≡ ws = ground arith in
      rw (← e) (ap (◌∷◌ (bare_view v)) same, omega (arith, less))
  | inl none_later ↦ elim (Option-cases (trim_view v)) [
    | inr (v', here) ↦
        let (same, less) = trim_view-some v v' here in
        let e : v' ∷ vs ≡ ws = ground arith in
        rw (← e) (ap (λ w. w ∷ map bare_view vs) same, omega (arith, less))
    | inl none_here ↦ absurd (ground arith)
  ]
]

trim_views-none : (vs : List FocalTaskView) → trim_views vs ≡ none → map bare_view vs ≡ vs
unfolding trim_views
trim_views-none [] h = refl
trim_views-none (v ∷ vs) h = ground (arith, trim_views-none vs, trim_view-none v)

trim_task-some :
    (t : Option FocalTaskView) (w : FocalTaskView)
    → trim_task t ≡ some w
    → (some (bare_view w) ≡ bare_focal t) × (suc (view_weight w) ≡ focal_weight t)
unfolding trim_task
trim_task-some none w h = cc
trim_task-some (some v) w h = let (same, less) = trim_view-some v w h in (ap some same, less)

trim_task-none : (t : Option FocalTaskView) → trim_task t ≡ none → bare_focal t ≡ t
unfolding trim_task
trim_task-none none h = refl
trim_task-none (some v) h = ap some (trim_view-none v h)

-- A round that takes something away keeps the skeleton, and makes the snapshot smaller by one.
pub trim_once-some :
    (s r : ContextSnapshot)
    → trim_once s ≡ some r
    → (skeleton r ≡ skeleton s) × (suc (weight r) ≡ weight s)
unfolding trim_once
trim_once-some s r h = elim (Option-cases (trim_task s.focal_task)) [
  | inr (v, focal) ↦
      let (same, less) = trim_task-some s.focal_task v focal in
      let e : record s { focal_task = some v } ≡ r = ground arith in
      rw (← e) (ap (λ t. record (skeleton s) { focal_task = t }) same, omega (arith, less))
  | inl no_focal ↦ elim (Option-cases (trim_views s.open_work)) [
    | inr (vs, work) ↦
        let (same, less) = trim_views-some s.open_work vs work in
        let e : record s { open_work = vs } ≡ r = ground arith in
        rw (← e) (ap (λ t. record (skeleton s) { open_work = t }) same, omega (arith, less))
    | inl no_work ↦ elim (Bool-cases (is_nil s.other_active_tasks)) [
      | inr others ↦
          let e : record s { other_active_tasks = pop s.other_active_tasks } ≡ r = ground arith in
          rw (← e) (refl, omega (arith, pop-shorter s.other_active_tasks others))
      | inl no_others ↦ absurd (ground arith)
    ]
  ]
]

-- No round touches the cost.
pub trim_once-cost :
    (s r : ContextSnapshot) → trim_once s ≡ some r → r.estimated_tokens ≡ s.estimated_tokens
unfolding trim_once
trim_once-cost s r h = ground arith

-- A round that finds nothing to take away has the skeleton before it.
pub trim_once-none :
    (s : ContextSnapshot)
    → trim_once s ≡ none
    → (map bare_view s.open_work ≡ s.open_work)
      × (bare_focal s.focal_task ≡ s.focal_task)
      × (s.other_active_tasks ≡ [])
unfolding trim_once
trim_once-none s h = (
  trim_views-none s.open_work (ground arith),
  trim_task-none s.focal_task (ground arith),
  is_nil-eq s.other_active_tasks (ground arith),
)
