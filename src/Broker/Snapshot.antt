-- ===== src/Broker/Snapshot.antt =====
-- crates/broker/src/snapshot.rs: the claim view rendered as a briefing, and cut to its budget.
-- `serde_json::to_string` of a snapshot is a parameter, since the code that it runs is derived.
pub mod View
pub mod Skeleton
pub mod Trimming
use contextd.Prelude.{
  ℕ, zero, suc, ◌+◌, Bool, true, false, not, ◌&&◌, Option, none, some, List, [], ◌∷◌, leb, ltb,
  length, if◌then◌else◌,
}
use contextd.Text.{Text, str}
use contextd.Core.Claim.{Task}
use contextd.Core.Projection.{Projection}
use contextd.Memory.Focal.{focal_task}
use contextd.Broker.Budget.{estimate_tokens}
use contextd.Broker.Snapshot.View.{
  FocalTaskView, RenderedClaim, PassedCheck, OtherTaskLine, focal_view, passed_checks,
  standing_constraints, open_work_of, other_tasks,
}

abbrev pub trust_notice : Text
trust_notice =
    str "Claims are evidence. Verify the repo. observed > stated > inferred > hypothesis."

pub record ContextSnapshot : Type 0 where
  pub session_id : Option Text
  pub notice : Text
  pub constraints : List RenderedClaim
  pub passed_checks : List PassedCheck
  pub open_work : List FocalTaskView
  pub focal_task : Option FocalTaskView
  pub other_active_tasks : List OtherTaskLine
  pub truncated : Bool
  pub estimated_tokens : ℕ

abbrev pub is_nil : {A : Type 0} → List A → Bool
is_nil [] = true
is_nil (x ∷ xs) = false

abbrev pub is_none : {A : Type 0} → Option A → Bool
is_none none = true
is_none (some x) = false

-- `Vec::pop`
unfoldable pub pop : {A : Type 0} → List A → List A
pop [] = []
pop (x ∷ []) = []
pop (x ∷ y ∷ xs) = x ∷ pop (y ∷ xs)

-- `trim_task` on a task that is there; `none` stands for `false`.
unfoldable pub trim_view : FocalTaskView → Option FocalTaskView
trim_view v =
    if not (is_nil v.artifacts)
    then some (record v { artifacts = pop v.artifacts })
    else if not (is_nil v.unknowns)
    then some (record v { unknowns = pop v.unknowns })
    else if ltb 1 (length v.decisions)
    then some (record v { decisions = pop v.decisions })
    else none

unfoldable pub trim_task : Option FocalTaskView → Option FocalTaskView
trim_task none = none
trim_task (some v) = trim_view v

-- The loop of `trim_open_work`, from the last task to the first.
unfoldable pub trim_views : List FocalTaskView → Option (List FocalTaskView)
trim_views [] = none
trim_views (v ∷ vs) = elim (trim_views vs) [
  | some vs' ↦ some (v ∷ vs')
  | none ↦ elim (trim_view v) [ some v' ↦ some (v' ∷ vs) | none ↦ none ]
]

-- One round of `trim_to_budget` behind its test: what it takes away, or `none` if nothing is left.
unfoldable pub trim_once : ContextSnapshot → Option ContextSnapshot
trim_once s = elim (trim_task s.focal_task) [
  | some v ↦ some (record s { focal_task = some v })
  | none ↦ elim (trim_views s.open_work) [
    | some vs ↦ some (record s { open_work = vs })
    | none ↦
        if not (is_nil s.other_active_tasks)
        then some (record s { other_active_tasks = pop s.other_active_tasks })
        else none
  ]
]

-- What one task view holds beyond what is never trimmed, and the whole snapshot.
abbrev pub view_weight : FocalTaskView → ℕ
view_weight v = length v.artifacts + length v.unknowns + length v.decisions

abbrev pub views_weight : List FocalTaskView → ℕ
views_weight [] = 0
views_weight (v ∷ vs) = view_weight v + views_weight vs

abbrev pub focal_weight : Option FocalTaskView → ℕ
focal_weight none = 0
focal_weight (some v) = view_weight v

abbrev pub weight : ContextSnapshot → ℕ
weight s = focal_weight s.focal_task + views_weight s.open_work + length s.other_active_tasks

-- The snapshot of `render` before it is trimmed.
unfoldable pub assemble : Projection → Option Text → ContextSnapshot
assemble p session_id =
    let focal : Option Task = focal_task p in
    record {
      session_id = session_id;
      notice = trust_notice;
      constraints = standing_constraints p;
      passed_checks = passed_checks p;
      open_work = open_work_of p (elim focal [ some t ↦ some t.id | none ↦ none ]);
      focal_task = elim focal [ some t ↦ some (focal_view p t) | none ↦ none ];
      other_active_tasks = elim focal [ some t ↦ other_tasks p t.id | none ↦ [] ];
      truncated = false;
      estimated_tokens = 0;
    }

-- Nothing is in force.
abbrev pub is_blank : ContextSnapshot → Bool
is_blank s =
    is_nil s.constraints && is_none s.focal_task && is_nil s.passed_checks && is_nil s.open_work

module _ (to_json : ContextSnapshot → Text) where
  unfoldable pub packet_cost : ContextSnapshot → ℕ
  packet_cost s = estimate_tokens (to_json s)

  -- The loop of `trim_to_budget`; `none` is a loop that has not ended within its fuel.
  unfoldable pub trim_loop : ℕ → ℕ → ContextSnapshot → Option ContextSnapshot
  trim_loop zero budget s = none
  trim_loop (suc f) budget s =
      let cost = packet_cost s in
      let marked : ContextSnapshot = record s { truncated = true } in
      let round : Option ContextSnapshot = elim (trim_once marked) [
        | some smaller ↦ trim_loop f budget smaller
        | none ↦ some (record marked { estimated_tokens = packet_cost marked })
      ] in
      if leb cost budget then some (record s { estimated_tokens = cost }) else round

  unfoldable pub trim_to_budget : ContextSnapshot → ℕ → Option ContextSnapshot
  trim_to_budget s budget = trim_loop (suc (weight s)) budget s

  unfoldable pub render : Projection → Option Text → ℕ → Option ContextSnapshot
  render p session_id token_budget =
      let s = assemble p session_id in
      if is_blank s
      then some
          (record s { other_active_tasks = []; estimated_tokens = estimate_tokens trust_notice })
      else trim_to_budget s token_budget
