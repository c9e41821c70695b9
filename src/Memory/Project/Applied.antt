-- ===== src/Memory/Project/Applied.antt =====
-- What opening a task and applying a claim event keep of the slots (crates/memory/src/project.rs).
use contextd.Prelude.{
  ℕ, ◌≤◌, ◌≡◌, refl, Bool, true, false, Option, none, some, [], ◌∷◌, arith, ◌∙◌, if◌then◌else◌,
  Bool-cases, Option-cases, inl, inr,
}
use contextd.Text.{Text}
use contextd.Core.Claim.{
  Claim, ClaimEvent, ClaimOp, ClaimKind, close_task, supersede, assert, unique_slot,
}
use contextd.Core.Validate.{trimmed}
use contextd.Core.Projection
use contextd.Core.Projection.{
  Projection, open_task, supersede_claim, supersede_slot, push_claim, current_slot,
}
use contextd.Core.Projection.Slots.{
  IsUnique, push-current, occupants, id_count, occupants-supersede-le, id_count-supersede,
  occupants-supersede_slot-le, id_count-supersede_slot, supersede_slot-frees,
}
use contextd.Memory.Project.{
  vacate, retire_named, assert_as, assert_claim, apply_claim, target_of, asserted_claim, subject_or,
}
use contextd.Memory.Project.Keeps.{
  Keeps, Keeps-trans, Keeps-more, Keeps-refl, Keeps-same, Keeps-supersede, Keeps-push,
}

pub open_task-claims :
    (p : Projection) (id event_id : Text) (at_ms : ℕ)
    → (open_task p id event_id at_ms).claims ≡ p.claims
unfolding open_task
open_task-claims p id event_id at_ms = ground arith

pub close_task-claims :
    (p : Projection) (id event_id : Text) (at_ms : ℕ)
    → (Projection.close_task p id event_id at_ms).claims ≡ p.claims
unfolding Projection.close_task
close_task-claims p id event_id at_ms = refl

pub Keeps-open :
    (p : Projection) (id event_id : Text) (at_ms : ℕ) → Keeps p (open_task p id event_id at_ms) []
Keeps-open p id event_id at_ms = Keeps-same (open_task-claims p id event_id at_ms)

module _ (p : Projection) (e : ClaimEvent) (kind : ClaimKind) (subject : Text) (at_ms : ℕ) where
  occupants-vacate :
      (t : Text) (k : ClaimKind) (s : Text)
      → occupants t k s (vacate p e kind subject at_ms).0 ≤ occupants t k s p
  unfolding vacate
  occupants-vacate t k s = elim (Bool-cases (unique_slot kind)) [
    | inl one ↦ rw one (occupants-supersede_slot-le p at_ms e.task_id kind subject t k s)
    | inr many ↦ rw many (omega arith)
  ]

  id_count-vacate : (j : Text) → id_count j (vacate p e kind subject at_ms).0 ≡ id_count j p
  unfolding vacate
  id_count-vacate j = elim (Bool-cases (unique_slot kind)) [
    | inl one ↦ rw one (id_count-supersede_slot p at_ms e.task_id kind subject j)
    | inr many ↦ rw many
  ]

  vacate-frees :
      unique_slot kind ≡ true
      → ((j : Text) → id_count j p ≤ 1)
      → IsUnique p
      → occupants e.task_id kind subject (vacate p e kind subject at_ms).0 ≡ 0
  unfolding vacate
  vacate-frees one ids u = rw one (
      supersede_slot-frees p at_ms e.task_id kind subject ids
        (u.at_most_one e.task_id kind subject one))

occupants-retire_named :
    (p : Projection) (named : Option Text) (at_ms : ℕ) (t : Text) (k : ClaimKind) (s : Text)
    → occupants t k s (retire_named p named at_ms) ≤ occupants t k s p
unfolding retire_named
occupants-retire_named p none at_ms t k s = omega arith
occupants-retire_named p (some id) at_ms t k s = occupants-supersede-le p at_ms id t k s

id_count-retire_named :
    (p : Projection) (named : Option Text) (at_ms : ℕ) (j : Text)
    → id_count j (retire_named p named at_ms) ≡ id_count j p
unfolding retire_named
id_count-retire_named p none at_ms j = refl
id_count-retire_named p (some id) at_ms j = id_count-supersede p at_ms j id

assert_as-frees :
    (p : Projection) (e : ClaimEvent) (kind : ClaimKind) (subject : Text) (at_ms : ℕ)
    → unique_slot kind ≡ true
    → ((j : Text) → id_count j p ≤ 1)
    → IsUnique p
    → occupants e.task_id kind subject
        (retire_named (vacate p e kind subject at_ms).0 e.supersedes at_ms)
      ≡ 0
assert_as-frees p e kind subject at_ms one ids u = omega (
  arith,
  occupants-retire_named (vacate p e kind subject at_ms).0 e.supersedes at_ms e.task_id kind
      subject,
  vacate-frees p e kind subject at_ms one ids u,
)

Keeps-assert_as :
    (p : Projection) (e : ClaimEvent) (kind : ClaimKind) (text event_id : Text) (at_ms : ℕ)
    → Keeps p (assert_as p e kind text event_id at_ms) (e.claim_id ∷ [])
unfolding assert_as
Keeps-assert_as p e kind text event_id at_ms =
    let subject = subject_or e.subject kind e.claim_id in
    let q = (vacate p e kind subject at_ms).0 in
    Keeps-push p (retire_named q e.supersedes at_ms)
      (asserted_claim e kind text subject (vacate p e kind subject at_ms).1 event_id at_ms)
      (λ t k s. omega (
        arith,
        occupants-retire_named q e.supersedes at_ms t k s,
        occupants-vacate p e kind subject at_ms t k s,
      ))
      (λ j. id_count-retire_named q e.supersedes at_ms j ∙ id_count-vacate p e kind subject at_ms j)
      (assert_as-frees p e kind subject at_ms)

-- A claim that is asserted takes its slot: it is what the slot then holds.
pub assert_as-current :
    (p : Projection) (e : ClaimEvent) (kind : ClaimKind) (text event_id : Text) (at_ms : ℕ)
    → unique_slot kind ≡ true
    → ((j : Text) → id_count j p ≤ 1)
    → IsUnique p
    → (c : Claim) × (current_slot
          (assert_as p e kind text event_id at_ms)
          e.task_id
          kind
          (subject_or e.subject kind e.claim_id)
        ≡ some c)
      × (c.text ≡ text)
      × (c.id ≡ e.claim_id)
      × (c.origin ≡ e.origin)
unfolding assert_as
assert_as-current p e kind text event_id at_ms one ids u =
    let subject = subject_or e.subject kind e.claim_id in
    let c = asserted_claim e kind text subject (vacate p e kind subject at_ms).1 event_id at_ms in
    (
      c,
      push-current (retire_named (vacate p e kind subject at_ms).0 e.supersedes at_ms) c refl
          (assert_as-frees p e kind subject at_ms one ids u),
      refl,
      refl,
      refl,
    )

Keeps-assert :
    (p : Projection) (e : ClaimEvent) (event_id : Text) (at_ms : ℕ)
    → Keeps p (assert_claim p e event_id at_ms) (e.claim_id ∷ [])
unfolding assert_claim
Keeps-assert p e event_id at_ms = elim (Option-cases e.kind) [
  | inl absent ↦ rw (absent, assert_claim) nothing
  | inr (kind, given) ↦ elim (Option-cases (trimmed e.text)) [
    | inl blank ↦ rw (given, blank, assert_claim) nothing
    | inr (text, says) ↦
        rw (given, says, assert_claim) (Keeps-assert_as p e kind text event_id at_ms)
  ]
]
  where
    nothing : Keeps p p (e.claim_id ∷ [])
    nothing = Keeps-more (e.claim_id ∷ []) (Keeps-refl p)

Keeps-retract :
    (p : Projection) (e : ClaimEvent) (event_id : Text) (at_ms : ℕ) (b : Bool)
    → Keeps p
        (if b
          then assert_claim (supersede_claim p (target_of e) at_ms).0 e event_id at_ms
          else (supersede_claim p (target_of e) at_ms).0)
        (e.claim_id ∷ [])
Keeps-retract p e event_id at_ms true =
    Keeps-trans (Keeps-supersede p (target_of e) at_ms)
      (Keeps-assert (supersede_claim p (target_of e) at_ms).0 e event_id at_ms)
Keeps-retract p e event_id at_ms false =
    Keeps-more (e.claim_id ∷ []) (Keeps-supersede p (target_of e) at_ms)

pub Keeps-op :
    (op : ClaimOp) (p : Projection) (e : ClaimEvent) (event_id : Text) (at_ms : ℕ)
    → e.op ≡ op
    → Keeps p (apply_claim p e event_id at_ms) (e.claim_id ∷ [])
unfolding apply_claim
Keeps-op close_task p e event_id at_ms h =
    rw (h, apply_claim)
      (Keeps-more (e.claim_id ∷ []) (
        Keeps-trans (Keeps-open p e.task_id event_id at_ms) (
          Keeps-same
            (close_task-claims (open_task p e.task_id event_id at_ms) e.task_id event_id at_ms))))
Keeps-op supersede p e event_id at_ms h =
    rw (h, apply_claim)
      (Keeps-trans (Keeps-open p e.task_id event_id at_ms)
        (Keeps-retract (open_task p e.task_id event_id at_ms) e event_id at_ms _))
Keeps-op assert p e event_id at_ms h =
    rw (h, apply_claim)
      (Keeps-trans (Keeps-open p e.task_id event_id at_ms)
        (Keeps-assert (open_task p e.task_id event_id at_ms) e event_id at_ms))
