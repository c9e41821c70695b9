-- ===== src/Memory/Project/Retired.antt =====
-- Which claims a claim event takes out of force (crates/memory/src/project.rs, with the rules of
-- crates/core/src/claim.rs).
use contextd.Prelude.{
  ℕ, ◌≡◌, ◌⊎◌, inl, inr, refl, ap, sym, true, false, Option, none, some, arith, ◌&&◌, Bool-cases,
  Option-cases, find?-holds,
}
use contextd.Prelude.Members.{
  Among, Among-modify_first, modify_first-Among, Among-append, find?-Among,
}
use contextd.Prelude.Result.{ok, then-ok, reject_if-ok}
use contextd.Text.{Text, is_empty}
use contextd.Text.Equality.{text_eq→eq}
use contextd.Core.Claim.{
  Claim, ClaimEvent, ClaimKind, ClaimOp, ClaimOrigin, close_task, supersede, assert, unique_slot,
  agent, next_action, frontier_subject, origin_eq,
}
use contextd.Core.Projection.{
  Projection, claim, open_task, supersede_claim, supersede_slot, push_claim, current_slot, in_slot,
  has_claim_id, retire,
}
use contextd.Core.Validate.{
  validate_against_projection, replaced_id, trimmed, is_next_action, is_by_user,
}
use contextd.Core.Validate.Authority.{MayReplace, accepted-MayReplace}
use contextd.Memory.Project.{
  vacate, retire_named, assert_as, assert_claim, apply_claim, target_of, subject_or, is_some,
}
use contextd.Memory.Project.Applied.{open_task-claims, close_task-claims}

-- The claim shares its id with one that holds, in this view, the slot that the event asserts in.
abbrev pub Holds : Projection → ClaimEvent → ClaimKind → Claim → Type 0
Holds p e kind c =
    (e.kind ≡ some kind)
    × (unique_slot kind ≡ true)
    × (held : Claim) × Among held p.claims
    × (in_slot e.task_id kind (subject_or e.subject kind e.claim_id) held ≡ true)
    × (held.id ≡ c.id)

supersede-Among :
    (p : Projection) (id : Text) (at_ms : ℕ) (c : Claim)
    → Among c p.claims
    → Among c (supersede_claim p id at_ms).0.claims ⊎ (c.id ≡ id)
unfolding supersede_claim
supersede-Among p id at_ms c h =
    elim (Among-modify_first (has_claim_id id) (retire at_ms) c p.claims h) [
      | inl there ↦ inl there
      | inr hit ↦ inr (text_eq→eq c.id id hit)
    ]

-- A claim in force after retiring another was there before.
supersede-current :
    (p : Projection) (id : Text) (at_ms : ℕ) (c : Claim) (task_id subject : Text) (kind : ClaimKind)
    → Among c (supersede_claim p id at_ms).0.claims
    → in_slot task_id kind subject c ≡ true
    → Among c p.claims
unfolding supersede_claim in_slot
supersede-current p id at_ms c task_id subject kind h fits =
    elim (modify_first-Among (has_claim_id id) (retire at_ms) c p.claims h) [
      | inl there ↦ there
      | inr (d, made) ↦ absurd (ground arith)
    ]

vacate-Among :
    (p : Projection) (e : ClaimEvent) (kind : ClaimKind) (at_ms : ℕ) (c : Claim)
    → e.kind ≡ some kind
    → Among c p.claims
    → Among c (vacate p e kind (subject_or e.subject kind e.claim_id) at_ms).0.claims
      ⊎ Holds p e kind c
unfolding vacate supersede_slot current_slot
vacate-Among p e kind at_ms c given h =
    let subject = subject_or e.subject kind e.claim_id in
    elim (Bool-cases (unique_slot kind)) [
      | inr many ↦ inl (rw many h)
      | inl one ↦ elim (Option-cases (current_slot p e.task_id kind subject)) [
        | inl free ↦ inl (rw (one, supersede_slot, free) h)
        | inr (held, found) ↦ elim (supersede-Among p held.id at_ms c h) [
          | inl there ↦ inl (rw (one, supersede_slot, found) there)
          | inr same ↦ inr (
            given,
            one,
            held,
            find?-Among (in_slot e.task_id kind subject) held p.claims found,
            find?-holds (in_slot e.task_id kind subject) p.claims held found,
            sym same,
          )
        ]
      ]
    ]

named-Among :
    (p : Projection) (named : Option Text) (at_ms : ℕ) (c : Claim)
    → Among c p.claims
    → Among c (retire_named p named at_ms).claims ⊎ (named ≡ some c.id)
unfolding retire_named
named-Among p none at_ms c h = inl h
named-Among p (some id) at_ms c h = elim (supersede-Among p id at_ms c h) [
  | inl there ↦ inl there
  | inr same ↦ inr (ap some (sym same))
]

-- What becomes of a claim when another is asserted.
assert-Among :
    (p : Projection) (e : ClaimEvent) (event_id : Text) (at_ms : ℕ) (c : Claim)
    → Among c p.claims
    → Among c (assert_claim p e event_id at_ms).claims
      ⊎ (e.supersedes ≡ some c.id)
      ⊎ ((kind : ClaimKind) × Holds p e kind c)
unfolding assert_claim assert_as push_claim
assert-Among p e event_id at_ms c h = elim (Option-cases e.kind) [
  | inl absent ↦ inl (rw (absent, assert_claim) h)
  | inr (kind, given) ↦ elim (Option-cases (trimmed e.text)) [
    | inl blank ↦ inl (rw (given, blank, assert_claim) h)
    | inr (text, says) ↦ elim (vacate-Among p e kind at_ms c given h) [
      | inr holds ↦ inr (inr (kind, holds))
      | inl there ↦
          let q = (vacate p e kind (subject_or e.subject kind e.claim_id) at_ms).0 in
          elim (named-Among q e.supersedes at_ms c there) [
            | inr named ↦ inr (inl named)
            | inl stays ↦ inl (
                rw (given, says, assert_claim)
                  (Among-append c (retire_named q e.supersedes at_ms).claims _ stays))
          ]
    ]
  ]
]

-- The event names the claim as the one to replace, and its author may replace it.
abbrev pub Replaces : ClaimOrigin → Projection → ClaimEvent → Claim → Type 0
Replaces o p e c =
    (replaced_id e ≡ some c.id)
    × (named : Claim) × (claim p c.id ≡ some named)
    × MayReplace o e named

named-replaced :
    (op : ClaimOp) (e : ClaimEvent) (id : Text)
    → e.op ≡ op
    → is_empty id ≡ false
    → e.supersedes ≡ some id
    → replaced_id e ≡ some id
unfolding replaced_id
named-replaced close_task e id h filled named = rw (replaced_id, h, named, filled)
named-replaced supersede e id h filled named = rw (replaced_id, h, named, filled)
named-replaced assert e id h filled named = rw (replaced_id, h, named, filled)

target-replaced :
    (e : ClaimEvent) (id : Text)
    → e.op ≡ supersede
    → is_empty id ≡ false
    → id ≡ target_of e
    → replaced_id e ≡ some id
unfolding replaced_id target_of
target-replaced e id h filled same = rw (replaced_id, h) (ground arith)

-- What becomes of a claim when an event is applied, whether or not the rules were asked.
applied-Among :
    (op : ClaimOp) (p : Projection) (e : ClaimEvent) (event_id : Text) (at_ms : ℕ) (c : Claim)
    → e.op ≡ op
    → is_empty c.id ≡ false
    → Among c p.claims
    → Among c (apply_claim p e event_id at_ms).claims
      ⊎ (replaced_id e ≡ some c.id)
      ⊎ ((kind : ClaimKind) × Holds p e kind c)
unfolding apply_claim
applied-Among close_task p e event_id at_ms c h filled there =
    inl (rw (h, apply_claim, close_task-claims, open_task-claims) there)
applied-Among assert p e event_id at_ms c h filled there =
    let q = open_task p e.task_id event_id at_ms in
    let same : q.claims ≡ p.claims = open_task-claims p e.task_id event_id at_ms in
    elim (assert-Among q e event_id at_ms c (rw same there)) [
      | inl stays ↦ inl (rw (h, apply_claim) stays)
      | inr (inl named) ↦ inr (inl (named-replaced assert e c.id h filled named))
      | inr (inr (kind, (given, one, held, among, fits, id))) ↦
          inr (inr (kind, (given, one, held, rw same at among, fits, id)))
    ]
applied-Among supersede p e event_id at_ms c h filled there =
    let q = open_task p e.task_id event_id at_ms in
    let same : q.claims ≡ p.claims = open_task-claims p e.task_id event_id at_ms in
    let r = (supersede_claim q (target_of e) at_ms).0 in
    elim (supersede-Among q (target_of e) at_ms c (rw same there)) [
      | inr target ↦ inr (inl (target-replaced e c.id h filled target))
      | inl left ↦ elim (Bool-cases (is_some e.text && is_some e.kind)) [
        | inr bare ↦ inl (rw (h, apply_claim, bare) left)
        | inl full ↦ elim (assert-Among r e event_id at_ms c left) [
          | inl stays ↦ inl (rw (h, apply_claim, full) stays)
          | inr (inl named) ↦ inr (inl (named-replaced supersede e c.id h filled named))
          | inr (inr (kind, (given, one, held, among, fits, id))) ↦ inr (
              inr (
                kind,
                (
                  given,
                  one,
                  held,
                  rw same at (
                      supersede-current q (target_of e) at_ms held e.task_id
                        (subject_or e.subject kind e.claim_id) kind among fits),
                  fits,
                  id,
                ),
              ))
        ]
      ]
    ]

-- The event asserts in the slot of the claim, and is no agent's next action over a user's.
abbrev pub Displaces : ClaimOrigin → Projection → ClaimEvent → Claim → Type 0
Displaces o p e c =
    ((kind : ClaimKind) × Holds p e kind c)
    × ((origin_eq o agent
          && is_next_action e.kind
          && is_by_user (current_slot p e.task_id next_action frontier_subject))
        ≡ false)

spares-user :
    (o : ClaimOrigin) (e : ClaimEvent) (p : Projection)
    → validate_against_projection o e p ≡ ok tt
    → (origin_eq o agent
        && is_next_action e.kind
        && is_by_user (current_slot p e.task_id next_action frontier_subject))
      ≡ false
unfolding validate_against_projection
spares-user o e p h = reject_if-ok _ _ (then-ok _ _ tt h).1

-- When an event that the view accepts is applied, every claim (with an id that is not empty) stays
-- as it is, with two exceptions. One is the claim that the event names as the one to replace; its
-- author may replace the claim of that id: an agent only its own on the same task, a user anything
-- but what the projector observed. The other is the holder of the slot that the event asserts in,
-- whoever wrote it; but an agent's next action is accepted only while no user's holds the frontier.
pub apply_claim-retires :
    (o : ClaimOrigin) (e : ClaimEvent) (p : Projection) (event_id : Text) (at_ms : ℕ) (c : Claim)
    → validate_against_projection o e p ≡ ok tt
    → is_empty c.id ≡ false
    → Among c p.claims
    → Among c (apply_claim p e event_id at_ms).claims ⊎ Replaces o p e c ⊎ Displaces o p e c
apply_claim-retires o e p event_id at_ms c accepted filled there =
    elim (applied-Among e.op p e event_id at_ms c refl filled there) [
      | inl stays ↦ inl stays
      | inr (inl named) ↦
          let (d, found, may) = accepted-MayReplace o e p c.id accepted named in
          inr (inl (named, d, found, may))
      | inr (inr holder) ↦ inr (inr (holder, spares-user o e p accepted))
    ]
