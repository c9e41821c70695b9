-- ===== src/Core/Validate/Authority.antt =====
-- What the rules of crates/core/src/claim.rs let an author replace.
use contextd.Prelude.{ap, ◌∙◌, ◌≡◌, ◌≢◌, ◌⊎◌, inl, inr, some, arith, Option-cases, Bool-cases}
use contextd.Prelude.Result.{ok}
use contextd.Text.{Text}
use contextd.Text.Equality.{text_eq→eq}
use contextd.Core.Claim.{
  ClaimEvent, ClaimOrigin, Claim, projector, user, agent, observed, origin_eq,
}
use contextd.Core.Projection.{Projection, claim}
use contextd.Core.Validate.{
  validate_against_projection, validate_target, validate_existing, replaced_id,
}

-- What the author may replace.
abbrev pub MayReplace : ClaimOrigin → ClaimEvent → Claim → Type 0
MayReplace agent e c = (c.origin ≡ agent) × (c.task_id ≡ e.task_id)
MayReplace user e c = (c.origin ≢ projector) ⊎ (c.confidence ≢ observed)
MayReplace projector e c = Unit

existing-MayReplace :
    (o : ClaimOrigin) (e : ClaimEvent) (c : Claim)
    → validate_existing o e c ≡ ok tt
    → MayReplace o e c
unfolding validate_existing
existing-MayReplace agent e c h = (ground arith, text_eq→eq c.task_id e.task_id (ground arith))
existing-MayReplace user e c h = elim (Bool-cases (origin_eq c.origin projector)) [
  | inl theirs ↦ inr λ same. ground arith
  | inr other ↦ inl λ same. ground arith
]
existing-MayReplace projector e c h = tt

-- An event that the view accepts and that replaces a claim replaces one that is there: an agent
-- only its own claim on the same task, a user anything but what the projector observed.
pub accepted-MayReplace :
    (o : ClaimOrigin) (e : ClaimEvent) (p : Projection) (id : Text)
    → validate_against_projection o e p ≡ ok tt
    → replaced_id e ≡ some id
    → (c : Claim) × (claim p id ≡ some c) × MayReplace o e c
unfolding validate_against_projection validate_target
accepted-MayReplace o e p id h r = elim (Option-cases (claim p id)) [
  | inl unknown ↦ absurd (ground arith)
  | inr (c, there) ↦ (c, there, existing-MayReplace o e c (ground arith))
]

-- An agent's event that names a claim of another author as the one to replace is rejected.
pub foreign-rejected :
    (e : ClaimEvent) (p : Projection) (id : Text) (c : Claim)
    → replaced_id e ≡ some id
    → claim p id ≡ some c
    → c.origin ≢ agent
    → validate_against_projection agent e p ≢ ok tt
foreign-rejected e p id c r there other h =
    let (d, same, own) = accepted-MayReplace agent e p id h r in
    let alike : c ≡ d = cc in other (ap (λ (x : Claim). x.origin) alike ∙ own.0)
