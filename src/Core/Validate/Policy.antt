-- ===== src/Core/Validate/Policy.antt =====
-- `validate` of crates/core/src/claim.rs, compared with a short policy.
use contextd.Prelude.{
  ◌≤◌, ◌≡◌, ◌≢◌, ◌⊎◌, ◌↔◌, refl, [], ◌∷◌, Bool, true, false, Option, none, some, arith, length,
  Option-cases, inl, inr,
}
use contextd.Prelude.Result.{ok}
use contextd.Text.{Text, trim}
use contextd.Core.Claim.{
  ClaimEvent, ClaimKind, ClaimConfidence, ClaimOrigin, ClaimOp, assert, supersede, close_task,
  projector, user, agent, stated, inferred, hypothesis, reality, intent, decision, constraint,
  ruled_out, unknown, next_action, origin_eq,
}
use contextd.Core.Validate.{
  validate, validate_op, validate_content, validate_role, non_empty, or_else, is_none,
}

-- Who may state which kind of claim, and how firmly.
abbrev pub may_state : ClaimOrigin → ClaimConfidence → ClaimKind → Bool
may_state user stated intent = true
may_state user stated constraint = true
may_state user stated decision = true
may_state user stated ruled_out = true
may_state agent inferred reality = true
may_state agent inferred decision = true
may_state agent inferred ruled_out = true
may_state agent inferred next_action = true
may_state agent hypothesis reality = true
may_state agent hypothesis decision = true
may_state agent hypothesis ruled_out = true
may_state agent hypothesis unknown = true
may_state agent hypothesis next_action = true
may_state _ _ _ = false

-- A claim that says something: its kind, its confidence and its text are given, the text has 1 to
-- 500 characters after trimming, and the author may state it.
abbrev pub IsStatement : ClaimOrigin → ClaimEvent → Type 0
IsStatement o e =
    (k : ClaimKind) × (c : ClaimConfidence) × (t : Text) × (e.kind ≡ some k)
    × (e.confidence ≡ some c)
    × (e.text ≡ some t)
    × (1 ≤ length (trim t))
    × (length (trim t) ≤ 500)
    × (may_state o c k ≡ true)

-- One of the two ids of a retraction is there and not empty.
abbrev pub NamesClaim : Option Text → Text → Type 0
NamesClaim supersedes claim_id = ((t : Text) × (supersedes ≡ some t) × (t ≢ [])) ⊎ (claim_id ≢ [])

-- What an operation asks for: a user alone closes a task, a retraction names a claim, and whatever
-- carries a claim carries one that its author may state.
abbrev pub IsPermitted : ClaimOp → ClaimOrigin → ClaimEvent → Type 0
IsPermitted close_task o e = o ≡ user
IsPermitted supersede o e = NamesClaim e.supersedes e.claim_id × ((e.text ≡ none) ⊎ IsStatement o e)
IsPermitted assert o e = IsStatement o e

role_ok :
    (o : ClaimOrigin) (k : ClaimKind) (c : ClaimConfidence)
    → o ≢ projector
    → validate_role o k c ≡ ok tt
    → may_state o c k ≡ true
unfolding validate_role
role_ok projector k c h e = absurd (h refl)
role_ok user k c h e = ground arith
role_ok agent k c h e = ground arith

ok_role :
    (o : ClaimOrigin) (k : ClaimKind) (c : ClaimConfidence)
    → may_state o c k ≡ true
    → validate_role o k c ≡ ok tt
unfolding validate_role
ok_role projector k c e = ground arith
ok_role user k c e = ground arith
ok_role agent k c e = ground arith

content_ok :
    (o : ClaimOrigin) (e : ClaimEvent)
    → o ≢ projector
    → validate_content o e ≡ ok tt
    → IsStatement o e
unfolding validate_content
content_ok o e h v = elim (Option-cases e.kind) [
  | inl no_kind ↦ absurd (ground arith)
  | inr (k, hk) ↦ elim (Option-cases e.confidence) [
    | inl no_confidence ↦ absurd (ground arith)
    | inr (c, hc) ↦ elim (Option-cases e.text) [
      | inl no_text ↦ absurd (ground arith)
      | inr (t, ht) ↦
          (k, c, t, hk, hc, ht, ground arith, ground arith, role_ok o k c h (ground arith))
    ]
  ]
]

ok_content : (o : ClaimOrigin) (e : ClaimEvent) → IsStatement o e → validate_content o e ≡ ok tt
unfolding validate_content
ok_content o e (k, c, t, hk, hc, ht, low, high, m) =
    rw (hk, hc, ht) (ground (arith, ok_role o k c m))

target_ok :
    (s : Option Text) (id : Text)
    → is_none (or_else (non_empty s) (non_empty (some id))) ≡ false
    → NamesClaim s id
target_ok (some (x ∷ t)) id h = inl (x ∷ t, refl, λ q. cc)
target_ok none (x ∷ id) h = inr (λ q. cc)
target_ok (some []) (x ∷ id) h = inr (λ q. cc)
target_ok none [] h = cc
target_ok (some []) [] h = cc

ok_target :
    (s : Option Text) (id : Text)
    → NamesClaim s id
    → is_none (or_else (non_empty s) (non_empty (some id))) ≡ false
ok_target (some (x ∷ t)) id h = refl
ok_target none (x ∷ id) h = refl
ok_target (some []) (x ∷ id) h = refl
ok_target none [] h = ground arith
ok_target (some []) [] h = ground arith

op_ok :
    (op : ClaimOp) (o : ClaimOrigin) (e : ClaimEvent)
    → o ≢ projector
    → validate_op op o e ≡ ok tt
    → IsPermitted op o e
unfolding validate_op
op_ok close_task o e h v = ground arith
op_ok supersede o e h v = elim (Option-cases e.text) [
  | inl no_text ↦ (target_ok e.supersedes e.claim_id (ground arith), inl no_text)
  | inr (t, ht) ↦
      (target_ok e.supersedes e.claim_id (ground arith), inr (content_ok o e h (ground arith)))
]
op_ok assert o e h v = content_ok o e h v

ok_op :
    (op : ClaimOp) (o : ClaimOrigin) (e : ClaimEvent)
    → IsPermitted op o e
    → validate_op op o e ≡ ok tt
unfolding validate_op
ok_op close_task o e v = ground arith
ok_op supersede o e (target, inl silent) = ground (arith, ok_target e.supersedes e.claim_id target)
ok_op supersede o e (target, inr says) =
    ground (arith, ok_target e.supersedes e.claim_id target, ok_content o e says)
ok_op assert o e v = ok_content o e v

not_projector : (o : ClaimOrigin) → origin_eq o projector ≡ false → o ≢ projector
unfolding origin_eq
not_projector o h e = ground arith

origin_eq→eq : (a b : ClaimOrigin) → origin_eq a b ≡ true → a ≡ b
unfolding origin_eq
origin_eq→eq a b h = ground arith

validate_parts :
    (o : ClaimOrigin) (e : ClaimEvent)
    → validate o e ≡ ok tt
    → (e.origin ≡ o) × (o ≢ projector) × (validate_op e.op o e ≡ ok tt)
unfolding validate
validate_parts o e v =
    (origin_eq→eq e.origin o (ground arith), not_projector o (ground arith), ground arith)

validate_join :
    (o : ClaimOrigin) (e : ClaimEvent)
    → e.origin ≡ o
    → o ≢ projector
    → validate_op e.op o e ≡ ok tt
    → validate o e ≡ ok tt
unfolding validate
validate_join o e same other v = ground arith

-- A claim event is accepted from an author exactly if it is marked as that author's, the author is
-- not the projector, and its operation asks for no more than the policy allows.
pub validate-ok_iff :
    (o : ClaimOrigin) (e : ClaimEvent)
    → (validate o e ≡ ok tt) ↔ ((e.origin ≡ o) × (o ≢ projector) × IsPermitted e.op o e)
validate-ok_iff o e = (
  λ v.
      let (same, other, accepted) = validate_parts o e v in
      (same, other, op_ok e.op o e other accepted),
  λ p. validate_join o e p.0 p.1 (ok_op e.op o e p.2),
)
