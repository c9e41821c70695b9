-- ===== src/Core/Projection/Slots.antt =====
-- How many current claims stand in a slot, and how the operations of `Projection`
-- (crates/core/src/claim.rs) change that.
use contextd.Prelude.{
  ℕ, suc, ◌+◌, ◌≤◌, ◌≡◌, ap, ◌∙◌, inl, inr, refl, Bool, true, false, some, List, [], ◌∷◌, arith,
  count, find?, ◌++◌, modify_first, count-append, count-find?-none, Bool-cases, Option-cases,
  if◌then◌else◌,
}
use contextd.Text.{Text, text_eq}
use contextd.Text.Equality.{text_eq_refl, text_eq→eq}
use contextd.Core.Claim.{Claim, ClaimKind, current, unique_slot, kind_eq}
use contextd.Core.Projection.{
  Projection, has_claim_id, in_slot, current_slot, retire, supersede_claim, supersede_slot,
  push_claim,
}

-- The current claims of a slot, and the claims with an id.
abbrev pub occupants : Text → ClaimKind → Text → Projection → ℕ
occupants task_id kind subject p = count (in_slot task_id kind subject) p.claims

abbrev pub id_count : Text → Projection → ℕ
id_count id p = count (has_claim_id id) p.claims

-- No slot of a kind that allows one current claim holds two.
pub record IsUnique (p : Projection) : Type 0 where
  pub at_most_one :
      (task_id : Text) (kind : ClaimKind) (subject : Text)
      → unique_slot kind ≡ true
      → occupants task_id kind subject p ≤ 1

pub count_of_found {ℓ} :
    {A : Type ℓ} (p q : A → Bool) (xs : List A) (x : A)
    → find? p xs ≡ some x
    → q x ≡ true
    → 1 ≤ count q xs
unfolding find? count
count_of_found p q [] x h k = ground arith
count_of_found p q (y ∷ ys) x h k = ground (arith, count_of_found p q ys x)

module _ (task_id : Text) (kind : ClaimKind) (subject : Text) (at_ms : ℕ) where
  slot-retire-le :
      (id : Text) (cs : List Claim)
      → count (in_slot task_id kind subject) (modify_first (has_claim_id id) (retire at_ms) cs)
        ≤ count (in_slot task_id kind subject) cs
  unfolding count modify_first in_slot
  slot-retire-le id [] = omega arith
  slot-retire-le id (c ∷ cs) = ground (arith, slot-retire-le id cs)

  retired-free : (c : Claim) → in_slot task_id kind subject (retire at_ms c) ≡ false
  unfolding in_slot
  retired-free c = refl

  -- The claim that a search of the slot finds leaves the slot when its id is retired, if no
  -- other claim has the id.
  slot-retire :
      (cs : List Claim) (c : Claim)
      → find? (in_slot task_id kind subject) cs ≡ some c
      → count (has_claim_id c.id) cs ≤ 1
      → suc (
          count (in_slot task_id kind subject) (modify_first (has_claim_id c.id) (retire at_ms) cs))
        ≡ count (in_slot task_id kind subject) cs
  unfolding count find? modify_first
  slot-retire [] c h k = ground arith
  slot-retire (x ∷ cs) c h k = elim (Bool-cases (in_slot task_id kind subject x)) [
    | inl here ↦ ground (arith, text_eq_refl c.id, retired-free x)
    | inr later ↦ ground (
      arith,
      slot-retire cs c,
      count_of_found (in_slot task_id kind subject) (has_claim_id c.id) cs c,
      text_eq_refl c.id,
    )
  ]

id-retire :
    (j id : Text) (at_ms : ℕ) (cs : List Claim)
    → count (has_claim_id j) (modify_first (has_claim_id id) (retire at_ms) cs)
      ≡ count (has_claim_id j) cs
unfolding count modify_first
id-retire j id at_ms [] = refl
id-retire j id at_ms (c ∷ cs) = ground (arith, id-retire j id at_ms cs)

module _ (p : Projection) (at_ms : ℕ) where
  pub occupants-supersede-le :
      (id : Text) (task_id : Text) (kind : ClaimKind) (subject : Text)
      → occupants task_id kind subject (supersede_claim p id at_ms).0
        ≤ occupants task_id kind subject p
  unfolding supersede_claim
  occupants-supersede-le id task_id kind subject =
      slot-retire-le task_id kind subject at_ms id p.claims

  pub id_count-supersede : (j id : Text) → id_count j (supersede_claim p id at_ms).0 ≡ id_count j p
  unfolding supersede_claim
  id_count-supersede j id = id-retire j id at_ms p.claims

  module _ (task_id : Text) (kind : ClaimKind) (subject : Text) where
    pub id_count-supersede_slot :
        (j : Text) → id_count j (supersede_slot p task_id kind subject at_ms).0 ≡ id_count j p
    unfolding supersede_slot
    id_count-supersede_slot j = elim (Option-cases (current_slot p task_id kind subject)) [
      | inl free ↦ rw (free, supersede_slot)
      | inr (c, held) ↦ rw (held, supersede_slot) (id-retire j c.id at_ms p.claims)
    ]

    pub occupants-supersede_slot-le :
        (task_id' : Text) (kind' : ClaimKind) (subject' : Text)
        → occupants task_id' kind' subject' (supersede_slot p task_id kind subject at_ms).0
          ≤ occupants task_id' kind' subject' p
    unfolding supersede_slot
    occupants-supersede_slot-le t k s = elim (Option-cases (current_slot p task_id kind subject)) [
      | inl free ↦ rw (free, supersede_slot) (omega arith)
      | inr (c, held) ↦ rw (held, supersede_slot) (slot-retire-le t k s at_ms c.id p.claims)
    ]

    -- A slot with one holder at most is free after `supersede_slot`, if ids are distinct.
    pub supersede_slot-frees :
        ((id : Text) → id_count id p ≤ 1)
        → occupants task_id kind subject p ≤ 1
        → occupants task_id kind subject (supersede_slot p task_id kind subject at_ms).0 ≡ 0
    unfolding supersede_slot current_slot
    supersede_slot-frees ids one =
        elim (Option-cases (find? (in_slot task_id kind subject) p.claims)) [
          | inl free ↦ rw (free, supersede_slot) (count-find?-none _ p.claims free)
          | inr (c, held) ↦
              rw (held, supersede_slot)
                (omega (arith, slot-retire task_id kind subject at_ms p.claims c held (ids c.id)))
        ]

in_slot-eq :
    (task_id : Text) (kind : ClaimKind) (subject : Text) (c : Claim)
    → in_slot task_id kind subject c ≡ true
    → (c.task_id ≡ task_id) × (c.kind ≡ kind) × (c.subject ≡ subject)
unfolding in_slot kind_eq
in_slot-eq t k s c h =
    (text_eq→eq c.task_id t (ground arith), ground arith, text_eq→eq c.subject s (ground arith))

count-one {ℓ} : {A : Type ℓ} (p : A → Bool) (x : A) → count p (x ∷ []) ≤ 1
unfolding count
count-one p x = ground arith

-- A claim may be pushed after its slot was freed: every slot keeps one holder at most.
pub push-IsUnique :
    (p q : Projection) (c : Claim)
    → IsUnique p
    → ((t : Text) (k : ClaimKind) (s : Text) → occupants t k s q ≤ occupants t k s p)
    → (unique_slot c.kind ≡ true → occupants c.task_id c.kind c.subject q ≡ 0)
    → IsUnique (push_claim q c)
unfolding push_claim count
push-IsUnique p q c unique fewer free = record {
  at_most_one = λ t k s u.
      rw (count-append (in_slot t k s) q.claims (c ∷ [])) (elim (Bool-cases (in_slot t k s c)) [
        | inl here ↦ taken t k s (in_slot-eq t k s c here) u
        | inr other ↦ rw (other, count) (omega (arith, fewer t k s, unique.at_most_one t k s u))
      ]);
}
  where
    taken :
        (t : Text) (k : ClaimKind) (s : Text)
        → (c.task_id ≡ t) × (c.kind ≡ k) × (c.subject ≡ s)
        → unique_slot k ≡ true
        → count (in_slot t k s) q.claims + count (in_slot t k s) (c ∷ []) ≤ 1
    taken t k s (et, ek, es) u =
        rw (← et, ← ek, ← es)
          (omega
            (arith, free (ap unique_slot ek ∙ u), count-one (in_slot c.task_id c.kind c.subject) c))

pub id_count-push :
    (p : Projection) (c : Claim) (j : Text)
    → id_count j (push_claim p c) ≡ id_count j p + (if text_eq c.id j then 1 else 0)
unfolding push_claim count
id_count-push p c j = rw count-append (omega arith)

find?-last {ℓ} :
    {A : Type ℓ} (p : A → Bool) (xs : List A) (x : A)
    → count p xs ≡ 0
    → p x ≡ true
    → find? p (xs ++ x ∷ []) ≡ some x
unfolding find? count
find?-last p [] x h k = rw k
find?-last p (y ∷ ys) x h k = ground (arith, find?-last p ys x)

-- What is pushed into a free slot is what the slot holds.
pub push-current :
    (p : Projection) (c : Claim)
    → c.status ≡ current
    → occupants c.task_id c.kind c.subject p ≡ 0
    → current_slot (push_claim p c) c.task_id c.kind c.subject ≡ some c
unfolding current_slot push_claim in_slot kind_eq
push-current p c h free =
    find?-last (in_slot c.task_id c.kind c.subject) p.claims c free
      (ground (arith, text_eq_refl c.task_id, text_eq_refl c.subject))
