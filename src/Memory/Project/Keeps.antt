-- ===== src/Memory/Project/Keeps.antt =====
-- One step of the fold of crates/memory/src/project.rs keeps slots unique, if the claim ids that it
-- adds are new.
use contextd.Prelude.{ℕ, ◌+◌, ◌≤◌, ◌≡◌, true, List, [], ◌∷◌, ◌++◌, arith, count, count-append}
use contextd.Text.{Text, text_eq}
use contextd.Core.Claim.{Claim, ClaimKind, unique_slot}
use contextd.Core.Projection.{Projection, supersede_claim, supersede_slot, push_claim}
use contextd.Core.Projection.Slots.{
  IsUnique, occupants, id_count, push-IsUnique, id_count-push, occupants-supersede-le,
  id_count-supersede, occupants-supersede_slot-le, id_count-supersede_slot, supersede_slot-frees,
}

-- How often an id stands in a list.
unfoldable pub times : Text → List Text → ℕ
times j ids = count (λ i. text_eq i j) ids

-- The step from `p` to `q` adds claims with the given ids at most.
pub record Keeps (p q : Projection) (ids : List Text) : Type 0 where
  pub unique : ((j : Text) → id_count j p + times j ids ≤ 1) → IsUnique p → IsUnique q
  pub fewer : (j : Text) → id_count j q ≤ id_count j p + times j ids

pub times-append : (j : Text) (xs ys : List Text) → times j (xs ++ ys) ≡ times j xs + times j ys
unfolding times
times-append j xs ys = count-append _ xs ys

pub Keeps-trans :
    {p q r : Projection} {xs ys : List Text} → Keeps p q xs → Keeps q r ys → Keeps p r (xs ++ ys)
Keeps-trans {p} {q} {r} {xs} {ys} a b = record {
  unique = λ h u.
      b.unique (λ j. omega (arith, a.fewer j, h j, times-append j xs ys))
        (a.unique (λ j. omega (arith, h j, times-append j xs ys)) u);
  fewer = λ j. omega (arith, a.fewer j, b.fewer j, times-append j xs ys);
}

-- More ids may be allowed than are added.
pub Keeps-more :
    {p q : Projection} {xs : List Text} (ys : List Text) → Keeps p q xs → Keeps p q (xs ++ ys)
Keeps-more {xs = xs} ys a = record {
  unique = λ h u. a.unique (λ j. omega (arith, h j, times-append j xs ys)) u;
  fewer = λ j. omega (arith, a.fewer j, times-append j xs ys);
}

pub Keeps-refl : (p : Projection) → Keeps p p []
Keeps-refl p = record { unique = λ h u. u; fewer = λ j. omega arith }

pub Keeps-same : {p q : Projection} → q.claims ≡ p.claims → Keeps p q []
Keeps-same {p} {q} e = record {
  unique = λ h u. record { at_most_one = λ t k s g. rw e (u.at_most_one t k s g) };
  fewer = λ j. rw e (omega arith);
}

pub Keeps-supersede :
    (p : Projection) (id : Text) (at_ms : ℕ) → Keeps p (supersede_claim p id at_ms).0 []
Keeps-supersede p id at_ms = record {
  unique = λ h u. record {
    at_most_one =
        λ t k s g. omega (arith, u.at_most_one t k s g, occupants-supersede-le p at_ms id t k s);
  };
  fewer = λ j. omega (arith, id_count-supersede p at_ms j id);
}

-- A claim is pushed on a state in which nothing new is current, and its slot is free if its kind
-- allows one holder.
pub Keeps-push :
    (p q : Projection) (c : Claim)
    → ((t : Text) (k : ClaimKind) (s : Text) → occupants t k s q ≤ occupants t k s p)
    → ((j : Text) → id_count j q ≡ id_count j p)
    → (unique_slot c.kind ≡ true
        → ((j : Text) → id_count j p ≤ 1)
        → IsUnique p
        → occupants c.task_id c.kind c.subject q ≡ 0)
    → Keeps p (push_claim q c) (c.id ∷ [])
unfolding times count
Keeps-push p q c fewer same free = record {
  unique = λ h u. push-IsUnique p q c u fewer (λ g. free g (λ j. omega (arith, h j)) u);
  fewer = λ j. omega (arith, same j, id_count-push q c j);
}

-- The common case: the slot is vacated, and the claim is pushed into it.
pub Keeps-replace :
    (p : Projection) (c : Claim) (at_ms : ℕ)
    → Keeps p (push_claim (supersede_slot p c.task_id c.kind c.subject at_ms).0 c) (c.id ∷ [])
Keeps-replace p c at_ms =
    Keeps-push p (supersede_slot p c.task_id c.kind c.subject at_ms).0 c
      (occupants-supersede_slot-le p at_ms c.task_id c.kind c.subject)
      (id_count-supersede_slot p at_ms c.task_id c.kind c.subject)
      (λ g ids u.
        supersede_slot-frees p at_ms c.task_id c.kind c.subject ids
          (u.at_most_one c.task_id c.kind c.subject g))
