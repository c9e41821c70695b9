-- ===== src/Prelude/Sorting.antt =====
-- `sort_by` and `max_by` of the standard library, over a Boolean comparison `le`.
use mathlib.Core.Path.{◌≡◌, refl}
use mathlib.Core.Logic.{◌⊎◌, inl, inr}
use mathlib.Core.Bool.{Bool, true, false}
use mathlib.Core.List.{List, [], ◌∷◌}
use mathlib.Core.Option.{Option, none, some}
use native.Mathlib.Omega.{arith}
use contextd.Prelude.Tests.{if◌then◌else◌, Bool-cases}
use contextd.Prelude.Lists.{All, All-map, count}

module _ {A : Type 0} (le : A → A → Bool) where
  unfoldable pub insert_by : A → List A → List A
  insert_by x [] = x ∷ []
  insert_by x (y ∷ ys) = let rest = insert_by x ys in if le x y then x ∷ y ∷ ys else y ∷ rest

  -- Equal elements keep their order: an element goes before those that stood behind it.
  unfoldable pub sort_by : List A → List A
  unfolding insert_by
  sort_by [] = []
  sort_by (x ∷ xs) = insert_by x (sort_by xs)

  -- The last of the greatest elements.
  unfoldable pub max_from : A → List A → A
  max_from best [] = best
  max_from best (x ∷ xs) = max_from (if le best x then x else best) xs

  unfoldable pub max_by : List A → Option A
  unfolding max_from
  max_by [] = none
  max_by (x ∷ xs) = some (max_from x xs)

  count-insert_by :
      (p : A → Bool) (x : A) (xs : List A) → count p (insert_by x xs) ≡ count p (x ∷ xs)
  unfolding insert_by count
  count-insert_by p x [] = refl
  count-insert_by p x (y ∷ ys) = ground (arith, count-insert_by p x ys)

  -- Sorting keeps every element, as often as it was there.
  pub count-sort_by : (p : A → Bool) (xs : List A) → count p (sort_by xs) ≡ count p xs
  unfolding sort_by count
  count-sort_by p [] = refl
  count-sort_by p (x ∷ xs) = ground (arith, count-insert_by p x (sort_by xs), count-sort_by p xs)

  abbrev pub Below : A → A → Type 0
  Below x y = le x y ≡ true

  abbrev pub IsSorted : List A → Type 0
  IsSorted [] = Unit
  IsSorted (x ∷ xs) = All (Below x) xs × IsSorted xs

  module _ (total : (x y : A) → (le x y ≡ true) ⊎ (le y x ≡ true))
      (trans : (x y z : A) → le x y ≡ true → le y z ≡ true → le x z ≡ true) where
    All-insert_by :
        (b x : A) (xs : List A) → le b x ≡ true → All (Below b) xs → All (Below b) (insert_by x xs)
    unfolding insert_by
    All-insert_by b x [] h k = (h, tt)
    All-insert_by b x (y ∷ ys) h k = elim (Bool-cases (le x y)) [
      | inl e ↦ rw e (h, k)
      | inr e ↦ rw e (k.0, All-insert_by b x ys h k.1)
    ]

    insert_by-IsSorted : (x : A) (xs : List A) → IsSorted xs → IsSorted (insert_by x xs)
    unfolding insert_by
    insert_by-IsSorted x [] h = (tt, tt)
    insert_by-IsSorted x (y ∷ ys) h = elim (Bool-cases (le x y)) [
      | inl e ↦ rw e ((e, All-map (Below y) (Below x) ys (λ z q. trans x y z e q) h.0), h)
      | inr e ↦ rw e (All-insert_by y x ys (other e) h.0, insert_by-IsSorted x ys h.1)
    ]
      where
        other : le x y ≡ false → le y x ≡ true
        other e = ground (arith, total x y)

    pub sort_by-IsSorted : (xs : List A) → IsSorted (sort_by xs)
    unfolding sort_by
    sort_by-IsSorted [] = tt
    sort_by-IsSorted (x ∷ xs) = insert_by-IsSorted x (sort_by xs) (sort_by-IsSorted xs)

    pick_bound :
        (best x : A)
        → (le best (if le best x then x else best) ≡ true)
          × (le x (if le best x then x else best) ≡ true)
    pick_bound best x = ground (arith, total best x, total best best, total x x)

    -- Whatever is above the result is above every element.
    pub max_from_bound :
        (best : A) (xs : List A) (m : A)
        → le (max_from best xs) m ≡ true
        → (le best m ≡ true) × All (λ x. le x m ≡ true) xs
    unfolding max_from
    max_from_bound best [] m h = (h, tt)
    max_from_bound best (x ∷ xs) m h =
        let b = if le best x then x else best in
        let (up, rest) = max_from_bound b xs m h in
        let (left, right) = pick_bound best x in
        (trans best b m left up, (trans x b m right up, rest))
