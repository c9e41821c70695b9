-- ===== src/Prelude/Members.antt =====
-- The elements of a list, through sorting, filtering and choosing.
use mathlib.Core.Path.{◌≡◌, refl, sym, subst}
use mathlib.Core.Logic.{◌⊎◌, inl, inr}
use mathlib.Core.Bool.{Bool, true, false}
use mathlib.Core.List.{List, [], ◌∷◌, ◌++◌}
use mathlib.Core.Option.{some}
use native.Mathlib.Omega.{arith}
use contextd.Prelude.Tests.{if◌then◌else◌, Bool-cases}
use contextd.Prelude.Lists.{filter, modify_first, find?}
use contextd.Prelude.Sorting.{insert_by, sort_by, max_from, max_by}

module _ {A : Type 0} where
  abbrev pub Among : A → List A → Type 0
  Among x [] = ⊥
  Among x (y ∷ ys) = (x ≡ y) ⊎ Among x ys

  pub Among-filter :
      (f : A → Bool) (x : A) (xs : List A) → Among x (filter f xs) → Among x xs × (f x ≡ true)
  unfolding filter
  Among-filter f x [] h = absurd h
  Among-filter f x (y ∷ ys) h = elim (Bool-cases (f y)) [
    | inl kept ↦ elim (rw kept at h) [
      | inl same ↦ (inl same, subst (λ z. f z ≡ true) (sym same) kept)
      | inr rest ↦ let (there, holds) = Among-filter f x ys rest in (inr there, holds)
    ]
    | inr dropped ↦ let (there, holds) = Among-filter f x ys (rw dropped at h) in (inr there, holds)
  ]

  Among-insert_by :
      (le : A → A → Bool) (x y : A) (ys : List A) → Among x (insert_by le y ys) → Among x (y ∷ ys)
  unfolding insert_by
  Among-insert_by le x y [] h = h
  Among-insert_by le x y (z ∷ zs) h = elim (Bool-cases (le y z)) [
    | inl before ↦ rw before at h
    | inr behind ↦ elim (rw behind at h) [
      | inl same ↦ inr (inl same)
      | inr rest ↦ elim (Among-insert_by le x y zs rest) [
        | inl same ↦ inl same
        | inr there ↦ inr (inr there)
      ]
    ]
  ]

  pub Among-sort_by :
      (le : A → A → Bool) (x : A) (xs : List A) → Among x (sort_by le xs) → Among x xs
  unfolding sort_by
  Among-sort_by le x [] h = h
  Among-sort_by le x (y ∷ ys) h = elim (Among-insert_by le x y (sort_by le ys) h) [
    | inl same ↦ inl same
    | inr rest ↦ inr (Among-sort_by le x ys rest)
  ]

  Among-either :
      (b : Bool) (m best x : A) (xs : List A)
      → Among m ((if b then x else best) ∷ xs)
      → Among m (best ∷ x ∷ xs)
  Among-either true m best x xs h = inr h
  Among-either false m best x xs (inl same) = inl same
  Among-either false m best x xs (inr there) = inr (inr there)

  Among-max_from :
      (le : A → A → Bool) (best : A) (xs : List A) → Among (max_from le best xs) (best ∷ xs)
  unfolding max_from
  Among-max_from le best [] = inl refl
  Among-max_from le best (x ∷ xs) =
      Among-either (le best x) (max_from le best (x ∷ xs)) best x xs
        (Among-max_from le (if le best x then x else best) xs)

  pub Among-max_by : (le : A → A → Bool) (x : A) (xs : List A) → max_by le xs ≡ some x → Among x xs
  unfolding max_by
  Among-max_by le x [] h = ground arith
  Among-max_by le x (y ∷ ys) h =
      subst (λ z. Among z (y ∷ ys)) (ground arith) (Among-max_from le y ys)

  -- Changing the first that passes a test leaves whatever fails it.
  pub Among-modify_first :
      (p : A → Bool) (f : A → A) (x : A) (xs : List A)
      → Among x xs
      → Among x (modify_first p f xs) ⊎ (p x ≡ true)
  unfolding modify_first
  Among-modify_first p f x [] h = absurd h
  Among-modify_first p f x (y ∷ ys) h = elim (Bool-cases (p y)) [
    | inl hit ↦ elim h [
      | inl same ↦ inr (subst (λ z. p z ≡ true) (sym same) hit)
      | inr rest ↦ rw hit (inl (inr rest))
    ]
    | inr miss ↦ elim h [
      | inl same ↦ rw miss (inl (inl same))
      | inr rest ↦ elim (Among-modify_first p f x ys rest) [
        | inl there ↦ rw miss (inl (inr there))
        | inr hit ↦ inr hit
      ]
    ]
  ]

  -- What is there afterwards was there, or is the changed form of something.
  pub modify_first-Among :
      (p : A → Bool) (f : A → A) (x : A) (xs : List A)
      → Among x (modify_first p f xs)
      → Among x xs ⊎ ((y : A) × (x ≡ f y))
  unfolding modify_first
  modify_first-Among p f x [] h = absurd h
  modify_first-Among p f x (y ∷ ys) h = elim (Bool-cases (p y)) [
    | inl hit ↦ elim (rw hit at h) [ inl same ↦ inr (y, same) | inr rest ↦ inl (inr rest) ]
    | inr miss ↦ elim (rw miss at h) [
      | inl same ↦ inl (inl same)
      | inr rest ↦ elim (modify_first-Among p f x ys rest) [
        | inl there ↦ inl (inr there)
        | inr made ↦ inr made
      ]
    ]
  ]

  pub Among-append : (x : A) (xs ys : List A) → Among x xs → Among x (xs ++ ys)
  Among-append x [] ys h = absurd h
  Among-append x (y ∷ xs) ys (inl same) = inl same
  Among-append x (y ∷ xs) ys (inr rest) = inr (Among-append x xs ys rest)

  pub find?-Among : (p : A → Bool) (x : A) (xs : List A) → find? p xs ≡ some x → Among x xs
  unfolding find?
  find?-Among p x [] h = cc
  find?-Among p x (y ∷ ys) h = elim (Bool-cases (p y)) [
    | inl hit ↦ inl (ground arith)
    | inr miss ↦ inr (find?-Among p x ys (ground arith))
  ]
