-- ===== src/Text/Search.antt =====
-- Finding the first place of a text inside another: `s.find(p)` with the parts around the match,
-- and what the match depends on.
use contextd.Prelude.{
  ℕ, ◌≤◌, ◌≡◌, refl, sym, ap, ◌∙◌, true, false, Option, none, some, [], ◌∷◌, ◌++◌, if◌then◌else◌,
  append_assoc, arith, length, length-append, Bool-cases, Option-cases, inl, inr, ◌⊎◌, drop, All,
  ◌≢◌,
}
use contextd.Text.{Text, starts_with, ends_with, text_eq}
use contextd.Text.Equality.{text_eq→eq}

-- `s.find(p)`: the text before the first place of `p` and the text after it
unfoldable pub split_first : Text → Text → Option (Text × Text)
unfolding starts_with drop
split_first p [] = if starts_with [] p then some ([], []) else none
split_first p (c ∷ s) =
    let later = split_first p s in
    if starts_with (c ∷ s) p
    then some ([], drop (length p) (c ∷ s))
    else elim later [ none ↦ none | some (a, b) ↦ some (c ∷ a, b) ]

starts_with-nil : (s : Text) → starts_with s [] ≡ true
unfolding starts_with
starts_with-nil [] = refl
starts_with-nil (c ∷ s) = refl

starts_with_self : (p t : Text) → starts_with (p ++ t) p ≡ true
unfolding starts_with
starts_with_self [] [] = refl
starts_with_self [] (d ∷ t) = refl
starts_with_self (c ∷ p) t = ground (arith, starts_with_self p t)

starts_with_parts : (s p : Text) → starts_with s p ≡ true → s ≡ p ++ drop (length p) s
unfolding starts_with drop
starts_with_parts s [] h = refl
starts_with_parts [] (q ∷ p) h = ground arith
starts_with_parts (c ∷ s) (q ∷ p) h = ground (arith, starts_with_parts s p)

drop_prefix : (p t : Text) → drop (length p) (p ++ t) ≡ t
unfolding drop
drop_prefix [] t = refl
drop_prefix (c ∷ p) t = drop_prefix p t

-- A prefix test reads no further than the prefix is long.
starts_with-long : (s t p : Text) → length p ≤ length s → starts_with (s ++ t) p ≡ starts_with s p
unfolding starts_with
starts_with-long s t [] h = starts_with-nil (s ++ t) ∙ sym (starts_with-nil s)
starts_with-long [] t (q ∷ p) h = absurd (omega arith)
starts_with-long (c ∷ s) t (q ∷ p) h = rw (starts_with-long s t p (omega arith))

starts_with-more : (s t p : Text) → starts_with s p ≡ true → starts_with (s ++ t) p ≡ true
unfolding starts_with
starts_with-more s t [] h = starts_with-nil (s ++ t)
starts_with-more [] t (q ∷ p) h = ground arith
starts_with-more (c ∷ s) t (q ∷ p) h = ground (arith, starts_with-more s t p)

-- A text with no line feed is no prefix across one.
starts_with-line :
    (s t p : Text)
    → All (λ c. c ≢ 10) p
    → starts_with (s ++ 10 ∷ t) p ≡ true
    → starts_with s p ≡ true
unfolding starts_with
starts_with-line s t [] plain h = starts_with-nil s
starts_with-line [] t (q ∷ p) plain h = ground (arith, plain.0)
starts_with-line (c ∷ s) t (q ∷ p) plain h = ground (arith, starts_with-line s t p plain.1)

-- What stands behind a place has no part in the tests before it.
starts_with-behind :
    (c : ℕ) (a p t b : Text)
    → starts_with (c ∷ (a ++ (p ++ t))) p ≡ starts_with (c ∷ (a ++ (p ++ b))) p
starts_with-behind c a p t b =
    let room : length p ≤ length (c ∷ (a ++ p)) = omega (arith, length-append a p) in
    ap (λ (u : Text). starts_with (c ∷ u) p) (sym (append_assoc a p t))
    ∙ starts_with-long (c ∷ (a ++ p)) t p room
    ∙ sym (starts_with-long (c ∷ (a ++ p)) b p room)
    ∙ ap (λ (u : Text). starts_with (c ∷ u) p) (append_assoc a p b)

-- Where a first place can be: at the head, or in the tail when not at the head.
split_first-cons :
    (p : Text) (c : ℕ) (s a b : Text)
    → split_first p (c ∷ s) ≡ some (a, b)
    → ((starts_with (c ∷ s) p ≡ true) × (a ≡ []) × (b ≡ drop (length p) (c ∷ s)))
      ⊎ ((a' : Text) × (a ≡ c ∷ a')
          × (split_first p s ≡ some (a', b))
          × (starts_with (c ∷ s) p ≡ false))
unfolding split_first
split_first-cons p c s a b h = elim (Bool-cases (starts_with (c ∷ s) p)) [
  | inl here ↦ inl (here, ground arith, ground arith)
  | inr later ↦ elim (Option-cases (split_first p s)) [
    | inl no_place ↦ absurd (ground arith)
    | inr ((a', b'), place) ↦ inr (a', ground arith, ground arith, later)
  ]
]

pub split_first_parts : (p s a b : Text) → split_first p s ≡ some (a, b) → s ≡ a ++ (p ++ b)
unfolding split_first starts_with
split_first_parts [] [] a b h = ground arith
split_first_parts (q ∷ p) [] a b h = ground arith
split_first_parts p (c ∷ s) a b h = elim (split_first-cons p c s a b h) [
  | inl (here, front, back) ↦ rw (front, back) (starts_with_parts (c ∷ s) p here)
  | inr (a', front, place, later) ↦ rw front (ap (λ u. c ∷ u) (split_first_parts p s a' b place))
]

pub split_first_self : (p t : Text) → split_first p (p ++ t) ≡ some ([], t)
unfolding split_first starts_with drop
split_first_self [] [] = refl
split_first_self [] (c ∷ t) = refl
split_first_self (q ∷ p) t = rw (starts_with_self (q ∷ p) t) (rw (drop_prefix p t))

-- A place in the tail is a place behind a head where the text does not begin.
split_first-later :
    (p : Text) (c : ℕ) (s a b : Text)
    → starts_with (c ∷ s) p ≡ false
    → split_first p s ≡ some (a, b)
    → split_first p (c ∷ s) ≡ some (c ∷ a, b)
unfolding split_first
split_first-later p c s a b later place = rw (later, split_first, place)

-- What follows the first place can be replaced.
pub split_first-replace :
    (p s a b t : Text) → split_first p s ≡ some (a, b) → split_first p (a ++ (p ++ t)) ≡ some (a, t)
unfolding split_first starts_with
split_first-replace [] [] a b t h =
    let front : a ≡ [] = ground arith in rw front (split_first_self [] t)
split_first-replace (q ∷ p) [] a b t h = ground arith
split_first-replace p (c ∷ s) a b t h = elim (split_first-cons p c s a b h) [
  | inl (here, front, back) ↦ rw front (split_first_self p t)
  | inr (a', front, place, later) ↦
      let behind : starts_with (c ∷ (a' ++ (p ++ t))) p ≡ false =
        starts_with-behind c a' p t b ∙ (rw (sym (split_first_parts p s a' b place)) later) in
      rw front
        (split_first-later p c (a' ++ (p ++ t)) a' t behind (split_first-replace p s a' b t place))
]

-- The first place stays when the text grows at its end.
pub split_first-append :
    (p s a b t : Text) → split_first p s ≡ some (a, b) → split_first p (s ++ t) ≡ some (a, b ++ t)
split_first-append p s a b t h =
    let parts : s ++ t ≡ a ++ (p ++ (b ++ t)) =
      ap (λ (u : Text). u ++ t) (split_first_parts p s a b h)
      ∙ append_assoc a (p ++ b) t
      ∙ ap (λ (u : Text). a ++ u) (append_assoc p b t) in
    rw parts (split_first-replace p s a b (b ++ t) h)

split_first-none-nil : (p : Text) → split_first p [] ≡ none → starts_with [] p ≡ false
unfolding split_first
split_first-none-nil p h = ground arith

split_first-none-cons :
    (p : Text) (c : ℕ) (s : Text)
    → split_first p (c ∷ s) ≡ none
    → (starts_with (c ∷ s) p ≡ false) × (split_first p s ≡ none)
unfolding split_first
split_first-none-cons p c s h = elim (Bool-cases (starts_with (c ∷ s) p)) [
  | inl here ↦ absurd (ground arith)
  | inr later ↦ elim (Option-cases (split_first p s)) [
    | inl no_place ↦ (later, no_place)
    | inr ((a, b), place) ↦ absurd (ground arith)
  ]
]

-- A text with no line feed that does not begin a line does not begin it with the next one added.
starts_with_line-false :
    (s t p : Text)
    → All (λ c. c ≢ 10) p
    → starts_with s p ≡ false
    → starts_with (s ++ 10 ∷ t) p ≡ false
starts_with_line-false s t p plain h = elim (Bool-cases (starts_with (s ++ 10 ∷ t) p)) [
  | inl begins ↦ absurd (ground (arith, starts_with-line s t p plain begins))
  | inr not_there ↦ not_there
]

-- Behind a text that has no place, and a line feed, the first place is that of the rest.
pub split_first-line :
    (p s t a b : Text)
    → All (λ c. c ≢ 10) p
    → split_first p s ≡ none
    → split_first p t ≡ some (a, b)
    → split_first p (s ++ 10 ∷ t) ≡ some (s ++ 10 ∷ a, b)
split_first-line p [] t a b plain h place =
    split_first-later p 10 t a b (starts_with_line-false [] t p plain (split_first-none-nil p h))
      place
split_first-line p (c ∷ s) t a b plain h place =
    let (later, no_place) = split_first-none-cons p c s h in
    split_first-later p c (s ++ 10 ∷ t) (s ++ 10 ∷ a) b
      (starts_with_line-false (c ∷ s) t p plain later)
      (split_first-line p s t a b plain no_place place)

pub split_first-none-prefix :
    (p s t : Text) → split_first p (s ++ t) ≡ none → split_first p s ≡ none
split_first-none-prefix p s t h = elim (Option-cases (split_first p s)) [
  | inl no_place ↦ no_place
  | inr ((a, b), place) ↦ absurd (ground (arith, split_first-append p s a b t place))
]

pub ends_with_parts : (s p : Text) → ends_with s p ≡ true → (a : Text) × (s ≡ a ++ p)
unfolding ends_with
ends_with_parts [] p h = ([], text_eq→eq [] p h)
ends_with_parts (c ∷ s) p h = elim (Bool-cases (text_eq (c ∷ s) p)) [
  | inl same ↦ ([], text_eq→eq (c ∷ s) p same)
  | inr longer ↦
      let (a, parts) = ends_with_parts s p (ground arith) in (c ∷ a, ap (λ u. c ∷ u) parts)
]
