-- ===== src/Text/Spaces.antt =====
-- Splitting at white space, joining and trimming: which characters are left, and how many.
use contextd.Prelude.{
  ℕ, zero, suc, ◌≤◌, ◌≡◌, ◌⊎◌, inl, inr, refl, ap, ◌∙◌, false, List, [], ◌∷◌, ◌++◌, arith, length,
  take, All, All-append, All-map, Bool-cases,
}
use contextd.Text.{
  Text, str, is_whitespace, trim, trim_start, trim_end, keep_end, flush, words_from,
  split_whitespace, join,
}

-- No white space, or a plain space.
abbrev pub IsInk : ℕ → Type 0
IsInk c = is_whitespace c ≡ false

abbrev pub IsPlain : ℕ → Type 0
IsPlain c = (is_whitespace c ≡ false) ⊎ (c ≡ 32)

flush-IsInk :
    (word : Text) (words : List Text)
    → All IsInk word
    → All (All IsInk) words
    → All (All IsInk) (flush word words)
unfolding flush
flush-IsInk [] words h k = k
flush-IsInk (c ∷ word) words h k = (h, k)

words_from-IsInk : (word s : Text) → All IsInk word → All (All IsInk) (words_from word s)
unfolding words_from
words_from-IsInk word [] h = flush-IsInk word [] h tt
words_from-IsInk word (c ∷ s) h = elim (Bool-cases (is_whitespace c)) [
  | inl space ↦
      rw (space, words_from) (flush-IsInk word (words_from [] s) h (words_from-IsInk [] s tt))
  | inr ink ↦
      rw (ink, words_from)
        (words_from-IsInk (word ++ c ∷ []) s (All-append IsInk word (c ∷ []) h (ink, tt)))
]

ink-IsPlain : (word : Text) → All IsInk word → All IsPlain word
ink-IsPlain word h = All-map IsInk IsPlain word (λ c i. inl i) h

join-IsPlain : (words : List Text) → All (All IsInk) words → All IsPlain (join (str " ") words)
unfolding join str
join-IsPlain [] h = tt
join-IsPlain (w ∷ []) h = ink-IsPlain w h.0
join-IsPlain (w ∷ v ∷ ws) h =
    All-append IsPlain w (32 ∷ join (str " ") (v ∷ ws)) (ink-IsPlain w h.0)
      (inr refl, join-IsPlain (v ∷ ws) h.1)

-- Words joined by single spaces hold no other white space.
pub collapse-IsPlain : (s : Text) → All IsPlain (join (str " ") (split_whitespace s))
collapse-IsPlain s = join-IsPlain (split_whitespace s) (words_from-IsInk [] s tt)

pub take-All {κ} : (P : ℕ → Type κ) (n : ℕ) (s : Text) → All P s → All P (take n s)
unfolding take
take-All P zero s h = tt
take-All P (suc n) [] h = tt
take-All P (suc n) (c ∷ s) h = (h.0, take-All P n s h.1)

keep_end-All {κ} : (P : ℕ → Type κ) (c : ℕ) (s : Text) → P c → All P s → All P (keep_end c s)
unfolding keep_end
keep_end-All P c [] h k = elim (Bool-cases (is_whitespace c)) [
  | inl space ↦ rw space tt
  | inr ink ↦ rw ink (h, tt)
]
keep_end-All P c (d ∷ s) h k = (h, k)

pub trim_end-All {κ} : (P : ℕ → Type κ) (s : Text) → All P s → All P (trim_end s)
unfolding trim_end
trim_end-All P [] h = tt
trim_end-All P (c ∷ s) h = keep_end-All P c (trim_end s) h.0 (trim_end-All P s h.1)

length-keep_end : (c : ℕ) (s : Text) → length (keep_end c s) ≤ suc (length s)
unfolding keep_end
length-keep_end c [] = ground arith
length-keep_end c (d ∷ s) = omega arith

pub length-trim_end : (s : Text) → length (trim_end s) ≤ length s
unfolding trim_end
length-trim_end [] = omega arith
length-trim_end (c ∷ s) = omega (arith, length-keep_end c (trim_end s), length-trim_end s)

trim_end-trim_end : (s : Text) → trim_end (trim_end s) ≡ trim_end s
unfolding trim_end
trim_end-trim_end [] = refl
trim_end-trim_end (c ∷ s) = keep_end-again c (trim_end s) (trim_end-trim_end s)
  where
    keep_end-again : (c : ℕ) (w : Text) → trim_end w ≡ w → trim_end (keep_end c w) ≡ keep_end c w
    keep_end-again c [] h = elim (Bool-cases (is_whitespace c)) [
      | inl space ↦ rw (space, keep_end)
      | inr ink ↦ rw (ink, keep_end) (rw (ink, keep_end))
    ]
    keep_end-again c (d ∷ w) h = rw h

-- A text that begins with ink, or is empty.
abbrev BeginsInk : Text → Type 0
BeginsInk [] = Unit
BeginsInk (c ∷ s) = is_whitespace c ≡ false

trim_start-BeginsInk : (s : Text) → BeginsInk (trim_start s)
unfolding trim_start
trim_start-BeginsInk [] = tt
trim_start-BeginsInk (c ∷ s) = elim (Bool-cases (is_whitespace c)) [
  | inl space ↦ rw (space) (trim_start-BeginsInk s)
  | inr ink ↦ rw (ink) ink
]

trim_end-BeginsInk : (s : Text) → BeginsInk s → BeginsInk (trim_end s)
unfolding trim_end
trim_end-BeginsInk [] h = tt
trim_end-BeginsInk (c ∷ s) h = keeps (trim_end s)
  where
    keeps : (w : Text) → BeginsInk (keep_end c w)
    keeps [] = rw (h, keep_end) h
    keeps (d ∷ w) = h

trim_start-id : (s : Text) → BeginsInk s → trim_start s ≡ s
unfolding trim_start
trim_start-id [] h = refl
trim_start-id (c ∷ s) h = rw h

pub trim-trim : (s : Text) → trim (trim s) ≡ trim s
unfolding trim
trim-trim s =
    let u = trim_start s in
    ap trim_end (trim_start-id (trim_end u) (trim_end-BeginsInk u (trim_start-BeginsInk s)))
    ∙ trim_end-trim_end u
