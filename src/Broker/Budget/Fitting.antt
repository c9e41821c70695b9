-- ===== src/Broker/Budget/Fitting.antt =====
-- The size of what `fit_to_tokens` of crates/broker/src/budget.rs returns.
use contextd.Prelude.{
  ℕ, zero, suc, ◌+◌, ◌-◌, ◌*◌, ◌≤◌, ◌<◌, ◌≡◌, refl, true, false, none, some, [], ◌∷◌, ◌++◌, ltb,
  leb, arith, tests, le→ltb-false, subst, Bool-cases, Option-cases, inl, inr, ◌⊎◌,
}
use contextd.Text.{Text, byte_len, len_utf8, trim_end, keep_end}
use contextd.Broker.Budget.{
  estimate_tokens, is_char_boundary, retreat, slice_to, rfind_whitespace, cut_at, shorten,
  max_bytes, fit_to_tokens, ellipsis, usize_max,
}

len_utf8-pos : (c : ℕ) → (1 ≤ len_utf8 c) × (len_utf8 c ≤ 4)
unfolding len_utf8
len_utf8-pos c = ground arith

byte_len-append : (s t : Text) → byte_len (s ++ t) ≡ byte_len s + byte_len t
unfolding byte_len
byte_len-append [] t = omega arith
byte_len-append (c ∷ s) t = omega (arith, byte_len-append s t)

byte_len-trim_end : (s : Text) → byte_len (trim_end s) ≤ byte_len s
unfolding trim_end byte_len
byte_len-trim_end [] = omega arith
byte_len-trim_end (c ∷ s) = ground (arith, byte_len-keep_end c (trim_end s), byte_len-trim_end s)
  where
    byte_len-keep_end : (c : ℕ) (s : Text) → byte_len (keep_end c s) ≤ len_utf8 c + byte_len s
    byte_len-keep_end c [] = ground arith
    byte_len-keep_end c (d ∷ s) = omega arith

-- A slice up to a boundary is there, and has as many bytes as were asked for.
slice_to-boundary :
    (s : Text) (n : ℕ)
    → is_char_boundary s n ≡ true
    → (t : Text) × (slice_to s n ≡ some t) × (byte_len t ≡ n)
unfolding is_char_boundary slice_to byte_len
slice_to-boundary [] zero h = ([], refl, refl)
slice_to-boundary (c ∷ s) zero h = ([], refl, refl)
slice_to-boundary [] (suc n) h = ground arith
slice_to-boundary (c ∷ s) (suc n) h = elim (Bool-cases (ltb (suc n) (len_utf8 c))) [
  | inl inside ↦ absurd (ground arith)
  | inr past ↦
      let (t, rest, size) = slice_to-boundary s (suc n - len_utf8 c) (ground arith) in
      (c ∷ t, ground arith, whole t size past)
]
  where
    whole :
        (t : Text)
        → byte_len t ≡ suc n - len_utf8 c
        → ltb (suc n) (len_utf8 c) ≡ false
        → len_utf8 c + byte_len t ≡ suc n
    whole t size past = ground arith

byte_len-ellipsis : byte_len ellipsis ≡ 3
unfolding byte_len len_utf8
byte_len-ellipsis = refl

boundary-zero : (s : Text) → is_char_boundary s 0 ≡ true
unfolding is_char_boundary
boundary-zero [] = refl
boundary-zero (c ∷ s) = refl

retreat-boundary :
    (s : Text) (n : ℕ) → (is_char_boundary s (retreat s n) ≡ true) × (retreat s n ≤ n)
unfolding retreat
retreat-boundary s zero = (boundary-zero s, omega arith)
retreat-boundary s (suc n) = ground (arith, retreat-boundary s n)

boundary-cons :
    (c : ℕ) (s : Text) (n : ℕ)
    → is_char_boundary s n ≡ true
    → is_char_boundary (c ∷ s) (len_utf8 c + n) ≡ true
unfolding is_char_boundary
boundary-cons c s n h =
    let next : len_utf8 c + n ≡ suc (len_utf8 c + n - 1) = omega (arith, len_utf8-pos c) in
    let back : suc (len_utf8 c + n - 1) - len_utf8 c ≡ n = omega (arith, len_utf8-pos c) in
    let past : ltb (suc (len_utf8 c + n - 1)) (len_utf8 c) ≡ false =
      le→ltb-false _ _ (omega (arith, len_utf8-pos c)) in
    rw (next, past, back) h

-- The last white space of a text is at a boundary inside it.
rfind-boundary :
    (s : Text) (n : ℕ)
    → rfind_whitespace s ≡ some n
    → (is_char_boundary s n ≡ true) × (n < byte_len s)
unfolding rfind_whitespace byte_len
rfind-boundary [] n h = ground arith
rfind-boundary (c ∷ s) n h = elim (Option-cases (rfind_whitespace s)) [
  | inl no_later ↦ (rw (first no_later) (boundary-zero (c ∷ s)), ground (arith, len_utf8-pos c))
  | inr (m, later) ↦
      let (inside, before) = rfind-boundary s m later in
      (rw (shifted m later) (boundary-cons c s m inside), omega (arith, shifted m later))
]
  where
    first : rfind_whitespace s ≡ none → n ≡ 0
    first no_later = ground arith

    shifted : (m : ℕ) → rfind_whitespace s ≡ some m → n ≡ len_utf8 c + m
    shifted m later = ground arith

boundary-end : (s : Text) → is_char_boundary s (byte_len s) ≡ true
unfolding byte_len
boundary-end [] = boundary-zero []
boundary-end (c ∷ s) = boundary-cons c s (byte_len s) (boundary-end s)

cut_at-boundary :
    (s : Text)
    → (is_char_boundary s (cut_at s (byte_len s)) ≡ true) × (cut_at s (byte_len s) ≤ byte_len s)
unfolding cut_at
cut_at-boundary s = elim (Option-cases (rfind_whitespace s)) [
  | inl none_there ↦ rw (none_there, cut_at) (boundary-end s, omega arith)
  | inr (n, there) ↦
      let (inside, before) = rfind-boundary s n there in
      rw (there, cut_at) (ground (arith, boundary-end s))
]

shorten-slice :
    (s t : Text)
    → slice_to s (byte_len t) ≡ some t
    → (r : Text) × (shorten s (byte_len t) ≡ some r) × (byte_len r ≤ byte_len t + 3)
unfolding shorten
shorten-slice s t sliced =
    let (inside, short) = cut_at-boundary t in
    let (head, cut, size) = slice_to-boundary t (cut_at t (byte_len t)) inside in
    (trim_end head ++ ellipsis, rw (sliced, shorten, cut), bytes head size short)
  where
    bytes :
        (head : Text)
        → byte_len head ≡ cut_at t (byte_len t)
        → cut_at t (byte_len t) ≤ byte_len t
        → byte_len (trim_end head ++ ellipsis) ≤ byte_len t + 3
    bytes head size short =
        omega (
          arith,
          byte_len-append (trim_end head) ellipsis,
          byte_len-trim_end head,
          byte_len-ellipsis,
        )

shorten-fits :
    (s : Text) (end : ℕ)
    → is_char_boundary s end ≡ true
    → (r : Text) × (shorten s end ≡ some r) × (byte_len r ≤ end + 3)
shorten-fits s end h =
    let (t, sliced, size) = slice_to-boundary s end h in
    subst (λ n. (r : Text) × (shorten s n ≡ some r) × (byte_len r ≤ n + 3)) size
      (shorten-slice s t (rw size sliced))

-- For a text whose length fits a `usize`: shortening it never panics, and the result fits the
-- allowance, the ellipsis included; it is the text itself unless that is longer than the allowance.
pub fit_to_tokens-fits :
    (text : Text) (tokens : ℕ)
    → byte_len text ≤ usize_max
    → (r : Text) × (fit_to_tokens text tokens ≡ some r)
      × (estimate_tokens r ≤ tokens)
      × ((r ≡ text) ⊎ (tokens * 3 < byte_len text))
unfolding fit_to_tokens estimate_tokens
fit_to_tokens-fits text tokens h = elim (Bool-cases (leb (byte_len text) (max_bytes tokens))) [
  | inl fits ↦ (text, rw fits, omega tests, inl refl)
  | inr long ↦ elim (Bool-cases (ltb (max_bytes tokens) 3)) [
    | inl tiny ↦ ([], rw (long, tiny), unfold byte_len in omega arith, inr (omega tests))
    | inr room ↦
        let (inside, back) = retreat-boundary text (max_bytes tokens - 3) in
        let (r, short, size) = shorten-fits text (retreat text (max_bytes tokens - 3)) inside in
        (r, rw (long, room) short, omega tests, inr (omega tests))
  ]
]
