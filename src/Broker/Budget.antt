-- ===== src/Broker/Budget.antt =====
-- crates/broker/src/budget.rs: what a text costs, the running budget, and shortening to fit.
-- A `usize` has 64 bits. An offset into a text counts bytes of its UTF-8 form.
pub mod Spending
pub mod Fitting
use contextd.Prelude.{
  ℕ, zero, suc, ◌+◌, ◌-◌, ◌*◌, ◌/◌, ◌^◌, Bool, true, false, not, ◌&&◌, Option, none, some, List, [],
  ◌∷◌, ◌++◌, ltb, leb, min, if◌then◌else◌,
}
use contextd.Text.{Text, str, byte_len, len_utf8, is_whitespace, trim_end}

abbrev pub chars_per_token : ℕ
chars_per_token = 3

abbrev pub default_token_budget : ℕ
default_token_budget = 1500

abbrev pub usize_max : ℕ
usize_max = 2 ^ 64 - 1

-- `text.len().div_ceil(3)`
unfoldable pub estimate_tokens : Text → ℕ
estimate_tokens text = (byte_len text + 2) / chars_per_token

pub record TokenBudget : Type 0 where
  pub remaining : ℕ
  pub spent : ℕ
  pub exhausted : Bool

-- `TokenBudget::new`
unfoldable pub new : ℕ → TokenBudget
new total = record { remaining = total; spent = 0; exhausted = false }

unfoldable pub try_spend : TokenBudget → Text → TokenBudget × Bool
try_spend b text =
    let cost = estimate_tokens text in
    if ltb b.remaining cost
    then (record b { exhausted = true }, false)
    else (record b { remaining = b.remaining - cost; spent = b.spent + cost }, true)

abbrev pub truncated : TokenBudget → Bool
truncated b = b.exhausted

abbrev pub ellipsis : Text
ellipsis = 0x2026 ∷ []

abbrev pub ellipsis_bytes : ℕ
ellipsis_bytes = 3

-- `text.is_char_boundary(n)`
unfoldable pub is_char_boundary : Text → ℕ → Bool
is_char_boundary s zero = true
is_char_boundary [] (suc n) = false
is_char_boundary (c ∷ s) (suc n) =
    if ltb (suc n) (len_utf8 c) then false else is_char_boundary s (suc n - len_utf8 c)

-- `while end > 0 && !text.is_char_boundary(end) { end -= 1; }`
unfoldable pub retreat : Text → ℕ → ℕ
retreat text zero = zero
retreat text (suc n) =
    let earlier = retreat text n in if is_char_boundary text (suc n) then suc n else earlier

-- `&text[..n]`; `none` is the panic inside a character or past the end.
unfoldable pub slice_to : Text → ℕ → Option Text
slice_to s zero = some []
slice_to [] (suc n) = none
slice_to (c ∷ s) (suc n) =
    let rest = slice_to s (suc n - len_utf8 c) in
    if ltb (suc n) (len_utf8 c) then none else elim rest [ none ↦ none | some t ↦ some (c ∷ t) ]

-- `slice.rfind(char::is_whitespace)`: the offset of the last white space
unfoldable pub rfind_whitespace : Text → Option ℕ
rfind_whitespace [] = none
rfind_whitespace (c ∷ s) = elim (rfind_whitespace s) [
  | some n ↦ some (len_utf8 c + n)
  | none ↦ if is_whitespace c then some 0 else none
]

-- The choice of `cut`.
unfoldable pub cut_at : Text → ℕ → ℕ
cut_at slice end = elim (rfind_whitespace slice) [
  | some boundary ↦ if leb end (boundary * 2) then boundary else end
  | none ↦ end
]

-- From `let slice` on.
unfoldable pub shorten : Text → ℕ → Option Text
shorten text end = elim (slice_to text end) [
  | none ↦ none
  | some slice ↦ elim (slice_to slice (cut_at slice end)) [
    | none ↦ none
    | some head ↦ some (trim_end head ++ ellipsis)
  ]
]

-- `tokens.saturating_mul(3)` stops at the largest `usize`.
abbrev pub max_bytes : ℕ → ℕ
max_bytes tokens = min (tokens * chars_per_token) usize_max

-- `none` is a panic.
unfoldable pub fit_to_tokens : Text → ℕ → Option Text
fit_to_tokens text tokens =
    if leb (byte_len text) (max_bytes tokens)
    then some text
    else if ltb (max_bytes tokens) ellipsis_bytes
    then some []
    else shorten text (retreat text (max_bytes tokens - ellipsis_bytes))
