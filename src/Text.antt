-- ===== src/Text.antt =====
-- Rust's `String` and `str` as lists of code points, and the standard library's functions on them
-- that the modelled crates call: comparison, trimming, splitting, searching, UTF-8 length.
pub mod Equality
pub mod Decimal
pub mod Spaces
pub mod Search
use Prim.Native.Char.{code}
use contextd.Prelude.{
  ℕ, suc, ◌+◌, ◌*◌, ◌/◌, ◌%◌, String, Bool, true, false, not, ◌&&◌, ◌||◌, Option, none, some, List,
  [], ◌∷◌, ◌++◌, ltb, leb, ◌==◌, if◌then◌else◌, length, any,
}

abbrev pub Text : Type 0
Text = List ℕ

-- A literal of the source. It is shut, so that a proof never computes its characters.
unfoldable pub str : String → Text
str String.[] = []
str (String.◌∷◌ c s) = code c ∷ str s

-- `a == b` on strings
unfoldable pub text_eq : Text → Text → Bool
text_eq [] [] = true
text_eq (x ∷ xs) (y ∷ ys) = x == y && text_eq xs ys
text_eq _ _ = false

abbrev pub is_empty : Text → Bool
is_empty [] = true
is_empty (x ∷ xs) = false

-- `a.cmp(b)` is less or equal: bytes of UTF-8 are in the order of the code points.
unfoldable pub text_le : Text → Text → Bool
text_le [] ys = true
text_le (x ∷ xs) [] = false
text_le (x ∷ xs) (y ∷ ys) = ltb x y || (x == y && text_le xs ys)

-- `char::is_whitespace`: the Unicode property White_Space
unfoldable pub is_whitespace : ℕ → Bool
is_whitespace c =
    (leb 9 c && leb c 13)
    || c == 0x20
    || c == 0x85
    || c == 0xA0
    || c == 0x1680
    || (leb 0x2000 c && leb c 0x200A)
    || c == 0x2028
    || c == 0x2029
    || c == 0x202F
    || c == 0x205F
    || c == 0x3000

unfoldable pub trim_start : Text → Text
trim_start [] = []
trim_start (c ∷ s) = let rest = trim_start s in if is_whitespace c then rest else c ∷ s

-- A character is kept if something after it is kept or it is no white space itself.
unfoldable pub keep_end : ℕ → Text → Text
keep_end c [] = if is_whitespace c then [] else c ∷ []
keep_end c (d ∷ s) = c ∷ d ∷ s

unfoldable pub trim_end : Text → Text
unfolding keep_end
trim_end [] = []
trim_end (c ∷ s) = keep_end c (trim_end s)

unfoldable pub trim : Text → Text
unfolding trim_start trim_end
trim s = trim_end (trim_start s)

-- `split_whitespace`: the word that is being read, reversed order avoided by appending
unfoldable pub flush : Text → List Text → List Text
flush [] words = words
flush (c ∷ w) words = (c ∷ w) ∷ words

unfoldable pub words_from : Text → Text → List Text
unfolding flush
words_from word [] = flush word []
words_from word (c ∷ s) = elim (is_whitespace c) [
  | true ↦ flush word (words_from [] s)
  | false ↦ words_from (word ++ c ∷ []) s
]

abbrev pub split_whitespace : Text → List Text
split_whitespace s = words_from [] s

-- `.join(sep)`
unfoldable pub join : Text → List Text → Text
join sep [] = []
join sep (w ∷ []) = w
join sep (w ∷ v ∷ ws) = w ++ (sep ++ join sep (v ∷ ws))

unfoldable pub starts_with : Text → Text → Bool
starts_with s [] = true
starts_with [] (p ∷ ps) = false
starts_with (c ∷ s) (p ∷ ps) = c == p && starts_with s ps

unfoldable pub contains : Text → Text → Bool
unfolding starts_with
contains [] p = starts_with [] p
contains (c ∷ s) p = starts_with (c ∷ s) p || contains s p

unfoldable pub ends_with : Text → Text → Bool
unfolding text_eq
ends_with [] p = text_eq [] p
ends_with (c ∷ s) p = text_eq (c ∷ s) p || ends_with s p

-- `s.rsplit_once(ch)`: the parts around the last occurrence
unfoldable pub rsplit_once : ℕ → Text → Option (Text × Text)
rsplit_once ch [] = none
rsplit_once ch (c ∷ s) = elim (rsplit_once ch s) [
  | some (a, b) ↦ some (c ∷ a, b)
  | none ↦ if c == ch then some ([], s) else none
]

-- `s.rsplit(ch).next().unwrap_or(s)`: what stands after the last occurrence
unfoldable pub after_last : ℕ → Text → Text
unfolding rsplit_once
after_last ch s = elim (rsplit_once ch s) [ some (a, b) ↦ b | none ↦ s ]

-- `slice.contains(&s)` over string constants
unfoldable pub member : Text → List Text → Bool
unfolding text_eq
member s xs = any (text_eq s) xs

-- `c.len_utf8()`
unfoldable pub len_utf8 : ℕ → ℕ
len_utf8 c = if ltb c 0x80 then 1 else if ltb c 0x800 then 2 else if ltb c 0x10000 then 3 else 4

-- `s.len()`: the bytes of the UTF-8 form
unfoldable pub byte_len : Text → ℕ
byte_len [] = 0
byte_len (c ∷ s) = len_utf8 c + byte_len s

-- The UTF-8 form, for `as_bytes`.
unfoldable pub encode_char : ℕ → List ℕ
encode_char c =
    if ltb c 0x80
    then c ∷ []
    else if ltb c 0x800
    then (0xC0 + c / 64) ∷ (0x80 + c % 64) ∷ []
    else if ltb c 0x10000
    then (0xE0 + c / 4096) ∷ (0x80 + c / 64 % 64) ∷ (0x80 + c % 64) ∷ []
    else (0xF0 + c / 262144) ∷ (0x80 + c / 4096 % 64) ∷ (0x80 + c / 64 % 64) ∷ (0x80 + c % 64) ∷ []

unfoldable pub as_bytes : Text → List ℕ
unfolding encode_char
as_bytes [] = []
as_bytes (c ∷ s) = encode_char c ++ as_bytes s

-- `s.strip_suffix(p)`
unfoldable pub strip_suffix : Text → Text → Option Text
unfolding text_eq
strip_suffix [] p = if text_eq [] p then some [] else none
strip_suffix (c ∷ s) p =
    let rest = strip_suffix s p in
    if text_eq (c ∷ s) p then some [] else elim rest [ none ↦ none | some t ↦ some (c ∷ t) ]

-- `s.lines()`: split at each line feed, with a carriage return before it dropped; nothing after
-- the last line feed is no line.
unfoldable pub drop_cr : Text → Text
drop_cr [] = []
drop_cr (c ∷ []) = if c == 13 then [] else c ∷ []
drop_cr (c ∷ d ∷ s) = c ∷ drop_cr (d ∷ s)

unfoldable pub lines_from : Text → Text → List Text
unfolding drop_cr
lines_from [] [] = []
lines_from (c ∷ line) [] = (c ∷ line) ∷ []
lines_from line (c ∷ s) = elim (c == 10) [
  | true ↦ drop_cr line ∷ lines_from [] s
  | false ↦ lines_from (line ++ c ∷ []) s
]

abbrev pub lines : Text → List Text
lines s = lines_from [] s

-- `s.splitn(2, char::is_whitespace)`: what stands before the first white space, and what after it
unfoldable pub split_once_whitespace : Text → Text × Option Text
split_once_whitespace [] = ([], none)
split_once_whitespace (c ∷ s) =
    let (head, rest) = split_once_whitespace s in
    if is_whitespace c then ([], some s) else (c ∷ head, rest)
