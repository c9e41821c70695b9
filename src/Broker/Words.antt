-- ===== src/Broker/Words.antt =====
-- The tests on words of crates/broker/src/extract.rs, over code points: a byte next to a match is
-- an ASCII letter or digit exactly if the code point is. `to_lowercase` is a parameter.
use contextd.Prelude.{
  ℕ, zero, suc, ◌+◌, ◌-◌, Bool, true, false, not, ◌&&◌, ◌||◌, List, [], ◌∷◌, ◌++◌, map, reverse,
  leb, ◌==◌, if◌then◌else◌, length, take, drop, any, filter,
}
use contextd.Text.{
  Text, str, text_eq, is_empty, is_whitespace, trim, trim_start, starts_with, contains, member,
  split_whitespace, join,
}

abbrev pub stop : List Text
stop =
    str "about"
    ∷ str "after"
    ∷ str "also"
    ∷ str "and"
    ∷ str "are"
    ∷ str "because"
    ∷ str "been"
    ∷ str "before"
    ∷ str "but"
    ∷ str "for"
    ∷ str "from"
    ∷ str "have"
    ∷ str "into"
    ∷ str "only"
    ∷ str "that"
    ∷ str "than"
    ∷ str "the"
    ∷ str "their"
    ∷ str "them"
    ∷ str "then"
    ∷ str "this"
    ∷ str "with"
    ∷ str "would"
    ∷ []

unfoldable pub is_ascii_alphabetic : ℕ → Bool
is_ascii_alphabetic c = (leb 65 c && leb c 90) || (leb 97 c && leb c 122)

unfoldable pub is_ascii_alphanumeric : ℕ → Bool
is_ascii_alphanumeric c = is_ascii_alphabetic c || (leb 48 c && leb c 57)

unfoldable pub to_ascii_lowercase : ℕ → ℕ
to_ascii_lowercase c = if leb 65 c && leb c 90 then c + 32 else c

unfoldable pub collapse : Text → Text
collapse value = join (str " ") (split_whitespace value)

-- `text.split(test)`: the pieces between the characters that pass the test
unfoldable pub pieces_from : (ℕ → Bool) → Text → Text → List Text
pieces_from cuts piece [] = piece ∷ []
pieces_from cuts piece (c ∷ s) = elim (cuts c) [
  | true ↦ piece ∷ pieces_from cuts [] s
  | false ↦ pieces_from cuts (piece ++ c ∷ []) s
]

abbrev pub split : (ℕ → Bool) → Text → List Text
split cuts s = pieces_from cuts [] s

-- Whether a neighbour of a match is missing or no part of a word.
abbrev pub edge_ok : (ℕ → Bool) → Text → Bool
edge_ok in_word [] = true
edge_ok in_word (c ∷ s) = not (in_word c)

-- The loop over `match_indices`: `before` is what has been read, the last character first, and
-- `skip` what is left of the last match.
unfoldable pub any_match : (ℕ → Bool) → Text → Text → ℕ → Text → Bool
any_match in_word word before skip [] = false
any_match in_word word before (suc skip) (c ∷ s) = any_match in_word word (c ∷ before) skip s
any_match in_word word before zero (c ∷ s) = elim (starts_with (c ∷ s) word) [
  | true ↦
      (edge_ok in_word before && edge_ok in_word (drop (length word) (c ∷ s)))
      || any_match in_word word (c ∷ before) (length word - 1) s
  | false ↦ any_match in_word word (c ∷ before) 0 s
]

unfoldable pub contains_phrase : Text → Text → Bool
contains_phrase lower phrase = any_match is_ascii_alphanumeric phrase [] 0 lower

unfoldable pub starts_word : Text → Text → Bool
starts_word lower word =
    let rest = trim_start lower in
    starts_with rest word && edge_ok is_ascii_alphanumeric (drop (length word) rest)

abbrev pub starts_phrase : Text → Text → Bool
starts_phrase lower phrase = starts_word lower phrase

abbrev pub is_word_character : ℕ → Bool
is_word_character c = is_ascii_alphanumeric c || c == 95

unfoldable pub starts_like_word : Text → Bool
starts_like_word [] = false
starts_like_word (c ∷ s) = is_ascii_alphabetic c || c == 95

unfoldable pub trim_underscores : Text → Text
trim_underscores [] = []
trim_underscores (c ∷ s) = let rest = trim_underscores s in if c == 95 then rest else c ∷ s

-- `token.trim_matches('_')`
unfoldable pub trim_matches : Text → Text
trim_matches token = reverse (trim_underscores (reverse (trim_underscores token)))

abbrev pub keeps_word : Text → Bool
keeps_word token = leb 4 (length token) && not (member token stop) && starts_like_word token

unfoldable pub keep_token : Text → List Text
keep_token word =
    let token = trim_matches word in
    (if keeps_word token then token ∷ [] else [])
    ++ filter (λ part. keeps_word part && not (text_eq part token)) (split (λ c. c == 95) token)

unfoldable pub tokens_from : Text → Text → List Text
tokens_from [] [] = []
tokens_from (d ∷ current) [] = keep_token (d ∷ current)
tokens_from current (c ∷ s) = elim (is_word_character c) [
  | true ↦ tokens_from (current ++ to_ascii_lowercase c ∷ []) s
  | false ↦ elim (is_empty current) [
    | true ↦ tokens_from [] s
    | false ↦ keep_token current ++ tokens_from [] s
  ]
]

abbrev pub content_tokens : Text → List Text
content_tokens text = tokens_from [] text

-- How many different texts of the first list are in the second.
unfoldable pub count_common : List Text → List Text → ℕ
count_common [] support = 0
count_common (token ∷ tokens) support =
    (if member token support && not (member token tokens) then 1 else 0)
    + count_common tokens support

unfoldable pub content_overlap : Text → Text → ℕ
content_overlap claim support = count_common (content_tokens claim) (content_tokens support)

-- A sentence ends at a full stop, an exclamation or a question mark with white space behind it.
abbrev pub ends_sentence : ℕ → Text → Bool
ends_sentence c [] = false
ends_sentence c (d ∷ s) = (c == 46 || c == 33 || c == 63) && is_whitespace d

abbrev pub push_sentence : Text → List Text → List Text
push_sentence sentence out = if is_empty (trim sentence) then out else trim sentence ∷ out

unfoldable pub sentences_from : Bool → Text → Text → List Text
sentences_from skipping sentence [] = push_sentence sentence []
sentences_from skipping sentence (c ∷ s) = elim (skipping && is_whitespace c) [
  | true ↦ sentences_from true [] s
  | false ↦ elim (ends_sentence c s) [
    | true ↦ push_sentence (sentence ++ c ∷ []) (sentences_from true [] s)
    | false ↦ sentences_from false (sentence ++ c ∷ []) s
  ]
]

abbrev pub sentences : Text → List Text
sentences text = sentences_from false [] text

module _ (to_lowercase : Text → Text) where
  unfoldable pub words : Text → List Text
  words text =
      map to_lowercase
        (filter (λ word. not (is_empty word)) (split (λ c. not (is_ascii_alphanumeric c)) text))

  unfoldable pub has_word : Text → Text → Bool
  has_word text word = any_match is_word_character (to_lowercase word) [] 0 (to_lowercase text)

  -- The words from one on: "no", then a word for another, then soon a dependency.
  unfoldable pub no_new_from : List Text → Bool
  no_new_from [] = false
  no_new_from (word ∷ []) = false
  no_new_from (word ∷ next ∷ rest) =
      (text_eq word (str "no")
        && member next (str "new" ∷ str "extra" ∷ str "additional" ∷ [])
        && any (λ later. starts_with later (str "dependenc")) (take 4 rest))
      || no_new_from (next ∷ rest)

  unfoldable pub no_new_dependency : Text → Bool
  no_new_dependency sentence = no_new_from (words sentence)

  unfoldable pub do_not_add_dependency : Text → Bool
  do_not_add_dependency sentence =
      any (λ phrase. contains (to_lowercase sentence) phrase)
        (str "do not add a dependency"
          ∷ str "do not add a new dependency"
          ∷ str "don't add a dependency"
          ∷ str "don't add a new dependency"
          ∷ [])

  unfoldable pub normative : Text → Bool
  normative sentence =
      no_new_dependency sentence
      || do_not_add_dependency sentence
      || (any (has_word sentence) (
            str "signature"
            ∷ str "constructor"
            ∷ str "handle_request"
            ∷ str "handle_async_request"
            ∷ [])
          && any (has_word sentence)
              (str "keep" ∷ str "unchanged" ∷ str "stay" ∷ str "stays" ∷ str "preserve" ∷ []))
