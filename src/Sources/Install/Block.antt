-- ===== src/Sources/Install/Block.antt =====
-- Where `find_block` of crates/sources/src/install.rs finds the managed block.
use contextd.Prelude.{
  ◌≡◌, ◌≢◌, refl, sym, ap, ◌∙◌, inl, inr, false, Option, none, some, [], ◌∷◌, ◌++◌, ◌==◌,
  append-nil, append_assoc, arith, All, any, Bool-cases, Option-cases,
}
use contextd.Text.{Text, str, ends_with}
use contextd.Text.Search.{
  split_first, split_first_parts, split_first-append, split_first_self, ends_with_parts,
  split_first-none-prefix, split_first-line,
}
use contextd.Sources.Install.{begin_marker, end_marker, end_block, find_block, separator}

-- What the snippets are: a begin marker, a body, and one end marker that ends the last line.
pub record IsSnippet (snippet : Text) : Type 0 where
  pub body : Text
  pub begins : snippet ≡ begin_marker ++ body
  pub inside : Text
  pub ends : split_first end_marker snippet ≡ some (inside, 10 ∷ [])

line_of_test : (s : Text) → any (λ c. c == 10) s ≡ false → All (λ c. c ≢ 10) s
unfolding any
line_of_test [] h = tt
line_of_test (c ∷ s) h = (ground arith, line_of_test s (ground arith))

begin_marker-IsLine : All (λ c. c ≢ 10) begin_marker
unfolding any str
begin_marker-IsLine = line_of_test begin_marker refl

-- The block of a text that holds a snippet behind the first begin marker.
pub find_block-at :
    (snippet : Text) (s : IsSnippet snippet) (text before after : Text)
    → split_first begin_marker text ≡ some (before, IsSnippet.body s ++ after)
    → find_block text ≡ some (before, snippet, after)
unfolding find_block end_block
find_block-at snippet s text before after place =
    let inside = IsSnippet.inside s in
    let block : snippet ≡ inside ++ (end_marker ++ 10 ∷ []) =
      split_first_parts end_marker snippet inside (10 ∷ []) (IsSnippet.ends s) in
    let whole : begin_marker ++ (IsSnippet.body s ++ after) ≡ snippet ++ after =
      sym (append_assoc begin_marker (IsSnippet.body s) after)
      ∙ ap (λ (u : Text). u ++ after) (sym (IsSnippet.begins s)) in
    let ending : split_first end_marker (begin_marker ++ (IsSnippet.body s ++ after))
        ≡ some (inside, 10 ∷ after) =
      ap (split_first end_marker) whole
      ∙ split_first-append end_marker snippet inside (10 ∷ []) after (IsSnippet.ends s) in
    rw (place, find_block, ending) (rw (sym block))

-- The profile that `install_shell_hook` leaves when it finds no block.
abbrev pub appended : Text → Text → Text
appended existing snippet = existing ++ (separator existing ++ snippet)

-- A snippet behind a text with no begin marker is the first block, whatever that text ends with.
split_first-behind :
    (s t body : Text)
    → split_first begin_marker s ≡ none
    → split_first begin_marker t ≡ some ([], body)
    → split_first begin_marker (s ++ 10 ∷ t) ≡ some (s ++ 10 ∷ [], body)
split_first-behind s t body h place =
    split_first-line begin_marker s t [] body begin_marker-IsLine h place

-- The same behind a blank line.
split_first-blank :
    (s a t body : Text)
    → s ≡ a ++ 10 ∷ 10 ∷ []
    → split_first begin_marker s ≡ none
    → split_first begin_marker t ≡ some ([], body)
    → split_first begin_marker (s ++ t) ≡ some (s ++ [], body)
split_first-blank s a t body parts h place =
    let ends : s ≡ (a ++ 10 ∷ []) ++ 10 ∷ [] = parts ∙ sym (append_assoc a (10 ∷ []) (10 ∷ [])) in
    let no_place : split_first begin_marker (a ++ 10 ∷ []) ≡ none =
      split_first-none-prefix begin_marker (a ++ 10 ∷ []) (10 ∷ []) (rw (sym ends) h) in
    rw (ends, append_assoc (a ++ 10 ∷ []) (10 ∷ []) t, append-nil)
      (split_first-behind (a ++ 10 ∷ []) t body no_place place)

pub split_first-appended :
    (existing body : Text)
    → split_first begin_marker existing ≡ none
    → split_first begin_marker (existing ++ (separator existing ++ (begin_marker ++ body)))
      ≡ some (existing ++ separator existing, body)
unfolding separator
split_first-appended [] body h = split_first_self begin_marker body
split_first-appended (c ∷ s) body h = elim (Bool-cases (ends_with (c ∷ s) (10 ∷ 10 ∷ []))) [
  | inl blank ↦
      let (a, parts) = ends_with_parts (c ∷ s) (10 ∷ 10 ∷ []) blank in
      rw blank (
        split_first-blank (c ∷ s) a (begin_marker ++ body) body parts h
          (split_first_self begin_marker body))
  | inr no_blank ↦ elim (Bool-cases (ends_with (c ∷ s) (10 ∷ []))) [
    | inl line ↦
        rw (no_blank, line)
          (split_first-behind (c ∷ s) (begin_marker ++ body) body h
            (split_first_self begin_marker body))
    | inr inside ↦
        rw (no_blank, inside)
          (split_first-line begin_marker (c ∷ s) (10 ∷ (begin_marker ++ body)) (10 ∷ []) body
            begin_marker-IsLine h
            (split_first-behind [] (begin_marker ++ body) body
              (split_first-none-prefix begin_marker [] (c ∷ s) h)
              (split_first_self begin_marker body)))
  ]
]

-- The first begin marker of a text with a block.
end_block-before : (before inside after : Text) → (end_block before inside after).0 ≡ before
unfolding end_block
end_block-before before inside [] = refl
end_block-before before inside (c ∷ after) = ground arith

pub find_block-begins :
    (text before block after : Text)
    → find_block text ≡ some (before, block, after)
    → (rest : Text) × (split_first begin_marker text ≡ some (before, rest))
unfolding find_block end_block
find_block-begins text before block after h = elim (Option-cases (split_first begin_marker text)) [
  | inl no_place ↦ absurd (no_such (rw (no_place, find_block) at h))
  | inr ((front, rest), place) ↦
      elim (Option-cases (split_first end_marker (begin_marker ++ rest))) [
        | inl no_end ↦ absurd (no_such (rw (no_end, find_block) at (rw (place, find_block) at h)))
        | inr ((inside, tail), ending) ↦
            let found : Option.some (end_block front inside tail) ≡ some (before, block, after) =
              rw (ending, find_block) at (rw (place, find_block) at h) in
            (rest, place ∙ ap (λ b. some (b, rest)) (same_front inside tail front found))
      ]
]
  where
    no_such : {A : Type 0} {a : A} → none ≡ some a → ⊥
    no_such e = ground arith

    some_inj : {A : Type 0} {a b : A} → some a ≡ some b → a ≡ b
    some_inj e = ground arith

    same_front :
        (inside tail front : Text)
        → some (end_block front inside tail) ≡ some (before, block, after)
        → front ≡ before
    same_front inside tail front found =
        sym (end_block-before front inside tail)
        ∙ ap (λ (b : Text × Text × Text). b.0) (some_inj found)

pub find_block-none : (text : Text) → split_first begin_marker text ≡ none → find_block text ≡ none
unfolding find_block
find_block-none text h = rw (h, find_block)
