-- ===== src/Pipeline/Content/Summaries.antt =====
-- The form of the summaries of crates/pipeline/src/content.rs.
use contextd.Prelude.{
  ◌≤◌, ◌≡◌, inl, inr, refl, subst, false, some, [], ◌∷◌, arith, tests, leb, take, length, All,
  All-append, length-append, length-take, Bool-cases, Option-cases,
}
use contextd.Text.{Text, is_empty, is_whitespace, trim_end}
use contextd.Text.Spaces.{IsPlain, collapse-IsPlain, take-All, trim_end-All, length-trim_end}
use contextd.Json.{Json}
use contextd.Core.Event.{RawEvent}
use contextd.Pipeline.Content.{
  truncate, collapse_whitespace, finish, draft, summarize, max_summary_chars,
}

-- At least one and at most 160 characters, and no white space but plain spaces.
pub record IsLine (s : Text) : Type 0 where
  pub some_text : 1 ≤ length s
  pub short : length s ≤ 160
  pub plain : All IsPlain s

ellipsis-IsPlain : IsPlain 0x2026
unfolding is_whitespace
ellipsis-IsPlain = inl refl

pub truncate-IsLine :
    (t : Text) → is_empty t ≡ false → All IsPlain t → IsLine (truncate t max_summary_chars)
unfolding truncate
truncate-IsLine [] h p = cc
truncate-IsLine (c ∷ t) h p = elim (Bool-cases (leb (length (c ∷ t)) 160)) [
  | inl fits ↦ rw fits (record { some_text = omega arith; short = omega tests; plain = p })
  | inr long ↦
      let kept = take 159 (c ∷ t) in
      rw long (record {
        some_text = omega (arith, length-append (trim_end kept) (0x2026 ∷ []));
        short = omega (
          arith,
          length-append (trim_end kept) (0x2026 ∷ []),
          length-trim_end kept,
          length-take 159 (c ∷ t),
        );
        plain =
            All-append IsPlain (trim_end kept) (0x2026 ∷ [])
              (trim_end-All IsPlain kept (take-All IsPlain 159 (c ∷ t) p)) (ellipsis-IsPlain, tt);
      })
]

finish-IsLine : (t s : Text) → finish t ≡ some s → IsLine s
unfolding finish collapse_whitespace
finish-IsLine t s h = elim (Bool-cases (is_empty (collapse_whitespace t))) [
  | inl blank ↦ absurd (ground arith)
  | inr some_text ↦
      subst IsLine (line some_text)
        (truncate-IsLine (collapse_whitespace t) some_text (collapse-IsPlain t))
]
  where
    line :
        is_empty (collapse_whitespace t) ≡ false
        → truncate (collapse_whitespace t) max_summary_chars ≡ s
    line some_text = ground arith

module _ {V : Type 0} (json : Json V) where
  -- Whatever the payload holds, a summary is one line: 1 to 160 characters, with no line break and
  -- no white space but plain spaces.
  pub summarize-IsLine : (e : RawEvent V) (s : Text) → summarize json e ≡ some s → IsLine s
  unfolding summarize
  summarize-IsLine e s h = elim (Option-cases (draft json e)) [
    | inl absent ↦ absurd (ground arith)
    | inr (t, drafted) ↦ finish-IsLine t s (ground arith)
  ]
