-- ===== src/Pipeline/Content/Errors.antt =====
-- Marked lines, and what `extract_error` and `looks_like_failure` of
-- crates/pipeline/src/content.rs find.
use contextd.Prelude.{
  ◌≡◌, refl, Bool, true, false, not, ◌||◌, Option, none, some, List, [], ◌∷◌, arith, any, find?,
  find?-holds, map, Option-cases, inl, inr,
}
use contextd.Prelude.Int.{ℤ, is_zero}
use contextd.Text.{Text, str, is_empty, trim, contains, lines}
use contextd.Json.{Json, str_at, i64_at}
use contextd.Core.Event.{RawEvent}
use contextd.Pipeline.Content.{
  marked_line, first_marked, extract_error, error_markers, is_some, any_error, looks_like_failure,
}

-- Some line of the text, trimmed, contains the marker.
abbrev has_line : Text → Text → Bool
has_line text marker = any (λ line. contains line marker) (map trim (lines text))

abbrev has_marker : Text → Bool
has_marker text = any (has_line text) error_markers

find?-any : {A : Type 0} (p : A → Bool) (xs : List A) → is_some (find? p xs) ≡ any p xs
unfolding find? any
find?-any p [] = refl
find?-any p (x ∷ xs) = ground (arith, find?-any p xs)

not-in-nil : (marker : Text) → is_empty marker ≡ false → contains [] marker ≡ false
unfolding contains
not-in-nil [] h = cc
not-in-nil (c ∷ marker) h = refl

is_empty-nil : (t : Text) → is_empty t ≡ true → t ≡ []
is_empty-nil [] h = refl
is_empty-nil (c ∷ t) h = cc

marked_line-some :
    (text marker : Text)
    → is_empty marker ≡ false
    → is_some (marked_line text marker) ≡ has_line text marker
unfolding marked_line
marked_line-some text marker h =
    elim (Option-cases (find? (λ line. contains line marker) (map trim (lines text)))) [
      | inl nowhere ↦
          rw (nowhere, marked_line)
            (rw nowhere at (find?-any (λ line. contains line marker) (map trim (lines text))))
      | inr (line, found) ↦
          rw (found, marked_line)
            (ground (
              arith,
              find?-any (λ line. contains line marker) (map trim (lines text)),
              find?-holds (λ line. contains line marker) (map trim (lines text)) line,
              not-in-nil marker,
              is_empty-nil line,
            ))
    ]

first_marked-some :
    (text : Text) (markers : List Text)
    → any is_empty markers ≡ false
    → is_some (first_marked text markers) ≡ any (has_line text) markers
unfolding first_marked any
first_marked-some text [] h = refl
first_marked-some text (m ∷ ms) h =
    ground (arith, marked_line-some text m, first_marked-some text ms)

markers-present : any is_empty error_markers ≡ false
unfolding str any
markers-present = refl

-- An error line is found exactly if some trimmed line contains one of the markers.
pub extract_error-some : (text : Text) → is_some (extract_error text) ≡ has_marker text
unfolding extract_error
extract_error-some text = ground (arith, first_marked-some text error_markers markers-present)

module _ {V : Type 0} (json : Json V) where
  -- Some string among the fields has a marked line.
  abbrev reports_error : V → List Text → Bool
  reports_error payload [] = false
  reports_error payload (field ∷ fields) =
      (elim (str_at json payload field) [ none ↦ false | some text ↦ has_marker text ])
      || reports_error payload fields

  any_error-reports :
      (payload : V) (fields : List Text)
      → any_error json payload fields ≡ reports_error payload fields
  unfolding any_error any
  any_error-reports payload [] = refl
  any_error-reports payload (field ∷ fields) = elim (Option-cases (str_at json payload field)) [
    | inl absent ↦ rw (absent, ◌||◌) (any_error-reports payload fields)
    | inr (text, given) ↦
        rw (given, ◌||◌, extract_error-some text, any_error-reports payload fields)
  ]

  -- What an exit code, or the lack of one, says of a payload.
  abbrev pub is_failing : V → Option ℤ → Bool
  is_failing payload (some code) = not (is_zero code)
  is_failing payload none =
      reports_error payload (str "stderr" ∷ str "output" ∷ str "message" ∷ str "error" ∷ [])

  -- An exit code alone decides whether an event is a failure: it is one exactly if the code is not
  -- zero. Without an exit code, an event is a failure exactly if one of its four output fields has
  -- a trimmed line that contains a marker.
  pub looks_like_failure_lem :
      (e : RawEvent V)
      → looks_like_failure json e ≡ is_failing e.payload (i64_at json e.payload (str "exit_code"))
  unfolding looks_like_failure
  looks_like_failure_lem e = elim (Option-cases (i64_at json e.payload (str "exit_code"))) [
    | inl absent ↦ rw (absent, looks_like_failure) (any_error-reports e.payload _)
    | inr (code, given) ↦ rw (given, looks_like_failure)
  ]
