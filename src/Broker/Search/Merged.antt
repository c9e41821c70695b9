-- ===== src/Broker/Search/Merged.antt =====
-- What `merge` of crates/broker/src/search.rs keeps, marks and adds.
use contextd.Prelude.{
  ℕ, ◌≡◌, refl, sym, ap, ◌∙◌, inl, inr, Bool, true, false, not, ◌||◌, List, [], ◌∷◌, ◌++◌, map,
  append-nil, any, any-append, take, filter, modify_first, if◌then◌else◌, append_assoc, arith, All,
  All-append, Bool-cases,
}
use mathlib.Core.List.{map-append}
use contextd.Text.{text_eq}
use contextd.Text.Equality.{text_eq→eq, text_eq_sym}
use contextd.Core.Event.{ProcessedEvent}
use contextd.Broker.Search.{
  SearchHit, id_of, is_hit_of, text_hit, promoted, merge_one, merge_all, merge,
}

abbrev pub DistinctEvents : {V : Type 0} → List (ProcessedEvent V) → Type 0
DistinctEvents [] = Unit
DistinctEvents (e ∷ es) = All (λ f. text_eq (id_of f) (id_of e) ≡ false) es × DistinctEvents es

module _ {V D : Type 0} where
  -- No two have one id.
  abbrev pub DistinctHits : List (SearchHit V D) → Type 0
  DistinctHits [] = Unit
  DistinctHits (h ∷ hs) =
      All (λ g. text_eq (id_of g.event) (id_of h.event) ≡ false) hs × DistinctHits hs

  -- A hit that the literal matches have as well is marked as found by both.
  unfoldable pub marked : List (ProcessedEvent V) → SearchHit V D → SearchHit V D
  marked textual hit = if any (λ e. is_hit_of e hit) textual then promoted hit else hit

  abbrev pub is_new : List (SearchHit V D) → ProcessedEvent V → Bool
  is_new hits event = not (any (is_hit_of event) hits)

  abbrev mark_one : ProcessedEvent V → SearchHit V D → SearchHit V D
  mark_one e hit = if is_hit_of e hit then promoted hit else hit

  mark_one-other :
      (e : ProcessedEvent V) (hs : List (SearchHit V D))
      → any (is_hit_of e) hs ≡ false
      → map (mark_one e) hs ≡ hs
  unfolding any
  mark_one-other e [] h = refl
  mark_one-other e (g ∷ hs) h =
      let head : is_hit_of e g ≡ false = ground arith in
      rw head (ap (λ xs. g ∷ xs) (mark_one-other e hs (ground arith)))

  others-no_hit :
      (e : ProcessedEvent V) (h : SearchHit V D) (hs : List (SearchHit V D))
      → is_hit_of e h ≡ true
      → All (λ g. text_eq (id_of g.event) (id_of h.event) ≡ false) hs
      → any (is_hit_of e) hs ≡ false
  unfolding any
  others-no_hit e h [] same apart = refl
  others-no_hit e h (g ∷ hs) same (differs, apart) =
      let head : is_hit_of e g ≡ false =
        rw (sym (text_eq→eq (id_of h.event) (id_of e) same)) differs in
      rw head (others-no_hit e h hs same apart)

  modify_first-mark :
      (e : ProcessedEvent V) (hs : List (SearchHit V D))
      → DistinctHits hs
      → modify_first (is_hit_of e) promoted hs ≡ map (mark_one e) hs
  unfolding modify_first
  modify_first-mark e [] d = refl
  modify_first-mark e (h ∷ hs) (apart, d) = elim (Bool-cases (is_hit_of e h)) [
    | inl same ↦
        rw same
          (ap (λ xs. promoted h ∷ xs) (sym (mark_one-other e hs (others-no_hit e h hs same apart))))
    | inr other ↦ rw other (ap (λ xs. h ∷ xs) (modify_first-mark e hs d))
  ]

  -- What one event appends.
  abbrev appended : ProcessedEvent V → List (SearchHit V D) → List (SearchHit V D)
  appended e hs = if any (is_hit_of e) hs then [] else text_hit e ∷ []

  merge_one_lem :
      (e : ProcessedEvent V) (hs : List (SearchHit V D))
      → DistinctHits hs
      → merge_one e hs ≡ map (mark_one e) hs ++ appended e hs
  unfolding merge_one
  merge_one_lem e hs d = elim (Bool-cases (any (is_hit_of e) hs)) [
    | inl found ↦ rw (found) (modify_first-mark e hs d ∙ sym (append-nil (map (mark_one e) hs)))
    | inr no_hit ↦ rw (no_hit) (ap (λ xs. xs ++ text_hit e ∷ []) (sym (mark_one-other e hs no_hit)))
  ]

  -- Marking changes no id.
  mark_one-id : (e : ProcessedEvent V) (h : SearchHit V D) → (mark_one e h).event ≡ h.event
  mark_one-id e h = elim (Bool-cases (is_hit_of e h)) [ inl same ↦ rw same | inr other ↦ rw other ]

  any-mark_one :
      (e f : ProcessedEvent V) (hs : List (SearchHit V D))
      → any (is_hit_of f) (map (mark_one e) hs) ≡ any (is_hit_of f) hs
  unfolding any
  any-mark_one e f [] = refl
  any-mark_one e f (h ∷ hs) = rw (mark_one-id e h, any-mark_one e f hs)

  merge_one-Distinct :
      (e : ProcessedEvent V) (hs : List (SearchHit V D))
      → DistinctHits hs
      → DistinctHits (map (mark_one e) hs ++ appended e hs)
  unfolding any
  merge_one-Distinct e hs d = elim (Bool-cases (any (is_hit_of e) hs)) [
    | inl found ↦ rw (found, append-nil (map (mark_one e) hs)) (map-Distinct hs d)
    | inr no_hit ↦ rw (no_hit, mark_one-other e hs no_hit) (append-Distinct hs d no_hit)
  ]
    where
      map-apart :
          (h : SearchHit V D) (gs : List (SearchHit V D))
          → All (λ g. text_eq (id_of g.event) (id_of h.event) ≡ false) gs
          → All
              (λ g. text_eq (id_of g.event) (id_of (mark_one e h).event) ≡ false)
              (map (mark_one e) gs)
      map-apart h [] a = tt
      map-apart h (g ∷ gs) (a, rest) =
          (rw (mark_one-id e g, mark_one-id e h) a, map-apart h gs rest)

      map-Distinct :
          (gs : List (SearchHit V D)) → DistinctHits gs → DistinctHits (map (mark_one e) gs)
      map-Distinct [] d = tt
      map-Distinct (g ∷ gs) (a, d) = (map-apart g gs a, map-Distinct gs d)

      append-Distinct :
          (gs : List (SearchHit V D))
          → DistinctHits gs
          → any (is_hit_of e) gs ≡ false
          → DistinctHits (gs ++ text_hit e ∷ [])
      append-Distinct [] d h = (tt, tt)
      append-Distinct (g ∷ gs) (a, d) h = (
        All-append _ gs (text_hit e ∷ []) a
            (text_eq_sym (id_of e) (id_of g.event) ∙ ground arith, tt),
        append-Distinct gs d (ground arith),
      )

  marked_nil : (hs : List (SearchHit V D)) → map (marked []) hs ≡ hs
  unfolding marked any
  marked_nil [] = refl
  marked_nil (h ∷ hs) = ap (λ xs. h ∷ xs) (marked_nil hs)

  -- Marking for one event and then for more is marking for all.
  marked-mark_one :
      (e : ProcessedEvent V) (es : List (ProcessedEvent V)) (hs : List (SearchHit V D))
      → map (marked es) (map (mark_one e) hs) ≡ map (marked (e ∷ es)) hs
  unfolding marked any
  marked-mark_one e es [] = refl
  marked-mark_one e es (h ∷ hs) = elim (Bool-cases (is_hit_of e h)) [
    | inl same ↦ rw same (cons (twice (any (λ f. is_hit_of f h) es) h) (marked-mark_one e es hs))
    | inr other ↦ rw other (cons refl (marked-mark_one e es hs))
  ]
    where
      cons :
          {a b : SearchHit V D} {xs ys : List (SearchHit V D)} → a ≡ b → xs ≡ ys → a ∷ xs ≡ b ∷ ys
      cons p q = cc

      twice :
          (b : Bool) (h : SearchHit V D)
          → (if b then promoted (promoted h) else promoted h) ≡ promoted h
      twice true h = refl
      twice false h = refl

  -- A literal match is no hit of the events behind it.
  marked-text_hit :
      (e : ProcessedEvent V) (es : List (ProcessedEvent V))
      → All (λ f. text_eq (id_of f) (id_of e) ≡ false) es
      → marked es (text_hit e) ≡ text_hit e
  unfolding marked any
  marked-text_hit e [] a = refl
  marked-text_hit e (f ∷ es) (a, rest) =
      rw (text_eq_sym (id_of e) (id_of f), a) (marked-text_hit e es rest)

  filter-merge_one :
      (e : ProcessedEvent V) (es : List (ProcessedEvent V)) (hs : List (SearchHit V D))
      → All (λ f. text_eq (id_of f) (id_of e) ≡ false) es
      → filter (is_new (map (mark_one e) hs ++ appended e hs)) es ≡ filter (is_new hs) es
  unfolding filter any
  filter-merge_one e [] hs a = refl
  filter-merge_one e (f ∷ es) hs (a, rest) =
      let same : any (is_hit_of f) (map (mark_one e) hs ++ appended e hs) ≡ any (is_hit_of f) hs =
        any-append (is_hit_of f) (map (mark_one e) hs) (appended e hs)
        ∙ either (any-mark_one e f hs) (text_eq_sym (id_of e) (id_of f) ∙ a) in
      rw (same, filter-merge_one e es hs rest)
    where
      either :
          any (is_hit_of f) (map (mark_one e) hs) ≡ any (is_hit_of f) hs
          → is_hit_of f (text_hit {D = D} e) ≡ false
          → (any (is_hit_of f) (map (mark_one e) hs) || any (is_hit_of f) (appended e hs))
            ≡ any (is_hit_of f) hs
      either kept differs = ground arith

  merge_all_lem :
      (hs : List (SearchHit V D)) (es : List (ProcessedEvent V))
      → DistinctHits hs
      → DistinctEvents es
      → merge_all hs es ≡ map (marked es) hs ++ map text_hit (filter (is_new hs) es)
  unfolding merge_all filter
  merge_all_lem hs [] d ds = sym (append-nil (map (marked []) hs) ∙ marked_nil hs)
  merge_all_lem hs (e ∷ es) d (apart, ds) =
      ap (λ xs. merge_all xs es) (merge_one_lem e hs d)
      ∙ merge_all_lem (map (mark_one e) hs ++ appended e hs) es (merge_one-Distinct e hs d) ds
      ∙ (rw
          (
            map-append (marked es) (map (mark_one e) hs) (appended e hs),
            marked-mark_one e es hs,
            filter-merge_one e es hs apart,
            append_assoc (map (marked (e ∷ es)) hs),
          )
          (ap (λ xs. map (marked (e ∷ es)) hs ++ xs) tail))
    where
      tail :
          map (marked es) (appended e hs) ++ map text_hit (filter (is_new hs) es)
          ≡ map text_hit (filter (is_new hs) (e ∷ es))
      tail = elim (Bool-cases (any (is_hit_of e) hs)) [
        | inl found ↦ rw found
        | inr no_hit ↦ rw (no_hit, marked-text_hit e es apart)
      ]

  -- For semantic hits and literal matches in which no id is twice: merging keeps the semantic hits
  -- in their order, marking those that are literal matches as well, then adds the other literal
  -- matches in their order, and cuts the list at the limit.
  pub merge_lem :
      (hs : List (SearchHit V D)) (es : List (ProcessedEvent V)) (limit : ℕ)
      → DistinctHits hs
      → DistinctEvents es
      → merge hs es limit ≡ take limit (map (marked es) hs ++ map text_hit (filter (is_new hs) es))
  unfolding merge
  merge_lem hs es limit d ds = ap (take limit) (merge_all_lem hs es d ds)
