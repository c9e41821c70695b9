-- ===== src/Background/Pruner/Settled.antt =====
-- That the passes of crates/background/src/pruner.rs come to an end.
use contextd.Prelude.{
  ℕ, zero, suc, ◌≤◌, leb, ◌≡◌, ◌≢◌, refl, sym, ap, ◌∙◌, subst, ◌⊎◌, inl, inr, Bool, true, false,
  not, none, some, List, [], ◌∷◌, take, filter, count, arith, Option-cases, List-cases,
}
use contextd.Prelude.Members.{Among}
use contextd.Prelude.Sorting.{sort_by, count-sort_by}
use contextd.Text.{text_eq}
use contextd.Text.Equality.{text_eq_refl}
use contextd.Core.Event.{ProcessedEvent}
use contextd.Store.Archive.{
  Tables, ArchiveRow, Codec, segment_of, archive_row, insert_row, is_prunable, get_prunable_events,
  delete_event,
}
use contextd.Background.Pruner.{
  score_threshold, batch_of, deletes_of, archive_writes, batch_writes, run_writes, archive_pass,
}
use contextd.Background.Pruner.Kept.{batch-prunable}

module _ {A : Type 0} (p f : A → Bool) where
  count-filter_le : (xs : List A) → count p (filter f xs) ≤ count p xs
  unfolding count filter
  count-filter_le [] = omega arith
  count-filter_le (x ∷ xs) = ground (arith, count-filter_le xs)

  -- What is taken away counts less.
  count-filter_lt :
      (x : A) (xs : List A)
      → Among x xs
      → p x ≡ true
      → f x ≡ false
      → suc (count p (filter f xs)) ≤ count p xs
  unfolding count filter
  count-filter_lt x [] h hp hf = absurd h
  count-filter_lt x (y ∷ ys) (inl same) hp hf =
      let counted : p y ≡ true = ap p (sym same) ∙ hp in
      let dropped : f y ≡ false = ap f (sym same) ∙ hf in ground (arith, count-filter_le ys)
  count-filter_lt x (y ∷ ys) (inr there) hp hf =
      let less = count-filter_lt x ys there hp hf in ground (arith, less)

module _ {A : Type 0} (p : A → Bool) where
  count-filter_self : (xs : List A) → count p (filter p xs) ≡ count p xs
  unfolding count filter
  count-filter_self [] = refl
  count-filter_self (x ∷ xs) = ground (arith, count-filter_self xs)

  take_none : (n : ℕ) (xs : List A) → take (suc n) xs ≡ [] → count p xs ≡ 0
  unfolding take count
  take_none n [] h = refl
  take_none n (x ∷ xs) h = absurd (ground arith)

  filter_none : (xs : List A) → count p xs ≡ 0 → filter p xs ≡ []
  unfolding filter count
  filter_none [] h = refl
  filter_none (x ∷ xs) h = ground (arith, filter_none xs)

module _ {V B : Type 0} (codec : Codec V B) (cutoff : ℕ) where
  -- How many live events are prunable.
  abbrev pub waiting : Tables V B → ℕ
  waiting t = count (is_prunable cutoff score_threshold t.tasks t.claims) t.events

  -- Passes in a row, with one cutoff.
  unfoldable pub passes : ℕ → Tables V B → Tables V B
  passes zero t = t
  passes (suc n) t = passes n (archive_pass codec t cutoff)

  deletes-tables :
      (batch : List (ProcessedEvent V)) (t : Tables V B)
      → ((run_writes codec (deletes_of codec batch) t).tasks ≡ t.tasks)
        × ((run_writes codec (deletes_of codec batch) t).claims ≡ t.claims)
  unfolding run_writes delete_event
  deletes-tables [] t = (refl, refl)
  deletes-tables (b ∷ batch) t = deletes-tables batch (delete_event b.raw.id t)

  deletes-count :
      (p : ProcessedEvent V → Bool) (batch : List (ProcessedEvent V)) (t : Tables V B)
      → count p (run_writes codec (deletes_of codec batch) t).events ≤ count p t.events
  unfolding run_writes delete_event
  deletes-count p [] t = omega arith
  deletes-count p (b ∷ batch) t = omega (
    arith,
    deletes-count p batch (delete_event b.raw.id t),
    count-filter_le p (λ event. not (text_eq event.raw.id b.raw.id)) t.events,
  )

  batch_none : (t : Tables V B) → batch_of codec t cutoff ≡ [] → waiting t ≡ 0
  unfolding get_prunable_events
  batch_none t h =
      let p = is_prunable cutoff score_threshold t.tasks t.claims in
      sym (
        count-sort_by (λ a b. leb a.raw.timestamp_ms b.raw.timestamp_ms) p (filter p t.events)
        ∙ count-filter_self p t.events)
      ∙ take_none p 999 _ h

  none_waiting : (t : Tables V B) → waiting t ≡ 0 → batch_of codec t cutoff ≡ []
  unfolding get_prunable_events sort_by take
  none_waiting t h =
      rw (filter_none (is_prunable cutoff score_threshold t.tasks t.claims) t.events h)

  -- A batch that is not empty is written as a row, if the codec packs it.
  archive_row-some :
      (b : ProcessedEvent V) (rest : List (ProcessedEvent V))
      → Codec.pack codec (b ∷ rest) ≢ none
      → (row : ArchiveRow B) × (archive_row codec (b ∷ rest) ≡ some row)
  unfolding archive_row
  archive_row-some b rest packs = elim (Option-cases (Codec.pack codec (b ∷ rest))) [
    | inl no_blob ↦ absurd (packs no_blob)
    | inr (blob, packed) ↦ (segment_of (b ∷ rest) blob, rw (packed, archive_row))
  ]

  -- A pass over a batch that is written deletes its first event.
  deletes-less :
      (t : Tables V B) (row : ArchiveRow B) (b : ProcessedEvent V) (rest : List (ProcessedEvent V))
      → Among b t.events
      → is_prunable cutoff score_threshold t.tasks t.claims b ≡ true
      → suc (waiting (run_writes codec (deletes_of codec (b ∷ rest)) (insert_row row t)))
        ≤ waiting t
  unfolding run_writes insert_row delete_event
  deletes-less t row b rest live prunable =
      let first = delete_event b.raw.id (insert_row row t) in
      let (tasks, claims) = deletes-tables rest first in
      rw (tasks, claims)
        (omega (
          arith,
          deletes-count (is_prunable cutoff score_threshold t.tasks t.claims) rest first,
          count-filter_lt (is_prunable cutoff score_threshold t.tasks t.claims)
              (λ event. not (text_eq event.raw.id b.raw.id)) b t.events live prunable
              (ap not (text_eq_refl b.raw.id)),
        ))

  archive_pass-batch :
      (t : Tables V B) (batch : List (ProcessedEvent V))
      → batch_of codec t cutoff ≡ batch
      → archive_pass codec t cutoff ≡ run_writes codec (batch_writes codec batch) t
  unfolding archive_pass archive_writes
  archive_pass-batch t batch h = ap (λ b. run_writes codec (batch_writes codec b) t) h

  archive_pass-idle :
      (t : Tables V B) → batch_of codec t cutoff ≡ [] → archive_pass codec t cutoff ≡ t
  unfolding batch_writes archive_row run_writes
  archive_pass-idle t h = archive_pass-batch t [] h

  archive_pass-deletes :
      (t : Tables V B) (row : ArchiveRow B) (b : ProcessedEvent V) (rest : List (ProcessedEvent V))
      → batch_of codec t cutoff ≡ b ∷ rest
      → archive_row codec (b ∷ rest) ≡ some row
      → archive_pass codec t cutoff
        ≡ run_writes codec (deletes_of codec (b ∷ rest)) (insert_row row t)
  unfolding batch_writes run_writes
  archive_pass-deletes t row b rest batch packed =
      archive_pass-batch t (b ∷ rest) batch ∙ rw (packed, batch_writes)

  -- A pass with something to do leaves less to do.
  archive_pass-less :
      (t : Tables V B)
      → ((event : ProcessedEvent V) (events : List (ProcessedEvent V))
          → Codec.pack codec (event ∷ events) ≢ none)
      → ((waiting t ≡ 0) × (archive_pass codec t cutoff ≡ t))
        ⊎ (suc (waiting (archive_pass codec t cutoff)) ≤ waiting t)
  archive_pass-less t packs = elim (List-cases (batch_of codec t cutoff)) [
    | inl no_batch ↦ inl (batch_none t no_batch, archive_pass-idle t no_batch)
    | inr (b, rest, batch) ↦
        let (row, packed) = archive_row-some b rest (packs b rest) in
        let (live, prunable) = batch-prunable codec t cutoff b (rw batch (inl refl)) in
        inr (
          subst (λ left. suc (waiting left) ≤ waiting t)
            (sym (archive_pass-deletes t row b rest batch packed))
            (deletes-less t row b rest live prunable))
  ]

  nothing_waits :
      (t : Tables V B) (n : ℕ)
      → ((event : ProcessedEvent V) (events : List (ProcessedEvent V))
          → Codec.pack codec (event ∷ events) ≢ none)
      → waiting t ≤ n
      → waiting (passes n t) ≡ 0
  unfolding passes
  nothing_waits t zero packs h = omega arith
  nothing_waits t (suc n) packs h =
      nothing_waits (archive_pass codec t cutoff) n packs (less (archive_pass-less t packs))
    where
      less :
          ((waiting t ≡ 0) × (archive_pass codec t cutoff ≡ t))
            ⊎ (suc (waiting (archive_pass codec t cutoff)) ≤ waiting t)
          → waiting (archive_pass codec t cutoff) ≤ n
      less (inl (idle, same)) = subst (λ left. waiting left ≤ n) (sym same) (omega arith)
      less (inr fewer) = omega arith

  -- For a codec that packs every batch that is not empty: after as many passes as there are prunable
  -- events, with one cutoff and nothing else at work on the tables, no event is prunable.
  pub passes-settle :
      (t : Tables V B)
      → ((event : ProcessedEvent V) (events : List (ProcessedEvent V))
          → Codec.pack codec (event ∷ events) ≢ none)
      → batch_of codec (passes (waiting t) t) cutoff ≡ []
  passes-settle t packs =
      none_waiting (passes (waiting t) t) (nothing_waits t (waiting t) packs (omega arith))
