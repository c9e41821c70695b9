-- ===== src/Background/Pruner/Kept.antt =====
-- What a pass of crates/background/src/pruner.rs keeps, wherever it stops.
use contextd.Prelude.{
  ℕ, zero, suc, ◌≡◌, refl, sym, ap, ◌∙◌, subst, ◌⊎◌, inl, inr, Bool, true, false, not, none, some,
  List, [], ◌∷◌, ◌++◌, map, take, filter, any, arith, Bool-cases, Option-cases,
}
use contextd.Prelude.Members.{Among, Among-filter, Among-sort_by}
use contextd.Text.{text_eq}
use contextd.Core.Event.{ProcessedEvent}
use contextd.Store.Archive.{
  Tables, ArchiveRow, Codec, archive_row, insert_row, is_prunable, get_prunable_events,
  delete_event,
}
use contextd.Background.Pruner.{
  score_threshold, batch_size, batch_of, deletes_of, archive_writes, batch_writes, run_writes,
}

module _ {A : Type 0} where
  Among-take : (n : ℕ) (x : A) (xs : List A) → Among x (take n xs) → Among x xs
  unfolding take
  Among-take zero x xs h = absurd h
  Among-take (suc n) x [] h = absurd h
  Among-take (suc n) x (y ∷ ys) (inl same) = inl same
  Among-take (suc n) x (y ∷ ys) (inr there) = inr (Among-take n x ys there)

  filter-Among :
      (f : A → Bool) (x : A) (xs : List A) → Among x xs → f x ≡ true → Among x (filter f xs)
  unfolding filter
  filter-Among f x [] h k = absurd h
  filter-Among f x (y ∷ ys) h k = elim (Bool-cases (f y)) [
    | inl kept ↦
        rw kept (elim h [ inl same ↦ inl same | inr there ↦ inr (filter-Among f x ys there k) ])
    | inr dropped ↦ rw dropped (elim h [
      | inl same ↦ absurd (differs (sym k ∙ ap f same ∙ dropped))
      | inr there ↦ filter-Among f x ys there k
    ])
  ]
    where
      differs : true ≡ false → ⊥
      differs e = ground arith

  take-map : {B : Type 0} (f : A → B) (n : ℕ) (xs : List A) → take n (map f xs) ≡ map f (take n xs)
  unfolding take
  take-map f zero xs = refl
  take-map f (suc n) [] = refl
  take-map f (suc n) (x ∷ xs) = ap (λ ys. f x ∷ ys) (take-map f n xs)

  any-Among : (p : A → Bool) (xs : List A) → any p xs ≡ true → (x : A) × Among x xs × (p x ≡ true)
  unfolding any
  any-Among p [] h = absurd (ground arith)
  any-Among p (y ∷ ys) h = elim (Bool-cases (p y)) [
    | inl here ↦ (y, inl refl, here)
    | inr later ↦ let (x, there, holds) = any-Among p ys (ground arith) in (x, inr there, holds)
  ]

  Among-last : (x : A) (xs : List A) → Among x (xs ++ x ∷ [])
  Among-last x [] = inl refl
  Among-last x (y ∷ ys) = inr (Among-last x ys)

module _ {V B : Type 0} (codec : Codec V B) where
  -- An event is in a row of the archive.
  pub record IsArchived (e : ProcessedEvent V) (rows : List (ArchiveRow B)) : Type 0 where
    pub row : ArchiveRow B
    pub held : Among row rows
    pub batch : List (ProcessedEvent V)
    pub unpacked : Codec.unpack codec row.blob ≡ some batch
    pub inside : Among e batch

  -- `events.id` is a primary key.
  abbrev pub IsKeyed : Tables V B → Type 0
  IsKeyed t =
      (e f : ProcessedEvent V)
      → Among e t.events
      → Among f t.events
      → text_eq e.raw.id f.raw.id ≡ true
      → e ≡ f

  -- Deleting leaves what has another id, and the archive.
  deletes-keep :
      (batch : List (ProcessedEvent V)) (t : Tables V B) (e : ProcessedEvent V)
      → any (λ b. text_eq e.raw.id b.raw.id) batch ≡ false
      → Among e t.events
      → Among e (run_writes codec (deletes_of codec batch) t).events
  unfolding run_writes any delete_event
  deletes-keep [] t e h there = there
  deletes-keep (b ∷ batch) t e h there =
      deletes-keep batch (delete_event b.raw.id t) e (ground arith) (
        filter-Among (λ event. not (text_eq event.raw.id b.raw.id)) e t.events there (ground arith))

  deletes-archive :
      (batch : List (ProcessedEvent V)) (t : Tables V B)
      → (run_writes codec (deletes_of codec batch) t).archive ≡ t.archive
  unfolding run_writes delete_event
  deletes-archive [] t = refl
  deletes-archive (b ∷ batch) t = deletes-archive batch (delete_event b.raw.id t)

  archive_row-packed :
      (events : List (ProcessedEvent V)) (row : ArchiveRow B)
      → archive_row codec events ≡ some row
      → Codec.pack codec events ≡ some row.blob
  unfolding archive_row
  archive_row-packed [] row h = absurd (ground arith)
  archive_row-packed (event ∷ events) row h =
      elim (Option-cases (Codec.pack codec (event ∷ events))) [
        | inl no_blob ↦ absurd (no_such (rw (no_blob, archive_row) at h))
        | inr (blob, packed) ↦
            packed
            ∙ ap (λ (r : ArchiveRow B). some r.blob) (some_row (rw (packed, archive_row) at h))
      ]
    where
      no_such : none ≡ some row → ⊥
      no_such e = ground arith

      some_row : {a b : ArchiveRow B} → some a ≡ some b → a ≡ b
      some_row e = ground arith

  take_nil : {A : Type 0} (n : ℕ) → take {A = A} n [] ≡ []
  unfolding take
  take_nil zero = refl
  take_nil (suc n) = refl

  -- What is in the batch is live and prunable.
  pub batch-prunable :
      (t : Tables V B) (cutoff : ℕ) (b : ProcessedEvent V)
      → Among b (batch_of codec t cutoff)
      → Among b t.events × (is_prunable cutoff score_threshold t.tasks t.claims b ≡ true)
  unfolding get_prunable_events
  batch-prunable t cutoff b h =
      Among-filter (is_prunable cutoff score_threshold t.tasks t.claims) b t.events
        (Among-sort_by _ b _ (Among-take batch_size b _ h))

  stopped-keeps :
      (t : Tables V B) (cutoff : ℕ) (row : ArchiveRow B) (m : ℕ) (e : ProcessedEvent V)
      → ((events : List (ProcessedEvent V)) (blob : B)
          → Codec.pack codec events ≡ some blob
          → Codec.unpack codec blob ≡ some events)
      → IsKeyed t
      → archive_row codec (batch_of codec t cutoff) ≡ some row
      → Among e t.events
      → let left =
          run_writes codec
            (deletes_of codec (take m (batch_of codec t cutoff)))
            (insert_row row t) in
        Among e left.events
        ⊎ (IsArchived e left.archive
            × (is_prunable cutoff score_threshold t.tasks t.claims e ≡ true))
  unfolding insert_row
  stopped-keeps t cutoff row m e reads keyed packed there =
      elim (Bool-cases (any (λ b. text_eq e.raw.id b.raw.id) (take m (batch_of codec t cutoff)))) [
        | inr other ↦
            inl (deletes-keep (take m (batch_of codec t cutoff)) (insert_row row t) e other there)
        | inl deleted ↦
            let (b, in_part, same_id) =
              any-Among (λ b. text_eq e.raw.id b.raw.id) (take m (batch_of codec t cutoff))
                deleted in
            let in_batch = Among-take m b (batch_of codec t cutoff) in_part in
            let (live, prunable) = batch-prunable t cutoff b in_batch in
            let same : b ≡ e = sym (keyed e b there live same_id) in
            inr (
              record {
                row = row;
                held =
                    subst (Among row)
                      (sym (deletes-archive (take m (batch_of codec t cutoff)) (insert_row row t)))
                      (Among-last row t.archive);
                batch = batch_of codec t cutoff;
                unpacked = reads _ _ (archive_row-packed _ row packed);
                inside = subst (λ z. Among z (batch_of codec t cutoff)) same in_batch;
              },
              subst (λ z. is_prunable cutoff score_threshold t.tasks t.claims z ≡ true) same
                  prunable,
            )
      ]

  -- For tables in which no event id is twice, and a codec that reads what it writes: after any
  -- number of the writes of a pass, every event that was live is still live, or it was prunable and
  -- a row of the archive holds it.
  pub archive_pass-keeps :
      (t : Tables V B) (cutoff n : ℕ) (e : ProcessedEvent V)
      → ((events : List (ProcessedEvent V)) (blob : B)
          → Codec.pack codec events ≡ some blob
          → Codec.unpack codec blob ≡ some events)
      → IsKeyed t
      → Among e t.events
      → let left = run_writes codec (take n (archive_writes codec t cutoff)) t in
        Among e left.events
        ⊎ (IsArchived e left.archive
            × (is_prunable cutoff score_threshold t.tasks t.claims e ≡ true))
  unfolding archive_writes batch_writes run_writes take
  archive_pass-keeps t cutoff zero e reads keyed there = inl there
  archive_pass-keeps t cutoff (suc m) e reads keyed there =
      elim (Option-cases (archive_row codec (batch_of codec t cutoff))) [
        | inl no_row ↦ rw (no_row, batch_writes) (inl there)
        | inr (row, packed) ↦
            rw
              (
                packed,
                batch_writes,
                take-map (λ event. delete_event event.raw.id) m (batch_of codec t cutoff),
              )
              (stopped-keeps t cutoff row m e reads keyed packed there)
      ]
