-- ===== src/Memory/Working/Bounds.antt =====
-- What `WorkingSet` of crates/memory/src/working.rs holds, and what it shows.
use mathlib.Core.List.{reverse-append}
use contextd.Prelude.{
  ℕ, zero, suc, ◌+◌, ◌-◌, ◌≤◌, ◌<◌, ◌≡◌, refl, ap, ◌∙◌, Bool, false, not, ◌&&◌, Option, none, some,
  List, [], ◌∷◌, ◌++◌, sym, append-nil, append_assoc, arith, leb, Bool-cases, inl, inr, length,
  take, drop, last, filter, count, reverse, if◌then◌else◌, length-append, length-drop, drop-drop,
  drop-append_le, length-take, drop-nil, max, tests,
}
use contextd.Text.{Text, text_eq}
use contextd.Text.Equality.{text_eq_iff}
use contextd.Core.Event.{ProcessedEvent}
use contextd.Memory.Working.{
  WorkingSet, evict, push_event, record_event, with_bounds, forget, recent, is_fresh,
}

module _ {V : Type 0} where
  -- With fuel for each event the loop ends, with the newest events that leave room for one more.
  evict-drop :
      (f cap : ℕ) (es : List (ProcessedEvent V))
      → 1 ≤ cap
      → length es < f
      → evict f cap es ≡ some (drop (suc (length es) - cap) es)
  unfolding evict drop
  evict-drop zero cap es h k = absurd (omega arith)
  evict-drop (suc f) cap [] h k = ground (arith, drop-nil {A = ProcessedEvent V} (1 - cap))
  evict-drop (suc f) cap (e ∷ es) h k = elim (Bool-cases (leb cap (suc (length es)))) [
    | inl full ↦ rw full (
        let one_more : suc (suc (length es)) - cap ≡ suc (suc (length es) - cap) = omega tests in
        rw one_more (evict-drop f cap es h (omega arith)))
    | inr room ↦
        rw room (let none_more : suc (suc (length es)) - cap ≡ 0 = omega tests in rw none_more)
  ]

  -- A set that is not poisoned and has room for one event at least.
  abbrev pub IsUsable : WorkingSet V → Type 0
  IsUsable w = (w.poisoned ≡ false) × (1 ≤ w.capacity)

  -- In a set that is not poisoned and has room for one event at least, what is recorded stands last,
  -- behind the newest events that were there and for which there is room; the call returns, and
  -- nothing else changes.
  record_event-last :
      (w : WorkingSet V) (e : ProcessedEvent V)
      → IsUsable w
      → record_event w e
        ≡ some
            (record w { inner = record w.inner { events = last w.capacity (w.events ++ e ∷ []) } })
  unfolding record_event push_event last
  record_event-last w e h = ground (
    arith,
    evict-drop (suc (length w.events)) w.capacity w.events,
    length-append w.events (e ∷ []),
    drop-append_le (suc (length w.events) - w.capacity) w.events (e ∷ []),
  )

  -- `record` for every event of a stream.
  abbrev pub record_all : WorkingSet V → List (ProcessedEvent V) → Option (WorkingSet V)
  record_all w [] = some w
  record_all w (e ∷ es) = elim (record_event w e) [ none ↦ none | some w' ↦ record_all w' es ]

  last-last :
      (n : ℕ) (xs : List (ProcessedEvent V)) (e : ProcessedEvent V)
      → 1 ≤ n
      → last n (last n xs ++ e ∷ []) ≡ last n (xs ++ e ∷ [])
  unfolding last
  last-last n xs e h =
      let k : ℕ = length xs - n in
      let rest : ℕ = length (drop k xs ++ e ∷ []) - n in
      let there : drop k xs ++ e ∷ [] ≡ drop k (xs ++ e ∷ []) =
        sym (drop-append_le k xs (e ∷ []) (omega arith)) in
      let sum : k + rest ≡ length (xs ++ e ∷ []) - n =
        omega (
          arith,
          length-append (drop k xs) (e ∷ []),
          length-append xs (e ∷ []),
          length-drop k xs,
        ) in
      ap (drop rest) there ∙ drop-drop rest k (xs ++ e ∷ []) ∙ ap (λ m. drop m (xs ++ e ∷ [])) sum

  record_all-from :
      (w : WorkingSet V) (before es : List (ProcessedEvent V))
      → IsUsable w
      → w.events ≡ last w.capacity before
      → (w' : WorkingSet V) × (record_all w es ≡ some w')
        × (w'.events ≡ last w.capacity (before ++ es))
  record_all-from w before [] h same = (w, refl, rw append-nil same)
  record_all-from w before (e ∷ es) h same =
      rw (record_event-last w e h, record_all, ← append_assoc before (e ∷ []) es)
        (record_all-from
          (record w { inner = record w.inner { events = last w.capacity (w.events ++ e ∷ []) } })
          (before ++ e ∷ []) es h
          (ap (λ l. last w.capacity (l ++ e ∷ [])) same ∙ last-last w.capacity before e h.1))

  -- Tier 0 refines the whole stream: from an empty set, recording any events returns, and leaves
  -- exactly the newest ones, as many as the capacity allows (at least one), in order.
  pub record_all-last :
      (session : Text) (capacity horizon : ℕ) (es : List (ProcessedEvent V))
      → (w : WorkingSet V) × (record_all (with_bounds session capacity horizon) es ≡ some w)
        × (w.events ≡ last (max capacity 1) es)
  unfolding with_bounds
  record_all-last session capacity horizon es =
      record_all-from (with_bounds session capacity horizon) [] es (refl, omega arith)
        (unfold last in sym (drop-nil (0 - max capacity 1)))

  abbrev has_id : Text → ProcessedEvent V → Bool
  has_id id e = text_eq e.raw.id id

  -- How many events a set holds of an id.
  abbrev pub held : Text → WorkingSet V → ℕ
  held id w = count (has_id id) w.events

  held-forget :
      (id j : Text) (es : List (ProcessedEvent V))
      → count (has_id j) (filter (λ e. not (text_eq e.raw.id id)) es)
        ≡ (if text_eq id j then 0 else count (has_id j) es)
  unfolding count filter
  held-forget id j [] = ground arith
  held-forget id j (e ∷ es) = ground (
    arith,
    held-forget id j es,
    text_eq_iff e.raw.id id,
    text_eq_iff e.raw.id j,
    text_eq_iff id j,
  )

  -- Forgetting an id on a healthy set removes every event of that id and no other; a poisoned set
  -- is left as it is.
  pub forget-held :
      (w : WorkingSet V) (id j : Text)
      → held j (forget w id) ≡ (if not w.poisoned && text_eq id j then 0 else held j w)
  unfolding forget
  forget-held w id j = ground (arith, held-forget id j w.events)

  last-snoc :
      (n : ℕ) (xs : List (ProcessedEvent V)) (e : ProcessedEvent V)
      → 1 ≤ n
      → last n (xs ++ e ∷ []) ≡ last (n - 1) xs ++ e ∷ []
  unfolding last
  last-snoc n xs e h =
      let same : length (xs ++ e ∷ []) - n ≡ length xs - (n - 1) =
        omega (arith, length-append xs (e ∷ [])) in
      rw same (drop-append_le (length xs - (n - 1)) xs (e ∷ []) (omega arith))

  -- The set with room for one event less.
  abbrev pub older : WorkingSet V → WorkingSet V
  older w = record w { inner = record w.inner { events = last (w.capacity - 1) w.events } }

  -- In a set that is not poisoned and has room for one event at least, recording an event puts it
  -- first in `recent`, in front of what `recent` shows, asked for one event less, of the older
  -- events that there was room for. An event older than the horizon is not shown. And no more
  -- events are shown than were asked for.
  pub recent-record_event :
      (w : WorkingSet V) (e : ProcessedEvent V) (now n : ℕ)
      → IsUsable w
      → (w' : WorkingSet V) × (record_event w e ≡ some w')
        × (recent w' now (suc n) ≡ (
            if leb (now - w.horizon_ms) e.raw.timestamp_ms
            then e ∷ recent (older w) now n
            else recent (older w) now (suc n)))
        × (length (recent w' now n) ≤ n)
  unfolding recent take filter
  recent-record_event w e now n h = (
    record w { inner = record w.inner { events = last w.capacity (w.events ++ e ∷ []) } },
    record_event-last w e h,
    elim (Bool-cases (leb (now - w.horizon_ms) e.raw.timestamp_ms)) [
      | inl fresh ↦ rw (last-snoc w.capacity w.events e h.1, reverse-append, fresh) refl
      | inr stale ↦ rw (last-snoc w.capacity w.events e h.1, reverse-append, stale) refl
    ],
    omega (
      arith,
      length-take n
          (filter (is_fresh now w.horizon_ms) (reverse (last w.capacity (w.events ++ e ∷ [])))),
    ),
  )
