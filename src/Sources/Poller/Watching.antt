-- ===== src/Sources/Poller/Watching.antt =====
-- Which processes the poller of crates/sources/src/proc_poller.rs watches, and its first poll.
use contextd.Prelude.{
  ℕ, ◌≡◌, refl, Bool, true, false, not, ◌&&◌, ◌||◌, List, [], ◌∷◌, arith, ◌==◌, any, All, All-map,
  Bool-cases, inl, inr,
}
use contextd.Sources.Poller.{
  ProcessTracker, Tracked, Seen, Table, announce, observe, observe_all, depart, tick, new,
  new_entry, is_live,
}

-- There is an entry for a process id.
unfoldable pub tracks : ℕ → Table → Bool
tracks j [] = false
tracks j ((pid, t) ∷ rest) = pid == j || tracks j rest

observe-tracks :
    (j : ℕ) (seeding : Bool) (now : ℕ) (table : Table) (process : Seen)
    → tracks j (observe seeding now table process).0 ≡ (tracks j table || process.pid == j)
unfolding observe tracks
observe-tracks j seeding now [] process = ground arith
observe-tracks j seeding now ((pid, t) ∷ rest) process =
    ground (arith, observe-tracks j seeding now rest process)

observe_all-tracks :
    (j : ℕ) (seeding : Bool) (now : ℕ) (table : Table) (seen : List Seen)
    → tracks j (observe_all seeding now table seen).0 ≡ (tracks j table || is_live seen j)
unfolding observe_all any
observe_all-tracks j seeding now table [] = ground arith
observe_all-tracks j seeding now table (process ∷ seen) = ground (
  arith,
  observe-tracks j seeding now table process,
  observe_all-tracks j seeding now (observe seeding now table process).0 seen,
)

is_live-same : (seen : List Seen) (i j : ℕ) → (i == j) ≡ true → is_live seen i ≡ is_live seen j
unfolding any
is_live-same [] i j h = refl
is_live-same (s ∷ seen) i j h = ground (arith, is_live-same seen i j h)

depart-tracks :
    (j now : ℕ) (seen : List Seen) (table : Table)
    → tracks j (depart now seen table).0 ≡ (tracks j table && is_live seen j)
unfolding depart tracks
depart-tracks j now seen [] = refl
depart-tracks j now seen ((pid, t) ∷ rest) =
    ground (arith, depart-tracks j now seen rest, is_live-same seen pid j)

-- After a poll the poller watches exactly the processes that the poll saw, whatever it watched
-- before.
pub tick-tracks :
    (tracker : ProcessTracker) (seen : List Seen) (now j : ℕ)
    → tracks j (tick tracker seen now).0.tracked ≡ is_live seen j
unfolding tick
tick-tracks tracker seen now j = ground (
  arith,
  depart-tracks j now seen (observe_all (not tracker.seeded) now tracker.tracked seen).0,
  observe_all-tracks j (not tracker.seeded) now tracker.tracked seen,
)

-- What the first poll finds: known already, and still there.
abbrev IsOld : List Seen → ℕ × Tracked → Type 0
IsOld seen e = (e.1.announced ≡ true) × (is_live seen e.0 ≡ true)

announce-old : (now : ℕ) (t : Tracked) → t.announced ≡ true → announce now t ≡ (t, [])
unfolding announce
announce-old now t h = rw h

observe-IsOld :
    (all_seen : List Seen) (now : ℕ) (table : Table) (process : Seen)
    → is_live all_seen process.pid ≡ true
    → All (IsOld all_seen) table
    → All (IsOld all_seen) (observe true now table process).0
      × ((observe true now table process).1 ≡ [])
unfolding observe
observe-IsOld all_seen now [] process h k =
    rw (announce-old now (new_entry true now process) refl) (((refl, h), tt), refl)
observe-IsOld all_seen now ((pid, t) ∷ rest) process h k =
    let (old, silent) = observe-IsOld all_seen now rest process h k.1 in
    rw (announce-old now t k.0.0) (elim (Bool-cases (pid == process.pid)) [
      | inl found ↦ rw found (k, refl)
      | inr other ↦ rw other ((k.0, old), silent)
    ])

observe_all-IsOld :
    (all_seen : List Seen) (now : ℕ) (table : Table) (seen : List Seen)
    → All (λ s. is_live all_seen s.pid ≡ true) seen
    → All (IsOld all_seen) table
    → All (IsOld all_seen) (observe_all true now table seen).0
      × ((observe_all true now table seen).1 ≡ [])
unfolding observe_all
observe_all-IsOld all_seen now table [] h k = (k, refl)
observe_all-IsOld all_seen now table (process ∷ seen) h k =
    let (old, silent) = observe-IsOld all_seen now table process h.0 k in
    let next = (observe true now table process).0 in
    let (last, still) = observe_all-IsOld all_seen now next seen h.1 old in
    (last, rw (silent, still) refl)

All-live : (seen : List Seen) → All (λ s. is_live seen s.pid ≡ true) seen
unfolding any
All-live [] = tt
All-live (s ∷ seen) = (
  ground arith,
  All-map (λ u. is_live seen u.pid ≡ true) (λ u. is_live (s ∷ seen) u.pid ≡ true) seen
      (λ u there. ground arith) (All-live seen),
)

depart-old :
    (now : ℕ) (seen : List Seen) (table : Table)
    → All (IsOld seen) table
    → (depart now seen table).1 ≡ []
unfolding depart
depart-old now seen [] h = refl
depart-old now seen ((pid, t) ∷ rest) h = rw h.0.1 (depart-old now seen rest h.1)

-- The first poll of a new tracker reports nothing, whatever is running.
tick-first : (seen : List Seen) (now : ℕ) → (tick new seen now).1 ≡ []
unfolding tick
tick-first seen now =
    let (old, silent) = observe_all-IsOld seen now [] seen (All-live seen) tt in
    rw (silent, depart-old now seen (observe_all true now [] seen).0 old) refl
