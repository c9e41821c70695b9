-- ===== src/Sources/Poller/Balance.antt =====
-- What the poller of crates/sources/src/proc_poller.rs reports as started and as finished.
use contextd.Prelude.{
  ℕ, ◌+◌, ◌≡◌, refl, Bool, true, false, ◌&&◌, List, [], ◌∷◌, ◌++◌, arith, if◌then◌else◌,
}
use contextd.Text.{Text}
use contextd.Sources.Poller.{
  ProcessTracker, Tracked, Seen, ProcEvent, started, finished, Table, announce, observe,
  observe_all, depart, tick, new_entry,
}

-- The counts are of the processes whose name and command pass a test.
module _ (q : Text → Text → Bool) where
  unfoldable pub starts : List ProcEvent → ℕ
  starts [] = 0
  starts (started name command ∷ es) = (if q name command then 1 else 0) + starts es
  starts (finished name command ms ∷ es) = starts es

  unfoldable pub ends : List ProcEvent → ℕ
  ends [] = 0
  ends (started name command ∷ es) = ends es
  ends (finished name command ms ∷ es) = (if q name command then 1 else 0) + ends es

  abbrev is_known : Tracked → Bool
  is_known t = t.announced && q t.name t.command

  -- How many entries were announced.
  unfoldable pub known : Table → ℕ
  known [] = 0
  known ((pid, t) ∷ rest) = (if is_known t then 1 else 0) + known rest

  starts-append : (xs ys : List ProcEvent) → starts (xs ++ ys) ≡ starts xs + starts ys
  unfolding starts
  starts-append [] ys = omega arith
  starts-append (started n c ∷ xs) ys = omega (arith, starts-append xs ys)
  starts-append (finished n c ms ∷ xs) ys = starts-append xs ys

  ends-append : (xs ys : List ProcEvent) → ends (xs ++ ys) ≡ ends xs + ends ys
  unfolding ends
  ends-append [] ys = omega arith
  ends-append (started n c ∷ xs) ys = ends-append xs ys
  ends-append (finished n c ms ∷ xs) ys = omega (arith, ends-append xs ys)

  announce-balance :
      (now : ℕ) (t : Tracked)
      → (starts (announce now t).1 + (if is_known t then 1 else 0)
          ≡ (if is_known (announce now t).0 then 1 else 0))
        × (ends (announce now t).1 ≡ 0)
  unfolding announce starts ends
  announce-balance now t = ground arith

  -- After the first poll, one process adds to what is known exactly what is reported as started.
  observe-balance :
      (now : ℕ) (table : Table) (process : Seen)
      → (starts (observe false now table process).1 + known table
          ≡ known (observe false now table process).0)
        × (ends (observe false now table process).1 ≡ 0)
  unfolding observe known
  observe-balance now [] process =
      ground (arith, announce-balance now (new_entry false now process))
  observe-balance now ((pid, t) ∷ rest) process =
      ground (arith, announce-balance now t, observe-balance now rest process)

  observe_all-balance :
      (now : ℕ) (table : Table) (seen : List Seen)
      → (starts (observe_all false now table seen).1 + known table
          ≡ known (observe_all false now table seen).0)
        × (ends (observe_all false now table seen).1 ≡ 0)
  unfolding observe_all starts ends
  observe_all-balance now table [] = omega arith
  observe_all-balance now table (process ∷ seen) =
      let (next, events) = observe false now table process in
      let later = (observe_all false now next seen).1 in
      omega (
        arith,
        observe-balance now table process,
        observe_all-balance now next seen,
        starts-append events later,
        ends-append events later,
      )

  depart-balance :
      (now : ℕ) (seen : List Seen) (table : Table)
      → (ends (depart now seen table).1 + known (depart now seen table).0 ≡ known table)
        × (starts (depart now seen table).1 ≡ 0)
  unfolding depart known starts ends
  depart-balance now seen [] = omega arith
  depart-balance now seen ((pid, t) ∷ rest) = ground (arith, depart-balance now seen rest)

  -- One poll after the first: what was known and what it reports as started is what it reports as
  -- finished and what is known now.
  tick-balance :
      (tracker : ProcessTracker) (seen : List Seen) (now : ℕ)
      → tracker.seeded ≡ true
      → starts (tick tracker seen now).1 + known tracker.tracked
        ≡ ends (tick tracker seen now).1 + known (tick tracker seen now).0.tracked
  unfolding tick
  tick-balance tracker seen now h = rw h (
      let (table, begun) = observe_all false now tracker.tracked seen in
      let over = (depart now seen table).1 in
      omega (
        arith,
        observe_all-balance now tracker.tracked seen,
        depart-balance now seen table,
        starts-append begun over,
        ends-append begun over,
      ))

-- `tick` for every poll in turn.
unfoldable pub run : ProcessTracker → List (List Seen × ℕ) → ProcessTracker × List ProcEvent
run tracker [] = (tracker, [])
run tracker ((seen, now) ∷ polls) =
    let (next, events) = tick tracker seen now in
    let (last, later) = run next polls in (last, events ++ later)

-- Over any polls after the first, and for the processes of any name and command: those that were
-- announced before and those reported as started since are together as many as those reported as
-- finished and the announced ones that are watched at the end.
pub run-balance :
    (q : Text → Text → Bool) (tracker : ProcessTracker) (polls : List (List Seen × ℕ))
    → tracker.seeded ≡ true
    → starts q (run tracker polls).1 + known q tracker.tracked
      ≡ ends q (run tracker polls).1 + known q (run tracker polls).0.tracked
unfolding run starts ends
run-balance q tracker [] h = refl
run-balance q tracker ((seen, now) ∷ polls) h =
    let (next, events) = tick tracker seen now in
    let later = (run next polls).1 in
    omega (
      arith,
      tick-balance q tracker seen now h,
      run-balance q next polls (unfold tick in refl),
      starts-append q events later,
      ends-append q events later,
    )
