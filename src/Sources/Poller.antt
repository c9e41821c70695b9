-- ===== src/Sources/Poller.antt =====
-- crates/sources/src/proc_poller.rs: the processes that are watched from one poll to the next. The
-- hash map from process ids is an association list with each id once: `or_insert_with` puts a new
-- id at its end, and `retain` keeps the order.
pub mod Balance
pub mod Watching
use contextd.Prelude.{
  ℕ, ◌-◌, Bool, true, false, not, ◌&&◌, List, [], ◌∷◌, ◌++◌, leb, ◌==◌, any, map, length,
  if◌then◌else◌,
}
use contextd.Text.{Text, str, contains}

abbrev target_processes : List Text
target_processes =
    str "cargo" ∷ str "node" ∷ str "npm" ∷ str "python" ∷ str "docker" ∷ str "rustc" ∷ []

abbrev pub min_lifetime_ms : ℕ
min_lifetime_ms = 2000

pub record Tracked : Type 0 where
  pub name : Text
  pub command : Text
  pub first_seen_ms : ℕ
  pub announced : Bool

pub record Seen : Type 0 where
  pub pid : ℕ
  pub name : Text
  pub command : Text

pub data ProcEvent : Type 0 where
  started : Text → Text → ProcEvent
  finished : Text → Text → ℕ → ProcEvent

abbrev pub Table : Type 0
Table = List (ℕ × Tracked)

pub record ProcessTracker : Type 0 where
  pub tracked : Table
  pub seeded : Bool

-- `ProcessTracker::new()`
abbrev pub new : ProcessTracker
new = record { tracked = []; seeded = false }

abbrev pub new_entry : Bool → ℕ → Seen → Tracked
new_entry seeding now process = record {
  name = process.name;
  command = process.command;
  first_seen_ms = now;
  announced = seeding;
}

abbrev pub is_due : ℕ → Tracked → Bool
is_due now t = not t.announced && leb min_lifetime_ms (now - t.first_seen_ms)

-- The update of an entry, and the event that it gives.
unfoldable pub announce : ℕ → Tracked → Tracked × List ProcEvent
announce now t =
    if is_due now t then (record t { announced = true }, started t.name t.command ∷ []) else (t, [])

-- One round of the first loop of `tick`: the entry of the process, new if there was none.
unfoldable pub observe : Bool → ℕ → Table → Seen → Table × List ProcEvent
observe seeding now [] process =
    let (t, events) = announce now (new_entry seeding now process) in
    ((process.pid, t) ∷ [], events)
observe seeding now ((pid, entry) ∷ rest) process =
    let (rest', later) = observe seeding now rest process in
    let (t, events) = announce now entry in
    if pid == process.pid then ((pid, t) ∷ rest, events) else ((pid, entry) ∷ rest', later)

unfoldable pub observe_all : Bool → ℕ → Table → List Seen → Table × List ProcEvent
observe_all seeding now table [] = (table, [])
observe_all seeding now table (process ∷ seen) =
    let (next, events) = observe seeding now table process in
    let (last, later) = observe_all seeding now next seen in (last, events ++ later)

abbrev pub is_live : List Seen → ℕ → Bool
is_live seen pid = any (λ (s : Seen). s.pid == pid) seen

-- `retain`: what is gone is dropped, and reported if it was announced.
unfoldable pub depart : ℕ → List Seen → Table → Table × List ProcEvent
depart now seen [] = ([], [])
depart now seen ((pid, t) ∷ rest) =
    let (kept, events) = depart now seen rest in
    let gone = finished t.name t.command (now - t.first_seen_ms) in
    if is_live seen pid
    then ((pid, t) ∷ kept, events)
    else (kept, if t.announced then gone ∷ events else events)

unfoldable pub tick : ProcessTracker → List Seen → ℕ → ProcessTracker × List ProcEvent
tick tracker seen now =
    let (table, starts) = observe_all (not tracker.seeded) now tracker.tracked seen in
    let (kept, ends) = depart now seen table in
    (record { tracked = kept; seeded = true }, starts ++ ends)

unfoldable pub watching : ProcessTracker → ℕ
watching tracker = length tracker.tracked

unfoldable pub is_interesting : (Text → Text) → Text → Text → Bool
is_interesting to_lowercase name command =
    any (contains (to_lowercase name)) target_processes && not (contains command (str "contextd"))
