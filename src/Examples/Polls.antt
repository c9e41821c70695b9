-- ===== src/Examples/Polls.antt =====
-- The theorems on the process poller, at a few polls.
use contextd.Prelude.{ℕ, ◌+◌, ◌≡◌, refl, Bool, true, List, [], ◌∷◌}
use contextd.Text.{Text, text_eq}
use contextd.Sources.Poller.{ProcessTracker, Seen, tick, is_live}
use contextd.Sources.Poller.Balance.{starts, ends, known, run, run-balance}
use contextd.Sources.Poller.Watching.{tracks, tick-tracks}

abbrev build : Seen
build = record { pid = 4; name = 99 ∷ []; command = 98 ∷ [] }

abbrev is_build : Text → Text → Bool
is_build name command = text_eq command (98 ∷ [])

abbrev waiting : ProcessTracker
waiting = record { tracked = []; seeded = true }

-- The build is seen twice, three seconds apart, and then it is gone.
abbrev polls : List (List Seen × ℕ)
polls = (build ∷ [], 1000) ∷ (build ∷ [], 4000) ∷ ([], 5000) ∷ []

run-balance_example :
    starts is_build (run waiting polls).1 + known is_build waiting.tracked
    ≡ ends is_build (run waiting polls).1 + known is_build (run waiting polls).0.tracked
run-balance_example = run-balance is_build waiting polls refl

tick-tracks_example : tracks 4 (tick waiting (build ∷ []) 1000).0.tracked ≡ is_live (build ∷ []) 4
tick-tracks_example = tick-tracks waiting (build ∷ []) 1000 4
