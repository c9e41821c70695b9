-- ===== src/Examples/Hits.antt =====
-- The theorem on merged search results, at two hits and two literal matches.
use contextd.Prelude.{ℕ, ◌≡◌, refl, some, List, [], ◌∷◌, ◌++◌, map, filter, take}
use contextd.Prelude.Int.{pos}
use contextd.Text.{str, text_eq}
use contextd.Core.Event.{ProcessedEvent, EventSource, new}
use contextd.Broker.Search.{SearchHit, semantic, text_hit, merge}
use contextd.Broker.Search.Merged.{DistinctHits, DistinctEvents, marked, is_new, merge_lem}
use contextd.Examples.{Value, event_of, shell_run}

abbrev run_at : ℕ → ProcessedEvent Value
run_at n = new (event_of EventSource.shell n (shell_run (str "make") (pos 0))) 50

abbrev hit_at : ℕ → SearchHit Value ℕ
hit_at n = record { event = run_at n; matched_by = semantic; distance = some n }

-- The second match is a semantic hit as well.
abbrev hits : List (SearchHit Value ℕ)
hits = hit_at 1 ∷ hit_at 2 ∷ []

abbrev matches : List (ProcessedEvent Value)
matches = run_at 3 ∷ run_at 2 ∷ []

hits-DistinctHits : DistinctHits hits
unfolding text_eq new
hits-DistinctHits = ((refl, tt), (tt, tt))

matches-DistinctEvents : DistinctEvents matches
unfolding text_eq new
matches-DistinctEvents = ((refl, tt), (tt, tt))

merge_lem_example :
    merge hits matches 2
    ≡ take 2 (map (marked matches) hits ++ map text_hit (filter (is_new hits) matches))
merge_lem_example = merge_lem hits matches 2 hits-DistinctHits matches-DistinctEvents
