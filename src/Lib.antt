-- ===== src/Lib.antt =====
-- contextd keeps a log of what happens on a developer's machine and tells coding agents, in a few
-- lines, what is going on. An event comes from a source (a shell hook, git, the file system), is
-- scored and classified, and is written to the log; claims of users and agents are events of the
-- same log. A fold of the log gives the claim view: tasks, and claims on them. A briefing is
-- rendered from the view and cut to a budget of tokens. The daemon's handlers check a request
-- against the rules for claims and against the view, and append an event.
--
-- Which file models which part:
--   Core/Event, Core/Memory, Core/Claim, Core/Projection: crates/core/src/event.rs, memory.rs and
--     claim.rs: the data, and the operations of `Projection`. `Vec` is List; an update through
--     `iter_mut().find` is `modify_first`.
--   Core/Validate: `validate`, `validate_against_projection` and `check_text` of claim.rs. An
--     error is its message.
--   Memory/Project, Memory/Focal: crates/memory/src/project.rs: `fold` with `fold_shell`,
--     `fold_claim` and `assert_claim`, and `focal_task`.
--   Memory/Working: crates/memory/src/working.rs: `WorkingSet`; `record` is `record_event`.
--   Memory/Entities, Memory/UnGraph, Memory/Graph: crates/memory/src/graph.rs: `entities_of`, what
--     is used of petgraph, and `KnowledgeGraph`; `HashMap` is an association list.
--   Broker/Words, Broker/Handoff, Broker/Drafts, Broker/Gate, Broker/Extract:
--     crates/broker/src/extract.rs: the tests on words, the log and the report, the quoting of a
--     note, `admit`, and the handlers with `apply_extraction`. A `BTreeMap` is an association list.
--   Broker/Search: crates/broker/src/search.rs: `search`, `recall` and `merge`.
--   Broker/Budget, Broker/Snapshot: crates/broker/src/budget.rs and snapshot.rs: `TokenBudget`,
--     `fit_to_tokens`, and `render` with `trim_to_budget`.
--   Pipeline/Heuristics, Pipeline/Classify, Pipeline/Content, Pipeline/Decision:
--     crates/pipeline/src: `process_event`, the classifiers, `summarize`, `decide`, `should_drop`.
--   Store/Archive, Background/Pruner: crates/store/src/archive.rs with the queries of db.rs that
--     the pruner runs, and crates/background/src/pruner.rs. A pass is the list of its writes.
--   Sources/Poller: crates/sources/src/proc_poller.rs: `ProcessTracker` with `tick`.
--   Sources/Noise, Sources/Manifest, Sources/Paths: crates/sources/src/noise.rs and the test on
--     paths of manifest.rs, over paths as lists of components.
--   Sources/Hooks: `install_hooks` of crates/sources/src/git.rs, over the files of each hook.
--   Sources/Install: crates/sources/src/install.rs: the managed block of a shell profile.
--   Daemon/Claims: bin/contextd/src/main.rs: `record_user_intent`, `record_user_claim` and
--     `record_agent_claim`, up to the event that they append.
--   Prelude, Text, Json: shared lists and tests, strings, and what is used of serde_json.
--   Examples: concrete payloads, logs and views at which the theorems apply.
--
-- How code becomes a definition: a string is its list of code points, and `str` writes one; its
-- length in bytes is `byte_len`. A function that mutates a value returns the new one, with its
-- result if there is one. A payload has an unknown type, read through the record `Json`; the digest
-- of blake3, the decoding of a claim event, `to_lowercase` and the encoding of a briefing are
-- parameters, and no law of them is assumed. Scores are counted in hundredths, since every score
-- and threshold of the source has two decimal places at most. An `i64` exit code is an integer of
-- which only the sign and the digits are used; timestamps are natural numbers, since the code only
-- compares them and subtracts with saturation. The weight of an edge is a count: an `f32` counts by
-- one up to 2^24 and stays there. petgraph and the file system are records of operations, whose
-- documented behaviour a theorem takes as a hypothesis where it needs it. A shell profile is absent,
-- a text, or a file that cannot be read as text. `usize` is 64 bits wide in `fit_to_tokens`, where a
-- multiplication saturates.
--
-- Fuel: two loops run on fuel. `trim_loop` gets one more than the number of things that can be
-- taken away from the briefing, and each round takes one away. `evict` gets one more than the
-- number of events, and each round removes one.
--
-- Not modelled: SQLite (the rest of crates/store, the graph store, `rebuild`), the ranking,
-- the texts of the shell hooks, the other sources, the background loops, the sockets and the
-- command line. They are effects, statements in SQL, or floating point.
pub mod Prelude
pub mod Text
pub mod Json
pub mod Core
pub mod Memory
pub mod Broker
pub mod Pipeline
pub mod Store
pub mod Background
pub mod Sources
pub mod Daemon
pub mod Examples
