-- ===== src/Lib.antt =====
-- GitOps Reverser: a Kubernetes operator that watches the API server and writes what it sees to Git.
--
-- The parts that are modelled, and how they work together:
-- - Discovery of the API surface yields an observation per resource type. `Evaluate`
--   (internal/typeset/funnel.go) runs the followability checks over it and gives a verdict.
-- - The registry (internal/typeset/registry.go, lifecycle.go) keeps a record per type over successive
--   scans: `Update` holds a live type that goes absent for a grace, counts a revision, and hands
--   lifecycle events to its observers.
-- - The materializer (internal/typeset/materializer.go) consumes these events and the claims of
--   GitTargets, and drives the sync of each type that is both followable and claimed.
-- - The rule store (internal/rulestore/store.go) keeps the compiled watch rules that the controllers add
--   and delete, and says which of them match an event.
-- - The store of author facts (internal/queue/fact_index_store.go) holds what the audit log says of the
--   authors of changes, for one audit route and one resource, until a TTL or a cap.
-- - The branch worker (internal/git/branch_worker.go and the files beside it) owns one branch. Its event
--   loop collects live events in a commit window, turns the window, atomic requests and resyncs into
--   pending writes with local commits, pushes them after a cooldown, replays them when the remote has
--   moved, and tells each CommitRequest and each resync what became of it. It asks the render fidelity
--   gate (render_fidelity_gate.go) whether a target accepts live writes.
-- - Paths: the file of an object (internal/types/identifier.go, internal/git/git.go), the types whose
--   files are encrypted (internal/types/sensitive_resource.go), and whether two GitTargets write the same
--   files (internal/controller/gittarget_path_overlap.go).
-- - The retention roll-up (internal/watch/retention_rollup.go) sums what the resyncs of a target kept
--   under its prune policy, for its status.
-- - A prune policy (api/v1alpha3/prune_policy.go) says which deletion paths may remove a document.
--
-- Files:
-- - Base: the shared types and lemmas. Base.Table is the Go map as an association list, Base.Eq
--   equality as an instance, Base.Sort `sort.Slice` as an insertion sort, Base.Tests the Boolean tests.
-- - Api.Prune: api/v1alpha3/prune_policy.go.
-- - Rules.Match, Rules.Store: internal/rulestore/store.go, the matching and the operations; Rules.Spec
--   describes what a rule selects and Rules.Histories and Rules.Matching follow a store over its operations.
-- - Facts.Model, Facts.Store: internal/queue/fact_index_store.go, with the types of author_fact.go and
--   fact_index.go that it uses: the tables and lookups, and the sweep, the eviction and the compaction.
--   Facts.Lookup has the tiers of `Lookup` of internal/queue/fact_index.go over such a store. The
--   theorems are in Facts.Sweeps, Facts.Counts, Facts.Steps and Facts.Tiers. Facts.Filing has `file`, which
--   puts a fact into the tables, without the keys of the waiters, and what it leaves alone.
-- - Typeset.Model, Typeset.Funnel: internal/typeset/model.go and funnel.go; the specification of the
--   verdict is in Typeset.Funnel.Verdicts.
-- - Typeset.Lifecycle: internal/typeset/lifecycle.go. `lifecycle_step` is one round of the loop of
--   `computeLifecycleLocked`; a streak of rounds is in Typeset.Lifecycle.Streak.
-- - Typeset.Registry: internal/typeset/registry.go. `update` is `Update` with the reading of the clock
--   as an argument and the dispatched events as a result.
-- - Typeset.Sync, Typeset.Materializer: internal/typeset/materializer.go and
--   materialization_lifecycle.go; Sync has the state machine of one type, Materializer the tables.
-- - Paths.Clean: `path.Clean` and the functions of package strings that the paths use. Paths.Overlap:
--   gittarget_path_overlap.go, with theorems in Paths.Segments and Paths.Contains. Paths.Identifier: the
--   identifiers, the sensitive types, and the functions of internal/git/git.go that make paths, with
--   theorems in Paths.Files and Paths.Sensitive.
-- - Git.Gate: render_fidelity_gate.go; Git.Epoch follows the gate through one epoch, on the lemmas of
--   Git.Reduction and Git.Reports.
-- - Git.Model: the events, the open window and the CommitRequests of types.go, open_window.go and
--   commit_request_attach.go; Git.Window has the theorem on windows.
-- - Git.Pending, Git.Commit, Git.Push: pending_writes.go, commit_executor.go, and the commits and pushes of
--   branch_worker.go. Git.Ledger shows what they leave alone.
-- - Git.Worker, Git.Requests, Git.Resyncs, Git.Loop: the event loop. `wake` is one round of `run` of
--   branch_worker.go, Git.Requests is commit_request_attach_loop.go, Git.Resyncs resync_flush.go.
--   Git.Frames and Git.Walk say what the handlers keep; Git.Accounts, Git.Balance, Git.Replies,
--   Git.Outcomes, Git.Closing, Git.Timers and Git.Cooldown hold the theorems.
-- - Watch.Retention: internal/watch/retention_rollup.go, with the theorem in Watch.Latest. The key of a
--   scope is a type with an equality, and the counts, of documents, do not reach the bound of an int.
-- - A module named Tests holds runs on concrete data.
--
-- Conventions: a mutex that guards a whole operation makes it one step, so the locks are not modelled.
-- A Go `range` over a map visits the association list in its order, and the theorems hold for any
-- order. Times are nanoseconds in ℕ, read from the clock as an argument; a zero `time.Time` is `none`;
-- the difference of two times stops at 0, as Go's comparisons `now.Sub(t) >= d` with d > 0 do not see a
-- negative difference. The revision wraps around at 2 ^ 64. `GVR.String()` of apimachinery is the
-- parameter `gvr_text`; label selectors and the parser of RFC 3339 time stamps are the record
-- `Externals` of Facts.Model.
--
-- `strings.EqualFold` and `strings.ToLower` change the case of ASCII letters, which are all that the
-- name of a Kubernetes resource may have.
--
-- The branch worker works against a `Backend` of Git.Pending over a world of any type: go-git, the API
-- server, and the plan and flush of one write, each a function of the world with its errors. A wake reads
-- the clock once. Byte counts are in ℕ, as sums of sizes in memory do not reach 2 ^ 63. The texts that wrap
-- an error on its way are left out but for those that end in the outcome of a CommitRequest, and the
-- reporter of refusals is set. The queue of the worker is the order of the wakes.
--
-- Loops run over lists, and no definition uses fuel but `push_rounds`, whose number of attempts is the
-- constant of the source.
--
-- Not modelled: the index over all scopes with its caps and waiters (the rest of fact_index.go) and the
-- read indexes of the registry, which stand apart from the code above; the plan and flush of a write
-- (internal/git/plan_flush.go), the rest of the watch manager and the manifest analyzer (internal/watch,
-- internal/manifestanalyzer), which work on third-party clients and parsers; the transports (Git, Redis,
-- HTTP, the Kubernetes clients), the reconcilers and the commands, which are input and output.
pub mod Base
pub mod Api
pub mod Facts
pub mod Git
pub mod Paths
pub mod Rules
pub mod Typeset
pub mod Watch
