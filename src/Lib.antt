-- ===== src/Lib.antt =====
-- Verification of vibefeld, a ledger of proofs that provers and verifiers build against each other.
--
-- A proof is a tree of nodes with hierarchical identifiers such as 1.2.1. Every change is an event in
-- an append-only ledger; the state is what replaying the events gives. A decision of a verifier on a
-- node changes its epistemic state, supersedes the open challenges on it when it is refuted or
-- archived, and recomputes what taint the node and its descendants inherit. Job detection reads the
-- state and says which nodes wait for a prover and which for a verifier.
--
-- The parts, and the files that model them:
--   Types/NodeId.antt     internal/types/id.go: NodeID as its parts and the cached string
--   Schema/*.antt         internal/schema: the registries, ValidateEpistemicTransition and
--                         ValidateWorkflowTransition; a Go string type is a data type with a
--                         constructor for each constant and `other` for the rest
--   Node.antt             internal/node/node.go; Node/Challenge.antt is internal/node/challenge.go
--   Node/Pending.antt, Node/Blocking.antt
--                         internal/node/pending_def.go and blocking.go: requests for definitions, and
--                         the nodes that wait for them; Node/Invariant.antt is validate_invariant.go
--   Config.antt           internal/config/config.go: Load, Default, Validate; a float64 is a sign and a
--                         multiple of 2 ^ -1074
--   Taint.antt            internal/taint: ComputeTaint is `compute_taint`, PropagateTaint is
--                         `propagate_taint`, with its cache of ancestors as an explicit state
--   Scope.antt            internal/scope: the tracker of assumption scopes; Scope/Validate.antt is
--                         inherit.go and validate.go
--   Ledger/Event.antt     internal/ledger/event.go: one constructor for each event type
--   Ledger/Store.antt     internal/ledger/append.go, filename.go, read.go: the event files as numbers
--                         with what they hold; which call of the file system fails is an argument,
--                         in AppendBatch each rename and each removal of its rollback
--   Cycle.antt            internal/cycle/cycle.go: the search with three colours, with the path that is
--                         reported and the nodes that are skipped as arguments; Node/Cycle.antt is
--                         internal/node/cycle.go over the same search
--   Citations.antt        internal/lemma/extcite.go, with the match of its regular expression
--   Independence.antt     internal/lemma/independence.go: ValidateIndependence
--   Service.antt, Service/Decisions.antt, Service/Refine.antt
--                         internal/service/proof.go: what an operation checks, as a function of what
--                         LoadState gives, and the event with the sequence number that it expects
--   Service/Commit.antt   LoadState and the appends of internal/service/proof.go; Service/World.antt
--                         has the agents' steps, and Service/Cycles.antt is proof_cycle.go
--   State.antt            internal/state/state.go: a node pointer is a number into the state's heap, a
--                         challenge pointer is the challenge's key; State/Queries.antt has the queries
--   State/Handlers.antt, State/Apply.antt
--                         internal/state/apply.go: each handler returns the state that it leaves and
--                         the error, since the code mutates the state before it may fail
--   State/Replay.antt     internal/state/replay.go: the callback of the scan and the scan
--   Jobs.antt             internal/jobs: FindProverJobs, FindVerifierJobs, FindJobs
--   Lock.antt             internal/lock: ClaimLock over a heap, and the Manager
--   Fuzzy.antt            internal/fuzzy/levenshtein.go: Distance, with its two rows as lists
--   Text.antt             what the program uses of Go's strings and strconv
--   Prelude.antt          lists over native numbers, Go maps, results and tests
-- The files below one of these prove what their names say. Tests.antt and its children hold examples.
--
-- A map is an association list, whose order stands for the order of a `range` loop. A part of an
-- identifier is a natural number, since Parse and Child admit positive numbers only; `max_int` bounds
-- what an `int` holds. The loop up the parents has the depth of the identifier as its fuel: a node of
-- depth n has fewer than n ancestors, and each round leads to a shorter identifier. `itoa` has the
-- number itself as its fuel. The outer loop of the exchange sort has as many rounds as entries.
--
-- An instant is a natural number of nanoseconds without an upper bound, where Go's time.Time and
-- time.Duration are bounded; a timeout and a limit of the configuration are integers, and what
-- Config gives, an error or the limits, is an argument of the service's operations.
--
-- Parameters: `sha256_hex` is the hash, `now` and `clock` are readings of the clock, and `Sorter` is
-- what the documentation of sort.Slice says, a permutation that is sorted by the key. `read_file` and
-- `unmarshal` stand for the reading of meta.json, and the bytes of crypto/rand are an argument.
--
-- The search for cycles has one round of fuel more than nodes are known: each round but the last
-- colours a known node that was white. The search for a free child number has one round more than
-- there are nodes. ComputeBlockedSet has a round for each node that requested a definition and for each
-- node with dependencies: no node is queued twice. The walk up
-- the ancestors in ValidateIndependence has as many rounds as the identifier has parts.
--
-- Not modelled: the bytes of the events and encoding/json (a replay takes parsed events, `none` where
-- parsing fails), the names of the ledger's files and its lock file, the locks on disk and their
-- events, the taint events that the service appends behind a decision, and the command line with its
-- rendering.
pub mod Prelude
pub mod Text
pub mod Types
pub mod Schema
pub mod Node
pub mod Taint
pub mod Scope
pub mod Ledger
pub mod Jobs
pub mod Lock
pub mod Fuzzy
pub mod Cycle
pub mod State
pub mod Citations
pub mod Service
pub mod Config
pub mod Independence
mod Tests
