-- ===== src/Lib.antt =====
-- A model of the moos kernel: a typed graph that is the fold of an append-only log of rewrites.
--
-- The parts and how they interact. A client hands an envelope (internal/graph/rewrite.go) to the
-- runtime (internal/kernel/runtime.go). The runtime checks that the envelope runs under an occupied
-- session (internal/kernel/liveness.go over internal/operad/session_context.go and occupancy.go),
-- validates it against the ontology (internal/operad/validate.go), lets the gates on the touched nodes
-- speak (internal/reactive/engine.go), applies it with the pure fold (internal/fold), appends it to the
-- store and only then replaces its state and log. A restart replays the store.
--
-- Files:
--   Prelude, Prelude/*       tests, results with an error, Go's maps (association lists in which the
--                            order of a scan is the order of the list) and sets
--   Graph, Graph/*           internal/graph: node.go, relation.go, property.go, rewrite.go, state.go.
--                            Graph/Consistent has the invariant of the state: nodes and relations under
--                            their own URNs, ends that exist, and indexes that say what the maps say.
--   Fold, Fold/*             internal/fold: evaluate.go (Fold), program.go (Fold/Program), replay.go
--                            (Fold/Replay). Fold/Effect is the specification of one rewrite as a
--                            relation; Fold/Atomic has the sequence of them for a batch; Fold/Log,
--                            Fold/Halt and Fold/Duplicates are about the replay of a log.
--   Operad, Operad/*         internal/operad: registry.go (Operad), port_colors.go (Operad/Colors),
--                            validate.go (Operad/Validate, Operad/Strata, Operad/Causal), occupancy.go
--                            (Operad/Occupancy), session_context.go (Operad/Session), loader.go
--                            (Operad/Loader, Operad/Loader/*). Operad/Link and Operad/Mutate describe
--                            what the grammar admits.
--   Reactive, Reactive/*     internal/reactive: engine.go (Reactive, Reactive/Engine) and predicate.go
--                            (Reactive/Predicate). Reactive/Engine/Fired and Reactive/Predicate/Fires say
--                            as relations what fires.
--   TDay                     internal/tday/tday.go
--   Kernel, Kernel/*         internal/kernel: runtime.go (Kernel/Commit, Kernel/Apply, Kernel/Program,
--                            Kernel/Gates, Kernel/Reactions, Kernel/Drift), liveness.go
--                            (Kernel/Liveness), sweep.go (Kernel/Staging, Kernel/Sweep), log_integrity.go
--                            (Kernel/Integrity), store.go and mem_store.go. Kernel/Folded has the
--                            invariant of the runtime, Kernel/Folded/* its preservation by the writers
--                            and the restart, Kernel/Sweep/* what a sweep leads to, and
--                            Kernel/Integrity/* what the report on the log lists.
--   Tests, Tests/*           the theorems at concrete inputs
--
-- How code becomes definitions. A Go function becomes a function by clauses with the same name in
-- snake case; an early return of an error is `reject_if` or `err`; a pointer to the state is a state
-- passed on. The fold works on a deep copy (`Clone`), and each handler writes only after its last
-- check, so an error returns no state. The errors are constructors, one for each sentinel or message.
-- An int64 is its bit pattern below 2 ^ 64 and wraps; a time is a number of nanoseconds; a float64 is
-- its IEEE bits. A nil index or map is `none`. A method on the runtime takes and returns the runtime;
-- the locks are left out, so each call is one step, and the clock is the sequence of its readings.
--
-- Bounds. Loops are structural recursion over the list that they scan. The breadth-first search of
-- `ValidateCausalAcyclic` runs on fuel, one more than there are relations: each relation queues its
-- target once at most, so the fuel is never used up. Go scans maps and sets in any order; the model
-- takes the order of its lists, and the statements say nothing of the order.
--
-- What is not modelled. The store behind the interface is a parameter with the law `IsStore` as a
-- hypothesis, which the in-memory store keeps; the JSONL file and its lock are operating system I/O.
-- `fmt.Sprintf` of a value, of a number and of a time, the JSON encoder and decoder, SHA-1, SHA-256 and
-- the index over the vectors of the nodes (internal/hdc, in floating point) are parameters.
-- `apply_with_options` and `apply_program` are the parts of `Apply` and `ApplyProgram` up to the
-- reactions and the drift claims, `apply_reacting` and `apply_program_annotated` the whole. The warnings of the ontology loader,
-- the subscriptions and the reads of the runtime, the goroutine of the timed sweep, the HTTP, QUIC and
-- MCP servers and the command are left out.
pub mod Prelude
pub mod Graph
pub mod Fold
pub mod Operad
pub mod Reactive
pub mod TDay
pub mod Kernel
pub mod Tests
