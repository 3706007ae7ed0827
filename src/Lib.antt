-- ===== src/Lib.antt =====
-- go-sync-kit synchronises event stores. A sync manager (synckit/manager.go) pulls the events that a
-- remote side has beyond the local version, resolves conflicts with local events, stores what is
-- left, and pushes the local events that the remote side lacks. It reaches the store and the remote
-- side through interfaces (synckit/types/interfaces.go), orders its phases by a state machine
-- (synckit/statemachine), and compares events by versions, of which the vector clock
-- (version/vector_clock.go) and the integer cursor of the in-memory store
-- (storage/memstore/memstore.go) are modelled.
--
-- The files and what they model:
-- - Base: the names that all files share; lists over native numbers, Boolean tests, integers, and Go
--   maps as association lists (Base.Dict). Maps are read by key, so the order of a range over a map
--   is that of the list; the theorems on clocks state results that do not depend on it.
-- - Types: synckit/types/types.go and event/event.go. An event is the results of its methods. A
--   version is an integer cursor, a vector cursor or a pointer to a vector clock, which may be nil.
-- - Clock: version/vector_clock.go. A method that mutates its receiver returns the new clock beside
--   its error. Clock values are uint64: the increment wraps at 2^64.
-- - MemStore: storage/memstore/memstore.go. Each method is one step, as the lock makes it; a flag
--   says whether its context is done when it starts. Sequence numbers are uint64 and wrap; the
--   theorems that need it assume that there is room for the next numbers (HasRoom).
-- - Machine: synckit/statemachine/machine.go and types.go, over any type of states with decidable
--   equality; the time and the transition ID of a step are arguments.
-- - SyncState: synckit/sync_state.go, the states and rules of a sync operation.
-- - Manager: synckit/manager.go. Manager.Push, Manager.Conflicts, Manager.Pull and Manager.Sync are
--   the phases; the store and the remote side are records of functions over their states, and a
--   Context says at which polls the context is done. Manager.OverMemStore gives the manager the
--   in-memory store. Manager.Service adds the automatic sync, the subscribers and closing;
--   Manager.Retry is syncWithRetry, which no other code calls, and Manager.Projections the wait for
--   the projection runners after a sync.
-- - Resolver: synckit/resolver.go, over any type of conflicts; the hooks are the list of their calls.
--   Resolver.Strategies: synckit/resolvers.go.
-- - ConflictMachine: synckit/statemachine/dcr_state.go, over Machine. Workflow:
--   synckit/statemachine/conflict_workflow.go; Workflow.Active has the audit trails and the manager.
-- - Stateful: synckit/stateful_resolver.go with what it uses of
--   synckit/statemachine/stateful_resolver.go: a resolver of Resolver that drives a ConflictMachine and
--   workflows. Stateful.Calls is resolveWithTracking, Stateful.Resolve is Resolve, and
--   Stateful.Sequences has the constructors and calls one after another. Of the observability hooks,
--   OnWorkflowStarted and OnWorkflowCompleted are kept, as what they are called with. Durations and
--   counters are int64: they stand as their 64 bits, with the order and the division of int64.
-- - Memento: synckit/memento.go, the caretaker; Memento.Auditing the audited resolver, Memento.Rollbacks
--   the analysis of rollbacks.
-- - Composite: synckit/composite.go, groups of such rules as trees. Specs: synckit/spec.go.
-- - Projection: projection/runner.go, over a store, an offset store and a projector that are records
--   of functions; Projection.OverMemStore gives it the in-memory store.
-- - MemChan: transport/memchan/memchan.go. A subscriber is its channel with the state of its
--   goroutine; MemChan.Replica gives the manager this transport and the in-memory store.
-- - Versioned: version/store_decorator.go, over any store; an event that carries a clock is known by
--   the methods that read and set it. Versioned.Stamping gives it the in-memory store.
-- - Cursors: cursor/cursor.go, with encoding/json as a record of functions.
-- - TransportState: synckit/statemachine/transport_states.go. TransportManager:
--   synckit/statemachine/transport_manager.go, whose notices run in goroutines, in any order.
-- - Timeouts: synckit/statemachine/timeout.go; the goroutines that wait are a list of monitors.
-- - Idempotency: transport/httptransport/idempotency.go, with the clock as an argument.
--
-- Loops over slices and maps are recursion on lists. The batch loop of push runs on fuel, one unit
-- for each event; as every batch holds at least one event, that is enough. The loop of a projection
-- runner runs on fuel too, one unit for each event of the log and one more for the empty round.
--
-- Not modelled: the text form of clocks and the codecs of events (encoding/json), network transports,
-- SQL stores, logs, metrics other than those of a stateful resolver, floating-point delays, the other
-- observability hooks of stateful resolvers, the worker pool that runs projections after a sync (what
-- the wait returns is an argument of Sync), and the persistence and observability of state machines. A
-- manager without a state machine is left out.
pub mod Base
pub mod Types
pub mod Clock
pub mod MemStore
pub mod Machine
pub mod SyncState
pub mod Manager
pub mod Resolver
pub mod Composite
pub mod ConflictMachine
pub mod Cursors
pub mod Idempotency
pub mod MemChan
pub mod Memento
pub mod Projection
pub mod Specs
pub mod Stateful
pub mod Timeouts
pub mod TransportManager
pub mod TransportState
pub mod Versioned
pub mod Workflow
