-- ===== src/Manager/Tests.antt =====
-- synckit/manager.go: examples, with an in-memory store on both sides.
use go_sync_kit.Base.{
  ltb, if◌then◌else◌, ◌+◌, Option, ℕ, ◌<◌, none, some, List, [], ◌∷◌, ◌++◌, true, false, ◌≡◌, refl,
  arith,
}
use go_sync_kit.Base.Int.{pos}
use go_sync_kit.Base.Dict.{lookup, insert}
use go_sync_kit.Types.{
  Event, EventWithVersion, Version, integer, vector, clock, bytes, Conflict, ResolvedConflict,
  StoreError, Result, ok, err,
}
use go_sync_kit.Machine.{Machine, transition, contains}
use go_sync_kit.SyncState.{SyncState, SyncState-discrete, idle, sync_rules}
use go_sync_kit.MemStore.{MemStore, new, load, latest_version, store_batch}
use go_sync_kit.Manager.{
  EventStore, Transport, Methods, Options, Context, already_in_progress, Manager, apply_filter,
}
use go_sync_kit.Manager.Push.{effective_batch_size, push}
use go_sync_kit.Manager.Pull.{
  pull, conflict_stage, resolve_conflicts, resolve_in_state, resolve_all, store_events,
}
use go_sync_kit.Manager.Sync.{sync}
use go_sync_kit.Manager.Moves.{At}
use go_sync_kit.Manager.Conflicts.{
  key_of, index_by_key, scan_remote, conflicts_with, detect_conflicts, versions_differ,
}
use go_sync_kit.Manager.Conflicts.Detection.{conflicts_of_all, detect_conflicts-eq-all}
use go_sync_kit.Manager.Idle.{sync-idle}
use go_sync_kit.Manager.Blocked.{conflicts_block_push, machine_at_pull, HasFailed}
use go_sync_kit.Manager.Stuck.{sync_each, sync_blocks_itself}
use go_sync_kit.Manager.Retry.{
  WrappedError, wrapping_error, sync_error, sync_with_retry, Ends, sync_with_retry-Ends,
}
use go_sync_kit.Manager.Service.{Service}
use go_sync_kit.Manager.Lifecycle.{
  Action, started, stopped, shut_down, ticked, run, IsOrderly, run-IsOrderly,
}
use go_sync_kit.Manager.Batches.{IsPushOf, push-IsPushOf}
use go_sync_kit.Manager.Stores.{IsStoreOf, pull-IsStoreOf}
use go_sync_kit.Manager.OverMemStore.{mem_event_store}

abbrev order : Version → ℕ
order (integer seq) = seq
order (vector counters) = 0
order (clock vc) = 0

abbrev constant_methods : Methods
constant_methods = record {
  compare = λ v w. pos 1;
  show_version = λ v. "v";
  show_payload = λ p. "p";
}

abbrev mem_transport : Transport MemStore StoreError
mem_transport = record {
  get_latest_version = latest_version false;
  pull = λ since r. load false since [] r;
  push = store_batch false;
}

abbrev calm : Context
calm = record {
  done_at_batch = λ n. false;
  done_at_resolution = false;
  done_at_store = λ n. false;
  now = λ n. n;
  transition_id = λ n. n;
}

abbrev take_remote : Conflict → Result StoreError ResolvedConflict
take_remote c = ok (record { resolved_events = c.remote ∷ []; decision = "remote"; reasons = [] })

abbrev both_ways : Options StoreError
both_ways = record {
  push_only = false;
  pull_only = false;
  filter = none;
  batch_size = pos 1;
  resolver = some take_remote;
}

abbrev idle_machine : Machine SyncState
idle_machine = record {
  initial = idle;
  rules = sync_rules;
  validator = none;
  max_history = 50;
  state = idle;
  state_start = 0;
  observers = [];
  history = [];
}

idle_machine-At : At idle idle_machine
idle_machine-At = record { rules = refl; validator = refl; state = refl }

abbrev created : Event
created = record {
  id = "e1";
  kind = "created";
  aggregate_id = "order";
  payload = bytes (1 ∷ []);
  metadata = none;
}

abbrev local_event : EventWithVersion
local_event = record { event = created; version = integer 1 }

abbrev remote_event : EventWithVersion
remote_event = record { event = record created { id = "e2" }; version = integer 2 }

abbrev filled : MemStore
filled = (store_batch false (local_event ∷ remote_event ∷ []) new).0

abbrev mem_manager : Manager MemStore MemStore
mem_manager = record { store = new; remote = filled; machine = idle_machine; closed = false }

sync-idle_example :
    At idle
      (sync constant_methods mem_event_store mem_transport calm both_ways none
        mem_manager).0.machine
sync-idle_example =
    sync-idle constant_methods mem_event_store mem_transport calm both_ways none mem_manager refl
      idle_machine-At

-- A store that numbers events with its own versions: `load` returns all of them.
abbrev log_store : EventStore (List EventWithVersion) StoreError
log_store = record {
  latest_version = λ s. ok (integer 0);
  load = λ since s. ok s;
  store = λ e v s. (s ++ record { event = e; version = v } ∷ [], none);
}

abbrev log_transport : Transport (List EventWithVersion) StoreError
log_transport = record {
  get_latest_version = λ r. ok (integer 0);
  pull = λ since r. ok r;
  push = λ evs r. (r ++ evs, none);
}

push-IsPushOf_example :
    IsPushOf log_transport calm
      (effective_batch_size (pos 1))
      []
      (apply_filter none (local_event ∷ remote_event ∷ []))
      0
      (push log_store log_transport calm both_ways (local_event ∷ remote_event ∷ []) [])
push-IsPushOf_example =
    push-IsPushOf log_store log_transport calm both_ways (local_event ∷ remote_event ∷ []) []
      (integer 0) (local_event ∷ remote_event ∷ []) refl refl

abbrev log_manager : Manager (List EventWithVersion) (List EventWithVersion)
log_manager = record {
  store = local_event ∷ [];
  remote = remote_event ∷ [];
  machine = idle_machine;
  closed = false;
}

conflict_found :
    0
    < (pull constant_methods log_store log_transport calm both_ways log_manager.store
        log_manager.remote
        (machine_at_pull constant_methods log_store log_transport calm both_ways
          idle_machine)).result.conflicts_resolved
unfolding pull conflict_stage resolve_conflicts detect_conflicts index_by_key scan_remote
    conflicts_with versions_differ key_of lookup insert transition contains SyncState-discrete
    resolve_in_state resolve_all store_events
conflict_found = omega arith

conflicts_block_push_example :
    let done = sync constant_methods log_store log_transport calm both_ways none log_manager in
    (done.0.remote ≡ remote_event ∷ [])
    × HasFailed constant_methods log_store log_transport calm both_ways done.1
conflicts_block_push_example =
    conflicts_block_push constant_methods log_store log_transport calm both_ways none log_manager
      refl refl refl idle_machine-At conflict_found

abbrev neither_way : Options StoreError
neither_way = record both_ways { push_only = true; pull_only = true }

sync_blocks_itself_example :
    let after =
      (sync constant_methods log_store log_transport calm neither_way none log_manager).0 in
    sync_each constant_methods log_store log_transport calm neither_way
      ((calm, none) ∷ (calm, none) ∷ [])
      after
    ≡ (after, err already_in_progress ∷ err already_in_progress ∷ [])
sync_blocks_itself_example =
    sync_blocks_itself constant_methods log_store log_transport calm neither_way
      ((calm, none) ∷ (calm, none) ∷ []) log_manager (integer 0) refl idle_machine-At refl refl refl

detect_conflicts-eq-all_example :
    detect_conflicts constant_methods (local_event ∷ []) (remote_event ∷ [])
    ≡ conflicts_of_all constant_methods (local_event ∷ []) (remote_event ∷ [])
detect_conflicts-eq-all_example =
    detect_conflicts-eq-all constant_methods (local_event ∷ []) (remote_event ∷ [])

abbrev x_y_event : EventWithVersion
x_y_event = record {
  event = record created { aggregate_id = "x:y"; kind = "z" };
  version = integer 1;
}

abbrev y_z_event : EventWithVersion
y_z_event = record {
  event = record created { aggregate_id = "x"; kind = "y:z" };
  version = integer 2;
}

differ : versions_differ constant_methods x_y_event y_z_event ≡ true
unfolding versions_differ
differ = refl

abbrev unresolved : Options StoreError
unresolved = record both_ways { resolver = none }

pull-IsStoreOf_example :
    let p =
      pull constant_methods log_store log_transport calm unresolved
        (local_event ∷ [])
        (remote_event ∷ [])
        idle_machine in
    IsStoreOf log_store calm
      (local_event ∷ [])
      (apply_filter none (remote_event ∷ []))
      0
      p.store
      p.result.events_pulled
      p.error
pull-IsStoreOf_example =
    pull-IsStoreOf constant_methods log_store log_transport calm unresolved (local_event ∷ [])
      (remote_event ∷ []) idle_machine (integer 0) (remote_event ∷ []) refl refl refl

-- An operation that fails, for a reason that may go away, until it is called a third time.
abbrev third_time : ℕ → ℕ × Option WrappedError
third_time n = (n + 1, if ltb n 2 then some (wrapping_error "push" (sync_error true)) else none)

sync_with_retry-Ends_example :
    Ends third_time (λ n. false) 0 5 (sync_with_retry third_time (λ n. false) (some (pos 5)) 0)
sync_with_retry-Ends_example = sync_with_retry-Ends third_time (λ n. false) (pos 5) 0

abbrev new_service : Service MemStore MemStore ℕ
new_service = record {
  manager = mem_manager;
  auto_sync = none;
  interval = pos 0;
  subscribers = [];
  live = [];
}

abbrev a_day : List (Action MemStore MemStore ℕ StoreError)
a_day =
    started false (pos 1000) 1
    ∷ started false (pos 1000) 2
    ∷ ticked true none
    ∷ stopped
    ∷ started false (pos 1000) 3
    ∷ shut_down (λ r. (r, none)) (λ s. (s, none))
    ∷ started false (pos 1000) 4
    ∷ []

run-IsOrderly_example :
    IsOrderly (run constant_methods mem_event_store mem_transport calm both_ways a_day new_service)
run-IsOrderly_example =
    run-IsOrderly constant_methods mem_event_store mem_transport calm both_ways a_day new_service
      (record { at_most_one = refl; none_when_closed = λ shut. refl })
