-- ===== src/Manager.antt =====
-- synckit/manager.go and synckit/sync.go: the sync manager. Its store and its transport are the
-- interfaces of synckit/types/interfaces.go, taken as records of functions over a state; what the
-- environment decides (a done context, the time of a step) comes in a `Context`.
pub mod Push
pub mod Conflicts
pub mod Pull
pub mod Sync
pub mod Moves
mod Working
pub mod Idle
mod Conflicted
pub mod Blocked
pub mod Stuck
pub mod Projections
pub mod Retry
pub mod Service
mod Closed
pub mod Lifecycle
pub mod Batches
pub mod OverMemStore
pub mod Stores
mod Tests
use go_sync_kit.Base.{ℕ, String, Option, none, some, List, [], ◌∷◌, Bool, keep}
use go_sync_kit.Base.Int.{ℤ}
use go_sync_kit.Types.{
  Event, EventWithVersion, Version, Payload, Conflict, ResolvedConflict, Result,
}
use go_sync_kit.Machine.{Machine, TransitionError, transition}
use go_sync_kit.SyncState.{SyncState, SyncState-discrete}

-- `EventStore`: reading does not change the store.
pub record EventStore (S E : Type 0) : Type 0 where
  pub latest_version : S → Result E Version
  pub load : Version → S → Result E (List EventWithVersion)
  pub store : Event → Version → S → S × Option E

-- `Transport`: reading does not change the remote side.
pub record Transport (R E : Type 0) : Type 0 where
  pub get_latest_version : R → Result E Version
  pub pull : Version → R → Result E (List EventWithVersion)
  pub push : List EventWithVersion → R → R × Option E

-- Methods of the values that the manager handles: `Version.Compare`, `Version.String`, and `%v` of
-- event data.
pub record Methods : Type 0 where
  pub compare : Version → Version → ℤ
  pub show_version : Version → String
  pub show_payload : Payload → String

-- `SyncOptions`, as far as a sync operation reads them.
pub record Options (E : Type 0) : Type 0 where
  pub push_only : Bool
  pub pull_only : Bool
  pub filter : Option (Event → Bool)
  pub batch_size : ℤ
  pub resolver : Option (Conflict → Result E ResolvedConflict)

-- Where a sync operation polls its context, and the clock and ID source of its transitions.
pub record Context : Type 0 where
  pub done_at_batch : ℕ → Bool
  pub done_at_resolution : Bool
  pub done_at_store : ℕ → Bool
  pub now : ℕ → ℕ
  pub transition_id : ℕ → ℕ

-- The errors of sync operations, with what they wrap.
pub data SyncError (E : Type 0) : Type 0 where
  manager_closed already_in_progress context_done : SyncError E
  transport_error store_error resolver_error projection_error : E → SyncError E
  state_machine_error : TransitionError → SyncError E

pub record SyncResult (E : Type 0) : Type 0 where
  pub events_pushed : ℕ
  pub events_pulled : ℕ
  pub conflicts_resolved : ℕ
  pub errors : List (SyncError E)
  pub local_version : Option Version
  pub remote_version : Option Version

abbrev pub empty_result : (E : Type 0) → SyncResult E
empty_result E = record {
  events_pushed = 0;
  events_pulled = 0;
  conflicts_resolved = 0;
  errors = [];
  local_version = none;
  remote_version = none;
}

-- The optional filter of `SyncOptions`.
abbrev pub apply_filter : Option (Event → Bool) → List EventWithVersion → List EventWithVersion
apply_filter none evs = evs
apply_filter (some passes) evs = keep (λ ev. passes ev.event) evs

-- The manager with the store behind it and the remote side behind its transport.
pub record Manager (S R : Type 0) : Type 0 where
  pub store : S
  pub remote : R
  pub machine : Machine SyncState
  pub closed : Bool

-- A call of `TransitionWithContext` on the manager's machine; `n` numbers the calls of a `Sync`.
abbrev pub move_to :
    Context → ℕ → SyncState → Machine SyncState → Machine SyncState × Option TransitionError
move_to ctx n to m = transition SyncState-discrete (ctx.now n) (ctx.transition_id n) to m
