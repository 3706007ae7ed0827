-- ===== src/Manager/Sync.antt =====
-- synckit/manager.go, `Sync`, `Push` and `Pull`. Of the deferred function the transitions are
-- modelled; subscribers, metrics and the log are told of the result and change nothing.
use go_sync_kit.Base.{Option, none, some, [], ◌∷◌, ◌++◌, Bool, true, false, not, if◌then◌else◌}
use go_sync_kit.Types.{Version, Result, ok, err}
use go_sync_kit.Machine.{Machine, TransitionError}
use go_sync_kit.SyncState.{
  SyncState, idle, initializing, pushing, pulling, completed, failed, can_auto_sync,
}
use go_sync_kit.Manager.{
  EventStore, Transport, Methods, Options, Context, SyncError, manager_closed, already_in_progress,
  state_machine_error, store_error, projection_error, SyncResult, empty_result, Manager, move_to,
}
use go_sync_kit.Manager.Push.{Pushed, push}
use go_sync_kit.Manager.Pull.{Pulled, pull}

-- The manager and the result while a sync operation runs; `stopped` after an early return.
pub record Running (S R E : Type 0) : Type 0 where
  pub manager : Manager S R
  pub result : SyncResult E
  pub stopped : Bool

module _ {E : Type 0} where
  unfoldable pub record_error : SyncError E → SyncResult E → SyncResult E
  record_error e r = record r { errors = r.errors ++ e ∷ [] }

  abbrev pub has_errors : SyncResult E → Bool
  has_errors r = elim r.errors [ [] ↦ false | e ∷ rest ↦ true ]

  abbrev pub with_projections : Option E → SyncResult E → SyncResult E
  with_projections none r = r
  with_projections (some e) r = record_error (projection_error e) r

  abbrev pub with_version : Result E Version → SyncResult E → SyncResult E
  with_version (err e) r = record_error (store_error e) r
  with_version (ok v) r = record r { local_version = some v }

  -- The error of the projection runners, if they ran, and the final local version.
  unfoldable pub finish_result : Option E → Result E Version → SyncResult E → SyncResult E
  unfolding record_error
  finish_result projections latest r =
      with_version latest (if has_errors r then r else with_projections projections r)

  abbrev pub final_state : SyncResult E → SyncState
  final_state r = if has_errors r then failed else completed

  -- The deferred transitions: to the final state and then to idle; a refusal is only logged.
  unfoldable pub settle : Context → SyncResult E → Machine SyncState → Machine SyncState
  settle ctx r m = (move_to ctx 5 idle (move_to ctx 4 (final_state r) m).0).0

module _ {S R E : Type 0} where
  -- What a phase makes of its transition: a refusal is recorded and ends the operation.
  unfoldable pub entered :
      Machine SyncState × Option TransitionError
      → Running S R E
      → (Running S R E → Running S R E)
      → Running S R E
  unfolding record_error
  entered (m, some e) run next = record {
    manager = record run.manager { machine = m };
    result = record_error (state_machine_error e) run.result;
    stopped = true;
  }
  entered (m, none) run next = next (record run { manager = record run.manager { machine = m } })

  unfoldable pub take_pulled : Pulled S E → Running S R E → Running S R E
  unfolding record_error
  take_pulled p run =
      let manager = record run.manager { store = p.store; machine = p.machine } in
      elim p.error [
        | some e ↦ record run { manager = manager; result = record_error e run.result }
        | none ↦ record run {
          manager = manager;
          result = record run.result {
            events_pulled = p.result.events_pulled;
            conflicts_resolved = p.result.conflicts_resolved;
            remote_version = p.result.remote_version;
          };
        }
      ]

  unfoldable pub take_pushed : Pushed R E → Running S R E → Running S R E
  unfolding record_error
  take_pushed p run =
      let manager = record run.manager { remote = p.remote } in
      elim p.error [
        | some e ↦ record run { manager = manager; result = record_error e run.result }
        | none ↦ record run {
          manager = manager;
          result = record run.result { events_pushed = p.count };
        }
      ]

module _ {S R E : Type 0} (methods : Methods) (st : EventStore S E) (t : Transport R E)
    (ctx : Context) (opts : Options E) where
  unfoldable pub pull_phase : Running S R E → Running S R E
  unfolding take_pulled
  pull_phase run =
      take_pulled
        (pull methods st t ctx opts run.manager.store run.manager.remote run.manager.machine) run

  unfoldable pub push_phase : Running S R E → Running S R E
  unfolding take_pushed
  push_phase run = take_pushed (push st t ctx opts run.manager.store run.manager.remote) run

  unfoldable pub maybe_pull : Running S R E → Running S R E
  unfolding entered pull_phase
  maybe_pull run =
      if opts.push_only
      then run
      else entered (move_to ctx 1 pulling run.manager.machine) run pull_phase

  unfoldable pub maybe_push : Running S R E → Running S R E
  unfolding entered push_phase
  maybe_push run =
      if opts.pull_only
      then run
      else entered (move_to ctx 3 pushing run.manager.machine) run push_phase

  -- After the last phase, unless the operation was stopped.
  unfoldable pub complete : Option E → Running S R E → Running S R E
  unfolding finish_result
  complete projections run = if run.stopped then run else record run {
    result = finish_result projections (st.latest_version run.manager.store) run.result;
  }

  -- The body of `Sync` between the first transition and the deferred ones.
  unfoldable pub run_phases : Option E → Running S R E → Running S R E
  unfolding maybe_pull maybe_push complete
  run_phases projections run =
      let pulled = maybe_pull run in
      if pulled.stopped then pulled else complete projections (maybe_push pulled)

  unfoldable pub sync_from :
      Option E
      → Manager S R
      → Machine SyncState × Option TransitionError
      → Manager S R × Result (SyncError E) (SyncResult E)
  unfolding run_phases settle
  sync_from projections mgr (m, some e) = (record mgr { machine = m }, err (state_machine_error e))
  sync_from projections mgr (m, none) =
      let done = run_phases projections (record {
        manager = record mgr { machine = m };
        result = empty_result E;
        stopped = false;
      }) in
      (
        record done.manager { machine = settle ctx done.result done.manager.machine },
        ok done.result,
      )

  -- `Sync`. What the projection runners return after an operation without errors is an argument.
  unfoldable pub sync : Option E → Manager S R → Manager S R × Result (SyncError E) (SyncResult E)
  unfolding sync_from
  sync projections mgr =
      if mgr.closed
      then (mgr, err manager_closed)
      else if not (can_auto_sync mgr.machine.state)
      then (mgr, err already_in_progress)
      else sync_from projections mgr (move_to ctx 0 initializing mgr.machine)
