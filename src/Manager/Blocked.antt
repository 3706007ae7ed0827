-- ===== src/Manager/Blocked.antt =====
-- synckit/manager.go: `Sync` after a pull phase that resolved conflicts.
use go_sync_kit.Base.{
  ◌<◌, Option, none, some, List, [], ◌∷◌, ◌++◌, true, false, not, if◌then◌else◌, ◌≡◌, refl, arith,
  ap, sym, ◌∙◌, if_eq_true, if_eq_false,
}
use go_sync_kit.Types.{Result, ok, err}
use go_sync_kit.Machine.{Machine, TransitionError, invalid_transition, contains}
use go_sync_kit.SyncState.{
  SyncState, SyncState-discrete, idle, initializing, pushing, pulling, resolving_conflicts,
  can_auto_sync,
}
use go_sync_kit.Manager.{
  EventStore, Transport, Methods, Options, Context, SyncError, SyncResult, Manager, empty_result,
  move_to,
}
use go_sync_kit.Manager.Pull.{Pulled, pull}
use go_sync_kit.Manager.Moves.{may_start, At, allows, move_allowed, move_refused}
use go_sync_kit.Manager.Sync.{
  Running, sync, sync_from, run_phases, maybe_pull, maybe_push, pull_phase, push_phase, complete,
  entered, take_pulled, has_errors, record_error,
}
use go_sync_kit.Manager.Conflicted.{pull-IsMarked}

append_has_errors :
    {E : Type 0} (es : List (SyncError E)) (e : SyncError E)
    → elim (es ++ e ∷ []) [ [] ↦ false | e' ∷ rest ↦ true ] ≡ true
append_has_errors [] e = refl
append_has_errors (e' ∷ es) e = refl

module _ {S R E : Type 0} where
  -- An operation that failed without pushing anything.
  pub record IsBlocked (r : R) (run : Running S R E) : Type 0 where
    pub remote : run.manager.remote ≡ r
    pub failed : has_errors run.result ≡ true
    pub pushed : run.result.events_pushed ≡ 0

  seen_from : {r r' : R} {run : Running S R E} → r ≡ r' → IsBlocked r run → IsBlocked r' run
  seen_from same b = record { remote = b.remote ∙ same; failed = b.failed; pushed = b.pushed }

  take_pulled_keeps :
      (p : Pulled S E) (run : Running S R E)
      → ((take_pulled p run).manager.remote ≡ run.manager.remote)
        × ((take_pulled p run).manager.machine ≡ p.machine)
        × ((take_pulled p run).stopped ≡ run.stopped)
        × ((take_pulled p run).result.events_pushed ≡ run.result.events_pushed)
  unfolding take_pulled record_error
  take_pulled_keeps p run = ground arith

  refused_push-IsBlocked :
      (run : Running S R E) (next : Running S R E → Running S R E)
      (moved : Machine SyncState × Option TransitionError)
      → moved ≡ (run.manager.machine, some invalid_transition)
      → run.result.events_pushed ≡ 0
      → IsBlocked run.manager.remote (entered moved run next)
        × ((entered moved run next).stopped ≡ true)
  unfolding entered record_error
  refused_push-IsBlocked run next moved refused none_pushed = rw refused (
    record { remote = refl; failed = append_has_errors run.result.errors _; pushed = none_pushed },
    refl,
  )

module _ {S R E : Type 0} (methods : Methods) (st : EventStore S E) (t : Transport R E)
    (ctx : Context) (opts : Options E) where
  no_push_after_resolution : allows resolving_conflicts pushing ≡ false
  unfolding contains SyncState-discrete
  no_push_after_resolution = refl

  push_after_resolution :
      (projections : Option E) (run : Running S R E)
      → opts.pull_only ≡ false
      → At resolving_conflicts run.manager.machine
      → run.result.events_pushed ≡ 0
      → IsBlocked run.manager.remote
          (complete methods st t ctx opts projections (maybe_push methods st t ctx opts run))
  unfolding complete maybe_push
  push_after_resolution projections run pushes at none_pushed =
      let refused =
        refused_push-IsBlocked run (push_phase methods st t ctx opts) _
          (move_refused ctx 3 pushing run.manager.machine at no_push_after_resolution)
          none_pushed in
      rw (if_eq_false run _ pushes, if_eq_true _ _ refused.1) refused.0

  -- The machine when the pull phase of a `Sync` begins.
  abbrev pub machine_at_pull : Machine SyncState → Machine SyncState
  machine_at_pull m = (move_to ctx 1 pulling (move_to ctx 0 initializing m).0).0

  -- The result was returned, with an error in it and without a pushed event.
  abbrev pub HasFailed : Result (SyncError E) (SyncResult E) → Type 0
  HasFailed (err e) = ⊥
  HasFailed (ok res) = (has_errors res ≡ true) × (res.events_pushed ≡ 0)

  after_pull_phase :
      (projections : Option E) (run : Running S R E)
      → opts.pull_only ≡ false
      → run.stopped ≡ false
      → run.result.events_pushed ≡ 0
      → 0
        < (pull methods st t ctx opts run.manager.store run.manager.remote
            run.manager.machine).result.conflicts_resolved
      → At pulling run.manager.machine
      → let pulled = pull_phase methods st t ctx opts run in
        IsBlocked run.manager.remote (
          if pulled.stopped
          then pulled
          else complete methods st t ctx opts projections (maybe_push methods st t ctx opts pulled))
  unfolding pull_phase
  after_pull_phase projections run pushes fresh none_pushed many at =
      let p = pull methods st t ctx opts run.manager.store run.manager.remote run.manager.machine in
      let (same_remote, same_machine, same_stopped, same_pushed) = take_pulled_keeps p run in
      let resolving : At resolving_conflicts (take_pulled p run).manager.machine = rw same_machine (
        pull-IsMarked methods st t ctx opts run.manager.store run.manager.remote run.manager.machine
          at many) in
      rw (if_eq_false (take_pulled p run) _ (same_stopped ∙ fresh)) (
        seen_from same_remote (
          push_after_resolution projections (take_pulled p run) pushes resolving
            (same_pushed ∙ none_pushed)))

  run_phases-IsBlocked :
      (projections : Option E) (run : Running S R E)
      (moved : Machine SyncState × Option TransitionError)
      → moved ≡ move_to ctx 1 pulling run.manager.machine
      → opts.push_only ≡ false
      → opts.pull_only ≡ false
      → run.stopped ≡ false
      → run.result.events_pushed ≡ 0
      → 0
        < (pull methods st t ctx opts run.manager.store run.manager.remote
            moved.0).result.conflicts_resolved
      → moved.1 ≡ none
      → At pulling moved.0
      → IsBlocked run.manager.remote (run_phases methods st t ctx opts projections run)
  unfolding run_phases maybe_pull entered
  run_phases-IsBlocked projections run (m, some e) is pulls pushes fresh none_pushed many fine at =
      absurd (ground arith)
  run_phases-IsBlocked projections run (m, none) is pulls pushes fresh none_pushed many fine at =
      rw (if_eq_false run _ pulls, sym is)
        (after_pull_phase projections (record run { manager = record run.manager { machine = m } })
          pushes fresh none_pushed many at)

  sync_from-HasFailed :
      (projections : Option E) (mgr : Manager S R)
      (moved : Machine SyncState × Option TransitionError)
      → opts.push_only ≡ false
      → opts.pull_only ≡ false
      → moved.1 ≡ none
      → At initializing moved.0
      → 0
        < (pull methods st t ctx opts mgr.store mgr.remote
            (move_to ctx 1 pulling moved.0).0).result.conflicts_resolved
      → let done = sync_from methods st t ctx opts projections mgr moved in
        (done.0.remote ≡ mgr.remote) × HasFailed done.1
  unfolding sync_from
  sync_from-HasFailed projections mgr (m, some e) pulls pushes fine at many = absurd (ground arith)
  sync_from-HasFailed projections mgr (m, none) pulls pushes fine at many =
      let start : Running S R E = record {
        manager = record mgr { machine = m };
        result = empty_result E;
        stopped = false;
      } in
      let (pulling_fine, pulling_at) = move_allowed ctx 1 pulling m at may_start.1 in
      let b =
        run_phases-IsBlocked projections start (move_to ctx 1 pulling m) refl pulls pushes refl refl
          many pulling_fine pulling_at in
      (b.remote, (b.failed, b.pushed))

  -- A `Sync` of both directions, from idle, whose pull phase resolves a conflict fails: its result
  -- holds an error and no pushed event, and the remote side is as before.
  pub conflicts_block_push :
      (projections : Option E) (mgr : Manager S R)
      → mgr.closed ≡ false
      → opts.push_only ≡ false
      → opts.pull_only ≡ false
      → At idle mgr.machine
      → 0
        < (pull methods st t ctx opts mgr.store mgr.remote
            (machine_at_pull mgr.machine)).result.conflicts_resolved
      → let done = sync methods st t ctx opts projections mgr in
        (done.0.remote ≡ mgr.remote) × HasFailed done.1
  unfolding sync
  conflicts_block_push projections mgr is_open pulls pushes at many =
      let (fine, at_start) = move_allowed ctx 0 initializing mgr.machine at may_start.0 in
      let ready : not (can_auto_sync mgr.machine.state) ≡ false =
        ap (λ s. not (can_auto_sync s)) at.state in
      rw (if_eq_false _ _ is_open, if_eq_false _ _ ready)
        (sync_from-HasFailed projections mgr (move_to ctx 0 initializing mgr.machine) pulls pushes
          fine at_start many)
