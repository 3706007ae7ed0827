-- ===== src/Manager/Idle.antt =====
-- synckit/manager.go: after `Sync` the state machine is idle again.
use go_sync_kit.Base.{
  ℕ, Option, none, some, true, false, ◌&&◌, if◌then◌else◌, ◌≡◌, refl, arith, inl, inr, Bool-cases,
  if_both, if_eq_true, if_eq_false,
}
use go_sync_kit.Types.{Result}
use go_sync_kit.Machine.{Machine, TransitionError}
use go_sync_kit.SyncState.{SyncState, idle, initializing, pushing, pulling}
use go_sync_kit.Manager.{
  EventStore, Transport, Methods, Options, Context, SyncError, SyncResult, Manager, empty_result,
  move_to,
}
use go_sync_kit.Manager.Moves.{
  may_start, At, IsWorking, is_working, allows, move_allowed, move-IsWorking, settle-idle,
}
use go_sync_kit.Manager.Sync.{
  Running, sync, sync_from, run_phases, maybe_pull, maybe_push, pull_phase, push_phase, complete,
  entered,
}
use go_sync_kit.Manager.Working.{
  machine-complete, entered-IsWorking, pull_phase-IsWorking, push_phase-IsWorking,
}

module _ {S R E : Type 0} (methods : Methods) (st : EventStore S E) (t : Transport R E)
    (ctx : Context) (opts : Options E) where
  -- The push phase from a working machine, or from the first state unless pushing is left out.
  maybe_push-IsWorking :
      (run : Running S R E)
      → IsWorking run.manager.machine
      → IsWorking (maybe_push methods st t ctx opts run).manager.machine
  unfolding maybe_push
  maybe_push-IsWorking run w =
      if_both (λ (r : Running S R E). IsWorking r.manager.machine) opts.pull_only w
        (entered-IsWorking _ run _ (move-IsWorking ctx 3 pushing run.manager.machine refl w)
          (push_phase-IsWorking methods st t ctx opts))

  start-IsWorking :
      (n : ℕ) (to : SyncState) (m : Machine SyncState)
      → is_working to ≡ true
      → allows initializing to ≡ true
      → At initializing m
      → IsWorking (move_to ctx n to m).0
  start-IsWorking n to m target allowed at = record {
    phase = to;
    working = target;
    at = (move_allowed ctx n to m at allowed).1;
  }

  abbrev phases_after : Option E → Running S R E → Running S R E
  phases_after projections pulled =
      if pulled.stopped
      then pulled
      else complete methods st t ctx opts projections (maybe_push methods st t ctx opts pulled)

  run_phases-eq :
      (projections : Option E) (run : Running S R E)
      → run_phases methods st t ctx opts projections run
        ≡ phases_after projections (maybe_pull methods st t ctx opts run)
  unfolding run_phases
  run_phases-eq projections run = refl

  maybe_pull_skipped :
      (run : Running S R E) → opts.push_only ≡ true → maybe_pull methods st t ctx opts run ≡ run
  unfolding maybe_pull
  maybe_pull_skipped run h = if_eq_true run _ h

  maybe_pull-entered :
      (run : Running S R E)
      → opts.push_only ≡ false
      → maybe_pull methods st t ctx opts run
        ≡ entered (move_to ctx 1 pulling run.manager.machine) run (pull_phase methods st t ctx opts)
  unfolding maybe_pull
  maybe_pull-entered run h = if_eq_false run _ h

  maybe_push-entered :
      (run : Running S R E)
      → opts.pull_only ≡ false
      → maybe_push methods st t ctx opts run
        ≡ entered (move_to ctx 3 pushing run.manager.machine) run (push_phase methods st t ctx opts)
  unfolding maybe_push
  maybe_push-entered run h = if_eq_false run _ h

  -- A push-only operation: the push phase starts from the first state.
  first_push-IsWorking :
      (projections : Option E) (run : Running S R E)
      → opts.pull_only ≡ false
      → run.stopped ≡ false
      → At initializing run.manager.machine
      → IsWorking (phases_after projections run).manager.machine
  first_push-IsWorking projections run pushes fresh at =
      rw
        (
          if_eq_false run
              (complete methods st t ctx opts projections (maybe_push methods st t ctx opts run))
              fresh,
          machine-complete methods st t ctx opts,
          maybe_push-entered run pushes,
        )
        (entered-IsWorking _ run _
          (start-IsWorking 3 pushing run.manager.machine refl may_start.2 at)
          (push_phase-IsWorking methods st t ctx opts))

  first_pull-IsWorking :
      (run : Running S R E)
      → opts.push_only ≡ false
      → At initializing run.manager.machine
      → IsWorking (maybe_pull methods st t ctx opts run).manager.machine
  first_pull-IsWorking run pulls at = rw (maybe_pull-entered run pulls) (
      entered-IsWorking _ run _ (start-IsWorking 1 pulling run.manager.machine refl may_start.1 at)
        (pull_phase-IsWorking methods st t ctx opts))

  -- What is left after a pull phase that did its work.
  after_pull-IsWorking :
      (projections : Option E) (pulled : Running S R E)
      → IsWorking pulled.manager.machine
      → IsWorking (phases_after projections pulled).manager.machine
  after_pull-IsWorking projections pulled w =
      if_both (λ (r : Running S R E). IsWorking r.manager.machine) pulled.stopped w finished
    where
      finished :
          IsWorking
            (complete methods st t ctx opts projections
              (maybe_push methods st t ctx opts pulled)).manager.machine
      finished = rw (machine-complete methods st t ctx opts) (maybe_push-IsWorking pulled w)

  run_phases-IsWorking :
      (projections : Option E) (run : Running S R E)
      → (opts.push_only && opts.pull_only) ≡ false
      → run.stopped ≡ false
      → At initializing run.manager.machine
      → IsWorking (run_phases methods st t ctx opts projections run).manager.machine
  run_phases-IsWorking projections run options fresh at =
      rw run_phases-eq (elim (Bool-cases opts.push_only) [
        | inl only ↦
            rw (maybe_pull_skipped run only)
              (first_push-IsWorking projections run (ground arith) fresh at)
        | inr pulls ↦
            after_pull-IsWorking projections (maybe_pull methods st t ctx opts run)
              (first_pull-IsWorking run pulls at)
      ])

  -- What `Sync` starts its phases from.
  abbrev started : Manager S R → Machine SyncState → Running S R E
  started mgr m = record {
    manager = record mgr { machine = m };
    result = empty_result E;
    stopped = false;
  }

  sync_from-idle :
      (projections : Option E) (mgr : Manager S R)
      (moved : Machine SyncState × Option TransitionError)
      → (opts.push_only && opts.pull_only) ≡ false
      → moved.1 ≡ none
      → At initializing moved.0
      → At idle (sync_from methods st t ctx opts projections mgr moved).0.machine
  unfolding sync_from
  sync_from-idle projections mgr (m, some e) options fine at = absurd (ground arith)
  sync_from-idle projections mgr (m, none) options fine at =
      let start = started mgr m in
      let done = run_phases methods st t ctx opts projections start in
      settle-idle ctx done.result done.manager.machine
        (run_phases-IsWorking projections start options refl at)

  -- After a `Sync` that starts idle, whatever fails on the way, the machine is idle again, unless
  -- the options leave out both phases; so the next `Sync` is not refused as still in progress.
  pub sync-idle :
      (projections : Option E) (mgr : Manager S R)
      → (opts.push_only && opts.pull_only) ≡ false
      → At idle mgr.machine
      → At idle (sync methods st t ctx opts projections mgr).0.machine
  unfolding sync
  sync-idle projections mgr options at =
      let (fine, at_start) = move_allowed ctx 0 initializing mgr.machine at may_start.0 in
      if_both {A = Manager S R × Result (SyncError E) (SyncResult E)} (λ r. At idle r.0.machine)
        mgr.closed at
        (if_both {A = Manager S R × Result (SyncError E) (SyncResult E)} (λ r. At idle r.0.machine)
          _ at (sync_from-idle projections mgr _ options fine at_start))
