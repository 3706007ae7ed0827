-- ===== src/Manager/Closed.antt =====
-- synckit/manager.go: `Sync` and the manager's `closed`.
use go_sync_kit.Base.{Option, none, some, Bool, not, if_both, ◌≡◌, refl, ◌∙◌}
use go_sync_kit.Types.{Result}
use go_sync_kit.Machine.{Machine, TransitionError}
use go_sync_kit.SyncState.{SyncState, initializing, can_auto_sync}
use go_sync_kit.Manager.{
  EventStore, Transport, Methods, Options, Context, SyncError, SyncResult, Manager, move_to,
}
use go_sync_kit.Manager.Push.{Pushed, push}
use go_sync_kit.Manager.Pull.{Pulled, pull}
use go_sync_kit.Manager.Sync.{
  sync, sync_from, Running, run_phases, maybe_pull, maybe_push, pull_phase, push_phase, complete,
  entered, take_pulled, take_pushed,
}

-- What holds of the result for each case of an option.
either_way :
    {A X : Type 0} (Holds : X → Type 0) (o : Option A) {x : X} {f : A → X}
    → Holds x
    → ((a : A) → Holds (f a))
    → Holds (elim o as (λ y. X) [ none ↦ x | some a ↦ f a ])
either_way Holds none on_none on_some = on_none
either_way Holds (some a) on_none on_some = on_some a

module _ {S R E : Type 0} where
  entered_keeps_closed :
      (outcome : Machine SyncState × Option TransitionError) (run : Running S R E)
      (next : Running S R E → Running S R E) (b : Bool)
      → run.manager.closed ≡ b
      → ((later : Running S R E) → later.manager.closed ≡ b → (next later).manager.closed ≡ b)
      → (entered outcome run next).manager.closed ≡ b
  unfolding entered
  entered_keeps_closed (m, some e) run next b is keeps = is
  entered_keeps_closed (m, none) run next b is keeps = keeps _ is

  take_pulled_keeps_closed :
      (p : Pulled S E) (run : Running S R E)
      → (take_pulled p run).manager.closed ≡ run.manager.closed
  unfolding take_pulled
  take_pulled_keeps_closed p run =
      either_way {X = Running S R E} (λ x. x.manager.closed ≡ run.manager.closed) p.error refl
        (λ e. refl)

  take_pushed_keeps_closed :
      (p : Pushed R E) (run : Running S R E)
      → (take_pushed p run).manager.closed ≡ run.manager.closed
  unfolding take_pushed
  take_pushed_keeps_closed p run =
      either_way {X = Running S R E} (λ x. x.manager.closed ≡ run.manager.closed) p.error refl
        (λ e. refl)

module _ {S R E : Type 0} (methods : Methods) (st : EventStore S E) (t : Transport R E)
    (ctx : Context) (opts : Options E) where
  maybe_pull_keeps_closed :
      (run : Running S R E) (b : Bool)
      → run.manager.closed ≡ b
      → (maybe_pull methods st t ctx opts run).manager.closed ≡ b
  unfolding maybe_pull pull_phase
  maybe_pull_keeps_closed run b is =
      if_both {A = Running S R E} (λ x. x.manager.closed ≡ b) opts.push_only is
        (entered_keeps_closed _ run (pull_phase methods st t ctx opts) b is (λ later same.
          take_pulled_keeps_closed
            (pull methods st t ctx opts later.manager.store later.manager.remote
              later.manager.machine)
            later
          ∙ same))

  maybe_push_keeps_closed :
      (run : Running S R E) (b : Bool)
      → run.manager.closed ≡ b
      → (maybe_push methods st t ctx opts run).manager.closed ≡ b
  unfolding maybe_push push_phase
  maybe_push_keeps_closed run b is =
      if_both {A = Running S R E} (λ x. x.manager.closed ≡ b) opts.pull_only is
        (entered_keeps_closed _ run (push_phase methods st t ctx opts) b is (λ later same.
          take_pushed_keeps_closed (push st t ctx opts later.manager.store later.manager.remote)
            later
          ∙ same))

  run_phases_keeps_closed :
      (projections : Option E) (run : Running S R E) (b : Bool)
      → run.manager.closed ≡ b
      → (run_phases methods st t ctx opts projections run).manager.closed ≡ b
  unfolding run_phases complete
  run_phases_keeps_closed projections run b is =
      let pulled = maybe_pull_keeps_closed run b is in
      if_both {A = Running S R E} (λ x. x.manager.closed ≡ b)
        (maybe_pull methods st t ctx opts run).stopped pulled
        (if_both {A = Running S R E} (λ x. x.manager.closed ≡ b) _
          (maybe_push_keeps_closed _ b pulled) (maybe_push_keeps_closed _ b pulled))

  -- `Sync` neither closes nor opens the manager.
  pub sync_keeps_closed :
      (projections : Option E) (mgr : Manager S R)
      → (sync methods st t ctx opts projections mgr).0.closed ≡ mgr.closed
  unfolding sync sync_from
  sync_keeps_closed projections mgr =
      if_both {A = Manager S R × Result (SyncError E) (SyncResult E)} (λ x. x.0.closed ≡ mgr.closed)
        mgr.closed refl
        (if_both {A = Manager S R × Result (SyncError E) (SyncResult E)}
          (λ x. x.0.closed ≡ mgr.closed) (not (can_auto_sync mgr.machine.state)) refl
          (started (move_to ctx 0 initializing mgr.machine)))
    where
      started :
          (outcome : Machine SyncState × Option TransitionError)
          → (sync_from methods st t ctx opts projections mgr outcome).0.closed ≡ mgr.closed
      started (m, some e) = refl
      started (m, none) = run_phases_keeps_closed projections _ mgr.closed refl
