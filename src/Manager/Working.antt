-- ===== src/Manager/Working.antt =====
-- synckit/manager.go: a pull and a push leave the machine of a running operation in such a state.
use go_sync_kit.Base.{ℕ, Option, none, some, List, [], ◌∷◌, ◌≡◌, refl, arith}
use go_sync_kit.Types.{EventWithVersion, Version, Conflict, ResolvedConflict, Result, ok, err}
use go_sync_kit.Machine.{Machine, TransitionError}
use go_sync_kit.SyncState.{SyncState, resolving_conflicts}
use go_sync_kit.Manager.{
  EventStore, Transport, Methods, Options, Context, SyncError, move_to, apply_filter,
}
use go_sync_kit.Manager.Push.{Pushed}
use go_sync_kit.Manager.Pull.{
  Pulled, Stage, proceed, abandon, fail, pull, pull_since, pull_events, conflict_stage,
  against_local, resolve_conflicts, resolve_in_state, after_stage, finish, store_events,
}
use go_sync_kit.Manager.Conflicts.{detect_conflicts}
use go_sync_kit.Manager.Moves.{IsWorking, move-IsWorking}
use go_sync_kit.Manager.Sync.{
  Running, pull_phase, push_phase, complete, entered, take_pulled, take_pushed,
}

module _ {S R E : Type 0} where
  pub entered-IsWorking :
      (moved : Machine SyncState × Option TransitionError) (run : Running S R E)
      (next : Running S R E → Running S R E)
      → IsWorking moved.0
      → ((r : Running S R E) → IsWorking r.manager.machine → IsWorking (next r).manager.machine)
      → IsWorking (entered moved run next).manager.machine
  unfolding entered
  entered-IsWorking (m, some e) run next w keeps = w
  entered-IsWorking (m, none) run next w keeps = keeps _ w

module _ {S R E : Type 0} (methods : Methods) (st : EventStore S E) (t : Transport R E)
    (ctx : Context) (opts : Options E) where
  machine-resolve_in_state :
      (resolve : Conflict → Result E ResolvedConflict) (cs : List Conflict)
      (moved : Machine SyncState × Option TransitionError)
      → (resolve_in_state ctx resolve cs moved).0 ≡ moved.0
  unfolding resolve_in_state
  machine-resolve_in_state resolve cs (m, some e) = refl
  machine-resolve_in_state resolve cs (m, none) = ground arith

  resolve_conflicts-IsWorking :
      (resolve : Conflict → Result E ResolvedConflict) (cs : List Conflict)
      (remote : List EventWithVersion) (m : Machine SyncState)
      → IsWorking m
      → IsWorking (resolve_conflicts methods st t ctx opts resolve cs remote m).0
  unfolding resolve_conflicts
  resolve_conflicts-IsWorking resolve [] remote m w = w
  resolve_conflicts-IsWorking resolve (c ∷ cs) remote m w =
      rw (machine-resolve_in_state resolve (c ∷ cs) (move_to ctx 2 resolving_conflicts m))
        (move-IsWorking ctx 2 resolving_conflicts m refl w)

  conflict_stage-IsWorking :
      (resolver : Option (Conflict → Result E ResolvedConflict)) (since : Version)
      (remote : List EventWithVersion) (s : S) (m : Machine SyncState)
      → IsWorking m
      → IsWorking (conflict_stage methods st t ctx opts resolver since remote s m).0
  unfolding conflict_stage
  conflict_stage-IsWorking none since remote s m w = w
  conflict_stage-IsWorking (some resolve) since remote s m w = by_local (st.load since s)
    where
      by_local :
          (local : Result E (List EventWithVersion))
          → IsWorking (against_local methods st t ctx opts resolve local remote m).0
      by_local (err e) = w
      by_local (ok []) = w
      by_local (ok (l ∷ local)) =
          resolve_conflicts-IsWorking resolve (detect_conflicts methods (l ∷ local) remote) remote m
            w

  machine-finish :
      (evs : List EventWithVersion) (n : ℕ) (m : Machine SyncState)
      (stored : S × ℕ × Option (SyncError E))
      → (finish methods st t ctx opts evs n m stored).machine ≡ m
  machine-finish evs n m (s, count, none) = refl
  machine-finish evs n m (s, count, some e) = refl

  machine-after_stage :
      (s : S) (staged : Machine SyncState × Stage E)
      → (after_stage methods st t ctx opts s staged).machine ≡ staged.0
  unfolding after_stage
  machine-after_stage s (m, fail e) = refl
  machine-after_stage s (m, abandon e) = refl
  machine-after_stage s (m, proceed evs n) =
      machine-finish evs n m (store_events methods st t ctx opts 0 evs s)

  -- `pull` leaves a working machine in a working state, on every branch.
  pull-IsWorking :
      (s : S) (r : R) (m : Machine SyncState)
      → IsWorking m
      → IsWorking (pull methods st t ctx opts s r m).machine
  unfolding pull
  pull-IsWorking s r m w = by_latest (st.latest_version s)
    where
      by_events :
          (since : Version) (evs : Result E (List EventWithVersion))
          → IsWorking (pull_events methods st t ctx opts since evs s m).machine
      by_events since (err e) = w
      by_events since (ok []) = w
      by_events since (ok (ev ∷ rest)) =
          rw
            (machine-after_stage s (
              conflict_stage methods st t ctx opts opts.resolver since
                (apply_filter opts.filter (ev ∷ rest)) s m))
            (conflict_stage-IsWorking opts.resolver since (apply_filter opts.filter (ev ∷ rest)) s m
              w)

      by_latest :
          (since : Result E Version)
          → IsWorking (pull_since methods st t ctx opts since s r m).machine
      by_latest (err e) = w
      by_latest (ok since) = by_events since (t.pull since r)

  machine-take_pulled :
      (p : Pulled S E) (run : Running S R E)
      → ((take_pulled p run).manager.machine ≡ p.machine)
        × ((take_pulled p run).stopped ≡ run.stopped)
  unfolding take_pulled
  machine-take_pulled p run = ground arith

  machine-take_pushed :
      (p : Pushed R E) (run : Running S R E)
      → (take_pushed p run).manager.machine ≡ run.manager.machine
  unfolding take_pushed
  machine-take_pushed p run = ground arith

  pub machine-complete :
      (projections : Option E) (run : Running S R E)
      → (complete methods st t ctx opts projections run).manager.machine ≡ run.manager.machine
  unfolding complete
  machine-complete projections run = ground arith

  pub pull_phase-IsWorking :
      (run : Running S R E)
      → IsWorking run.manager.machine
      → IsWorking (pull_phase methods st t ctx opts run).manager.machine
  unfolding pull_phase
  pull_phase-IsWorking run w =
      rw (machine-take_pulled _ run).0
        (pull-IsWorking run.manager.store run.manager.remote run.manager.machine w)

  pub push_phase-IsWorking :
      (run : Running S R E)
      → IsWorking run.manager.machine
      → IsWorking (push_phase methods st t ctx opts run).manager.machine
  unfolding push_phase
  push_phase-IsWorking run w = rw machine-take_pushed w
