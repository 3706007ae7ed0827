-- ===== src/Manager/Stuck.antt =====
-- synckit/manager.go: `Sync` with both `PushOnly` and `PullOnly`, which `NewSyncManager` accepts.
use go_sync_kit.Base.{
  Option, none, some, List, [], ◌∷◌, map, true, false, not, ◌≡◌, refl, arith, ap, if_eq_true,
  if_eq_false, ◌∙◌,
}
use go_sync_kit.Types.{Version, Result, ok, err}
use go_sync_kit.Machine.{Machine, TransitionError, contains}
use go_sync_kit.SyncState.{
  SyncState, SyncState-discrete, idle, initializing, completed, failed, can_auto_sync,
}
use go_sync_kit.Manager.{
  EventStore, Transport, Methods, Options, Context, already_in_progress, SyncError, SyncResult,
  Manager, empty_result, move_to,
}
use go_sync_kit.Manager.Moves.{may_start, At, allows, move_allowed, move_refused}
use go_sync_kit.Manager.Sync.{
  Running, sync, sync_from, run_phases, maybe_pull, maybe_push, complete, settle, final_state,
  finish_result, has_errors,
}

module _ {S R E : Type 0} (methods : Methods) (st : EventStore S E) (t : Transport R E)
    (ctx : Context) (opts : Options E) where
  sync_busy :
      (projections : Option E) (mgr : Manager S R)
      → mgr.closed ≡ false
      → At initializing mgr.machine
      → sync methods st t ctx opts projections mgr ≡ (mgr, err already_in_progress)
  unfolding sync
  sync_busy projections mgr is_open at =
      let busy : not (can_auto_sync mgr.machine.state) ≡ true =
        ap (λ s. not (can_auto_sync s)) at.state in
      rw (if_eq_false _ _ is_open, if_eq_true _ _ busy) refl

module _ {S R E : Type 0} (methods : Methods) (st : EventStore S E) (t : Transport R E)
    (ctx : Context) (opts : Options E) where
  may_not_end : (allows initializing completed ≡ false) × (allows initializing idle ≡ false)
  unfolding contains SyncState-discrete
  may_not_end = (refl, refl)

  run_phases_nothing :
      (run : Running S R E)
      → opts.push_only ≡ true
      → opts.pull_only ≡ true
      → run.stopped ≡ false
      → run_phases methods st t ctx opts none run ≡ record run {
        result = finish_result none (st.latest_version run.manager.store) run.result;
      }
  unfolding run_phases maybe_pull maybe_push complete
  run_phases_nothing run no_pull no_push fresh =
      rw
        (
          if_eq_true run _ no_pull,
          if_eq_true run _ no_push,
          if_eq_false run _ fresh,
          if_eq_false run _ fresh,
        )
        refl

  settle_stays :
      (r : SyncResult E) (m : Machine SyncState)
      → has_errors r ≡ false
      → At initializing m
      → settle ctx r m ≡ m
  unfolding settle
  settle_stays r m fine at =
      let no_end : allows initializing (final_state r) ≡ false =
        ap (allows initializing) (if_eq_false failed completed fine) ∙ may_not_end.0 in
      let first = move_refused ctx 4 (final_state r) m at no_end in
      ap (λ x. (move_to ctx 5 idle x.0).0) first
      ∙ ap (λ x. x.0) (move_refused ctx 5 idle m at may_not_end.1)

  finish_result_fine :
      (v : Version) (latest : Result E Version)
      → latest ≡ ok v
      → has_errors (finish_result none latest (empty_result E)) ≡ false
  unfolding finish_result
  finish_result_fine v (err e) is = absurd (ground arith)
  finish_result_fine v (ok v') is = refl

  sync_from_stays :
      (mgr : Manager S R) (v : Version) (moved : Machine SyncState × Option TransitionError)
      → opts.push_only ≡ true
      → opts.pull_only ≡ true
      → st.latest_version mgr.store ≡ ok v
      → moved.1 ≡ none
      → At initializing moved.0
      → let after = (sync_from methods st t ctx opts none mgr moved).0 in
        At initializing after.machine × (after.closed ≡ mgr.closed)
  unfolding sync_from
  sync_from_stays mgr v (m, some e) no_pull no_push latest fine at = absurd (ground arith)
  sync_from_stays mgr v (m, none) no_pull no_push latest fine at =
      let start : Running S R E = record {
        manager = record mgr { machine = m };
        result = empty_result E;
        stopped = false;
      } in
      rw
        (
          run_phases_nothing start no_pull no_push refl,
          settle_stays (finish_result none (st.latest_version mgr.store) (empty_result E)) m
              (finish_result_fine v (st.latest_version mgr.store) latest) at,
        )
        (at, refl)

  sync_skipped :
      (mgr : Manager S R) (v : Version)
      → mgr.closed ≡ false
      → At idle mgr.machine
      → opts.push_only ≡ true
      → opts.pull_only ≡ true
      → st.latest_version mgr.store ≡ ok v
      → let after = (sync methods st t ctx opts none mgr).0 in
        At initializing after.machine × (after.closed ≡ mgr.closed)
  unfolding sync
  sync_skipped mgr v is_open at no_pull no_push latest =
      let ready : not (can_auto_sync mgr.machine.state) ≡ false =
        ap (λ s. not (can_auto_sync s)) at.state in
      let (fine, at_start) = move_allowed ctx 0 initializing mgr.machine at may_start.0 in
      rw (if_eq_false _ _ is_open, if_eq_false _ _ ready)
        (sync_from_stays mgr v _ no_pull no_push latest fine at_start)

  -- One `Sync` after the other, each with a context and a result of the projection runners of its own.
  pub sync_each :
      List (Context × Option E)
      → Manager S R
      → Manager S R × List (Result (SyncError E) (SyncResult E))
  sync_each [] mgr = (mgr, [])
  sync_each ((its_ctx, projections) ∷ rest) mgr =
      let (after, result) = sync methods st t its_ctx opts projections mgr in
      let (last, results) = sync_each rest after in (last, result ∷ results)

  sync_each_busy :
      (calls : List (Context × Option E)) (mgr : Manager S R)
      → mgr.closed ≡ false
      → At initializing mgr.machine
      → sync_each calls mgr ≡ (mgr, map (λ call. err already_in_progress) calls)
  unfolding sync_each
  sync_each_busy [] mgr is_open at = refl
  sync_each_busy ((its_ctx, projections) ∷ rest) mgr is_open at =
      rw
        (
          sync_busy methods st t its_ctx opts projections mgr is_open at,
          sync_each_busy rest mgr is_open at,
        )
        refl

  -- With both `PushOnly` and `PullOnly`, the first `Sync` of an open manager in the idle state, whose
  -- store tells its latest version and whose projection runners do not fail, makes every one of the
  -- calls of `Sync` that follow it fail as already in progress and leaves the manager to them as it
  -- is.
  pub sync_blocks_itself :
      (calls : List (Context × Option E)) (mgr : Manager S R) (v : Version)
      → mgr.closed ≡ false
      → At idle mgr.machine
      → opts.push_only ≡ true
      → opts.pull_only ≡ true
      → st.latest_version mgr.store ≡ ok v
      → let after = (sync methods st t ctx opts none mgr).0 in
        sync_each calls after ≡ (after, map (λ call. err already_in_progress) calls)
  sync_blocks_itself calls mgr v is_open at no_pull no_push latest =
      let (stuck, same) = sync_skipped mgr v is_open at no_pull no_push latest in
      sync_each_busy calls _ (same ∙ is_open) stuck
