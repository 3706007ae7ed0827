-- ===== src/Stateful/Agreement.antt =====
-- synckit/stateful_resolver.go: `Resolve` answers as `DynamicResolver.Resolve` of synckit/resolver.go,
-- and leaves the resolver ready for the next call.
use go_sync_kit.Base.{
  ℕ, Option, none, some, false, ◌≡◌, ◌≢◌, refl, sym, ap, subst, ◌∙◌, if_eq_false,
}
use go_sync_kit.Base.Dict.{Dict}
use go_sync_kit.Types.{Conflict, ResolvedConflict, Result, ok, err}
use go_sync_kit.Resolver.{
  Rule, DynamicResolver, ResolveError, HookCall, nil_dereference, strategy_failed, no_fallback,
  rule_matches, dispatch, apply_rule, fall_back, report,
}
use go_sync_kit.Resolver as Resolver
use go_sync_kit.Machine.{contains}
use go_sync_kit.Workflow.{start_analysis}
use go_sync_kit.Stateful.Resolve.{
  Answer, is_panic, outcome, finish, conclude, resolve, resolve_from, opening, after_start,
}
use go_sync_kit.Stateful.Idle.{
  IsUnderWay, IsOnlyOne, track_rules-IsUnderWay, within-IsOnlyOne, StandsIn,
}
use go_sync_kit.Stateful.Ready.{
  IsWaiting, settled-IsWaiting, close_workflow-IsOnlyOne, open_workflow-IsOnlyOne,
  start_resolution-StandsIn, go_to-StandsIn,
}
use go_sync_kit.ConflictMachine.{
  start_resolution, ConflictMachine, analyzing, applying_rules, ConflictResolutionState-discrete,
}
use go_sync_kit.ConflictMachine.Lifecycle.{allows}
use go_sync_kit.Stateful.{Readings, StatefulResolver, Surroundings, Tracking, with_workflow}
use go_sync_kit.Stateful.Calls.{
  begin_from, after_begin, resolve_with_tracking, generate_conflict_id, Tracked, track_rules,
}
use go_sync_kit.Stateful.Outcomes.{lifted, track_rules-Agrees}

lifted_panic :
    {E : Type 0} (r : Result (ResolveError E) ResolvedConflict)
    → r ≢ err nil_dereference
    → is_panic (lifted r) ≡ false
unfolding lifted
lifted_panic (ok res) safe = refl
lifted_panic (err (strategy_failed e)) safe = refl
lifted_panic (err no_fallback) safe = refl
lifted_panic (err nil_dereference) safe = absurd (safe refl)

-- Between two calls: the machine, if any, is idle and blank, and the manager, if any, has no workflow.
pub record IsReady {E : Type 0} (s : StatefulResolver E) : Type 0 where
  pub machine : IsWaiting s.machine
  pub workflows : IsOnlyOne none s.workflows

module _ {E : Type 0} (env : Surroundings E) where
  -- The call gets to the loop over the rules, with the machine at work and the counters that it
  -- started with, and the rest of it follows the loop.
  pub record Begins (at : Readings) (c : Conflict) (s : StatefulResolver E)
      (opened : Option (Dict ℕ)) (a : Answer E) : Type 0 where
    pub tracking : Tracking E
    pub under_way : IsUnderWay tracking
    pub tracker : tracking.tracker ≡ opened
    pub same :
        a ≡ conclude at s (track_rules env at.of_rule c 0 s.base.rules s.base.fallback tracking)

  finish-Begins :
      (at : Readings) (c : Conflict) (s : StatefulResolver E) (opened : Option (Dict ℕ))
      (t : Tracking E)
      → (Resolver.resolve s.base c).1 ≢ err nil_dereference
      → t.tracker ≡ opened
      → IsUnderWay t
      → Begins at c s opened
          (finish at s (track_rules env at.of_rule c 0 s.base.rules s.base.fallback t))
  unfolding finish Resolver.resolve
  finish-Begins at c s opened t safe same u =
      let d : Tracked E = track_rules env at.of_rule c 0 s.base.rules s.base.fallback t in
      let agrees = track_rules-Agrees env at.of_rule c 0 s.base.rules s.base.fallback t in
      let calm : is_panic d.result ≡ false = ap is_panic agrees.1 ∙ lifted_panic _ safe in
      record { tracking = t; under_way = u; tracker = same; same = if_eq_false _ _ calm }

  begin_from-Begins :
      (at : Readings) (c : Conflict) (s : StatefulResolver E) (opened : Option (Dict ℕ))
      (t : Tracking E) (machine : Option ConflictMachine)
      → (Resolver.resolve s.base c).1 ≢ err nil_dereference
      → t.tracker ≡ opened
      → StandsIn analyzing machine
      → IsOnlyOne t.workflow t.workflows
      → Begins at c s opened
          (finish at s (begin_from env at c s.base (record t { machine = machine }) machine))
  unfolding begin_from
  begin_from-Begins at c s opened t none safe same stands only =
      finish-Begins at c s opened _ safe same (record { machine = tt; workflows = only })
  begin_from-Begins at c s opened t (some m) safe same stands only =
      let goes =
        go_to-StandsIn analyzing applying_rules at.begin m
          (unfold allows contains ConflictResolutionState-discrete in refl) stands in
      rw (goes.0) (
        unfold after_begin in
        finish-Begins at c s opened _ safe same (record { machine = goes.1; workflows = only }))

  resolve_from-Begins :
      (at : Readings) (c : Conflict) (s : StatefulResolver E) (t : Tracking E)
      (machine : Option ConflictMachine)
      → (Resolver.resolve s.base c).1 ≢ err nil_dereference
      → t.machine ≡ machine
      → IsWaiting machine
      → IsOnlyOne t.workflow t.workflows
      → Begins at c s t.tracker (resolve_from env at c s t machine)
  unfolding resolve_from resolve_with_tracking with_workflow
  resolve_from-Begins at c s t none safe same waits only =
      rw same (begin_from-Begins at c s t.tracker t none safe refl tt only)
  resolve_from-Begins at c s t (some m) safe same waits only =
      let id = generate_conflict_id env.format_time at.machine_id_time c in
      let started = (start_resolution id at.start m).0 in
      let goes = start_resolution-StandsIn id at.start m (waits.0, waits.1) in
      rw (goes.0) (
        unfold after_start in
        begin_from-Begins at c s t.tracker
          (with_workflow (start_analysis env.compare at.analysis)
            (record t { machine = some started }))
          (some started) safe refl goes.1
          (within-IsOnlyOne (start_analysis env.compare at.analysis) t.workflow t.workflows only))

  pub resolve-Begins :
      (at : Readings) (c : Conflict) (s : StatefulResolver E)
      → IsReady s
      → (Resolver.resolve s.base c).1 ≢ err nil_dereference
      → Begins at c s (opening env at c s).tracker (resolve env at c s)
  unfolding resolve opening
  resolve-Begins at c s ready safe =
      resolve_from-Begins at c s _ s.machine safe refl ready.machine (
        open_workflow-IsOnlyOne env at c s.options.enable_workflow_tracking s.workflows
          ready.workflows)

  -- An answer is that of the base resolver, and leaves the resolver ready, with its base.
  pub record IsAnswer (c : Conflict) (s : StatefulResolver E) (a : Answer E) : Type 0 where
    pub calls : a.calls ≡ (Resolver.resolve s.base c).0
    pub result : a.result ≡ lifted (Resolver.resolve s.base c).1
    pub ready : IsReady a.resolver
    pub base : a.resolver.base ≡ s.base

  pub conclude-IsAnswer :
      (at : Readings) (c : Conflict) (s : StatefulResolver E) (t : Tracking E)
      → IsUnderWay t
      → IsAnswer c s (conclude at s (track_rules env at.of_rule c 0 s.base.rules s.base.fallback t))
  unfolding conclude Resolver.resolve
  conclude-IsAnswer at c s t u =
      let d : Tracked E = track_rules env at.of_rule c 0 s.base.rules s.base.fallback t in
      let agrees = track_rules-Agrees env at.of_rule c 0 s.base.rules s.base.fallback t in
      let still = track_rules-IsUnderWay env at.of_rule c 0 s.base.rules s.base.fallback t u in
      record {
        calls = agrees.0;
        result = agrees.1;
        ready = record {
          machine =
              settled-IsWaiting (outcome d.result) at.finish at.at_reset d.tracking.machine
                still.machine;
          workflows =
              close_workflow-IsOnlyOne at d.result d.tracking.workflow d.tracking.workflows
                still.workflows;
        };
        base = refl;
      }

  -- `Resolve` of a resolver that is ready, for a conflict on which the base resolver does not panic:
  -- the result and the calls of the base resolver's hooks are those of the base resolver's `Resolve`,
  -- and afterwards the resolver is ready again, its machine idle and blank and no workflow left.
  pub resolve-IsAnswer :
      (at : Readings) (c : Conflict) (s : StatefulResolver E)
      → IsReady s
      → (Resolver.resolve s.base c).1 ≢ err nil_dereference
      → IsAnswer c s (resolve env at c s)
  resolve-IsAnswer at c s ready safe =
      let begins = resolve-Begins at c s ready safe in
      subst (IsAnswer c s) (sym begins.same)
        (conclude-IsAnswer at c s begins.tracking begins.under_way)
