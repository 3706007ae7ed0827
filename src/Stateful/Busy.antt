-- ===== src/Stateful/Busy.antt =====
-- synckit/stateful_resolver.go: `Resolve` while the machine is at work on another conflict.
use go_sync_kit.Base.{
  String, Option, none, some, [], Bool, true, false, ◌≡◌, ◌≢◌, ◌⊎◌, inl, inr, refl, sym, subst, ap,
  arith, ◌∙◌, eq_refl,
}
use go_sync_kit.Base.Dict.{Dict, lookup, lookup-insert}
use go_sync_kit.Types.{Conflict, err}
use go_sync_kit.Machine.{invalid_transition, contains}
use go_sync_kit.ConflictMachine.{
  ConflictMachine, ConflictResolutionState, ConflictResolutionState-discrete, Stamp, idle,
  analyzing, start_resolution,
}
use go_sync_kit.ConflictMachine.Lifecycle.{IsStandard, allows, go_to-refused}
use go_sync_kit.Workflow.{ConflictWorkflow, new_conflict_workflow, generate_conflict_id}
use go_sync_kit.Workflow.Active.{start_workflow}
use go_sync_kit.Stateful.{StatefulResolver, Surroundings, Readings, Tracking, refused}
use go_sync_kit.Stateful.Resolve.{resolve, resolve_from, after_start, opening, open_workflow}

allows_from_idle_only :
    (state : ConflictResolutionState) → state ≢ idle → allows state analyzing ≡ false
unfolding allows contains ConflictResolutionState-discrete
allows_from_idle_only state busy = ground arith

start_resolution-refused :
    (conflict_id : String) (stamp : Stamp) (m : ConflictMachine)
    → IsStandard m
    → m.machine.state ≢ idle
    → start_resolution conflict_id stamp m ≡ (m, some invalid_transition)
unfolding start_resolution
start_resolution-refused conflict_id stamp m standard busy =
    rw (go_to-refused analyzing stamp m standard (allows_from_idle_only _ busy)) refl

module _ {E : Type 0} (env : Surroundings E) where
  resolve_from-busy :
      (at : Readings) (c : Conflict) (s : StatefulResolver E) (t : Tracking E) (m : ConflictMachine)
      → IsStandard m
      → m.machine.state ≢ idle
      → resolve_from env at c s t (some m) ≡ record {
        resolver = record s { machine = some m; workflows = t.workflows };
        calls = [];
        result = err (refused invalid_transition);
        trail = none;
        announced = t.workflow;
      }
  unfolding resolve_from after_start
  resolve_from-busy at c s t m standard busy =
      rw (start_resolution-refused _ at.start m standard busy) refl

  lookup-started :
      (at : Readings) (c : Conflict) (workflows : Dict (ConflictWorkflow E))
      → lookup
          (generate_conflict_id env.text_of at.workflow_id_time c)
          (start_workflow env.text_of at.workflow_id_time at.workflow_start c workflows).0
        ≡ some (new_conflict_workflow env.text_of at.workflow_id_time at.workflow_start c)
  unfolding start_workflow new_conflict_workflow
  lookup-started at c workflows =
      let id = generate_conflict_id env.text_of at.workflow_id_time c in
      ground (
        arith,
        lookup-insert id id
            (new_conflict_workflow env.text_of at.workflow_id_time at.workflow_start c) workflows,
        eq_refl id,
      )

  -- What is left of the workflow of a refused call: with tracking on and a manager, it is announced and
  -- stays among the active ones; otherwise there is none.
  pub data Leftover (at : Readings) (c : Conflict) (s : StatefulResolver E)
      (after : Option (Dict (ConflictWorkflow E))) (announced : Option String) : Type 0 where
    stays :
        {workflows left : Dict (ConflictWorkflow E)}
        → s.options.enable_workflow_tracking ≡ true
        → s.workflows ≡ some workflows
        → after ≡ some left
        → lookup (generate_conflict_id env.text_of at.workflow_id_time c) left
          ≡ some (new_conflict_workflow env.text_of at.workflow_id_time at.workflow_start c)
        → announced ≡ some (generate_conflict_id env.text_of at.workflow_id_time c)
        → Leftover at c s after announced
    none_started :
        (s.options.enable_workflow_tracking ≡ false) ⊎ (s.workflows ≡ none)
        → after ≡ s.workflows
        → announced ≡ none
        → Leftover at c s after announced

  opening-Leftover :
      (at : Readings) (c : Conflict) (s : StatefulResolver E) (enabled : Bool)
      (workflows : Option (Dict (ConflictWorkflow E)))
      → s.options.enable_workflow_tracking ≡ enabled
      → s.workflows ≡ workflows
      → Leftover at c s
          (open_workflow env at c enabled workflows).0
          (open_workflow env at c enabled workflows).1
  unfolding open_workflow
  opening-Leftover at c s enabled none tracks has = none_started (inr has) (sym has) refl
  opening-Leftover at c s false (some workflows) tracks has =
      none_started (inl tracks) (sym has) refl
  opening-Leftover at c s true (some workflows) tracks has =
      stays tracks has refl (lookup-started at c workflows)
        (unfold start_workflow new_conflict_workflow in refl)

  -- A call of `Resolve` that meets a machine with the standard rules at work on another conflict, as a
  -- second goroutine's call does, is refused: no rule is tried, no hook of the base resolver called, and
  -- the machine and the metrics are left as they are. With workflow tracking on and a workflow manager,
  -- though, the workflow that the call has started is announced by `OnWorkflowStarted` and stays among
  -- the active ones; otherwise there is none, and those there were are left as they are.
  pub resolve_busy :
      (at : Readings) (c : Conflict) (s : StatefulResolver E) (m : ConflictMachine)
      → s.machine ≡ some m
      → IsStandard m
      → m.machine.state ≢ idle
      → let a = resolve env at c s in
        (a.result ≡ err (refused invalid_transition))
        × (a.calls ≡ [])
        × (a.resolver.machine ≡ some m)
        × (a.resolver.metrics ≡ s.metrics)
        × Leftover at c s a.resolver.workflows a.announced
  unfolding resolve
  resolve_busy at c s m has_machine standard busy =
      let answer =
        ap (resolve_from env at c s (opening env at c s)) has_machine
        ∙ resolve_from-busy at c s (opening env at c s) m standard busy in
      (
        ap (λ a. a.result) answer,
        ap (λ a. a.calls) answer,
        ap (λ a. a.resolver.machine) answer,
        ap (λ a. a.resolver.metrics) answer,
        subst (λ a. Leftover at c s a.resolver.workflows a.announced) (sym answer)
            (unfold opening in
              opening-Leftover at c s s.options.enable_workflow_tracking s.workflows refl refl),
      )
