-- ===== src/Stateful/Resolve.antt =====
-- synckit/stateful_resolver.go: `Resolve` from its start to its end, and the metrics.
use go_sync_kit.Base.{
  ℕ, ◌+◌, ◌-◌, ◌/◌, ◌%◌, ◌^◌, String, Option, none, some, List, [], Bool, true, false, ltb, ◌==◌,
  ◌||◌, str_eq, if◌then◌else◌,
}
use go_sync_kit.Base.Dict.{Dict}
use go_sync_kit.Types.{Conflict, ResolvedConflict, Result, ok, err}
use go_sync_kit.Resolver.{HookCall, nil_dereference, strategy_failed, no_fallback}
use go_sync_kit.Machine.{TransitionError}
use go_sync_kit.ConflictMachine.{
  ConflictMachine, Stamp, start_resolution, require_manual_review, escalate_conflict,
  fail_resolution, reset,
}
use go_sync_kit.ConflictMachine as ConflictMachine
use go_sync_kit.Workflow.{ConflictWorkflow, start_analysis, complete_resolution}
use go_sync_kit.Workflow.Active.{AuditTrail, start_workflow, update_workflow, complete_workflow}
use go_sync_kit.Stateful.{
  StatefulResolver, StatefulError, refused, unresolved, Surroundings, Readings, ResolverMetrics,
  Tracking, get_counter, add64, with_workflow, lift_option,
}
use go_sync_kit.Stateful.Calls.{Tracked, generate_conflict_id, resolve_with_tracking}

-- The outcome as far as the code after the resolution distinguishes it.
pub data Outcome : Type 0 where
  failed manual escalated other : Outcome

-- `switch result.Decision`.
abbrev pub decision_outcome : String → Outcome
decision_outcome decision =
    if str_eq decision "manual_review"
    then manual
    else if str_eq decision "escalated"
    then escalated
    else other

abbrev pub outcome : {E : Type 0} → Result (StatefulError E) ResolvedConflict → Outcome
outcome (ok res) = decision_outcome res.decision
outcome (err e) = failed

-- The panic of a rule that has a nil resolver.
abbrev pub is_panic : {E : Type 0} → Result (StatefulError E) ResolvedConflict → Bool
is_panic (ok res) = false
is_panic (err (refused e)) = false
is_panic (err (unresolved (strategy_failed e))) = false
is_panic (err (unresolved no_fallback)) = false
is_panic (err (unresolved nil_dereference)) = true

abbrev pub settle : Outcome → Stamp → ConflictMachine → ConflictMachine
settle failed stamp m = (fail_resolution stamp m).0
settle manual stamp m = (require_manual_review stamp m).0
settle escalated stamp m = (escalate_conflict stamp m).0
settle other stamp m = (ConflictMachine.complete_resolution stamp m).0

abbrev pub tally : Outcome → ResolverMetrics → ResolverMetrics
tally failed m = record m { failed_count = add64 m.failed_count 1 }
tally manual m = record m { manual_review_count = add64 m.manual_review_count 1 }
tally escalated m = record m { escalated_count = add64 m.escalated_count 1 }
tally other m = record m { auto_resolved_count = add64 m.auto_resolved_count 1 }

-- `<` on `int64`.
unfoldable pub less : ℕ → ℕ → Bool
less a b = ltb ((a + 2 ^ 63) % 2 ^ 64) ((b + 2 ^ 63) % 2 ^ 64)

-- `/` on `int64` by a positive number, which rounds towards zero.
unfoldable pub quotient : ℕ → ℕ → ℕ
unfolding less
quotient a n = if less a 0 then (2 ^ 64 - (2 ^ 64 - a) / n) % 2 ^ 64 else a / n

-- `updatePerformanceMetrics`.
unfoldable pub update_metrics : ℕ → Dict ℕ → Outcome → ResolverMetrics → ResolverMetrics
unfolding less quotient
update_metrics took counters out m =
    let n = add64 m.total_conflicts_resolved 1 in
    let time = add64 m.total_resolution_time took in
    let tallied = tally out (record m {
      total_conflicts_resolved = n;
      total_resolution_time = time;
      average_resolution_time = if less 0 n then quotient time n else m.average_resolution_time;
      fastest_resolution_time =
          if m.fastest_resolution_time == 0 || less took m.fastest_resolution_time
          then took
          else m.fastest_resolution_time;
      slowest_resolution_time =
          if less m.slowest_resolution_time took then took else m.slowest_resolution_time;
    }) in
    record tallied {
      rule_evaluation_count =
          add64 m.rule_evaluation_count (get_counter "rules_evaluated" counters);
      rule_match_count = add64 m.rule_match_count (get_counter "rules_matched" counters);
    }

abbrev pub metrics_after :
    ℕ → Option (Dict ℕ) → Outcome → Option ResolverMetrics → Option ResolverMetrics
metrics_after took none out metrics = metrics
metrics_after took (some counters) out metrics =
    lift_option (update_metrics took counters out) metrics

-- What one call of `Resolve` leaves and returns, with the audit trail of `OnWorkflowCompleted` and, where
-- a workflow was started, the ID for which `OnWorkflowStarted` was called.
pub record Answer (E : Type 0) : Type 0 where
  pub resolver : StatefulResolver E
  pub calls : List (HookCall Conflict ResolvedConflict E)
  pub result : Result (StatefulError E) ResolvedConflict
  pub trail : Option (AuditTrail E)
  pub announced : Option String

module _ {E : Type 0} where
  abbrev pub complete_if_ok :
      Readings → Result (StatefulError E) ResolvedConflict → ConflictWorkflow E → ConflictWorkflow E
  complete_if_ok at (ok res) w = complete_resolution at.workflow_end at.workflow_after_end res w
  complete_if_ok at (err e) w = w

  -- The end of the workflow of this call, where there is one.
  unfoldable pub close_workflow :
      Readings
      → Result (StatefulError E) ResolvedConflict
      → Option String
      → Option (Dict (ConflictWorkflow E))
      → Option (Dict (ConflictWorkflow E)) × Option (AuditTrail E)
  close_workflow at r none workflows = (workflows, none)
  close_workflow at r (some id) none = (none, none)
  close_workflow at r (some id) (some workflows) =
      let (rest, trail) =
        complete_workflow id (update_workflow id (complete_if_ok at r) workflows) in
      (some rest, trail)

  -- What `Resolve` does once the tracked resolution has returned; `defer` makes the reset last.
  unfoldable pub conclude : Readings → StatefulResolver E → Tracked E → Answer E
  conclude at s d =
      let t = d.tracking in
      let out = outcome d.result in
      let (workflows, trail) = close_workflow at d.result t.workflow t.workflows in
      record {
        resolver = record s {
          machine =
              lift_option (λ (m : ConflictMachine). (reset at.at_reset (settle out at.finish m)).0)
                t.machine;
          workflows = workflows;
          metrics = metrics_after at.total_duration t.tracker out s.metrics;
        };
        calls = d.calls;
        result = d.result;
        trail = trail;
        announced = t.workflow;
      }

  -- The end of `Resolve`; a panic leaves everything as it was when it arose.
  unfoldable pub finish : Readings → StatefulResolver E → Tracked E → Answer E
  finish at s d =
      if is_panic d.result
      then record {
        resolver = record s { machine = d.tracking.machine; workflows = d.tracking.workflows };
        calls = d.calls;
        result = d.result;
        trail = none;
        announced = d.tracking.workflow;
      }
      else conclude at s d

  -- `StartWorkflow`, where tracking is enabled and there is a manager.
  unfoldable pub open_workflow :
      Surroundings E
      → Readings
      → Conflict
      → Bool
      → Option (Dict (ConflictWorkflow E))
      → Option (Dict (ConflictWorkflow E)) × Option String
  open_workflow env at c enabled none = (none, none)
  open_workflow env at c false (some workflows) = (some workflows, none)
  open_workflow env at c true (some workflows) =
      let (started, id) =
        start_workflow env.text_of at.workflow_id_time at.workflow_start c workflows in
      (some started, some id)

  unfoldable pub opening : Surroundings E → Readings → Conflict → StatefulResolver E → Tracking E
  unfolding open_workflow
  opening env at c s =
      let (workflows, workflow) =
        open_workflow env at c s.options.enable_workflow_tracking s.workflows in
      record {
        machine = s.machine;
        workflows = workflows;
        workflow = workflow;
        tracker = if s.options.enable_performance_metrics then some [] else none;
      }

  -- The early return where the machine refuses to start.
  unfoldable pub after_start :
      StatefulResolver E → Tracking E → Option TransitionError → Answer E → Answer E
  after_start s t none later = later
  after_start s t (some e) later = record {
    resolver = record s { machine = t.machine; workflows = t.workflows };
    calls = [];
    result = err (refused e);
    trail = none;
    announced = t.workflow;
  }

  -- What follows the start of the workflow, by whether there is a machine.
  unfoldable pub resolve_from :
      Surroundings E
      → Readings
      → Conflict
      → StatefulResolver E
      → Tracking E
      → Option ConflictMachine
      → Answer E
  resolve_from env at c s opened none = finish at s (resolve_with_tracking env at c s.base opened)
  resolve_from env at c s opened (some m) =
      let (started, e) =
        start_resolution (generate_conflict_id env.format_time at.machine_id_time c) at.start m in
      let moved = record opened { machine = some started } in
      let analysed = with_workflow (start_analysis env.compare at.analysis) moved in
      after_start s moved e (finish at s (resolve_with_tracking env at c s.base analysed))

  -- `Resolve`.
  unfoldable pub resolve : Surroundings E → Readings → Conflict → StatefulResolver E → Answer E
  resolve env at c s = resolve_from env at c s (opening env at c s) s.machine
