-- ===== src/Stateful.antt =====
-- synckit/stateful_resolver.go, and the options, metrics and tracker of
-- synckit/statemachine/stateful_resolver.go: a dynamic resolver that follows its work by a machine
-- and by workflows. Clock readings are arguments; of the observability hooks OnWorkflowStarted and
-- OnWorkflowCompleted are kept, as what they are called with, and the logger is nil. Of the tracker its counters are kept, since its checkpoints are not read.
pub mod Calls
pub mod Resolve
pub mod Idle
pub mod Ready
pub mod Outcomes
pub mod Agreement
pub mod Busy
pub mod Sequences
pub mod Counting
pub mod Updates
pub mod Metrics
mod Tests
use Prim.Native.String.{◌++◌ as str_append}
use go_sync_kit.Base.{
  ℕ, ◌+◌, ◌/◌, ◌%◌, ◌^◌, String, Option, none, some, List, [], ◌∷◌, Bool, true, false, ltb, ◌==◌,
  ◌||◌, str_eq, if◌then◌else◌,
}
use go_sync_kit.Base.Dict.{Dict, insert, lookup}
use go_sync_kit.Base.Int.{ℤ, pos}
use go_sync_kit.Types.{Conflict, ResolvedConflict, Version, Result, ok, err}
use go_sync_kit.Resolver.{
  Rule, DynamicResolver, ResolveError, strategy_failed, no_fallback, nil_dereference, HookCall,
  on_rule_matched, on_resolved, on_fallback, on_error, rule_matches,
}
use go_sync_kit.Machine.{TransitionError}
use go_sync_kit.ConflictMachine.{ConflictMachine, Stamp, idle, new_conflict_machine}
use go_sync_kit.ConflictMachine as ConflictMachine
use go_sync_kit.Workflow.{ConflictWorkflow, Timing, record_rule_evaluation}
use go_sync_kit.Workflow.Active.{update_workflow}

-- `StatefulResolverOptions`, without what the code does not read.
pub record StatefulOptions : Type 0 where
  pub enable_state_machine : Bool
  pub max_state_history_size : ℤ
  pub enable_workflow_tracking : Bool
  pub enable_performance_metrics : Bool

abbrev pub default_options : StatefulOptions
default_options = record {
  enable_state_machine = true;
  max_state_history_size = pos 100;
  enable_workflow_tracking = true;
  enable_performance_metrics = true;
}

-- The fields of `ResolverPerformanceMetrics` that the resolver updates. An `int64`, as a `Duration` is,
-- stands as its 64 bits, a number below `2 ^ 64`.
pub record ResolverMetrics : Type 0 where
  pub total_conflicts_resolved : ℕ
  pub total_resolution_time : ℕ
  pub average_resolution_time : ℕ
  pub fastest_resolution_time : ℕ
  pub slowest_resolution_time : ℕ
  pub auto_resolved_count : ℕ
  pub manual_review_count : ℕ
  pub escalated_count : ℕ
  pub failed_count : ℕ
  pub rule_evaluation_count : ℕ
  pub rule_match_count : ℕ

abbrev pub no_metrics : ResolverMetrics
no_metrics = record {
  total_conflicts_resolved = 0;
  total_resolution_time = 0;
  average_resolution_time = 0;
  fastest_resolution_time = 0;
  slowest_resolution_time = 0;
  auto_resolved_count = 0;
  manual_review_count = 0;
  escalated_count = 0;
  failed_count = 0;
  rule_evaluation_count = 0;
  rule_match_count = 0;
}

pub record StatefulResolver (E : Type 0) : Type 0 where
  pub base : DynamicResolver Conflict ResolvedConflict E
  pub machine : Option ConflictMachine
  pub workflows : Option (Dict (ConflictWorkflow E))
  pub options : StatefulOptions
  pub metrics : Option ResolverMetrics

-- Why `Resolve` fails: the machine refuses to move, or as the base resolver.
pub data StatefulError (E : Type 0) : Type 0 where
  refused : TransitionError → StatefulError E
  unresolved : ResolveError E → StatefulError E

-- What the code takes from elsewhere: how times are written, the `Compare` of versions, and which
-- errors are those of a context.
pub record Surroundings (E : Type 0) : Type 0 where
  pub text_of : ℕ → String
  pub format_time : ℕ → String
  pub compare : Version → Version → ℤ
  pub is_context_error : E → Bool

pub record RuleReadings : Type 0 where
  pub duration : ℕ
  pub recorded_at : ℕ
  pub recorded_again_at : ℕ
  pub failed_at : ℕ

-- The readings of the clock in one call of `Resolve`, and what its transitions are recorded under.
pub record Readings : Type 0 where
  pub workflow_id_time : ℕ
  pub workflow_start : ℕ
  pub machine_id_time : ℕ
  pub start : Stamp
  pub analysis : ℕ
  pub begin : Stamp
  pub of_rule : ℕ → RuleReadings
  pub finish : Stamp
  pub workflow_end : ℕ
  pub workflow_after_end : ℕ
  pub total_duration : ℕ
  pub at_reset : Stamp

-- `+` on `int64`.
abbrev pub add64 : ℕ → ℕ → ℕ
add64 a b = (a + b) % 2 ^ 64

-- `PerformanceTracker.Increment` and `GetCounter`.
abbrev pub or_zero : Option ℕ → ℕ
or_zero none = 0
or_zero (some n) = n

unfoldable pub get_counter : String → Dict ℕ → ℕ
get_counter name counters = or_zero (lookup name counters)

unfoldable pub increment : String → Dict ℕ → Dict ℕ
unfolding get_counter
increment name counters = insert name (add64 (get_counter name counters) 1) counters

-- The local state of one call of `Resolve`: the fields of the resolver that it changes, the ID of
-- its workflow, and the counters of its tracker, where there are any.
pub record Tracking (E : Type 0) : Type 0 where
  pub machine : Option ConflictMachine
  pub workflows : Option (Dict (ConflictWorkflow E))
  pub workflow : Option String
  pub tracker : Option (Dict ℕ)

abbrev pub lift_option {ℓ κ} : {A : Type ℓ} {B : Type κ} → (A → B) → Option A → Option B
lift_option f none = none
lift_option f (some a) = some (f a)

abbrev pub options_or_default : Option StatefulOptions → StatefulOptions
options_or_default none = default_options
options_or_default (some options) = options

unfoldable pub machine_of : ℕ → StatefulOptions → Option ConflictMachine
unfolding new_conflict_machine
machine_of now options =
    if options.enable_state_machine
    then new_conflict_machine now (
        some (record {
          initial_state = idle;
          transition_rules = none;
          validator = none;
          max_history_size = options.max_state_history_size;
        }))
    else none

module _ {E : Type 0} where
  abbrev pub base_or_error :
      Option (DynamicResolver Conflict ResolvedConflict E)
      → (DynamicResolver Conflict ResolvedConflict E → Result String (StatefulResolver E))
      → Result String (StatefulResolver E)
  base_or_error none build = err "base resolver cannot be nil"
  base_or_error (some base) build = build base

  unfoldable pub build :
      ℕ → StatefulOptions → DynamicResolver Conflict ResolvedConflict E → StatefulResolver E
  unfolding machine_of
  build now options base = record {
    base = base;
    machine = machine_of now options;
    workflows = if options.enable_workflow_tracking then some [] else none;
    options = options;
    metrics = if options.enable_performance_metrics then some no_metrics else none;
  }

  -- `NewStatefulDynamicResolver`.
  unfoldable pub new_stateful_resolver :
      ℕ
      → Option (DynamicResolver Conflict ResolvedConflict E)
      → Option StatefulOptions
      → Result String (StatefulResolver E)
  unfolding build
  new_stateful_resolver now base options =
      base_or_error base (λ b. ok (build now (options_or_default options) b))

  -- `Configure`: only the options are replaced.
  unfoldable pub configure :
      Option StatefulOptions → StatefulResolver E → StatefulResolver E × Option String
  configure none s = (s, some "options cannot be nil")
  configure (some options) s = (record s { options = options }, none)

  abbrev pub within :
      (String → Dict (ConflictWorkflow E) → Dict (ConflictWorkflow E))
      → Option String
      → Option (Dict (ConflictWorkflow E))
      → Option (Dict (ConflictWorkflow E))
  within change none workflows = workflows
  within change (some id) workflows = lift_option (change id) workflows

  -- A method of the machine, of the workflow or of the tracker is called where there is one.
  unfoldable pub with_machine : (ConflictMachine → ConflictMachine) → Tracking E → Tracking E
  with_machine change t = record t { machine = lift_option change t.machine }

  unfoldable pub with_workflow : (ConflictWorkflow E → ConflictWorkflow E) → Tracking E → Tracking E
  with_workflow change t = record t {
    workflows = within (λ id. update_workflow id change) t.workflow t.workflows;
  }

  unfoldable pub count : String → Tracking E → Tracking E
  unfolding increment
  count name t = record t { tracker = lift_option (increment name) t.tracker }

  -- What is recorded of each rule, of one that matched, and of one whose strategy failed.
  unfoldable pub track_evaluation :
      Surroundings E → RuleReadings → String → Bool → Tracking E → Tracking E
  unfolding with_machine with_workflow
  track_evaluation env at name matched t =
      with_workflow
        (record_rule_evaluation env.is_context_error name matched
          (record {
            duration = at.duration;
            evaluated_at = at.recorded_at;
            failed_at = at.failed_at;
          })
          none [])
        (with_machine (ConflictMachine.record_rule_evaluation name) t)

  unfoldable pub track_failure :
      Surroundings E → RuleReadings → String → E → Tracking E → Tracking E
  unfolding with_machine with_workflow
  track_failure env at name e t =
      with_workflow
        (record_rule_evaluation env.is_context_error name true
          (record {
            duration = at.duration;
            evaluated_at = at.recorded_again_at;
            failed_at = at.failed_at;
          })
          (some e) [])
        (with_machine (ConflictMachine.record_rule_failed name) t)
