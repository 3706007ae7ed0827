-- ===== src/Workflow.antt =====
-- synckit/statemachine/conflict_workflow.go: the record of one resolution, and the manager of those
-- under way. A workflow is reached through the manager's map, by its ID. Clock readings are
-- arguments; the options, which the code does not use, are left out.
pub mod Trail
pub mod Active
mod Tests
use Prim.Native.String.{◌++◌ as str_append}
use go_sync_kit.Base.{
  ℕ, ◌+◌, ◌-◌, String, Option, none, some, List, [], ◌∷◌, ◌++◌, Bool, true, false, not,
  if◌then◌else◌, length,
}
use go_sync_kit.Base.Dict.{Dict, insert, erase, lookup, is_some}
use go_sync_kit.Base.Int.{ℤ, pos, is_minus_one, is_zero, is_one}
use go_sync_kit.Machine.{StateTransition}
use go_sync_kit.Types.{
  Conflict, EventWithVersion, ResolvedConflict, Value, text, number, opaque, Version,
}
use go_sync_kit.ConflictMachine.{ConflictMachine, ConflictResolutionState, idle}

pub record RuleEvaluation (E : Type 0) : Type 0 where
  pub rule_name : String
  pub matched : Bool
  pub evaluated_at : ℕ
  pub duration : ℕ
  pub error : Option E
  pub metadata : Dict Value

pub record RuleFailure (E : Type 0) : Type 0 where
  pub rule_name : String
  pub error : E
  pub failed_at : ℕ
  pub context : String
  pub retryable : Bool
  pub metadata : Dict Value

pub record WorkflowMetrics : Type 0 where
  pub total_duration : ℕ
  pub analysis_duration : ℕ
  pub resolution_duration : ℕ
  pub rules_evaluated : ℕ
  pub rules_matched : ℕ
  pub rules_failed : ℕ

-- A zero `endTime` is `none`.
pub record ConflictWorkflow (E : Type 0) : Type 0 where
  pub conflict : Conflict
  pub conflict_id : String
  pub start_time : ℕ
  pub end_time : Option ℕ
  pub rules_evaluated : List (RuleEvaluation E)
  pub rules_matched : List String
  pub rules_failed : List (RuleFailure E)
  pub decision : String
  pub reasons : List String
  pub resolved_events : List EventWithVersion
  pub state_history : List (StateTransition ConflictResolutionState)
  pub analysis_results : Dict Value
  pub metrics : WorkflowMetrics

-- `generateConflictID`, with the text of the time in nanoseconds.
abbrev pub generate_conflict_id : (ℕ → String) → ℕ → Conflict → String
generate_conflict_id text_of now c =
    str_append c.event_type
      (str_append ":" (str_append c.aggregate_id (str_append ":" (text_of now))))

-- `context.Canceled` and `context.DeadlineExceeded` are the errors that the test accepts.
abbrev pub is_retryable_error : {E : Type 0} → (E → Bool) → Option E → Bool
is_retryable_error is_context_error none = false
is_retryable_error is_context_error (some e) = not (is_context_error e)

-- A Go bool among the results of the analysis.
abbrev pub flag : Bool → Value
flag true = opaque 1
flag false = opaque 0

unfoldable pub relationship : ℤ → Dict Value → Dict Value
relationship comparison found =
    if is_minus_one comparison
    then insert "version_relationship" (text "local_older") found
    else if is_zero comparison
    then insert "version_relationship" (text "equal") found
    else if is_one comparison
    then insert "version_relationship" (text "local_newer") found
    else found

-- What `StartAnalysis` adds for a conflict whose versions are not nil; `compare` is the method
-- `Compare` of the `Version` interface.
unfoldable pub analysis : (Version → Version → ℤ) → Conflict → Dict Value → Dict Value
unfolding relationship
analysis compare c found =
    let comparison = compare c.local.version c.remote.version in
    relationship comparison (
      insert "version_comparison" (number comparison) (
        insert "has_remote_version" (flag true) (
          insert "has_local_version" (flag true) (
            insert "changed_fields_count" (number (pos (length c.changed_fields))) (
              insert "aggregate_id" (text c.aggregate_id)
                (insert "conflict_type" (text c.event_type) found))))))

-- The readings of the clock while a rule is recorded.
pub record Timing : Type 0 where
  pub duration : ℕ
  pub evaluated_at : ℕ
  pub failed_at : ℕ

module _ {E : Type 0} where
  -- `NewConflictWorkflow`, with the clock read for the ID and for the start.
  unfoldable pub new_conflict_workflow : (ℕ → String) → ℕ → ℕ → Conflict → ConflictWorkflow E
  new_conflict_workflow text_of id_time now c = record {
    conflict = c;
    conflict_id = generate_conflict_id text_of id_time c;
    start_time = now;
    end_time = none;
    rules_evaluated = [];
    rules_matched = [];
    rules_failed = [];
    decision = "";
    reasons = [];
    resolved_events = [];
    state_history = [];
    analysis_results = [];
    metrics = record {
      total_duration = 0;
      analysis_duration = 0;
      resolution_duration = 0;
      rules_evaluated = 0;
      rules_matched = 0;
      rules_failed = 0;
    };
  }

  unfoldable pub start_analysis :
      (Version → Version → ℤ) → ℕ → ConflictWorkflow E → ConflictWorkflow E
  unfolding analysis
  start_analysis compare now w = record w {
    metrics = record w.metrics { analysis_duration = now - w.start_time };
    analysis_results = analysis compare w.conflict w.analysis_results;
  }

  unfoldable pub record_match : String → Bool → ConflictWorkflow E → ConflictWorkflow E
  record_match rule false w = w
  record_match rule true w = record w {
    rules_matched = w.rules_matched ++ rule ∷ [];
    metrics = record w.metrics { rules_matched = w.metrics.rules_matched + 1 };
  }

  unfoldable pub record_failure :
      (E → Bool) → String → ℕ → Option E → Dict Value → ConflictWorkflow E → ConflictWorkflow E
  record_failure is_context_error rule failed_at none metadata w = w
  record_failure is_context_error rule failed_at (some e) metadata w = record w {
    rules_failed =
        w.rules_failed
        ++ record {
          rule_name = rule;
          error = e;
          failed_at = failed_at;
          context = "rule_evaluation";
          retryable = is_retryable_error is_context_error (some e);
          metadata = metadata;
        }
          ∷ [];
    metrics = record w.metrics { rules_failed = w.metrics.rules_failed + 1 };
  }

  unfoldable pub record_evaluation :
      String → Bool → Timing → Option E → Dict Value → ConflictWorkflow E → ConflictWorkflow E
  record_evaluation rule matched times e metadata w = record w {
    rules_evaluated =
        w.rules_evaluated
        ++ record {
          rule_name = rule;
          matched = matched;
          evaluated_at = times.evaluated_at;
          duration = times.duration;
          error = e;
          metadata = metadata;
        }
          ∷ [];
    metrics = record w.metrics { rules_evaluated = w.metrics.rules_evaluated + 1 };
  }

  -- `RecordRuleEvaluation`.
  unfoldable pub record_rule_evaluation :
      (E → Bool)
      → String
      → Bool
      → Timing
      → Option E
      → Dict Value
      → ConflictWorkflow E
      → ConflictWorkflow E
  unfolding record_failure record_match record_evaluation
  record_rule_evaluation is_context_error rule matched times e metadata w =
      record_failure is_context_error rule times.failed_at e metadata
        (record_match rule matched (record_evaluation rule matched times e metadata w))

  unfoldable pub record_state_transition :
      StateTransition ConflictResolutionState → ConflictWorkflow E → ConflictWorkflow E
  record_state_transition t w = record w { state_history = w.state_history ++ t ∷ [] }

  -- `CompleteResolution`, with the clock read for the end and after it. `RulesDuration` is never
  -- set, so the time since the end is all of `ResolutionDuration`.
  unfoldable pub complete_resolution :
      ℕ → ℕ → ResolvedConflict → ConflictWorkflow E → ConflictWorkflow E
  complete_resolution now later r w = record w {
    end_time = some now;
    decision = r.decision;
    reasons = w.reasons ++ r.reasons;
    resolved_events = w.resolved_events ++ r.resolved_events;
    metrics = record w.metrics {
      total_duration = now - w.start_time;
      resolution_duration = later - now;
    };
  }
