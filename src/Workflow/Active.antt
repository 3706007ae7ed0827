-- ===== src/Workflow/Active.antt =====
-- synckit/statemachine/conflict_workflow.go: audit trails, and the manager of the workflows under way.
use go_sync_kit.Base.{
  ℕ, ◌-◌, String, Option, none, some, List, [], ◌∷◌, Bool, length, if◌then◌else◌, str_eq,
}
use go_sync_kit.Base.Dict.{Dict, insert, erase, lookup, is_some}
use go_sync_kit.Machine.{StateTransition}
use go_sync_kit.Types.{Conflict, EventWithVersion, Value}
use go_sync_kit.ConflictMachine.{ConflictMachine, ConflictResolutionState, idle}
use go_sync_kit.Workflow.{
  ConflictWorkflow, RuleEvaluation, RuleFailure, WorkflowMetrics, new_conflict_workflow,
}

-- `ConflictAuditTrail`.
pub record AuditTrail (E : Type 0) : Type 0 where
  pub conflict_id : String
  pub timestamp : ℕ
  pub completed_at : Option ℕ
  pub event_type : String
  pub aggregate_id : String
  pub changed_fields : List String
  pub decision : String
  pub reasons : List String
  pub rules_evaluated : List (RuleEvaluation E)
  pub rules_matched : List String
  pub rules_failed : List (RuleFailure E)
  pub state_history : List (StateTransition ConflictResolutionState)
  pub analysis_results : Dict Value
  pub metrics : WorkflowMetrics
  pub resolved_events : List EventWithVersion

pub record WorkflowStatus : Type 0 where
  pub conflict_id : String
  pub current_state : ConflictResolutionState
  pub duration : ℕ
  pub rules_evaluated : ℕ
  pub rules_matched : ℕ
  pub rules_failed : ℕ
  pub decision : String
  pub is_complete : Bool
  pub last_activity : ℕ

abbrev pub state_of : Option ConflictMachine → ConflictResolutionState
state_of none = idle
state_of (some m) = m.machine.state

abbrev pub last_or {ℓ} : {A : Type ℓ} → (A → ℕ) → ℕ → List A → ℕ
last_or time earlier [] = earlier
last_or time earlier (x ∷ rest) = last_or time (time x) rest

module _ {E : Type 0} where
  unfoldable pub generate_audit_trail : ConflictWorkflow E → AuditTrail E
  generate_audit_trail w = record {
    conflict_id = w.conflict_id;
    timestamp = w.start_time;
    completed_at = w.end_time;
    event_type = w.conflict.event_type;
    aggregate_id = w.conflict.aggregate_id;
    changed_fields = w.conflict.changed_fields;
    decision = w.decision;
    reasons = w.reasons;
    rules_evaluated = w.rules_evaluated;
    rules_matched = w.rules_matched;
    rules_failed = w.rules_failed;
    state_history = w.state_history;
    analysis_results = w.analysis_results;
    metrics = w.metrics;
    resolved_events = w.resolved_events;
  }

  -- `getLastActivityTime`.
  abbrev pub last_activity_time : ConflictWorkflow E → ℕ
  last_activity_time w =
      last_or (λ (t : StateTransition ConflictResolutionState). t.timestamp)
        (last_or (λ (r : RuleEvaluation E). r.evaluated_at) w.start_time w.rules_evaluated)
        w.state_history

  -- `GetCurrentStatus`, at a time, with the machine that the workflow points to.
  unfoldable pub get_current_status :
      ℕ → Option ConflictMachine → ConflictWorkflow E → WorkflowStatus
  get_current_status now m w = record {
    conflict_id = w.conflict_id;
    current_state = state_of m;
    duration = now - w.start_time;
    rules_evaluated = length w.rules_evaluated;
    rules_matched = length w.rules_matched;
    rules_failed = length w.rules_failed;
    decision = w.decision;
    is_complete = is_some w.end_time;
    last_activity = last_activity_time w;
  }

  -- `StartWorkflow`: the manager's map, and the ID of the new workflow.
  unfoldable pub start_workflow :
      (ℕ → String)
      → ℕ
      → ℕ
      → Conflict
      → Dict (ConflictWorkflow E)
      → Dict (ConflictWorkflow E) × String
  unfolding insert new_conflict_workflow
  start_workflow text_of id_time now c workflows =
      let w = new_conflict_workflow text_of id_time now c in
      (insert w.conflict_id w workflows, w.conflict_id)

  -- A call of a method on the workflow that the map holds under an ID.
  unfoldable pub update_workflow :
      String
      → (ConflictWorkflow E → ConflictWorkflow E)
      → Dict (ConflictWorkflow E)
      → Dict (ConflictWorkflow E)
  update_workflow id change [] = []
  update_workflow id change ((key, w) ∷ rest) =
      let later = update_workflow id change rest in
      if str_eq key id then (key, change w) ∷ rest else (key, w) ∷ later

  unfoldable pub trail_of : Option (ConflictWorkflow E) → Option (AuditTrail E)
  unfolding generate_audit_trail
  trail_of none = none
  trail_of (some w) = some (generate_audit_trail w)

  unfoldable pub remaining :
      String → Option (ConflictWorkflow E) → Dict (ConflictWorkflow E) → Dict (ConflictWorkflow E)
  remaining id none workflows = workflows
  remaining id (some w) workflows = erase id workflows

  -- `CompleteWorkflow`; no audit trail is nil.
  unfoldable pub complete_workflow :
      String → Dict (ConflictWorkflow E) → Dict (ConflictWorkflow E) × Option (AuditTrail E)
  unfolding trail_of remaining
  complete_workflow id workflows =
      (remaining id (lookup id workflows) workflows, trail_of (lookup id workflows))

  -- `ListActiveWorkflows`; the order of Go's map is not fixed.
  unfoldable pub list_active_workflows :
      ℕ → Option ConflictMachine → Dict (ConflictWorkflow E) → List WorkflowStatus
  unfolding get_current_status
  list_active_workflows now m [] = []
  list_active_workflows now m ((key, w) ∷ rest) =
      get_current_status now m w ∷ list_active_workflows now m rest
