-- ===== src/Workflow/Tests.antt =====
-- synckit/statemachine/conflict_workflow.go: a workflow with a rule that misses and one that fails.
use go_sync_kit.Base.{none, some, List, [], ◌∷◌, Bool, true, false, ◌≡◌, refl}
use go_sync_kit.Types.{Conflict, EventWithVersion, integer, absent}
use go_sync_kit.Workflow.{Timing, new_conflict_workflow, record_rule_evaluation}
use go_sync_kit.Workflow.Active.{generate_audit_trail}
use go_sync_kit.Workflow.Trail.{Change, evaluate, change, change_all, Tells, audit_trail-Tells}

abbrev event : EventWithVersion
event = record {
  event = record {
    id = "e";
    kind = "order";
    aggregate_id = "a";
    payload = absent;
    metadata = none;
  };
  version = integer 1;
}

abbrev conflict : Conflict
conflict = record {
  event_type = "order";
  aggregate_id = "a";
  changed_fields = "total" ∷ [];
  metadata = none;
  local = event;
  remote = event;
}

abbrev times : Timing
times = record { duration = 1; evaluated_at = 4; failed_at = 5 }

abbrev changes : List (Change Bool)
changes =
    evaluate (λ e. e) "misses" false times none []
    ∷ evaluate (λ e. e) "fails" true times none []
    ∷ evaluate (λ e. e) "fails" true times (some false) []
    ∷ []

audit_trail-Tells_example :
    Tells
      (generate_audit_trail (change_all changes (new_conflict_workflow (λ n. "1") 1 2 conflict)))
audit_trail-Tells_example = audit_trail-Tells (λ n. "1") 1 2 conflict changes

-- A rule that fails is listed twice among those that matched.
listed_twice :
    (generate_audit_trail
      (change_all changes (new_conflict_workflow (λ n. "1") 1 2 conflict))).rules_matched
    ≡ "fails" ∷ "fails" ∷ []
unfolding generate_audit_trail change_all change record_rule_evaluation new_conflict_workflow
listed_twice = refl
